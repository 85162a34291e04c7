-- ===== src/Tree/Tests.antt =====
-- Runs and witnesses of the tree.
use hetero_indexing.Prelude.{
  suc, zero, replicate, some, ℕ, ◌^◌, ◌<◌, ◌≡◌, ◌≢◌, refl, true, false, none, arith, List, [], ◌∷◌,
  length,
}
use hetero_indexing.Common.{Entry, buf_len}
use hetero_indexing.Art.{Node, leaf, inner, Header, find_first, key_byte}
use hetero_indexing.Hash.{find}
use hetero_indexing.Tree.{lookup, insert, place_last}
use hetero_indexing.Tree.Shape.{IsTree}
use hetero_indexing.Tree.Insert.{Inserts, insert_lem}
use hetero_indexing.Tree.Shape.{Agrees, extend, mismatch}
use hetero_indexing.Tree.Step.{Stores}
use hetero_indexing.Tree.Wrap.{wrapper, wrapped, wrapper-IsTree}
use hetero_indexing.Tree.Search.{find-zeroed}
use hetero_indexing.Tree.Buffer.{buffered_lem, hidden_lem}
use hetero_indexing.Tree.Run.{Fresh, insert_all, insert_all_refines}

abbrev pair : ℕ → ℕ → Entry
pair k v = record { key = k; value = v }

-- The second pair splits a leaf, the third and the fourth a prefix.
abbrev pairs : List Entry
pairs = pair 65794 40 ∷ pair 513 30 ∷ pair 131329 20 ∷ pair 65793 10 ∷ []

pairs-Fresh : Fresh pairs
unfolding find
pairs-Fresh = (
  omega arith,
  omega arith,
  refl,
  (
    omega arith,
    omega arith,
    refl,
    (omega arith, omega arith, refl, (omega arith, omega arith, refl, tt)),
  ),
)

all_built :
    let t = insert_all pairs in
    IsTree t.root 0 (λ _. 0)
    × (t.size ≡ length pairs)
    × ((k : ℕ) → k ≢ 0 → k < 2 ^ 64 → lookup t.root k 0 ≡ find k pairs)
all_built = insert_all_refines pairs pairs-Fresh (omega arith)

unheld : lookup (insert_all pairs).root 2 0 ≡ none
unfolding find
unheld = all_built.2 2 (omega arith) (omega arith)

insert_lem_example :
    Inserts
      (pair 2 50)
      0
      (λ _. 0)
      (insert_all pairs).root
      (insert false true (insert_all pairs).root (pair 2 50) 0)
insert_lem_example =
    insert_lem true (insert_all pairs).root (pair 2 50) 0 (λ _. 0) all_built.0 (omega arith)
      (omega arith) (λ i l. absurd (omega arith)) unheld

-- A node with the prefix 1 1 and one child.
abbrev zeroed : List Entry
zeroed = replicate buf_len (pair 0 0)

abbrev node : Header
node = wrapper 2 (λ _. 1) zeroed 1 (leaf (pair 65793 10))

abbrev below : ℕ → Node
below = wrapped 2 (λ _. 1) zeroed 1 (leaf (pair 65793 10))

leaf_on_path : Agrees 3 (extend (λ _. 0) 0 node 1) 65793
unfolding key_byte
leaf_on_path zero l = refl
leaf_on_path (suc zero) l = refl
leaf_on_path (suc (suc zero)) l = refl
leaf_on_path (suc (suc (suc i))) l = absurd (omega arith)

node-IsTree : IsTree (inner node below) 0 (λ _. 0)
node-IsTree =
    wrapper-IsTree 2 (λ _. 1) zeroed 1 (leaf (pair 65793 10)) (omega arith) refl 0 (λ _. 0)
      (omega arith) (λ i l. omega arith) (λ k n f. absurd (f (find-zeroed k n)))
      (omega arith, leaf_on_path) refl

fits : mismatch node 131329 0 ≡ none
unfolding find_first key_byte
fits = refl

differs : mismatch node 513 0 ≡ some 1
unfolding find_first key_byte
differs = refl

abbrev filled : Entry → List Entry
filled e = pair 0 0 ∷ pair 0 0 ∷ e ∷ []

room : (e : Entry) → place_last e zeroed ≡ some (filled e)
unfolding place_last
room e = refl

buffered_lem_example :
    let r = insert true false (inner node below) (pair 131329 20) 0 in
    Stores (pair 131329 20) 0 (λ _. 0) (inner node below) r.node × (r.in_buffer ≡ true)
buffered_lem_example =
    buffered_lem node below (pair 131329 20) 0 (λ _. 0) (filled (pair 131329 20)) node-IsTree
      (omega arith) (omega arith) (λ i l. absurd (omega arith)) fits
      (find-zeroed 131329 (omega arith)) (room (pair 131329 20))

hidden_lem_example :
    let r = insert true false (inner node below) (pair 513 30) 0 in
    (r.in_buffer ≡ true) × (lookup r.node 513 0 ≡ none)
hidden_lem_example =
    hidden_lem node below (pair 513 30) 0 (filled (pair 513 30)) (find-zeroed 513 (omega arith))
      (room (pair 513 30)) 1 (omega arith) (omega arith) differs
