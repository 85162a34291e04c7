-- ===== src/Tree/Run.antt =====
-- A run of insertions into an empty tree, against a list of pairs.
use hetero_indexing.Prelude.{
  ℕ, ◌<◌, ◌^◌, ◌≡◌, ◌≢◌, refl, ap, ◌∙◌, false, none, some, arith, ◌==◌, if◌then◌else◌, List, [],
  ◌∷◌, length,
}
use hetero_indexing.Common.{Entry}
use hetero_indexing.Hash.{find}
use hetero_indexing.Art.{null}
use hetero_indexing.Tree.{ArtTree, empty_tree, art_insert_no_replace, lookup}
use hetero_indexing.Tree.Shape.{IsTree}
use hetero_indexing.Tree.Insert.{insert_lem}

-- Words that are no empty slot, each at most once.
abbrev pub Fresh : List Entry → Type 0
Fresh [] = Unit
Fresh (e ∷ es) = (e.key ≢ 0) × (e.key < 2 ^ 64) × (find e.key es ≡ none) × Fresh es

-- The pairs inserted one by one, the last of the list first.
unfoldable pub insert_all : List Entry → ArtTree
insert_all [] = empty_tree
insert_all (e ∷ es) = (art_insert_no_replace false (insert_all es) e).0

lookup-null : (k : ℕ) → lookup null k 0 ≡ none
unfolding lookup
lookup-null k = refl

-- Fewer than 2 ^ 64 pairs with different keys, none of MEM_TYPE, inserted into an empty tree by
-- art_insert_no_replace, give a well-formed tree that counts them, in which a search for any key
-- reads what the list of the pairs has for it.
pub insert_all_refines :
    (es : List Entry)
    → Fresh es
    → length es < 2 ^ 64
    → let t = insert_all es in
      IsTree t.root 0 (λ _. 0)
      × (t.size ≡ length es)
      × ((k : ℕ) → k ≢ 0 → k < 2 ^ 64 → lookup t.root k 0 ≡ find k es)
unfolding insert_all art_insert_no_replace find
insert_all_refines [] f l = (tt, refl, λ k n w. lookup-null k)
insert_all_refines (e ∷ es) f l =
    let t = insert_all es in
    let ih = insert_all_refines es f.3 (omega arith) in
    let r =
      insert_lem false t.root e 0 (λ _. 0) ih.0 f.0 f.1 (λ i z. absurd (omega arith))
        (ih.2 e.key f.0 f.1 ∙ f.2) in
    (
      r.0.0,
      rw r.1 (omega (arith, ih.1, l)),
      λ k n w. r.0.2 k n w ∙ ap (λ o. if e.key == k then some e.value else o) (ih.2 k n w),
    )
