-- ===== src/Float/Settled.antt =====
-- The loop of art_search with its float, on a well-formed tree.
use hetero_indexing.Prelude.{
  ℕ, ◌+◌, ◌<◌, ◌≡◌, ◌⊎◌, refl, sym, ap, true, false, none, some, arith, ◌==◌, get_or,
}
use native.Mathlib.Decide.{ℕ_discrete}
use hetero_indexing.Common.{buf_len, Murmur}
use hetero_indexing.Sketch.{Sketch}
use hetero_indexing.Art.{
  Header, Node, null, leaf, inner, is_null, empty_entry, key_byte, find_child,
}
use hetero_indexing.Tree.{lookup}
use hetero_indexing.Tree.Shape.{IsTree, extend}
use hetero_indexing.Tree.Step.{Sets}
use hetero_indexing.Float.{Sought, missed}
use hetero_indexing.Float.Lift.{Swaps}

module _ (m : Murmur) (cm : Sketch) (key freq : ℕ) where
  -- No pair that a float replaces is put back with recursive_insert.
  abbrev pub Swappable : ℕ → (ℕ → ℕ) → Header → (ℕ → Node) → ℕ → Node → Type 0
  Swappable d path h ch i null = Unit
  Swappable d path h ch i (leaf e) = Unit
  Swappable d path h ch i (inner g below) =
      (slot : ℕ)
      → slot < buf_len
      → (get_or g.buffer slot empty_entry).key ≡ key
      → Swaps m cm key freq slot none d path h ch i g below

  -- So it is for all nodes on the way to the key.
  abbrev pub Settled : Node → ℕ → (ℕ → ℕ) → Type 0
  Settled null d path = Unit
  Settled (leaf e) d path = Unit
  Settled (inner h ch) d path =
      (i : ℕ)
      → find_child h ch (key_byte key (d + h.partial_len)) ≡ some i
      → Settled (ch i) (d + h.partial_len + 1) (extend path d h (key_byte key (d + h.partial_len)))
        × Swappable d path h ch i (ch i)

  -- What the loop leaves: the same pairs in a well-formed tree, or the node as it was, where its pair
  -- is still to be floated.
  abbrev pub Stays : ℕ → (ℕ → ℕ) → Node → Sought → Type 0
  Stays d path o r =
      (r.pending ≡ none)
      × Sets key (lookup o key d) d path o r.node
      × (is_null r.node ≡ is_null o)
      × (r.delta ≡ 0)

  pub record Pends (d : ℕ) (o : Node) (r : Sought) : Type 0 where
    pub header : Header
    pub below : ℕ → Node
    pub slot : ℕ
    pub shape : o ≡ inner header below
    pub node : r.node ≡ inner header below
    pub pending : r.pending ≡ some (slot, d + header.partial_len)
    pub value : r.value ≡ some (get_or header.buffer slot empty_entry).value
    pub delta : r.delta ≡ 0
    pub slot_lt : slot < buf_len
    pub in_slot : (get_or header.buffer slot empty_entry).key ≡ key

  abbrev pub Keeps : ℕ → (ℕ → ℕ) → Node → Sought → Type 0
  Keeps d path o r = Stays d path o r ⊎ Pends d o r

  -- A tree has the pairs that it has.
  pub same-Sets :
      (d : ℕ) (path : ℕ → ℕ) (o : Node) → IsTree o d path → Sets key (lookup o key d) d path o o
  same-Sets d path o t = (
    t,
    λ k n w. elim (ℕ_discrete key k) [
      | yes p ↦
          let test : (key == k) ≡ true = ground (arith, p) in
          rw test (ap (λ z. lookup o z d) (sym p))
      | no p ↦ let test : (key == k) ≡ false = ground (arith, p) in rw test refl
    ],
  )

  -- A tree in which a search finds a value is not NULL.
  pub filled : (o : Node) (v d : ℕ) → lookup o key d ≡ some v → is_null o ≡ false
  unfolding lookup
  filled null v d e = absurd (ground (arith, e))
  filled (leaf l) v d e = refl
  filled (inner h ch) v d e = refl

  pub missed-Stays : (d : ℕ) (path : ℕ → ℕ) (o : Node) → IsTree o d path → Stays d path o (missed o)
  missed-Stays d path o t = (refl, same-Sets d path o t, refl, refl)
