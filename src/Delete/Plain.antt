-- ===== src/Delete/Plain.antt =====
-- Trees without buffered pairs, in which no removal turns a pair of a buffer into a leaf.
use hetero_indexing.Prelude.{
  ℕ, zero, suc, ◌+◌, ◌≡◌, refl, true, arith, ltb, List, [], ◌∷◌, get_or, Bool-cases, inl, inr,
}
use native.Mathlib.Decide.{ℕ_discrete}
use hetero_indexing.Common.{Entry, is_special_key}
use hetero_indexing.Hash.{find}
use hetero_indexing.Art.{Header, Node, empty_entry}
use hetero_indexing.Tree.Plain.{Quiet}
use hetero_indexing.Delete.{unbuffer}

Quiet-tail : (e : Entry) (es : List Entry) → Quiet (e ∷ es) → Quiet es
unfolding find
Quiet-tail e es q k n = ground (arith, q k n)

get_or-Quiet : (es : List Entry) (i : ℕ) → Quiet es → (get_or es i empty_entry).key ≡ 0
unfolding find
get_or-Quiet [] i q = refl
get_or-Quiet (e ∷ es) zero q = elim (ℕ_discrete e.key 0) [
  | yes z ↦ z
  | no z ↦ absurd (ground (arith, q e.key z))
]
get_or-Quiet (e ∷ es) (suc i) q = get_or-Quiet es i (Quiet-tail e es q)

-- The loop of remove_child4 over such a buffer does nothing.
pub unbuffer-Quiet :
    (n i depth : ℕ) (h : Header) (ch : ℕ → Node) (cnt : ℕ)
    → Quiet h.buffer
    → unbuffer n i depth h ch cnt ≡ ((h, ch), cnt)
unfolding unbuffer
unbuffer-Quiet zero i depth h ch cnt q = refl
unbuffer-Quiet (suc n) i depth h ch cnt q =
    let special : is_special_key (get_or h.buffer i empty_entry).key ≡ true =
      rw (get_or-Quiet h.buffer i q) refl in
    elim (Bool-cases (ltb h.num_children 4)) [
      | inl a ↦ rw (a, special) (unbuffer-Quiet n (i + 1) depth h ch cnt q)
      | inr a ↦ rw a (unbuffer-Quiet n (i + 1) depth h ch cnt q)
    ]
