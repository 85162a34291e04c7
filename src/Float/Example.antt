-- ===== src/Float/Example.antt =====
-- Two nodes with a pair each in their buffers, for the tests.
use hetero_indexing.Prelude.{◌⊎◌, inl, inr, ◌||◌, ◌&&◌, ◌==◌, Bool-cases}
use hetero_indexing.Common.{int_ltb}
use hetero_indexing.Prelude.{
  ℕ, zero, suc, ◌≡◌, ◌≤◌, refl, sym, ap, ◌∙◌, get_or, none, true, arith, List, [], ◌∷◌,
}
use hetero_indexing.Common.{Entry, Murmur}
use hetero_indexing.Sketch.{Sketch}
use hetero_indexing.Art.{Header, Node, empty_entry, leaf, inner, key_byte, find_first, find_child}
use hetero_indexing.Tree.Shape.{IsTree, Agrees, extend, Buffered}
use hetero_indexing.Tree.Wrap.{wrapper, wrapped, wrapper-IsTree}
use mathlib.Core.Path.{subst}
use native.Mathlib.Decide.{ℕ_discrete}
use hetero_indexing.Sketch
use hetero_indexing.Hash.{find}
use hetero_indexing.Hash.Bin.{occurs}
use hetero_indexing.Float.{Choice, empty_slot, lru_slot, no_slot, choose, same_bytes_from}
use hetero_indexing.Float.Found.{IsFound}
use hetero_indexing.Float.Lift.{Swaps, picked}

-- A node with the key 257 in its buffer, above one with the key 769 in its own.
abbrev pub upper : List Entry
upper = record { key = 257; value = 5 } ∷ empty_entry ∷ empty_entry ∷ []

abbrev pub lower : List Entry
lower = record { key = 769; value = 6 } ∷ empty_entry ∷ empty_entry ∷ []

abbrev pub last_leaf : Node
last_leaf = leaf (record { key = 1025; value = 70 })

abbrev pub lower_header : Header
lower_header = wrapper 0 (λ _. 0) lower 4 last_leaf

abbrev pub lower_children : ℕ → Node
lower_children = wrapped 0 (λ _. 0) lower 4 last_leaf

abbrev pub upper_header : Header
upper_header = wrapper 0 (λ _. 0) upper 1 (inner lower_header lower_children)

abbrev pub upper_children : ℕ → Node
upper_children = wrapped 0 (λ _. 0) upper 1 (inner lower_header lower_children)

abbrev pub lower_path : ℕ → ℕ
lower_path = extend (λ _. 0) 0 upper_header 1

lower_key : Agrees 1 (extend lower_path 1 lower_header 0) 769
unfolding key_byte
lower_key zero l = refl
lower_key (suc i) l = absurd (omega arith)

lower_leaf : Agrees 2 (extend lower_path 1 lower_header 4) 1025
unfolding key_byte
lower_leaf zero l = refl
lower_leaf (suc zero) l = refl
lower_leaf (suc (suc i)) l = absurd (omega arith)

lower-Buffered : Buffered 1 (extend lower_path 1 lower_header 0) lower
unfolding find
lower-Buffered k n f = elim (ℕ_discrete 769 k) [
  | yes p ↦ subst (Agrees 1 (extend lower_path 1 lower_header 0)) p lower_key
  | no p ↦ absurd (f (ground (arith, n, p)))
]

pub two_nodes-IsTree : IsTree (inner upper_header upper_children) 0 (λ _. 0)
two_nodes-IsTree =
    wrapper-IsTree 0 (λ _. 0) upper 1 (inner lower_header lower_children) (omega arith) refl 0
      (λ _. 0) (omega arith) (λ i l. absurd (omega arith)) (λ k n f i l. absurd (omega arith))
      (wrapper-IsTree 0 (λ _. 0) lower 4 last_leaf (omega arith) refl 1 lower_path (omega arith)
        (λ i l. absurd (omega arith)) lower-Buffered (omega arith, lower_leaf) refl)
      refl

pub two_nodes-IsFound :
    IsFound 769 0 0 (λ _. 0) upper_header upper_children 0 lower_header lower_children
unfolding find key_byte find_child find_first
two_nodes-IsFound = record {
  tree = two_nodes-IsTree;
  child = refl;
  found = refl;
  plain = omega arith;
  slot_lt = omega arith;
  in_slot = refl;
  not_above = refl;
}

-- Whatever the frequency, the pair 257 goes down if it is replaced.
module _ (m : Murmur) (cm : Sketch) (freq slot : ℕ) where
  abbrev pick : Choice
  pick =
      picked m cm 769 freq slot none 0 (λ _. 0) upper_header upper_children 0 lower_header
        lower_children

  first_pick : (pick ≡ no_slot) ⊎ (pick ≡ lru_slot 0) ⊎ (pick ≡ empty_slot 1)
  unfolding choose
  first_pick =
      let f = Sketch.countmin_amplify (Sketch.count m cm 257 none) in
      elim (Bool-cases (freq == 0)) [
        | inl q ↦ inl (rw q refl)
        | inr q ↦ elim (Bool-cases (int_ltb f freq || (freq == f && same_bytes_from 769 257 0 1))) [
          | inl z ↦ inr (inl (rw (q, z) refl))
          | inr z ↦ inr (inr (rw (q, z) refl))
        ]
      ]

  slot_of : Choice → ℕ
  slot_of (empty_slot j) = j
  slot_of (lru_slot j) = j
  slot_of no_slot = 0

  pub two_nodes-Swaps :
      Swaps m cm 769 freq slot none 0
        (λ _. 0)
        upper_header
        upper_children
        0
        lower_header
        lower_children
  unfolding find find_first key_byte slot_of
  two_nodes-Swaps j e = elim first_pick [
    | inl q ↦ absurd (ground (arith, q, e))
    | inr (inr q) ↦ absurd (ground (arith, q, e))
    | inr (inl q) ↦
        let at : 0 ≡ j = ap slot_of (sym q ∙ e) in
        subst
          (λ z.
            let lru = get_or upper z empty_entry in
            (same_bytes_from 769 lru.key 0 1 ≡ true)
            × (occurs lru.key upper ≤ 1)
            × (find lru.key lower ≡ none))
          at (refl, omega arith, refl)
  ]
