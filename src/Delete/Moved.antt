-- ===== src/Delete/Moved.antt =====
-- A deletion from a tree without buffered pairs takes none out of a buffer.
use hetero_indexing.Prelude.{
  ℕ, ◌+◌, ◌≡◌, ◌≢◌, refl, not, ◌&&◌, ◌==◌, min, Bool-cases, Option-cases, inl, inr,
}
use hetero_indexing.Common.{key_len}
use hetero_indexing.Art.{
  node4, node16, node48, node256, Header, Node, null, leaf, inner, key_byte, find_child,
}
use hetero_indexing.Art.AddChild.{Kind-cases}
use hetero_indexing.Tree.{check_prefix}
use hetero_indexing.Tree.Shape.{key_byte-lt}
use hetero_indexing.Tree.Plain.{IsPlain, Quiet}
use hetero_indexing.Delete.{
  as_leaf, recursive_delete, remove_child, remove_child16, remove_child48, remove_child256,
  close_gap, shift_down,
}
use hetero_indexing.Delete.Child.{remove_child-kind}
use hetero_indexing.Delete.Fold.{finish, remove_child4-Quiet, node_case}

moved16 : (h : Header) (ch : ℕ → Node) (pos : ℕ) → (remove_child16 h ch pos).moved ≡ 0
unfolding remove_child16
moved16 h ch pos = elim (Bool-cases ((close_gap h pos).num_children == 3)) [
  | inl q ↦ rw q refl
  | inr q ↦ rw q refl
]

moved48 : (h : Header) (ch : ℕ → Node) (c : ℕ) → (remove_child48 h ch c).moved ≡ 0
unfolding remove_child48
moved48 h ch c = elim (Bool-cases ((close_gap h 0).num_children == 12)) [
  | inl q ↦ rw q refl
  | inr q ↦ rw q refl
]

moved256 : (h : Header) (ch : ℕ → Node) (c : ℕ) → (remove_child256 h ch c).moved ≡ 0
unfolding remove_child256
moved256 h ch c = elim (Bool-cases ((close_gap h 0).num_children == 37)) [
  | inl q ↦ rw q refl
  | inr q ↦ rw q refl
]

finish_moved : (h : Header) (ch : ℕ → Node) → (finish ((h, ch), 0)).moved ≡ 0
finish_moved h ch = elim (Bool-cases (h.num_children == 1)) [
  | inr q ↦ rw q refl
  | inl q ↦ elim (node_case (ch 0)) [
    | inl z ↦ rw (q, z) refl
    | inr (inl (e, z)) ↦ rw (q, z) refl
    | inr (inr (g, below, z)) ↦ rw (q, z) refl
  ]
]

remove_child-moved :
    (h : Header) (ch : ℕ → Node) (c pos depth : ℕ)
    → Quiet h.buffer
    → (remove_child h ch c pos depth).moved ≡ 0
remove_child-moved h ch c pos depth q = elim (Kind-cases h.kind) [
  | inl e ↦
      rw (remove_child-kind h ch c pos depth node4 e, remove_child4-Quiet h ch pos depth q)
        (finish_moved (close_gap h pos) (shift_down ch pos h.num_children))
  | inr (inl e) ↦ rw (remove_child-kind h ch c pos depth node16 e) (moved16 h ch pos)
  | inr (inr (inl e)) ↦ rw (remove_child-kind h ch c pos depth node48 e) (moved48 h ch c)
  | inr (inr (inr e)) ↦ rw (remove_child-kind h ch c pos depth node256 e) (moved256 h ch c)
]

pub unbuffered-IsPlain :
    (n : Node) (key depth : ℕ) → IsPlain n → key ≢ 0 → (recursive_delete n key depth).unbuffered ≡ 0
unfolding recursive_delete
unbuffered-IsPlain null key depth p z = refl
unbuffered-IsPlain (leaf e) key depth p z = elim (Bool-cases (e.key == key)) [
  | inl q ↦ rw q refl
  | inr q ↦ rw q refl
]
unbuffered-IsPlain (inner h ch) key depth p z =
    let next = depth + h.partial_len in
    elim (Bool-cases
      (not (h.partial_len == 0) && not (check_prefix h key depth == min key_len h.partial_len))) [
        | inl q ↦ rw q refl
        | inr q ↦
            rw (q, p.0 key z)
              (elim (Option-cases (find_child h ch (key_byte key next))) [
                | inl o ↦ rw o refl
                | inr (i, o) ↦ rw o (elim (Option-cases (as_leaf (ch i))) [
                  | inl a ↦ rw a (
                      unbuffered-IsPlain (ch i) key (next + 1)
                        (p.1 (key_byte key next) i (key_byte-lt key next) o) z)
                  | inr (l, a) ↦ rw a (elim (Bool-cases (l.key == key)) [
                    | inl y ↦ rw y (remove_child-moved h ch (key_byte key next) i next p.0)
                    | inr y ↦ rw y refl
                  ])
                ])
              ])
      ]
