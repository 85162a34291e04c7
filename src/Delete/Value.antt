-- ===== src/Delete/Value.antt =====
-- A deletion reports a pair where a lookup reads one.
use hetero_indexing.Prelude.{
  ℕ, ◌+◌, ◌≡◌, refl, not, ◌&&◌, Bool, true, false, Option, none, some, ◌==◌, arith, min, Bool-cases,
  Option-cases, inl, inr,
}
use hetero_indexing.Common.{Entry, key_len}
use hetero_indexing.Hash.{find}
use hetero_indexing.Art.{Node, null, leaf, inner, key_byte, find_child}
use hetero_indexing.Tree.{lookup, check_prefix}
use hetero_indexing.Delete.{as_leaf, recursive_delete}

pub as_leaf_lem : (n : Node) (e : Entry) → as_leaf n ≡ some e → n ≡ leaf e
as_leaf_lem null e q = ground (arith, q)
as_leaf_lem (leaf e') e q = ground (arith, q)
as_leaf_lem (inner h ch) e q = ground (arith, q)

abbrev pub is_there : Option ℕ → Bool
is_there none = false
is_there (some x) = true

-- recursive_delete returns an address other than NULL exactly where a search for the key finds a value.
pub recursive_delete-lookup :
    (n : Node) (key depth : ℕ)
    → (recursive_delete n key depth).found ≡ is_there (lookup n key depth)
unfolding recursive_delete lookup
recursive_delete-lookup null key depth = refl
recursive_delete-lookup (leaf e) key depth = elim (Bool-cases (e.key == key)) [
  | inl q ↦ rw q refl
  | inr q ↦ rw q refl
]
recursive_delete-lookup (inner h ch) key depth =
    let next = depth + h.partial_len in
    elim (Bool-cases
      (not (h.partial_len == 0) && not (check_prefix h key depth == min key_len h.partial_len))) [
        | inl q ↦ rw q refl
        | inr q ↦ rw q (elim (Option-cases (find key h.buffer)) [
          | inr (i, e) ↦ rw e refl
          | inl e ↦ rw e (elim (Option-cases (find_child h ch (key_byte key next))) [
            | inl o ↦ rw o refl
            | inr (i, o) ↦ rw o (elim (Option-cases (as_leaf (ch i))) [
              | inl a ↦ rw a (recursive_delete-lookup (ch i) key (next + 1))
              | inr (l, a) ↦
                  let is : ch i ≡ leaf l = as_leaf_lem (ch i) l a in
                  rw (a, is)
                    (elim (Bool-cases (l.key == key)) [ inl z ↦ rw z refl | inr z ↦ rw z refl ])
            ])
          ])
        ])
      ]
