-- ===== src/Tree/Leaf.antt =====
-- The leaf that recursive_insert splits.
use hetero_indexing.Prelude.{
  ℕ, ◌+◌, ◌<◌, ◌^◌, ◌≡◌, ◌≢◌, refl, sym, ap, ◌∙◌, Option, none, some, arith, ◌==◌, ltb,
  if◌then◌else◌, min, List, replicate,
}
use mathlib.Core.Path.{subst}
use native.Mathlib.Decide.{ℕ_discrete}
use hetero_indexing.Common.{Entry, key_len, buf_len}
use hetero_indexing.Art.{Header, Node, leaf, inner, key_byte, empty_entry, add_child4}
use hetero_indexing.Tree.{lookup, split_leaf, longest_common_prefix}
use hetero_indexing.Tree.Shape.{Agrees, key_byte-lt, extend, IsTree, mismatch, seen}
use hetero_indexing.Tree.Step.{Stores, Agrees-extend}
use hetero_indexing.Tree.Wrap.{wrapper, wrapped, add_child4-new, wrapper-lookup, fork}
use hetero_indexing.Tree.Search.{mismatch-matches, keys_differ, find-zeroed}

pub lookup-leaf :
    (l : Entry) (k d : ℕ) → lookup (leaf l) k d ≡ (if l.key == k then some l.value else none)
unfolding lookup
lookup-leaf l k d = refl

pub seen_nothing : (m : Option ℕ) → seen m none none ≡ none
seen_nothing none = refl
seen_nothing (some i) = refl

-- A tree that holds what another one holds may stand in for it.
pub Stores-same :
    (e : Entry) (d : ℕ) (path : ℕ → ℕ) (o o' x : Node)
    → ((k : ℕ) → k ≢ 0 → k < 2 ^ 64 → lookup o' k d ≡ lookup o k d)
    → Stores e d path o' x
    → Stores e d path o x
Stores-same e d path o o' x same s =
    (s.0, s.1, λ k n w. s.2 k n w ∙ ap (λ t. if e.key == k then some e.value else t) (same k n w))

module _ (l e : Entry) (d : ℕ) (path : ℕ → ℕ) (v : IsTree (leaf l) d path) (n : e.key ≢ 0)
    (w : e.key < 2 ^ 64) (a : Agrees d path e.key) (j : ℕ) (short : d + j < key_len)
    (differ : key_byte l.key (d + j) ≢ key_byte e.key (d + j))
    (common : (i : ℕ) → i < j → key_byte l.key (d + i) ≡ key_byte e.key (d + i)) where
  abbrev shared : ℕ → ℕ
  shared i = if ltb i (min key_len j) then key_byte e.key (d + i) else 0

  abbrev zeroed : List Entry
  zeroed = replicate buf_len empty_entry

  abbrev byte : ℕ
  byte = key_byte l.key (d + j)

  abbrev above : Header
  above = wrapper j shared zeroed byte (leaf l)

  fits : mismatch above e.key d ≡ none
  fits = mismatch-matches above e.key d (λ i m. ground (arith, m))

  own_fits : mismatch above l.key d ≡ none
  own_fits = mismatch-matches above l.key d (λ i m. ground (arith, m, common i))

  leaf_below : IsTree (leaf l) (d + j + 1) (extend path d above byte)
  leaf_below = (v.0, Agrees-extend above l.key d path v.1 own_fits)

  bytes : (i : ℕ) → i < j → shared i < 256
  bytes i m = ground (arith, key_byte-lt e.key (d + i), m)

  wrapped_same :
      (k : ℕ)
      → k ≢ 0
      → lookup (inner above (wrapped j shared zeroed byte (leaf l))) k d ≡ lookup (leaf l) k d
  wrapped_same k z =
      let below =
        λ (b : ℕ). if key_byte b (d + j) == byte then lookup (leaf l) b (d + j + 1) else none in
      wrapper-lookup j shared zeroed byte (leaf l) (key_byte-lt l.key (d + j)) refl d path short
        bytes (λ b y f. absurd (f (find-zeroed b y))) leaf_below refl k
      ∙ ap (λ o. seen (mismatch above k d) o (below k)) (find-zeroed k z)
      ∙ elim (ℕ_discrete l.key k) [
        | yes q ↦
            subst (λ b. seen (mismatch above b d) none (below b) ≡ lookup (leaf l) b d) q
              (rw own_fits (ground (arith, lookup-leaf l l.key d, lookup-leaf l l.key (d + j + 1))))
        | no q ↦
            let nothing : below k ≡ none = ground (arith, q, lookup-leaf l k (d + j + 1)) in
            rw nothing (seen_nothing (mismatch above k d) ∙ ground (arith, q, lookup-leaf l k d))
      ]

  leaf_forks :
      let two =
        add_child4 above
          (wrapped j shared zeroed byte (leaf l))
          (key_byte e.key (d + j))
          (leaf e) in
      Stores e d path (leaf l) (inner two.0 two.1)
  leaf_forks =
      let one = inner above (wrapped j shared zeroed byte (leaf l)) in
      let two =
        add_child4 above (wrapped j shared zeroed byte (leaf l)) (key_byte e.key (d + j))
          (leaf e) in
      Stores-same e d path (leaf l) one (inner two.0 two.1) (λ k z _. wrapped_same k z)
        (fork j shared zeroed byte (leaf l) (key_byte-lt l.key (d + j)) refl d path short bytes
          (λ b y f. absurd (f (find-zeroed b y))) leaf_below refl e n w
          (Agrees-extend above e.key d path a fits) fits (find-zeroed e.key n)
          (λ q. differ (sym q)))

pub split_leaf_lem :
    (l e : Entry) (d : ℕ) (path : ℕ → ℕ)
    → IsTree (leaf l) d path
    → e.key ≢ 0
    → e.key < 2 ^ 64
    → Agrees d path e.key
    → l.key ≢ e.key
    → Stores e d path (leaf l) (split_leaf l e d)
unfolding split_leaf longest_common_prefix
split_leaf_lem l e d path v n w a ne =
    let (j, found, short, differ, common) = keys_differ l.key e.key d path v.0 w v.1 a ne in
    rw
      (
        found,
        add_child4-new j (shared l e d path v n w a j short differ common)
            (replicate buf_len empty_entry) (key_byte l.key (d + j)) (leaf l),
      )
      (leaf_forks l e d path v n w a j short differ common)
