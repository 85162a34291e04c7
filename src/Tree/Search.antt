-- ===== src/Tree/Search.antt =====
-- Where the first mismatch of two keys or of a prefix is.
use hetero_indexing.Prelude.{
  ℕ, zero, suc, ◌+◌, ◌-◌, ◌≤◌, ◌<◌, ◌^◌, ◌≡◌, ◌≢◌, refl, sym, ◌∙◌, Bool, false, not, none, some,
  arith, ◌==◌, Option-cases, Bool-cases, inl, inr, replicate,
}
use native.Mathlib.Decide.{ℕ_discrete, dec_lt}
use hetero_indexing.Common.{key_len, buf_len}
use hetero_indexing.Hash.{find}
use hetero_indexing.Art.{Header, find_first, key_byte, empty_entry}
use hetero_indexing.Art.Slots.{find_first-some, find_first-none}
use hetero_indexing.Tree.Shape.{Agrees, mismatch, same_bytes}

pub find_first-before :
    (n i : ℕ) (p : ℕ → Bool) (j k : ℕ) → find_first n i p ≡ some j → i ≤ k → k < j → p k ≡ false
unfolding find_first
find_first-before zero i p j k h l m = ground arith
find_first-before (suc n) i p j k h l m = elim (Bool-cases (p i)) [
  | inl e ↦ ground (arith, e)
  | inr e ↦ elim (ℕ_discrete i k) [
    | yes q ↦ rw (← q) e
    | no q ↦ ground (arith, e, q, find_first-before n (i + 1) p j k)
  ]
]

pub find_first-never :
    (n i : ℕ) (p : ℕ → Bool) → ((k : ℕ) → i ≤ k → k < i + n → p k ≡ false) → find_first n i p ≡ none
unfolding find_first
find_first-never zero i p h = refl
find_first-never (suc n) i p h =
    ground (arith, h i, find_first-never n (i + 1) p (λ k l m. h k (omega arith) (omega arith)))

module _ (h : Header) (k d : ℕ) where
  abbrev differs : ℕ → Bool
  differs i = not (h.partial i == key_byte k (d + i))

  pub matches :
      mismatch h k d ≡ none → (i : ℕ) → i < h.partial_len → h.partial i ≡ key_byte k (d + i)
  matches e i l = ground (arith, find_first-none h.partial_len 0 differs i e)

  pub mismatch-matches :
      ((i : ℕ) → i < h.partial_len → h.partial i ≡ key_byte k (d + i)) → mismatch h k d ≡ none
  mismatch-matches e = find_first-never h.partial_len 0 differs (λ i l m. ground (arith, e i))

  pub mismatch-some :
      (i : ℕ)
      → mismatch h k d ≡ some i
      → (i < h.partial_len)
        × (h.partial i ≢ key_byte k (d + i))
        × ((j : ℕ) → j < i → h.partial j ≡ key_byte k (d + j))
  mismatch-some i e =
      let found = find_first-some h.partial_len 0 differs i e in
      (
        omega (arith, found.2),
        ground (arith, found.0),
        λ j l. ground (arith, find_first-before h.partial_len 0 differs i j e),
      )

-- Different keys on one path differ in a byte behind it.
pub keys_differ :
    (a b d : ℕ) (path : ℕ → ℕ)
    → a < 2 ^ 64
    → b < 2 ^ 64
    → Agrees d path a
    → Agrees d path b
    → a ≢ b
    → let p = λ (i : ℕ). not (key_byte a (d + i) == key_byte b (d + i)) in
      (j : ℕ) × (find_first (key_len - d) 0 p ≡ some j)
      × (d + j < key_len)
      × (key_byte a (d + j) ≢ key_byte b (d + j))
      × ((i : ℕ) → i < j → key_byte a (d + i) ≡ key_byte b (d + i))
keys_differ a b d path la lb pa pb n =
    let p = λ (i : ℕ). not (key_byte a (d + i) == key_byte b (d + i)) in
    elim (Option-cases (find_first (key_len - d) 0 p)) [
      | inl e ↦ absurd (
          n (
            same_bytes a b la lb (λ i l. elim (dec_lt i d) [
              | yes q ↦ pa i q ∙ sym (pb i q)
              | no q ↦ ground (arith, q, find_first-none (key_len - d) 0 p (i - d) e)
            ])))
      | inr (j, e) ↦
          let found = find_first-some (key_len - d) 0 p j e in
          (
            j,
            e,
            omega (arith, found.2),
            ground (arith, found.0),
            λ i l. ground (arith, find_first-before (key_len - d) 0 p j i e),
          )
    ]

-- A zeroed buffer holds no pair.
pub find-zeroed : (k : ℕ) → k ≢ 0 → find k (replicate buf_len empty_entry) ≡ none
unfolding find
find-zeroed k n = ground (arith, n)
