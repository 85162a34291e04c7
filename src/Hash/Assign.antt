-- ===== src/Hash/Assign.antt =====
-- A store to the value of a pair of the table, as hash_modify does it.
use hetero_indexing.Prelude.{
  ℕ, ◌≡◌, refl, ap, ◌∙◌, [], ◌∷◌, false, Option, none, some, arith, ◌==◌, if◌then◌else◌, length,
  get_or, set, inl, inr, Bool-cases,
}
use native.Mathlib.Decide.{ℕ_discrete}
use hetero_indexing.Common.{Murmur}
use hetero_indexing.Hash.{Bin, HashSys, find, assign}
use hetero_indexing.Hash.Bin.{occurs, used}
use hetero_indexing.Hash.Table.{IsValid, view, home, index_of-lt, set_bin-IsValid, view_after}

-- The value under a key that is updated to `v`: none where there was none.
abbrev pub replaced : Option ℕ → ℕ → Option ℕ
replaced none v = none
replaced (some x) v = some v

abbrev pub updated : ℕ → ℕ → (ℕ → Option ℕ) → ℕ → Option ℕ
updated key v f k = if key == k then replaced (f k) v else f k

module _ (key v : ℕ) where
  occurs-assign : (k : ℕ) (b : Bin) → occurs k (assign key v b) ≡ occurs k b
  unfolding assign
  occurs-assign k [] = refl
  occurs-assign k (e ∷ es) = elim (Bool-cases (e.key == key)) [
    | inl q ↦ rw q refl
    | inr q ↦ rw q (ground (arith, occurs-assign k es))
  ]

  used-assign : (b : Bin) → used (assign key v b) ≡ used b
  unfolding assign
  used-assign [] = refl
  used-assign (e ∷ es) = elim (Bool-cases (e.key == key)) [
    | inl q ↦ rw q refl
    | inr q ↦ rw q (ground (arith, used-assign es))
  ]

  length-assign : (b : Bin) → length (assign key v b) ≡ length b
  unfolding assign
  length-assign [] = refl
  length-assign (e ∷ es) = elim (Bool-cases (e.key == key)) [
    | inl q ↦ rw q refl
    | inr q ↦ rw q (ground (arith, length-assign es))
  ]

  find-assign : (k : ℕ) (b : Bin) → find k (assign key v b) ≡ updated key v (λ j. find j b) k
  unfolding assign find
  find-assign k [] = elim (Bool-cases (key == k)) [ inl q ↦ rw q refl | inr q ↦ rw q refl ]
  find-assign k (e ∷ es) = elim (ℕ_discrete e.key key) [
    | yes a ↦ elim (ℕ_discrete key k) [ yes c ↦ ground (arith, a, c) | no c ↦ ground (arith, a, c) ]
    | no a ↦ elim (ℕ_discrete key k) [
      | yes c ↦ ground (arith, a, c, find-assign k es)
      | no c ↦ ground (arith, a, c, find-assign k es)
    ]
  ]

module _ (m : Murmur) {t : HashSys} (v : IsValid m t) (key value : ℕ) where
  abbrev pub assigned : HashSys
  assigned = record t {
    bins = set t.bins (home m t key) (assign key value (get_or t.bins (home m t key) []));
  }

  -- The table stays valid, and the key has the new value if it was there.
  pub assign_lem :
      IsValid m assigned × ((j : ℕ) → view m assigned j ≡ updated key value (view m t) j)
  assign_lem =
      let i = home m t key in
      let old = get_or t.bins i [] in
      let b = assign key value old in
      let below = index_of-lt m v (m.x64_128 key t.seed).1 in
      (
        set_bin-IsValid m v i t.count b below (length-assign key value old ∙ v.widths i below)
            (λ k n. omega (arith, occurs-assign key value k old, v.once k i n))
            (λ k n away. occurs-assign key value k old ∙ v.at_home k i n away)
            (omega (arith, used-assign key value old)) v.count_word,
        λ j. view_after m v i t.count b j below ∙ (elim (Bool-cases (i == home m t j)) [
          | inl q ↦
              let same : i ≡ home m t j = ground (arith, q) in
              rw q (
                find-assign key value j old
                ∙ ap (λ h. updated key value (λ k. find k (get_or t.bins h [])) j) same)
          | inr q ↦
              let other : (key == j) ≡ false = elim (Bool-cases (key == j)) [
                | inr z ↦ z
                | inl z ↦
                    let is : i ≡ home m t j = ap (home m t) (ground (arith, z)) in
                    absurd (ground (arith, q, is))
              ] in
              rw (q, other) refl
        ]),
      )
