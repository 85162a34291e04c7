-- ===== src/Hash/Expand.antt =====
-- hash_expand_copy: the table doubles, and every key keeps its value.
use hetero_indexing.Prelude.{
  ℕ, zero, suc, ◌+◌, ◌-◌, ◌*◌, ◌/◌, ◌%◌, ◌^◌, ◌≤◌, ◌<◌, ◌≡◌, ◌≢◌, ◌⊎◌, refl, ap, ◌∙◌, List, [], ◌∷◌,
  ◌++◌, map, none, arith, ◌==◌, ltb, if◌then◌else◌, length, get_or, length-append, Bool-cases, inl,
  inr, bit_and, bit_and_ones, bit_and_power, mod-double_upper,
}
use native.Mathlib.Nat.{pow-suc, one-le-pow}
use native.Mathlib.Decide.{dec_lt}
use hetero_indexing.Common.{Murmur, u64, bin_capacity}
use hetero_indexing.Hash.{Bin, HashSys, empty_bin, construct, find, moves, split, expand_copy}
use hetero_indexing.Hash.Bin.{occurs, used}
use hetero_indexing.Hash.Split.{split_lower, split_bin}
use hetero_indexing.Hash.Table.{total_used, home, view, IsValid, index_of-lt}

length-map : (f : Bin → Bin) (bs : List Bin) → length (map f bs) ≡ length bs
length-map f [] = refl
length-map f (b ∷ bs) = ap suc (length-map f bs)

get_or-map :
    (f : Bin → Bin) (bs : List Bin) (i : ℕ)
    → i < length bs
    → get_or (map f bs) i [] ≡ f (get_or bs i [])
get_or-map f [] i h = absurd (omega arith)
get_or-map f (b ∷ bs) zero h = refl
get_or-map f (b ∷ bs) (suc i) h = get_or-map f bs i (omega arith)

get_or-append :
    (xs ys : List Bin) (i : ℕ)
    → get_or (xs ++ ys) i []
      ≡ (if ltb i (length xs) then get_or xs i [] else get_or ys (i - length xs) [])
get_or-append [] ys i = ground arith
get_or-append (x ∷ xs) ys zero = ground arith
get_or-append (x ∷ xs) ys (suc i) = ground (arith, get_or-append xs ys i)

get_or_beyond : (bs : List Bin) (i : ℕ) → length bs ≤ i → get_or bs i [] ≡ []
get_or_beyond [] i h = refl
get_or_beyond (b ∷ bs) zero h = absurd (omega arith)
get_or_beyond (b ∷ bs) (suc i) h = get_or_beyond bs i (omega arith)

total_used-append : (bs cs : List Bin) → total_used (bs ++ cs) ≡ total_used bs + total_used cs
total_used-append [] cs = omega arith
total_used-append (b ∷ bs) cs = omega (arith, total_used-append bs cs)

-- The mask of twice as many bins keeps one digit more, that of the level.
index_double :
    (bits s h : ℕ)
    → s ≡ 2 ^ bits
    → s < 2 ^ 63
    → bit_and h (u64 (u64 (s * 2) + 2 ^ 64 - 1))
      ≡ bit_and h (u64 (s + 2 ^ 64 - 1)) + (if bit_and h s == 0 then 0 else s)
index_double bits s h e w =
    let pos : 0 < s = omega (arith, one-le-pow bits 2) in
    let twice : 2 ^ suc bits ≡ 2 * s = omega (arith, pow-suc 2 bits) in
    let high : u64 (u64 (s * 2) + 2 ^ 64 - 1) ≡ 2 ^ suc bits - 1 = omega arith in
    let low : u64 (s + 2 ^ 64 - 1) ≡ 2 ^ bits - 1 = omega arith in
    let level : bit_and h s ≡ s * (h / s % 2) = rw e (bit_and_power bits h) in
    let one : (h / s % 2 ≡ 0) ⊎ (h / s % 2 ≡ 1) = grind arith in
    rw
      (
        high,
        low,
        bit_and_ones (suc bits) h,
        bit_and_ones bits h,
        ← e,
        twice,
        mod-double_upper s h pos,
        level,
      )
      (elim one [ inl z ↦ rw z (ground arith) | inr o ↦ rw o (ground arith) ])

module _ (m : Murmur) {t : HashSys} (v : IsValid m t) (rand : ℕ) (seeded : t.seed ≢ 0)
    (room : t.size < 2 ^ 63) where
  lower : Bin → Bin
  lower b = (split m t b 0 empty_bin).0

  upper : Bin → Bin
  upper b = (split m t b 0 empty_bin).1

  abbrev wide : HashSys
  wide = expand_copy m rand t

  -- The keys that move have their home in the upper half.
  home_wide : (k : ℕ) → k ≢ 0 → home m wide k ≡ home m t k + (if moves m t k then t.size else 0)
  unfolding expand_copy construct moves
  home_wide k n = ground (
    arith,
    seeded,
    m.upper k t.seed,
    index_double v.bits t.size (m.x64_128 k t.seed).1 v.size_pow room,
  )

  bin_wide :
      (i : ℕ)
      → i < t.size
      → (get_or wide.bins i [] ≡ lower (get_or t.bins i []))
        × (get_or wide.bins (t.size + i) [] ≡ upper (get_or t.bins i []))
  unfolding expand_copy lower upper
  bin_wide i h =
      let l = length-map lower t.bins in
      (
        get_or-append (map lower t.bins) (map upper t.bins) i
            ∙ ground (arith, l, v.bins_length, get_or-map lower t.bins i),
        get_or-append (map lower t.bins) (map upper t.bins) (t.size + i)
            ∙ ground (arith, l, v.bins_length, get_or-map upper t.bins i),
      )

  bin_wide_beyond : (i : ℕ) → t.size + t.size ≤ i → get_or wide.bins i [] ≡ []
  unfolding expand_copy lower upper
  bin_wide_beyond i h = get_or_beyond wide.bins i (
      omega (
        arith,
        v.bins_length,
        length-append (map lower t.bins) (map upper t.bins),
        length-map lower t.bins,
        length-map upper t.bins,
      ))

  module _ (j : ℕ) (n : j ≢ 0) where
    lower_facts :
        (i : ℕ)
        → let low = lower (get_or t.bins i []) in
          (find j low ≡ (if moves m t j then none else find j (get_or t.bins i [])))
          × (occurs j low ≡ (if moves m t j then 0 else occurs j (get_or t.bins i [])))
          × (length low ≡ length (get_or t.bins i []))
    unfolding lower
    lower_facts i = split_lower m t j (get_or t.bins i []) 0 empty_bin n

    upper_facts :
        (i : ℕ)
        → i < t.size
        → let b = get_or t.bins i [] in
          (find j (upper b) ≡ (if moves m t j then find j b else none))
          × (occurs j (upper b) ≡ (if moves m t j then occurs j b else 0))
          × (length (upper b) ≡ bin_capacity)
          × (used (lower b) + used (upper b) ≡ used b)
    unfolding lower upper
    upper_facts i h = split_bin m t j (get_or t.bins i []) n (v.widths i h)

    view_wide : view m wide j ≡ view m t j
    view_wide =
        let i = home m t j in
        let below = index_of-lt m v (m.x64_128 j t.seed).1 in
        let low = lower_facts i in
        let up = upper_facts i below in
        let at = bin_wide i below in
        elim (Bool-cases (moves m t j)) [
          | inl p ↦
              let e : home m wide j ≡ t.size + i = ground (arith, home_wide j n, p) in
              rw e (ap (find j) at.1 ∙ ground (arith, up, p))
          | inr p ↦
              let e : home m wide j ≡ i = ground (arith, home_wide j n, p) in
              rw e (ap (find j) at.0 ∙ ground (arith, low, p))
        ]

    -- Where the entries of a key are after the expansion.
    occurs_wide :
        (i : ℕ)
        → (occurs j (get_or wide.bins i []) ≤ 1)
          × (home m wide j ≢ i → occurs j (get_or wide.bins i []) ≡ 0)
    occurs_wide i = elim (dec_lt i t.size) [
      | yes h ↦
          rw (bin_wide i h).0
            (ground (arith, lower_facts i, v.once j i n, v.at_home j i n, home_wide j n))
      | no h ↦ elim (dec_lt i (t.size + t.size)) [
        | yes k ↦
            let i' = i - t.size in
            let e : i ≡ t.size + i' = omega arith in
            rw (e, (bin_wide i' (omega arith)).1)
              (ground (arith, upper_facts i', v.once j i' n, v.at_home j i' n, home_wide j n))
        | no k ↦ rw (bin_wide_beyond i (omega arith)) (omega arith, λ _. refl)
      ]
    ]

  total_used-halves :
      (bs : List Bin)
      → ((i : ℕ) → i < length bs → length (get_or bs i []) ≡ bin_capacity)
      → total_used (map lower bs) + total_used (map upper bs) ≡ total_used bs
  unfolding lower upper
  total_used-halves [] h = refl
  total_used-halves (b ∷ bs) h = omega (
    arith,
    (split_bin m t 2 b (omega arith) (h 0 (omega arith))).3,
    total_used-halves bs (λ i k. h (suc i) (omega arith)),
  )

  width_wide : (i : ℕ) → i < t.size + t.size → length (get_or wide.bins i []) ≡ bin_capacity
  width_wide i h =
      let two : ◌≢◌ {A = ℕ} 2 0 = omega arith in
      elim (dec_lt i t.size) [
        | yes k ↦ rw (bin_wide i k).0 ((lower_facts 2 two i).2 ∙ v.widths i k)
        | no k ↦
            let e : i ≡ t.size + (i - t.size) = omega arith in
            rw (e, (bin_wide (i - t.size) (omega arith)).1)
              (upper_facts 2 two (i - t.size) (omega arith)).2
      ]

  wide_shape :
      (length wide.bins ≡ t.size + t.size)
      × (total_used wide.bins ≡ total_used t.bins)
      × (wide.size ≡ t.size * 2)
      × (wide.count ≡ t.count)
  unfolding expand_copy construct lower upper
  wide_shape = (
    omega (
      arith,
      v.bins_length,
      length-append (map lower t.bins) (map upper t.bins),
      length-map lower t.bins,
      length-map upper t.bins,
    ),
    total_used-append (map lower t.bins) (map upper t.bins)
        ∙ total_used-halves t.bins (λ i k. v.widths i (omega (arith, v.bins_length))),
    omega arith,
    refl,
  )

  -- On a valid table with a seed and fewer than 2 ^ 63 bins hash_expand_copy gives a valid table
  -- of twice the size and the same count, in which every key has the value that it had.
  pub expand_copy_lem :
      IsValid m wide
      × ((j : ℕ) → j ≢ 0 → view m wide j ≡ view m t j)
      × (wide.size ≡ t.size * 2)
      × (wide.count ≡ t.count)
  expand_copy_lem =
      let shape = wide_shape in
      (
        record {
          bits = suc v.bits;
          size_pow = omega (arith, shape, v.size_pow, pow-suc 2 v.bits);
          size_word = omega (arith, shape);
          bins_length = omega (arith, shape);
          widths = λ i h. width_wide i (omega (arith, shape));
          once = λ k i n. (occurs_wide k n i).0;
          at_home = λ k i n away. (occurs_wide k n i).1 away;
          counted = omega (arith, shape, v.counted);
          count_word = omega (arith, shape, v.count_word);
        },
        view_wide,
        shape.2,
        shape.3,
      )
