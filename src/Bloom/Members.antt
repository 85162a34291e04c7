-- ===== src/Bloom/Members.antt =====
-- What was added to a Bloom filter is found in it.
use hetero_indexing.Prelude.{
  ℕ, zero, suc, ◌+◌, ◌-◌, ◌*◌, ◌/◌, ◌%◌, ◌^◌, ◌≤◌, ◌<◌, ◌≡◌, refl, ap, ◌∙◌, List, true, ◌==◌,
  get_or, ltb, ◌&&◌, length, bit_and, bit_or, bit_and_power, bit_or_digit, bit_and-le, arith, inl,
  inr, Bool-cases, get_or-set_self, get_or-set, ltb, ◌&&◌, length-set,
}
use native.Mathlib.Decide.{ℕ_discrete}
use native.Mathlib.Nat.{one-le-pow, div_self}
use hetero_indexing.Common.{u32, Murmur}
use hetero_indexing.Sketch.{Sketch}
use hetero_indexing.Bloom.{
  set_bit, test_bit, position, add_rounds, bloom_add, exists_rounds, bloom_exists,
}

-- The bit `bit` of unit `i`.
abbrev digit : List ℕ → ℕ → ℕ → ℕ
digit counts i bit = get_or counts i 0 / 2 ^ bit % 2

test_bit_lem : (unit i : ℕ) → (test_bit unit i == 0) ≡ (unit / 2 ^ i % 2 == 0)
test_bit_lem unit i =
    let small : unit / 2 ^ i % 2 < 2 = omega arith in
    elim (ℕ_discrete (unit / 2 ^ i % 2) 0) [
      | yes q ↦ rw (bit_and_power i unit, q) (ground arith)
      | no q ↦
          let one : unit / 2 ^ i % 2 ≡ 1 = omega (arith, small, q) in
          rw (bit_and_power i unit, one) (ground (arith, one-le-pow i 2))
    ]

own_digit : (bit : ℕ) → 2 ^ bit / 2 ^ bit % 2 ≡ 1
own_digit bit =
    let positive : 0 < 2 ^ bit = one-le-pow bit 2 (omega arith) in rw (div_self positive) refl

-- Setting a bit clears none.
set_bit-le : (counts : List ℕ) (i bit j k : ℕ) → digit counts j k ≤ digit (set_bit counts i bit) j k
set_bit-le counts i bit j k =
    let or = bit_or_digit k (get_or counts i 0) (2 ^ bit) in
    rw (get_or-set counts i j (bit_or (get_or counts i 0) (2 ^ bit)) 0)
      (elim (Bool-cases (i == j && ltb i (length counts))) [
        | inr q ↦ rw q (omega arith)
        | inl q ↦ let e : i ≡ j = ground (arith, q) in rw (q, ← e) (omega (arith, or))
      ])

set_bit-own :
    (counts : List ℕ) (i bit : ℕ) → i < length counts → digit (set_bit counts i bit) i bit ≡ 1
set_bit-own counts i bit l =
    let or = bit_or_digit bit (get_or counts i 0) (2 ^ bit) in
    rw (get_or-set_self counts i (bit_or (get_or counts i 0) (2 ^ bit)) 0 l)
      (omega (arith, or, own_digit bit))

module _ (m : Murmur) (b : Sketch) where
  add_rounds-le :
      (n key : ℕ) (counts : List ℕ) (j k : ℕ)
      → digit counts j k ≤ digit (add_rounds m n b key counts) j k
  unfolding add_rounds
  add_rounds-le zero key counts j k = omega arith
  add_rounds-le (suc n) key counts j k =
      let i = position m b key / 2 ^ 5 in
      let bit = bit_and (position m b key) 31 in
      omega (arith, set_bit-le counts i bit j k, add_rounds-le n key (set_bit counts i bit) j k)

  add_rounds-own :
      (n key : ℕ) (counts : List ℕ)
      → position m b key / 2 ^ 5 < length counts
      → digit
          (add_rounds m (suc n) b key counts)
          (position m b key / 2 ^ 5)
          (bit_and (position m b key) 31)
        ≡ 1
  unfolding add_rounds
  add_rounds-own n key counts l =
      let i = position m b key / 2 ^ 5 in
      let bit = bit_and (position m b key) 31 in
      omega (arith, set_bit-own counts i bit l, add_rounds-le n key (set_bit counts i bit) i bit)

  -- One bit decides the answer.
  exists_lit :
      (n key : ℕ)
      → digit b.counts (position m b key / 2 ^ 5) (bit_and (position m b key) 31) ≡ 1
      → exists_rounds m n b key ≡ true
  unfolding exists_rounds
  exists_lit zero key h = refl
  exists_lit (suc n) key h =
      let unit = get_or b.counts (position m b key / 2 ^ 5) 0 in
      rw (test_bit_lem unit (bit_and (position m b key) 31), h) (exists_lit n key h)

  lit_exists :
      (n key : ℕ)
      → exists_rounds m (suc n) b key ≡ true
      → digit b.counts (position m b key / 2 ^ 5) (bit_and (position m b key) 31) ≡ 1
  unfolding exists_rounds
  lit_exists n key h =
      let unit = get_or b.counts (position m b key / 2 ^ 5) 0 in
      ground (arith, h, test_bit_lem unit (bit_and (position m b key) 31))

-- Units for all the bits, and a width that fits its 32 bits.
pub record IsValid (b : Sketch) : Type 0 where
  pub units : length b.counts * 32 ≡ b.width
  pub some_bits : 0 < b.width
  pub word : b.width < 2 ^ 32

module _ (m : Murmur) where
  position-lt : (b : Sketch) (key : ℕ) → IsValid b → position m b key / 2 ^ 5 < length b.counts
  position-lt b key v = omega (
    arith,
    v.units,
    v.some_bits,
    v.word,
    bit_and-le (m.x64_64 key b.seed) (u32 (b.width + 2 ^ 32 - 1)),
  )

  exists-none : (b : Sketch) (y : ℕ) → exists_rounds m 0 b y ≡ true
  unfolding exists_rounds
  exists-none b y = refl

  added :
      (n : ℕ) (b : Sketch) (x : ℕ)
      → IsValid b
      → exists_rounds m n (record b { counts = add_rounds m n b x b.counts }) x ≡ true
  added zero b x v = exists-none (record b { counts = add_rounds m 0 b x b.counts }) x
  added (suc n) b x v =
      exists_lit m (record b { counts = add_rounds m (suc n) b x b.counts }) (suc n) x
        (add_rounds-own m b n x b.counts (position-lt b x v))

  length-add_rounds :
      (n : ℕ) (b : Sketch) (x : ℕ) (counts : List ℕ)
      → length (add_rounds m n b x counts) ≡ length counts
  unfolding add_rounds
  length-add_rounds zero b x counts = refl
  length-add_rounds (suc n) b x counts =
      let i = position m b x / 2 ^ 5 in
      let bit = bit_and (position m b x) 31 in
      length-add_rounds n b x (set_bit counts i bit)
      ∙ length-set counts i (bit_or (get_or counts i 0) (2 ^ bit))

  stays :
      (n : ℕ) (b : Sketch) (x y : ℕ)
      → exists_rounds m n b y ≡ true
      → exists_rounds m n (record b { counts = add_rounds m n b x b.counts }) y ≡ true
  stays zero b x y h = exists-none (record b { counts = add_rounds m 0 b x b.counts }) y
  stays (suc n) b x y h =
      let b' : Sketch = record b { counts = add_rounds m (suc n) b x b.counts } in
      let i = position m b y / 2 ^ 5 in
      let bit = bit_and (position m b y) 31 in
      exists_lit m b' (suc n) y
        (omega (arith, lit_exists m b n y h, add_rounds-le m b (suc n) x b.counts i bit))

  -- On a valid filter a key that bloom_add adds is found by bloom_exists, and so is every key that
  -- was found before; the filter stays valid.
  pub bloom_add_lem :
      (b : Sketch) (x : ℕ)
      → IsValid b
      → IsValid (bloom_add m b x)
        × (bloom_exists m (bloom_add m b x) x ≡ true)
        × ((y : ℕ) → bloom_exists m b y ≡ true → bloom_exists m (bloom_add m b x) y ≡ true)
  unfolding bloom_add bloom_exists
  bloom_add_lem b x v = (
    record {
      units = ap (λ n. n * 32) (length-add_rounds b.depth b x b.counts) ∙ v.units;
      some_bits = v.some_bits;
      word = v.word;
    },
    added b.depth b x v,
    λ y h. stays b.depth b x y h,
  )

  rounds-one :
      (n : ℕ) (b : Sketch) (key : ℕ) → exists_rounds m (suc n) b key ≡ exists_rounds m 1 b key
  unfolding exists_rounds
  rounds-one zero b key = refl
  rounds-one (suc n) b key =
      let unit = get_or b.counts (position m b key / 2 ^ 5) 0 in
      elim (Bool-cases (test_bit unit (bit_and (position m b key) 31) == 0)) [
        | inl q ↦ rw q refl
        | inr q ↦ rw q (
            exists_lit m b n key
              (ground (arith, q, test_bit_lem unit (bit_and (position m b key) 31))))
      ]

  -- A filter of any positive depth answers as the same filter of depth 1 does.
  pub bloom_exists_depth :
      (n : ℕ) (b : Sketch) (key : ℕ)
      → b.depth ≡ n + 1
      → bloom_exists m b key ≡ bloom_exists m (record b { depth = 1 }) key
  unfolding bloom_exists exists_rounds
  bloom_exists_depth n b key e =
      let deep : b.depth ≡ suc n = omega (arith, e) in
      ap (λ z. exists_rounds m z b key) deep ∙ rounds-one n b key
