-- ===== src/Sketch/Estimate.antt =====
-- What the Count-Min sketch promises: an estimate that is never too low.
use hetero_indexing.Prelude.{
  ℕ, zero, suc, ◌+◌, ◌-◌, ◌*◌, ◌^◌, ◌≤◌, ◌<◌, ◌≡◌, ◌≢◌, refl, sym, ap, ◌∙◌, List, [], ◌∷◌, arith,
  get_or, length, Option, none, some, true, false, if◌then◌else◌, ◌==◌, Bool-cases, inl, inr,
  get_or-replicate, length-replicate,
}
use hetero_indexing.Common.{u32, uint32_max, int32_max, is_special_key, Murmur}
use hetero_indexing.Sketch.{
  Sketch, Bits, advance, inc_rows, count_rows, bits, inc, count, construct, count_min,
}
use hetero_indexing.Sketch.Rows.{
  inc_rows_returns, inc_rows_grows, inc_rows-Covers, Covers, Covers-mono, Covers-counts,
  le-count_rows, length-inc_rows, count_rows-Below,
}
use native.Mathlib.Nat.{add-zero}
use native.Mathlib.Decide.{ℕ_discrete}

-- The rows fit the array, and their cells are numbered without wrapping.
pub record IsValid (cm : Sketch) : Type 0 where
  pub wide : 0 < cm.width
  pub narrow : cm.width < 2 ^ 32
  pub word : cm.depth * cm.width < 2 ^ 32
  pub rows : cm.depth * cm.width ≤ length cm.counts

-- A Count-Min sketch that sketch_construct gives for a positive 32-bit width and fewer than 2 ^ 32
-- cells is valid, has the width and depth asked for and counters at 0, and has seed 0 whenever the
-- seed asked for is not 0.
pub construct_lem :
    (rand width depth seed : ℕ) {cm : Sketch}
    → 0 < width
    → width < 2 ^ 32
    → depth * width < 2 ^ 32
    → construct rand width depth seed count_min ≡ some cm
    → IsValid cm
      × ((j : ℕ) → get_or cm.counts j 0 ≡ 0)
      × ((cm.width ≡ width) × (cm.depth ≡ depth) × (seed ≢ 0 → cm.seed ≡ 0))
unfolding construct
construct_lem rand width depth seed {cm} h w d e = (
  ground (arith, length-replicate {A = ℕ} (u32 (depth * width)) 0),
  (λ j. ground (arith, get_or-replicate {A = ℕ} (u32 (depth * width)) j 0)),
  ground arith,
)

-- The counters that a sketch goes on with.
abbrev with_counts : Sketch → List ℕ → Sketch
with_counts cm cs = record cm { counts = cs }

module _ (m : Murmur) where
  bits-with_counts :
      (cm : Sketch) (cs : List ℕ) (key : ℕ) (h : Option (ℕ × ℕ))
      → bits m (with_counts cm cs) key h ≡ bits m cm key h
  unfolding bits
  bits-with_counts cm cs key none = refl
  bits-with_counts cm cs key (some _) = refl

  pub inc-IsValid :
      {cm : Sketch} (key : ℕ) (h : Option (ℕ × ℕ)) → IsValid cm → IsValid (inc m cm key h).0
  unfolding inc
  inc-IsValid {cm} key h v =
      ground (
        arith,
        length-inc_rows cm v.wide v.narrow cm.depth 0 (bits m cm key h) uint32_max cm.counts,
      )

  -- On a valid sketch countmin_inc_explicit returns what countmin_count_explicit gives on the sketch
  -- after the increment, for every key.
  pub inc_returns :
      {cm : Sketch} (key : ℕ) (h : Option (ℕ × ℕ))
      → IsValid cm
      → (inc m cm key h).1 ≡ count m (inc m cm key h).0 key h
  unfolding inc count
  inc_returns {cm} key h v = elim (Bool-cases (is_special_key key)) [
    | inl e ↦ rw e
    | inr e ↦ rw e (
        inc_rows_returns cm v.wide v.narrow cm.depth 0 (bits m cm key h) uint32_max cm.counts
          (omega (arith, v.word))
        ∙ ap
            (λ b.
              count_rows cm.depth 0
                (with_counts cm (inc_rows cm.depth 0 cm (bits m cm key h) uint32_max cm.counts).0) b
                uint32_max)
            (sym (bits-with_counts cm _ key h)))
  ]

-- The increments of a run of the index: each key under the hash that the caller hands in.
unfoldable pub inc_all : Murmur → (ℕ → Option (ℕ × ℕ)) → Sketch → List ℕ → Sketch
inc_all m hash cm [] = cm
inc_all m hash cm (k ∷ ks) = inc_all m hash (inc m cm k (hash k)).0 ks

abbrev pub occurrences : ℕ → List ℕ → ℕ
occurrences k [] = 0
occurrences k (j ∷ js) = (if k == j then 1 else 0) + occurrences k js

module _ (m : Murmur) (hash : ℕ → Option (ℕ × ℕ)) (k : ℕ) (plain : is_special_key k ≡ false) where
  -- The cells of `k` hold at least `c`.
  abbrev Reads : ℕ → Sketch → Type 0
  Reads c cm = Covers cm c cm.depth 0 (bits m cm k (hash k)) cm.counts

  abbrev Below : ℕ → Sketch → Type 0
  Below T cm = (j : ℕ) → get_or cm.counts j 0 ≤ T

  inc-Below :
      (T : ℕ) (cm : Sketch) (key : ℕ)
      → IsValid cm
      → T < 2 ^ 32 - 1
      → Below T cm
      → Below (T + 1) (inc m cm key (hash key)).0
  unfolding inc
  inc-Below T cm key v t low j =
      let step =
        inc_rows_grows cm v.wide v.narrow T cm.depth 0 (bits m cm key (hash key)) uint32_max
          cm.counts j t (omega (arith, v.word)) (λ i _. low i) in
      elim (Bool-cases (is_special_key key)) [
        | inl e ↦ rw e (omega (arith, low j))
        | inr e ↦ rw e (omega (arith, low j, step))
      ]

  inc-deep : (cm : Sketch) (key : ℕ) → 0 < cm.depth → 0 < (inc m cm key (hash key)).0.depth
  unfolding inc
  inc-deep cm key d = elim (Bool-cases (is_special_key key)) [ inl e ↦ rw e d | inr e ↦ rw e d ]

  -- The pass for a key that is not special keeps what the cells of `k` hold.
  inc-Reads_kept :
      (T c : ℕ) (cm : Sketch) (key : ℕ)
      → IsValid cm
      → T < 2 ^ 32 - 1
      → Below T cm
      → Reads c cm
      → Reads c (inc m cm key (hash key)).0
  unfolding inc
  inc-Reads_kept T c cm key v t low r =
      let b = bits m cm key (hash key) in
      let cs = (inc_rows cm.depth 0 cm b uint32_max cm.counts).0 in
      let up = λ (j : ℕ).
        (inc_rows_grows cm v.wide v.narrow T cm.depth 0 b uint32_max cm.counts j t
          (omega (arith, v.word)) (λ i _. low i)).0 in
      elim (Bool-cases (is_special_key key)) [
        | inl e ↦ rw e r
        | inr e ↦
            rw (e, bits-with_counts m cm cs k (hash k))
              (Covers-counts cm cs c cm.depth 0 (bits m cm k (hash k)) cs
                (Covers-mono cm c cm.depth 0 (bits m cm k (hash k)) cm.counts cs up r))
      ]

  -- The pass for `k` itself raises them.
  inc-Reads_raised :
      (T c : ℕ) (cm : Sketch)
      → IsValid cm
      → T < 2 ^ 32 - 1
      → Below T cm
      → Reads c cm
      → Reads (c + 1) (inc m cm k (hash k)).0
  unfolding inc
  inc-Reads_raised T c cm v t low r =
      let b = bits m cm k (hash k) in
      let cs = (inc_rows cm.depth 0 cm b uint32_max cm.counts).0 in
      rw (plain, bits-with_counts m cm cs k (hash k))
        (Covers-counts cm cs (c + 1) cm.depth 0 b cs (
          inc_rows-Covers cm v.wide v.narrow T c cm.depth 0 b uint32_max cm.counts t
            (omega (arith, v.word)) (omega (arith, v.rows)) (λ i _. low i) r))

  count-Reads : (c : ℕ) (cm : Sketch) → c ≤ uint32_max → Reads c cm → c ≤ count m cm k (hash k)
  unfolding count
  count-Reads c cm h r =
      rw plain (le-count_rows cm c cm.depth 0 (bits m cm k (hash k)) uint32_max h r)

  count-inc_all :
      (ks : List ℕ) (T c : ℕ) (cm : Sketch)
      → IsValid cm
      → T + length ks < 2 ^ 32
      → c ≤ T
      → Below T cm
      → Reads c cm
      → c + occurrences k ks ≤ count m (inc_all m hash cm ks) k (hash k)
  unfolding inc_all
  count-inc_all [] T c cm v t h low r = rw add-zero (count-Reads c cm (omega arith) r)
  count-inc_all (j ∷ js) T c cm v t h low r = elim (ℕ_discrete k j) [
    | yes e ↦ rw (← e) (
        ground (
          arith,
          count-inc_all js (T + 1) (c + 1) (inc m cm k (hash k)).0 (inc-IsValid m k (hash k) v)
              (omega arith) (omega arith) (inc-Below T cm k v (omega arith) low)
              (inc-Reads_raised T c cm v (omega arith) low r),
        ))
    | no ne ↦ ground (
      arith,
      ne,
      count-inc_all js (T + 1) c (inc m cm j (hash j)).0 (inc-IsValid m j (hash j) v) (omega arith)
          (omega arith) (inc-Below T cm j v (omega arith) low)
          (inc-Reads_kept T c cm j v (omega arith) low r),
    )
  ]

  count-Below : (T : ℕ) (cm : Sketch) → 0 < cm.depth → Below T cm → count m cm k (hash k) ≤ T
  unfolding count
  count-Below T cm d low =
      rw plain (count_rows-Below cm T low cm.depth 0 (bits m cm k (hash k)) uint32_max d)

  count-inc_all-le :
      (ks : List ℕ) (T : ℕ) (cm : Sketch)
      → IsValid cm
      → 0 < cm.depth
      → T + length ks < 2 ^ 32
      → Below T cm
      → count m (inc_all m hash cm ks) k (hash k) ≤ T + length ks
  unfolding inc_all
  count-inc_all-le [] T cm v d h low = omega (arith, count-Below T cm d low)
  count-inc_all-le (j ∷ js) T cm v d h low = omega (
    arith,
    count-inc_all-le js (T + 1) (inc m cm j (hash j)).0 (inc-IsValid m j (hash j) v)
        (inc-deep cm j d) (omega arith) (inc-Below T cm j v (omega arith) low),
  )

Covers-zero : (cm : Sketch) (n i : ℕ) (b : Bits) (cs : List ℕ) → Covers cm 0 n i b cs
Covers-zero cm zero i b cs = tt
Covers-zero cm (suc n) i b cs = (omega arith, Covers-zero cm n (i + 1) (advance cm.shift b) cs)

occurrences-le-length : (k : ℕ) (ks : List ℕ) → occurrences k ks ≤ length ks
occurrences-le-length k [] = omega arith
occurrences-le-length k (j ∷ js) = ground (arith, occurrences-le-length k js)

count_special :
    (m : Murmur) (cm : Sketch) (key : ℕ) (h : Option (ℕ × ℕ))
    → is_special_key key ≡ true
    → count m cm key h ≡ int32_max
unfolding count
count_special m cm key h e = rw e

-- On a sketch of at least one row, from counters at 0 and for fewer than 2 ^ 31 increments, the
-- Count-Min estimate of a key is an int that is not negative and at least the number of times that
-- the key was incremented.
pub occurrences-le-count :
    (m : Murmur) (hash : ℕ → Option (ℕ × ℕ)) (k : ℕ) (ks : List ℕ) {cm : Sketch}
    → IsValid cm
    → ((j : ℕ) → get_or cm.counts j 0 ≡ 0)
    → 0 < cm.depth
    → length ks < 2 ^ 31
    → let estimate = count m (inc_all m hash cm ks) k (hash k) in
      (occurrences k ks ≤ estimate) × (estimate < 2 ^ 31)
occurrences-le-count m hash k ks {cm} v fresh d h = elim (Bool-cases (is_special_key k)) [
  | inl e ↦
      rw (count_special m (inc_all m hash cm ks) k (hash k) e)
        (omega (arith, occurrences-le-length k ks))
  | inr e ↦ omega (
    arith,
    count-inc_all m hash k e ks 0 0 cm v (omega arith) (omega arith) (λ j. omega (arith, fresh j))
        (Covers-zero cm cm.depth 0 (bits m cm k (hash k)) cm.counts),
    count-inc_all-le m hash k e ks 0 cm v d (omega arith) (λ j. omega (arith, fresh j)),
  )
]

-- Where no counter is above `T`, what countmin_inc_explicit returns is not above `T + 1`.
pub inc-le :
    (m : Murmur) (T : ℕ) {cm : Sketch} (key : ℕ) (h : Option (ℕ × ℕ))
    → is_special_key key ≡ false
    → IsValid cm
    → 0 < cm.depth
    → T < 2 ^ 32 - 1
    → ((j : ℕ) → get_or cm.counts j 0 ≤ T)
    → (inc m cm key h).1 ≤ T + 1
inc-le m T {cm} key h plain v d t low = rw (inc_returns m key h v) (
    count-Below m (λ _. h) key plain (T + 1) (inc m cm key h).0
      (inc-deep m (λ _. h) key plain cm key d) (inc-Below m (λ _. h) key plain T cm key v t low))
