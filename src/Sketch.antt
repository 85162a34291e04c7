-- ===== src/Sketch.antt =====
-- src/data_sketch.c: the Count-Min sketch that estimates how often a key is used.
-- The cooldown is compiled out (COUNTMIN_CD_INTERVAL is not defined in common.h).
-- An `int` result is given as its 32 bits.
use hetero_indexing.Prelude.{
  ℕ, zero, suc, ◌+◌, ◌-◌, ◌*◌, ◌/◌, ◌%◌, ◌^◌, List, [], ◌∷◌, Bool, true, false, Option, none, some,
  ◌==◌, ltb, leb, if◌then◌else◌, ◌&&◌, length, replicate, get_or, set, min, bit_and, bit_or,
}
use hetero_indexing.Common.{u32, u64, uint32_max, int32_max, is_special_key, Murmur}
pub mod Rows
pub mod Estimate
mod Tests

-- `struct data_sketch`.
pub record Sketch : Type 0 where
  pub width : ℕ
  pub depth : ℕ
  pub seed : ℕ
  pub shift : ℕ
  pub counts : List ℕ

pub data Mode : Type 0 where
  count_min bloom_filter : Mode

-- `__builtin_ctz` of a 32-bit word, on its 32 digits.
pub ctz : ℕ → ℕ → ℕ
ctz zero x = 0
ctz (suc n) x = let rest = suc (ctz n (x / 2)) in if x % 2 == 1 then 0 else rest

-- The array and the shift that sketch_construct gives a mode.
abbrev allocate : ℕ → ℕ → Mode → Option (List ℕ × ℕ)
allocate width depth bloom_filter =
    if leb 32 width then some (replicate (width / 32) 0, 0) else none
allocate width depth count_min =
    if ltb 128 (u32 (ctz 32 width * depth))
    then none
    else some (replicate (u32 (depth * width)) 0, ctz 32 width)

-- sketch_construct; `rand` is what a seed of 0 draws. Allocation is taken to succeed.
unfoldable pub construct : ℕ → ℕ → ℕ → ℕ → Mode → Option Sketch
unfolding ctz
construct rand width depth seed mode =
    if bit_and width (u32 (width + 2 ^ 32 - 1)) == 0
    then elim (allocate width depth mode) [
      | none ↦ none
      | some (counts, shift) ↦ some (record {
        width = width;
        depth = depth;
        seed = if seed == 0 then rand else 0;
        shift = shift;
        counts = counts;
      })
    ]
    else none

-- The 128 bits that the rows take their columns from, and the bits used so far.
pub record Bits : Type 0 where
  pub low : ℕ
  pub high : ℕ
  pub used : ℕ

-- The step past 64 used bits, `over` of which lie in the upper half.
cross : ℕ → Bits → ℕ → Bits
cross shift b over =
    if over == 0 then record { low = b.high; high = b.high; used = over } else record {
      low = bit_or b.low (u64 (b.high * 2 ^ (shift - over)));
      high = b.high / 2 ^ (64 - over);
      used = over;
    }

-- The end of the loop body, which both loops share: move on to the next `shift` bits.
unfoldable pub advance : ℕ → Bits → Bits
unfolding cross
advance shift b =
    let used = u32 (b.used + shift) in
    let b' : Bits = if leb 64 used then cross shift b (used - 64) else record b { used = used } in
    record b' { low = b'.low / 2 ^ shift }

-- The cell of row `i`.
pub cell : Sketch → ℕ → Bits → ℕ
cell cm i b = u32 (u32 (i * cm.width) + bit_and b.low (u32 (cm.width + 2 ^ 32 - 1)))

-- The rows from `i` on of countmin_inc_explicit: the counts and the running minimum.
pub inc_rows : ℕ → ℕ → Sketch → Bits → ℕ → List ℕ → List ℕ × ℕ
inc_rows zero i cm b minimal counts = (counts, minimal)
inc_rows (suc n) i cm b minimal counts =
    let idx = cell cm i b in
    let counts' = set counts idx (u32 (get_or counts idx 0 + 1)) in
    inc_rows n (i + 1) cm (advance cm.shift b) (min minimal (get_or counts' idx 0)) counts'

-- The rows from `i` on of countmin_count_explicit.
unfoldable pub count_rows : ℕ → ℕ → Sketch → Bits → ℕ → ℕ
count_rows zero i cm b minimal = minimal
count_rows (suc n) i cm b minimal =
    count_rows n (i + 1) cm (advance cm.shift b) (min minimal (get_or cm.counts (cell cm i b) 0))

module _ (m : Murmur) where
  -- The hash of a key: the one handed in, or that under the sketch's own seed.
  pub bits : Sketch → ℕ → Option (ℕ × ℕ) → Bits
  bits cm key (some (low, high)) = record { low = low; high = high; used = 0 }
  bits cm key none = let h = m.x64_128 key cm.seed in record { low = h.0; high = h.1; used = 0 }

  -- countmin_inc_explicit.
  pub inc : Sketch → ℕ → Option (ℕ × ℕ) → Sketch × ℕ
  inc cm key ext_hash =
      if is_special_key key
      then (cm, int32_max)
      else let r = inc_rows cm.depth 0 cm (bits cm key ext_hash) uint32_max cm.counts in
        (record cm { counts = r.0 }, r.1)

  -- countmin_count_explicit.
  unfoldable pub count : Sketch → ℕ → Option (ℕ × ℕ) → ℕ
  count cm key ext_hash =
      if is_special_key key
      then int32_max
      else count_rows cm.depth 0 cm (bits cm key ext_hash) uint32_max

-- `memset` of zero bytes over 4-byte words: whole words, then the low bytes of the next.
pub clear_bytes : ℕ → List ℕ → List ℕ
clear_bytes n [] = []
clear_bytes n (c ∷ cs) =
    (if leb 4 n then 0 else c / 2 ^ (8 * n) * 2 ^ (8 * n)) ∷ clear_bytes (n - 4) cs

-- `countmin_clear`: `memset(counts, 0, depth * width)` counts bytes, so it clears a quarter of the
-- 4-byte counters.
pub clear : Sketch → Sketch
clear cm = record cm { counts = clear_bytes (u32 (cm.depth * cm.width)) cm.counts }

-- `countmin_amplify`: ceil(fmax(f * 1.02, f)) of an `int`. In binary64 the product of 1.02 and an
-- `int` rounds to a whole number where the exact one is whole, and is too near the exact one to
-- change the ceiling elsewhere. A ceiling above INT32_MAX is outside of `int`, where the conversion of
-- a double is undefined in C and gives INT_MIN on x86.
unfoldable pub countmin_amplify : ℕ → ℕ
countmin_amplify f =
    let product = (f * 102 + 99) / 100 in
    if leb (2 ^ 31) f then f else (if leb product int32_max then product else 2 ^ 31)
