-- ===== src/Bloom.antt =====
-- src/data_sketch.c: the Bloom filter that guards the index against searches for absent keys.
-- Every round of a loop hashes under the same seed, so all rounds read and write the same bit.
use hetero_indexing.Prelude.{
  ℕ, zero, suc, ◌+◌, ◌-◌, ◌*◌, ◌/◌, ◌%◌, ◌^◌, List, Bool, true, false, ◌==◌, if◌then◌else◌,
  replicate, get_or, set, bit_and, bit_or,
}
use hetero_indexing.Common.{u32, Murmur}
use hetero_indexing.Sketch.{Sketch}
pub mod Members
mod Tests

-- `SET_BIT`.
abbrev pub set_bit : List ℕ → ℕ → ℕ → List ℕ
set_bit counts i bit = set counts i (bit_or (get_or counts i 0) (2 ^ bit))

-- `TEST_BIT`.
abbrev pub test_bit : ℕ → ℕ → ℕ
test_bit unit i = bit_and unit (2 ^ i)

module _ (m : Murmur) where
  -- The bit of a key in the whole array: `hash & (width - 1)`.
  abbrev pub position : Sketch → ℕ → ℕ
  position b key = u32 (bit_and (m.x64_64 key b.seed) (u32 (b.width + 2 ^ 32 - 1)))

  -- The rounds of bloom_add.
  unfoldable pub add_rounds : ℕ → Sketch → ℕ → List ℕ → List ℕ
  add_rounds zero b key counts = counts
  add_rounds (suc n) b key counts =
      let idx = position b key in add_rounds n b key (set_bit counts (idx / 2 ^ 5) (bit_and idx 31))

  -- bloom_add.
  unfoldable pub bloom_add : Sketch → ℕ → Sketch
  bloom_add b key = record b { counts = add_rounds b.depth b key b.counts }

  -- The rounds of bloom_exists.
  unfoldable pub exists_rounds : ℕ → Sketch → ℕ → Bool
  exists_rounds zero b key = true
  exists_rounds (suc n) b key =
      let idx = position b key in
      let rest = exists_rounds n b key in
      if test_bit (get_or b.counts (idx / 2 ^ 5) 0) (bit_and idx 31) == 0 then false else rest

  -- bloom_exists.
  unfoldable pub bloom_exists : Sketch → ℕ → Bool
  bloom_exists b key = exists_rounds b.depth b key

-- bloom_expand: twice the width, and no bit set.
unfoldable pub bloom_expand : Sketch → Sketch
bloom_expand b =
    let width = u32 (b.width * 2) in record b { width = width; counts = replicate (width / 32) 0 }
