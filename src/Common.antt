-- ===== src/Common.antt =====
-- src/common.h: the entry of a key and a value, the special keys and the parameters of the build.
-- A key and a value are 8 bytes, read as the 64-bit word that the code reads them as
-- (little-endian, so byte i of a key is digit i to the base 256).
use hetero_indexing.Prelude.{
  ℕ, ◌-◌, ◌*◌, ◌/◌, ◌%◌, ◌^◌, ◌+◌, Bool, false, ltb, ◌==◌, ◌≡◌, bit_and, bit_or,
}

-- `struct entry`.
pub record Entry : Type 0 where
  pub key : ℕ
  pub value : ℕ

abbrev pub key_len : ℕ
key_len = 8

abbrev pub bin_capacity : ℕ
bin_capacity = 8

abbrev pub buf_len : ℕ
buf_len = 3

-- `EMPTY_FLAG` and `OCCUPIED_FLAG`: the keys that no stored pair may have.
abbrev pub empty_flag : ℕ
empty_flag = 0

abbrev pub occupied_flag : ℕ
occupied_flag = 1

-- `IS_SPECIAL_KEY`: `(key & ~1) == 0`.
abbrev pub is_special_key : ℕ → Bool
is_special_key key = key / 2 * 2 == 0

abbrev pub mem_type : ℕ
mem_type = 1

-- recursive_insert on `storage_type | KEY_LEN`: the test of the low three bits against MEM_TYPE, and
-- the length of the key in the other bits.
abbrev pub is_mem_type : ℕ → Bool
is_mem_type storage_type = bit_and (bit_or storage_type key_len) 7 == mem_type

abbrev pub packed_len : ℕ → ℕ
packed_len storage_type = bit_and (bit_or storage_type key_len) (2 ^ 32 - 8)

-- A storage type that sends a key of KEY_LEN bytes past the buffers of the tree.
abbrev pub IsTreeType : ℕ → Type 0
IsTreeType storage_type = (packed_len storage_type ≡ key_len) × (is_mem_type storage_type ≡ false)

abbrev pub u8 : ℕ → ℕ
u8 x = x % 2 ^ 8

abbrev pub u32 : ℕ → ℕ
u32 x = x % 2 ^ 32

abbrev pub u64 : ℕ → ℕ
u64 x = x % 2 ^ 64

abbrev pub uint32_max : ℕ
uint32_max = 2 ^ 32 - 1

abbrev pub int32_max : ℕ
int32_max = 2 ^ 31 - 1

-- `MurmurHash3_x64_128` and `MurmurHash3_x64_64` on the 8 bytes of a key, under a seed.
-- The second returns the upper half of the first.
pub record Murmur : Type 0 where
  pub x64_128 : ℕ → ℕ → ℕ × ℕ
  pub x64_64 : ℕ → ℕ → ℕ
  pub upper : (key seed : ℕ) → x64_64 key seed ≡ (x64_128 key seed).1

-- `a < b` of two `int`s that are given as their 32 bits.
abbrev pub int_ltb : ℕ → ℕ → Bool
int_ltb a b = ltb (u32 (a + 2 ^ 31)) (u32 (b + 2 ^ 31))
