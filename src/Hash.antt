-- ===== src/Hash.antt =====
-- src/hash.c: the table of 8-entry bins. A bin is a list of entries, the table a list of bins.
-- The compare-and-swaps of one thread succeed exactly where the compared key is there. A seed of 0
-- draws `rand`; allocation is taken to succeed.
pub mod Bin
pub mod Table
pub mod Assign
mod Split
pub mod Expand
pub mod Reinsert
mod Tests
use hetero_indexing.Prelude.{
  ℕ, zero, suc, ◌+◌, ◌-◌, ◌*◌, ◌^◌, List, [], ◌∷◌, ◌++◌, map, Bool, true, false, not, Option, none,
  some, ◌==◌, if◌then◌else◌, ◌&&◌, replicate, get_or, set, bit_and,
}
use hetero_indexing.Common.{Entry, Murmur, empty_flag, bin_capacity, u64}
use hetero_indexing.Sketch
use hetero_indexing.Sketch.{Sketch}

-- `struct entry_bin`.
abbrev pub Bin : Type 0
Bin = List Entry

abbrev pub empty_entry : Entry
empty_entry = record { key = 0; value = 0 }

abbrev pub empty_bin : Bin
empty_bin = replicate bin_capacity empty_entry

-- `struct hash_sys`.
pub record HashSys : Type 0 where
  pub seed : ℕ
  pub size : ℕ
  pub count : ℕ
  pub bins : List Bin

-- hash_construct.
unfoldable pub construct : ℕ → ℕ → ℕ → HashSys
construct rand size seed = record {
  seed = if seed == 0 then rand else seed;
  size = size;
  count = 0;
  bins = replicate size empty_bin;
}

-- The first empty slot of a bin takes the pair; `none` is HASH_BIN_FULL.
unfoldable pub place : ℕ → ℕ → Bin → Option Bin
place key value [] = none
place key value (e ∷ es) =
    let rest : Option Bin = elim (place key value es) [ none ↦ none | some es' ↦ some (e ∷ es') ] in
    if e.key == empty_flag then some (record { key = key; value = value } ∷ es) else rest

-- The first slot that holds the key.
unfoldable pub find : ℕ → Bin → Option ℕ
find key [] = none
find key (e ∷ es) = let rest = find key es in if e.key == key then some e.value else rest

-- A store to the value of that slot.
pub assign : ℕ → ℕ → Bin → Bin
assign key value [] = []
assign key value (e ∷ es) =
    let rest = e ∷ assign key value es in
    if e.key == key then record e { value = value } ∷ es else rest

-- The key of that slot becomes EMPTY_FLAG.
pub erase : ℕ → Bin → Bin
erase key [] = []
erase key (e ∷ es) =
    let rest = e ∷ erase key es in if e.key == key then record e { key = empty_flag } ∷ es else rest

-- `HASH_IDX`: the upper hash word masked with `size - 1`.
abbrev pub index_of : HashSys → ℕ → ℕ
index_of t h = bit_and h (u64 (t.size + 2 ^ 64 - 1))

module _ (m : Murmur) where
  -- `HASH_COMP_IDX`.
  abbrev pub index : HashSys → ℕ → ℕ
  index t key = index_of t (m.x64_64 key t.seed)

  -- hash_insert_nocheck: `false` is HASH_BIN_FULL.
  unfoldable pub insert_nocheck : HashSys → ℕ → ℕ → HashSys × Bool
  insert_nocheck t key value = elim (place key value (get_or t.bins (index t key) [])) [
    | none ↦ (t, false)
    | some b ↦ (record t { bins = set t.bins (index t key) b; count = u64 (t.count + 1) }, true)
  ]

  -- hash_insert_nocheck_nosafe, which differs in the order of its stores only.
  pub insert_nocheck_nosafe : HashSys → ℕ → ℕ → HashSys × Bool
  insert_nocheck_nosafe t key value = elim (place key value (get_or t.bins (index t key) [])) [
    | none ↦ (t, false)
    | some b ↦ (record t { count = u64 (t.count + 1); bins = set t.bins (index t key) b }, true)
  ]

  -- hash_search in the mode HASH_QUERY, with a place for the frequency: the sketch and the
  -- frequency, and the value if the key is there.
  unfoldable pub query : HashSys → Sketch → ℕ → (Sketch × ℕ) × Option ℕ
  query t cm key =
      let h = m.x64_128 key t.seed in
      (Sketch.inc m cm key (some h), find key (get_or t.bins (index_of t h.1) []))

  -- hash_search in the mode HASH_DELETE.
  unfoldable pub delete : HashSys → ℕ → HashSys × Bool
  delete t key =
      let i = index_of t (m.x64_128 key t.seed).1 in
      elim (find key (get_or t.bins i [])) [
        | none ↦ (t, false)
        | some _ ↦ (
          record t {
            bins = set t.bins i (erase key (get_or t.bins i []));
            count = u64 (t.count + 2 ^ 64 - 1);
          },
          true,
        )
      ]

  -- `HASH_LEVEL`, for a slot that is in use.
  pub moves : HashSys → ℕ → Bool
  moves t key = not (key == empty_flag) && not (bit_and (m.x64_64 key t.seed) t.size == 0)

  -- The inner loop of hash_expand_copy: what stays of a bin, and the bin of the upper half, which
  -- has `k` entries so far.
  pub split : HashSys → Bin → ℕ → Bin → Bin × Bin
  split t [] k up = ([], up)
  split t (e ∷ es) k up =
      let here = moves t e.key in
      let r = split t es (if here then k + 1 else k) (if here then set up k e else up) in
      ((if here then record e { key = empty_flag } else e) ∷ r.0, r.1)

  -- hash_expand_copy.
  pub expand_copy : ℕ → HashSys → HashSys
  expand_copy rand t = record (construct rand (u64 (t.size * 2)) t.seed) {
    bins =
        map (λ b. (split t b 0 empty_bin).0) t.bins ++ map (λ b. (split t b 0 empty_bin).1) t.bins;
    count = t.count;
  }

  -- The inner loop of hash_expand_reinsert, which drops the status of each insertion.
  pub reinsert_bin : HashSys → Bin → HashSys
  reinsert_bin new [] = new
  reinsert_bin new (e ∷ es) =
      reinsert_bin
        (if e.key == empty_flag then new else (insert_nocheck_nosafe new e.key e.value).0) es

  pub reinsert_bins : HashSys → List Bin → HashSys
  reinsert_bins new [] = new
  reinsert_bins new (b ∷ bs) = reinsert_bins (reinsert_bin new b) bs

  -- hash_expand_reinsert.
  pub expand_reinsert : ℕ → HashSys → HashSys
  expand_reinsert rand t = reinsert_bins (construct rand (u64 (t.size * 2)) t.seed) t.bins
