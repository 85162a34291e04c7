-- ===== src/System.antt =====
-- src/common.h and src/hash.c: the system of a table, a tree and a sketch, and hash_modify, which
-- writes a pair to the table and may sink another one to the tree. A compare-and-exchange of one
-- thread succeeds when the value is the expected one.
use hetero_indexing.Prelude.{
  ℕ, zero, suc, ◌+◌, ◌-◌, ◌*◌, ◌^◌, List, [], ◌∷◌, Bool, true, false, not, ◌&&◌, Option, none, some,
  ◌==◌, ltb, if◌then◌else◌, get_or, set,
}
use hetero_indexing.Common.{Entry, empty_flag, u64, int_ltb, Murmur}
use hetero_indexing.Sketch
use hetero_indexing.Sketch.{Sketch}
use hetero_indexing.Hash.{Bin, HashSys, empty_entry, assign, index_of}
use hetero_indexing.Tree.{ArtTree, art_insert_no_replace}
use hetero_indexing.Delete.{art_delete}
pub mod Insert
mod Tests

-- `struct index_sys`; `memb` is never used.
pub record IndexSys : Type 0 where
  pub has_special_key : ℕ → ℕ
  pub special_key_val : ℕ → ℕ
  pub cm : Sketch
  pub hash : HashSys
  pub tree : ArtTree

-- The modes of hash_modify.
pub data Mode : Type 0 where
  update insert strict_update strict_insert : Mode

-- Its results: 0, ELEMENT_NOT_FOUND, HASH_BIN_FULL, ELEMENT_ALREADY_EXISTS.
pub data Status : Type 0 where
  ok element_not_found hash_bin_full element_already_exists : Status

-- `mode & INSERT`.
abbrev pub inserts : Mode → Bool
inserts update = false
inserts insert = true
inserts strict_update = false
inserts strict_insert = true

-- What the search for the key in its bin ends with: the key, or the first empty slot and the slot
-- of a pair to sink with its key.
pub data Scan : Type 0 where
  here : Scan
  away : Option ℕ → Option (ℕ × ℕ) → Scan

-- Fields of `Option` as tests against -1.
abbrev is_none {ℓ} : {A : Type ℓ} → Option A → Bool
is_none none = true
is_none (some x) = false

abbrev pub or_else {ℓ} : {A : Type ℓ} → Option A → Option A → Option A
or_else none b = b
or_else (some x) b = some x

module _ (m : Murmur) where
  -- The loop of hash_modify over the bin, from slot `j` on.
  unfoldable pub scan : Sketch → ℕ → ℕ → ℕ → Option ℕ → Option (ℕ × ℕ) → Bin → Scan
  scan cm key min_cnt j available lru [] = away available lru
  scan cm key min_cnt j available lru (e ∷ es) =
      let available' = if e.key == empty_flag then or_else available (some j) else available in
      let cnt = Sketch.countmin_amplify (Sketch.count m cm e.value none) in
      let lru' =
        if int_ltb 0 min_cnt && is_none available' && is_none lru && int_ltb cnt min_cnt
        then some (j, e.key)
        else lru in
      let rest = scan cm key min_cnt (j + 1) available' lru' es in
      if e.key == key then here else rest

  -- The sink: the pair takes the slot of another one, which goes to the tree.
  unfoldable pub sink : IndexSys → ℕ → ℕ → ℕ → ℕ → ℕ → IndexSys
  sink s key value i slot key_lru =
      let b = get_or s.hash.bins i [] in
      let old = get_or b slot empty_entry in
      let tree = (art_delete s.tree key).0 in
      record s {
        hash = record s.hash {
          bins = set s.hash.bins i (set b slot (record { key = key; value = value }));
        };
        tree = (art_insert_no_replace true tree (record { key = key_lru; value = old.value })).0;
      }

  -- hash_modify: the system, the status and, where the sketch was asked, the frequency.
  unfoldable pub hash_modify : IndexSys → ℕ → ℕ → Mode → IndexSys × Status × Option ℕ
  hash_modify s key value mode =
      let h = m.x64_128 key s.hash.seed in
      let i = index_of s.hash h.1 in
      let b = get_or s.hash.bins i [] in
      let counted = Sketch.inc m s.cm key (some h) in
      let min_cnt = if inserts mode then 0 else counted.1 in
      let s' : IndexSys = if inserts mode then s else record s { cm = counted.0 } in
      let freq : Option ℕ = if inserts mode then none else some counted.1 in
      let in_place : IndexSys × Status × Option ℕ = (
        record s' { hash = record s.hash { bins = set s.hash.bins i (assign key value b) } },
        ok,
        freq,
      ) in
      elim (scan s'.cm key min_cnt 0 none none b) [
        | here ↦ elim mode [
          | strict_insert ↦ (s', element_already_exists, freq)
          | update ↦ in_place
          | insert ↦ in_place
          | strict_update ↦ in_place
        ]
        | away available lru ↦
            let place : IndexSys × Status × Option ℕ = elim available [
              | some slot ↦ (
                record s' {
                  hash = record s.hash {
                    bins = set s.hash.bins i (set b slot (record { key = key; value = value }));
                    count = u64 (s.hash.count + 1);
                  };
                },
                ok,
                freq,
              )
              | none ↦ elim lru [
                | some (slot, key_lru) ↦ (sink s' key value i slot key_lru, ok, freq)
                | none ↦ (s', hash_bin_full, freq)
              ]
            ] in
            elim mode [
              | strict_update ↦ (s', element_not_found, freq)
              | update ↦ place
              | insert ↦ place
              | strict_insert ↦ place
            ]
      ]

  -- hash_insert and hash_update.
  abbrev pub hash_insert : IndexSys → ℕ → ℕ → IndexSys × Status × Option ℕ
  hash_insert s key value = hash_modify s key value insert

  abbrev pub hash_update : IndexSys → ℕ → ℕ → IndexSys × Status × Option ℕ
  hash_update s key value = hash_modify s key value strict_update
