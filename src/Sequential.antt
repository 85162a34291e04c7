-- ===== src/Sequential.antt =====
-- src/sequential: the index for one thread, without a sketch, so nothing sinks and nothing floats. The
-- nodes of the tree and the insertion and deletion in it are those of Art, Tree and Delete, and
-- hash_expand_copy, hash_expand_reinsert and the deletion from the table those of Hash, since the two
-- sources differ there in atomic stores only. The result 0 of a call is `true`.
use hetero_indexing.Prelude.{
  ℕ, zero, suc, ◌+◌, ◌-◌, ◌*◌, ◌^◌, min, List, [], ◌∷◌, ◌++◌, Bool, true, false, not, ◌&&◌, Option,
  none, some, ◌==◌, ltb, if◌then◌else◌, get_or, set, bit_and,
}
use hetero_indexing.Common.{
  Entry, Murmur, key_len, buf_len, bin_capacity, empty_flag, is_special_key, is_mem_type, mem_type,
  u64, u32,
}
use hetero_indexing.Hash
use hetero_indexing.Hash.{Bin, HashSys, find, assign, index_of, index, expand_reinsert}
use hetero_indexing.Art.{
  Header, Node, null, leaf, inner, empty_entry, key_byte, update, find_first, find_child,
}
use hetero_indexing.Tree.{ArtTree, empty_tree, check_prefix, art_insert_no_replace}
use hetero_indexing.Delete.{art_delete}
use hetero_indexing.System.{
  Mode, Status, Scan, ok, element_not_found, hash_bin_full, element_already_exists,
  update as any_update, insert, strict_update, strict_insert, here, away, or_else,
}
use hetero_indexing.Float.{store_at}
use hetero_indexing.Index.{
  Compaction, node_at, pair_at, clear_buffer, children_of, queue_cells, load_below,
}
pub mod Modify
pub mod Embed
pub mod Steps
mod Tests
pub mod Search
pub mod Compact
pub mod Rounds

-- `struct index_sys`. The counters and the sketches are not used in this build.
pub record SequentialSys : Type 0 where
  pub has_special_key : ℕ → ℕ
  pub special_key_val : ℕ → ℕ
  pub hash : HashSys
  pub tree : ArtTree

abbrev pub max_tree_hash_ratio : ℕ
max_tree_hash_ratio = 4

-- hash_construct: NULL where `size & (size - 1)` is not 0.
unfoldable pub hash_construct : ℕ → ℕ → ℕ → Option HashSys
hash_construct rand size seed =
    if bit_and size (u64 (size + 2 ^ 64 - 1)) == 0
    then some (Hash.construct rand size seed)
    else none

-- The loop of hash_modify over the bin, from slot `j` on. No pair is chosen to sink.
unfoldable pub scan : ℕ → ℕ → Option ℕ → Bin → Scan
scan key j available [] = away available none
scan key j available (e ∷ es) =
    let available' = if e.key == empty_flag then or_else available (some j) else available in
    let rest = scan key (j + 1) available' es in if e.key == key then here else rest

-- The loop of hash_insert_nocheck from slot `j` on, for a bin at the address `bin`. Its test compares
-- `(uint64_t*)target->data[j].key`, the address of the key, with EMPTY_FLAG.
unfoldable pub place_at : ℕ → ℕ → ℕ → ℕ → Bin → Option Bin
place_at bin j key value [] = none
place_at bin j key value (e ∷ es) =
    let rest : Option Bin = elim (place_at bin (j + 1) key value es) [
      | none ↦ none
      | some es' ↦ some (e ∷ es')
    ] in
    if u64 (bin + 16 * j) == empty_flag
    then some (record { key = key; value = value } ∷ es)
    else rest

-- art_search.
unfoldable pub art_search : Node → ℕ → ℕ → Option ℕ
art_search null key depth = none
art_search (leaf e) key depth = if e.key == key then some e.value else none
art_search (inner h ch) key depth =
    let next = depth + h.partial_len in
    let below : Option ℕ = elim (find_child h ch (key_byte key next)) [
      | none ↦ none
      | some i ↦ art_search (ch i) key (next + 1)
    ] in
    if not (h.partial_len == 0) && not (check_prefix h key depth == min key_len h.partial_len)
    then none
    else (elim (find_first buf_len 0 (λ i. (get_or h.buffer i empty_entry).key == key)) [
      | none ↦ below
      | some i ↦ some (get_or h.buffer i empty_entry).value
    ])

-- art_update: the node after it, and whether the result is not NULL. For a leaf the result is the old
-- value itself, taken for an address.
unfoldable pub art_update : ℕ → ℕ → Node → ℕ → Node × Bool
art_update key value null depth = (null, false)
art_update key value (leaf e) depth =
    if e.key == key
    then (leaf (record e { value = value }), not (e.value == 0))
    else (leaf e, false)
art_update key value (inner h ch) depth =
    let next = depth + h.partial_len in
    let below : Node × Bool = elim (find_child h ch (key_byte key next)) [
      | none ↦ (inner h ch, false)
      | some i ↦ let r = art_update key value (ch i) (next + 1) in (inner h (update ch i r.0), r.1)
    ] in
    if not (h.partial_len == 0) && not (check_prefix h key depth == min key_len h.partial_len)
    then (inner h ch, false)
    else (elim (find_first buf_len 0 (λ i. (get_or h.buffer i empty_entry).key == key)) [
      | none ↦ below
      | some i ↦ (inner (store_at (some value) i h) ch, true)
    ])

-- The stores of a special key.
abbrev pub store_special : SequentialSys → ℕ → ℕ → SequentialSys
store_special s key value = record s {
  special_key_val = update s.special_key_val key value;
  has_special_key = update s.has_special_key key 1;
}

-- index_construct; NULL is `none`. `rand` is what a seed of 0 draws.
unfoldable pub index_construct : ℕ → ℕ → ℕ → Option SequentialSys
index_construct rand hash_size seed = elim (hash_construct rand hash_size (u32 seed)) [
  | none ↦ none
  | some hash ↦ some (record {
    has_special_key = λ _. 0;
    special_key_val = λ _. 0;
    hash = hash;
    tree = empty_tree;
  })
]

-- index_size.
unfoldable pub index_size : SequentialSys → ℕ
index_size s = u64 (s.hash.count + s.tree.size + s.has_special_key 0 + s.has_special_key 1)

module _ (m : Murmur) where
  -- hash_modify.
  unfoldable pub hash_modify : SequentialSys → ℕ → ℕ → Mode → SequentialSys × Status
  hash_modify s key value mode =
      let i = index_of s.hash (m.x64_128 key s.hash.seed).1 in
      let b = get_or s.hash.bins i [] in
      let in_place : SequentialSys × Status =
        (record s { hash = record s.hash { bins = set s.hash.bins i (assign key value b) } }, ok) in
      elim (scan key 0 none b) [
        | here ↦ elim mode [
          | strict_insert ↦ (s, element_already_exists)
          | any_update ↦ in_place
          | insert ↦ in_place
          | strict_update ↦ in_place
        ]
        | away available lru ↦
            let place : SequentialSys × Status = elim available [
              | some slot ↦ (
                record s {
                  hash = record s.hash {
                    bins = set s.hash.bins i (set b slot (record { key = key; value = value }));
                    count = u64 (s.hash.count + 1);
                  };
                },
                ok,
              )
              | none ↦ (s, hash_bin_full)
            ] in
            elim mode [
              | strict_update ↦ (s, element_not_found)
              | any_update ↦ place
              | insert ↦ place
              | strict_insert ↦ place
            ]
      ]

  -- hash_insert and hash_update.
  abbrev pub hash_insert : SequentialSys → ℕ → ℕ → SequentialSys × Status
  hash_insert s key value = hash_modify s key value insert

  abbrev pub hash_update : SequentialSys → ℕ → ℕ → SequentialSys × Status
  hash_update s key value = hash_modify s key value strict_update

  -- hash_search in the mode HASH_QUERY.
  unfoldable pub hash_query : HashSys → ℕ → Option ℕ
  hash_query t key = find key (get_or t.bins (index_of t (m.x64_128 key t.seed).1) [])

  -- index_query: the value, if the key is there.
  unfoldable pub index_query : SequentialSys → ℕ → Option ℕ
  index_query s key =
      let special = if s.has_special_key key == 0 then none else some (s.special_key_val key) in
      let rest : Option ℕ = elim (hash_query s.hash key) [
        | none ↦ art_search s.tree.root key 0
        | some value ↦ some value
      ] in
      if is_special_key key then special else rest

  -- index_update.
  unfoldable pub index_update : SequentialSys → ℕ → ℕ → SequentialSys × Bool
  index_update s key value =
      let (s', status) = hash_update s key value in
      let r = art_update key value s'.tree.root 0 in
      let in_tree : SequentialSys × Bool =
        (record s' { tree = record s'.tree { root = r.0 } }, r.1) in
      let rest : SequentialSys × Bool = elim status [
        | element_not_found ↦ in_tree
        | ok ↦ (s', true)
        | hash_bin_full ↦ (s', true)
        | element_already_exists ↦ (s', true)
      ] in
      if is_special_key key then (store_special s key value, true) else rest

  -- `entries` gives the address of a table's bins.
  module _ (entries : HashSys → ℕ) where
    -- hash_insert_nocheck: `false` is HASH_BIN_FULL.
    unfoldable pub hash_insert_nocheck : HashSys → ℕ → ℕ → HashSys × Bool
    hash_insert_nocheck t key value =
        let i = index m t key in
        elim (place_at (u64 (entries t + 128 * i)) 0 key value (get_or t.bins i [])) [
          | none ↦ (t, false)
          | some b ↦ (record t { bins = set t.bins i b; count = u64 (t.count + 1) }, true)
        ]

    -- One pair of a buffer in index_compact.
    unfoldable pub compact_slot : ℕ → ℕ → List ℕ → ℕ → Compaction → Compaction
    compact_slot num den path j s =
        let own = pair_at (node_at path s.tree.root) j in
        let try = ltb s.failures 3 && load_below s.hash num den in
        let r = hash_insert_nocheck s.hash own.key own.value in
        let failures' = if try then s.failures + 1 else s.failures in
        let lifted = art_insert_no_replace true s.tree own in
        let s' : Compaction = record s { failures = failures' } in
        let above : Compaction = elim lifted.1 [
          | none ↦ clear_buffer path j (record s' { tree = lifted.0 })
          | some _ ↦ record s' { tree = lifted.0 }
        ] in
        if is_special_key own.key
        then s
        else (if try && r.1
            then clear_buffer path j (record s { hash = r.0; failures = 0 })
            else above)

    -- The loop over the slots of a buffer, from slot `j` on.
    unfoldable pub compact_node : ℕ → ℕ → ℕ → ℕ → List ℕ → Compaction → Compaction
    compact_node zero j num den path s = s
    compact_node (suc n) j num den path s =
        compact_node n (j + 1) num den path (compact_slot num den path j s)

    -- The loop of index_compact on the nodes of the queue: `none` where the queue is not empty after
    -- `n` rounds, or a cell behind the ones in use gave it the address of an inner node.
    unfoldable pub compact_loop : ℕ → ℕ → ℕ → List (List ℕ) → Compaction → Option Compaction
    compact_loop n num den [] s = some s
    compact_loop zero num den (path ∷ q) s = none
    compact_loop (suc n) num den (path ∷ q) s =
        let s' = compact_node buf_len 0 num den path s in
        let rest : Option Compaction = elim (children_of path (node_at path s'.tree.root)) [
          | none ↦ none
          | some more ↦ compact_loop n num den (q ++ more) s'
        ] in
        if s'.tree.buffer_count == 0 then some s' else rest

    -- index_compact up to a load factor of `num / den`; `none` as in Index.
    unfoldable pub index_compact : ℕ → ℕ → ℕ → SequentialSys → Option SequentialSys
    index_compact n num den s =
        let start : Compaction = record { hash = s.hash; tree = s.tree; failures = 0 } in
        let moved : Option SequentialSys = elim (compact_loop n num den ([] ∷ []) start) [
          | none ↦ none
          | some r ↦ some (record s { hash = r.hash; tree = r.tree })
        ] in
        let walked : Option SequentialSys = elim s.tree.root [
          | null ↦ none
          | leaf e ↦ some s
          | inner h ch ↦ moved
        ] in
        if queue_cells s.hash == 0 then none else walked

    -- index_delete, with `n` rounds for the compaction; `none` where the compaction has none.
    unfoldable pub index_delete : ℕ → SequentialSys → ℕ → Option (SequentialSys × Bool)
    index_delete n s key =
        let had = s.has_special_key key == 1 in
        let (hash, found) = Hash.delete m s.hash key in
        let (tree, gone) = art_delete s.tree key in
        let from_tree : SequentialSys × Bool = (record s { tree = tree }, gone) in
        let from_table : SequentialSys = record s { hash = hash } in
        let many = ltb s.tree.size (u64 (s.tree.buffer_count * 16)) in
        let compacted : Option (SequentialSys × Bool) = elim (index_compact n 7 8 from_table) [
          | none ↦ none
          | some s' ↦ some (s', true)
        ] in
        let rest : Option (SequentialSys × Bool) =
          if found
          then (if load_below hash 3 5 && many then compacted else some (from_table, true))
          else some from_tree in
        if is_special_key key
        then some
            (if had then record s { has_special_key = update s.has_special_key key 0 } else s, had)
        else rest

    -- `rand` is what a seed of 0 would draw; the seed of a table is kept.
    module _ (rand : ℕ) where
      -- index_expand, with `n` rounds for the compaction; hash_expand is hash_expand_reinsert.
      unfoldable pub index_expand : ℕ → SequentialSys → Option SequentialSys
      index_expand n s = index_compact n 4 5 (record s { hash = expand_reinsert m rand s.hash })

      -- The last line of index_insert. Its key is read as KEY_LEN bytes, which is what recursive_insert
      -- does where packed_len of the storage type is that.
      unfoldable pub insert_tree : SequentialSys → ℕ → ℕ → ℕ → SequentialSys × Bool
      insert_tree s key value storage_type =
          let r =
            art_insert_no_replace (is_mem_type storage_type) s.tree
              (record { key = key; value = value }) in
          let fresh : Bool = elim r.1 [ none ↦ true | some _ ↦ false ] in
          (record s { tree = r.0 }, fresh)

      -- The part of index_insert from REINSERT on, `tries` times at most; `none` is the loop that goes
      -- on, or a compaction that has none.
      unfoldable pub reinsert : ℕ → ℕ → SequentialSys → ℕ → ℕ → Option (SequentialSys × Bool)
      reinsert zero n s key value = none
      reinsert (suc tries) n s key value =
          let (s', status) = hash_insert s key value in
          let wider : SequentialSys = record s' { hash = expand_reinsert m rand s'.hash } in
          let again : Option (SequentialSys × Bool) = elim (index_compact n 9 10 wider) [
            | none ↦ none
            | some compacted ↦ reinsert tries n compacted key value
          ] in
          let full : Option (SequentialSys × Bool) =
            if ltb (u64 (s'.hash.size * bin_capacity * max_tree_hash_ratio)) s'.tree.size
            then again
            else some (insert_tree s' key value mem_type) in
          elim status [
            | ok ↦ some (s', true)
            | element_not_found ↦ full
            | hash_bin_full ↦ full
            | element_already_exists ↦ full
          ]

      -- index_insert.
      unfoldable pub index_insert :
          ℕ → ℕ → SequentialSys → ℕ → ℕ → ℕ → Option (SequentialSys × Bool)
      index_insert tries n s key value storage_type =
          if is_special_key key
          then some (store_special s key value, true)
          else (if storage_type == mem_type
              then reinsert tries n s key value
              else some (insert_tree s key value storage_type))
