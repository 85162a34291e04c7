-- ===== src/Index.antt =====
-- src/hetero.c: the index, which keeps two special keys, the table and the tree. A key below 2 is
-- special: it is kept beside both. The result 0 of a call is `true` here. A result that is an
-- address is given by whether it is NULL.
use hetero_indexing.Prelude.{
  ℕ, zero, suc, ◌+◌, ◌-◌, ◌*◌, ◌/◌, ◌^◌, min, List, [], ◌∷◌, ◌++◌, Bool, true, false, not, ◌&&◌,
  Option, none, some, ◌==◌, ltb, leb, if◌then◌else◌, get_or, set,
}
use hetero_indexing.Common.{
  Entry, key_len, buf_len, empty_flag, bin_capacity, is_special_key, is_mem_type, mem_type, u64,
  u32, Murmur,
}
use hetero_indexing.Sketch
use hetero_indexing.Sketch.{Sketch, count_min}
use hetero_indexing.Hash
use hetero_indexing.Hash.{HashSys, insert_nocheck}
use hetero_indexing.Art.{
  Kind, node4, node16, node48, node256, Header, Node, null, leaf, inner, empty_entry, update,
}
use hetero_indexing.Tree.{ArtTree, empty_tree, art_insert_no_replace}
use hetero_indexing.Delete.{art_delete}
use hetero_indexing.System.{
  IndexSys, Status, ok, element_not_found, hash_bin_full, element_already_exists, hash_insert,
  hash_update,
}
use hetero_indexing.Float.{art_search, art_update}
pub mod Special
pub mod Holds
pub mod Insert
pub mod Remove
pub mod Change
pub mod Query
pub mod Still
pub mod Steps
pub mod Expand
pub mod Walk
mod QueryTests
mod Tests

abbrev pub cm_depth : ℕ
cm_depth = 6

abbrev pub max_tree_hash_ratio : ℕ
max_tree_hash_ratio = 5

-- `load_factor(h) < num / den`. The table's size is a power of two, so the division is exact.
abbrev pub load_below : HashSys → ℕ → ℕ → Bool
load_below t num den = ltb (t.count * bin_capacity * den) (num * t.size)

-- index_construct; NULL is `none`. `rand` is what a seed of 0 draws.
unfoldable pub index_construct : ℕ → ℕ → ℕ → Option IndexSys
index_construct rand hash_size seed =
    let hash = Hash.construct rand hash_size (u32 seed) in
    elim (Sketch.construct rand (u32 hash_size) cm_depth hash.seed count_min) [
      | none ↦ none
      | some cm ↦ some (record {
        has_special_key = λ _. 0;
        special_key_val = λ _. 0;
        cm = cm;
        hash = hash;
        tree = empty_tree;
      })
    ]

-- The stores of a special key.
abbrev pub store_special : IndexSys → ℕ → ℕ → IndexSys
store_special s key value = record s {
  special_key_val = update s.special_key_val key value;
  has_special_key = update s.has_special_key key 1;
}

-- The inner node at the end of a path of child indices, which stands for its address.
unfoldable pub node_at : List ℕ → Node → Node
node_at [] n = n
node_at (i ∷ path) null = null
node_at (i ∷ path) (leaf e) = leaf e
node_at (i ∷ path) (inner h ch) = node_at path (ch i)

-- A store through such an address: the key of slot `j` of the buffer becomes 0.
unfoldable pub clear_slot : List ℕ → ℕ → Node → Node
clear_slot [] j null = null
clear_slot [] j (leaf e) = leaf e
clear_slot [] j (inner h ch) =
    inner
      (record h { buffer = set h.buffer j (record (get_or h.buffer j empty_entry) { key = 0 }) }) ch
clear_slot (i ∷ path) j null = null
clear_slot (i ∷ path) j (leaf e) = leaf e
clear_slot (i ∷ path) j (inner h ch) = inner h (update ch i (clear_slot path j (ch i)))

-- The state of index_compact: the table, the tree and `consecutive_failure`.
pub record Compaction : Type 0 where
  pub hash : HashSys
  pub tree : ArtTree
  pub failures : ℕ

-- `n_children`: all the cells of the array.
abbrev pub cells : Kind → ℕ
cells node4 = 4
cells node16 = 16
cells node48 = 48
cells node256 = 256

-- The cells that can be in use. remove_child4 and remove_child16 leave a copy of the last pointer
-- behind them; the other nodes have NULL in each cell that is not in use.
abbrev pub cells_used : Header → ℕ
cells_used h = elim h.kind [
  | node4 ↦ h.num_children
  | node16 ↦ h.num_children
  | node48 ↦ 48
  | node256 ↦ 256
]

-- The inner nodes among the children from cell `k` on, as paths. A cell from `used` on with the
-- address of an inner node gives `none`: the code reads through it, though the node may have been
-- freed or stand elsewhere too.
unfoldable pub inner_children : ℕ → ℕ → ℕ → List ℕ → (ℕ → Node) → Option (List (List ℕ))
inner_children zero k used path ch = some []
inner_children (suc n) k used path ch =
    let rest = inner_children n (k + 1) used path ch in
    let here : Option (List (List ℕ)) = elim rest [
      | none ↦ none
      | some more ↦ some ((path ++ k ∷ []) ∷ more)
    ] in
    elim (ch k) [ null ↦ rest | leaf e ↦ rest | inner h below ↦ if ltb k used then here else none ]

-- The pair at an address.
unfoldable pub pair_at : Node → ℕ → Entry
pair_at null j = empty_entry
pair_at (leaf e) j = empty_entry
pair_at (inner h ch) j = get_or h.buffer j empty_entry

unfoldable pub children_of : List ℕ → Node → Option (List (List ℕ))
children_of path null = some []
children_of path (leaf e) = some []
children_of path (inner h ch) = inner_children (cells h.kind) 0 (cells_used h) path ch

-- The cells of the queue of index_compact, `hash->size >> 4` as a uint32_t. Its ring is the list of
-- the loop, since the ring of at least one cell is a queue without a bound (Queue/Fifo.antt).
abbrev pub queue_cells : HashSys → ℕ
queue_cells t = u32 (t.size / 2 ^ 4)

-- `CLEAR_BUFFER`: a pair that moved leaves its slot.
unfoldable pub clear_buffer : List ℕ → ℕ → Compaction → Compaction
clear_buffer path j s = record s {
  tree = record {
    root = clear_slot path j s.tree.root;
    size = u64 (s.tree.size + 2 ^ 64 - 1);
    buffer_count = u64 (s.tree.buffer_count + 2 ^ 64 - 1);
  };
}

module _ (m : Murmur) where
  -- One pair of a buffer in index_compact: into the table, or higher up in the tree. Its node stays
  -- where it is, since the insertion finds a slot above it or the pair itself.
  unfoldable pub compact_slot : ℕ → ℕ → List ℕ → ℕ → Compaction → Compaction
  compact_slot num den path j s =
      let own = pair_at (node_at path s.tree.root) j in
      let try = ltb s.failures 3 && load_below s.hash num den in
      let r = insert_nocheck m s.hash own.key own.value in
      let failures' = if try then s.failures + 1 else s.failures in
      let lifted = art_insert_no_replace true s.tree own in
      let s' : Compaction = record s { failures = failures' } in
      let above : Compaction = elim lifted.1 [
        | none ↦ clear_buffer path j (record s' { tree = lifted.0 })
        | some _ ↦ record s' { tree = lifted.0 }
      ] in
      if is_special_key own.key
      then s
      else (if try && r.1
          then clear_buffer path j (record s { hash = r.0; failures = 0 })
          else above)

  -- The loop over the slots of a buffer, from slot `j` on.
  unfoldable pub compact_node : ℕ → ℕ → ℕ → ℕ → List ℕ → Compaction → Compaction
  compact_node zero j num den path s = s
  compact_node (suc n) j num den path s =
      compact_node n (j + 1) num den path (compact_slot num den path j s)

  -- The loop of index_compact on the nodes of the queue: `none` where the queue is not empty after
  -- `n` rounds, or a cell behind the ones in use gave it the address of an inner node.
  unfoldable pub compact_loop : ℕ → ℕ → ℕ → List (List ℕ) → Compaction → Option Compaction
  compact_loop n num den [] s = some s
  compact_loop zero num den (path ∷ q) s = none
  compact_loop (suc n) num den (path ∷ q) s =
      let s' = compact_node buf_len 0 num den path s in
      let rest : Option Compaction = elim (children_of path (node_at path s'.tree.root)) [
        | none ↦ none
        | some more ↦ compact_loop n num den (q ++ more) s'
      ] in
      if s'.tree.buffer_count == 0 then some s' else rest

  -- index_compact up to a load factor of `num / den`. A queue of no cells is written outside of its
  -- array, and the NULL root of an empty tree is read through: `none`, as where the loop has none. A
  -- leaf at the root has no buffer.
  unfoldable pub index_compact : ℕ → ℕ → ℕ → IndexSys → Option IndexSys
  index_compact n num den s =
      let start : Compaction = record { hash = s.hash; tree = s.tree; failures = 0 } in
      let moved : Option IndexSys = elim (compact_loop n num den ([] ∷ []) start) [
        | none ↦ none
        | some r ↦ some (record s { hash = r.hash; tree = r.tree })
      ] in
      let walked : Option IndexSys = elim s.tree.root [
        | null ↦ none
        | leaf e ↦ some s
        | inner h ch ↦ moved
      ] in
      if queue_cells s.hash == 0 then none else walked

  -- index_delete, with `n` rounds for the compaction; `none` where the compaction has none.
  unfoldable pub index_delete : ℕ → IndexSys → ℕ → Option (IndexSys × Bool)
  index_delete n s key =
      let had = s.has_special_key key == 1 in
      let (hash, found) = Hash.delete m s.hash key in
      let (tree, gone) = art_delete s.tree key in
      let from_tree : IndexSys × Bool = (record s { tree = tree }, gone) in
      let from_table : IndexSys = record s { hash = hash } in
      let compacted : Option (IndexSys × Bool) = elim (index_compact n 7 8 from_table) [
        | none ↦ none
        | some s' ↦ some (s', true)
      ] in
      let rest : Option (IndexSys × Bool) =
        if found
        then (if load_below hash 3 5 && not (s.tree.buffer_count == 0)
            then compacted
            else some (from_table, true))
        else some from_tree in
      if is_special_key key
      then some
          (if had then record s { has_special_key = update s.has_special_key key 0 } else s, had)
      else rest

module _ (m : Murmur) where
  -- index_query: the value, if the key is there.
  unfoldable pub index_query : IndexSys → ℕ → IndexSys × Option ℕ
  index_query s key =
      let special = if s.has_special_key key == 0 then none else some (s.special_key_val key) in
      let ((cm, freq), found) = Hash.query m s.hash s.cm key in
      let s' : IndexSys = record s { cm = cm } in
      let rest : IndexSys × Option ℕ = elim found [
        | none ↦ art_search m s' key freq
        | some value ↦ (s', some value)
      ] in
      if is_special_key key then (s, special) else rest

  -- index_update.
  unfoldable pub index_update : IndexSys → ℕ → ℕ → IndexSys × Bool
  index_update s key value =
      let (s', status, freq) = hash_update m s key value in
      let in_tree : IndexSys × Bool = elim freq [
        | none ↦ (s', false)
        | some f ↦ art_update m s' key f value
      ] in
      let rest : IndexSys × Bool = elim status [
        | ok ↦ (s', true)
        | element_not_found ↦ in_tree
        | hash_bin_full ↦ (s', true)
        | element_already_exists ↦ (s', true)
      ] in
      if is_special_key key then (store_special s key value, true) else rest

-- `expand` is what the pointer hash_expand is set to.
module _ (m : Murmur) (expand : HashSys → HashSys) where
  -- index_expand, with `n` rounds for the compaction.
  unfoldable pub index_expand : ℕ → IndexSys → Option IndexSys
  index_expand n s = index_compact m n 4 5 (record s { hash = expand s.hash })

  -- The last line of index_insert. Its key is read as KEY_LEN bytes, which is what recursive_insert
  -- does where packed_len of the storage type is that.
  unfoldable pub insert_tree : IndexSys → ℕ → ℕ → ℕ → IndexSys × Bool
  insert_tree s key value storage_type =
      let r =
        art_insert_no_replace (is_mem_type storage_type) s.tree
          (record { key = key; value = value }) in
      let fresh : Bool = elim r.1 [ none ↦ true | some _ ↦ false ] in
      (record s { tree = r.0 }, fresh)

  -- The part of index_insert from REINSERT on, `tries` times at most; `none` is the loop that goes
  -- on, or a compaction that has none.
  unfoldable pub reinsert : ℕ → ℕ → IndexSys → ℕ → ℕ → Option (IndexSys × Bool)
  reinsert zero n s key value = none
  reinsert (suc tries) n s key value =
      let (s', status, _) = hash_insert m s key value in
      let wide = expand s'.hash in
      let wider : IndexSys = record s' { hash = wide; cm = Sketch.clear s'.cm } in
      let again : Option (IndexSys × Bool) = elim (index_compact m n 4 5 wider) [
        | none ↦ none
        | some compacted ↦ reinsert tries n compacted key value
      ] in
      let full : Option (IndexSys × Bool) =
        if ltb (u64 (s'.hash.count * max_tree_hash_ratio)) s'.tree.size
        then again
        else some (insert_tree s' key value mem_type) in
      elim status [
        | ok ↦ some (s', true)
        | element_not_found ↦ full
        | hash_bin_full ↦ full
        | element_already_exists ↦ full
      ]

  -- index_insert.
  unfoldable pub index_insert : ℕ → ℕ → IndexSys → ℕ → ℕ → ℕ → Option (IndexSys × Bool)
  index_insert tries n s key value storage_type =
      if is_special_key key
      then some (store_special s key value, true)
      else (if storage_type == mem_type
          then reinsert tries n s key value
          else some (insert_tree s key value storage_type))

-- index_size.
unfoldable pub index_size : IndexSys → ℕ
index_size s = u64 (s.hash.count + s.tree.size + s.has_special_key 0 + s.has_special_key 1)
