-- ===== src/Delete.antt =====
-- src/art.c: deletion from the tree, with the nodes that shrink and the node4 that is folded into
-- its only child. `*ref` is the node that a function returns; the tag that the code adds to the
-- address it returns is a count of its own.
use hetero_indexing.Prelude.{
  ℕ, zero, suc, ◌+◌, ◌-◌, ◌^◌, min, Bool, true, false, not, ◌&&◌, Option, none, some, ◌==◌, ltb,
  leb, if◌then◌else◌, get_or, set,
}
use hetero_indexing.Common.{Entry, key_len, buf_len, empty_flag, is_special_key, u8, u64}
use hetero_indexing.Hash.{find, erase}
use hetero_indexing.Art.{
  node4, node16, node48, node256, Header, Node, Body, null, leaf, inner, is_null, empty_entry,
  key_byte, update, copy, find_child, alloc_node, no_children, copy_header, add_child4,
}
use hetero_indexing.Tree.{ArtTree, check_prefix}
pub mod Value
pub mod Gap
pub mod Pack48
pub mod Pack16
pub mod Child
pub mod Plain
pub mod Join
pub mod Fold
pub mod Whole
pub mod Steps
pub mod Moved
mod Tests

-- `memmove(a + i, a + i + 1, n - 1 - i)` of an array with `n` cells in use.
module _ {A : Type 0} where
  abbrev pub shift_down : (ℕ → A) → ℕ → ℕ → ℕ → A
  shift_down f i n j = if leb i j && ltb j (n - 1) then f (j + 1) else f j

-- What a removal leaves in `*ref`, and what it returns.
pub record Removed : Type 0 where
  pub node : Node
  pub moved : ℕ

abbrev pub removed : Header → (ℕ → Node) → Removed
removed h ch = record { node = inner h ch; moved = 0 }

-- `num_children--` of an 8-bit count.
abbrev pub one_less : ℕ → ℕ
one_less n = u8 (n + 255)

-- The loop of remove_child256 that fills a node48, from byte `i` on.
unfoldable pub pack48 : ℕ → ℕ → ℕ → (ℕ → Node) → (ℕ → ℕ) → (ℕ → Node) → (ℕ → ℕ) × (ℕ → Node)
pack48 zero i pos ch keys slots = (keys, slots)
pack48 (suc n) i pos ch keys slots =
    let skip = pack48 n (i + 1) pos ch keys slots in
    let take = pack48 n (i + 1) (pos + 1) ch (update keys i (pos + 1)) (update slots pos (ch i)) in
    if is_null (ch i) then skip else take

-- remove_child256.
unfoldable pub remove_child256 : Header → (ℕ → Node) → ℕ → Removed
remove_child256 h ch c =
    let h' : Header = record h { num_children = one_less h.num_children } in
    let ch' = update ch c null in
    let packed = pack48 256 0 0 ch' (λ _. 0) no_children in
    if h'.num_children == 37
    then removed (record (copy_header (alloc_node node48) h') { keys = packed.0 }) packed.1
    else removed h' ch'

-- The loop of remove_child48 that fills a node16, from byte `i` on.
unfoldable pub pack16 :
    ℕ → ℕ → ℕ → (ℕ → ℕ) → (ℕ → Node) → (ℕ → ℕ) → (ℕ → Node) → (ℕ → ℕ) × (ℕ → Node)
pack16 zero i child map ch keys slots = (keys, slots)
pack16 (suc n) i child map ch keys slots =
    let skip = pack16 n (i + 1) child map ch keys slots in
    let take =
      pack16 n (i + 1) (child + 1) map ch (update keys child i)
        (update slots child (ch (map i - 1))) in
    if map i == 0 then skip else take

-- remove_child48.
unfoldable pub remove_child48 : Header → (ℕ → Node) → ℕ → Removed
remove_child48 h ch c =
    let h' : Header = record h {
      keys = update h.keys c 0;
      num_children = one_less h.num_children;
    } in
    let ch' = update ch (h.keys c - 1) null in
    let packed = pack16 256 0 0 h'.keys ch' (λ _. 0) no_children in
    if h'.num_children == 12
    then removed (record (copy_header (alloc_node node16) h') { keys = packed.0 }) packed.1
    else removed h' ch'

-- The array of a node4 or node16 without its cell `pos`.
abbrev pub close_gap : Header → ℕ → Header
close_gap h pos = record h {
  keys = shift_down h.keys pos h.num_children;
  num_children = one_less h.num_children;
}

-- remove_child16; the child is at index `pos`.
unfoldable pub remove_child16 : Header → (ℕ → Node) → ℕ → Removed
remove_child16 h ch pos =
    let h' = close_gap h pos in
    let ch' = shift_down ch pos h.num_children in
    if h'.num_children == 3
    then removed (record (copy_header (alloc_node node4) h') { keys = copy (λ _. 0) h'.keys 4 })
        (copy no_children ch' 4)
    else removed h' ch'

-- The loop of remove_child4 that turns the buffered pairs from `i` on into leaves.
unfoldable pub unbuffer : ℕ → ℕ → ℕ → Header → (ℕ → Node) → ℕ → Body × ℕ
unbuffer zero i depth h ch cnt = ((h, ch), cnt)
unbuffer (suc n) i depth h ch cnt =
    let e = get_or h.buffer i empty_entry in
    let b = add_child4 h ch (key_byte e.key depth) (leaf e) in
    let h' : Header = record b.0 { buffer = set b.0.buffer i (record e { key = empty_flag }) } in
    let rest = unbuffer n (i + 1) depth h ch cnt in
    let rest' = unbuffer n (i + 1) depth h' b.1 (cnt + 1) in
    if ltb h.num_children 4 && not (is_special_key e.key) then rest' else rest

-- The only child of a node4, an inner node, with the prefixes joined.
unfoldable pub join_prefix : Header → Header → (ℕ → Node) → Node
join_prefix h child ch =
    let prefix = h.partial_len in
    let partial = if ltb prefix key_len then update h.partial prefix (h.keys 0) else h.partial in
    let prefix' = if ltb prefix key_len then prefix + 1 else prefix in
    let sub_prefix = if ltb prefix' key_len then min child.partial_len (key_len - prefix') else 0 in
    let partial' = λ (i : ℕ).
      if leb prefix' i && ltb i (prefix' + sub_prefix)
      then child.partial (i - prefix')
      else partial i in
    inner
      (record child {
        partial = copy child.partial partial' (min (prefix' + sub_prefix) key_len);
        partial_len = u8 (child.partial_len + (h.partial_len + 1));
      })
      ch

-- remove_child4; the child is at index `pos`. A NULL child, which the code would read through, stays.
unfoldable pub remove_child4 : Header → (ℕ → Node) → ℕ → ℕ → Removed
remove_child4 h ch pos depth =
    let (b, cnt) =
      unbuffer buf_len 0 depth (close_gap h pos) (shift_down ch pos h.num_children) 0 in
    if not (cnt == 0)
    then record { node = inner b.0 b.1; moved = cnt }
    else (if b.0.num_children == 1
        then (elim (b.1 0) [
          | null ↦ record { node = null; moved = 0 }
          | leaf e ↦ record { node = leaf e; moved = 0 }
          | inner g below ↦ record { node = join_prefix b.0 g below; moved = 0 }
        ])
        else removed b.0 b.1)

-- remove_child; the child under byte `c` is at index `pos`.
unfoldable pub remove_child : Header → (ℕ → Node) → ℕ → ℕ → ℕ → Removed
remove_child h ch c pos depth = elim h.kind [
  | node4 ↦ remove_child4 h ch pos depth
  | node16 ↦ remove_child16 h ch pos
  | node48 ↦ remove_child48 h ch c
  | node256 ↦ remove_child256 h ch c
]

-- What a deletion leaves in `*ref`, whether the address that it returns is not NULL, and the buffered
-- pairs gone. What the address of a value in a freed leaf points to is not modelled.
pub record Deleted : Type 0 where
  pub node : Node
  pub found : Bool
  pub unbuffered : ℕ

abbrev pub not_found : Node → Deleted
not_found n = record { node = n; found = false; unbuffered = 0 }

-- `IS_LEAF` with the leaf.
abbrev pub as_leaf : Node → Option Entry
as_leaf null = none
as_leaf (leaf e) = some e
as_leaf (inner h ch) = none

-- recursive_delete.
unfoldable pub recursive_delete : Node → ℕ → ℕ → Deleted
recursive_delete null key depth = not_found null
recursive_delete (leaf l) key depth =
    if l.key == key
    then record { node = null; found = true; unbuffered = 0 }
    else not_found (leaf l)
recursive_delete (inner h ch) key depth =
    let next = depth + h.partial_len in
    let c = key_byte key next in
    let below : Deleted = elim (find_child h ch c) [
      | none ↦ not_found (inner h ch)
      | some i ↦ elim (as_leaf (ch i)) [
        | some l ↦
            let r = remove_child h ch c i next in
            if l.key == key
            then record { node = r.node; found = true; unbuffered = r.moved }
            else not_found (inner h ch)
        | none ↦
            let r = recursive_delete (ch i) key (next + 1) in
            record r { node = inner h (update ch i r.node) }
      ]
    ] in
    if not (h.partial_len == 0) && not (check_prefix h key depth == min key_len h.partial_len)
    then not_found (inner h ch)
    else (elim (find key h.buffer) [
      | some _ ↦ record {
        node = inner (record h { buffer = erase key h.buffer }) ch;
        found = true;
        unbuffered = 1;
      }
      | none ↦ below
    ])

-- art_delete: whether the address that it returns is not NULL.
unfoldable pub art_delete : ArtTree → ℕ → ArtTree × Bool
art_delete t key =
    let r = recursive_delete t.root key 0 in
    (
      record {
        root = r.node;
        size = if r.found then u64 (t.size + 2 ^ 64 - 1) else t.size;
        buffer_count = u64 (t.buffer_count + 2 ^ 64 - r.unbuffered);
      },
      r.found,
    )
