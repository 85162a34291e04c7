-- ===== src/Tree.antt =====
-- src/art.c: search and insertion in the tree. A `ref` that the code writes through is the node
-- that a function returns; the value that a returned pointer reads is part of the result.
use hetero_indexing.Prelude.{
  ℕ, zero, suc, ◌+◌, ◌-◌, ◌≤◌, ◌<◌, ◌*◌, ◌/◌, ◌%◌, ◌^◌, min, max, List, [], ◌∷◌, Bool, true, false,
  not, ◌&&◌, Option, none, some, ◌==◌, ltb, leb, if◌then◌else◌, replicate,
}
use hetero_indexing.Common.{Entry, key_len, buf_len, empty_flag, u64}
use hetero_indexing.Hash.{find, assign}
use hetero_indexing.Art.{
  Kind, node4, node16, node48, node256, Header, Node, Body, null, leaf, inner, is_null, empty_entry,
  key_byte, update, find_first, find_child, or_default, alloc_node, no_children, add_child4,
  add_child,
}
pub mod Shape
pub mod Step
pub mod Wrap
pub mod Search
pub mod Leaf
pub mod Rehead
pub mod Prefix
pub mod Insert
pub mod Buffer
pub mod Plain
pub mod Unbuffered
pub mod Run
mod Tests

-- check_prefix.
unfoldable pub check_prefix : Header → ℕ → ℕ → ℕ
check_prefix h key depth =
    let max_cmp = min (min h.partial_len key_len) (key_len - depth) in
    or_default (find_first max_cmp 0 (λ i. not (h.partial i == key_byte key (depth + i)))) max_cmp

-- The loops of art_search, without the float: the value under a key.
unfoldable pub lookup : Node → ℕ → ℕ → Option ℕ
lookup null key depth = none
lookup (leaf e) key depth = if e.key == key then some e.value else none
lookup (inner h ch) key depth =
    let next = depth + h.partial_len in
    let below : Option ℕ = elim (find_child h ch (key_byte key next)) [
      | none ↦ none
      | some i ↦ lookup (ch i) key (next + 1)
    ] in
    if not (h.partial_len == 0) && not (check_prefix h key depth == min key_len h.partial_len)
    then none
    else (elim (find key h.buffer) [ none ↦ below | some value ↦ some value ])

-- minimum. The searches of a node48 and a node256 stay inside the 256 when there is a child.
unfoldable pub minimum : Node → Option Entry
minimum null = none
minimum (leaf e) = some e
minimum (inner h ch) = elim h.kind [
  | node4 ↦ minimum (ch 0)
  | node16 ↦ minimum (ch 0)
  | node48 ↦ elim (find_first 256 0 (λ i. not (h.keys i == 0))) [
    | none ↦ none
    | some i ↦ minimum (ch (h.keys i - 1))
  ]
  | node256 ↦ elim (find_first 256 0 (λ i. not (is_null (ch i)))) [
    | none ↦ none
    | some i ↦ minimum (ch i)
  ]
]

abbrev pub or_empty : Option Entry → Entry
or_empty none = empty_entry
or_empty (some e) = e

-- longest_common_prefix.
unfoldable pub longest_common_prefix : Entry → Entry → ℕ → ℕ
longest_common_prefix l1 l2 depth =
    or_default
      (find_first (key_len - depth) 0
        (λ i. not (key_byte l1.key (depth + i) == key_byte l2.key (depth + i))))
      (key_len - depth)

-- prefix_mismatch, for a key of `len` bytes.
unfoldable pub prefix_mismatch_within : Header → (ℕ → Node) → ℕ → ℕ → ℕ → ℕ
prefix_mismatch_within h ch key len depth =
    let max_cmp = min (min key_len h.partial_len) (len - depth) in
    let l = or_empty (minimum (inner h ch)) in
    let beyond =
      if ltb key_len h.partial_len
      then or_default
          (find_first (key_len - depth - max_cmp) max_cmp
            (λ i. not (key_byte l.key (i + depth) == key_byte key (depth + i))))
          (max max_cmp (key_len - depth))
      else max_cmp in
    or_default (find_first max_cmp 0 (λ i. not (h.partial i == key_byte key (depth + i)))) beyond

abbrev pub prefix_mismatch : Header → (ℕ → Node) → ℕ → ℕ → ℕ
prefix_mismatch h ch key depth = prefix_mismatch_within h ch key key_len depth

-- What recursive_insert leaves behind: the node, the value that the returned pointer reads (NULL
-- is `none`), and the two flags of `old`.
pub record Inserted : Type 0 where
  pub node : Node
  pub value_read : Option ℕ
  pub found_key : Bool
  pub in_buffer : Bool

abbrev pub added_node : Node → Inserted
added_node n = record { node = n; value_read = none; found_key = false; in_buffer = false }

-- The leaf that is split: a new node4 with both leaves.
unfoldable pub split_leaf : Entry → Entry → ℕ → Node
split_leaf l l2 depth =
    let longest_prefix = longest_common_prefix l l2 depth in
    let new_node : Header = record (alloc_node node4) {
      partial_len = longest_prefix;
      partial = λ i. if ltb i (min key_len longest_prefix) then key_byte l2.key (depth + i) else 0;
    } in
    let one = add_child4 new_node no_children (key_byte l.key (depth + longest_prefix)) (leaf l) in
    let two = add_child4 one.0 one.1 (key_byte l2.key (depth + longest_prefix)) (leaf l2) in
    inner two.0 two.1

-- The node whose prefix is split: a new node4 with its buffer, the old node and the new leaf.
unfoldable pub split_prefix : Header → (ℕ → Node) → Entry → ℕ → ℕ → Node
split_prefix h ch e depth prefix_diff =
    let new_node : Header = record (alloc_node node4) {
      partial_len = prefix_diff;
      partial = λ i. if ltb i (min key_len prefix_diff) then h.partial i else 0;
      buffer = h.buffer;
    } in
    let l = or_empty (minimum (inner h ch)) in
    let rest = h.partial_len - (prefix_diff + 1) in
    let short = leb h.partial_len key_len in
    let old : Header = record h {
      buffer = replicate buf_len empty_entry;
      partial_len = rest;
      partial = λ i.
          if ltb i (min key_len rest)
          then (if short
              then h.partial (i + (prefix_diff + 1))
              else key_byte l.key (depth + prefix_diff + 1 + i))
          else h.partial i;
    } in
    let byte = if short then h.partial prefix_diff else key_byte l.key (depth + prefix_diff) in
    let one = add_child4 new_node no_children byte (inner old ch) in
    let two = add_child4 one.0 one.1 (key_byte e.key (depth + prefix_diff)) (leaf e) in
    inner two.0 two.1

-- The last empty entry of the buffer takes the pair.
unfoldable pub place_last : Entry → List Entry → Option (List Entry)
place_last e [] = none
place_last e (b ∷ bs) = elim (place_last e bs) [
  | some bs' ↦ some (b ∷ bs')
  | none ↦ if b.key == empty_flag then some (e ∷ bs) else none
]

-- The part of recursive_insert on the buffer, for a key of MEM_TYPE; `none` goes on down.
unfoldable pub insert_buffer : Bool → Bool → Header → (ℕ → Node) → Entry → Option Inserted
insert_buffer false replace h ch e = none
insert_buffer true replace h ch e = elim (find e.key h.buffer) [
  | some value ↦
      let buffer = if replace then assign e.key e.value h.buffer else h.buffer in
      some (record {
        node = inner (record h { buffer = buffer }) ch;
        value_read = some (if replace then e.value else value);
        found_key = true;
        in_buffer = false;
      })
  | none ↦ if replace then none else (elim (place_last e h.buffer) [
    | none ↦ none
    | some buffer ↦
        some (record (added_node (inner (record h { buffer = buffer }) ch)) { in_buffer = true })
  ])
]

-- recursive_insert; `mem` is the storage type MEM_TYPE.
unfoldable pub insert : Bool → Bool → Node → Entry → ℕ → Inserted
insert mem replace null e depth = added_node (leaf e)
insert mem replace (leaf l) e depth =
    if l.key == e.key
    then record {
      node = leaf (if replace then record l { value = e.value } else l);
      value_read = some (if replace then e.value else l.value);
      found_key = true;
      in_buffer = false;
    }
    else added_node (split_leaf l e depth)
insert mem replace (inner h ch) e depth =
    let next = depth + h.partial_len in
    let c = key_byte e.key next in
    let prefix_diff = prefix_mismatch h ch e.key depth in
    let below : Inserted = elim (find_child h ch c) [
      | some i ↦
          let r = insert mem replace (ch i) e (next + 1) in
          record r { node = inner h (update ch i r.node) }
      | none ↦ let b = add_child h ch c (leaf e) in added_node (inner b.0 b.1)
    ] in
    elim (insert_buffer mem replace h ch e) [
      | some r ↦ r
      | none ↦
          if not (h.partial_len == 0) && ltb prefix_diff h.partial_len
          then added_node (split_prefix h ch e depth prefix_diff)
          else below
    ]

-- `art_tree`.
pub record ArtTree : Type 0 where
  pub root : Node
  pub size : ℕ
  pub buffer_count : ℕ

-- art_tree_init.
abbrev pub empty_tree : ArtTree
empty_tree = record { root = null; size = 0; buffer_count = 0 }

-- The counts after recursive_insert.
abbrev pub counted : ArtTree → Inserted → ArtTree
counted t r = record {
  root = r.node;
  size = if r.found_key then t.size else u64 (t.size + 1);
  buffer_count = if r.in_buffer then u64 (t.buffer_count + 1) else t.buffer_count;
}

-- art_insert.
pub art_insert : Bool → ArtTree → Entry → ArtTree × Option ℕ
art_insert mem t e = let r = insert mem true t.root e 0 in (counted t r, r.value_read)

-- art_insert_no_replace.
unfoldable pub art_insert_no_replace : Bool → ArtTree → Entry → ArtTree × Option ℕ
art_insert_no_replace mem t e = let r = insert mem false t.root e 0 in (counted t r, r.value_read)
