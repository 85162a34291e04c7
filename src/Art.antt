-- ===== src/Art.antt =====
-- src/art.c: the adaptive radix tree. A tree is a value; a `ref` that the code writes through is the
-- node that a function returns. An array is a function from indices, so that a write past its end
-- is not lost silently: the invariant of Art/Shape.antt bounds the indices.
-- The byte order is that of the x86 machines the code is built for.
use hetero_indexing.Prelude.{
  ℕ, zero, suc, ◌+◌, ◌-◌, ◌*◌, ◌/◌, ◌%◌, ◌^◌, min, List, [], ◌∷◌, Bool, true, false, not, ◌&&◌,
  Option, none, some, ◌==◌, ltb, leb, if◌then◌else◌, replicate,
}
use hetero_indexing.Common.{Entry, key_len, buf_len, u8}
pub mod Slots
pub mod Tally
pub mod Shape
pub mod Grow
mod Widen
pub mod AddChild
pub mod Replace
mod Tests

pub data Kind : Type 0 where
  node4 node16 node48 node256 : Kind

-- `struct art_node` with the key bytes of the concrete node (art_node256 has none).
pub record Header : Type 0 where
  pub kind : Kind
  pub partial_len : ℕ
  pub num_children : ℕ
  pub partial : ℕ → ℕ
  pub buffer : List Entry
  pub keys : ℕ → ℕ

-- `art_node *`: NULL, a tagged leaf, or an inner node with its child pointers.
pub data Node : Type 0 where
  null : Node
  leaf : Entry → Node
  inner : Header → (ℕ → Node) → Node

abbrev pub is_null : Node → Bool
is_null null = true
is_null (leaf e) = false
is_null (inner h ch) = false

abbrev pub empty_entry : Entry
empty_entry = record { key = 0; value = 0 }

-- `key[i]`.
unfoldable pub key_byte : ℕ → ℕ → ℕ
key_byte key i = key / 2 ^ (8 * i) % 2 ^ 8

module _ {A : Type 0} where
  abbrev pub update : (ℕ → A) → ℕ → A → ℕ → A
  update f i v j = if i == j then v else f j

  -- `memmove(a + i + 1, a + i, n - i)` of an array with `n` cells in use.
  abbrev pub shift_up : (ℕ → A) → ℕ → ℕ → ℕ → A
  shift_up f i n j = if ltb i j && leb j n then f (j - 1) else f j

  -- `memcpy(dst, src, n)`.
  abbrev pub copy : (ℕ → A) → (ℕ → A) → ℕ → ℕ → A
  copy dst src n j = if ltb j n then src j else dst j

-- The first index from `i` on, of `n`, that passes a test.
unfoldable pub find_first : ℕ → ℕ → (ℕ → Bool) → Option ℕ
find_first zero i p = none
find_first (suc n) i p = let rest = find_first n (i + 1) p in if p i then some i else rest

abbrev pub or_default : Option ℕ → ℕ → ℕ
or_default none d = d
or_default (some x) d = x

-- alloc_node.
abbrev pub alloc_node : Kind → Header
alloc_node k = record {
  kind = k;
  partial_len = 0;
  num_children = 0;
  partial = λ _. 0;
  buffer = replicate buf_len empty_entry;
  keys = λ _. 0;
}

abbrev pub no_children : ℕ → Node
no_children _ = null

-- find_child: the index of the child pointer under a key byte. The SIMD comparison of a node16
-- with its mask and the count of trailing zeros give the first matching lane in use.
unfoldable pub find_child : Header → (ℕ → Node) → ℕ → Option ℕ
find_child h ch c = elim h.kind [
  | node4 ↦ find_first h.num_children 0 (λ i. h.keys i == c)
  | node16 ↦ find_first 16 0 (λ i. h.keys i == c && ltb i h.num_children)
  | node48 ↦ if h.keys c == 0 then none else some (h.keys c - 1)
  | node256 ↦ if is_null (ch c) then none else some c
]

-- copy_header.
abbrev pub copy_header : Header → Header → Header
copy_header dest src = record dest {
  num_children = src.num_children;
  partial_len = src.partial_len;
  buffer = src.buffer;
  partial = copy dest.partial src.partial (min key_len src.partial_len);
}

-- A node under construction: its header and its children.
abbrev pub Body : Type 0
Body = Header × (ℕ → Node)

-- add_child256.
unfoldable pub add_child256 : Header → (ℕ → Node) → ℕ → Node → Body
add_child256 h ch c x = (record h { num_children = u8 (h.num_children + 1) }, update ch c x)

-- add_child48. The search for a free slot stays inside the 48 when one is free.
unfoldable pub add_child48 : Header → (ℕ → Node) → ℕ → Node → Body
unfolding add_child256
add_child48 h ch c x =
    let pos = or_default (find_first 48 0 (λ i. is_null (ch i))) 48 in
    if ltb h.num_children 48
    then (
      record h { keys = update h.keys c (pos + 1); num_children = h.num_children + 1 },
      update ch pos x,
    )
    else add_child256 (copy_header (alloc_node node256) h)
        (λ i. if ltb i 256 && not (h.keys i == 0) then ch (h.keys i - 1) else null) c x

-- The loop that fills the key map of a new node48.
unfoldable pub index_keys : ℕ → ℕ → (ℕ → ℕ) → (ℕ → ℕ) → ℕ → ℕ
index_keys zero i keys map = map
index_keys (suc n) i keys map = index_keys n (i + 1) keys (update map (keys i) (i + 1))

-- A byte read as signed, with 128 added: `_mm_cmplt_epi8` compares signed bytes.
abbrev pub signed_order : ℕ → ℕ
signed_order b = (b + 128) % 256

-- add_child16.
unfoldable pub add_child16 : Header → (ℕ → Node) → ℕ → Node → Body
unfolding add_child48 index_keys
add_child16 h ch c x =
    let n = h.num_children in
    let idx =
      or_default (find_first 16 0 (λ i. ltb (signed_order c) (signed_order (h.keys i)) && ltb i n))
        n in
    if ltb n 16
    then (
      record h { keys = update (shift_up h.keys idx n) idx c; num_children = n + 1 },
      update (shift_up ch idx n) idx x,
    )
    else add_child48
        (record (copy_header (alloc_node node48) h) { keys = index_keys n 0 h.keys (λ _. 0) })
        (copy no_children ch n) c x

-- add_child4.
unfoldable pub add_child4 : Header → (ℕ → Node) → ℕ → Node → Body
unfolding add_child16
add_child4 h ch c x =
    let n = h.num_children in
    let idx = or_default (find_first n 0 (λ i. ltb c (h.keys i))) n in
    if ltb n 4
    then (
      record h { keys = update (shift_up h.keys idx n) idx c; num_children = n + 1 },
      update (shift_up ch idx n) idx x,
    )
    else add_child16 (record (copy_header (alloc_node node16) h) { keys = copy (λ _. 0) h.keys n })
        (copy no_children ch n) c x

-- add_child.
unfoldable pub add_child : Header → (ℕ → Node) → ℕ → Node → Body
unfolding add_child4
add_child h ch c x = elim h.kind [
  | node4 ↦ add_child4 h ch c x
  | node16 ↦ add_child16 h ch c x
  | node48 ↦ add_child48 h ch c x
  | node256 ↦ add_child256 h ch c x
]
