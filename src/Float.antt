-- ===== src/Float.antt =====
-- src/art.c: art_search and art_update, with art_float, which moves a pair that was found in the
-- buffer of a node towards the root. SDR_FLOAT is 1 in common.h, so a pair in a leaf is not floated.
-- The code floats where it finds the pair, through the addresses of the node and of its parent; here
-- the call for the parent does it, with the same two nodes.
use hetero_indexing.Prelude.{
  ℕ, zero, suc, ◌+◌, ◌-◌, ◌*◌, ◌/◌, ◌^◌, min, List, [], ◌∷◌, Bool, true, false, not, ◌&&◌, ◌||◌,
  Option, none, some, ◌==◌, ltb, leb, if◌then◌else◌, get_or, set, bit_and, bit_or,
}
use hetero_indexing.Common.{
  Entry, key_len, buf_len, empty_flag, occupied_flag, u64, int_ltb, Murmur,
}
use hetero_indexing.Sketch
use hetero_indexing.Sketch.{Sketch}
use hetero_indexing.Hash.{HashSys, insert_nocheck}
use hetero_indexing.Art.{
  Header, Node, null, leaf, inner, empty_entry, key_byte, update, find_first, find_child,
}
use hetero_indexing.Tree.{ArtTree, check_prefix, insert}
use hetero_indexing.System.{IndexSys}
pub mod Pack
pub mod Slots
pub mod Below
pub mod Found
pub mod Move
pub mod Lift
pub mod Root
pub mod Still
pub mod Settled
pub mod Back
pub mod Search
pub mod Value
pub mod Update
pub mod Example
mod Tests

-- An `int`, given as its 32 bits, as the `uint64_t` that it is converted to: it extends its sign.
abbrev pub sign_extend : ℕ → ℕ
sign_extend x = if ltb x (2 ^ 31) then x else x + (2 ^ 64 - 2 ^ 32)

-- `PACK_INFO`, where `freq` is an `int`.
unfoldable pub pack_info : ℕ → ℕ → ℕ → ℕ → ℕ
pack_info freq i depth d_parent =
    bit_or (u64 (bit_or (u64 (bit_or (d_parent * 2 ^ 8) depth * 2 ^ 8)) i * 2 ^ 32))
      (sign_extend freq)

-- What art_float unpacks from its `info`.
pub record Info : Type 0 where
  pub freq : ℕ
  pub slot : ℕ
  pub depth : ℕ
  pub depth_parent : ℕ

unfoldable pub unpack_info : ℕ → Info
unpack_info info = record {
  freq = bit_and info (2 ^ 32 - 1);
  slot = bit_and (info / 2 ^ 32) (2 ^ 8 - 1);
  depth = bit_and (info / 2 ^ 40) (2 ^ 8 - 1);
  depth_parent = bit_and (info / 2 ^ 48) (2 ^ 8 - 1);
}

-- `memcmp(a + from, b + from, n) == 0` on the bytes of two keys.
abbrev pub same_bytes_from : ℕ → ℕ → ℕ → ℕ → Bool
same_bytes_from a b from n =
    elim (find_first n 0 (λ i. not (key_byte a (from + i) == key_byte b (from + i)))) [
      | none ↦ true
      | some _ ↦ false
    ]

-- The slot of the parent's buffer that art_float picks: an empty one, or one with a pair to replace.
pub data Choice : Type 0 where
  empty_slot : ℕ → Choice
  lru_slot : ℕ → Choice
  no_slot : Choice

abbrev pub zero_key : Entry → Entry
zero_key e = record e { key = empty_flag }

abbrev pub value_to_store : Option ℕ → ℕ → ℕ
value_to_store none old = old
value_to_store (some new) old = new

-- What art_float leaves: the parent, the change of the buffer count, and whether it moved the pair.
pub record Floated : Type 0 where
  pub node : Node
  pub delta : ℕ
  pub done : Bool

-- What the search leaves of a subtree: the node, the value that was found, the change of the
-- buffer count, and the slot and the depth of a pair that is still to be floated.
pub record Sought : Type 0 where
  pub node : Node
  pub value : Option ℕ
  pub in_leaf : Bool
  pub delta : ℕ
  pub pending : Option (ℕ × ℕ)

abbrev missed : Node → Sought
missed n = record { node = n; value = none; in_leaf = false; delta = 0; pending = none }

-- The store of art_update where the pair was not floated.
abbrev pub store_at : Option ℕ → ℕ → Header → Header
store_at none i h = h
store_at (some new) i h = record h {
  buffer = set h.buffer i (record (get_or h.buffer i empty_entry) { value = new });
}

module _ (m : Murmur) where
  -- The loop of art_float over the buffer of the parent, from slot `j` on.
  unfoldable pub choose : Sketch → ℕ → Info → ℕ → List Entry → Choice
  choose cm key info j [] = no_slot
  choose cm key info j (e ∷ es) =
      let rest = choose cm key info (j + 1) es in
      let f = Sketch.countmin_amplify (Sketch.count m cm e.key none) in
      let near = same_bytes_from key e.key info.depth_parent (info.depth - info.depth_parent) in
      if e.key == empty_flag
      then empty_slot j
      else (if e.key == occupied_flag
          then rest
          else (if int_ltb f info.freq || (info.freq == f && near) then lru_slot j else rest))

  -- art_float to the parent `(h, ch)`, from the buffer of its child `(g, below)` at index `i`.
  unfoldable pub float_unpacked :
      Sketch → ℕ → Info → Option ℕ → Header → (ℕ → Node) → ℕ → Header → (ℕ → Node) → Floated
  float_unpacked cm key info new h ch i g below =
      let own = get_or g.buffer info.slot empty_entry in
      let e : Entry = record { key = key; value = value_to_store new own.value } in
      let emptied = inner (record g { buffer = set g.buffer info.slot (zero_key own) }) below in
      let put =
        λ (j : ℕ) (n : Node). inner (record h { buffer = set h.buffer j e }) (update ch i n) in
      elim (if info.freq == 0 then no_slot else choose cm key info 0 h.buffer) [
        | empty_slot j ↦ record { node = put j emptied; delta = 0; done = true }
        | lru_slot j ↦
            let lru = get_or h.buffer j empty_entry in
            let again = insert true false (put j emptied) lru info.depth_parent in
            let swapped = inner (record g { buffer = set g.buffer info.slot lru }) below in
            if same_bytes_from key lru.key info.depth_parent (info.depth - info.depth_parent)
            then record { node = put j swapped; delta = 0; done = true }
            else record {
              node = again.node;
              delta = (if again.in_buffer then 1 else 0) + (2 ^ 64 - 1);
              done = true;
            }
        | no_slot ↦ record { node = inner h (update ch i (inner g below)); delta = 0; done = false }
      ]

  unfoldable pub float_parent :
      Sketch → ℕ → ℕ → Option ℕ → Header → (ℕ → Node) → ℕ → Header → (ℕ → Node) → Floated
  float_parent cm key packed new h ch i g below =
      float_unpacked cm key (unpack_info packed) new h ch i g below

  -- art_float from the root `(g, below)` to the table.
  unfoldable pub float_root :
      HashSys → ℕ → ℕ → Option ℕ → Header → (ℕ → Node) → HashSys × Node × Bool
  float_root t key packed new g below =
      let info = unpack_info packed in
      let own = get_or g.buffer info.slot empty_entry in
      let r = insert_nocheck m t key (value_to_store new own.value) in
      let emptied = inner (record g { buffer = set g.buffer info.slot (zero_key own) }) below in
      if r.1 then (r.0, emptied, true) else (t, inner g below, false)

  -- The step of the search from a node to the child at index `i` and back.
  unfoldable pub come_back :
      Sketch → ℕ → ℕ → Option ℕ → Header → (ℕ → Node) → ℕ → ℕ → Sought → Sought
  come_back cm key freq new h ch i next r =
      let stay : Sought = record r { node = inner h (update ch i r.node); pending = none } in
      elim r.pending [
        | none ↦ stay
        | some (slot, depth) ↦ elim r.node [
          | null ↦ stay
          | leaf e ↦ stay
          | inner g below ↦
              let f = float_parent cm key (pack_info freq slot depth next) new h ch i g below in
              let kept = inner h (update ch i (inner (store_at new slot g) below)) in
              record {
                node = if f.done then f.node else kept;
                value = r.value;
                in_leaf = false;
                delta = f.delta;
                pending = none;
              }
        ]
      ]

  -- The loop of art_search, and with a value to store that of art_update.
  unfoldable pub seek : Sketch → ℕ → ℕ → Option ℕ → Node → ℕ → Sought
  seek cm key freq new null depth = missed null
  seek cm key freq new (leaf e) depth =
      if e.key == key
      then record {
        node = leaf (record e { value = value_to_store new e.value });
        value = some e.value;
        in_leaf = true;
        delta = 0;
        pending = none;
      }
      else missed (leaf e)
  seek cm key freq new (inner h ch) depth =
      let next = depth + h.partial_len in
      let below : Sought = elim (find_child h ch (key_byte key next)) [
        | none ↦ missed (inner h ch)
        | some i ↦ come_back cm key freq new h ch i next (seek cm key freq new (ch i) (next + 1))
      ] in
      if not (h.partial_len == 0) && not (check_prefix h key depth == min key_len h.partial_len)
      then missed (inner h ch)
      else (elim (find_first buf_len 0 (λ i. (get_or h.buffer i empty_entry).key == key)) [
        | none ↦ below
        | some i ↦ record {
          node = inner h ch;
          value = some (get_or h.buffer i empty_entry).value;
          in_leaf = false;
          delta = 0;
          pending = some (i, next);
        }
      ])

  -- The end of the search at the root.
  unfoldable pub from_root : IndexSys → ℕ → ℕ → Option ℕ → Sought → IndexSys
  from_root s key freq new r =
      let tree : ArtTree = record s.tree {
        root = r.node;
        buffer_count = u64 (s.tree.buffer_count + r.delta);
      } in
      let stay : IndexSys = record s { tree = tree } in
      elim r.pending [
        | none ↦ stay
        | some (slot, depth) ↦ elim r.node [
          | null ↦ stay
          | leaf e ↦ stay
          | inner g below ↦
              let (hash, node, done) =
                float_root s.hash key (pack_info freq slot depth 0) new g below in
              if done
              then record s {
                hash = hash;
                tree = record {
                  root = node;
                  size = u64 (s.tree.size + 2 ^ 64 - 1);
                  buffer_count = u64 (s.tree.buffer_count + 2 ^ 64 - 1);
                };
              }
              else record s { tree = record tree { root = inner (store_at new slot g) below } }
        ]
      ]

  -- art_search: the value, if the key is there.
  unfoldable pub art_search : IndexSys → ℕ → ℕ → IndexSys × Option ℕ
  art_search s key freq =
      let r = seek s.cm key freq none s.tree.root 0 in (from_root s key freq none r, r.value)

  -- art_update: whether the result is not NULL. For a pair in a leaf the result is the old value
  -- itself, taken for an address.
  unfoldable pub art_update : IndexSys → ℕ → ℕ → ℕ → IndexSys × Bool
  art_update s key freq value =
      let r = seek s.cm key freq (some value) s.tree.root 0 in
      let address : Bool = elim r.value [ none ↦ false | some old ↦ not (r.in_leaf && old == 0) ] in
      (from_root s key freq (some value) r, address)
