-- ===== src/Iter.antt =====
-- src/art.c: the walks over the tree: maximum, the iteration with a callback, over the whole tree or
-- the keys with a prefix, and the destruction. A callback takes its data and a leaf and gives its
-- data and a status; freed memory is a list in the order of the calls of free.
use hetero_indexing.Prelude.{
  ℕ, zero, suc, ◌+◌, ◌-◌, ◌≤◌, ◌<◌, min, List, [], ◌∷◌, ◌++◌, Bool, true, false, not, ◌&&◌, Option,
  none, some, ◌==◌, ltb, leb, if◌then◌else◌,
}
use hetero_indexing.Common.{Entry, key_len}
use hetero_indexing.Art.{
  Kind, node4, node16, node48, node256, Header, Node, null, leaf, inner, is_null, key_byte,
  find_first, find_child, or_default,
}
use hetero_indexing.Tree.{ArtTree, minimum, prefix_mismatch_within, or_empty}
pub mod Order
mod Tests

-- maximum. The searches of a node48 and a node256 run down from byte 255.
unfoldable pub maximum : Node → Option Entry
maximum null = none
maximum (leaf e) = some e
maximum (inner h ch) = elim h.kind [
  | node4 ↦ maximum (ch (h.num_children - 1))
  | node16 ↦ maximum (ch (h.num_children - 1))
  | node48 ↦ elim (find_first 256 0 (λ i. not (h.keys (255 - i) == 0))) [
    | none ↦ none
    | some i ↦ maximum (ch (h.keys (255 - i) - 1))
  ]
  | node256 ↦ elim (find_first 256 0 (λ i. not (is_null (ch (255 - i))))) [
    | none ↦ none
    | some i ↦ maximum (ch (255 - i))
  ]
]

-- art_minimum and art_maximum.
abbrev pub art_minimum : ArtTree → Option Entry
art_minimum t = minimum t.root

abbrev pub art_maximum : ArtTree → Option Entry
art_maximum t = maximum t.root

module _ {S : Type 0} where
  -- A loop over the indices from `i` on that a status other than 0 leaves.
  unfoldable pub visit : ℕ → ℕ → (ℕ → S → S × ℕ) → S → S × ℕ
  visit zero i f s = (s, 0)
  visit (suc n) i f s =
      let r = f i s in let rest = visit n (i + 1) f r.0 in if r.1 == 0 then rest else r

  -- recursive_iter. The buffers are not visited.
  unfoldable pub recursive_iter : (S → Entry → S × ℕ) → Node → S → S × ℕ
  recursive_iter cb null s = (s, 0)
  recursive_iter cb (leaf e) s = cb s e
  recursive_iter cb (inner h ch) s =
      let child = λ (i : ℕ). recursive_iter cb (ch i) in
      elim h.kind [
        | node4 ↦ visit h.num_children 0 child s
        | node16 ↦ visit h.num_children 0 child s
        | node48 ↦ visit 256 0 (λ i t. if h.keys i == 0 then (t, 0) else child (h.keys i - 1) t) s
        | node256 ↦ visit 256 0 (λ i t. if is_null (ch i) then (t, 0) else child i t) s
      ]

  -- art_iter.
  unfoldable pub art_iter : ArtTree → (S → Entry → S × ℕ) → S → S × ℕ
  art_iter t cb s = recursive_iter cb t.root s

-- leaf_prefix_matches: the status 0 is `true`.
unfoldable pub leaf_prefix_matches : Entry → ℕ → ℕ → Bool
leaf_prefix_matches l prefix prefix_len =
    leb prefix_len key_len
    && (elim (find_first prefix_len 0 (λ i. not (key_byte l.key i == key_byte prefix i))) [
      | none ↦ true
      | some _ ↦ false
    ])

module _ {S : Type 0} (cb : S → Entry → S × ℕ) (key len : ℕ) where
  -- The loop of art_iter_prefix; the prefix is the first `len` bytes of `key`. An inner node
  -- without a leaf, which the code would read through, has no match.
  unfoldable pub iter_prefix : Node → ℕ → S → S × ℕ
  iter_prefix null depth s = (s, 0)
  iter_prefix (leaf e) depth s = if leaf_prefix_matches e key len then cb s e else (s, 0)
  iter_prefix (inner h ch) depth s =
      let n = inner h ch in
      let prefix_len = min (prefix_mismatch_within h ch key len depth) h.partial_len in
      let next = depth + h.partial_len in
      let below : S × ℕ = elim (find_child h ch (key_byte key next)) [
        | none ↦ (s, 0)
        | some i ↦ iter_prefix (ch i) (next + 1) s
      ] in
      if depth == len
      then (elim (minimum n) [
        | none ↦ (s, 0)
        | some l ↦ if leaf_prefix_matches l key len then recursive_iter cb n s else (s, 0)
      ])
      else (if h.partial_len == 0
          then below
          else (if prefix_len == 0
              then (s, 0)
              else (if depth + prefix_len == len then recursive_iter cb n s else below)))

  -- art_iter_prefix.
  unfoldable pub art_iter_prefix : ArtTree → S → S × ℕ
  art_iter_prefix t s = iter_prefix t.root 0 s

-- A block that destroy_node gives to free.
pub data Freed : Type 0 where
  freed_leaf : Entry → Freed
  freed_node : Kind → Freed

-- A loop over the indices from `i` on that frees what each gives.
unfoldable pub each : ℕ → ℕ → (ℕ → List Freed) → List Freed
each zero i f = []
each (suc n) i f = f i ++ each n (i + 1) f

-- destroy_node.
unfoldable pub destroy_node : Node → List Freed
destroy_node null = []
destroy_node (leaf e) = freed_leaf e ∷ []
destroy_node (inner h ch) =
    let children : List Freed = elim h.kind [
      | node4 ↦ each h.num_children 0 (λ i. destroy_node (ch i))
      | node16 ↦ each h.num_children 0 (λ i. destroy_node (ch i))
      | node48 ↦ each 256 0 (λ i. if h.keys i == 0 then [] else destroy_node (ch (h.keys i - 1)))
      | node256 ↦ each 256 0 (λ i. if is_null (ch i) then [] else destroy_node (ch i))
    ] in
    children ++ freed_node h.kind ∷ []

-- art_tree_destroy.
unfoldable pub art_tree_destroy : ArtTree → List Freed
art_tree_destroy t = destroy_node t.root
