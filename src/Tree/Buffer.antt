-- ===== src/Tree/Buffer.antt =====
-- recursive_insert of a key of MEM_TYPE, which goes into the buffer of the first node with room.
use hetero_indexing.Prelude.{
  length, ℕ, ◌+◌, ◌<◌, ◌^◌, ◌≡◌, ◌≢◌, refl, ap, ◌∙◌, true, false, none, some, arith, ◌==◌,
  if◌then◌else◌, Option-cases, inl, inr, List, [], ◌∷◌,
}
use mathlib.Core.Path.{subst}
use native.Mathlib.Decide.{ℕ_discrete}
use hetero_indexing.Common.{Entry, key_len}
use hetero_indexing.Hash.{find}
use hetero_indexing.Art.{Header, Node, inner, key_byte, find_child}
use hetero_indexing.Art.Shape.{child_at}
use hetero_indexing.Tree.{added_node, lookup, insert, insert_buffer, place_last}
use hetero_indexing.Tree.Rehead.{rebuffered, rebuffered-IsNode}
use hetero_indexing.Tree.Shape.{Agrees, extend, IsTree, mismatch, seen, lookup_inner}
use hetero_indexing.Tree.Step.{Stores, Agrees-extend}

find-place_last :
    (e : Entry) (k : ℕ) (bs bs' : List Entry)
    → k ≢ 0
    → find e.key bs ≡ none
    → place_last e bs ≡ some bs'
    → find k bs' ≡ (if e.key == k then some e.value else find k bs)
unfolding find place_last
find-place_last e k [] bs' n f p = ground (arith, p)
find-place_last e k (b ∷ bs) bs' n f p = elim (Option-cases (place_last e bs)) [
  | inl q ↦ ground (arith, p, q, f, n)
  | inr (bs'', q) ↦ ground (arith, p, q, f, n, find-place_last e k bs bs'' n)
]

module _ (h : Header) (ch : ℕ → Node) (e : Entry) (d : ℕ) (bs : List Entry)
    (new : find e.key h.buffer ≡ none) (room : place_last e h.buffer ≡ some bs) where
  buffer_step :
      insert_buffer true false h ch e
      ≡ some (record (added_node (inner (rebuffered h bs) ch)) { in_buffer = true })
  unfolding insert_buffer
  buffer_step = ground (arith, new, room)

  buffered_insert :
      insert true false (inner h ch) e d
      ≡ record (added_node (inner (rebuffered h bs) ch)) { in_buffer = true }
  unfolding insert
  buffered_insert = rw (insert, buffer_step) refl

  lookup-rebuffered :
      (k : ℕ)
      → d + h.partial_len < key_len
      → k ≢ 0
      → lookup (inner (rebuffered h bs) ch) k d
        ≡ seen
            (mismatch h k d)
            (if e.key == k then some e.value else find k h.buffer)
            (lookup (child_at h ch (key_byte k (d + h.partial_len))) k (d + h.partial_len + 1))
  unfolding find_child
  lookup-rebuffered k l n =
      lookup_inner (rebuffered h bs) ch k d l
      ∙ ap
          (λ f.
            seen (mismatch h k d) f
              (lookup (child_at h ch (key_byte k (d + h.partial_len))) k (d + h.partial_len + 1)))
          (find-place_last e k h.buffer bs n new room)

  -- A new key of MEM_TYPE that reaches a node with a free entry in the buffer and that differs from
  -- the prefix of the node goes into the buffer all the same, and a search does not find it.
  pub hidden_lem :
      (i : ℕ)
      → d + h.partial_len < key_len
      → e.key ≢ 0
      → mismatch h e.key d ≡ some i
      → let r = insert true false (inner h ch) e d in
        (r.in_buffer ≡ true) × (lookup r.node e.key d ≡ none)
  hidden_lem i l n m = rw buffered_insert (refl, lookup-rebuffered e.key l n ∙ rw m refl)

length-place_last :
    (e : Entry) (bs bs' : List Entry) → place_last e bs ≡ some bs' → length bs' ≡ length bs
unfolding place_last
length-place_last e [] bs' p = ground (arith, p)
length-place_last e (b ∷ bs) bs' p = elim (Option-cases (place_last e bs)) [
  | inl q ↦ ground (arith, p, q)
  | inr (bs'', q) ↦ ground (arith, p, q, length-place_last e bs bs'' q)
]

same_child :
    (h : Header) (ch : ℕ → Node) (bs : List Entry) (c : ℕ)
    → find_child h ch c ≡ find_child (rebuffered h bs) ch c
unfolding find_child
same_child h ch bs c = refl

over_seen :
    (h : Header) (ch : ℕ → Node) (e : Entry) (d k : ℕ)
    → mismatch h e.key d ≡ none
    → let s = lookup (child_at h ch (key_byte k (d + h.partial_len))) k (d + h.partial_len + 1) in
      seen (mismatch h k d) (if e.key == k then some e.value else find k h.buffer) s
      ≡ (if e.key == k then some e.value else seen (mismatch h k d) (find k h.buffer) s)
over_seen h ch e d k m = elim (ℕ_discrete e.key k) [
  | yes p ↦
      let own : mismatch h k d ≡ none = subst (λ z. mismatch h z d ≡ none) p m in
      let test : (e.key == k) ≡ true = ground (arith, p) in rw (own, test) refl
  | no p ↦ let test : (e.key == k) ≡ false = ground (arith, p) in rw test refl
]

stays_Buffered :
    (h : Header) (ch : ℕ → Node) (e : Entry) (d : ℕ) (path : ℕ → ℕ) (bs : List Entry)
    → IsTree (inner h ch) d path
    → Agrees d path e.key
    → mismatch h e.key d ≡ none
    → find e.key h.buffer ≡ none
    → place_last e h.buffer ≡ some bs
    → (k : ℕ) → k ≢ 0
    → find k bs ≢ none
    → Agrees (d + h.partial_len) (extend path d h 0) k
stays_Buffered h ch e d path bs v a m new room k z f = elim (ℕ_discrete e.key k) [
  | yes p ↦
      subst (Agrees (d + h.partial_len) (extend path d h 0)) p
        (λ i l. Agrees-extend h e.key d path a m i (omega arith) ∙ ground (arith, l))
  | no p ↦
      let test : (e.key == k) ≡ false = ground (arith, p) in
      v.3 k z (λ q. f (find-place_last e k h.buffer bs z new room ∙ rw test q))
]

-- A new key of MEM_TYPE that reaches a node of a well-formed tree with a free entry in the buffer
-- and that matches the prefix of the node goes into the buffer: the tree stays well-formed, the key
-- has its value and every other key what it had.
pub buffered_lem :
    (h : Header) (ch : ℕ → Node) (e : Entry) (d : ℕ) (path : ℕ → ℕ) (bs : List Entry)
    → IsTree (inner h ch) d path
    → e.key ≢ 0
    → e.key < 2 ^ 64
    → Agrees d path e.key
    → mismatch h e.key d ≡ none
    → find e.key h.buffer ≡ none
    → place_last e h.buffer ≡ some bs
    → let r = insert true false (inner h ch) e d in
      Stores e d path (inner h ch) r.node × (r.in_buffer ≡ true)
buffered_lem h ch e d path bs v n w a m new room = rw (buffered_insert h ch e d bs new room) (
  (
    (
      rebuffered-IsNode h ch bs v.0,
      v.1,
      v.2,
      λ k z f. stays_Buffered h ch e d path bs v a m new room k z f,
      λ c i l f. v.4 c i l (same_child h ch bs c ∙ f),
      length-place_last e h.buffer bs room ∙ v.5,
    ),
    refl,
    λ k z _.
        lookup-rebuffered h ch e d bs new room k v.1 z
        ∙ over_seen h ch e d k m
        ∙ rw⁻¹ (lookup_inner h ch k d v.1) refl,
  ),
  refl,
)
