-- ===== src/Delete/Child.antt =====
-- remove_child on the nodes that do not fold: a node16, with its shrinking to a node4, and the
-- larger ones.
use hetero_indexing.Prelude.{
  ℕ, ◌<◌, ◌≡◌, ◌≢◌, refl, sym, ap, ◌∙◌, false, some, arith, ◌==◌, if◌then◌else◌, Option-cases,
  Bool-cases, inl, inr, min, lt→ltb,
}
use hetero_indexing.Common.{key_len}
use hetero_indexing.Art.{
  Kind, node4, node16, node48, node256, Header, Node, null, is_null, find_child, alloc_node,
  no_children, copy, copy_header,
}
use hetero_indexing.Art.Slots.{slot, slot_keys, child_in}
use hetero_indexing.Art.Shape.{
  to_IsNode, of_IsNode, IsArray, IsNode, find_child-node4, find_child-node16, find_child-node48,
  find_child-node256,
}
use hetero_indexing.Art.AddChild.{Kind-cases, slot-ext}
use hetero_indexing.Delete.{
  remove_child, remove_child4, remove_child16, remove_child48, remove_child256, close_gap,
  shift_down, Removed,
}
use hetero_indexing.Delete.Gap.{gap-IsArray, gap_reads}
use hetero_indexing.Delete.Pack48.{Takes, remove_child256_lem}
use hetero_indexing.Delete.Pack16.{remove_child48_lem}

-- A node16 with three children as a node4.
module _ (h : Header) (ch : ℕ → Node) (v : IsArray 16 h ch) (three : h.num_children ≡ 3) where
  abbrev narrow : Header
  narrow = record (copy_header (alloc_node node4) h) { keys = copy (λ _. 0) h.keys 4 }

  abbrev narrow_children : ℕ → Node
  narrow_children = copy no_children ch 4

  narrow-IsArray : IsArray 4 narrow narrow_children
  narrow-IsArray = record {
    fits = omega (arith, three);
    distinct = λ i j l m e. v.distinct i j l m (ground (arith, three, l, m, e));
    bytes = λ i l. ground (arith, three, v.bytes i);
    filled = λ i l. ground (arith, three, v.filled i);
  }

  narrow_reads :
      (b : ℕ)
      → child_in (slot h.num_children narrow.keys b) narrow_children
        ≡ child_in (slot h.num_children h.keys b) ch
  narrow_reads b =
      let same = slot-ext h.num_children narrow.keys h.keys b (λ i l. ground (arith, three, l)) in
      rw same (elim (Option-cases (slot h.num_children h.keys b)) [
        | inl e ↦ rw e refl
        | inr (j, e) ↦ rw e (ground (arith, three, slot_keys h.num_children h.keys b j e))
      ])

remove_child16_lem :
    (h : Header) (ch : ℕ → Node) (c pos : ℕ)
    → h.kind ≡ node16
    → IsArray 16 h ch
    → slot h.num_children h.keys c ≡ some pos
    → Takes h ch c (remove_child16 h ch pos)
unfolding remove_child16
remove_child16_lem h ch c pos k v at =
    let h' = close_gap h pos in
    let ch' = shift_down ch pos h.num_children in
    let v' = gap-IsArray 16 (omega arith) h ch pos c v at in
    let reads = gap_reads 16 (omega arith) h ch pos c v at in
    elim (Bool-cases (h'.num_children == 3)) [
      | inr q ↦ rw q (
        (h', ch'),
        refl,
        record {
          node = to_IsNode node16 h' ch' k v';
          at = λ b m. rw (find_child-node16 h' ch' b k v', find_child-node16 h ch b k v) (reads b);
          len = refl;
          prefix = λ i m. refl;
          buffer = refl;
        },
      )
      | inl q ↦
          let three : h'.num_children ≡ 3 = ground (arith, q) in
          let g = narrow h' ch' v' three in
          let cg = narrow_children h' ch' v' three in
          rw q (
            (g, cg),
            refl,
            record {
              node = narrow-IsArray h' ch' v' three;
              at = λ b m.
                  ap (λ o. child_in o cg) (find_child-node4 g cg b refl)
                  ∙ narrow_reads h' ch' v' three b
                  ∙ reads b
                  ∙ ap (λ o. if b == c then null else child_in o ch)
                      (sym (find_child-node16 h ch b k v));
              len = refl;
              prefix = λ i m. rw (lt→ltb i (min key_len h.partial_len) m) refl;
              buffer = refl;
            },
          )
    ]

module _ (h : Header) (ch : ℕ → Node) (c pos depth : ℕ) where
  abbrev pub remove_child_as : Kind → Removed
  remove_child_as k = elim k [
    | node4 ↦ remove_child4 h ch pos depth
    | node16 ↦ remove_child16 h ch pos
    | node48 ↦ remove_child48 h ch c
    | node256 ↦ remove_child256 h ch c
  ]

  pub remove_child-kind :
      (k : Kind) → h.kind ≡ k → remove_child h ch c pos depth ≡ remove_child_as k
  unfolding remove_child
  remove_child-kind k e = ap remove_child_as e

-- remove_child on a well-formed node16, node48 or node256 takes the child under its byte away and
-- leaves a well-formed node, which may have shrunk, with every other child, the prefix and the buffer as before.
pub remove_child_lem :
    (h : Header) (ch : ℕ → Node) (c pos depth : ℕ)
    → IsNode h ch
    → h.kind ≢ node4
    → c < 256
    → find_child h ch c ≡ some pos
    → Takes h ch c (remove_child h ch c pos depth)
remove_child_lem h ch c pos depth v large l found = elim (Kind-cases h.kind) [
  | inl e ↦ absurd (large e)
  | inr (inl e) ↦
      let w = of_IsNode node16 h ch e v in
      rw (remove_child-kind h ch c pos depth node16 e)
        (remove_child16_lem h ch c pos e w (sym (find_child-node16 h ch c e w) ∙ found))
  | inr (inr (inl e)) ↦
      let used : h.keys c ≢ 0 = ground (arith, sym (find_child-node48 h ch c e) ∙ found) in
      rw (remove_child-kind h ch c pos depth node48 e)
        (remove_child48_lem h ch c e (of_IsNode node48 h ch e v) l used)
  | inr (inr (inr e)) ↦
      let there : is_null (ch c) ≡ false =
        ground (arith, sym (find_child-node256 h ch c e) ∙ found) in
      rw (remove_child-kind h ch c pos depth node256 e)
        (remove_child256_lem h ch c e (of_IsNode node256 h ch e v) l there)
]
