-- ===== src/Art/AddChild.antt =====
-- add_child on a node4, with its growth to a node16, and on every kind of node.
use hetero_indexing.Prelude.{
  ℕ, zero, suc, ◌+◌, ◌≤◌, ◌<◌, ◌≡◌, ◌⊎◌, refl, sym, ap, ◌∙◌, Bool, true, false, none, arith, ◌==◌,
  ltb, min, Option-cases, Bool-cases, ltb→lt, lt→ltb, inl, inr,
}
use hetero_indexing.Common.{key_len}
use hetero_indexing.Art.{
  Kind, node4, node16, node48, node256, Header, Node, Body, is_null, find_first, find_child, copy,
  alloc_node, copy_header, no_children, or_default, add_child, add_child4, add_child16, add_child48,
  add_child256,
}
use hetero_indexing.Art.Slots.{slot, child_in, slot_keys}
use hetero_indexing.Art.Shape.{
  to_IsNode, of_IsNode, IsArray, IsNode, Added, find_child-node4, find_child-node16,
  find_child-node256,
}
use hetero_indexing.Art.Grow.{add_child256_lem, add_child48_lem, Added-trans}
use hetero_indexing.Art.Widen.{
  taken, taken_children, taken-IsArray, taken_reads, first_below, add_child16_lem,
}

pub Kind-cases : (k : Kind) → (k ≡ node4) ⊎ (k ≡ node16) ⊎ (k ≡ node48) ⊎ (k ≡ node256)
Kind-cases node4 = inl refl
Kind-cases node16 = inr (inl refl)
Kind-cases node48 = inr (inr (inl refl))
Kind-cases node256 = inr (inr (inr refl))

pub find_first-ext :
    (n i : ℕ) (p q : ℕ → Bool)
    → ((j : ℕ) → i ≤ j → j < i + n → p j ≡ q j)
    → find_first n i p ≡ find_first n i q
unfolding find_first
find_first-ext zero i p q h = refl
find_first-ext (suc n) i p q h = rw (
  h i (omega arith) (omega arith),
  find_first-ext n (i + 1) p q (λ j l m. h j (omega arith) (omega arith)),
)

-- Keys that agree in the cells in use have the same slots.
pub slot-ext :
    (n : ℕ) (f g : ℕ → ℕ) (b : ℕ) → ((i : ℕ) → i < n → f i ≡ g i) → slot n f b ≡ slot n g b
slot-ext n f g b h =
    find_first-ext n 0 (λ i. f i == b) (λ i. g i == b) (λ i _ l. rw (h i (omega arith)) refl)

-- A full node4 as a node16.
module _ (h : Header) (ch : ℕ → Node) (v : IsArray 4 h ch) where
  abbrev copied : Header
  copied = record (copy_header (alloc_node node16) h) { keys = copy (λ _. 0) h.keys h.num_children }

  abbrev copied_children : ℕ → Node
  copied_children = copy no_children ch h.num_children

  copied-IsArray : IsArray 16 copied copied_children
  copied-IsArray = record {
    fits = omega (arith, v.fits);
    distinct = λ i j l m e. v.distinct i j l m (ground (arith, l, m, e));
    bytes = λ i l. ground (arith, v.bytes i);
    filled = λ i l. ground (arith, v.filled i);
  }

  copied_slot : (b : ℕ) → slot h.num_children copied.keys b ≡ slot h.num_children h.keys b
  copied_slot b = slot-ext h.num_children copied.keys h.keys b (λ i l. ground (arith, l))

  copied_reads :
      (b : ℕ)
      → child_in (slot h.num_children copied.keys b) copied_children
        ≡ child_in (slot h.num_children h.keys b) ch
  copied_reads b = rw (copied_slot b) (elim (Option-cases (slot h.num_children h.keys b)) [
    | inl e ↦ rw e refl
    | inr (j, e) ↦ rw e (ground (arith, slot_keys h.num_children h.keys b j e))
  ])

pub add_child4_lem :
    (h : Header) (ch : ℕ → Node) (c : ℕ) (x : Node)
    → h.kind ≡ node4
    → IsArray 4 h ch
    → c < 256
    → is_null x ≡ false
    → find_child h ch c ≡ none
    → Added h ch c x (add_child4 h ch c x)
unfolding add_child4
add_child4_lem h ch c x k v l p new =
    let n = h.num_children in
    let test = λ (i : ℕ). ltb c (h.keys i) in
    let idx = or_default (find_first n 0 test) n in
    let below : idx ≤ n = first_below n test in
    let free : slot n h.keys c ≡ none = sym (find_child-node4 h ch c k) ∙ new in
    elim (Bool-cases (ltb n 4)) [
      | inl q ↦
          let room = ltb→lt n 4 q in
          let h' = taken 4 h ch c idx x v room l p below free in
          let ch' = taken_children 4 h ch c idx x v room l p below free in
          let v' = taken-IsArray 4 h ch c idx x v room l p below free in
          rw q (record {
            node = to_IsNode node4 h' ch' k v';
            at = λ b m.
                rw (find_child-node4 h' ch' b k, find_child-node4 h ch b k)
                  (taken_reads 4 h ch c idx x v room l p below free b);
            len = refl;
            prefix = λ i l. refl;
            buffer = refl;
          })
      | inr q ↦
          let g = copied h ch v in
          let cg = copied_children h ch v in
          let v' = copied-IsArray h ch v in
          rw q (
            Added-trans h g ch cg c x (add_child16 g cg c x)
              (λ b m.
                rw (find_child-node16 g cg b refl v', find_child-node4 h ch b k)
                  (copied_reads h ch v b))
              refl (λ i m. rw (lt→ltb i (min key_len h.partial_len) m)) refl
              (add_child16_lem g cg c x refl v' l p
                (find_child-node16 g cg c refl v' ∙ copied_slot h ch v c ∙ free)))
    ]

module _ (h : Header) (ch : ℕ → Node) (c : ℕ) (x : Node) where
  abbrev add_child_as : Kind → Body
  add_child_as k = elim k [
    | node4 ↦ add_child4 h ch c x
    | node16 ↦ add_child16 h ch c x
    | node48 ↦ add_child48 h ch c x
    | node256 ↦ add_child256 h ch c x
  ]

  add_child-kind : (k : Kind) → h.kind ≡ k → add_child h ch c x ≡ add_child_as k
  unfolding add_child
  add_child-kind k e = ap add_child_as e

-- A child that add_child puts into a well-formed node of any kind under a byte without a child is
-- found under that byte, in a well-formed node that may have grown, with every other child, the
-- prefix and the buffer as before.
pub add_child_lem :
    (h : Header) (ch : ℕ → Node) (c : ℕ) (x : Node)
    → IsNode h ch
    → c < 256
    → is_null x ≡ false
    → find_child h ch c ≡ none
    → Added h ch c x (add_child h ch c x)
add_child_lem h ch c x v l p new = elim (Kind-cases h.kind) [
  | inl e ↦
      rw (add_child-kind h ch c x node4 e)
        (add_child4_lem h ch c x e (of_IsNode node4 h ch e v) l p new)
  | inr (inl e) ↦
      rw (add_child-kind h ch c x node16 e)
        (add_child16_lem h ch c x e (of_IsNode node16 h ch e v) l p new)
  | inr (inr (inl e)) ↦
      rw (add_child-kind h ch c x node48 e)
        (add_child48_lem h ch c x e (of_IsNode node48 h ch e v) l p new)
  | inr (inr (inr e)) ↦
      let free : is_null (ch c) ≡ true = ground (arith, sym (find_child-node256 h ch c e) ∙ new) in
      rw (add_child-kind h ch c x node256 e)
        (add_child256_lem h ch c x e (of_IsNode node256 h ch e v) l p free)
]
