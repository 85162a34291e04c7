-- ===== src/Art/Widen.antt =====
-- add_child on a node16, with its growth to a node48; a sorted array takes one more byte.
use hetero_indexing.Prelude.{
  ℕ, zero, suc, ◌+◌, ◌-◌, ◌≤◌, ◌<◌, ◌≡◌, ◌⊎◌, refl, sym, ap, ◌∙◌, Bool, true, false, ◌&&◌, none,
  some, arith, ◌==◌, ltb, if◌then◌else◌, min, Option-cases, Bool-cases, ltb→lt, lt→ltb, inl, inr,
}
use hetero_indexing.Common.{key_len}
use hetero_indexing.Art.{
  node16, node48, Header, Node, is_null, find_first, find_child, update, shift_up, copy, alloc_node,
  copy_header, no_children, or_default, signed_order, index_keys, add_child16, add_child48,
}
use hetero_indexing.Art.Tally.{tally, tally-suc}
use hetero_indexing.Art.Slots.{
  find_first-some, slot, child_in, slot_keys, insert-Distinct, insert_lem,
}
use hetero_indexing.Art.Shape.{
  to_IsNode, IsArray, IsMap, Added, find_child-node16, find_child-node48, count_used_prefix, points,
}
use hetero_indexing.Art.Grow.{add_child48_lem, Added-trans, index_keys_lem}

-- An array with room takes one more byte at any index up to its end.
module _ (cap : ℕ) (h : Header) (ch : ℕ → Node) (c idx : ℕ) (x : Node) (v : IsArray cap h ch)
    (room : h.num_children < cap) (byte : c < 256) (p : is_null x ≡ false)
    (below : idx ≤ h.num_children) (new : slot h.num_children h.keys c ≡ none) where
  abbrev pub taken : Header
  taken = record h {
    keys = update (shift_up h.keys idx h.num_children) idx c;
    num_children = h.num_children + 1;
  }

  abbrev pub taken_children : ℕ → Node
  taken_children = update (shift_up ch idx h.num_children) idx x

  pub taken-IsArray : IsArray cap taken taken_children
  taken-IsArray = record {
    fits = omega arith;
    distinct = insert-Distinct h.num_children h.keys ch idx c x below v.distinct new;
    bytes = λ i l. ground (arith, v.bytes i, v.bytes (i - 1));
    filled = λ i l. ground (arith, v.filled i, v.filled (i - 1), p);
  }

  pub taken_reads :
      (b : ℕ)
      → child_in (slot taken.num_children taken.keys b) taken_children
        ≡ (if b == c then x else child_in (slot h.num_children h.keys b) ch)
  taken_reads b = insert_lem h.num_children h.keys ch idx c x below v.distinct new b

or_default-le :
    (n m : ℕ) (q : ℕ → Bool) (N : ℕ)
    → ((i : ℕ) → q i ≡ true → i ≤ m)
    → or_default (find_first n N q) m ≤ m
or_default-le n m q N h = elim (Option-cases (find_first n N q)) [
  | inl e ↦ rw e (omega arith)
  | inr (j, e) ↦ rw e (h j (find_first-some n N q j e).0)
]

pub first_below : (n : ℕ) (q : ℕ → Bool) → or_default (find_first n 0 q) n ≤ n
first_below n q = elim (Option-cases (find_first n 0 q)) [
  | inl e ↦ rw e (omega arith)
  | inr (j, e) ↦ rw e (omega (arith, find_first-some n 0 q j e))
]

tally_none : (n : ℕ) → tally n (points (λ _. 0)) ≡ 0
unfolding tally
tally_none zero = refl
tally_none (suc n) = rw (tally_none n) refl

-- Each byte of the array is one more byte of the map.
tally-index_keys :
    (n i : ℕ) (keys map : ℕ → ℕ)
    → ((a b : ℕ) → i ≤ a → a < i + n → i ≤ b → b < i + n → keys a ≡ keys b → a ≡ b)
    → ((j : ℕ) → i ≤ j → j < i + n → keys j < 256)
    → ((j : ℕ) → i ≤ j → j < i + n → map (keys j) ≡ 0)
    → tally 256 (points (index_keys n i keys map)) ≡ tally 256 (points map) + n
unfolding index_keys
tally-index_keys zero i keys map d bytes new = omega arith
tally-index_keys (suc n) i keys map d bytes new =
    let map' = update map (keys i) (i + 1) in
    let rest =
      tally-index_keys n (i + 1) keys map'
        (λ a b ka la kb lb e. d a b (omega arith) (omega arith) (omega arith) (omega arith) e)
        (λ j k l. bytes j (omega arith) (omega arith)) (λ j k l. ground (arith, new j, d i j)) in
    let one =
      tally-suc 256 (points map) (points map') (keys i) (bytes i (omega arith) (omega arith))
        (rw (new i (omega arith) (omega arith)) refl) (ground arith) (λ j q. ground (arith, q)) in
    omega (arith, rest, one)

-- A full node16 as a node48.
module _ (h : Header) (ch : ℕ → Node) (v : IsArray 16 h ch) (full : h.num_children ≡ 16) where
  abbrev mapped : Header
  mapped = record (copy_header (alloc_node node48) h) {
    keys = index_keys h.num_children 0 h.keys (λ _. 0);
  }

  abbrev mapped_children : ℕ → Node
  mapped_children = copy no_children ch h.num_children

  mapped_key :
      (c : ℕ)
      → ((slot h.num_children h.keys c ≡ none) × (mapped.keys c ≡ 0))
        ⊎ ((j : ℕ) × (slot h.num_children h.keys c ≡ some j)
            × (mapped.keys c ≡ suc j)
            × (h.keys j ≡ c)
            × (j < h.num_children))
  mapped_key c =
      let n = h.num_children in
      let e =
        index_keys_lem n 0 h.keys (λ _. 0) c
          (λ a b _ la _ lb q. v.distinct a b (omega arith) (omega arith) q) in
      elim (Option-cases (slot n h.keys c)) [
        | inl q ↦ inl (q, e ∙ rw q refl)
        | inr (j, q) ↦
            let (there, l) = slot_keys n h.keys c j q in inr (j, q, e ∙ rw q refl, there, l)
      ]

  mapped-IsMap : IsMap mapped mapped_children
  mapped-IsMap = record {
    slots = λ c l. elim (mapped_key c) [
      | inl e ↦ omega (arith, e.1)
      | inr (j, _, e, _, m) ↦ omega (arith, e, m, v.fits)
    ];
    filled = λ c l n. elim (mapped_key c) [
      | inl e ↦ absurd (n e.1)
      | inr (j, _, e, _, m) ↦ rw e (ground (arith, m, v.filled j m))
    ];
    apart = λ c d lc ld n e. elim (mapped_key c) [
      | inl o ↦ absurd (n o.1)
      | inr (j, _, o, here, _) ↦ elim (mapped_key d) [
        | inl o' ↦ absurd (n (e ∙ o'.1))
        | inr (j', _, o', there, _) ↦
            let same : j ≡ j' = omega (arith, e, o, o') in sym here ∙ ap h.keys same ∙ there
      ]
    ];
    counted =
        omega (arith, count_used_prefix 48 16 mapped_children (λ i l. ground (arith, v.filled i)));
    mapped = omega (
      arith,
      tally-index_keys h.num_children 0 h.keys (λ _. 0)
          (λ a b _ la _ lb q. v.distinct a b (omega arith) (omega arith) q)
          (λ j _ l. v.bytes j (omega arith)) (λ j _ l. refl),
      tally_none 256,
    );
  }

  mapped_reads :
      (b : ℕ)
      → child_in (if mapped.keys b == 0 then none else some (mapped.keys b - 1)) mapped_children
        ≡ child_in (slot h.num_children h.keys b) ch
  mapped_reads b = elim (mapped_key b) [
    | inl e ↦ rw (e.0, e.1)
    | inr (j, here, e, _, m) ↦ rw (here, e) (ground (arith, m))
  ]

  mapped_free :
      (b : ℕ)
      → slot h.num_children h.keys b ≡ none
      → (if mapped.keys b == 0 then none else some (mapped.keys b - 1)) ≡ none
  mapped_free b z = elim (mapped_key b) [
    | inl e ↦ rw e.1 refl
    | inr (j, here, _, _, _) ↦ absurd (ground (arith, here, z))
  ]

pub add_child16_lem :
    (h : Header) (ch : ℕ → Node) (c : ℕ) (x : Node)
    → h.kind ≡ node16
    → IsArray 16 h ch
    → c < 256
    → is_null x ≡ false
    → find_child h ch c ≡ none
    → Added h ch c x (add_child16 h ch c x)
unfolding add_child16
add_child16_lem h ch c x k v l p new =
    let n = h.num_children in
    let test = λ (i : ℕ). ltb (signed_order c) (signed_order (h.keys i)) && ltb i n in
    let idx = or_default (find_first 16 0 test) n in
    let below : idx ≤ n = or_default-le 16 n test 0 (λ i q. ground (arith, q)) in
    let free : slot n h.keys c ≡ none = sym (find_child-node16 h ch c k v) ∙ new in
    elim (Bool-cases (ltb n 16)) [
      | inl q ↦
          let room = ltb→lt n 16 q in
          let h' = taken 16 h ch c idx x v room l p below free in
          let ch' = taken_children 16 h ch c idx x v room l p below free in
          let v' = taken-IsArray 16 h ch c idx x v room l p below free in
          rw q (record {
            node = to_IsNode node16 h' ch' k v';
            at = λ b m.
                rw (find_child-node16 h' ch' b k v', find_child-node16 h ch b k v)
                  (taken_reads 16 h ch c idx x v room l p below free b);
            len = refl;
            prefix = λ i l. refl;
            buffer = refl;
          })
      | inr q ↦
          let full : n ≡ 16 = ground (arith, v.fits, q) in
          let g = mapped h ch v full in
          let cg = mapped_children h ch v full in
          let reads = mapped_reads h ch v full in
          rw q (
            Added-trans h g ch cg c x (add_child48 g cg c x)
              (λ b m. rw (find_child-node48 g cg b refl, find_child-node16 h ch b k v) (reads b))
              refl (λ i m. rw (lt→ltb i (min key_len h.partial_len) m)) refl
              (add_child48_lem g cg c x refl (mapped-IsMap h ch v full) l p
                (find_child-node48 g cg c refl ∙ mapped_free h ch v full c free)))
    ]
