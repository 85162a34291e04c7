-- ===== src/Delete/Pack16.antt =====
-- remove_child48, with the node48 that shrinks to a node16.
use hetero_indexing.Prelude.{
  ℕ, zero, suc, ◌+◌, ◌-◌, ◌≤◌, ◌<◌, ◌≡◌, ◌≢◌, refl, sym, ap, ◌∙◌, true, false, none, some, arith,
  ◌==◌, if◌then◌else◌, Bool-cases, inl, inr, min, lt→ltb,
}
use mathlib.Core.Path.{subst}
use native.Mathlib.Decide.{ℕ_discrete}
use hetero_indexing.Common.{key_len}
use hetero_indexing.Art.{
  node16, node48, Header, Node, null, is_null, update, alloc_node, no_children, copy_header,
}
use hetero_indexing.Art.Tally.{tally, tally-suc}
use hetero_indexing.Art.Slots.{slot, slot-eq, slot-eq-none, child_in}
use hetero_indexing.Art.Shape.{
  to_IsNode, IsArray, IsMap, points, count_used, count_used-le, find_child-node48,
  find_child-node16,
}
use hetero_indexing.Delete.{pack16, remove_child48, one_less}
use hetero_indexing.Delete.Pack48.{Takes}

-- What the loop has packed of the bytes below `i`, into `child` cells.
record Packs (map : ℕ → ℕ) (ch : ℕ → Node) (i child : ℕ) (keys : ℕ → ℕ) (slots : ℕ → Node)
    : Type 0 where
  pub from :
      (p : ℕ) → p < child → (keys p < i) × (map (keys p) ≢ 0) × (slots p ≡ ch (map (keys p) - 1))
  pub apart : (p q : ℕ) → p < child → q < child → keys p ≡ keys q → p ≡ q
  pub onto : (c : ℕ) → c < i → map c ≢ 0 → (p : ℕ) × (p < child) × (keys p ≡ c)
  pub counted : child ≡ tally i (points map)

module _ (map : ℕ → ℕ) (ch : ℕ → Node) where
  skip-Packs :
      (i child : ℕ) (keys : ℕ → ℕ) (slots : ℕ → Node)
      → Packs map ch i child keys slots
      → (map i == 0) ≡ true
      → Packs map ch (i + 1) child keys slots
  unfolding tally
  skip-Packs i child keys slots v q = record {
    from = λ p l. (omega (arith, v.from p l), (v.from p l).1, (v.from p l).2);
    apart = v.apart;
    onto = λ c l n. elim (ℕ_discrete c i) [
      | yes z ↦ absurd (n (ap map z ∙ ground (arith, q)))
      | no z ↦ v.onto c (omega (arith, z)) n
    ];
    counted = ground (arith, v.counted, q);
  }

  take-Packs :
      (i child : ℕ) (keys : ℕ → ℕ) (slots : ℕ → Node)
      → Packs map ch i child keys slots
      → (map i == 0) ≡ false
      → Packs map ch (i + 1) (child + 1) (update keys child i) (update slots child (ch (map i - 1)))
  unfolding tally
  take-Packs i child keys slots v q = record {
    from = λ p l. elim (ℕ_discrete child p) [
      | yes z ↦ ground (arith, z, q)
      | no z ↦ ground (arith, z, v.from p (omega (arith, z)))
    ];
    apart = λ p r l m e. ground (arith, l, m, e, v.apart p r, v.from p, v.from r);
    onto = λ c l n. elim (ℕ_discrete c i) [
      | yes z ↦ (child, omega arith, ground (arith, z))
      | no z ↦
          let (p, m, e) = v.onto c (omega (arith, z)) n in
          (p, omega (arith, m), ground (arith, m, e))
    ];
    counted = ground (arith, v.counted, q);
  }

  pack16-Packs :
      (n i child : ℕ) (keys : ℕ → ℕ) (slots : ℕ → Node)
      → Packs map ch i child keys slots
      → let r = pack16 n i child map ch keys slots in
        Packs map ch (i + n) (tally (i + n) (points map)) r.0 r.1
  unfolding pack16
  pack16-Packs zero i child keys slots v =
      let same : i + 0 ≡ i = omega arith in
      rw same (subst (λ p. Packs map ch i p keys slots) v.counted v)
  pack16-Packs (suc n) i child keys slots v =
      let end : i + 1 + n ≡ i + suc n = omega arith in
      elim (Bool-cases (map i == 0)) [
        | inl q ↦
            rw (q, ← end)
              (pack16-Packs n (i + 1) child keys slots (skip-Packs i child keys slots v q))
        | inr q ↦
            rw (q, ← end)
              (pack16-Packs n (i + 1) (child + 1) (update keys child i)
                (update slots child (ch (map i - 1))) (take-Packs i child keys slots v q))
      ]

  start-Packs : Packs map ch 0 0 (λ _. 0) no_children
  unfolding tally
  start-Packs = record {
    from = λ p l. absurd (omega arith);
    apart = λ p q l m e. absurd (omega arith);
    onto = λ c l n. absurd (omega arith);
    counted = refl;
  }

-- The node16 that the bytes of a node48 are packed into.
module _ (h : Header) (ch : ℕ → Node) (v : IsMap h ch) (few : h.num_children ≤ 16) where
  abbrev packed : (ℕ → ℕ) × (ℕ → Node)
  packed = pack16 256 0 0 h.keys ch (λ _. 0) no_children

  abbrev pub packed_header : Header
  packed_header = record (copy_header (alloc_node node16) h) { keys = packed.0 }

  all : Packs h.keys ch 256 h.num_children packed.0 packed.1
  all =
      subst (λ p. Packs h.keys ch 256 p packed.0 packed.1) (sym v.mapped)
        (pack16-Packs h.keys ch 256 0 0 (λ _. 0) no_children (start-Packs h.keys ch))

  pub packed-IsArray : IsArray 16 packed_header packed.1
  packed-IsArray = record {
    fits = few;
    distinct = all.apart;
    bytes = λ i l. (all.from i l).0;
    filled = λ i l.
        ap is_null (all.from i l).2 ∙ v.filled (packed.0 i) (all.from i l).0 (all.from i l).1;
  }

  pub packed_reads :
      (b : ℕ)
      → b < 256
      → child_in (slot h.num_children packed.0 b) packed.1
        ≡ child_in (if h.keys b == 0 then none else some (h.keys b - 1)) ch
  packed_reads b l = elim (Bool-cases (h.keys b == 0)) [
    | inl q ↦
        let away =
          slot-eq-none h.num_children packed.0 b
            (λ p m e. (all.from p m).1 (ap h.keys e ∙ ground (arith, q))) in
        rw (q, away) refl
    | inr q ↦
        let (p, m, e) = all.onto b l (ground (arith, q)) in
        rw (q, slot-eq h.num_children packed.0 b p all.apart m e)
          ((all.from p m).2 ∙ ap (λ t. ch (h.keys t - 1)) e)
  ]

count_used_away :
    (n i : ℕ) (ch : ℕ → Node) → n ≤ i → count_used n (update ch i null) ≡ count_used n ch
count_used_away zero i ch l = refl
count_used_away (suc n) i ch l = ground (arith, l, count_used_away n i ch (omega arith))

count_used-remove :
    (n : ℕ) (ch : ℕ → Node) (i : ℕ)
    → i < n
    → is_null (ch i) ≡ false
    → count_used n (update ch i null) + 1 ≡ count_used n ch
count_used-remove zero ch i l q = absurd (omega arith)
count_used-remove (suc n) ch i l q = elim (ℕ_discrete i n) [
  | yes e ↦ ground (arith, e, q, count_used_away n i ch (omega (arith, e)))
  | no e ↦ ground (arith, e, count_used-remove n ch i (omega (arith, e)) q)
]

-- The node48 without the byte `c`.
module _ (h : Header) (ch : ℕ → Node) (c : ℕ) (v : IsMap h ch) (l : c < 256)
    (used : h.keys c ≢ 0) where
  abbrev emptied : Header
  emptied = record h { keys = update h.keys c 0; num_children = one_less h.num_children }

  abbrev rest : ℕ → Node
  rest = update ch (h.keys c - 1) null

  away : (b : ℕ) → b < 256 → h.keys b ≢ 0 → b ≢ c → h.keys c - 1 ≢ h.keys b - 1
  away b m n ne e = ne (v.apart b c m l n (omega (arith, e, n, used)))

  fewer_bytes : tally 256 (points h.keys) ≡ tally 256 (points emptied.keys) + 1
  fewer_bytes =
      tally-suc 256 (points emptied.keys) (points h.keys) c l (ground arith) (ground (arith, used))
        (λ j n. ground (arith, n))

  fewer_slots : count_used 48 rest + 1 ≡ count_used 48 ch
  fewer_slots =
      count_used-remove 48 ch (h.keys c - 1) (omega (arith, v.slots c l, used)) (v.filled c l used)

  emptied_counts :
      (emptied.num_children ≡ count_used 48 rest)
      × (emptied.num_children ≡ tally 256 (points emptied.keys))
  emptied_counts = (
    omega (arith, v.counted, fewer_slots, count_used-le 48 ch),
    omega (arith, v.mapped, v.counted, fewer_bytes, count_used-le 48 ch),
  )

  emptied-IsMap : IsMap emptied rest
  emptied-IsMap = record {
    slots = λ b m. ground (arith, v.slots b m);
    filled = λ b m n. ground (arith, n, v.filled b m, away b m);
    apart = λ a b m n o e. ground (arith, o, e, v.apart a b m n);
    counted = emptied_counts.0;
    mapped = emptied_counts.1;
  }

  emptied_reads :
      (b : ℕ)
      → b < 256
      → child_in (if emptied.keys b == 0 then none else some (emptied.keys b - 1)) rest ≡ (
          if b == c
          then null
          else child_in (if h.keys b == 0 then none else some (h.keys b - 1)) ch)
  emptied_reads b m = elim (ℕ_discrete b c) [
    | yes e ↦ ground (arith, e)
    | no e ↦ elim (Bool-cases (h.keys b == 0)) [
      | inl q ↦ ground (arith, e, q)
      | inr q ↦ ground (arith, e, q, away b m)
    ]
  ]

twelve : (n : ℕ) → (n == 12) ≡ true → n ≤ 16
twelve n q = ground (arith, q)

pub remove_child48_lem :
    (h : Header) (ch : ℕ → Node) (c : ℕ)
    → h.kind ≡ node48
    → IsMap h ch
    → c < 256
    → h.keys c ≢ 0
    → Takes h ch c (remove_child48 h ch c)
unfolding remove_child48
remove_child48_lem h ch c k v l used =
    let h' = emptied h ch c v l used in
    let ch' = rest h ch c v l used in
    let v' = emptied-IsMap h ch c v l used in
    let reads = emptied_reads h ch c v l used in
    elim (Bool-cases (h'.num_children == 12)) [
      | inr q ↦ rw q (
        (h', ch'),
        refl,
        record {
          node = to_IsNode node48 h' ch' k v';
          at = λ b m. rw (find_child-node48 h' ch' b k, find_child-node48 h ch b k) (reads b m);
          len = refl;
          prefix = λ i m. refl;
          buffer = refl;
        },
      )
      | inl q ↦
          let few : h'.num_children ≤ 16 = twelve h'.num_children q in
          let g = packed_header h' ch' v' few in
          let cg = (pack16 256 0 0 h'.keys ch' (λ _. 0) no_children).1 in
          let w = packed-IsArray h' ch' v' few in
          rw q (
            (g, cg),
            refl,
            record {
              node = w;
              at = λ b m.
                  ap (λ o. child_in o cg) (find_child-node16 g cg b refl w)
                  ∙ packed_reads h' ch' v' few b m
                  ∙ reads b m
                  ∙ ap (λ o. if b == c then null else child_in o ch)
                      (sym (find_child-node48 h ch b k));
              len = refl;
              prefix = λ i m. rw (lt→ltb i (min key_len h.partial_len) m) refl;
              buffer = refl;
            },
          )
    ]
