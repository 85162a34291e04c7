-- ===== src/Delete/Pack48.antt =====
-- remove_child256, with the node256 that shrinks to a node48.
use hetero_indexing.Prelude.{
  ℕ, zero, suc, ◌+◌, ◌-◌, ◌≤◌, ◌<◌, ◌≡◌, ◌≢◌, refl, sym, ap, ◌∙◌, true, false, not, none, some,
  arith, ◌==◌, ltb, if◌then◌else◌, Bool-cases, inl, inr, min, lt→ltb,
}
use mathlib.Core.Path.{subst}
use native.Mathlib.Decide.{ℕ_discrete}
use hetero_indexing.Common.{key_len, u8}
use hetero_indexing.Art.{
  node48, node256, Header, Node, Body, null, is_null, update, alloc_node, no_children, copy_header,
}
use hetero_indexing.Art.Tally.{tally, tally-suc, tally-ext, tally-le}
use hetero_indexing.Art.Slots.{child_in}
use hetero_indexing.Art.Shape.{
  to_IsNode, IsMap, Added, points, in_use, find_child-node48, find_child-node256, count_used_prefix,
}
use hetero_indexing.Delete.{pack48, remove_child256, removed, one_less, Removed}

-- What the loop has packed of the bytes below `i`, into `pos` slots.
record Packs (ch : ℕ → Node) (i pos : ℕ) (keys : ℕ → ℕ) (slots : ℕ → Node) : Type 0 where
  pub unused : (c : ℕ) → c < i → is_null (ch c) ≡ true → keys c ≡ 0
  pub used :
      (c : ℕ)
      → c < i
      → is_null (ch c) ≡ false
      → (keys c ≢ 0) × (keys c ≤ pos) × (slots (keys c - 1) ≡ ch c)
  pub above : (c : ℕ) → i ≤ c → keys c ≡ 0
  pub filled : (p : ℕ) → is_null (slots p) ≡ not (ltb p pos)
  pub apart : (c d : ℕ) → keys c ≢ 0 → keys c ≡ keys d → c ≡ d
  pub low : (c : ℕ) → keys c ≤ pos
  pub counted : pos ≡ tally i (in_use ch)

module _ (ch : ℕ → Node) where
  skip-Packs :
      (i pos : ℕ) (keys : ℕ → ℕ) (slots : ℕ → Node)
      → Packs ch i pos keys slots
      → is_null (ch i) ≡ true
      → Packs ch (i + 1) pos keys slots
  unfolding tally
  skip-Packs i pos keys slots v q = record {
    unused = λ c l e. elim (ℕ_discrete c i) [
      | yes z ↦ v.above c (omega (arith, z))
      | no z ↦ v.unused c (omega (arith, z)) e
    ];
    used = λ c l e. elim (ℕ_discrete c i) [
      | yes z ↦ absurd (ground (arith, q, e, ap ch z))
      | no z ↦ v.used c (omega (arith, z)) e
    ];
    above = λ c l. v.above c (omega arith);
    filled = v.filled;
    apart = v.apart;
    low = v.low;
    counted = ground (arith, v.counted, q);
  }

  take-Packs :
      (i pos : ℕ) (keys : ℕ → ℕ) (slots : ℕ → Node)
      → Packs ch i pos keys slots
      → is_null (ch i) ≡ false
      → Packs ch (i + 1) (pos + 1) (update keys i (pos + 1)) (update slots pos (ch i))
  unfolding tally
  take-Packs i pos keys slots v q = record {
    unused = λ c l e. elim (ℕ_discrete c i) [
      | yes z ↦ absurd (ground (arith, q, e, ap ch z))
      | no z ↦ ground (arith, z, v.unused c (omega (arith, z)) e)
    ];
    used = λ c l e. elim (ℕ_discrete c i) [
      | yes z ↦ ground (arith, z)
      | no z ↦ ground (arith, z, v.used c (omega (arith, z)) e)
    ];
    above = λ c l. ground (arith, l, v.above c (omega arith));
    filled = λ p. ground (arith, v.filled p, q);
    apart = λ c d n e. ground (arith, n, e, v.apart c d, v.low c, v.low d);
    low = λ c. ground (arith, v.low c);
    counted = ground (arith, v.counted, q);
  }

  pack48-Packs :
      (n i pos : ℕ) (keys : ℕ → ℕ) (slots : ℕ → Node)
      → Packs ch i pos keys slots
      → let r = pack48 n i pos ch keys slots in Packs ch (i + n) (tally (i + n) (in_use ch)) r.0 r.1
  unfolding pack48
  pack48-Packs zero i pos keys slots v =
      let same : i + 0 ≡ i = omega arith in
      rw same (subst (λ p. Packs ch i p keys slots) v.counted v)
  pack48-Packs (suc n) i pos keys slots v =
      let end : i + 1 + n ≡ i + suc n = omega arith in
      elim (Bool-cases (is_null (ch i))) [
        | inl q ↦
            rw (q, ← end) (pack48-Packs n (i + 1) pos keys slots (skip-Packs i pos keys slots v q))
        | inr q ↦
            rw (q, ← end)
              (pack48-Packs n (i + 1) (pos + 1) (update keys i (pos + 1)) (update slots pos (ch i))
                (take-Packs i pos keys slots v q))
      ]

  start-Packs : Packs ch 0 0 (λ _. 0) no_children
  unfolding tally
  start-Packs = record {
    unused = λ c l e. refl;
    used = λ c l e. absurd (omega arith);
    above = λ c l. refl;
    filled = λ p. ground arith;
    apart = λ c d n e. absurd (n refl);
    low = λ c. omega arith;
    counted = refl;
  }

-- The node48 that all 256 bytes are packed into.
module _ (h : Header) (ch : ℕ → Node) (count : h.num_children ≡ tally 256 (in_use ch))
    (few : h.num_children ≤ 48) where
  abbrev packed : (ℕ → ℕ) × (ℕ → Node)
  packed = pack48 256 0 0 ch (λ _. 0) no_children

  abbrev pub packed_header : Header
  packed_header = record (copy_header (alloc_node node48) h) { keys = packed.0 }

  all : Packs ch 256 h.num_children packed.0 packed.1
  all =
      subst (λ p. Packs ch 256 p packed.0 packed.1) (sym count)
        (pack48-Packs ch 256 0 0 (λ _. 0) no_children (start-Packs ch))

  same_bytes : (b : ℕ) → b < 256 → points packed.0 b ≡ in_use ch b
  same_bytes b l = elim (Bool-cases (is_null (ch b))) [
    | inl q ↦ rw (q, all.unused b l q) refl
    | inr q ↦ ground (arith, q, all.used b l q)
  ]

  pub packed-IsMap : IsMap packed_header packed.1
  packed-IsMap = record {
    slots = λ c l. omega (arith, all.low c);
    filled = λ c l n. elim (Bool-cases (is_null (ch c))) [
      | inl q ↦ absurd (n (all.unused c l q))
      | inr q ↦ ap is_null (all.used c l q).2 ∙ q
    ];
    apart = λ c d l m n e. all.apart c d n e;
    counted = omega (arith, count_used_prefix 48 h.num_children packed.1 (λ i l. all.filled i));
    mapped = count ∙ sym (tally-ext 256 (points packed.0) (in_use ch) same_bytes);
  }

  pub packed_reads :
      (b : ℕ)
      → b < 256
      → child_in (if packed.0 b == 0 then none else some (packed.0 b - 1)) packed.1
        ≡ child_in (if is_null (ch b) then none else some b) ch
  packed_reads b l = elim (Bool-cases (is_null (ch b))) [
    | inl q ↦ rw (q, all.unused b l q) refl
    | inr q ↦
        let there = all.used b l q in
        let on : (packed.0 b == 0) ≡ false = ground (arith, there) in rw (q, on) there.2
  ]

-- The node that a removal leaves, which did not fold, without the child.
abbrev pub Takes : Header → (ℕ → Node) → ℕ → Removed → Type 0
Takes h ch c t = (r : Body) × (t ≡ removed r.0 r.1) × Added h ch c null r

pub remove_child256_lem :
    (h : Header) (ch : ℕ → Node) (c : ℕ)
    → h.kind ≡ node256
    → h.num_children ≡ u8 (tally 256 (in_use ch))
    → c < 256
    → is_null (ch c) ≡ false
    → Takes h ch c (remove_child256 h ch c)
unfolding remove_child256
remove_child256_lem h ch c k v l there =
    let ch' = update ch c null in
    let h' : Header = record h { num_children = one_less h.num_children } in
    let fewer =
      tally-suc 256 (in_use ch') (in_use ch) c l (ground arith) (rw there refl)
        (λ j n. ground (arith, n)) in
    let at_most = tally-le 256 (in_use ch) in
    let counted : h'.num_children ≡ u8 (tally 256 (in_use ch')) = omega (arith, v, fewer) in
    let taken : Added h ch c null (h', ch') = record {
      node = to_IsNode node256 h' ch' k counted;
      at = λ b m.
          rw (find_child-node256 h' ch' b k, find_child-node256 h ch b k)
            (elim (ℕ_discrete c b) [ yes e ↦ ground (arith, e) | no e ↦ ground (arith, e) ]);
      len = refl;
      prefix = λ i m. refl;
      buffer = refl;
    } in
    elim (Bool-cases (h'.num_children == 37)) [
      | inr q ↦ rw q ((h', ch'), refl, taken)
      | inl q ↦
          let count : h'.num_children ≡ tally 256 (in_use ch') =
            ground (arith, counted, at_most, fewer, q) in
          let few : h'.num_children ≤ 48 = ground (arith, q) in
          let g = packed_header h' ch' count few in
          let cg = (pack48 256 0 0 ch' (λ _. 0) no_children).1 in
          rw q (
            (g, cg),
            refl,
            record {
              node = packed-IsMap h' ch' count few;
              at = λ b m.
                  ap (λ o. child_in o cg) (find_child-node48 g cg b refl)
                  ∙ packed_reads h' ch' count few b m
                  ∙ ap (λ o. child_in o ch') (sym (find_child-node256 h' ch' b k))
                  ∙ taken.at b m;
              len = refl;
              prefix = λ i m. rw (lt→ltb i (min key_len h.partial_len) m) refl;
              buffer = refl;
            },
          )
    ]
