-- ===== src/Art/Grow.antt =====
-- add_child: a new child goes under its byte, also where the node has to grow.
use hetero_indexing.Prelude.{
  ℕ, zero, suc, ◌+◌, ◌-◌, ◌≤◌, ◌<◌, ◌≡◌, ◌≢◌, ◌⊎◌, refl, ap, ◌∙◌, true, false, not, ◌&&◌, none,
  some, arith, ◌==◌, ltb, if◌then◌else◌, min, Option-cases, Bool-cases, ltb→lt, lt→ltb, inl, inr,
}
use native.Mathlib.Decide.{ℕ_discrete}
use hetero_indexing.Common.{key_len, u8}
use hetero_indexing.Art.Tally.{tally, tally-ext, tally-suc}
use hetero_indexing.Art.{
  node48, node256, Header, Node, Body, null, leaf, inner, is_null, find_first, find_child, update,
  alloc_node, copy_header, index_keys, add_child48, add_child256,
}
use hetero_indexing.Art.Slots.{find_first-some, child_in}
use hetero_indexing.Art.Shape.{
  to_IsNode, IsMap, child_at, Added, find_child-node48, find_child-node256, free_slot,
  count_used-update, count_used-le, points, in_use,
}

pub Node-cases : (n : Node) → (n ≡ null) ⊎ (is_null n ≡ false)
Node-cases null = inl refl
Node-cases (leaf e) = inr refl
Node-cases (inner h ch) = inr refl

pub add_child256_lem :
    (h : Header) (ch : ℕ → Node) (c : ℕ) (x : Node)
    → h.kind ≡ node256
    → h.num_children ≡ u8 (tally 256 (in_use ch))
    → c < 256
    → is_null x ≡ false
    → is_null (ch c) ≡ true
    → Added h ch c x (add_child256 h ch c x)
unfolding add_child256
add_child256_lem h ch c x k v l p free =
    let r : Body = add_child256 h ch c x in
    let more =
      tally-suc 256 (in_use ch) (in_use r.1) c l (ap not free) (ground (arith, p))
        (λ j n. ground (arith, n)) in
    record {
      node = to_IsNode node256 r.0 r.1 k (omega (arith, v, more));
      at = λ b l.
          rw (find_child-node256 r.0 r.1 b k, find_child-node256 h ch b k) (ground (arith, p));
      len = refl;
      prefix = λ i l. refl;
      buffer = refl;
    }

-- A node that reads as another one may take its place.
pub Added-trans :
    (h g : Header) (ch cg : ℕ → Node) (c : ℕ) (x : Node) (r : Body)
    → ((b : ℕ) → b < 256 → child_at g cg b ≡ child_at h ch b)
    → g.partial_len ≡ h.partial_len
    → ((i : ℕ) → i < min key_len h.partial_len → g.partial i ≡ h.partial i)
    → g.buffer ≡ h.buffer
    → Added g cg c x r
    → Added h ch c x r
Added-trans h g ch cg c x r same len prefix buffer a = record {
  node = a.node;
  at = λ b l. a.at b l ∙ ap (λ t. if b == c then x else t) (same b l);
  len = a.len ∙ len;
  prefix = λ i l. a.prefix i (omega arith) ∙ prefix i l;
  buffer = a.buffer ∙ buffer;
}

-- The map of a node48 takes one more byte.
IsMap-insert :
    (h : Header) (ch : ℕ → Node) (c pos : ℕ) (x : Node)
    → IsMap h ch
    → c < 256
    → is_null x ≡ false
    → h.keys c ≡ 0
    → pos < 48
    → is_null (ch pos) ≡ true
    → IsMap
        (record h { keys = update h.keys c (pos + 1); num_children = h.num_children + 1 })
        (update ch pos x)
IsMap-insert h ch c pos x v l p z w q = record {
  slots = λ b m. ground (arith, v.slots b m);
  filled = λ b m n. ground (arith, v.filled b m, p, q, l);
  apart = λ a b m n o e. ground (arith, v.apart a b m n, v.filled a m, v.filled b n, q, z);
  counted = ground (arith, v.counted, count_used-update 48 ch pos x p q);
  mapped = omega (
    arith,
    v.mapped,
    tally-suc 256 (points h.keys) (points (update h.keys c (pos + 1))) c l (rw z refl)
        (ground arith) (λ j n. ground (arith, n)),
  );
}

-- What the map reads after a byte `c` was pointed to a free slot.
map_read :
    (keys : ℕ → ℕ) (ch : ℕ → Node) (c pos : ℕ) (x : Node) (b : ℕ)
    → is_null (ch pos) ≡ true
    → (keys b ≢ 0 → is_null (ch (keys b - 1)) ≡ false)
    → child_in
        (if update keys c (pos + 1) b == 0 then none else some (update keys c (pos + 1) b - 1))
        (update ch pos x)
      ≡ (if b == c then x else child_in (if keys b == 0 then none else some (keys b - 1)) ch)
map_read keys ch c pos x b free filled = elim (ℕ_discrete b c) [
  | yes e ↦ ground (arith, e)
  | no ne ↦ elim (Bool-cases (keys b == 0)) [
    | inl q ↦ ground (arith, ne, q)
    | inr q ↦ elim (ℕ_discrete pos (keys b - 1)) [
      | yes e ↦ absurd (ground (arith, filled, free, ap ch e, q))
      | no away ↦ ground (arith, ne, q, away)
    ]
  ]
]

-- The children of a node48, spread out by byte.
abbrev spread : (ℕ → ℕ) → (ℕ → Node) → ℕ → Node
spread keys ch i = if ltb i 256 && not (keys i == 0) then ch (keys i - 1) else null

spread_used :
    (keys : ℕ → ℕ) (ch : ℕ → Node) (b : ℕ)
    → b < 256
    → (keys b ≢ 0 → is_null (ch (keys b - 1)) ≡ false)
    → in_use (spread keys ch) b ≡ points keys b
spread_used keys ch b m filled = rw (lt→ltb b 256 m) (elim (Bool-cases (keys b == 0)) [
  | inl q ↦ rw q refl
  | inr q ↦ rw q (rw (filled (ground (arith, q))) refl)
])

spread_null :
    (keys : ℕ → ℕ) (ch : ℕ → Node) (b : ℕ) → keys b ≡ 0 → is_null (spread keys ch b) ≡ true
spread_null keys ch b z =
    rw z (elim (Bool-cases (ltb b 256)) [ inl q ↦ rw q refl | inr q ↦ rw q refl ])

spread_read :
    (keys : ℕ → ℕ) (ch : ℕ → Node) (b : ℕ)
    → b < 256
    → child_in (if is_null (spread keys ch b) then none else some b) (spread keys ch)
      ≡ child_in (if keys b == 0 then none else some (keys b - 1)) ch
spread_read keys ch b m =
    let l = lt→ltb b 256 m in
    elim (Bool-cases (keys b == 0)) [
      | inl q ↦ rw (q, l)
      | inr q ↦ elim (Node-cases (ch (keys b - 1))) [
        | inl e ↦ rw (q, l, e)
        | inr e ↦ rw (q, l, e) (rw (q, l))
      ]
    ]

pub add_child48_lem :
    (h : Header) (ch : ℕ → Node) (c : ℕ) (x : Node)
    → h.kind ≡ node48
    → IsMap h ch
    → c < 256
    → is_null x ≡ false
    → find_child h ch c ≡ none
    → Added h ch c x (add_child48 h ch c x)
unfolding add_child48
add_child48_lem h ch c x k v l p new =
    let z : h.keys c ≡ 0 = ground (arith, find_child-node48 h ch c k, new) in
    elim (Bool-cases (ltb h.num_children 48)) [
      | inl room ↦
          let (i, q) = free_slot h ch v (ltb→lt h.num_children 48 room) in
          let found = find_first-some 48 0 (λ j. is_null (ch j)) i q in
          let h' : Header = record h {
            keys = update h.keys c (i + 1);
            num_children = h.num_children + 1;
          } in
          rw (room, q)
            (record {
              node =
                  to_IsNode node48 h' (update ch i x) k
                    (IsMap-insert h ch c i x v l p z (omega (arith, found)) found.0);
              at = λ b m.
                  rw (find_child-node48 h' (update ch i x) b k, find_child-node48 h ch b k)
                    (map_read h.keys ch c i x b found.0 (v.filled b m));
              len = refl;
              prefix = λ i l. refl;
              buffer = refl;
            })
      | inr full ↦
          let g : Header = copy_header (alloc_node node256) h in
          let cg = spread h.keys ch in
          let same : tally 256 (in_use cg) ≡ tally 256 (points h.keys) =
            tally-ext 256 (in_use cg) (points h.keys)
              (λ b m. spread_used h.keys ch b m (v.filled b m)) in
          rw full (
            Added-trans h g ch cg c x (add_child256 g cg c x)
              (λ b m.
                rw (find_child-node256 g cg b refl, find_child-node48 h ch b k)
                  (spread_read h.keys ch b m))
              refl (λ i m. rw (lt→ltb i (min key_len h.partial_len) m)) refl
              (add_child256_lem g cg c x refl
                (omega (arith, v.mapped, v.counted, same, count_used-le 48 ch)) l p
                (spread_null h.keys ch c z)))
    ]

-- The map that a growing node16 fills: byte to position, one up, and 0 elsewhere.
pub index_keys_lem :
    (n i : ℕ) (keys map : ℕ → ℕ) (c : ℕ)
    → ((a b : ℕ) → i ≤ a → a < i + n → i ≤ b → b < i + n → keys a ≡ keys b → a ≡ b)
    → index_keys n i keys map c
      ≡ (elim (find_first n i (λ j. keys j == c)) [ none ↦ map c | some j ↦ suc j ])
unfolding index_keys find_first
index_keys_lem zero i keys map c d = refl
index_keys_lem (suc n) i keys map c d =
    let ih =
      index_keys_lem n (i + 1) keys (update map (keys i) (i + 1)) c
        (λ a b ha ka hb kb e. d a b (omega arith) (omega arith) (omega arith) (omega arith) e) in
    let p = λ (j : ℕ). keys j == c in
    ih ∙ elim (Bool-cases (keys i == c)) [
      | inl e ↦ elim (Option-cases (find_first n (i + 1) p)) [
        | inl q ↦ rw (q, e) (ground (arith, e))
        | inr (j, q) ↦
            let found = find_first-some n (i + 1) p j q in absurd (ground (arith, e, found, d i j))
      ]
      | inr e ↦ elim (Option-cases (find_first n (i + 1) p)) [
        | inl q ↦ rw (q, e) (ground (arith, e))
        | inr (j, q) ↦ rw (q, e)
      ]
    ]
