-- ===== src/Art/Replace.antt =====
-- A write through the pointer that find_child returned.
use hetero_indexing.Prelude.{
  ℕ, zero, suc, ◌-◌, ◌<◌, ◌≡◌, ◌≢◌, refl, sym, ap, ◌∙◌, false, none, some, arith, ◌==◌,
  if◌then◌else◌, Option-cases, inl, inr,
}
use native.Mathlib.Decide.{ℕ_discrete}
use hetero_indexing.Art.{node4, node16, node48, node256, Header, Node, is_null, find_child, update}
use hetero_indexing.Common.{u8}
use hetero_indexing.Art.Tally.{tally-ext}
use hetero_indexing.Art.Slots.{slot, slot_keys, child_in}
use hetero_indexing.Art.Shape.{
  to_IsNode, of_IsNode, IsArray, IsMap, IsNode, child_at, Added, find_child-node4,
  find_child-node16, find_child-node48, find_child-node256, count_used, in_use,
}
use hetero_indexing.Art.AddChild.{Kind-cases}

module _ (h : Header) (ch : ℕ → Node) (c i : ℕ) (x : Node) (p : is_null x ≡ false) where
  replace-IsArray : (cap : ℕ) → IsArray cap h ch → IsArray cap h (update ch i x)
  replace-IsArray cap v = record {
    fits = v.fits;
    distinct = v.distinct;
    bytes = v.bytes;
    filled = λ j l. ground (arith, v.filled j l, p);
  }

  replace_slot :
      (b : ℕ)
      → slot h.num_children h.keys c ≡ some i
      → child_in (slot h.num_children h.keys b) (update ch i x)
        ≡ (if b == c then x else child_in (slot h.num_children h.keys b) ch)
  replace_slot b q =
      let n = h.num_children in
      let here = slot_keys n h.keys c i q in
      elim (ℕ_discrete b c) [
        | yes e ↦ rw (e, q) (ground arith)
        | no ne ↦ elim (Option-cases (slot n h.keys b)) [
          | inl o ↦ rw o (ground (arith, ne))
          | inr (j, o) ↦
              let there = slot_keys n h.keys b j o in
              let away : j ≢ i = λ same. ne (sym there.0 ∙ ap h.keys same ∙ here.0) in
              rw o (ground (arith, ne, away))
        ]
      ]

  count_replace : (n : ℕ) → is_null (ch i) ≡ false → count_used n (update ch i x) ≡ count_used n ch
  count_replace zero q = refl
  count_replace (suc n) q = ground (arith, count_replace n q, p, q)

  module _ (v : IsMap h ch) (l : c < 256) (used : h.keys c ≢ 0) (e : i ≡ h.keys c - 1) where
    replace-IsMap : IsMap h (update ch i x)
    replace-IsMap = record {
      slots = v.slots;
      filled = λ b m n. ground (arith, v.filled b m n, p);
      apart = v.apart;
      mapped = v.mapped;
      counted = v.counted ∙ sym (count_replace 48 (ap (λ j. is_null (ch j)) e ∙ v.filled c l used));
    }

    replace_read :
        (b : ℕ)
        → b < 256
        → child_in (if h.keys b == 0 then none else some (h.keys b - 1)) (update ch i x) ≡ (
            if b == c then x else child_in (if h.keys b == 0 then none else some (h.keys b - 1)) ch)
    replace_read b m = elim (ℕ_discrete b c) [
      | yes q ↦ rw q (ground (arith, used, e))
      | no q ↦ ground (arith, used, e, q, v.apart b c m l)
    ]

replaced :
    (h : Header) (ch : ℕ → Node) (c i : ℕ) (x : Node)
    → IsNode h (update ch i x)
    → ((b : ℕ) → b < 256 → child_at h (update ch i x) b ≡ (if b == c then x else child_at h ch b))
    → Added h ch c x (h, update ch i x)
replaced h ch c i x node at = record {
  node = node;
  at = at;
  len = refl;
  prefix = λ j m. refl;
  buffer = refl;
}

-- The replaced child is found under the byte, every other child as before.
pub replace_lem :
    (h : Header) (ch : ℕ → Node) (c i : ℕ) (x : Node)
    → IsNode h ch
    → c < 256
    → is_null x ≡ false
    → find_child h ch c ≡ some i
    → Added h ch c x (h, update ch i x)
replace_lem h ch c i x v l p q =
    let ch' = update ch i x in
    let made = replaced h ch c i x in
    elim (Kind-cases h.kind) [
      | inl e ↦
          let v' = replace-IsArray h ch c i x p 4 (of_IsNode node4 h ch e v) in
          made (to_IsNode node4 h ch' e v') (λ b m.
            rw (find_child-node4 h ch' b e, find_child-node4 h ch b e)
              (replace_slot h ch c i x p b (sym (find_child-node4 h ch c e) ∙ q)))
      | inr (inl e) ↦
          let w = of_IsNode node16 h ch e v in
          let v' = replace-IsArray h ch c i x p 16 w in
          made (to_IsNode node16 h ch' e v') (λ b m.
            rw (find_child-node16 h ch' b e v', find_child-node16 h ch b e w)
              (replace_slot h ch c i x p b (sym (find_child-node16 h ch c e w) ∙ q)))
      | inr (inr (inl e)) ↦
          let w = of_IsNode node48 h ch e v in
          let found = sym (find_child-node48 h ch c e) ∙ q in
          let used : h.keys c ≢ 0 = ground (arith, found) in
          let at : i ≡ h.keys c - 1 = ground (arith, found) in
          made (to_IsNode node48 h ch' e (replace-IsMap h ch c i x p w l used at)) (λ b m.
            rw (find_child-node48 h ch' b e, find_child-node48 h ch b e)
              (replace_read h ch c i x p w l used at b m))
      | inr (inr (inr e)) ↦
          let found = sym (find_child-node256 h ch c e) ∙ q in
          let at : i ≡ c = ground (arith, found) in
          let here : is_null (ch c) ≡ false = ground (arith, found) in
          let same = tally-ext 256 (in_use ch') (in_use ch) (λ j _. ground (arith, p, at, here)) in
          made (to_IsNode node256 h ch' e (of_IsNode node256 h ch e v ∙ ap u8 (sym same))) (λ b m.
            rw (find_child-node256 h ch' b e, find_child-node256 h ch b e) (ground (arith, at, p)))
    ]

-- The pointer that find_child returns is not NULL.
pub find_child_filled :
    (h : Header) (ch : ℕ → Node) (c i : ℕ)
    → IsNode h ch
    → c < 256
    → find_child h ch c ≡ some i
    → is_null (ch i) ≡ false
find_child_filled h ch c i v l q = elim (Kind-cases h.kind) [
  | inl e ↦
      let w = of_IsNode node4 h ch e v in
      w.filled i (slot_keys h.num_children h.keys c i (sym (find_child-node4 h ch c e) ∙ q)).1
  | inr (inl e) ↦
      let w = of_IsNode node16 h ch e v in
      w.filled i (slot_keys h.num_children h.keys c i (sym (find_child-node16 h ch c e w) ∙ q)).1
  | inr (inr (inl e)) ↦
      let w = of_IsNode node48 h ch e v in
      let found = sym (find_child-node48 h ch c e) ∙ q in
      let at : i ≡ h.keys c - 1 = ground (arith, found) in
      ap (λ j. is_null (ch j)) at ∙ w.filled c l (ground (arith, found))
  | inr (inr (inr e)) ↦ let found = sym (find_child-node256 h ch c e) ∙ q in ground (arith, found)
]
