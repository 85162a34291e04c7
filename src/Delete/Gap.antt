-- ===== src/Delete/Gap.antt =====
-- A node4 or node16 without one of its children.
use hetero_indexing.Prelude.{
  ℕ, ◌+◌, ◌-◌, ◌≤◌, ◌≡◌, ◌≢◌, some, arith, ◌==◌, if◌then◌else◌, Option-cases, inl, inr,
}
use native.Mathlib.Decide.{ℕ_discrete, dec_lt}
use hetero_indexing.Art.{Header, Node, null}
use hetero_indexing.Art.Slots.{
  slot, slot_keys, slot_away, slot-eq, slot-eq-none, Distinct, child_in,
}
use hetero_indexing.Art.Shape.{IsArray}
use hetero_indexing.Delete.{shift_down, close_gap}

module _ (n : ℕ) (keys : ℕ → ℕ) (ch : ℕ → Node) (pos c : ℕ) (d : Distinct n keys)
    (at : slot n keys c ≡ some pos) where
  abbrev keys' : ℕ → ℕ
  keys' = shift_down keys pos n

  close-Distinct : Distinct (n - 1) keys'
  close-Distinct i j h k e =
      ground (arith, d i j, d (i + 1) j, d i (j + 1), d (i + 1) (j + 1), e, h, k)

  close_reads :
      (b : ℕ)
      → child_in (slot (n - 1) keys' b) (shift_down ch pos n)
        ≡ (if b == c then null else child_in (slot n keys b) ch)
  close_reads b =
      let here = slot_keys n keys c pos at in
      let hit = λ (k : ℕ). slot-eq (n - 1) keys' b k close-Distinct in
      elim (ℕ_discrete b c) [
        | yes e ↦
            rw
              (slot-eq-none (n - 1) keys' b
                (λ k l. ground (arith, here, e, l, d k pos, d (k + 1) pos)))
              (ground (arith, e))
        | no ne ↦ elim (Option-cases (slot n keys b)) [
          | inr (i, q) ↦
              let (e, l) = slot_keys n keys b i q in
              elim (dec_lt i pos) [
                | yes p ↦
                    rw (hit i (omega (arith, here)) (ground (arith, e, p)), q)
                      (ground (arith, ne, p))
                | no p ↦
                    let off : i ≢ pos = ground (arith, e, here, ne) in
                    let back : i - 1 + 1 ≡ i = omega (arith, p, off) in
                    rw (hit (i - 1) (omega (arith, p, off)) (ground (arith, e, p, off, l, back)), q)
                      (ground (arith, ne, p, off, l, back))
              ]
          | inl q ↦
              let away = slot_away n keys b q in
              rw (slot-eq-none (n - 1) keys' b (λ k l. ground (arith, l, away k, away (k + 1))), q)
                (ground (arith, ne))
        ]
      ]

-- The array that close_gap leaves.
module _ (cap : ℕ) (small : cap ≤ 16) (h : Header) (ch : ℕ → Node) (pos c : ℕ)
    (v : IsArray cap h ch) (at : slot h.num_children h.keys c ≡ some pos) where
  pub gap_count : (close_gap h pos).num_children ≡ h.num_children - 1
  gap_count = omega (arith, v.fits, slot_keys h.num_children h.keys c pos at)

  pub gap-IsArray : IsArray cap (close_gap h pos) (shift_down ch pos h.num_children)
  gap-IsArray =
      let here = slot_keys h.num_children h.keys c pos at in
      let d = close-Distinct h.num_children h.keys ch pos c v.distinct at in
      record {
        fits = omega (arith, gap_count, v.fits);
        distinct = λ i j l m e. d i j (omega (arith, gap_count)) (omega (arith, gap_count)) e;
        bytes = λ i l. ground (arith, gap_count, l, v.bytes i, v.bytes (i + 1));
        filled = λ i l. ground (arith, gap_count, l, v.filled i, v.filled (i + 1));
      }

  pub gap_reads :
      (b : ℕ)
      → child_in
          (slot (close_gap h pos).num_children (close_gap h pos).keys b)
          (shift_down ch pos h.num_children)
        ≡ (if b == c then null else child_in (slot h.num_children h.keys b) ch)
  gap_reads b = rw gap_count (close_reads h.num_children h.keys ch pos c v.distinct at b)
