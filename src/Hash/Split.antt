-- ===== src/Hash/Split.antt =====
-- hash_expand_copy on one bin: what stays, and what the upper bin gets.
use hetero_indexing.Prelude.{
  ℕ, zero, suc, ◌+◌, ◌≤◌, ◌<◌, ◌≡◌, ◌≢◌, refl, ap, [], ◌∷◌, true, Option, none, some, arith, ◌==◌,
  if◌then◌else◌, length, get_or, set, length-set, get_or-replicate, Bool-cases, inl, inr,
}
use native.Mathlib.Decide.{ℕ_discrete}
use hetero_indexing.Common.{Entry, Murmur, bin_capacity}
use hetero_indexing.Hash.{Bin, HashSys, empty_entry, empty_bin, find, moves, split}
use hetero_indexing.Hash.Bin.{occurs, used}

-- The slots from `k` on are free.
abbrev Free : ℕ → Bin → Type 0
Free k b = (i : ℕ) → k ≤ i → (get_or b i empty_entry).key ≡ 0

Free-find :
    (b : Bin) (j : ℕ) → Free 0 b → j ≢ 0 → (find j b ≡ none) × (occurs j b ≡ 0) × (used b ≡ 0)
unfolding find
Free-find [] j h n = (refl, refl, refl)
Free-find (e ∷ es) j h n = ground (arith, h 0, Free-find es j (λ i _. h (suc i) (omega arith)))

abbrev or_else : Option ℕ → Option ℕ → Option ℕ
or_else none y = y
or_else (some x) y = some x

-- A write to the first free slot is found behind all that was there.
set-Free :
    (b : Bin) (k j : ℕ) (e : Entry)
    → Free k b
    → k < length b
    → e.key ≢ 0
    → j ≢ 0
    → (find j (set b k e) ≡ or_else (find j b) (if e.key == j then some e.value else none))
      × (occurs j (set b k e) ≡ occurs j b + (if e.key == j then 1 else 0))
      × (used (set b k e) ≡ used b + 1)
unfolding find
set-Free [] k j e h l p n = absurd (omega arith)
set-Free (x ∷ b) zero j e h l p n =
    ground (arith, h 0, Free-find b j (λ i _. h (suc i) (omega arith)))
set-Free (x ∷ b) (suc k) j e h l p n =
    ground (arith, set-Free b k j e (λ i g. h (suc i) (omega arith)) (omega arith))

Free-set : (b : Bin) (k : ℕ) (e : Entry) → Free k b → Free (k + 1) (set b k e)
Free-set [] k e h i g = refl
Free-set (x ∷ b) zero e h zero g = absurd (omega arith)
Free-set (x ∷ b) zero e h (suc i) g = h (suc i) (omega arith)
Free-set (x ∷ b) (suc k) e h zero g = absurd (omega arith)
Free-set (x ∷ b) (suc k) e h (suc i) g =
    Free-set b k e (λ i' g'. h (suc i') (omega arith)) i (omega arith)

module _ (m : Murmur) (t : HashSys) where
  -- A free slot does not move.
  moves-ne-zero : (key : ℕ) → moves m t key ≡ true → key ≢ 0
  unfolding moves
  moves-ne-zero key h = ground arith

  -- What is left of a bin: the keys that do not move.
  pub split_lower :
      (j : ℕ) (es : Bin) (k : ℕ) (up : Bin)
      → j ≢ 0
      → let low = (split m t es k up).0 in
        (find j low ≡ (if moves m t j then none else find j es))
        × (occurs j low ≡ (if moves m t j then 0 else occurs j es))
        × (length low ≡ length es)
  unfolding split find
  split_lower j [] k up n = ground arith
  split_lower j (e ∷ es) k up n = elim (Bool-cases (moves m t e.key)) [
    | inl p ↦
        let ih = split_lower j es (k + 1) (set up k e) n in
        rw p (elim (ℕ_discrete e.key j) [
          | yes q ↦ ground (arith, ih, q, p, ap (moves m t) q)
          | no q ↦ ground (arith, ih, q, p)
        ])
    | inr p ↦
        let ih = split_lower j es k up n in
        rw p (elim (ℕ_discrete e.key j) [
          | yes q ↦ ground (arith, ih, q, p, ap (moves m t) q)
          | no q ↦ ground (arith, ih, q, p)
        ])
  ]

  -- The bin of the upper half gets the keys that move, in the same order.
  pub split_upper :
      (j : ℕ) (es : Bin) (k : ℕ) (up : Bin)
      → j ≢ 0
      → Free k up
      → k + length es ≤ length up
      → let (low, u) = split m t es k up in
        (find j u ≡ or_else (find j up) (if moves m t j then find j es else none))
        × (occurs j u ≡ occurs j up + (if moves m t j then occurs j es else 0))
        × (length u ≡ length up)
        × (used low + used u ≡ used es + used up)
  unfolding split find
  split_upper j [] k up n f l = ground arith
  split_upper j (e ∷ es) k up n f l = elim (Bool-cases (moves m t e.key)) [
    | inl p ↦
        let plain = moves-ne-zero e.key p in
        let here = set-Free up k j e f (omega arith) plain n in
        let width = length-set up k e in
        let ih =
          split_upper j es (k + 1) (set up k e) n (Free-set up k e f) (omega (arith, width)) in
        rw p (elim (ℕ_discrete e.key j) [
          | yes q ↦ ground (arith, ih, here, width, plain, q, p, ap (moves m t) q)
          | no q ↦ ground (arith, ih, here, width, plain, q, p)
        ])
    | inr p ↦
        let ih = split_upper j es k up n f (omega arith) in
        rw p (elim (ℕ_discrete e.key j) [
          | yes q ↦ ground (arith, ih, q, p, ap (moves m t) q)
          | no q ↦ ground (arith, ih, q, p)
        ])
  ]

  -- The loop over one full-size bin, from an upper bin with every slot free.
  pub split_bin :
      (j : ℕ) (es : Bin)
      → j ≢ 0
      → length es ≡ bin_capacity
      → let (low, u) = split m t es 0 empty_bin in
        (find j u ≡ (if moves m t j then find j es else none))
        × (occurs j u ≡ (if moves m t j then occurs j es else 0))
        × (length u ≡ bin_capacity)
        × (used low + used u ≡ used es)
  unfolding find
  split_bin j es n l = ground (
    arith,
    split_upper j es 0 empty_bin n
        (λ i _. ap (λ (e : Entry). e.key) (get_or-replicate bin_capacity i empty_entry))
        (omega arith),
  )
