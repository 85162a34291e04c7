-- ===== src/Art/Tally.antt =====
-- How many of the first indices pass a test: the children of a node256, the bytes of a node48.
use hetero_indexing.Prelude.{
  ℕ, zero, suc, ◌+◌, ◌<◌, ◌≤◌, ◌≡◌, ◌≢◌, refl, ap, ◌∙◌, Bool, true, false, arith, if◌then◌else◌,
}
use native.Mathlib.Decide.{ℕ_discrete}

unfoldable pub tally : ℕ → (ℕ → Bool) → ℕ
tally zero p = 0
tally (suc n) p = let rest = tally n p in rest + (if p n then 1 else 0)

pub tally-ext : (n : ℕ) (p q : ℕ → Bool) → ((i : ℕ) → i < n → p i ≡ q i) → tally n p ≡ tally n q
unfolding tally
tally-ext zero p q h = refl
tally-ext (suc n) p q h = rw (tally-ext n p q (λ i l. h i (omega arith)), h n (omega arith)) refl

-- One more index passes.
pub tally-suc :
    (n : ℕ) (p q : ℕ → Bool) (i : ℕ)
    → i < n
    → p i ≡ false
    → q i ≡ true
    → ((j : ℕ) → j ≢ i → p j ≡ q j)
    → tally n q ≡ tally n p + 1
unfolding tally
tally-suc zero p q i l a b h = absurd (omega arith)
tally-suc (suc n) p q i l a b h = elim (ℕ_discrete n i) [
  | yes e ↦
      let rest : tally n p ≡ tally n q = tally-ext n p q (λ j m. h j (omega arith)) in
      let at : p n ≡ false = ap p e ∙ a in
      let at' : q n ≡ true = ap q e ∙ b in rw (rest, at, at') (omega arith)
  | no ne ↦
      let rest = tally-suc n p q i (omega arith) a b h in
      let at : p n ≡ q n = h n ne in rw (rest, at) (omega arith)
]

pub tally-le : (n : ℕ) (p : ℕ → Bool) → tally n p ≤ n
unfolding tally
tally-le zero p = omega arith
tally-le (suc n) p = ground (arith, tally-le n p)
