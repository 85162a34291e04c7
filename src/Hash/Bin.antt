-- ===== src/Hash/Bin.antt =====
-- One bin: what the loops over its slots do to the entries of a key.
use hetero_indexing.Prelude.{
  ℕ, ◌+◌, ◌<◌, ◌≡◌, ◌≢◌, refl, [], ◌∷◌, none, some, arith, ◌==◌, if◌then◌else◌, length,
  Option-cases, inl, inr,
}
use hetero_indexing.Common.{empty_flag}
use hetero_indexing.Hash.{Bin, place, find, assign, erase}

-- How many slots hold the key.
abbrev pub occurs : ℕ → Bin → ℕ
occurs key [] = 0
occurs key (e ∷ es) = (if e.key == key then 1 else 0) + occurs key es

-- How many slots are in use.
abbrev pub used : Bin → ℕ
used [] = 0
used (e ∷ es) = (if e.key == empty_flag then 0 else 1) + used es

pub find-eq-none_iff :
    (k : ℕ) (b : Bin) → if (occurs k b) == 0 then (find k b ≡ none) else (find k b ≢ none)
unfolding find
find-eq-none_iff k [] = refl
find-eq-none_iff k (e ∷ es) = ground (arith, find-eq-none_iff k es)

pub place_lem :
    (key value j : ℕ) (b b' : Bin)
    → key ≢ 0
    → j ≢ 0
    → place key value b ≡ some b'
    → occurs key b ≡ 0
    → (find j b' ≡ (if key == j then some value else find j b))
      × (occurs j b' ≡ (if key == j then 1 else 0) + occurs j b)
      × (used b' ≡ used b + 1)
      × (length b' ≡ length b)
unfolding place find
place_lem key value j [] b' n m h o = ground arith
place_lem key value j (e ∷ es) b' n m h o = elim (Option-cases (place key value es)) [
  | inl p ↦ ground (arith, p)
  | inr (es', p) ↦ ground (arith, p, place_lem key value j es es')
]

pub find-assign :
    (key value j : ℕ) (b : Bin)
    → find key b ≢ none
    → find j (assign key value b) ≡ (if key == j then some value else find j b)
unfolding find assign
find-assign key value j [] h = absurd (h refl)
find-assign key value j (e ∷ es) h = ground (arith, find-assign key value j es)

pub occurs-assign : (key value j : ℕ) (b : Bin) → occurs j (assign key value b) ≡ occurs j b
unfolding assign
occurs-assign key value j [] = refl
occurs-assign key value j (e ∷ es) = ground (arith, occurs-assign key value j es)

pub erase_lem :
    (key j : ℕ) (b : Bin)
    → key ≢ 0
    → j ≢ 0
    → occurs key b ≡ 1
    → (find j (erase key b) ≡ (if key == j then none else find j b))
      × (occurs j (erase key b) + (if key == j then 1 else 0) ≡ occurs j b)
      × (used (erase key b) + 1 ≡ used b)
      × (length (erase key b) ≡ length b)
unfolding find erase
erase_lem key j [] n m o = ground arith
erase_lem key j (e ∷ es) n m o = ground (arith, erase_lem key j es, find-eq-none_iff key es)

-- Placing fails exactly where every slot is in use.
pub place-eq-none :
    (key value : ℕ) (b : Bin)
    → if used b == length b
      then (place key value b ≡ none)
      else (used b < length b) × (place key value b ≢ none)
unfolding place
place-eq-none key value [] = refl
place-eq-none key value (e ∷ es) = ground (arith, place-eq-none key value es)
