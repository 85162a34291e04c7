-- ===== src/Hash/Reinsert.antt =====
-- src/hash.c: the size of the table that hash_expand_reinsert fills, and of its bins.
use hetero_indexing.Prelude.{
  ℕ, ◌*◌, ◌<◌, ◌≡◌, refl, ap, List, [], ◌∷◌, some, ◌==◌, get_or, get_or-set, length, arith, inl,
  inr, Bool-cases, Option-cases,
}
use hetero_indexing.Common.{Murmur, bin_capacity, empty_flag, u64}
use hetero_indexing.Hash.Table.{get_or_bins}
use hetero_indexing.Hash.{
  Bin, HashSys, construct, place, index, insert_nocheck_nosafe, reinsert_bin, reinsert_bins,
  expand_reinsert,
}

length-place : (key value : ℕ) (b b' : Bin) → place key value b ≡ some b' → length b' ≡ length b
unfolding place
length-place key value [] b' p = absurd (ground (arith, p))
length-place key value (e ∷ es) b' p = elim (Option-cases (place key value es)) [
  | inl o ↦ ground (arith, p, o)
  | inr (es', o) ↦ ground (arith, p, o, length-place key value es es' o)
]

-- Bins of full size.
abbrev pub Wide : HashSys → Type 0
Wide t = (i : ℕ) → i < t.size → length (get_or t.bins i []) ≡ bin_capacity

-- A table of that size with full-size bins.
abbrev pub IsWide : ℕ → HashSys → Type 0
IsWide size t = (t.size ≡ size) × Wide t

module _ (m : Murmur) where
  insert_nocheck_nosafe-IsWide :
      (size : ℕ) (t : HashSys) (key value : ℕ)
      → IsWide size t
      → IsWide size (insert_nocheck_nosafe m t key value).0
  unfolding insert_nocheck_nosafe
  insert_nocheck_nosafe-IsWide size t key value w =
      let i = index m t key in
      let old = get_or t.bins i [] in
      elim (Option-cases (place key value old)) [
        | inl o ↦ rw (insert_nocheck_nosafe, o) w
        | inr (b, o) ↦
            let same = length-place key value old b o in
            rw (insert_nocheck_nosafe, o)
              (w.0, λ j l. rw get_or-set (ground (arith, same, w.1 j l)))
      ]

  reinsert_bin-IsWide :
      (size : ℕ) (t : HashSys) (b : Bin) → IsWide size t → IsWide size (reinsert_bin m t b)
  unfolding reinsert_bin
  reinsert_bin-IsWide size t [] w = w
  reinsert_bin-IsWide size t (e ∷ es) w = elim (Bool-cases (e.key == empty_flag)) [
    | inl q ↦ rw (reinsert_bin, q) (reinsert_bin-IsWide size t es w)
    | inr q ↦
        rw (reinsert_bin, q)
          (reinsert_bin-IsWide size (insert_nocheck_nosafe m t e.key e.value).0 es
            (insert_nocheck_nosafe-IsWide size t e.key e.value w))
  ]

  reinsert_bins-IsWide :
      (size : ℕ) (t : HashSys) (bs : List Bin) → IsWide size t → IsWide size (reinsert_bins m t bs)
  unfolding reinsert_bins
  reinsert_bins-IsWide size t [] w = w
  reinsert_bins-IsWide size t (b ∷ bs) w =
      reinsert_bins-IsWide size (reinsert_bin m t b) bs (reinsert_bin-IsWide size t b w)

  pub expand_reinsert-IsWide :
      (rand : ℕ) (t : HashSys) → IsWide (u64 (t.size * 2)) (expand_reinsert m rand t)
  unfolding expand_reinsert construct
  expand_reinsert-IsWide rand t =
      reinsert_bins-IsWide (u64 (t.size * 2)) (construct rand (u64 (t.size * 2)) t.seed) t.bins
        (refl, λ i l. ap length (get_or_bins m (u64 (t.size * 2)) i l))
