-- ===== src/Hash/Tests.antt =====
-- Runs and witnesses of the table.
use hetero_indexing.Prelude.{
  ℕ, ◌+◌, ◌*◌, ◌≡◌, ◌≢◌, refl, true, false, none, some, arith, if◌then◌else◌, ◌==◌,
}
use hetero_indexing.Common.{Murmur}
use hetero_indexing.Hash.{
  HashSys, construct, insert_nocheck, delete, expand_copy, expand_reinsert, find, place, split,
  moves, insert_nocheck_nosafe, reinsert_bin, reinsert_bins,
}
use hetero_indexing.Hash.Table.{
  IsValid, Adds, view, construct-IsValid, insert_nocheck_lem, delete_lem,
}
use hetero_indexing.Hash.Expand.{expand_copy_lem}

-- A stand-in for the hash: the key is its own upper word.
abbrev identity : Murmur
identity = record { x64_128 = λ k s. (s, k); x64_64 = λ k s. k; upper = λ k s. refl }

abbrev fresh : HashSys
fresh = construct 0 2 9

construct-IsValid_example :
    IsValid identity fresh × ((j : ℕ) → j ≢ 0 → view identity fresh j ≡ none)
construct-IsValid_example = construct-IsValid identity 0 1 9 (omega arith)

abbrev one : HashSys
one = (insert_nocheck identity fresh 7 70).0

placed : (insert_nocheck identity fresh 7 70).1 ≡ true
unfolding insert_nocheck construct place
placed = refl

insert_nocheck_lem_example : Adds identity fresh one 7 70
unfolding insert_nocheck construct place
insert_nocheck_lem_example =
    insert_nocheck_lem identity construct-IsValid_example.0 7 70 (omega arith)
      (construct-IsValid_example.1 7 (omega arith)) (omega arith)

delete_lem_example :
    let (t', done) = delete identity one 7 in
    IsValid identity t'
    × ((j : ℕ) → j ≢ 0 → view identity t' j ≡ (if 7 == j then none else view identity one j))
    × (done ≡ (elim (view identity one 7) [ none ↦ false | some _ ↦ true ]))
    × (t'.count + (if done then 1 else 0) ≡ one.count)
delete_lem_example = delete_lem identity insert_nocheck_lem_example.0 7 (omega arith)

expand_copy_lem_example :
    let wide = expand_copy identity 0 one in
    IsValid identity wide
    × ((j : ℕ) → j ≢ 0 → view identity wide j ≡ view identity one j)
    × (wide.size ≡ one.size * 2)
    × (wide.count ≡ one.count)
unfolding insert_nocheck construct place
expand_copy_lem_example =
    expand_copy_lem identity insert_nocheck_lem_example.0 0 (omega arith) (omega arith)

-- Key 7 moves to the upper half; both ways to expand find it there.
moved :
    (view identity (expand_copy identity 0 one) 7 ≡ some 70)
    × (view identity (expand_reinsert identity 0 one) 7 ≡ some 70)
unfolding insert_nocheck construct place expand_copy split moves find expand_reinsert reinsert_bins
    reinsert_bin insert_nocheck_nosafe
moved = (refl, refl)
