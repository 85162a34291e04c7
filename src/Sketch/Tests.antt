-- ===== src/Sketch/Tests.antt =====
-- Runs and witnesses of the Count-Min sketch.
use hetero_indexing.Prelude.{
  ℕ, ◌+◌, ◌*◌, ◌^◌, ◌<◌, ◌≤◌, ◌≡◌, ◌≢◌, refl, List, [], ◌∷◌, none, some, arith, get_or, replicate,
}
use hetero_indexing.Common.{Murmur}
use hetero_indexing.Sketch.{
  Sketch, count_min, construct, inc, count, clear, clear_bytes, inc_rows, cell, advance, bits, ctz,
}
use hetero_indexing.Sketch.Estimate.{
  IsValid, construct_lem, inc_returns, inc_all, occurrences-le-count,
}

-- A stand-in for the hash: the seed added to the key, in both halves.
abbrev adding : Murmur
adding = record {
  x64_128 = λ k s. (k + s, k + 2 * s);
  x64_64 = λ k s. k + 2 * s;
  upper = λ k s. refl;
}

abbrev small : Sketch
small = record { width = 4; depth = 2; seed = 0; shift = 2; counts = replicate 8 0 }

small-IsValid : IsValid small
small-IsValid = omega arith

-- Keys 6 and 10 share a cell of the first row.
abbrev keys : List ℕ
keys = 6 ∷ 10 ∷ 6 ∷ []

small_counts : (inc_all adding (λ _. none) small keys).counts ≡ 0 ∷ 0 ∷ 3 ∷ 0 ∷ 0 ∷ 2 ∷ 1 ∷ 0 ∷ []
unfolding inc_all inc inc_rows cell advance bits
small_counts = refl

clear-small :
    (clear (record small { counts = replicate 8 7 })).counts ≡ 0 ∷ 0 ∷ 7 ∷ 7 ∷ 7 ∷ 7 ∷ 7 ∷ 7 ∷ []
unfolding clear clear_bytes
clear-small = refl

constructed : construct 77 4 2 5 count_min ≡ some small
unfolding construct ctz
constructed = refl

construct_lem_example :
    IsValid small
    × ((j : ℕ) → get_or small.counts j 0 ≡ 0)
    × ((small.width ≡ 4) × (small.depth ≡ 2) × (◌≢◌ {A = ℕ} 5 0 → small.seed ≡ 0))
construct_lem_example = construct_lem 77 4 2 5 (omega arith) (omega arith) (omega arith) constructed

inc_returns_example : (inc adding small 6 none).1 ≡ count adding (inc adding small 6 none).0 6 none
inc_returns_example = inc_returns adding 6 none small-IsValid

occurrences-le-count_example :
    let estimate = count adding (inc_all adding (λ _. none) small keys) 6 none in
    (2 ≤ estimate) × (estimate < 2 ^ 31)
occurrences-le-count_example =
    occurrences-le-count adding (λ _. none) 6 keys small-IsValid construct_lem_example.1
      (omega arith) (omega arith)
