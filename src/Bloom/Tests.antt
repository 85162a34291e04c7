-- ===== src/Bloom/Tests.antt =====
-- Runs and witnesses of the Bloom filter.
use hetero_indexing.Prelude.{ℕ, ◌+◌, ◌*◌, ◌≡◌, refl, true, false, arith, replicate}
use hetero_indexing.Common.{Murmur}
use hetero_indexing.Sketch.{Sketch}
use hetero_indexing.Bloom.{bloom_add, bloom_exists, bloom_expand, add_rounds, exists_rounds}
use hetero_indexing.Bloom.Members.{IsValid, bloom_add_lem, bloom_exists_depth}

-- A stand-in for the hash: the seed added to the key.
abbrev adding : Murmur
adding = record {
  x64_128 = λ k s. (k + s, k + 2 * s);
  x64_64 = λ k s. k + 2 * s;
  upper = λ k s. refl;
}

abbrev wide : Sketch
wide = record { width = 64; depth = 3; seed = 5; shift = 0; counts = replicate 2 0 }

wide-IsValid : IsValid wide
wide-IsValid = record { units = refl; some_bits = omega arith; word = omega arith }

bloom_add_lem_example :
    IsValid (bloom_add adding wide 40)
    × (bloom_exists adding (bloom_add adding wide 40) 40 ≡ true)
    × ((y : ℕ)
        → bloom_exists adding wide y ≡ true
        → bloom_exists adding (bloom_add adding wide 40) y ≡ true)
bloom_add_lem_example = bloom_add_lem adding wide 40 wide-IsValid

bloom_exists_depth_example :
    bloom_exists adding wide 40 ≡ bloom_exists adding (record wide { depth = 1 }) 40
bloom_exists_depth_example = bloom_exists_depth adding 2 wide 40 refl

-- A key with another bit is not found, and none is after an expansion.
missed :
    (bloom_exists adding (bloom_add adding wide 40) 41 ≡ false)
    × (bloom_exists adding (bloom_expand (bloom_add adding wide 40)) 40 ≡ false)
unfolding bloom_add bloom_exists bloom_expand add_rounds exists_rounds
missed = (refl, refl)
