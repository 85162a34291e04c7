-- ===== src/Hash/Table.antt =====
-- The table as a map from keys to values, with insertion and deletion.
use hetero_indexing.Prelude.{
  ℕ, zero, suc, ◌+◌, ◌-◌, ◌^◌, ◌≤◌, ◌<◌, ◌≡◌, ◌≢◌, refl, sym, ◌∙◌, List, [], ◌∷◌, true, false,
  Option, none, some, arith, ◌==◌, if◌then◌else◌, length, replicate, length-replicate, get_or, set,
  length-set, get_or-set, bit_and-le, Option-cases, inl, inr,
}
use hetero_indexing.Common.{Murmur, u64, bin_capacity}
use hetero_indexing.Hash.{
  Bin, HashSys, empty_bin, place, find, erase, index_of, insert_nocheck, delete, construct,
}
use hetero_indexing.Hash.Bin.{occurs, used, place_lem, erase_lem, find-eq-none_iff, place-eq-none}
use native.Mathlib.Nat.{one-le-pow}

abbrev pub total_used : List Bin → ℕ
total_used [] = 0
total_used (b ∷ bs) = used b + total_used bs

total_used-set :
    (bs : List Bin) (i : ℕ) (b : Bin)
    → i < length bs
    → total_used (set bs i b) + used (get_or bs i []) ≡ total_used bs + used b
total_used-set [] i b h = absurd (omega arith)
total_used-set (c ∷ bs) zero b h = omega arith
total_used-set (c ∷ bs) (suc i) b h = omega (arith, total_used-set bs i b (omega arith))

module _ (m : Murmur) where
  -- The bin that a search for the key reads.
  abbrev pub home : HashSys → ℕ → ℕ
  home t key = index_of t (m.x64_128 key t.seed).1

  -- The table as a map.
  abbrev pub view : HashSys → ℕ → Option ℕ
  view t key = find key (get_or t.bins (home t key) [])

  -- A table of 2 ^ bits full-size bins, each key at most once and in its home bin, and counted.
  pub record IsValid (t : HashSys) : Type 0 where
    pub bits : ℕ
    pub size_pow : t.size ≡ 2 ^ bits
    pub size_word : t.size < 2 ^ 64
    pub bins_length : length t.bins ≡ t.size
    pub widths : (i : ℕ) → i < t.size → length (get_or t.bins i []) ≡ bin_capacity
    pub once : (k i : ℕ) → k ≢ 0 → occurs k (get_or t.bins i []) ≤ 1
    pub at_home : (k i : ℕ) → k ≢ 0 → home t k ≢ i → occurs k (get_or t.bins i []) ≡ 0
    pub counted : t.count ≡ total_used t.bins
    pub count_word : t.count < 2 ^ 64

  -- `t'` is a valid table that has one pair more than `t`.
  abbrev pub Adds : HashSys → HashSys → ℕ → ℕ → Type 0
  Adds t t' key value =
      IsValid t'
      × ((j : ℕ) → j ≢ 0 → view t' j ≡ (if key == j then some value else view t j))
      × (t'.count ≡ t.count + 1)

  module _ {t : HashSys} (v : IsValid t) where
    size_pos : 0 < t.size
    size_pos = omega (arith, v.size_pow, one-le-pow v.bits 2)

    pub index_of-lt : (h : ℕ) → index_of t h < t.size
    index_of-lt h = omega (arith, size_pos, v.size_word, bit_and-le h (u64 (t.size + 2 ^ 64 - 1)))

    -- Replacing one bin by another that keeps to its keys keeps the table valid.
    pub set_bin-IsValid :
        (i n : ℕ) (b : Bin)
        → i < t.size
        → length b ≡ bin_capacity
        → ((k : ℕ) → k ≢ 0 → occurs k b ≤ 1)
        → ((k : ℕ) → k ≢ 0 → home t k ≢ i → occurs k b ≡ 0)
        → n + used (get_or t.bins i []) ≡ t.count + used b
        → n < 2 ^ 64
        → IsValid (record t { bins = set t.bins i b; count = n })
    set_bin-IsValid i n b h w one own total word = record {
      bits = v.bits;
      size_pow = v.size_pow;
      size_word = v.size_word;
      bins_length = length-set t.bins i b ∙ v.bins_length;
      widths = λ j below. rw get_or-set (ground (arith, v.widths j));
      once = λ k j plain. rw get_or-set (ground (arith, one k, v.once k j));
      at_home = λ k j plain away. rw get_or-set (ground (arith, own k, v.at_home k j));
      counted = omega (arith, total_used-set t.bins i b (omega (arith, v.bins_length)), v.counted);
      count_word = word;
    }

    pub view_after :
        (i n : ℕ) (b : Bin) (j : ℕ)
        → i < t.size
        → view (record t { bins = set t.bins i b; count = n }) j
          ≡ (if i == home t j then find j b else view t j)
    view_after i n b j h = rw get_or-set (ground (arith, v.bins_length))

    insert_nocheck_full :
        (key value : ℕ)
        → place key value (get_or t.bins (home t key) []) ≡ none
        → insert_nocheck m t key value ≡ (t, false)
    unfolding insert_nocheck
    insert_nocheck_full key value p = ground (arith, m.upper key t.seed)

    insert_nocheck_placed :
        (key value : ℕ) (b : Bin)
        → place key value (get_or t.bins (home t key) []) ≡ some b
        → insert_nocheck m t key value
          ≡ (record t { bins = set t.bins (home t key) b; count = u64 (t.count + 1) }, true)
    unfolding insert_nocheck
    insert_nocheck_placed key value b p = ground (arith, m.upper key t.seed)

    delete_missing : (key : ℕ) → view t key ≡ none → delete m t key ≡ (t, false)
    unfolding delete
    delete_missing key p = ground arith

    delete_found :
        (key x : ℕ)
        → view t key ≡ some x
        → delete m t key ≡ (
          record t {
            bins = set t.bins (home t key) (erase key (get_or t.bins (home t key) []));
            count = u64 (t.count + 2 ^ 64 - 1);
          },
          true,
        )
    unfolding delete
    delete_found key x p = ground arith

    -- On a valid table with room in its count, hash_insert_nocheck of a key that is not there adds
    -- the pair and leaves all other keys alone, or the bin of the key is full and the table stays as
    -- it is.
    pub insert_nocheck_lem :
        (key value : ℕ)
        → key ≢ 0
        → view t key ≡ none
        → t.count < 2 ^ 64 - 1
        → let (t', done) = insert_nocheck m t key value in
          if done
          then Adds t t' key value
          else ((t' ≡ t) × (used (get_or t.bins (home t key) []) ≡ bin_capacity))
    insert_nocheck_lem key value n absent room =
        let i = home t key in
        let old = get_or t.bins i [] in
        let below = index_of-lt (m.x64_128 key t.seed).1 in
        let fresh : occurs key old ≡ 0 = ground (arith, find-eq-none_iff key old) in
        elim (Option-cases (place key value old)) [
          | inl p ↦
              rw (insert_nocheck_full key value p)
                (refl, ground (arith, p, place-eq-none key value old, v.widths i below))
          | inr (b, p) ↦
              let facts = λ (j : ℕ) (plain : j ≢ 0). place_lem key value j old b n plain p fresh in
              let own = facts key n in
              rw (insert_nocheck_placed key value b p) (
                set_bin-IsValid i (u64 (t.count + 1)) b below (omega (arith, own, v.widths i below))
                    (λ k plain. ground (arith, facts k plain, v.once k i plain))
                    (λ k plain away. ground (arith, facts k plain, v.at_home k i plain away))
                    (omega (arith, own)) (omega arith),
                λ j plain.
                    view_after i (u64 (t.count + 1)) b j below ∙ ground (arith, facts j plain),
                omega arith,
              )
        ]

    -- On a valid table hash_delete removes the key if it is there and says whether it was, counts it,
    -- and leaves all other keys alone.
    pub delete_lem :
        (key : ℕ)
        → key ≢ 0
        → let (t', done) = delete m t key in
          IsValid t'
          × ((j : ℕ) → j ≢ 0 → view t' j ≡ (if key == j then none else view t j))
          × (done ≡ (elim (view t key) [ none ↦ false | some _ ↦ true ]))
          × (t'.count + (if done then 1 else 0) ≡ t.count)
    delete_lem key n =
        let i = home t key in
        let old = get_or t.bins i [] in
        let below = index_of-lt (m.x64_128 key t.seed).1 in
        elim (Option-cases (find key old)) [
          | inl p ↦
              rw (delete_missing key p, p) (v, (λ j plain. ground (arith, p)), refl, omega arith)
          | inr (x, p) ↦
              let there : occurs key old ≡ 1 =
                ground (arith, p, find-eq-none_iff key old, v.once key i n) in
              let facts = λ (j : ℕ) (plain : j ≢ 0). erase_lem key j old n plain there in
              let own = facts key n in
              let counts = total_used-set t.bins i (erase key old) (omega (arith, v.bins_length)) in
              rw (delete_found key x p, p)
                (
                  set_bin-IsValid i (u64 (t.count + 2 ^ 64 - 1)) (erase key old) below
                      (omega (arith, own, v.widths i below))
                      (λ k plain. ground (arith, facts k plain, v.once k i plain))
                      (λ k plain away. ground (arith, facts k plain, v.at_home k i plain away))
                      (omega (arith, own, counts, v.counted, v.count_word)) (omega arith),
                  λ j plain.
                      view_after i (u64 (t.count + 2 ^ 64 - 1)) (erase key old) j below
                      ∙ ground (arith, facts j plain),
                  refl,
                  omega (arith, own, counts, v.counted, v.count_word),
                )
        ]

  pub get_or_bins : (n i : ℕ) → i < n → get_or (replicate n empty_bin) i [] ≡ empty_bin
  get_or_bins zero i h = absurd (omega arith)
  get_or_bins (suc n) zero h = refl
  get_or_bins (suc n) (suc i) h = get_or_bins n i (omega arith)

  occurs_bins : (n i k : ℕ) → k ≢ 0 → occurs k (get_or (replicate n empty_bin) i []) ≡ 0
  occurs_bins zero i k p = refl
  occurs_bins (suc n) zero k p = ground arith
  occurs_bins (suc n) (suc i) k p = occurs_bins n i k p

  total_used_bins : (n : ℕ) → total_used (replicate n empty_bin) ≡ 0
  total_used_bins zero = refl
  total_used_bins (suc n) = omega (arith, total_used_bins n)

  -- hash_construct of a power of two below 2 ^ 64 gives a valid table with no pair in it.
  pub construct-IsValid :
      (rand bits seed : ℕ)
      → 2 ^ bits < 2 ^ 64
      → IsValid (construct rand (2 ^ bits) seed)
        × ((j : ℕ) → j ≢ 0 → view (construct rand (2 ^ bits) seed) j ≡ none)
  unfolding construct
  construct-IsValid rand bits seed h =
      let t = construct rand (2 ^ bits) seed in
      (
        record {
          bits = bits;
          size_pow = refl;
          size_word = h;
          bins_length = length-replicate (2 ^ bits) empty_bin;
          widths = λ i below. rw (get_or_bins (2 ^ bits) i below);
          once = λ k i p. omega (arith, occurs_bins (2 ^ bits) i k p);
          at_home = λ k i p _. occurs_bins (2 ^ bits) i k p;
          counted = sym (total_used_bins (2 ^ bits));
          count_word = omega arith;
        },
        λ j p. ground (
          arith,
          occurs_bins (2 ^ bits) (home t j) j p,
          find-eq-none_iff j (get_or t.bins (home t j) []),
        ),
      )
