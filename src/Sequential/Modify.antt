-- ===== src/Sequential/Modify.antt =====
-- src/sequential/hash.c: hash_modify against that of src/hash.c.
use hetero_indexing.Prelude.{
  ℕ, ◌+◌, ◌≡◌, refl, [], ◌∷◌, Bool, true, false, Option, none, some, ◌==◌, get_or, arith, inl, inr,
  ◌⊎◌, Bool-cases,
}
use hetero_indexing.Common.{Murmur}
use hetero_indexing.Sketch
use hetero_indexing.Sketch.{Sketch}
use hetero_indexing.Hash.{Bin, index_of}
use hetero_indexing.System
use hetero_indexing.System.{
  IndexSys, Mode, Scan, Status, here, away, update, insert, strict_update, strict_insert, or_else,
}
use hetero_indexing.Sequential.{SequentialSys, scan, hash_modify}

-- An index without its sketch.
abbrev pub forget : IndexSys → SequentialSys
forget s = record {
  has_special_key = s.has_special_key;
  special_key_val = s.special_key_val;
  hash = s.hash;
  tree = s.tree;
}

forget_lru : Scan → Scan
forget_lru here = here
forget_lru (away available lru) = away available none

Scan-cases : (r : Scan) → (r ≡ here) ⊎ ((a : Option ℕ) × (l : Option (ℕ × ℕ)) × (r ≡ away a l))
Scan-cases here = inl refl
Scan-cases (away a l) = inr (a, l, refl)

-- The search names no pair to sink.
pub scan-cases :
    (key j : ℕ) (available : Option ℕ) (b : Bin)
    → (scan key j available b ≡ here) ⊎ ((a : Option ℕ) × (scan key j available b ≡ away a none))
unfolding scan
scan-cases key j available [] = inr (available, refl)
scan-cases key j available (e ∷ es) = elim (Bool-cases (e.key == key)) [
  | inl q ↦ rw q (inl refl)
  | inr q ↦ rw q (scan-cases key (j + 1) _ es)
]

-- The mode in which a pair may sink.
abbrev pub may_sink : Mode → Bool
may_sink update = true
may_sink insert = false
may_sink strict_update = false
may_sink strict_insert = false

module _ (m : Murmur) where
  -- The pair to sink has no bearing on the rest of the search.
  scan-forget_lru :
      (cm : Sketch) (key min_cnt j : ℕ) (available : Option ℕ) (lru : Option (ℕ × ℕ)) (b : Bin)
      → scan key j available b ≡ forget_lru (System.scan m cm key min_cnt j available lru b)
  unfolding scan System.scan forget_lru
  scan-forget_lru cm key min_cnt j available lru [] = refl
  scan-forget_lru cm key min_cnt j available lru (e ∷ es) = elim (Bool-cases (e.key == key)) [
    | inl q ↦ rw q refl
    | inr q ↦ rw q (scan-forget_lru cm key min_cnt (j + 1) _ _ es)
  ]

  -- With a count of 0 there is none.
  scan-zero :
      (cm : Sketch) (key j : ℕ) (available : Option ℕ) (b : Bin)
      → System.scan m cm key 0 j available none b ≡ scan key j available b
  unfolding scan System.scan
  scan-zero cm key j available [] = refl
  scan-zero cm key j available (e ∷ es) = elim (Bool-cases (e.key == key)) [
    | inl q ↦ rw q refl
    | inr q ↦ rw q (scan-zero cm key (j + 1) _ es)
  ]

  -- In every mode but the one in which a pair may sink, hash_modify of the sequential variant does to
  -- the table what hash_modify does, leaves the special keys and the tree as they are there, and has
  -- the same result.
  pub hash_modify_same :
      (s : IndexSys) (key value : ℕ) (mode : Mode)
      → may_sink mode ≡ false
      → let r = System.hash_modify m s key value mode in
        hash_modify m (forget s) key value mode ≡ (forget r.0, r.1)
  unfolding hash_modify System.hash_modify forget_lru
  hash_modify_same s key value update p = absurd (ground (arith, p))
  hash_modify_same s key value insert p =
      let b = get_or s.hash.bins (index_of s.hash (m.x64_128 key s.hash.seed).1) [] in
      rw (System.hash_modify, hash_modify, scan-zero s.cm key 0 none b)
        (elim (scan-cases key 0 none b) [
          | inl e ↦ rw (hash_modify, System.hash_modify, e) refl
          | inr (none, e) ↦ rw (hash_modify, System.hash_modify, e) refl
          | inr (some i, e) ↦ rw (hash_modify, System.hash_modify, e) refl
        ])
  hash_modify_same s key value strict_insert p =
      let b = get_or s.hash.bins (index_of s.hash (m.x64_128 key s.hash.seed).1) [] in
      rw (System.hash_modify, hash_modify, scan-zero s.cm key 0 none b)
        (elim (scan-cases key 0 none b) [
          | inl e ↦ rw (hash_modify, System.hash_modify, e) refl
          | inr (none, e) ↦ rw (hash_modify, System.hash_modify, e) refl
          | inr (some i, e) ↦ rw (hash_modify, System.hash_modify, e) refl
        ])
  hash_modify_same s key value strict_update p =
      let b = get_or s.hash.bins (index_of s.hash (m.x64_128 key s.hash.seed).1) [] in
      let counted = Sketch.inc m s.cm key (some (m.x64_128 key s.hash.seed)) in
      rw (System.hash_modify, hash_modify, scan-forget_lru counted.0 key counted.1 0 none none b)
        (elim (Scan-cases (System.scan m counted.0 key counted.1 0 none none b)) [
          | inl e ↦ rw (hash_modify, System.hash_modify, e) refl
          | inr (a, l, e) ↦ rw (hash_modify, System.hash_modify, e) refl
        ])
