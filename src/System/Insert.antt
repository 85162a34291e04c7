-- ===== src/System/Insert.antt =====
-- hash_insert: hash_modify in the mode INSERT, against the table as a map.
use hetero_indexing.Prelude.{
  ℕ, suc, ◌+◌, ◌≡◌, refl, sym, ap, ◌∙◌, [], ◌∷◌, false, Option, none, some, ◌==◌, if◌then◌else◌,
  get_or, set, arith, inl, inr, Option-cases, Bool-cases,
}
use mathlib.Core.Path.{subst}
use hetero_indexing.Common.{Entry, empty_flag, Murmur}
use hetero_indexing.Sketch.{Sketch}
use hetero_indexing.Hash.{Bin, find, place, index_of, insert_nocheck}
use hetero_indexing.Hash.Table.{view, IsValid}
use hetero_indexing.Hash.Assign.{updated, assigned, assign_lem}
use hetero_indexing.System.{
  IndexSys, Status, ok, hash_bin_full, here, away, or_else, scan, hash_modify, hash_insert,
}

-- The first empty slot from slot `j` on.
abbrev first_empty : ℕ → Bin → Option ℕ
first_empty j [] = none
first_empty j (e ∷ es) =
    let rest = first_empty (j + 1) es in if e.key == empty_flag then some j else rest

or_else_assoc :
    (a : Option ℕ) (j : ℕ) (b : Option ℕ) → or_else (or_else a (some j)) b ≡ or_else a (some j)
or_else_assoc none j b = refl
or_else_assoc (some i) j b = refl

first_empty-next :
    (j : ℕ) (b : Bin)
    → first_empty (j + 1) b ≡ (elim (first_empty j b) [ none ↦ none | some i ↦ some (i + 1) ])
first_empty-next j [] = refl
first_empty-next j (e ∷ es) = elim (Bool-cases (e.key == empty_flag)) [
  | inl q ↦ rw q refl
  | inr q ↦ rw q (first_empty-next (j + 1) es)
]

module _ (m : Murmur) where
  -- With a count of 0 nothing is sunk.
  scan_absent :
      (cm : Sketch) (key j : ℕ) (available : Option ℕ) (b : Bin)
      → find key b ≡ none
      → scan m cm key 0 j available none b ≡ away (or_else available (first_empty j b)) none
  unfolding scan find
  scan_absent cm key j none [] f = refl
  scan_absent cm key j (some i) [] f = refl
  scan_absent cm key j available (e ∷ es) f =
      let other : (e.key == key) ≡ false = ground (arith, f) in
      let rest : find key es ≡ none = ground (arith, f) in
      elim (Bool-cases (e.key == empty_flag)) [
        | inr q ↦ rw (other, q) (scan_absent cm key (j + 1) available es rest)
        | inl q ↦
            rw (other, q)
              (scan_absent cm key (j + 1) (or_else available (some j)) es rest
                ∙ ap (λ t. away t none) (or_else_assoc available j (first_empty (j + 1) es)))
      ]

  pub scan_present :
      (cm : Sketch) (key min_cnt j : ℕ) (available : Option ℕ) (lru : Option (ℕ × ℕ)) (b : Bin)
      (x : ℕ)
      → find key b ≡ some x
      → scan m cm key min_cnt j available lru b ≡ here
  unfolding scan find
  scan_present cm key min_cnt j available lru [] x f = ground (arith, f)
  scan_present cm key min_cnt j available lru (e ∷ es) x f = elim (Bool-cases (e.key == key)) [
    | inl q ↦ rw q refl
    | inr q ↦ rw q (scan_present cm key min_cnt (j + 1) _ _ es x (ground (arith, f, q)))
  ]

-- Writing the first empty slot is what hash_insert_nocheck does.
place-first_empty :
    (key value : ℕ) (b : Bin)
    → place key value b ≡ (elim (first_empty 0 b) [
      | none ↦ none
      | some j ↦ some (set b j (record { key = key; value = value }))
    ])
unfolding place
place-first_empty key value [] = refl
place-first_empty key value (e ∷ es) =
    let pair : Entry = record { key = key; value = value } in
    elim (Bool-cases (e.key == empty_flag)) [
      | inl q ↦ rw q refl
      | inr q ↦
          rw (q, place-first_empty key value es, first_empty-next 0 es)
            (elim (Option-cases (first_empty 0 es)) [
              | inl o ↦ rw o refl
              | inr (i, o) ↦ let up : i + 1 ≡ suc i = omega arith in rw (o, up) refl
            ])
    ]

module _ (m : Murmur) (s : IndexSys) (key value : ℕ) where
  updated_there :
      {x : ℕ} (j : ℕ)
      → view m s.hash key ≡ some x
      → updated key value (view m s.hash) j ≡ (if key == j then some value else view m s.hash j)
  updated_there j f = elim (Bool-cases (key == j)) [
    | inr q ↦ rw q refl
    | inl q ↦
        let same : key ≡ j = ground (arith, q) in
        let here : view m s.hash j ≡ view m s.hash key = ap (view m s.hash) (sym same) in
        rw (q, here, f) refl
  ]

  -- hash_insert of a key that is not in the table does what hash_insert_nocheck does, and reports a
  -- full bin where that does; the sketch and the tree stay as they are.
  pub hash_insert_absent :
      view m s.hash key ≡ none
      → let r = insert_nocheck m s.hash key value in
        hash_insert m s key value
        ≡ (record s { hash = r.0 }, (if r.1 then ok else hash_bin_full), none)
  unfolding hash_modify insert_nocheck
  hash_insert_absent f =
      let b = get_or s.hash.bins (index_of s.hash (m.x64_128 key s.hash.seed).1) [] in
      rw
        (
          hash_modify,
          scan_absent m s.cm key 0 none b f,
          insert_nocheck,
          m.upper key s.hash.seed,
          place-first_empty key value b,
        )
        (elim (Option-cases (first_empty 0 b)) [
          | inl o ↦ rw o refl
          | inr (i, o) ↦ rw (o, m.upper key s.hash.seed) refl
        ])

  present_assigned :
      {x : ℕ} (v : IsValid m s.hash)
      → view m s.hash key ≡ some x
      → hash_insert m s key value ≡ (record s { hash = assigned m v key value }, ok, none)
  unfolding hash_modify
  present_assigned {x} v f =
      let b = get_or s.hash.bins (index_of s.hash (m.x64_128 key s.hash.seed).1) [] in
      rw (hash_modify, scan_present m s.cm key 0 0 none none b x f) refl

  -- What hash_insert promises of a key that is there: success, a valid table with the new value, every
  -- other key and the count as they were, and nothing else of the system changed.
  abbrev pub Overwrites : IndexSys × Status × Option ℕ → Type 0
  Overwrites r =
      (r.1 ≡ ok)
      × IsValid m r.0.hash
      × ((j : ℕ) → view m r.0.hash j ≡ (if key == j then some value else view m s.hash j))
      × (r.0.hash.count ≡ s.hash.count)
      × (r.0 ≡ record s { hash = r.0.hash })

  -- hash_insert of a key that a valid table has: it succeeds, the table stays valid, the key has the
  -- new value and every other key and the count what they were, and the sketch, the tree and the
  -- special keys stay as they are.
  pub hash_insert_present :
      {x : ℕ}
      → IsValid m s.hash
      → view m s.hash key ≡ some x
      → Overwrites (hash_insert m s key value)
  hash_insert_present {x} v f =
      let t = assign_lem m v key value in
      subst Overwrites (sym (present_assigned v f))
        (refl, t.0, λ j. t.1 j ∙ updated_there j f, refl, refl)
