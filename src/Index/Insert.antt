-- ===== src/Index/Insert.antt =====
-- index_insert of a key that the index does not hold.
use hetero_indexing.Prelude.{
  ℕ, suc, ◌+◌, ◌-◌, ◌^◌, ◌<◌, ◌≡◌, ◌≢◌, refl, ap, ◌∙◌, Bool, true, false, Option, none, some, ◌==◌,
  if◌then◌else◌, arith, inl, inr, Bool-cases, get_or, [],
}
use mathlib.Core.Path.{subst}
use hetero_indexing.Common.{
  bin_capacity, is_special_key, mem_type, is_mem_type, IsTreeType, Murmur, Entry, u64,
}
use hetero_indexing.Hash.{HashSys, insert_nocheck}
use hetero_indexing.Hash.Bin
use hetero_indexing.Hash.Table
use hetero_indexing.Hash.Table.{view, Adds, insert_nocheck_lem}
use hetero_indexing.Tree.{lookup, insert, art_insert_no_replace}
use hetero_indexing.Tree.Shape.{IsTree}
use hetero_indexing.Tree.Insert.{insert_lem}
use hetero_indexing.System.{IndexSys}
use hetero_indexing.System.Insert.{hash_insert_absent}
use hetero_indexing.Index.{index_insert, insert_tree, index_size, reinsert}
use hetero_indexing.Index.Holds.{holds, first_of}

pub plain_positive : (key : ℕ) → is_special_key key ≡ false → key ≢ 0
plain_positive key p z = ground (arith, p, z)

pub first_none : (a b : Option ℕ) → first_of a b ≡ none → (a ≡ none) × (b ≡ none)
first_none none b e = (refl, e)
first_none (some x) b e = absurd (ground (arith, e))

pub IsTreeType-ne : (t : ℕ) → IsTreeType t → (t == mem_type) ≡ false
IsTreeType-ne t h = elim (Bool-cases (t == mem_type)) [
  | inr q ↦ q
  | inl q ↦
      let one : t ≡ mem_type = ground (arith, q) in
      absurd (ground (arith, subst (λ k. is_mem_type k ≡ false) one h.1))
]

first_over :
    (c : Bool) (value : ℕ) (a b : Option ℕ)
    → first_of (if c then some value else a) b ≡ (if c then some value else first_of a b)
first_over true value a b = refl
first_over false value a b = refl

-- A pair that is new to the second map is new to both where the first one does not hold its key.
first_add :
    (a : ℕ → Option ℕ) (key k value : ℕ) (b b' : Option ℕ)
    → a key ≡ none
    → b' ≡ (if key == k then some value else b)
    → first_of (a k) b' ≡ (if key == k then some value else first_of (a k) b)
first_add a key k value b b' e q = elim (Bool-cases (key == k)) [
  | inl c ↦ let here : a k ≡ none = ap a (ground (arith, c)) ∙ e in rw (q, here, c) refl
  | inr c ↦ rw (q, c) refl
]

module _ (m : Murmur) (expand : HashSys → HashSys) where
  -- What the index holds after a pair came in.
  abbrev pub Holds : IndexSys → IndexSys → ℕ → ℕ → Type 0
  Holds s s' key value =
      (k : ℕ)
      → is_special_key k ≡ false
      → k < 2 ^ 64
      → holds m s' k ≡ (if key == k then some value else holds m s k)

  -- index_insert of a 64-bit key that is not special and that the index does not hold, for a storage
  -- type that packs with a length of 8 and whose low three bits are not MEM_TYPE, succeeds: the tree
  -- stays well-formed, the index holds the pair and what it held before, and its size is one more.
  pub index_insert-IsTree :
      (tries n : ℕ) (s : IndexSys) (key value storage_type : ℕ) (path : ℕ → ℕ)
      → IsTree s.tree.root 0 path
      → is_special_key key ≡ false
      → key < 2 ^ 64
      → IsTreeType storage_type
      → holds m s key ≡ none
      → let s' = (insert_tree m expand s key value storage_type).0 in
        (index_insert m expand tries n s key value storage_type ≡ some (s', true))
        × IsTree s'.tree.root 0 path
        × Holds s s' key value
        × (index_size s' ≡ u64 (index_size s + 1))
  unfolding index_insert insert_tree art_insert_no_replace index_size
  index_insert-IsTree tries n s key value storage_type path v p w t new =
      let e : Entry = record { key = key; value = value } in
      let (absent, free) = first_none (view m s.hash key) (lookup s.tree.root key 0) new in
      let r =
        insert_lem false s.tree.root e 0 path v (plain_positive key p) w
          (λ i l. absurd (omega arith)) free in
      rw (p, IsTreeType-ne storage_type t, t.1, r.1, r.3)
        (
          refl,
          r.0.0,
          λ k p' w'.
              first_add (view m s.hash) key k value (lookup s.tree.root k 0)
                (lookup (insert false false s.tree.root e 0).node k 0) absent
                (r.0.2 k (plain_positive k p') w'),
          omega arith,
        )

  reinsert-now :
      (tries n : ℕ) (s : IndexSys) (key value : ℕ)
      → view m s.hash key ≡ none
      → (insert_nocheck m s.hash key value).1 ≡ true
      → reinsert m expand (suc tries) n s key value
        ≡ some (record s { hash = (insert_nocheck m s.hash key value).0 }, true)
  unfolding reinsert
  reinsert-now tries n s key value absent done =
      let e = hash_insert_absent m s key value absent in
      rw (reinsert, e, done) (ap (λ r. some (r.0, true)) e)

  pub table-Adds :
      (s : IndexSys) (key value : ℕ)
      → Table.IsValid m s.hash
      → is_special_key key ≡ false
      → view m s.hash key ≡ none
      → s.hash.count < 2 ^ 64 - 1
      → (insert_nocheck m s.hash key value).1 ≡ true
      → Adds m s.hash (insert_nocheck m s.hash key value).0 key value
  table-Adds s key value v p absent room done =
      subst
        (λ b.
          if b
          then Adds m s.hash (insert_nocheck m s.hash key value).0 key value
          else ((insert_nocheck m s.hash key value).0 ≡ s.hash)
            × (Bin.used (get_or s.hash.bins (Table.home m s.hash key) []) ≡ bin_capacity))
        done (insert_nocheck_lem m v key value (plain_positive key p) absent room)

  -- index_insert of a key of MEM_TYPE that the table does not hold and for which its bin has room
  -- succeeds at once: the pair goes to a valid table, and the tree stays as it is.
  pub index_insert_table :
      (tries n : ℕ) (s : IndexSys) (key value : ℕ)
      → Table.IsValid m s.hash
      → is_special_key key ≡ false
      → view m s.hash key ≡ none
      → s.hash.count < 2 ^ 64 - 1
      → (insert_nocheck m s.hash key value).1 ≡ true
      → let s' : IndexSys = record s { hash = (insert_nocheck m s.hash key value).0 } in
        (index_insert m expand (tries + 1) n s key value mem_type ≡ some (s', true))
        × Table.IsValid m s'.hash
        × ((k : ℕ) → k ≢ 0 → holds m s' k ≡ (if key == k then some value else holds m s k))
        × (index_size s' ≡ u64 (index_size s + 1))
  unfolding index_insert index_size
  index_insert_table tries n s key value v p absent room done =
      let more : tries + 1 ≡ suc tries = omega arith in
      let adds = table-Adds s key value v p absent room done in
      rw (p, more, reinsert-now tries n s key value absent done)
        (
          refl,
          adds.0,
          λ k z.
              ap (λ a. first_of a (lookup s.tree.root k 0)) (adds.1 k z)
              ∙ first_over (key == k) value (view m s.hash k) (lookup s.tree.root k 0),
          omega (arith, adds.2),
        )
