-- ===== src/Index/Remove.antt =====
-- index_delete of a key that is not special, where the tree has no buffered pairs.
use hetero_indexing.Prelude.{
  ℕ, ◌^◌, ◌<◌, ◌≡◌, ◌⊎◌, refl, sym, ap, ◌∙◌, Bool, true, false, Option, none, some, ◌==◌,
  if◌then◌else◌, arith, inl, inr, Bool-cases,
}
use mathlib.Core.Path.{subst}
use hetero_indexing.Common.{is_special_key, Murmur}
use hetero_indexing.Hash
use hetero_indexing.Hash.{HashSys}
use hetero_indexing.Hash.Table
use hetero_indexing.Hash.Table.{view, delete_lem}
use hetero_indexing.Tree.{lookup}
use hetero_indexing.Tree.Shape.{IsTree}
use hetero_indexing.Tree.Plain.{IsPlain}
use hetero_indexing.Delete.{art_delete}
use hetero_indexing.Delete.Value.{is_there, recursive_delete-lookup}
use hetero_indexing.Delete.Whole.{recursive_delete_lem}
use hetero_indexing.Delete.Moved.{unbuffered-IsPlain}
use hetero_indexing.System.{IndexSys}
use hetero_indexing.Index.{index_delete, load_below}
use hetero_indexing.Index.Holds.{holds, first_of}
use hetero_indexing.Index.Insert.{plain_positive}

-- A key that is dropped from one of two maps, where the other one does not have it.
drop_first :
    (c : Bool) (a b : Option ℕ)
    → (c ≡ true → b ≡ none)
    → first_of (if c then none else a) b ≡ (if c then none else first_of a b)
drop_first true a b h = h refl
drop_first false a b h = refl

drop_second :
    (c : Bool) (a b : Option ℕ)
    → (c ≡ true → a ≡ none)
    → first_of a (if c then none else b) ≡ (if c then none else first_of a b)
drop_second true a b h = ap (λ o. first_of o none) (h refl)
drop_second false a b h = refl

still_none : (c : Bool) (a : Option ℕ) → a ≡ none → (if c then none else a) ≡ none
still_none true a e = refl
still_none false a e = e

view_found :
    (o : Option ℕ) → (elim o [ none ↦ false | some _ ↦ true ]) ≡ true → (x : ℕ) × (o ≡ some x)
view_found none e = absurd (ground (arith, e))
view_found (some x) e = (x, refl)

view_missed : (o : Option ℕ) → (elim o [ none ↦ false | some _ ↦ true ]) ≡ false → o ≡ none
view_missed none e = refl
view_missed (some x) e = absurd (ground (arith, e))

module _ (m : Murmur) where
  -- A valid table and a well-formed tree without buffered pairs that share no key.
  pub record IsIndex (s : IndexSys) : Type 0 where
    pub table : Table.IsValid m s.hash
    pub tree : IsTree s.tree.root 0 (λ _. 0)
    pub plain : IsPlain s.tree.root
    pub unbuffered : s.tree.buffer_count ≡ 0
    pub apart :
        (k : ℕ)
        → is_special_key k ≡ false
        → k < 2 ^ 64
        → (view m s.hash k ≡ none) ⊎ (lookup s.tree.root k 0 ≡ none)

  module _ (n : ℕ) (s : IndexSys) (key : ℕ) (v : IsIndex s) (p : is_special_key key ≡ false)
      (w : key < 2 ^ 64) where
    abbrev pub found : Bool
    found = (Hash.delete m s.hash key).1

    abbrev pub removal : IndexSys × Bool
    removal =
        if found
        then (record s { hash = (Hash.delete m s.hash key).0 }, true)
        else (record s { tree = (art_delete s.tree key).0 }, (art_delete s.tree key).1)

    -- With no pair buffered there is nothing to compact.
    pub delete_cases : index_delete m n s key ≡ some removal
    unfolding index_delete
    delete_cases =
        rw (p, v.unbuffered)
          (elim (Bool-cases found) [
            | inr q ↦ rw q refl
            | inl q ↦ rw q (elim (Bool-cases (load_below (Hash.delete m s.hash key).0 3 5)) [
              | inl z ↦ rw z refl
              | inr z ↦ rw z refl
            ])
          ])

    same_key : (P : ℕ → Option ℕ) → P key ≡ none → (k : ℕ) → (key == k) ≡ true → P k ≡ none
    same_key P e k q = let same : key ≡ k = ground (arith, q) in subst (λ t. P t ≡ none) same e

    -- What a deletion leaves and says.
    abbrev pub Removes : IndexSys × Bool → Type 0
    Removes r =
        IsIndex r.0
        × (r.1 ≡ is_there (holds m s key))
        × ((k : ℕ)
            → is_special_key k ≡ false
            → k < 2 ^ 64
            → holds m r.0 k ≡ (if key == k then none else holds m s k))

    from_table : found ≡ true → Removes (record s { hash = (Hash.delete m s.hash key).0 }, true)
    from_table q =
        let t = delete_lem m v.table key (plain_positive key p) in
        let (x, e) = view_found (view m s.hash key) (sym t.2 ∙ q) in
        let gone : lookup s.tree.root key 0 ≡ none = elim (v.apart key p w) [
          | inl z ↦ absurd (ground (arith, e, z))
          | inr z ↦ z
        ] in
        (
          record {
            table = t.0;
            tree = v.tree;
            plain = v.plain;
            unbuffered = v.unbuffered;
            apart = λ k pk wk. elim (v.apart k pk wk) [
              | inl z ↦
                  inl (t.1 k (plain_positive k pk) ∙ still_none (key == k) (view m s.hash k) z)
              | inr z ↦ inr z
            ];
          },
          rw e refl,
          λ k pk wk.
              ap (λ o. first_of o (lookup s.tree.root k 0)) (t.1 k (plain_positive k pk))
              ∙ drop_first (key == k) (view m s.hash k) (lookup s.tree.root k 0)
                  (same_key (λ t. lookup s.tree.root t 0) gone k),
        )

    from_tree :
        found ≡ false
        → Removes (record s { tree = (art_delete s.tree key).0 }, (art_delete s.tree key).1)
    unfolding art_delete
    from_tree q =
        let z = plain_positive key p in
        let t = delete_lem m v.table key z in
        let missed = view_missed (view m s.hash key) (sym t.2 ∙ q) in
        let r = recursive_delete_lem s.tree.root key 0 (λ _. 0) v.tree v.plain z in
        let none_moved = unbuffered-IsPlain s.tree.root key 0 v.plain z in
        let after = λ (k : ℕ) (pk : is_special_key k ≡ false) (wk : k < 2 ^ 64).
          r.0.1 k (plain_positive k pk) wk in
        (
          record {
            table = v.table;
            tree = r.0.0;
            plain = r.1;
            unbuffered = omega (arith, none_moved, v.unbuffered);
            apart = λ k pk wk. elim (v.apart k pk wk) [
              | inl y ↦ inl y
              | inr y ↦ inr (after k pk wk ∙ still_none (key == k) (lookup s.tree.root k 0) y)
            ];
          },
          recursive_delete-lookup s.tree.root key 0 ∙ rw missed refl,
          λ k pk wk.
              ap (first_of (view m s.hash k)) (after k pk wk)
              ∙ drop_second (key == k) (view m s.hash k) (lookup s.tree.root k 0)
                  (same_key (view m s.hash) missed k),
        )

    -- index_delete of a 64-bit key that is not special, on an index whose tree has no buffered pairs
    -- and that has no key in both its table and its tree: it returns such an index, which holds nothing
    -- under the key and what it held under every other key, and it says whether the key was held.
    pub index_delete_lem : (r : IndexSys × Bool) × (index_delete m n s key ≡ some r) × Removes r
    index_delete_lem = (
      removal,
      delete_cases,
      elim (Bool-cases found) [ inl q ↦ rw q (from_table q) | inr q ↦ rw q (from_tree q) ],
    )
