-- ===== src/Index/Steps.antt =====
-- Insertions, updates and deletions in any order on a new index, against a map.
use hetero_indexing.Prelude.{
  ℕ, ◌+◌, ◌-◌, ◌^◌, ◌<◌, ◌≡◌, ◌≢◌, ◌⊎◌, refl, sym, ap, ◌∙◌, Bool, true, false, Option, none, some,
  ◌==◌, if◌then◌else◌, arith, inl, inr, Option-cases,
}
use mathlib.Core.Path.{subst}
use hetero_indexing.Common.{Entry, is_special_key, mem_type, IsTreeType, Murmur, u32}
use hetero_indexing.Sketch
use hetero_indexing.Sketch.{count_min}
use hetero_indexing.Hash
use hetero_indexing.Hash.{HashSys, insert_nocheck}
use hetero_indexing.Hash.Table.{view, construct-IsValid}
use hetero_indexing.Tree.{lookup, empty_tree, art_insert_no_replace}
use hetero_indexing.Tree.Insert.{insert_lem}
use hetero_indexing.Tree.Unbuffered.{insert-IsPlain}
use hetero_indexing.System.{IndexSys}
use hetero_indexing.Index.{
  index_update, index_construct, index_insert, index_delete, index_query, insert_tree, cm_depth,
}
use hetero_indexing.Index.Holds.{holds, first_of, index_query-holds}
use hetero_indexing.Index.Insert.{
  plain_positive, first_none, index_insert-IsTree, index_insert_table, table-Adds,
}
use hetero_indexing.Hash.Assign.{replaced, updated}
use hetero_indexing.Index.Change.{index_update_lem}
use hetero_indexing.Index.Still.{index_query-IsIndex}
use hetero_indexing.Index.Remove.{IsIndex, index_delete_lem}

abbrev pub put : (ℕ → Option ℕ) → ℕ → ℕ → ℕ → Option ℕ
put f key value k = if key == k then some value else f k

abbrev pub drop : (ℕ → Option ℕ) → ℕ → ℕ → Option ℕ
drop f key k = if key == k then none else f k

-- An index that index_construct gave, after insertions of new keys, into the tree or into a bin of
-- the table that has room, updates, queries and deletions, none of special keys; and the map that it should be.
pub data Made (m : Murmur) (expand : HashSys → HashSys) : (ℕ → Option ℕ) → IndexSys → Type 0 where
  constructed :
      (rand bits seed : ℕ) {s : IndexSys}
      → 2 ^ bits < 2 ^ 64
      → index_construct rand (2 ^ bits) seed ≡ some s
      → Made m expand (λ _. none) s
  into_tree :
      {f : ℕ → Option ℕ} {s s' : IndexSys} {done : Bool} (tries n key value storage_type : ℕ)
      → Made m expand f s
      → is_special_key key ≡ false
      → key < 2 ^ 64
      → IsTreeType storage_type
      → f key ≡ none
      → index_insert m expand tries n s key value storage_type ≡ some (s', done)
      → Made m expand (put f key value) s'
  into_table :
      {f : ℕ → Option ℕ} {s s' : IndexSys} {done : Bool} (tries n key value : ℕ)
      → Made m expand f s
      → is_special_key key ≡ false
      → key < 2 ^ 64
      → f key ≡ none
      → s.hash.count < 2 ^ 64 - 1
      → (insert_nocheck m s.hash key value).1 ≡ true
      → index_insert m expand (tries + 1) n s key value mem_type ≡ some (s', done)
      → Made m expand (put f key value) s'
  changed :
      {f : ℕ → Option ℕ} {s : IndexSys} (key value : ℕ)
      → Made m expand f s
      → is_special_key key ≡ false
      → key < 2 ^ 64
      → Made m expand (updated key value f) (index_update m s key value).0
  asked :
      {f : ℕ → Option ℕ} {s : IndexSys} (key : ℕ)
      → Made m expand f s
      → is_special_key key ≡ false
      → Made m expand f (index_query m s key).0
  removed :
      {f : ℕ → Option ℕ} {s s' : IndexSys} {done : Bool} (n key : ℕ)
      → Made m expand f s
      → is_special_key key ≡ false
      → key < 2 ^ 64
      → index_delete m n s key ≡ some (s', done)
      → Made m expand (drop f key) s'

-- What a result that is there is.
pub some_index {ℓ} :
    {A : Type ℓ} (o : Option (A × Bool)) (s s' : A) (b b' : Bool)
    → o ≡ some (s, b)
    → o ≡ some (s', b')
    → s ≡ s'
some_index o s s' b b' e e' = ap (λ x. (elim x [ none ↦ s | some r ↦ r.0 ])) (sym e ∙ e')

module _ (m : Murmur) (expand : HashSys → HashSys) where
  -- The index is well-formed and holds what the map has.
  abbrev pub IsIndexOf : (ℕ → Option ℕ) → IndexSys → Type 0
  IsIndexOf f s =
      IsIndex m s × ((k : ℕ) → is_special_key k ≡ false → k < 2 ^ 64 → holds m s k ≡ f k)

  put_none :
      (a b : Option ℕ) (c : Bool) (value : ℕ)
      → (a ≡ none) ⊎ (b ≡ none)
      → (c ≡ true → a ≡ none)
      → (a ≡ none) ⊎ ((if c then some value else b) ≡ none)
  put_none a b true value h own = inl (own refl)
  put_none a b false value h own = h

  put_none_first :
      (a b : Option ℕ) (c : Bool) (value : ℕ)
      → (a ≡ none) ⊎ (b ≡ none)
      → (c ≡ true → b ≡ none)
      → ((if c then some value else a) ≡ none) ⊎ (b ≡ none)
  put_none_first a b true value h own = inr (own refl)
  put_none_first a b false value h own = h

  at_key : (P : ℕ → Option ℕ) (key k : ℕ) → P key ≡ none → (key == k) ≡ true → P k ≡ none
  at_key P key k e q = let same : key ≡ k = ground (arith, q) in subst (λ t. P t ≡ none) same e

  new-IsIndexOf :
      (rand bits seed : ℕ) (s : IndexSys)
      → 2 ^ bits < 2 ^ 64
      → index_construct rand (2 ^ bits) seed ≡ some s
      → IsIndexOf (λ _. none) s
  unfolding index_construct lookup
  new-IsIndexOf rand bits seed s l e =
      let hash = Hash.construct rand (2 ^ bits) (u32 seed) in
      elim (Option-cases (Sketch.construct rand (u32 (2 ^ bits)) cm_depth hash.seed count_min)) [
        | inl z ↦ absurd (ground (arith, e, z))
        | inr (cm, z) ↦
            let made : IndexSys = record {
              has_special_key = λ _. 0;
              special_key_val = λ _. 0;
              cm = cm;
              hash = hash;
              tree = empty_tree;
            } in
            let whole : index_construct rand (2 ^ bits) seed ≡ some made =
              rw (index_construct, z) refl in
            let same : made ≡ s = ap (λ o. (elim o [ none ↦ made | some r ↦ r ])) (sym whole ∙ e) in
            let table = construct-IsValid m rand bits (u32 seed) l in
            subst (IsIndexOf (λ _. none)) same (
              record {
                table = table.0;
                tree = tt;
                plain = tt;
                unbuffered = refl;
                apart = λ k p w. inr refl;
              },
              λ k p w. ap (λ o. first_of o none) (table.1 k (plain_positive k p)),
            )
      ]

  pub tree-IsIndexOf :
      (f : ℕ → Option ℕ) (s s' : IndexSys) (done : Bool) (tries n key value storage_type : ℕ)
      → IsIndexOf f s
      → is_special_key key ≡ false
      → key < 2 ^ 64
      → IsTreeType storage_type
      → f key ≡ none
      → index_insert m expand tries n s key value storage_type ≡ some (s', done)
      → IsIndexOf (put f key value) s'
  unfolding insert_tree art_insert_no_replace
  tree-IsIndexOf f s s' done tries n key value storage_type (v, h) p w t new e =
      let unheld : holds m s key ≡ none = h key p w ∙ new in
      let free = (first_none (view m s.hash key) (lookup s.tree.root key 0) unheld) in
      let z = plain_positive key p in
      let pair : Entry = record { key = key; value = value } in
      let i =
        insert_lem false s.tree.root pair 0 (λ _. 0) v.tree z w (λ j l. absurd (omega arith))
          free.1 in
      let r =
        index_insert-IsTree m expand tries n s key value storage_type (λ _. 0) v.tree p w t
          unheld in
      let s'' = (insert_tree m expand s key value storage_type).0 in
      let same : s'' ≡ s' =
        some_index (index_insert m expand tries n s key value storage_type) s'' s' true done r.0
          e in
      subst (IsIndexOf (put f key value)) same (
        record {
          table = v.table;
          tree = r.1;
          plain = rw t.1 (
              insert-IsPlain false s.tree.root pair 0 (λ _. 0) v.tree v.plain z w
                (λ j l. absurd (omega arith)) free.1);
          unbuffered = rw (t.1, i.2) v.unbuffered;
          apart = λ k pk wk.
              rw (t.1, i.0.2 k (plain_positive k pk) wk)
                (put_none (view m s.hash k) (lookup s.tree.root k 0) (key == k) value
                  (v.apart k pk wk) (at_key (view m s.hash) key k free.0));
        },
        λ k pk wk. r.2 k pk wk ∙ ap (λ o. if key == k then some value else o) (h k pk wk),
      )

  adds_view :
      (s : IndexSys) (key value : ℕ)
      → IsIndex m s
      → is_special_key key ≡ false
      → view m s.hash key ≡ none
      → s.hash.count < 2 ^ 64 - 1
      → (insert_nocheck m s.hash key value).1 ≡ true
      → (k : ℕ) → k ≢ 0
      → view m (insert_nocheck m s.hash key value).0 k
        ≡ (if key == k then some value else view m s.hash k)
  adds_view s key value v p absent room fits k n =
      (table-Adds m expand s key value v.table p absent room fits).1 k n

  pub table-IsIndexOf :
      (f : ℕ → Option ℕ) (s s' : IndexSys) (done : Bool) (tries n key value : ℕ)
      → IsIndexOf f s
      → is_special_key key ≡ false
      → key < 2 ^ 64
      → f key ≡ none
      → s.hash.count < 2 ^ 64 - 1
      → (insert_nocheck m s.hash key value).1 ≡ true
      → index_insert m expand (tries + 1) n s key value mem_type ≡ some (s', done)
      → IsIndexOf (put f key value) s'
  table-IsIndexOf f s s' done tries n key value (v, h) p w new room fits e =
      let free = first_none (view m s.hash key) (lookup s.tree.root key 0) (h key p w ∙ new) in
      let r = index_insert_table m expand tries n s key value v.table p free.0 room fits in
      let t' = (insert_nocheck m s.hash key value).0 in
      let s'' : IndexSys = record s { hash = t' } in
      let same : s'' ≡ s' =
        some_index (index_insert m expand (tries + 1) n s key value mem_type) s'' s' true done r.0
          e in
      subst (IsIndexOf (put f key value)) same (
        record {
          table = r.1;
          tree = v.tree;
          plain = v.plain;
          unbuffered = v.unbuffered;
          apart = λ k pk wk.
              rw (adds_view s key value v p free.0 room fits k (plain_positive k pk)) (
                put_none_first (view m s.hash k) (lookup s.tree.root k 0) (key == k) value
                  (v.apart k pk wk) (at_key (λ j. lookup s.tree.root j 0) key k free.1));
        },
        λ k pk wk.
            r.2 k (plain_positive k pk) ∙ ap (λ o. if key == k then some value else o) (h k pk wk),
      )

  pub removed-IsIndexOf :
      (f : ℕ → Option ℕ) (s s' : IndexSys) (done : Bool) (n key : ℕ)
      → IsIndexOf f s
      → is_special_key key ≡ false
      → key < 2 ^ 64
      → index_delete m n s key ≡ some (s', done)
      → IsIndexOf (drop f key) s'
  removed-IsIndexOf f s s' done n key (v, h) p w e =
      let (r, now, gone) = index_delete_lem m n s key v p w in
      subst (IsIndexOf (drop f key)) (some_index (index_delete m n s key) r.0 s' r.1 done now e)
        (gone.0, λ k pk wk. gone.2 k pk wk ∙ ap (λ o. if key == k then none else o) (h k pk wk))

  pub Made-IsIndexOf : {f : ℕ → Option ℕ} {s : IndexSys} → Made m expand f s → IsIndexOf f s
  Made-IsIndexOf (constructed rand bits seed {s} l e) = new-IsIndexOf rand bits seed s l e
  Made-IsIndexOf (into_tree {f} {s} {s'} {done} tries n key value storage_type h p w t new e) =
      tree-IsIndexOf f s s' done tries n key value storage_type (Made-IsIndexOf h) p w t new e
  Made-IsIndexOf (into_table {f} {s} {s'} {done} tries n key value h p w new room fits e) =
      table-IsIndexOf f s s' done tries n key value (Made-IsIndexOf h) p w new room fits e
  Made-IsIndexOf (changed {f} {s} key value h p w) =
      let v = Made-IsIndexOf h in
      let r = index_update_lem m s key value v.0 p w in
      (
        r.0,
        λ k pk wk. r.1 k pk wk ∙ ap (λ o. if key == k then replaced o value else o) (v.1 k pk wk),
      )
  Made-IsIndexOf (asked {f} {s} key h p) =
      let v = Made-IsIndexOf h in
      let r = index_query-IsIndex m s key v.0 p in (r.0, λ k pk wk. r.1 k ∙ v.1 k pk wk)
  Made-IsIndexOf (removed {f} {s} {s'} {done} n key h p w e) =
      removed-IsIndexOf f s s' done n key (Made-IsIndexOf h) p w e

  -- On an index from index_construct, after any sequence of index_insert of keys that are not there,
  -- into the tree by a storage type that packs with a length of 8 and whose low three bits are not
  -- MEM_TYPE, or into a bin of the table with room, of index_update, which changes nothing for a key
  -- that is not there, of index_query and of index_delete, index_query of a 64-bit key gives what a
  -- map after the same sequence has; none of the keys is special.
  pub index_query-Made :
      {f : ℕ → Option ℕ} {s : IndexSys}
      → Made m expand f s
      → (key : ℕ) → is_special_key key ≡ false
      → key < 2 ^ 64
      → (index_query m s key).1 ≡ f key
  index_query-Made {f} {s} h key p w =
      let v = Made-IsIndexOf h in index_query-holds m s key (λ _. 0) v.0.tree p ∙ v.1 key p w
