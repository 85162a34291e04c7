-- ===== src/Sequential/Steps.antt =====
-- src/sequential/hetero.c: insertions, updates and deletions in any order on a new index of the
-- sequential variant, against a map, by way of the index of src/hetero.c.
use hetero_indexing.Prelude.{
  ℕ, suc, ◌+◌, ◌-◌, ◌^◌, ◌<◌, ◌≡◌, refl, sym, ap, ◌∙◌, Bool, true, false, Option, none, some, ◌==◌,
  if◌then◌else◌, arith, inl, inr, Bool-cases, bit_and,
}
use mathlib.Core.Path.{subst}
use hetero_indexing.Common.{Murmur, is_special_key, mem_type, IsTreeType, u32, u64}
use hetero_indexing.Hash
use hetero_indexing.Hash.{HashSys, insert_nocheck, delete}
use hetero_indexing.Hash.Table.{view, construct-IsValid}
use hetero_indexing.Hash.Assign.{updated, replaced}
use hetero_indexing.Tree.{lookup, empty_tree}
use hetero_indexing.System.{ok}
use hetero_indexing.Index
use hetero_indexing.Index.Holds.{first_of}
use hetero_indexing.Index.Insert.{plain_positive, first_none, index_insert_table}
use hetero_indexing.Index.Change.{index_update_lem}
use hetero_indexing.Index.Remove.{removal, delete_cases}
use hetero_indexing.Index.{load_below}
use hetero_indexing.Index.Steps.{
  put, drop, some_index, tree-IsIndexOf, table-IsIndexOf, removed-IsIndexOf,
}
use hetero_indexing.Sequential.{
  SequentialSys, hash_construct, hash_insert, index_construct, index_insert, index_update,
  index_delete, index_query,
}
use hetero_indexing.Sequential.Modify.{forget}
use hetero_indexing.Sequential.Embed.{
  embed, as_is, Models, Models-forget, index_query-holds, index_update-forget, index_delete-forget,
  into_tree-forget, in_tree_too, bin_room, into_table-now,
}

-- An index of the sequential variant that index_construct gave, after insertions of new keys, into the
-- tree or into a bin of the table that has room, updates and deletions, none of special keys; and the
-- map that it should be.
pub data Made (m : Murmur) (entries : HashSys → ℕ) (rand : ℕ)
    : (ℕ → Option ℕ) → SequentialSys → Type 0 where
  constructed :
      (bits seed : ℕ) {s : SequentialSys}
      → 2 ^ bits < 2 ^ 64
      → index_construct rand (2 ^ bits) seed ≡ some s
      → Made m entries rand (λ _. none) s
  into_tree :
      {f : ℕ → Option ℕ} {s s' : SequentialSys} {done : Bool} (tries n key value storage_type : ℕ)
      → Made m entries rand f s
      → is_special_key key ≡ false
      → key < 2 ^ 64
      → IsTreeType storage_type
      → f key ≡ none
      → index_insert m entries rand tries n s key value storage_type ≡ some (s', done)
      → Made m entries rand (put f key value) s'
  into_table :
      {f : ℕ → Option ℕ} {s s' : SequentialSys} {done : Bool} (tries n key value : ℕ)
      → Made m entries rand f s
      → is_special_key key ≡ false
      → key < 2 ^ 64
      → f key ≡ none
      → s.hash.count < 2 ^ 64 - 1
      → (hash_insert m s key value).1 ≡ ok
      → index_insert m entries rand (tries + 1) n s key value mem_type ≡ some (s', done)
      → Made m entries rand (put f key value) s'
  changed :
      {f : ℕ → Option ℕ} {s : SequentialSys} (key value : ℕ)
      → Made m entries rand f s
      → is_special_key key ≡ false
      → key < 2 ^ 64
      → Made m entries rand (updated key value f) (index_update m s key value).0
  removed :
      {f : ℕ → Option ℕ} {s s' : SequentialSys} {done : Bool} (n key : ℕ)
      → Made m entries rand f s
      → is_special_key key ≡ false
      → key < 2 ^ 64
      → index_delete m entries n s key ≡ some (s', done)
      → Made m entries rand (drop f key) s'

module _ (m : Murmur) (entries : HashSys → ℕ) (rand : ℕ) where
  new-Models :
      (bits seed : ℕ) (s : SequentialSys)
      → 2 ^ bits < 2 ^ 64
      → index_construct rand (2 ^ bits) seed ≡ some s
      → Models m (λ _. none) s
  unfolding index_construct hash_construct lookup
  new-Models bits seed s l e =
      let hash = Hash.construct rand (2 ^ bits) (u32 seed) in
      let table = construct-IsValid m rand bits (u32 seed) l in
      let made : SequentialSys = record {
        has_special_key = λ _. 0;
        special_key_val = λ _. 0;
        hash = hash;
        tree = empty_tree;
      } in
      let whole : Models m (λ _. none) made = (
        record {
          table = table.0;
          tree = tt;
          plain = tt;
          unbuffered = refl;
          apart = λ k p w. inr refl;
        },
        λ k p w. ap (λ o. first_of o none) (table.1 k (plain_positive k p)),
      ) in
      elim (Bool-cases (bit_and (2 ^ bits) (u64 (2 ^ bits + 2 ^ 64 - 1)) == 0)) [
        | inr q ↦ absurd (ground (arith, e, q))
        | inl q ↦
            let built : index_construct rand (2 ^ bits) seed ≡ some made =
              rw (index_construct, hash_construct, q) refl in
            subst (Models m (λ _. none))
              (ap (λ o. (elim o [ none ↦ made | some r ↦ r ])) (sym built ∙ e)) whole
      ]

  pub Made-Models : {f : ℕ → Option ℕ} {s : SequentialSys} → Made m entries rand f s → Models m f s
  Made-Models (constructed bits seed {s} l e) = new-Models bits seed s l e
  Made-Models (into_tree {f} {s} {s'} {done} tries n key value storage_type h p w t new e) =
      let r = Index.insert_tree m as_is (embed s) key value storage_type in
      let v = Made-Models h in
      let now = into_tree-forget m entries rand tries n s key value storage_type p t in
      subst (Models m (put f key value))
        (some_index (index_insert m entries rand tries n s key value storage_type) (forget r.0) s'
          r.1 done now e)
        (Models-forget m (put f key value) r.0 (
          tree-IsIndexOf m as_is f (embed s) r.0 r.1 tries n key value storage_type v p w t new
            (in_tree_too m tries n (embed s) key value storage_type p t)))
  Made-Models (into_table {f} {s} {s'} {done} tries n key value h p w new room fits e) =
      let v = Made-Models h in
      let free = first_none (view m s.hash key) (lookup s.tree.root key 0) (v.1 key p w ∙ new) in
      let has_room = bin_room m s key value free.0 fits in
      let t : HashSys = (insert_nocheck m s.hash key value).0 in
      let more : suc tries ≡ tries + 1 = omega arith in
      let now = into_table-now m entries rand tries n s key value p free.0 has_room in
      let there =
        index_insert_table m as_is tries n (embed s) key value v.0.table p free.0 room has_room in
      let after : SequentialSys = record s { hash = t } in
      subst (Models m (put f key value))
        (some_index (index_insert m entries rand (tries + 1) n s key value mem_type) after s' true
          done (rw⁻¹ more now) e)
        (Models-forget m (put f key value) (record (embed s) { hash = t })
          (table-IsIndexOf m as_is f (embed s) (record (embed s) { hash = t }) true tries n key
            value v p w new room has_room there.0))
  Made-Models (changed {f} {s} key value h p w) =
      let v = Made-Models h in
      let r = index_update_lem m (embed s) key value v.0 p w in
      subst (Models m (updated key value f))
        (sym (ap (λ x. x.0) (index_update-forget m s key value v.0 p)))
        (Models-forget m (updated key value f) (Index.index_update m (embed s) key value).0 (
          r.0,
          λ k pk wk. r.1 k pk wk ∙ ap (λ o. if key == k then replaced o value else o) (v.1 k pk wk),
        ))
  Made-Models (removed {f} {s} {s'} {done} n key h p w e) =
      let v = Made-Models h in
      let r = removal m n (embed s) key v.0 p w in
      subst (Models m (drop f key))
        (some_index (index_delete m entries n s key) (forget r.0) s' r.1 done
          (index_delete-forget m entries n s key v.0 p w) e)
        (Models-forget m (drop f key) r.0 (
          removed-IsIndexOf m as_is f (embed s) r.0 r.1 n key v p w
            (delete_cases m n (embed s) key v.0 p w)))

  -- On an index from index_construct of the sequential variant, after any sequence of index_insert
  -- of keys that are not there, into the tree by a storage type that packs with a length of 8 and
  -- whose low three bits are not MEM_TYPE, or into a bin of the table with room, of index_update,
  -- which changes nothing for a key that is not there, and of index_delete, index_query of a 64-bit
  -- key gives what a map after the same sequence has; none of the keys is special.
  pub sequential_query-Made :
      {f : ℕ → Option ℕ} {s : SequentialSys}
      → Made m entries rand f s
      → (key : ℕ) → is_special_key key ≡ false
      → key < 2 ^ 64
      → index_query m s key ≡ f key
  sequential_query-Made {f} {s} h key p w =
      let v = Made-Models h in index_query-holds m s key v.0 p ∙ v.1 key p w
