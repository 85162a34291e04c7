-- ===== src/Sequential/Embed.antt =====
-- src/sequential/hetero.c: the operations of the index against those of src/hetero.c, on an index
-- whose tree has no buffered pairs.
use hetero_indexing.Prelude.{
  ℕ, suc, ◌^◌, ◌<◌, ◌≡◌, refl, sym, ap, ◌∙◌, Bool, true, false, Option, none, some, if◌then◌else◌,
  arith, inl, inr, [], ltb, ◌*◌, Bool-cases, Option-cases,
}
use hetero_indexing.Common.{Murmur, is_special_key, mem_type, IsTreeType, u64}
use hetero_indexing.Sketch.{Sketch}
use hetero_indexing.Hash.{HashSys, insert_nocheck, delete}
use hetero_indexing.Hash.Table.{view}
use hetero_indexing.System.{
  IndexSys, Status, ok, hash_bin_full, element_not_found, element_already_exists, strict_update,
  insert,
}
use hetero_indexing.System.Insert.{hash_insert_absent}
use hetero_indexing.Index
use hetero_indexing.Index.Holds.{holds}
use hetero_indexing.Index.Insert.{plain_positive, IsTreeType-ne}
use hetero_indexing.Index.Change.{
  hash_update_present, hash_update_absent, index_update-finish, finish, counted,
}
use hetero_indexing.Float
use hetero_indexing.Float.Update.{seek_lem}
use hetero_indexing.Index.Remove.{IsIndex, removal}
use hetero_indexing.Index.{load_below}
use hetero_indexing.Index.Steps.{IsIndexOf}
use hetero_indexing.Sequential.{
  SequentialSys, hash_insert, hash_query, hash_update, art_update, index_insert, index_update,
  index_delete, index_query, insert_tree, reinsert,
}
use hetero_indexing.Sequential.Modify.{forget, hash_modify_same}
use hetero_indexing.Sequential.Search.{art_search-lookup, art_update-seek}

-- A system of the sequential variant as one with a sketch.
abbrev pub embed : SequentialSys → IndexSys
embed s = record {
  has_special_key = s.has_special_key;
  special_key_val = s.special_key_val;
  cm = record { width = 0; depth = 0; seed = 0; shift = 0; counts = [] };
  hash = s.hash;
  tree = s.tree;
}

-- An expansion of the table that is not called.
abbrev pub as_is : HashSys → HashSys
as_is t = t

ok_if : (b : Bool) → (if b then ok else hash_bin_full) ≡ ok → b ≡ true
ok_if true e = refl
ok_if false e = absurd (ground (arith, e))

module _ (m : Murmur) where
  -- What an index has without its sketch.
  abbrev pub Models : (ℕ → Option ℕ) → SequentialSys → Type 0
  Models f s = IsIndexOf m as_is f (embed s)

  pub Models-forget :
      (f : ℕ → Option ℕ) (s : IndexSys) → IsIndexOf m as_is f s → Models f (forget s)
  Models-forget f s (v, h) = (
    record {
      table = v.table;
      tree = v.tree;
      plain = v.plain;
      unbuffered = v.unbuffered;
      apart = v.apart;
    },
    h,
  )

  -- A query gives what the index holds.
  pub index_query-holds :
      (s : SequentialSys) (key : ℕ)
      → IsIndex m (embed s)
      → is_special_key key ≡ false
      → index_query m s key ≡ holds m (embed s) key
  unfolding index_query hash_query
  index_query-holds s key v p =
      rw (p, index_query)
        (elim (Option-cases (view m s.hash key)) [
          | inl e ↦ rw e (art_search-lookup s.tree.root key 0 (λ _. 0) v.tree)
          | inr (x, e) ↦ rw e refl
        ])

  -- The rest of index_update after hash_update.
  abbrev finish_update : ℕ → ℕ → SequentialSys × Status → SequentialSys × Bool
  finish_update key value t =
      let r = art_update key value t.0.tree.root 0 in
      elim t.1 [
        | ok ↦ (t.0, true)
        | element_not_found ↦ (record t.0 { tree = record t.0.tree { root = r.0 } }, r.1)
        | hash_bin_full ↦ (t.0, true)
        | element_already_exists ↦ (t.0, true)
      ]

  index_update-finish_update :
      (s : SequentialSys) (key value : ℕ)
      → is_special_key key ≡ false
      → index_update m s key value ≡ finish_update key value (hash_update m s key value)
  unfolding index_update
  index_update-finish_update s key value p = rw p refl

  art_update-forget :
      (s : SequentialSys) (cm : Sketch) (key freq value : ℕ)
      → IsIndex m (embed s)
      → is_special_key key ≡ false
      → let r = art_update key value s.tree.root 0 in
        let r' = Float.art_update m (record (embed s) { cm = cm }) key freq value in
        let left : SequentialSys × Bool = (record s { tree = record s.tree { root = r.0 } }, r.1) in
        left ≡ (forget r'.0, r'.1)
  unfolding Float.art_update Float.from_root
  art_update-forget s cm key freq value v p =
      let z = plain_positive key p in
      let u = seek_lem m cm key freq value s.tree.root 0 (λ _. 0) v.tree v.plain z in
      let same = art_update-seek m cm key freq value s.tree.root 0 (λ _. 0) v.tree v.plain z in
      rw (same, Float.from_root, u.3, u.4, v.unbuffered) refl

  -- An update does what it does in an index with a sketch.
  pub index_update-forget :
      (s : SequentialSys) (key value : ℕ)
      → IsIndex m (embed s)
      → is_special_key key ≡ false
      → let r = Index.index_update m (embed s) key value in
        index_update m s key value ≡ (forget r.0, r.1)
  index_update-forget s key value v p =
      let start =
        index_update-finish_update s key value p
        ∙ ap (finish_update key value)
            (hash_modify_same m (embed s) key value strict_update refl) in
      let along = index_update-finish m (embed s) key value p in
      elim (Option-cases (view m s.hash key)) [
        | inr (x, f) ↦
            let e = hash_update_present m (embed s) key value x f v.table in
            start
            ∙ ap (λ t. finish_update key value (forget t.0, t.1)) e
            ∙ sym (ap (λ r. (forget r.0, r.1)) (along ∙ ap (finish m (embed s) key value) e))
        | inl f ↦
            let e = hash_update_absent m (embed s) key value f in
            let (cm, freq) = counted m (embed s) key value in
            start
            ∙ ap (λ t. finish_update key value (forget t.0, t.1)) e
            ∙ art_update-forget s cm key freq value v p
            ∙ sym (ap (λ r. (forget r.0, r.1)) (along ∙ ap (finish m (embed s) key value) e))
      ]

  -- An insertion into the table of a key that is not there.
  hash_insert-forget :
      (s : SequentialSys) (key value : ℕ)
      → view m s.hash key ≡ none
      → let r = insert_nocheck m s.hash key value in
        hash_insert m s key value ≡ (record s { hash = r.0 }, (if r.1 then ok else hash_bin_full))
  hash_insert-forget s key value absent =
      hash_modify_same m (embed s) key value insert refl
      ∙ ap (λ r. (forget r.0, r.1)) (hash_insert_absent m (embed s) key value absent)

  pub in_tree_too :
      (tries n : ℕ) (s : IndexSys) (key value storage_type : ℕ)
      → is_special_key key ≡ false
      → IsTreeType storage_type
      → Index.index_insert m as_is tries n s key value storage_type
        ≡ some (Index.insert_tree m as_is s key value storage_type)
  unfolding Index.index_insert
  in_tree_too tries n s key value storage_type p t = rw (p, IsTreeType-ne storage_type t) refl

  pub bin_room :
      (s : SequentialSys) (key value : ℕ)
      → view m s.hash key ≡ none
      → (hash_insert m s key value).1 ≡ ok
      → (insert_nocheck m s.hash key value).1 ≡ true
  bin_room s key value absent e =
      ok_if (insert_nocheck m s.hash key value).1
        (sym (ap (λ r. r.1) (hash_insert-forget s key value absent)) ∙ e)

  module _ (entries : HashSys → ℕ) where
    -- Without buffered pairs a deletion does what it does in an index with a sketch.
    pub index_delete-forget :
        (n : ℕ) (s : SequentialSys) (key : ℕ) (v : IsIndex m (embed s))
        (p : is_special_key key ≡ false) (w : key < 2 ^ 64)
        → let r = removal m n (embed s) key v p w in
          index_delete m entries n s key ≡ some (forget r.0, r.1)
    unfolding index_delete
    index_delete-forget n s key v p w =
        let few : ltb s.tree.size (u64 (s.tree.buffer_count * 16)) ≡ false =
          ground (arith, v.unbuffered) in
        rw (p, few)
          (elim (Bool-cases (delete m s.hash key).1) [
            | inr q ↦ rw q refl
            | inl q ↦ rw q (elim (Bool-cases (load_below (delete m s.hash key).0 3 5)) [
              | inl z ↦ rw z refl
              | inr z ↦ rw z refl
            ])
          ])

    module _ (rand : ℕ) where
      -- So does an insertion into the tree.
      pub into_tree-forget :
          (tries n : ℕ) (s : SequentialSys) (key value storage_type : ℕ)
          → is_special_key key ≡ false
          → IsTreeType storage_type
          → let r = Index.insert_tree m as_is (embed s) key value storage_type in
            index_insert m entries rand tries n s key value storage_type ≡ some (forget r.0, r.1)
      unfolding index_insert insert_tree Index.insert_tree
      into_tree-forget tries n s key value storage_type p t =
          rw (p, Index.insert_tree, IsTreeType-ne storage_type t, t.1) refl

      -- So does an insertion into a bin of the table with room.
      pub into_table-now :
          (tries n : ℕ) (s : SequentialSys) (key value : ℕ)
          → is_special_key key ≡ false
          → view m s.hash key ≡ none
          → (insert_nocheck m s.hash key value).1 ≡ true
          → index_insert m entries rand (suc tries) n s key value mem_type
            ≡ some (record s { hash = (insert_nocheck m s.hash key value).0 }, true)
      unfolding index_insert reinsert
      into_table-now tries n s key value p absent done =
          let e = hash_insert-forget s key value absent in
          rw (p, reinsert, e, done) (ap (λ r. some (r.0, true)) e)
