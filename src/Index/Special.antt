-- ===== src/Index/Special.antt =====
-- The two special keys, which live beside the table and the tree.
use hetero_indexing.Prelude.{ℕ, ◌≡◌, ◌≢◌, refl, true, false, none, some, ◌==◌, arith}
use hetero_indexing.Common.{is_special_key, Murmur}
use hetero_indexing.Hash.{HashSys}
use hetero_indexing.Art.{update}
use hetero_indexing.System.{IndexSys}
use hetero_indexing.Index.{store_special, index_insert, index_update, index_query, index_delete}

module _ (m : Murmur) (expand : HashSys → HashSys) where
  -- A special key reads back the value that index_insert or index_update gave it; index_delete then
  -- finds it, and after that it is gone. The other special key keeps what it had throughout.
  pub special_lem :
      (tries n : ℕ) (s : IndexSys) (key value storage_type : ℕ)
      → is_special_key key ≡ true
      → let s' = store_special s key value in
        let gone : IndexSys = record s' { has_special_key = update s'.has_special_key key 0 } in
        (index_insert m expand tries n s key value storage_type ≡ some (s', true))
        × (index_update m s key value ≡ (s', true))
        × ((index_query m s' key).1 ≡ some value)
        × (index_delete m n s' key ≡ some (gone, true))
        × ((index_query m gone key).1 ≡ none)
        × ((k : ℕ)
            → is_special_key k ≡ true
            → k ≢ key
            → ((index_query m s' k).1 ≡ (index_query m s k).1)
              × ((index_query m gone k).1 ≡ (index_query m s k).1))
  unfolding index_insert index_update index_query index_delete
  special_lem tries n s key value storage_type p =
      let same : (key == key) ≡ true = ground arith in
      rw (p, same)
        (
          refl,
          refl,
          refl,
          refl,
          refl,
          λ k p' ne.
              let other : (key == k) ≡ false = ground (arith, ne) in rw (p', other) (refl, refl),
        )
