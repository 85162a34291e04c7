-- ===== src/Index/Holds.antt =====
-- The index as a map: the special keys, then the table, then the tree.
use hetero_indexing.Prelude.{ℕ, ◌≡◌, refl, false, Option, none, some, inl, inr, Option-cases}
use hetero_indexing.Common.{is_special_key, Murmur}
use hetero_indexing.Hash
use hetero_indexing.Hash.{HashSys}
use hetero_indexing.Hash.Table.{view}
use hetero_indexing.Tree.{lookup}
use hetero_indexing.Tree.Shape.{IsTree}
use hetero_indexing.System.{IndexSys}
use hetero_indexing.Float.{art_search}
use hetero_indexing.Float.Value.{seek-lookup}
use hetero_indexing.Index.{index_query}

abbrev pub first_of : Option ℕ → Option ℕ → Option ℕ
first_of none b = b
first_of (some x) b = some x

module _ (m : Murmur) where
  -- What the index holds under a key that is not special.
  abbrev pub holds : IndexSys → ℕ → Option ℕ
  holds s key = first_of (view m s.hash key) (lookup s.tree.root key 0)

module _ (m : Murmur) where
  -- In an index with a well-formed tree, a query for a key that is not special gives what the index
  -- holds under it, the table first.
  pub index_query-holds :
      (s : IndexSys) (key : ℕ) (path : ℕ → ℕ)
      → IsTree s.tree.root 0 path
      → is_special_key key ≡ false
      → (index_query m s key).1 ≡ holds m s key
  unfolding index_query Hash.query art_search
  index_query-holds s key path v p = rw p (elim (Option-cases (view m s.hash key)) [
    | inr (x, e) ↦ rw e refl
    | inl e ↦ rw e (
        seek-lookup m (Hash.query m s.hash s.cm key).0.0 key (Hash.query m s.hash s.cm key).0.1 none
          s.tree.root 0 path v)
  ])
