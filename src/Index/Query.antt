-- ===== src/Index/Query.antt =====
-- index_query of a key that is not special, on a tree that may have buffered pairs.
use hetero_indexing.Prelude.{
  ℕ, ◌-◌, ◌^◌, ◌<◌, ◌≡◌, refl, sym, ap, false, Option, none, some, inl, inr, Option-cases,
}
use hetero_indexing.Common.{is_special_key, Murmur}
use hetero_indexing.Sketch.{Sketch}
use hetero_indexing.Hash
use hetero_indexing.Hash.Table
use hetero_indexing.Hash.Table.{view}
use hetero_indexing.Tree.{lookup}
use hetero_indexing.Tree.Shape.{IsTree}
use hetero_indexing.System.{IndexSys}
use hetero_indexing.Float.Root.{held}
use hetero_indexing.Float.Settled.{Settled}
use hetero_indexing.Float.Search.{HasSame, art_search_lem}
use hetero_indexing.Index.{index_query}
use hetero_indexing.Index.Insert.{plain_positive}

module _ (m : Murmur) (s : IndexSys) (key : ℕ) where
  -- The sketch and the frequency that hash_query leaves.
  abbrev pub counted : Sketch × ℕ
  counted = (Hash.query m s.hash s.cm key).0

module _ (m : Murmur) (s : IndexSys) (key : ℕ) (path : ℕ → ℕ) where
  had : (x : ℕ) → view m s.hash key ≡ some x → some x ≡ held m s.hash s.tree.root key
  had x e =
      sym (
        ap (λ o. elim o as (λ _. Option ℕ) [ none ↦ lookup s.tree.root key 0 | some y ↦ some y ]) e)

  -- index_query of a 64-bit key that is not special, in an index with a valid table with room in its
  -- count and a well-formed tree that is settled for the key, where the sketch counts the key to a
  -- frequency that is no negative int: it gives what the index holds under the key, the table first, and wherever it floats the pair, to the table or to the buffer of a parent,
  -- the table stays valid, the tree well-formed, and the index holds under every key what it held.
  pub index_query_lem :
      Table.IsValid m s.hash
      → s.hash.count < 2 ^ 64 - 1
      → IsTree s.tree.root 0 path
      → Settled m (counted m s key).0 key (counted m s key).1 s.tree.root 0 path
      → is_special_key key ≡ false
      → key < 2 ^ 64
      → (counted m s key).1 < 2 ^ 31
      → let r = index_query m s key in (r.1 ≡ held m s.hash s.tree.root key) × HasSame m path s r.0
  unfolding index_query Hash.query
  index_query_lem table room tree settled p w positive = elim (Option-cases (view m s.hash key)) [
    | inr (x, e) ↦ rw (p, index_query, e) (had x e, (table, tree, λ k z l. refl))
    | inl e ↦
        let found =
          art_search_lem m (record s { cm = (counted m s key).0 }) key (counted m s key).1 path
            table e room tree settled (plain_positive key p) w positive in
        rw (p, index_query, e) found
  ]
