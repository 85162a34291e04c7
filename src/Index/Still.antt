-- ===== src/Index/Still.antt =====
-- index_query where the tree has no buffered pairs: only the sketch changes.
use hetero_indexing.Prelude.{
  ℕ, ◌+◌, ◌≡◌, ◌≢◌, refl, sym, ◌∙◌, false, none, inl, inr, Option-cases, arith,
}
use mathlib.Core.Path.{subst}
use hetero_indexing.Common.{u64, is_special_key, Murmur}
use hetero_indexing.Hash
use hetero_indexing.Hash.Table.{view}
use hetero_indexing.Tree.Shape.{IsTree}
use hetero_indexing.Tree.Plain.{IsPlain}
use hetero_indexing.System.{IndexSys}
use hetero_indexing.Float.{art_search, from_root, seek}
use hetero_indexing.Float.Still.{seek_still}
use hetero_indexing.Index.{index_query}
use hetero_indexing.Index.Holds.{holds}
use hetero_indexing.Index.Insert.{plain_positive}
use hetero_indexing.Index.Remove.{IsIndex}
use hetero_indexing.Index.Query.{counted}

module _ (m : Murmur) (key freq : ℕ) (n : key ≢ 0) (s : IndexSys)
    (t : IsTree s.tree.root 0 (λ _. 0)) (p : IsPlain s.tree.root)
    (z : s.tree.buffer_count ≡ 0) where
  lowered :
      let r = seek m s.cm key freq none s.tree.root 0 in
      (art_search m s key freq).0 ≡ (record s {
        tree = record s.tree { root = r.node; buffer_count = u64 (s.tree.buffer_count + r.delta) };
      })
  unfolding art_search from_root
  lowered =
      let r = seek_still m s.cm key freq n s.tree.root 0 (λ _. 0) t p in rw (from_root, r.1) refl

  -- The search changes nothing.
  art_search_still : (art_search m s key freq).0 ≡ s
  art_search_still =
      let r = seek_still m s.cm key freq n s.tree.root 0 (λ _. 0) t p in
      let count : u64 (s.tree.buffer_count + (seek m s.cm key freq none s.tree.root 0).delta)
          ≡ s.tree.buffer_count =
        omega (arith, z, r.2) in
      lowered ∙ (λ j. record s { tree = record s.tree { root = r.0 j; buffer_count = count j } })

-- Nor does a query, but for the sketch.
pub index_query_still :
    (m : Murmur) (s : IndexSys) (key : ℕ)
    → IsIndex m s
    → is_special_key key ≡ false
    → (index_query m s key).0 ≡ record s { cm = (counted m s key).0 }
unfolding index_query Hash.query
index_query_still m s key v p =
    let (cm, freq) = counted m s key in
    elim (Option-cases (view m s.hash key)) [
      | inr (x, e) ↦ rw (p, index_query, e) refl
      | inl e ↦
          rw (p, index_query, e)
            (art_search_still m key freq (plain_positive key p) (record s { cm = cm }) v.tree
              v.plain v.unbuffered)
    ]

-- A query leaves an index with the same pairs.
pub index_query-IsIndex :
    (m : Murmur) (s : IndexSys) (key : ℕ)
    → IsIndex m s
    → is_special_key key ≡ false
    → let s' = (index_query m s key).0 in IsIndex m s' × ((k : ℕ) → holds m s' k ≡ holds m s k)
index_query-IsIndex m s key v p =
    subst (λ x. IsIndex m x × ((k : ℕ) → holds m x k ≡ holds m s k))
      (sym (index_query_still m s key v p))
      (
        record {
          table = v.table;
          tree = v.tree;
          plain = v.plain;
          unbuffered = v.unbuffered;
          apart = v.apart;
        },
        λ k. refl,
      )
