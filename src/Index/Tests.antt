-- ===== src/Index/Tests.antt =====
-- Runs and witnesses of the index.
use hetero_indexing.Prelude.{
  ℕ, ◌+◌, ◌*◌, ◌≡◌, ◌≢◌, refl, Bool, true, false, none, some, arith, if◌then◌else◌, ◌==◌, [], ◌∷◌,
}
use hetero_indexing.Common.{is_special_key, mem_type, u64, Murmur}
use hetero_indexing.Sketch
use hetero_indexing.Sketch.{Sketch}
use hetero_indexing.Hash.{HashSys, construct, expand_copy, insert_nocheck, place, find}
use hetero_indexing.Hash.Table
use hetero_indexing.Hash.Assign.{updated}
use hetero_indexing.Hash.Table.{construct-IsValid}
use hetero_indexing.Tree.{empty_tree, lookup, insert, art_insert_no_replace}
use hetero_indexing.Tree.Shape.{IsTree}
use hetero_indexing.Art.{update, is_null}
use hetero_indexing.System.{IndexSys}
use hetero_indexing.Index.{
  index_construct, store_special, index_insert, index_update, index_query, index_delete, index_size,
  index_expand, insert_tree,
}
use hetero_indexing.Index.Special.{special_lem}
use hetero_indexing.Index.Holds.{holds, index_query-holds}
use hetero_indexing.Index.Change.{Changes, index_update_lem}
use hetero_indexing.Index.Remove.{IsIndex, Removes, index_delete_lem}
use hetero_indexing.Index.Expand.{index_expand_lem}
use hetero_indexing.Index.Steps.{
  Made, constructed, into_tree, changed, asked, removed, put, Made-IsIndexOf, index_query-Made,
}
use hetero_indexing.Index.Insert.{Holds, index_insert-IsTree, index_insert_table}

-- Stand-ins for the hash and for the expansion.
abbrev adding : Murmur
adding = record { x64_128 = λ k s. (s, k + 2 * s); x64_64 = λ k s. k + 2 * s; upper = λ k s. refl }

abbrev as_is : HashSys → HashSys
as_is t = t

abbrev small : Sketch
small = record {
  width = 4;
  depth = 2;
  seed = 0;
  shift = 2;
  counts = 0 ∷ 0 ∷ 0 ∷ 0 ∷ 0 ∷ 0 ∷ 0 ∷ 0 ∷ [];
}

abbrev fresh : IndexSys
fresh = record {
  has_special_key = λ _. 0;
  special_key_val = λ _. 0;
  cm = small;
  hash = construct 0 2 9;
  tree = empty_tree;
}

special_lem_example :
    let s' = store_special fresh 1 70 in
    let gone : IndexSys = record s' { has_special_key = update s'.has_special_key 1 0 } in
    (index_insert adding as_is 2 5 fresh 1 70 mem_type ≡ some (s', true))
    × (index_update adding fresh 1 70 ≡ (s', true))
    × ((index_query adding s' 1).1 ≡ some 70)
    × (index_delete adding 5 s' 1 ≡ some (gone, true))
    × ((index_query adding gone 1).1 ≡ none)
    × ((k : ℕ)
        → is_special_key k ≡ true
        → k ≢ 1
        → ((index_query adding s' k).1 ≡ (index_query adding fresh k).1)
          × ((index_query adding gone k).1 ≡ (index_query adding fresh k).1))
special_lem_example = special_lem adding as_is 2 5 fresh 1 70 mem_type refl

unheld : holds adding fresh 1025 ≡ none
unfolding construct find lookup
unheld = refl

abbrev stored : IndexSys
stored = (insert_tree adding as_is fresh 1025 70 2).0

index_insert-IsTree_example :
    (index_insert adding as_is 2 5 fresh 1025 70 2 ≡ some (stored, true))
    × IsTree stored.tree.root 0 (λ _. 0)
    × Holds adding as_is fresh stored 1025 70
    × (index_size stored ≡ u64 (index_size fresh + 1))
index_insert-IsTree_example =
    index_insert-IsTree adding as_is 2 5 fresh 1025 70 2 (λ _. 0) tt refl (omega arith) (refl, refl)
      unheld

stored-IsTree : IsTree stored.tree.root 0 (λ _. 0)
stored-IsTree =
    (index_insert-IsTree adding as_is 2 5 fresh 1025 70 2 (λ _. 0) tt refl (omega arith)
      (refl, refl) unheld).1

index_query-holds_example : (index_query adding stored 1025).1 ≡ holds adding stored 1025
index_query-holds_example = index_query-holds adding stored 1025 (λ _. 0) stored-IsTree refl

room : (insert_nocheck adding fresh.hash 7 70).1 ≡ true
unfolding insert_nocheck construct place
room = refl

empty_table : Table.view adding fresh.hash 7 ≡ none
unfolding construct find
empty_table = refl

empty_count : fresh.hash.count ≡ 0
unfolding construct
empty_count = refl

index_insert_table_example :
    let s' : IndexSys = record fresh { hash = (insert_nocheck adding fresh.hash 7 70).0 } in
    (index_insert adding as_is 2 5 fresh 7 70 mem_type ≡ some (s', true))
    × Table.IsValid adding s'.hash
    × ((k : ℕ) → k ≢ 0 → holds adding s' k ≡ (if 7 == k then some 70 else holds adding fresh k))
    × (index_size s' ≡ u64 (index_size fresh + 1))
index_insert_table_example =
    index_insert_table adding as_is 1 5 fresh 7 70 (construct-IsValid adding 0 1 9 (omega arith)).0
      refl empty_table (omega (arith, empty_count)) room

-- A new index of eight bins, an insertion into its tree and a deletion.
abbrev start : IndexSys
start = elim (index_construct 0 8 9) [ none ↦ fresh | some s ↦ s ]

start_made : index_construct 0 8 9 ≡ some start
unfolding index_construct Sketch.construct
start_made = refl

start_Made : Made adding as_is (λ _. none) start
start_Made = constructed 0 3 9 (omega arith) start_made

abbrev grown : IndexSys
grown = (insert_tree adding as_is start 1025 70 2).0

grown_made : index_insert adding as_is 2 5 start 1025 70 2 ≡ some (grown, true)
grown_made =
    let v = Made-IsIndexOf adding as_is start_Made in
    (index_insert-IsTree adding as_is 2 5 start 1025 70 2 (λ _. 0) v.0.tree refl (omega arith)
      (refl, refl) (v.1 1025 refl (omega arith))).0

grown_Made : Made adding as_is (put (λ _. none) 1025 70) grown
grown_Made = into_tree 2 5 1025 70 2 start_Made refl (omega arith) (refl, refl) refl grown_made

not_empty : is_null grown.tree.root ≡ false
unfolding insert_tree art_insert_no_replace insert index_construct Sketch.construct
not_empty = refl

seeded : grown.hash.seed ≡ 9
unfolding insert_tree index_construct construct Sketch.construct
seeded = refl

eight : grown.hash.size ≡ 8
unfolding insert_tree index_construct construct Sketch.construct
eight = refl

index_expand_lem_example :
    (s' : IndexSys) × (index_expand adding (expand_copy adding 0) 1 grown ≡ some s')
    × IsIndex adding s'
    × (s'.hash.size ≡ grown.hash.size * 2)
    × (s'.tree ≡ grown.tree)
    × ((k : ℕ) → is_special_key k ≡ false → holds adding s' k ≡ holds adding grown k)
index_expand_lem_example =
    index_expand_lem adding 0 0 grown (Made-IsIndexOf adding as_is grown_Made).0 not_empty
      (omega (arith, seeded)) (omega (arith, eight)) (omega (arith, eight))

index_delete_lem_example :
    (r : IndexSys × Bool) × (index_delete adding 5 grown 1025 ≡ some r)
    × Removes adding 5 grown 1025 (Made-IsIndexOf adding as_is grown_Made).0 refl (omega arith) r
index_delete_lem_example =
    index_delete_lem adding 5 grown 1025 (Made-IsIndexOf adding as_is grown_Made).0 refl
      (omega arith)

index_update_lem_example :
    Changes adding grown 1025 71
      (Made-IsIndexOf adding as_is grown_Made).0
      refl
      (omega arith)
      (index_update adding grown 1025 71).0
index_update_lem_example =
    index_update_lem adding grown 1025 71 (Made-IsIndexOf adding as_is grown_Made).0 refl
      (omega arith)

abbrev queried : IndexSys
queried = (index_query adding (index_update adding grown 1025 71).0 1025).0

queried_Made : Made adding as_is (updated 1025 71 (put (λ _. none) 1025 70)) queried
queried_Made = asked 1025 (changed 1025 71 grown_Made refl (omega arith)) refl

delete_1026 :
    (r : IndexSys × Bool) × (index_delete adding 5 queried 1026 ≡ some r)
    × Removes adding 5 queried 1026
        (Made-IsIndexOf adding as_is queried_Made).0
        refl
        (omega arith)
        r
delete_1026 =
    index_delete_lem adding 5 queried 1026 (Made-IsIndexOf adding as_is queried_Made).0 refl
      (omega arith)

index_query-Made_example : (index_query adding delete_1026.0.0 1025).1 ≡ some 71
index_query-Made_example =
    index_query-Made adding as_is (removed 5 1026 queried_Made refl (omega arith) delete_1026.1)
      1025 refl (omega arith)
