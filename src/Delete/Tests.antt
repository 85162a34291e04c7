-- ===== src/Delete/Tests.antt =====
-- Runs and witnesses of the deletion.
use hetero_indexing.Prelude.{
  ℕ, false, ◌+◌, ◌*◌, ◌≡◌, refl, some, arith, if◌then◌else◌, ltb, List, [], ◌∷◌,
}
use hetero_indexing.Common.{Entry}
use hetero_indexing.Hash.{find}
use hetero_indexing.Art.{Header, Node, null, leaf, node16, alloc_node, find_child, find_first}
use hetero_indexing.Art.Shape.{IsArray}
use hetero_indexing.Tree.{ArtTree, empty_tree, lookup, art_insert_no_replace}
use hetero_indexing.Delete.{remove_child, recursive_delete, art_delete}
use hetero_indexing.Delete.Value.{is_there, recursive_delete-lookup}
use hetero_indexing.Delete.Pack48.{Takes}
use hetero_indexing.Delete.Child.{remove_child_lem}
use hetero_indexing.Delete.Whole.{Leaves, recursive_delete_lem}
use hetero_indexing.Delete.Steps.{
  without, Made, made_empty, inserted, deleted, IsTreeOf, Made-IsTreeOf,
}

abbrev pair : ℕ → ℕ → Entry
pair k v = record { key = k; value = v }

-- A node16 with children under the bytes 0, 3, 6 and 9, which shrinks.
abbrev four : Header
four = record (alloc_node node16) { num_children = 4; keys = λ i. i * 3 }

abbrev children : ℕ → Node
children i = if ltb i 4 then leaf (pair (i + 2) i) else null

four-IsArray : IsArray 16 four children
four-IsArray = record {
  fits = omega arith;
  distinct = λ i j l m e. omega arith;
  bytes = λ i l. omega arith;
  filled = λ i l. ground (arith, l);
}

third : find_child four children 6 ≡ some 2
unfolding find_child find_first
third = refl

remove_child_lem_example : Takes four children 6 (remove_child four children 6 2 1)
remove_child_lem_example =
    remove_child_lem four children 6 2 1 four-IsArray (λ e. ground (arith, e)) (omega arith) third

-- Three keys, of which the second has a prefix of two bytes with the first, and a deletion.
abbrev keys : List Entry
keys = pair 513 30 ∷ pair 131329 20 ∷ pair 65793 10 ∷ []

abbrev one : ArtTree
one = (art_insert_no_replace false empty_tree (pair 65793 10)).0

abbrev two : ArtTree
two = (art_insert_no_replace false one (pair 131329 20)).0

abbrev three : ArtTree
three = (art_insert_no_replace false two (pair 513 30)).0

history : Made keys three
unfolding find
history =
    inserted (pair 513 30)
      (inserted (pair 131329 20)
        (inserted (pair 65793 10) made_empty (omega arith) (omega arith) refl (omega arith))
        (omega arith) (omega arith) refl (omega arith))
      (omega arith) (omega arith) refl (omega arith)

built : IsTreeOf keys three
built = Made-IsTreeOf history

Made-IsTreeOf_example : IsTreeOf (without 513 keys) (art_delete three 513).0
Made-IsTreeOf_example = Made-IsTreeOf (deleted 513 history (omega arith) (omega arith))

recursive_delete_lem_example :
    Leaves 513 0 (λ _. 0) three.root (recursive_delete three.root 513 0).node
recursive_delete_lem_example =
    recursive_delete_lem three.root 513 0 (λ _. 0) built.0 built.1 (omega arith)

recursive_delete-lookup_example :
    (recursive_delete three.root 513 0).found ≡ is_there (lookup three.root 513 0)
recursive_delete-lookup_example = recursive_delete-lookup three.root 513 0
