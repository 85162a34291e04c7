-- ===== src/Iter/Tests.antt =====
-- Runs and witnesses of the walks.
use hetero_indexing.Prelude.{ℕ, ◌+◌, ◌≡◌, refl, some, List, [], ◌∷◌, if◌then◌else◌, ◌==◌}
use hetero_indexing.Common.{Entry}
use hetero_indexing.Art.{
  Header, Node, leaf, inner, node4, alloc_node, find_first, find_child, key_byte,
}
use hetero_indexing.Tree.{minimum, prefix_mismatch_within}
use hetero_indexing.Iter.{
  maximum, visit, recursive_iter, leaf_prefix_matches, iter_prefix, freed_leaf, freed_node, each,
  destroy_node,
}
use hetero_indexing.Iter.Order.{run, recursive_iter-destroy_node}

abbrev pair : ℕ → ℕ → Entry
pair k v = record { key = k; value = v }

-- A node4 with children under the bytes 1, 2 and 3, of which the second is a node of two leaves.
abbrev header : ℕ → Header
header n = record (alloc_node node4) { num_children = n; keys = λ i. i + 1 }

abbrev twins : Node
twins = inner (header 2) (λ i. if i == 0 then leaf (pair 258 20) else leaf (pair 514 30))

abbrev tree : Node
tree =
    inner (header 3)
      (λ i. if i == 0 then leaf (pair 1025 10) else (if i == 1 then twins else leaf (pair 1027 40)))

-- A callback that collects the values and stops at 30.
abbrev collect : List ℕ → Entry → List ℕ × ℕ
collect s e = (e.value ∷ s, if e.value == 30 then 7 else 0)

stopped : recursive_iter collect tree [] ≡ (30 ∷ 20 ∷ 10 ∷ [], 7)
unfolding recursive_iter visit
stopped = refl

freed :
    destroy_node tree
    ≡ freed_leaf (pair 1025 10)
      ∷ freed_leaf (pair 258 20)
      ∷ freed_leaf (pair 514 30)
      ∷ freed_node node4
      ∷ freed_leaf (pair 1027 40)
      ∷ freed_node node4
      ∷ []
unfolding destroy_node each
freed = refl

ends : (minimum tree ≡ some (pair 1025 10)) × (maximum tree ≡ some (pair 1027 40))
unfolding minimum maximum
ends = (refl, refl)

-- The keys with first byte 2, which are 258 and 514.
under_prefix : iter_prefix collect 2 1 tree 0 [] ≡ (30 ∷ 20 ∷ [], 7)
unfolding key_byte iter_prefix leaf_prefix_matches recursive_iter visit find_child find_first
    minimum prefix_mismatch_within
under_prefix = refl

recursive_iter-destroy_node_example :
    recursive_iter collect tree [] ≡ run collect (destroy_node tree) []
recursive_iter-destroy_node_example = recursive_iter-destroy_node collect tree []
