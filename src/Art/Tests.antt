-- ===== src/Art/Tests.antt =====
-- Runs and witnesses of the nodes.
use hetero_indexing.Prelude.{ℕ, ◌+◌, ◌*◌, ◌≡◌, refl, none, some, arith, if◌then◌else◌, ltb}
use hetero_indexing.Art.{
  Header, Node, null, leaf, node4, node16, alloc_node, add_child, add_child4, add_child16,
  find_child, find_first,
}
use hetero_indexing.Art.Shape.{IsArray, Added}
use hetero_indexing.Art.AddChild.{add_child_lem}

-- A full node4, with children under the bytes 0, 3, 6 and 9.
abbrev full : Header
full = record (alloc_node node4) { num_children = 4; keys = λ i. i * 3 }

abbrev children : ℕ → Node
children i = if ltb i 4 then leaf (record { key = i + 2; value = i }) else null

full-IsArray : IsArray 4 full children
full-IsArray = record {
  fits = omega arith;
  distinct = λ i j l m e. omega arith;
  bytes = λ i l. omega arith;
  filled = λ i l. ground (arith, l);
}

absent : find_child full children 7 ≡ none
unfolding find_child find_first
absent = refl

add_child_lem_example :
    Added full children 7
      (leaf (record { key = 9; value = 9 }))
      (add_child full children 7 (leaf (record { key = 9; value = 9 })))
add_child_lem_example =
    add_child_lem full children 7 (leaf (record { key = 9; value = 9 })) full-IsArray (omega arith)
      refl absent

-- The node has grown, and the new child is third.
widened :
    let r = add_child full children 7 (leaf (record { key = 9; value = 9 })) in
    (r.0.kind ≡ node16) × (r.0.num_children ≡ 5) × (find_child r.0 r.1 7 ≡ some 3)
unfolding find_child find_first add_child add_child4 add_child16
widened = (refl, refl, refl)
