-- ===== src/Float/Tests.antt =====
-- Runs and witnesses of the search that floats.
use hetero_indexing.Prelude.{
  replicate, zero, suc, ◌+◌, ◌*◌, ◌^◌, ◌≡◌, refl, none, some, true, arith, List, [], ◌∷◌,
}
use hetero_indexing.Common.{Entry, buf_len, Murmur}
use hetero_indexing.Sketch.{Sketch}
use hetero_indexing.Art.{
  Node, empty_entry, no_children, null, leaf, inner, key_byte, find_first, find_child,
}
use hetero_indexing.Tree.Shape.{IsTree, Agrees, extend}
use hetero_indexing.Tree.Wrap.{wrapper, wrapped, wrapper-IsTree}
use hetero_indexing.Float.{pack_info, unpack_info, come_back, seek}
use hetero_indexing.Float.Pack.{unpack_info-pack_info, unpack_info-pack_info_negative}
use hetero_indexing.Tree.Plain.{IsPlain, cells-IsPlain}
use hetero_indexing.Tree.Search.{find-zeroed}
use hetero_indexing.Float.Update.{Updates, seek_lem}
use hetero_indexing.Sketch
use hetero_indexing.Float.{lru_slot, choose}
use hetero_indexing.Float.Example.{
  upper_header, upper_children, lower_header, lower_children, two_nodes-IsFound, two_nodes-Swaps,
}
use hetero_indexing.Float.Lift.{Floats, picked, floated, float_parent_lem}

unpack_info-pack_info_example :
    unpack_info (pack_info 1000 2 5 3)
    ≡ (record { freq = 1000; slot = 2; depth = 5; depth_parent = 3 })
unpack_info-pack_info_example =
    unpack_info-pack_info 1000 2 5 3 (omega arith) (omega arith) (omega arith) (omega arith)

-- A negative int: the slot 2 and the depths 5 and 3 are lost.
unpack_info-pack_info_negative_example :
    unpack_info (pack_info (2 ^ 31) 2 5 3)
    ≡ (record { freq = 2 ^ 31; slot = 255; depth = 255; depth_parent = 255 })
unpack_info-pack_info_negative_example =
    unpack_info-pack_info_negative (2 ^ 31) 2 5 3 (omega arith) (omega arith) (omega arith)
      (omega arith) (omega arith)

-- A stand-in for the hash.
abbrev adding : Murmur
adding = record { x64_128 = λ k s. (s, k + 2 * s); x64_64 = λ k s. k + 2 * s; upper = λ k s. refl }

abbrev small : Sketch
small = record { width = 4; depth = 2; seed = 0; shift = 2; counts = [] }

-- A node without a prefix, with the key 258 in its buffer and a leaf under the byte 1.
abbrev buffer : List Entry
buffer =
    record { key = 0; value = 0 }
    ∷ record { key = 258; value = 7 }
    ∷ record { key = 0; value = 0 }
    ∷ []

abbrev tree : Node
tree =
    inner (wrapper 0 (λ _. 0) buffer 1 (leaf (record { key = 1025; value = 70 })))
      (wrapped 0 (λ _. 0) buffer 1 (leaf (record { key = 1025; value = 70 })))

leaf_on_path : Agrees 1 (extend (λ _. 0) 0 (wrapper 0 (λ _. 0) buffer 1 null) 1) 1025
unfolding key_byte
leaf_on_path zero l = refl
leaf_on_path (suc i) l = absurd (omega arith)

tree-IsTree : IsTree tree 0 (λ _. 0)
tree-IsTree =
    wrapper-IsTree 0 (λ _. 0) buffer 1 (leaf (record { key = 1025; value = 70 })) (omega arith) refl
      0 (λ _. 0) (omega arith) (λ i l. absurd (omega arith)) (λ k n f i l. absurd (omega arith))
      (omega arith, leaf_on_path) refl

-- The pair of the root's buffer is still to be floated, and a pair in a leaf is not.
found_in_buffer :
    ((seek adding small 258 3 none tree 0).pending ≡ some (1, 0))
    × ((seek adding small 1025 3 none tree 0).in_leaf ≡ true)
unfolding seek find_first find_child come_back key_byte
found_in_buffer = (refl, refl)

-- The node without the buffered pair.
abbrev empty_buffer : List Entry
empty_buffer = replicate buf_len empty_entry

abbrev quiet_tree : Node
quiet_tree =
    inner (wrapper 0 (λ _. 0) empty_buffer 1 (leaf (record { key = 1025; value = 70 })))
      (wrapped 0 (λ _. 0) empty_buffer 1 (leaf (record { key = 1025; value = 70 })))

quiet_tree-IsTree : IsTree quiet_tree 0 (λ _. 0)
quiet_tree-IsTree =
    wrapper-IsTree 0 (λ _. 0) empty_buffer 1 (leaf (record { key = 1025; value = 70 }))
      (omega arith) refl 0 (λ _. 0) (omega arith) (λ i l. absurd (omega arith))
      (λ k n f i l. absurd (omega arith)) (omega arith, leaf_on_path) refl

quiet_tree-IsPlain : IsPlain quiet_tree
quiet_tree-IsPlain = (
  find-zeroed,
  λ c i l e.
      cells-IsPlain no_children 0 0 (leaf (record { key = 1025; value = 70 })) (λ _. tt) tt i,
)

seek_lem_example :
    Updates adding small 1025 3 71 0
      (λ _. 0)
      quiet_tree
      (seek adding small 1025 3 (some 71) quiet_tree 0)
seek_lem_example =
    seek_lem adding small 1025 3 71 quiet_tree 0 (λ _. 0) quiet_tree-IsTree quiet_tree-IsPlain
      (omega arith)

-- The two pairs change places.
picks_257 :
    picked adding small 769 1000 0 none 0
      (λ _. 0)
      upper_header
      upper_children
      0
      lower_header
      lower_children
    ≡ lru_slot 0
unfolding choose find_first key_byte Sketch.count Sketch.countmin_amplify Sketch.count_rows
picks_257 = refl

float_parent_lem_example :
    Floats adding small 769 1000 0 none 0
      (λ _. 0)
      upper_header
      upper_children
      0
      lower_header
      lower_children
      two_nodes-IsFound
      (omega arith)
      (two_nodes-Swaps adding small 1000 0)
      (floated adding small 769 1000 0 none 0
        (λ _. 0)
        upper_header
        upper_children
        0
        lower_header
        lower_children)
float_parent_lem_example =
    float_parent_lem adding small 769 1000 0 none 0 (λ _. 0) upper_header upper_children 0
      lower_header lower_children two_nodes-IsFound (omega arith)
      (two_nodes-Swaps adding small 1000 0)
