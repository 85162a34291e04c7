-- ===== src/Sequential/Tests.antt =====
-- Runs and witnesses of the sequential variant.
use hetero_indexing.Prelude.{
  ℕ, ◌+◌, ◌*◌, ◌≡◌, refl, Bool, true, false, none, some, arith, [], ◌∷◌, List, replicate, zero, suc,
  ◌≤◌,
}
use hetero_indexing.Common.{Entry, mem_type, Murmur}
use hetero_indexing.Hash
use hetero_indexing.Hash.{HashSys, place, find}
use hetero_indexing.Hash.Table.{construct-IsValid}
use hetero_indexing.Art.{Header, Node, node4, null, leaf, inner, alloc_node}
use hetero_indexing.Tree.{empty_tree, art_insert_no_replace, insert}
use hetero_indexing.Tree.Wrap.{wrapper, wrapped}
use hetero_indexing.System
use hetero_indexing.System.{IndexSys, insert as insert_mode}
use hetero_indexing.Index.Steps.{put}
use hetero_indexing.Sequential.{
  SequentialSys, hash_construct, hash_insert, hash_modify, hash_insert_nocheck, scan,
  index_construct, index_insert, index_update, index_delete, index_query, compact_node, insert_tree,
  reinsert,
}
use hetero_indexing.Sequential.Modify.{forget, hash_modify_same}
use hetero_indexing.Sequential.Compact.{
  IsAllocated, Keeps, hash_insert_nocheck_lem, compact_node-Keeps,
}
use hetero_indexing.Sequential.Rounds.{Returns, IsQuiet, index_insert-Returns}
use hetero_indexing.Index.Walk.{is_inner, Calm}
use hetero_indexing.Tree.Search.{find-zeroed}
use hetero_indexing.Sequential.Embed.{embed, index_delete-forget}
use hetero_indexing.Index.{Compaction}
use hetero_indexing.Index.Remove.{removal}
use hetero_indexing.Hash.Assign.{updated}
use hetero_indexing.Sequential.Steps.{
  Made, Made-Models, constructed, into_tree, into_table, changed, removed, sequential_query-Made,
}

-- Stand-ins for the hash and for the allocation.
abbrev adding : Murmur
adding = record { x64_128 = λ k s. (s, k + 2 * s); x64_64 = λ k s. k + 2 * s; upper = λ k s. refl }

abbrev at_4096 : HashSys → ℕ
at_4096 t = 4096

abbrev fresh : SequentialSys
fresh = record {
  has_special_key = λ _. 0;
  special_key_val = λ _. 0;
  hash = Hash.construct 0 2 9;
  tree = empty_tree;
}

-- A size that is no power of two.
odd_size : index_construct 0 6 9 ≡ none
unfolding index_construct hash_construct
odd_size = refl

fresh_made : index_construct 0 2 9 ≡ some fresh
unfolding index_construct hash_construct
fresh_made = refl

fresh-Made : Made adding at_4096 0 (λ _. none) fresh
fresh-Made = constructed 1 9 (omega arith) fresh_made

-- One key in the tree and one in the table.
abbrev grown : SequentialSys
grown = (insert_tree adding at_4096 0 fresh 1025 70 2).0

grown_made : index_insert adding at_4096 0 2 5 fresh 1025 70 2 ≡ some (grown, true)
unfolding index_insert insert_tree art_insert_no_replace insert
grown_made = refl

grown-Made : Made adding at_4096 0 (put (λ _. none) 1025 70) grown
grown-Made = into_tree 2 5 1025 70 2 fresh-Made refl (omega arith) (refl, refl) refl grown_made

abbrev both : SequentialSys
both = (hash_insert adding grown 7 71).0

both_made : index_insert adding at_4096 0 (1 + 1) 5 grown 7 71 mem_type ≡ some (both, true)
unfolding index_insert reinsert hash_modify scan insert_tree Hash.construct
both_made = refl

both-Made : Made adding at_4096 0 (put (put (λ _. none) 1025 70) 7 71) both
unfolding hash_modify scan insert_tree Hash.construct
both-Made = into_table 1 5 7 71 grown-Made refl (omega arith) refl (omega arith) refl both_made

abbrev renewed : SequentialSys
renewed = (index_update adding both 1025 72).0

renewed-Made : Made adding at_4096 0 (updated 1025 72 (put (put (λ _. none) 1025 70) 7 71)) renewed
renewed-Made = changed 1025 72 both-Made refl (omega arith)

abbrev deletion : SequentialSys × Bool
deletion =
    let r =
      removal adding 5 (embed renewed) 7 (Made-Models adding at_4096 0 renewed-Made).0 refl
        (omega arith) in
    (forget r.0, r.1)

deletion_lem : index_delete adding at_4096 5 renewed 7 ≡ some deletion
deletion_lem =
    index_delete-forget adding at_4096 5 renewed 7 (Made-Models adding at_4096 0 renewed-Made).0
      refl (omega arith)

sequential_query-Made_example : index_query adding deletion.0 1025 ≡ some 72
sequential_query-Made_example =
    sequential_query-Made adding at_4096 0
      (removed 5 7 renewed-Made refl (omega arith) deletion_lem) 1025 refl (omega arith)

hash_modify_same_example :
    let s : IndexSys = record {
      has_special_key = λ _. 0;
      special_key_val = λ _. 0;
      cm = record { width = 4; depth = 2; seed = 0; shift = 2; counts = [] };
      hash = Hash.construct 0 2 9;
      tree = empty_tree;
    } in
    let r = System.hash_modify adding s 7 71 insert_mode in
    hash_modify adding (forget s) 7 71 insert_mode ≡ (forget r.0, r.1)
hash_modify_same_example =
    hash_modify_same adding
      (record {
        has_special_key = λ _. 0;
        special_key_val = λ _. 0;
        cm = record { width = 4; depth = 2; seed = 0; shift = 2; counts = [] };
        hash = Hash.construct 0 2 9;
        tree = empty_tree;
      })
      7 71 insert_mode refl

fresh-IsAllocated : IsAllocated adding at_4096 (Hash.construct 0 2 9)
unfolding Hash.construct
fresh-IsAllocated = record {
  size_pos = omega arith;
  widths = (construct-IsValid adding 0 1 9 (omega arith)).0.widths;
  address_pos = omega arith;
  address_word = omega arith;
}

-- Every slot is empty, and none is taken.
hash_insert_nocheck_lem_example :
    hash_insert_nocheck adding at_4096 (Hash.construct 0 2 9) 7 71 ≡ (Hash.construct 0 2 9, false)
hash_insert_nocheck_lem_example =
    hash_insert_nocheck_lem adding at_4096 (Hash.construct 0 2 9) 7 71 fresh-IsAllocated

abbrev buffer : List Entry
buffer =
    record { key = 0; value = 0 }
    ∷ record { key = 258; value = 7 }
    ∷ record { key = 0; value = 0 }
    ∷ []

-- A node whose buffer has the key 258, which stays there.
abbrev buffered_start : Compaction
buffered_start = record {
  hash = Hash.construct 0 2 9;
  failures = 0;
  tree = record {
    root =
        inner (wrapper 0 (λ _. 0) buffer 1 (leaf (record { key = 1025; value = 70 })))
          (wrapped 0 (λ _. 0) buffer 1 (leaf (record { key = 1025; value = 70 })));
    size = 2;
    buffer_count = 1;
  };
}

compact_node-Keeps_example :
    Keeps adding at_4096 9 10 buffered_start
      (compact_node adding at_4096 3 0 9 10 [] buffered_start)
compact_node-Keeps_example =
    compact_node-Keeps adding at_4096 9 10 3 0 [] buffered_start fresh-IsAllocated (omega arith)

-- Eight full bins, and a tree of two inner nodes, one below the other, whose counters say that there
-- is a buffered pair and that there are more pairs than the table is to hold beside it.
abbrev full_bin : List Entry
full_bin = replicate 8 (record { key = 3; value = 30 })

abbrev no_pairs : List Entry
no_pairs = replicate 3 (record { key = 0; value = 0 })

abbrev single : Header
single = record (alloc_node node4) { num_children = 1; buffer = no_pairs }

abbrev only : Node → ℕ → Node
only c zero = c
only c (suc i) = null

abbrev crowded : SequentialSys
crowded = record fresh {
  hash = record { seed = 9; size = 8; count = 64; bins = replicate 8 full_bin };
  tree = record {
    root = inner single (only (inner single (only (leaf (record { key = 3; value = 30 })))));
    size = 300;
    buffer_count = 1;
  };
}

only-Calm : (c : Node) → Calm c → (k : ℕ) → Calm (only c k)
only-Calm c q zero = q
only-Calm c q (suc k) = tt

only_beyond : (c : Node) (k : ℕ) → 1 ≤ k → is_inner (only c k) ≡ false
only_beyond c zero l = absurd (omega arith)
only_beyond c (suc k) l = refl

single-Calm : (c : Node) → Calm c → Calm (inner single (only c))
single-Calm c q =
    (λ k n. find-zeroed k n, λ k l. only-Calm c q k, λ k l above. only_beyond c k above)

crowded-IsQuiet : IsQuiet adding at_4096 0 2 crowded
crowded-IsQuiet = record {
  calm =
      single-Calm (inner single (only (leaf (record { key = 3; value = 30 }))))
        (single-Calm (leaf (record { key = 3; value = 30 })) tt);
  nodes_le = omega arith;
  filled = refl;
  size_le = omega arith;
}

index_insert-Returns_example :
    Returns adding at_4096 0 (index_insert adding at_4096 0 33 2 crowded 7 71 mem_type)
index_insert-Returns_example =
    index_insert-Returns adding at_4096 0 33 3 2 crowded 7 71 mem_type crowded-IsQuiet refl
      (omega arith) (omega arith) (omega arith)
