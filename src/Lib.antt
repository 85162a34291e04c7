-- ===== src/Lib.antt =====
-- hetero-indexing: an index of 8-byte keys and values that keeps hot pairs in a hash table
-- and the rest in an adaptive radix tree.
--
-- Parts and files:
--   Common: common.h. A key and a value are 64-bit words; the special keys 0 and 1; the
--     parameters of the build.
--   Queue: queue.c, the ring of pointers that index_compact uses. The array is a list, an
--     index a 32-bit word with its wrap written out.
--   Sketch: data_sketch.c, the Count-Min sketch (sketch_construct, countmin_inc_explicit,
--     countmin_count_explicit, countmin_clear, countmin_amplify).
--   Bloom: data_sketch.c, the Bloom filter (bloom_add, bloom_exists, bloom_expand), on the
--     same record of a sketch.
--   Hash: hash.c, the table of bins (hash_construct, hash_insert_nocheck,
--     hash_insert_nocheck_nosafe, hash_search as query and delete, hash_expand_copy,
--     hash_expand_reinsert). A bin is a list of entries, and a table is seen as a map from
--     keys to values (Hash.Table.view).
--   Art: art.c, the nodes of the tree (alloc_node, find_child, copy_header, add_child and the
--     four functions behind it). A node is a value, an array in it a function from indices,
--     and Art/Shape.antt says what a well-formed node of each kind is.
--   Tree: art.c, the tree (check_prefix, the traversal of art_search, minimum,
--     longest_common_prefix, prefix_mismatch, recursive_insert, art_insert,
--     art_insert_no_replace). A tree is well-formed at a depth under a path of key bytes
--     (Tree/Shape.antt).
--   Delete: art.c, the deletion (remove_child and the four functions behind it,
--     recursive_delete, art_delete).
--   Iter: art.c, the walks (maximum, art_minimum, art_maximum, art_iter, art_iter_prefix,
--     art_tree_destroy). A callback is a function on its data; the calls of free are a list.
--   System: common.h and hash.c, the system of a table, a tree and a sketch (index_sys) and
--     hash_modify on it, as hash_insert and hash_update.
--   Float: art.c, art_search and art_update with art_float, which moves a pair towards the
--     root.
--   Index: hetero.c, the index (index_construct, index_insert, index_query, index_update,
--     index_delete, index_compact, index_expand, index_size). The nodes in the queue of
--     index_compact are paths of child indices.
--   Sequential: sequential/hash.c, art.c and hetero.c, the variant for one thread without
--     sketch, sink and float (hash_construct, hash_modify, hash_insert_nocheck, art_search,
--     art_update and the operations of the index). It shares the definitions of Tree, Delete
--     and Hash where the two sources differ in atomic stores only. Its hash_insert_nocheck
--     tests an address, so the address of the bins is a parameter (`entries`).
--
-- A pair that art_insert puts into a buffer can become unreachable (Tree/Buffer.antt), so the
-- theorems on deletion and update are about trees without buffered pairs (Tree/Plain.antt).
-- Those on queries are about any well-formed tree; that a query keeps what the index holds
-- needs a tree in which no float puts a pair back with recursive_insert, settled for the key
-- in Float/Settled.antt. Delete/Steps.antt and Index/Steps.antt relate a tree and an index
-- after any history of operations to a list of pairs and to a map.
--
-- All paths are in src/. Atomic accesses are the steps of one thread. MurmurHash3 is a
-- parameter (Common.Murmur), and so are the value of rand and what hash_expand points to
-- (`expand`). A load factor is compared exactly, as the size of a table is a power of two.
-- countmin_amplify, a product in floating point that is rounded up, is exact where its result
-- is an int; above that it is INT_MIN, as on x86 (Sketch). An int is given as its 32 bits,
-- and a storage type is packed with KEY_LEN and unpacked as recursive_insert does it
-- (Common.IsTreeType). Allocation is taken to succeed. What the address of a value in a freed
-- leaf points to is not modelled: recursive_delete says whether it is NULL. SDR_FLOAT is 1,
-- so that only pairs in buffers are floated.
--
-- Loops recur on the rows, cells, entries or nodes left. Two loops have fuel: index_compact
-- has a count of rounds, one for each node that it takes from its queue, and index_insert a
-- count of the times it may go to REINSERT. Both give none when it does not suffice.
-- index_compact also gives none where the code leaves what its types describe: the NULL root of
-- an empty tree, a queue of no cells (a table of fewer than 16 bins), and a stale cell behind
-- the children of a node4 or node16 that has the address of an inner node. Without buffered
-- pairs one round is enough where the count of buffered pairs is 0 (Index/Expand.antt), and one
-- for each inner node otherwise (Index/Walk.antt); in the sequential variant the table doubles
-- each time until it outgrows the tree (Sequential/Rounds.antt).
--
-- Not modelled: the reclamation of memory (ebr.c, gc.c), sketch_destroy, queue_destruct,
-- hash_destruct and index_destruct, which only free, murmur3.c, and in sequential/ what is
-- not compiled there (art_float, the sketch).
pub mod Prelude
pub mod Common
pub mod Queue
pub mod Sketch
pub mod Bloom
pub mod Hash
pub mod Art
pub mod Tree
pub mod Delete
pub mod Iter
pub mod System
pub mod Float
pub mod Index
pub mod Sequential
