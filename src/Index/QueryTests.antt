-- ===== src/Index/QueryTests.antt =====
-- A query that floats a pair: its witness.
use hetero_indexing.Prelude.{
  ℕ, zero, suc, ◌+◌, ◌*◌, ◌≤◌, ◌≡◌, refl, some, arith, replicate, get_or, get_or-replicate,
}
use hetero_indexing.Common.{Murmur}
use hetero_indexing.Sketch.Estimate.{inc-le}
use hetero_indexing.Hash
use hetero_indexing.Hash.{find}
use hetero_indexing.Hash.Table.{construct-IsValid}
use hetero_indexing.Art.{inner, key_byte, find_first, find_child}
use hetero_indexing.System.{IndexSys}
use hetero_indexing.Float.Example.{upper_header, upper_children, two_nodes-IsTree, two_nodes-Swaps}
use hetero_indexing.Float.Root.{held}
use hetero_indexing.Float.Settled.{Settled}
use hetero_indexing.Float.Search.{HasSame}
use hetero_indexing.Index.{index_query}
use hetero_indexing.Index.Query.{counted, index_query_lem}

-- A stand-in for the hash.
abbrev adding : Murmur
adding = record { x64_128 = λ k s. (s, k + 2 * s); x64_64 = λ k s. k + 2 * s; upper = λ k s. refl }

abbrev system : IndexSys
system = record {
  has_special_key = λ _. 0;
  special_key_val = λ _. 0;
  cm = record { width = 4; depth = 2; seed = 0; shift = 2; counts = replicate 8 0 };
  hash = Hash.construct 0 2 9;
  tree = record { root = inner upper_header upper_children; size = 3; buffer_count = 2 };
}

two_nodes-Settled :
    Settled adding
      (counted adding system 769).0
      769
      (counted adding system 769).1
      system.tree.root
      0
      (λ _. 0)
unfolding find_child find_first key_byte
two_nodes-Settled zero q = (
  λ i o. absurd (ground (arith, o)),
  λ slot l a.
      two_nodes-Swaps adding (counted adding system 769).0 (counted adding system 769).1 slot,
)
two_nodes-Settled (suc i) q = absurd (ground (arith, q))

new_count : (Hash.construct 0 2 9).count ≡ 0
unfolding Hash.construct
new_count = refl

counters : (j : ℕ) → get_or system.cm.counts j 0 ≤ 0
counters j = omega (arith, get_or-replicate {A = ℕ} 8 j 0)

counted_once : (counted adding system 769).1 ≤ 0 + 1
unfolding Hash.query
counted_once =
    inc-le adding 0 769 (some (adding.x64_128 769 system.hash.seed)) refl (omega arith)
      (omega arith) (omega arith) counters

index_query_lem_example :
    let r = index_query adding system 769 in
    (r.1 ≡ held adding system.hash system.tree.root 769) × HasSame adding (λ _. 0) system r.0
index_query_lem_example =
    index_query_lem adding system 769 (λ _. 0) (construct-IsValid adding 0 1 9 (omega arith)).0
      (omega (arith, new_count)) two_nodes-IsTree two_nodes-Settled refl (omega arith)
      (omega (arith, counted_once))
