-- ===== src/Index/Expand.antt =====
-- index_expand and index_compact on an index whose tree has no buffered pairs.
use hetero_indexing.Prelude.{
  ℕ, zero, suc, ◌+◌, ◌*◌, ◌^◌, ◌<◌, ◌≤◌, ◌≡◌, ◌≢◌, refl, ap, ◌∙◌, List, [], ◌∷◌, true, false,
  Option, none, some, ◌==◌, get_or, arith, inl, inr,
}
use native.Mathlib.Decide.{ℕ_discrete}
use hetero_indexing.Common.{Entry, Murmur, buf_len, is_special_key}
use hetero_indexing.Hash.{find, expand_copy}
use hetero_indexing.Hash.Expand.{expand_copy_lem}
use hetero_indexing.Art.{Node, null, leaf, inner, is_null, empty_entry}
use hetero_indexing.Tree.{lookup}
use hetero_indexing.Tree.Plain.{Quiet, IsPlain}
use hetero_indexing.System.{IndexSys}
use hetero_indexing.Index.{
  Compaction, node_at, pair_at, queue_cells, compact_slot, compact_node, compact_loop,
  index_compact, index_expand,
}
use hetero_indexing.Index.Holds.{holds, first_of}
use hetero_indexing.Index.Insert.{plain_positive}
use hetero_indexing.Index.Remove.{IsIndex}

Quiet-slot : (es : List Entry) (j : ℕ) → Quiet es → (get_or es j empty_entry).key ≡ 0
unfolding find
Quiet-slot [] j q = refl
Quiet-slot (e ∷ es) zero q = elim (ℕ_discrete e.key 0) [
  | yes z ↦ z
  | no n ↦ absurd (ground (arith, q e.key n))
]
Quiet-slot (e ∷ es) (suc j) q = Quiet-slot es j (λ k n. ground (arith, q k n))

pub Quiet-pair :
    (es : List Entry) (j : ℕ) → Quiet es → is_special_key (get_or es j empty_entry).key ≡ true
Quiet-pair es j q = ground (arith, Quiet-slot es j q)

-- A buffer without pairs has special keys only.
pub pair_at-plain : (n : Node) (j : ℕ) → IsPlain n → is_special_key (pair_at n j).key ≡ true
unfolding pair_at
pair_at-plain null j p = refl
pair_at-plain (leaf e) j p = refl
pair_at-plain (inner h ch) j p = Quiet-pair h.buffer j p.0

-- The walk from a root that is not NULL.
pub walk_plain {ℓ} :
    {A : Type ℓ} (o : Node) (s : A) (moved : Option A)
    → is_null o ≡ false
    → moved ≡ some s
    → (elim o as (λ _. Option A) [ null ↦ none | leaf e ↦ some s | inner h ch ↦ moved ]) ≡ some s
walk_plain null s moved n q = absurd (ground (arith, n))
walk_plain (leaf e) s moved n q = refl
walk_plain (inner h ch) s moved n q = q

module _ (m : Murmur) (num den : ℕ) where
  compact_slot-plain :
      (j : ℕ) (s : Compaction) → IsPlain s.tree.root → compact_slot m num den [] j s ≡ s
  unfolding compact_slot node_at
  compact_slot-plain j s p = rw (pair_at-plain s.tree.root j p) refl

  compact_node-plain :
      (n j : ℕ) (s : Compaction) → IsPlain s.tree.root → compact_node m n j num den [] s ≡ s
  unfolding compact_node
  compact_node-plain zero j s p = refl
  compact_node-plain (suc n) j s p =
      rw (compact_slot-plain j s p) (compact_node-plain n (j + 1) s p)

  compact_loop-plain :
      (n : ℕ) (s : Compaction)
      → IsPlain s.tree.root
      → s.tree.buffer_count ≡ 0
      → compact_loop m (suc n) num den ([] ∷ []) s ≡ some s
  unfolding compact_loop
  compact_loop-plain n s p z = rw (compact_node-plain buf_len 0 s p, z) refl

  -- One round is enough, and nothing moves.
  pub index_compact-plain :
      (n : ℕ) (s : IndexSys)
      → IsPlain s.tree.root
      → s.tree.buffer_count ≡ 0
      → is_null s.tree.root ≡ false
      → (queue_cells s.hash == 0) ≡ false
      → index_compact m (suc n) num den s ≡ some s
  unfolding index_compact
  index_compact-plain n s p z r q =
      let start : Compaction = record { hash = s.hash; tree = s.tree; failures = 0 } in
      let still : Option Compaction → Option IndexSys =
        λ o. elim o [ none ↦ none | some r ↦ some (record s { hash = r.hash; tree = r.tree }) ] in
      rw q (
        walk_plain s.tree.root s (still (compact_loop m (suc n) num den ([] ∷ []) start)) r
          (ap still (compact_loop-plain n start p z)))

module _ (m : Murmur) (rand n : ℕ) (s : IndexSys) (v : IsIndex m s) where
  -- index_expand with hash_expand_copy, on an index whose tree is not empty and has no buffered pairs
  -- and that has no key in both its table and its tree, with a seed and 8 bins at least and fewer than
  -- 2 ^ 35: the compaction ends after one round, and the index that is left is such an index, with a
  -- table of twice the size, the same tree and what it held under every key that is not special.
  pub index_expand_lem :
      is_null s.tree.root ≡ false
      → s.hash.seed ≢ 0
      → 8 ≤ s.hash.size
      → s.hash.size < 2 ^ 35
      → (s' : IndexSys) × (index_expand m (expand_copy m rand) (suc n) s ≡ some s')
        × IsIndex m s'
        × (s'.hash.size ≡ s.hash.size * 2)
        × (s'.tree ≡ s.tree)
        × ((k : ℕ) → is_special_key k ≡ false → holds m s' k ≡ holds m s k)
  unfolding index_expand
  index_expand_lem r seeded low high =
      let t = expand_copy m rand s.hash in
      let w = expand_copy_lem m v.table rand seeded (omega arith) in
      let s' : IndexSys = record s { hash = t } in
      let cells : (queue_cells t == 0) ≡ false = ground (arith, w.2, low, high) in
      (
        s',
        index_compact-plain m 4 5 n s' v.plain v.unbuffered r cells,
        record {
          table = w.0;
          tree = v.tree;
          plain = v.plain;
          unbuffered = v.unbuffered;
          apart = λ k p l. elim (v.apart k p l) [
            | inl z ↦ inl (w.1 k (plain_positive k p) ∙ z)
            | inr z ↦ inr z
          ];
        },
        w.2,
        refl,
        λ k p. ap (λ o. first_of o (lookup s.tree.root k 0)) (w.1 k (plain_positive k p)),
      )
