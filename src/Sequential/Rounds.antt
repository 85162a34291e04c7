-- ===== src/Sequential/Rounds.antt =====
-- src/sequential: the loop of index_insert through REINSERT, which doubles the table each time, on an
-- index whose tree has no buffered pairs, with the walk of the compaction in each pass.
use hetero_indexing.Prelude.{
  ℕ, zero, suc, ◌+◌, ◌*◌, ◌^◌, ◌<◌, ◌≤◌, ◌≡◌, ◌⊎◌, refl, ap, ◌∙◌, List, [], ◌∷◌, ◌++◌, Bool, true,
  false, Option, none, some, ◌==◌, ltb, if◌then◌else◌, get_or, arith, inl, inr, Bool-cases,
}
use native.Mathlib.Decide.{ℕ_discrete}
use native.Mathlib.Nat.{pow-succ', pow-le-pow_right}
use hetero_indexing.Common.{Murmur, bin_capacity, buf_len, is_special_key, mem_type, u64}
use hetero_indexing.Hash.{HashSys, index_of, expand_reinsert}
use hetero_indexing.Hash.Reinsert.{expand_reinsert-IsWide}
use hetero_indexing.Art.{is_null}
use hetero_indexing.System.{Status, ok, hash_bin_full, element_not_found, element_already_exists}
use hetero_indexing.Index.{Compaction, node_at, children_of, queue_cells}
use hetero_indexing.Index.Walk.{
  inner_count, Calm, pair_at-Calm, AllCalm, total, AllCalm-append, total-append, children_give,
  inner_count-pos, walk_calm,
}
use hetero_indexing.Sequential.{
  SequentialSys, hash_insert, hash_modify, index_insert, reinsert, compact_slot, compact_node,
  compact_loop, index_compact, insert_tree, max_tree_hash_ratio,
}
use hetero_indexing.Sequential.Modify.{scan-cases}

module _ (m : Murmur) where
  -- hash_insert succeeds, or leaves the system as it is and reports a full bin.
  hash_insert-cases :
      (s : SequentialSys) (key value : ℕ)
      → ((hash_insert m s key value).1 ≡ ok) ⊎ (hash_insert m s key value ≡ (s, hash_bin_full))
  unfolding hash_modify
  hash_insert-cases s key value =
      let b = get_or s.hash.bins (index_of s.hash (m.x64_128 key s.hash.seed).1) [] in
      elim (scan-cases key 0 none b) [
        | inl e ↦ inl (rw (hash_modify, e) refl)
        | inr (none, e) ↦ inr (rw (hash_modify, e) refl)
        | inr (some i, e) ↦ inl (rw (hash_modify, e) refl)
      ]

module _ (m : Murmur) (entries : HashSys → ℕ) (num den : ℕ) where
  compact_slot-Calm :
      (path : List ℕ) (j : ℕ) (s : Compaction)
      → Calm (node_at path s.tree.root)
      → compact_slot m entries num den path j s ≡ s
  unfolding compact_slot
  compact_slot-Calm path j s c = rw (pair_at-Calm (node_at path s.tree.root) j c) refl

  compact_node-Calm :
      (n j : ℕ) (path : List ℕ) (s : Compaction)
      → Calm (node_at path s.tree.root)
      → compact_node m entries n j num den path s ≡ s
  unfolding compact_node
  compact_node-Calm zero j path s c = refl
  compact_node-Calm (suc n) j path s c =
      rw (compact_slot-Calm path j s c) (compact_node-Calm n (j + 1) path s c)

  -- With a round for each inner node below the queue the walk ends, and nothing has moved.
  compact_loop-Calm :
      (n : ℕ) (q : List (List ℕ)) (s : Compaction)
      → AllCalm s.tree.root q
      → total s.tree.root q ≤ n
      → compact_loop m entries n num den q s ≡ some s
  unfolding compact_loop
  compact_loop-Calm zero [] s c l = refl
  compact_loop-Calm (suc n) [] s c l = refl
  compact_loop-Calm zero (path ∷ q) s c l =
      absurd (omega (arith, l, inner_count-pos (node_at path s.tree.root) c.1))
  compact_loop-Calm (suc n) (path ∷ q) s c l =
      let root = s.tree.root in
      let (more, now, calm, count) = children_give root path c.0 c.1 in
      let after : Compaction → Option Compaction = λ t.
        if t.tree.buffer_count == 0
        then some t
        else (elim (children_of path (node_at path t.tree.root)) [
          | none ↦ none
          | some more ↦ compact_loop m entries n num den (q ++ more) t
        ]) in
      ap after (compact_node-Calm buf_len 0 path s c.0)
      ∙ (elim (Bool-cases (s.tree.buffer_count == 0)) [
        | inl z ↦ rw z refl
        | inr z ↦
            rw (z, now)
              (compact_loop-Calm n (q ++ more) s (AllCalm-append root q more c.2 calm)
                (omega (arith, total-append root q more, count, l)))
      ])

  index_compact-Calm :
      (n : ℕ) (s : SequentialSys)
      → Calm s.tree.root
      → inner_count s.tree.root ≤ n
      → is_null s.tree.root ≡ false
      → (queue_cells s.hash == 0) ≡ false
      → index_compact m entries n num den s ≡ some s
  unfolding index_compact node_at
  index_compact-Calm n s c l r q =
      let start : Compaction = record { hash = s.hash; tree = s.tree; failures = 0 } in
      let still : Option Compaction → Option SequentialSys =
        λ o. elim o [ none ↦ none | some r ↦ some (record s { hash = r.hash; tree = r.tree }) ] in
      rw q (
        walk_calm s.tree.root s (still (compact_loop m entries n num den ([] ∷ []) start)) r
          (λ i. ap still (compact_loop-Calm n ([] ∷ []) start (c, i, tt) (omega (arith, l)))))

module _ (m : Murmur) (entries : HashSys → ℕ) (rand : ℕ) where
  -- The call returns.
  abbrev pub Returns : Option (SequentialSys × Bool) → Type 0
  Returns o = (r : SequentialSys × Bool) × (o ≡ some r)

  -- A tree that is not empty, has no buffered pairs, no inner node in a cell that is not in use, and at
  -- most `n` inner nodes and 2 ^ 40 pairs.
  pub record IsQuiet (n : ℕ) (s : SequentialSys) : Type 0 where
    pub calm : Calm s.tree.root
    pub nodes_le : inner_count s.tree.root ≤ n
    pub filled : is_null s.tree.root ≡ false
    pub size_le : s.tree.size ≤ 2 ^ 40

  -- What is left of a round whose bin is full.
  abbrev wider : SequentialSys → SequentialSys
  wider s = record s { hash = expand_reinsert m rand s.hash }

  wider_size :
      (bits : ℕ) (s : SequentialSys)
      → s.hash.size ≡ 2 ^ bits
      → bits < 35
      → (wider s).hash.size ≡ 2 ^ (bits + 1)
  wider_size bits s z l =
      let up : bits + 1 ≡ suc bits = omega arith in
      let next : 2 ^ (bits + 1) ≡ 2 ^ suc bits = ap (λ i. 2 ^ i) up in
      let pow : 2 ^ (bits + 1) ≡ 2 ^ bits * 2 = omega (arith, next, pow-succ' 2 bits) in
      let small : 2 ^ (bits + 1) ≤ 2 ^ 35 =
        pow-le-pow_right (omega arith) {j = 35} (omega (arith, l)) in
      omega (arith, (expand_reinsert-IsWide m rand s.hash).0, z, pow, small)

  wider_cells :
      (bits : ℕ) (s : SequentialSys)
      → s.hash.size ≡ 2 ^ bits
      → 3 ≤ bits
      → bits < 35
      → (queue_cells (wider s).hash == 0) ≡ false
  wider_cells bits s z low l =
      let small : 2 ^ (bits + 1) ≤ 2 ^ 35 =
        pow-le-pow_right (omega arith) {j = 35} (omega (arith, l)) in
      let large : 2 ^ 4 ≤ 2 ^ (bits + 1) =
        pow-le-pow_right (omega arith) {i = 4} (omega (arith, low)) in
      ground (arith, wider_size bits s z l, small, large)

  -- A round after hash_insert.
  abbrev round : ℕ → ℕ → ℕ → ℕ → SequentialSys × Status → Option (SequentialSys × Bool)
  round tries n key value t =
      let again : Option (SequentialSys × Bool) =
        elim (index_compact m entries n 9 10 (wider t.0)) [
          | none ↦ none
          | some compacted ↦ reinsert m entries rand tries n compacted key value
        ] in
      let full : Option (SequentialSys × Bool) =
        if ltb (u64 (t.0.hash.size * bin_capacity * max_tree_hash_ratio)) t.0.tree.size
        then again
        else some (insert_tree m entries rand t.0 key value mem_type) in
      elim t.1 [
        | ok ↦ some (t.0, true)
        | element_not_found ↦ full
        | hash_bin_full ↦ full
        | element_already_exists ↦ full
      ]

  reinsert-round :
      (tries n : ℕ) (s : SequentialSys) (key value : ℕ)
      → reinsert m entries rand (suc tries) n s key value
        ≡ round tries n key value (hash_insert m s key value)
  unfolding reinsert
  reinsert-round tries n s key value = refl

  reinsert-Returns :
      (tries bits n : ℕ) (s : SequentialSys) (key value : ℕ)
      → IsQuiet n s
      → s.hash.size ≡ 2 ^ bits
      → 3 ≤ bits
      → bits ≤ 35
      → 35 < bits + tries
      → Returns (reinsert m entries rand tries n s key value)
  reinsert-Returns zero bits n s key value v z low l e = absurd (omega (arith, l, e))
  reinsert-Returns (suc tries) bits n s key value v z low l e =
      elim (hash_insert-cases m s key value) [
        | inl o ↦ rw (reinsert-round tries n s key value, o) (_, refl)
        | inr o ↦
            let whole = reinsert-round tries n s key value ∙ ap (round tries n key value) o in
            elim (Bool-cases
              (ltb (u64 (s.hash.size * bin_capacity * max_tree_hash_ratio)) s.tree.size)) [
                | inr q ↦ rw (whole, q) (_, refl)
                | inl q ↦
                    let less : bits < 35 = elim (ℕ_discrete bits 35) [
                      | no a ↦ omega (arith, a, l)
                      | yes a ↦
                          let top : s.hash.size ≡ 2 ^ 35 = z ∙ ap (λ i. 2 ^ i) a in
                          absurd (ground (arith, top, q, v.size_le))
                    ] in
                    let same =
                      index_compact-Calm m entries 9 10 n (wider s) v.calm v.nodes_le v.filled
                        (wider_cells bits s z low less) in
                    rw (whole, q, same)
                      (reinsert-Returns tries (bits + 1) n (wider s) key value
                        (record {
                          calm = v.calm;
                          nodes_le = v.nodes_le;
                          filled = v.filled;
                          size_le = v.size_le;
                        })
                        (wider_size bits s z less) (omega (arith, low)) (omega (arith, less))
                        (omega (arith, e)))
              ]
      ]

  -- index_insert of the sequential variant returns, whatever the key and the storage type, on an index
  -- whose tree is not empty, has no buffered pairs, no inner node in a cell that is not in use and at
  -- most 2 ^ 40 pairs, whatever its count of buffered pairs says: with a table of 2 ^ bits bins, `bits`
  -- from 3 to 35, 36 - bits passes of REINSERT are enough, and in each a round of the compaction for
  -- every inner node.
  pub index_insert-Returns :
      (tries bits n : ℕ) (s : SequentialSys) (key value storage_type : ℕ)
      → IsQuiet n s
      → s.hash.size ≡ 2 ^ bits
      → 3 ≤ bits
      → bits ≤ 35
      → 35 < bits + tries
      → Returns (index_insert m entries rand tries n s key value storage_type)
  unfolding index_insert
  index_insert-Returns tries bits n s key value storage_type v z low l e =
      let again = reinsert-Returns tries bits n s key value v z low l e in
      elim (Bool-cases (is_special_key key)) [
        | inl p ↦ rw p (_, refl)
        | inr p ↦ elim (Bool-cases (storage_type == mem_type)) [
          | inl t ↦ rw (p, t) again
          | inr t ↦ rw (p, t) (_, refl)
        ]
      ]
