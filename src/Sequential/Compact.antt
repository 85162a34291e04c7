-- ===== src/Sequential/Compact.antt =====
-- src/sequential: hash_insert_nocheck compares the address of a slot's key with 0, and what that leaves
-- of the pass of index_compact over a node.
use hetero_indexing.Prelude.{
  ℕ, zero, suc, ◌+◌, ◌-◌, ◌*◌, ◌^◌, ◌<◌, ◌≤◌, ◌≡◌, refl, ◌∙◌, List, [], ◌∷◌, Bool, true, false, not,
  ◌&&◌, none, some, Option, ◌==◌, ltb, get_or, length, arith, inl, inr, Bool-cases, Option-cases,
  bit_and-le,
}
use mathlib.Core.Path.{subst}
use hetero_indexing.Common.{Entry, Murmur, bin_capacity, is_special_key, u64}
use hetero_indexing.Hash.{find, Bin, HashSys, index}
use hetero_indexing.Art.{Header, Node, null, leaf, inner, find_child, key_byte}
use hetero_indexing.Tree.{
  art_insert_no_replace, insert, insert_buffer, place_last, Inserted, prefix_mismatch,
}
use hetero_indexing.Index.{Compaction, node_at, pair_at, clear_buffer, load_below}
use hetero_indexing.Sequential.{place_at, hash_insert_nocheck, compact_slot, compact_node}

-- A value was read where the key was found.
abbrev Says : Inserted → Type 0
Says r = (elim r.value_read [ none ↦ false | some x ↦ true ]) ≡ r.found_key

abbrev AllSays : Option Inserted → Type 0
AllSays none = Unit
AllSays (some r) = Says r

insert_buffer-Says :
    (mem replace : Bool) (h : Header) (ch : ℕ → Node) (e : Entry)
    → AllSays (insert_buffer mem replace h ch e)
unfolding insert_buffer
insert_buffer-Says false replace h ch e = tt
insert_buffer-Says true true h ch e = elim (Option-cases (find e.key h.buffer)) [
  | inl o ↦ rw (insert_buffer, o) tt
  | inr (x, o) ↦ rw (insert_buffer, o) refl
]
insert_buffer-Says true false h ch e = elim (Option-cases (find e.key h.buffer)) [
  | inr (x, o) ↦ rw (insert_buffer, o) refl
  | inl o ↦ elim (Option-cases (place_last e h.buffer)) [
    | inl p ↦ rw (insert_buffer, o, p) tt
    | inr (b, p) ↦ rw (insert_buffer, o, p) refl
  ]
]

insert-Says : (mem replace : Bool) (o : Node) (e : Entry) (d : ℕ) → Says (insert mem replace o e d)
unfolding insert
insert-Says mem replace null e d = refl
insert-Says mem replace (leaf l) e d = elim (Bool-cases (l.key == e.key)) [
  | inl q ↦ rw q refl
  | inr q ↦ rw q refl
]
insert-Says mem replace (inner h ch) e d =
    let next = d + h.partial_len in
    let diff = prefix_mismatch h ch e.key d in
    elim (Option-cases (insert_buffer mem replace h ch e)) [
      | inr (r, o) ↦
          let said = insert_buffer-Says mem replace h ch e in rw (insert, o) (subst AllSays o said)
      | inl o ↦ elim (Bool-cases (not (h.partial_len == 0) && ltb diff h.partial_len)) [
        | inl q ↦ rw (insert, o, q) refl
        | inr q ↦ elim (Option-cases (find_child h ch (key_byte e.key next))) [
          | inl z ↦ rw (insert, o, q, z) refl
          | inr (i, z) ↦ rw (insert, o, q, z) (insert-Says mem replace (ch i) e (next + 1))
        ]
      ]
    ]

-- At addresses of one word from which no slot is at 0 the loop passes all slots.
place_at-none :
    (bin j key value : ℕ) (b : Bin)
    → 0 < bin
    → bin + 16 * (j + length b) ≤ 2 ^ 64
    → place_at bin j key value b ≡ none
unfolding place_at
place_at-none bin j key value [] p l = refl
place_at-none bin j key value (e ∷ es) p l =
    let away : (u64 (bin + 16 * j) == 0) ≡ false = ground (arith, p, l) in
    rw (away, place_at-none bin (j + 1) key value es p (omega (arith, l))) refl

module _ (m : Murmur) (entries : HashSys → ℕ) where
  -- A table of full-size bins at an address other than NULL, all of it below 2 ^ 64.
  pub record IsAllocated (t : HashSys) : Type 0 where
    pub size_pos : 0 < t.size
    pub widths : (i : ℕ) → i < t.size → length (get_or t.bins i []) ≡ bin_capacity
    pub address_pos : 0 < entries t
    pub address_word : entries t + 128 * t.size ≤ 2 ^ 64

  -- hash_insert_nocheck of the sequential variant never inserts: on a table in memory it reports a
  -- full bin for every pair, however empty the bin is, and leaves the table as it is.
  pub hash_insert_nocheck_lem :
      (t : HashSys) (key value : ℕ)
      → IsAllocated t
      → hash_insert_nocheck m entries t key value ≡ (t, false)
  unfolding hash_insert_nocheck
  hash_insert_nocheck_lem t key value a =
      let i = index m t key in
      let below : i < t.size = omega (
        arith,
        a.size_pos,
        a.address_word,
        a.address_pos,
        bit_and-le (m.x64_64 key t.seed) (u64 (t.size + 2 ^ 64 - 1)),
      ) in
      let word : u64 (entries t + 128 * i) ≡ entries t + 128 * i =
        omega (arith, below, a.address_word) in
      let full =
        place_at-none (u64 (entries t + 128 * i)) 0 key value (get_or t.bins i [])
          (omega (arith, word, a.address_pos))
          (omega (arith, word, below, a.address_word, a.widths i below)) in
      rw (hash_insert_nocheck, full) refl

  module _ (num den : ℕ) where
    -- The table is the one before, and the count of the tree.
    abbrev pub Keeps : Compaction → Compaction → Type 0
    Keeps s s' = (s'.hash ≡ s.hash) × (s'.tree.size ≡ s.tree.size)

    compact_slot-Keeps :
        (path : List ℕ) (j : ℕ) (s : Compaction)
        → IsAllocated s.hash
        → s.tree.size < 2 ^ 64
        → Keeps s (compact_slot m entries num den path j s)
    unfolding compact_slot clear_buffer art_insert_no_replace
    compact_slot-Keeps path j s a l =
        let own = pair_at (node_at path s.tree.root) j in
        let fails = hash_insert_nocheck_lem s.hash own.key own.value a in
        let r = insert true false s.tree.root own 0 in
        let found = insert-Says true false s.tree.root own 0 in
        elim (Bool-cases (is_special_key own.key)) [
          | inl q ↦ rw q (refl, refl)
          | inr q ↦ elim (Bool-cases (ltb s.failures 3 && load_below s.hash num den)) [
            | inr z ↦
                rw (q, z)
                  (elim (Option-cases r.value_read) [
                    | inl o ↦ rw o (refl, ground (arith, found, o, l))
                    | inr (x, o) ↦ rw o (refl, ground (arith, found, o, l))
                  ])
            | inl z ↦
                rw (q, z, fails)
                  (elim (Option-cases r.value_read) [
                    | inl o ↦ rw o (refl, ground (arith, found, o, l))
                    | inr (x, o) ↦ rw o (refl, ground (arith, found, o, l))
                  ])
          ]
        ]

    -- index_compact of the sequential variant moves no pair into the table: up to any load factor, its
    -- pass over `n` slots of the buffer of any node, from slot `j` on, leaves a table in memory as it
    -- is, and a tree whose size is a 64-bit word with the size that it had.
    pub compact_node-Keeps :
        (n j : ℕ) (path : List ℕ) (s : Compaction)
        → IsAllocated s.hash
        → s.tree.size < 2 ^ 64
        → Keeps s (compact_node m entries n j num den path s)
    unfolding compact_node
    compact_node-Keeps zero j path s a l = (refl, refl)
    compact_node-Keeps (suc n) j path s a l =
        let s' = compact_slot m entries num den path j s in
        let k = compact_slot-Keeps path j s a l in
        let rest = compact_node-Keeps n (j + 1) path s' (rw k.0 a) (omega (arith, k.1, l)) in
        (rest.0 ∙ k.0, rest.1 ∙ k.1)
