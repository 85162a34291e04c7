-- ===== src/Float/Root.antt =====
-- art_float from the root to the table.
use hetero_indexing.Prelude.{
  ℕ, ◌+◌, ◌-◌, ◌^◌, ◌<◌, ◌≡◌, ◌≢◌, refl, sym, ap, ◌&&◌, Bool, [], ◌∙◌, true, false, Option, none,
  some, arith, ◌==◌, get_or, set, if◌then◌else◌, Bool-cases, inl, inr,
}
use mathlib.Core.Path.{subst}
use native.Mathlib.Decide.{ℕ_discrete}
use hetero_indexing.Common.{Entry, bin_capacity, buf_len, Murmur}
use hetero_indexing.Hash.{HashSys, insert_nocheck, find}
use hetero_indexing.Hash.Bin.{used, find-eq-none_iff}
use hetero_indexing.Hash.Table
use hetero_indexing.Hash.Table.{view, Adds, insert_nocheck_lem}
use hetero_indexing.Art.{Header, Node, inner, empty_entry, key_byte}
use hetero_indexing.Art.Shape.{child_at}
use hetero_indexing.Tree.{lookup}
use hetero_indexing.Tree.Shape.{IsTree, Buffered, mismatch, seen, lookup_inner, extend}
use hetero_indexing.Float.{Info, float_root, pack_info, value_to_store, zero_key}
use hetero_indexing.Float.Pack.{unpack_info-pack_info}
use hetero_indexing.Float.Slots.{occurs-get_or, find-set_other, length-set_slot}
use hetero_indexing.Float.Found.{rebuffered-IsTree, lookup-rebuffered}

either {ℓ} :
    {A : Type ℓ} (P : A → Type 0) (b : Bool) (x y : A)
    → (b ≡ true → P x)
    → (b ≡ false → P y)
    → P (if b then x else y)
either P true x y f g = f refl
either P false x y f g = g refl

module _ (m : Murmur) where
  -- What the table and then the tree hold under a key.
  abbrev pub held : HashSys → Node → ℕ → Option ℕ
  held t n k = elim (view m t k) [ none ↦ lookup n k 0 | some x ↦ some x ]

module _ (m : Murmur) (t : HashSys) (key freq slot : ℕ) (new : Option ℕ) (path : ℕ → ℕ) (g : Header)
    (below : ℕ → Node) where
  abbrev own : Entry
  own = get_or g.buffer slot empty_entry

  -- The table, the root and whether the pair was moved.
  abbrev pub floated : HashSys × Node × Bool
  floated = float_root m t key (pack_info freq slot (0 + g.partial_len) 0) new g below

  -- The key has the value that was found or the one to store, every other key what it had.
  abbrev pub Lifts : HashSys × Node × Bool → Type 0
  Lifts r =
      Table.IsValid m r.0
      × IsTree r.1 0 path
      × ((k : ℕ)
          → k ≢ 0
          → held m r.0 r.1 k ≡ (
              if key == k && r.2
              then some (value_to_store new own.value)
              else held m t (inner g below) k))

  module _ (tree : IsTree (inner g below) 0 path) (table : Table.IsValid m t)
      (absent : view m t key ≡ none) (room : t.count < 2 ^ 64 - 1) (n : key ≢ 0)
      (fl : freq < 2 ^ 31) (slot_lt : slot < buf_len) (in_slot : own.key ≡ key) where
    abbrev emptied : Node
    emptied = inner (record g { buffer = set g.buffer slot (zero_key own) }) below

    found_there : find key g.buffer ≢ none
    found_there z = ground (
      arith,
      z,
      slot_lt,
      occurs-get_or key slot g.buffer in_slot,
      find-eq-none_iff key g.buffer,
      tree.5,
    )

    same : (k : ℕ) → k ≢ 0 → key ≢ k → find k (set g.buffer slot (zero_key own)) ≡ find k g.buffer
    same k z p =
        find-set_other k slot (zero_key own) g.buffer (λ q. z (sym q)) (λ q. p (sym in_slot ∙ q))

    zeroed-Buffered :
        Buffered (0 + g.partial_len) (extend path 0 g 0) (set g.buffer slot (zero_key own))
    zeroed-Buffered k z q = elim (ℕ_discrete key k) [
      | yes p ↦ tree.3 k z (λ o. found_there (ap (λ w. find w g.buffer) p ∙ o))
      | no p ↦ tree.3 k z (λ o. q (same k z p ∙ o))
    ]

    emptied-IsTree : IsTree emptied 0 path
    emptied-IsTree =
        rebuffered-IsTree g below 0 path tree (set g.buffer slot (zero_key own))
          (length-set_slot slot (zero_key own) g.buffer ∙ tree.5) zeroed-Buffered

    reads : (k : ℕ) → k ≢ 0 → key ≢ k → lookup emptied k 0 ≡ lookup (inner g below) k 0
    reads k z p =
        lookup-rebuffered g below 0 path tree (set g.buffer slot (zero_key own)) k
        ∙ ap
            (λ o. seen (mismatch g k 0) o (
              lookup (child_at g below (key_byte k (0 + g.partial_len))) k (0 + g.partial_len + 1)))
            (same k z p)
        ∙ sym (lookup_inner g below k 0 tree.1)

    held_after :
        (t' : HashSys)
        → Adds m t t' key (value_to_store new own.value)
        → (k : ℕ) → k ≢ 0
        → held m t' emptied k ≡ (
            if key == k && true
            then some (value_to_store new own.value)
            else held m t (inner g below) k)
    held_after t' adds k z =
        let after = λ (o : Option ℕ) (u : Option ℕ). (elim o as (λ _. Option ℕ) [
          | none ↦ u
          | some x ↦ some x
        ]) in
        ap (λ o. after o (lookup emptied k 0)) (adds.1 k z) ∙ elim (ℕ_discrete key k) [
          | yes p ↦ let test : (key == k) ≡ true = ground (arith, p) in rw test refl
          | no p ↦
              let test : (key == k) ≡ false = ground (arith, p) in
              rw test (ap (after (view m t k)) (reads k z p))
        ]

    with_slot : ℕ → HashSys × Node × Bool
    with_slot i =
        let e = get_or g.buffer i empty_entry in
        let r = insert_nocheck m t key (value_to_store new e.value) in
        if r.1
        then (r.0, inner (record g { buffer = set g.buffer i (zero_key e) }) below, true)
        else (t, inner g below, false)

    floated-with_slot : floated ≡ with_slot slot
    unfolding float_root with_slot
    floated-with_slot = ap with_slot (
        ap (λ i. Info.slot i)
          (unpack_info-pack_info freq slot (0 + g.partial_len) 0 fl (omega (arith, slot_lt))
            (omega (arith, tree.1)) (omega arith)))

    -- art_float from the root, in whose buffer a pair was found that is not in a valid table, to that
    -- table: the table stays valid and the tree well-formed, and if the pair was moved, the key has the
    -- value that was found or the one to store; every other key has what it had.
    pub float_root_lem : Lifts floated
    unfolding with_slot
    float_root_lem =
        let value = value_to_store new own.value in
        let r = insert_nocheck m t key value in
        let added = insert_nocheck_lem m table key value n absent room in
        subst Lifts (sym floated-with_slot) (
          either Lifts r.1 (r.0, emptied, true) (t, inner g below, false)
            (λ q.
              let adds =
                subst
                  (λ b.
                    if b
                    then Adds m t r.0 key value
                    else ((r.0 ≡ t)
                        × (used (get_or t.bins (Table.home m t key) []) ≡ bin_capacity)))
                  q added in
              (adds.0, emptied-IsTree, held_after r.0 adds))
            (λ q. (
              table,
              tree,
              λ k z. elim (Bool-cases (key == k)) [ inl w ↦ rw w refl | inr w ↦ rw w refl ],
            )))
