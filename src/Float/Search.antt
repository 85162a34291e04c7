-- ===== src/Float/Search.antt =====
-- art_search on a system whose table does not hold the key.
use hetero_indexing.Prelude.{
  ℕ, ◌+◌, ◌-◌, ◌^◌, ◌<◌, ◌≡◌, ◌≢◌, refl, sym, ap, ◌∙◌, Bool, true, false, ◌&&◌, Option, none, some,
  arith, ◌==◌, get_or, if◌then◌else◌, Bool-cases, inl, inr,
}
use mathlib.Core.Path.{subst}
use native.Mathlib.Decide.{ℕ_discrete}
use hetero_indexing.Common.{Murmur, u64}
use hetero_indexing.Hash.{HashSys}
use hetero_indexing.Hash.Table
use hetero_indexing.Hash.Table.{view}
use hetero_indexing.Art.{Node, inner, empty_entry}
use hetero_indexing.Tree.{lookup}
use hetero_indexing.Tree.Shape.{IsTree}
use hetero_indexing.System.{IndexSys}
use hetero_indexing.Float.{Sought, seek, from_root, art_search}
use hetero_indexing.Float.Value.{seek-lookup}
use hetero_indexing.Float.Root
use hetero_indexing.Float.Root.{held, Lifts, float_root_lem}
use hetero_indexing.Float.Settled.{Settled, Stays, Pends}
use hetero_indexing.Float.Back.{seek-Keeps}

module _ (m : Murmur) (path : ℕ → ℕ) (s : IndexSys) where
  -- A system with the same pairs.
  abbrev pub HasSame : IndexSys → Type 0
  HasSame s' =
      Table.IsValid m s'.hash
      × IsTree s'.tree.root 0 path
      × ((k : ℕ) → k ≢ 0 → k < 2 ^ 64 → held m s'.hash s'.tree.root k ≡ held m s.hash s.tree.root k)

module _ (m : Murmur) (s : IndexSys) (key freq : ℕ) (path : ℕ → ℕ) where
  module _ (table : Table.IsValid m s.hash) (absent : view m s.hash key ≡ none)
      (room : s.hash.count < 2 ^ 64 - 1) (tree : IsTree s.tree.root 0 path)
      (settled : Settled m s.cm key freq s.tree.root 0 path) (n : key ≢ 0) (w64 : key < 2 ^ 64)
      (fl : freq < 2 ^ 31) where
    abbrev sought : Sought
    sought = seek m s.cm key freq none s.tree.root 0

    value : sought.value ≡ lookup s.tree.root key 0
    value = seek-lookup m s.cm key freq none s.tree.root 0 path tree

    held_absent : held m s.hash s.tree.root key ≡ lookup s.tree.root key 0
    held_absent =
        ap (λ o. elim o as (λ _. Option ℕ) [ none ↦ lookup s.tree.root key 0 | some x ↦ some x ])
          absent

    same_reads :
        (k : ℕ)
        → (if key == k then lookup s.tree.root key 0 else lookup s.tree.root k 0)
          ≡ lookup s.tree.root k 0
    same_reads k = elim (ℕ_discrete key k) [
      | yes p ↦
          let test : (key == k) ≡ true = ground (arith, p) in
          rw test (ap (λ z. lookup s.tree.root z 0) p)
      | no p ↦ let test : (key == k) ≡ false = ground (arith, p) in rw test refl
    ]

    stayed :
        Stays m s.cm key freq 0 path s.tree.root sought
        → HasSame m path s (from_root m s key freq none sought)
    unfolding from_root
    stayed u =
        rw (from_root, u.0)
          (
            table,
            u.1.0,
            λ k z w.
                ap (λ o. elim (view m s.hash k) as (λ _. Option ℕ) [ none ↦ o | some x ↦ some x ])
                  (u.1.1 k z w ∙ same_reads k),
          )

    module _ (u : Pends m s.cm key freq 0 s.tree.root sought) where
      abbrev floated : HashSys × Node × Bool
      floated = Root.floated m s.hash key freq u.slot none path u.header u.below

      abbrev left : IndexSys
      left = record s {
        hash = floated.0;
        tree = record {
          root = floated.1;
          size = u64 (s.tree.size + 2 ^ 64 - 1);
          buffer_count = u64 (s.tree.buffer_count + 2 ^ 64 - 1);
        };
      }

      abbrev kept : IndexSys
      kept = record s {
        tree = record s.tree {
          root = inner u.header u.below;
          buffer_count = u64 (s.tree.buffer_count + sought.delta);
        };
      }

      whole : from_root m s key freq none sought ≡ (if floated.2 then left else kept)
      unfolding from_root
      whole = rw (from_root, u.pending, u.node) refl

      root-IsTree : IsTree (inner u.header u.below) 0 path
      root-IsTree = subst (λ o. IsTree o 0 path) u.shape tree

      lifted : Lifts m s.hash key freq u.slot none path u.header u.below floated
      lifted =
          float_root_lem m s.hash key freq u.slot none path u.header u.below root-IsTree table
            absent room n fl u.slot_lt u.in_slot

      had : held m s.hash s.tree.root key ≡ some (get_or u.header.buffer u.slot empty_entry).value
      had = held_absent ∙ sym value ∙ u.value

      after_lift :
          (k : ℕ)
          → (if key == k && true
              then some (get_or u.header.buffer u.slot empty_entry).value
              else held m s.hash (inner u.header u.below) k)
            ≡ held m s.hash s.tree.root k
      after_lift k =
          let root_same = ap (λ o. held m s.hash o k) (sym u.shape) in
          elim (ℕ_discrete key k) [
            | yes p ↦
                let test : (key == k) ≡ true = ground (arith, p) in
                rw test (sym had ∙ ap (held m s.hash s.tree.root) p)
            | no p ↦ let test : (key == k) ≡ false = ground (arith, p) in rw test root_same
          ]

      pending-HasSame : HasSame m path s (from_root m s key freq none sought)
      pending-HasSame = subst (HasSame m path s) (sym whole) (elim (Bool-cases floated.2) [
        | inr q ↦ rw q (table, root-IsTree, λ k z w. ap (λ o. held m s.hash o k) (sym u.shape))
        | inl q ↦ rw q (
          lifted.0,
          lifted.1,
          λ k z w.
              lifted.2 k z
              ∙ ap
                  (λ b.
                    if key == k && b
                    then some (get_or u.header.buffer u.slot empty_entry).value
                    else held m s.hash (inner u.header u.below) k)
                  q
              ∙ after_lift k,
        )
      ])

    -- art_search of a 64-bit key other than 0 that a valid table with room in its count does not hold,
    -- in a well-formed tree that is settled for the key, with a frequency below 2 ^ 31: it gives what
    -- the tree holds, and whatever it floats, the table stays valid, the tree well-formed, and both
    -- hold what they held before.
    pub art_search_lem :
        let r = art_search m s key freq in
        (r.1 ≡ held m s.hash s.tree.root key) × HasSame m path s r.0
    unfolding art_search
    art_search_lem = (
      value ∙ sym held_absent,
      elim (seek-Keeps m s.cm key freq n w64 fl s.tree.root 0 path tree settled) [
        | inl u ↦ stayed u
        | inr u ↦ pending-HasSame u
      ],
    )
