-- ===== src/Index/Change.antt =====
-- index_update of a key that is not special, where the tree has no buffered pairs.
use hetero_indexing.Prelude.{
  ℕ, ◌+◌, ◌^◌, ◌<◌, ◌≡◌, refl, sym, ap, ◌∙◌, Bool, true, false, Option, none, some, ◌==◌, [], ◌∷◌,
  arith, inl, inr, Bool-cases, Option-cases, get_or,
}
use mathlib.Core.Path.{subst}
use hetero_indexing.Common.{is_special_key, Murmur, u64}
use hetero_indexing.Sketch
use hetero_indexing.Sketch.{Sketch}
use hetero_indexing.Hash.{Bin, find, index_of}
use hetero_indexing.Hash.Table
use hetero_indexing.Hash.Table.{view}
use hetero_indexing.Hash.Assign.{assigned, assign_lem, updated}
use hetero_indexing.Tree.{lookup}
use hetero_indexing.Float.{art_update, from_root, seek, Sought}
use hetero_indexing.Float.Update.{seek_lem}
use hetero_indexing.System.{
  IndexSys, Status, ok, element_not_found, hash_bin_full, element_already_exists, away, scan,
  hash_modify, hash_update,
}
use hetero_indexing.System.Insert.{scan_present}
use hetero_indexing.Index.{index_update}
use hetero_indexing.Index.Holds.{holds, first_of}
use hetero_indexing.Index.Insert.{plain_positive}
use hetero_indexing.Index.Remove.{IsIndex}

module _ (m : Murmur) where
  -- Without the key the search ends behind the bin, whatever slots it noted.
  scan-away :
      (cm : Sketch) (key min_cnt j : ℕ) (available : Option ℕ) (lru : Option (ℕ × ℕ)) (b : Bin)
      → find key b ≡ none
      → (a : Option ℕ) × (l : Option (ℕ × ℕ)) × (scan m cm key min_cnt j available lru b ≡ away a l)
  unfolding scan find
  scan-away cm key min_cnt j available lru [] f = (available, lru, refl)
  scan-away cm key min_cnt j available lru (e ∷ es) f =
      let other : (e.key == key) ≡ false = ground (arith, f) in
      let rest : find key es ≡ none = ground (arith, f) in
      rw other (scan-away cm key min_cnt (j + 1) _ _ es rest)

  module _ (s : IndexSys) (key value : ℕ) where
    abbrev pub counted : Sketch × ℕ
    counted = Sketch.inc m s.cm key (some (m.x64_128 key s.hash.seed))

    pub hash_update_present :
        (x : ℕ)
        → view m s.hash key ≡ some x
        → (v : Table.IsValid m s.hash)
        → hash_update m s key value
          ≡ (record s { cm = counted.0; hash = assigned m v key value }, ok, some counted.1)
    unfolding hash_modify
    hash_update_present x f v =
        let b = get_or s.hash.bins (index_of s.hash (m.x64_128 key s.hash.seed).1) [] in
        rw (hash_modify, scan_present m counted.0 key counted.1 0 none none b x f) refl

    pub hash_update_absent :
        view m s.hash key ≡ none
        → hash_update m s key value
          ≡ (record s { cm = counted.0 }, element_not_found, some counted.1)
    unfolding hash_modify
    hash_update_absent f =
        let b = get_or s.hash.bins (index_of s.hash (m.x64_128 key s.hash.seed).1) [] in
        let (a, l, e) = scan-away counted.0 key counted.1 0 none none b f in
        rw (hash_modify, e) refl

    -- The rest of index_update after hash_update.
    abbrev pub finish : IndexSys × Status × Option ℕ → IndexSys × Bool
    finish t =
        let in_tree : IndexSys × Bool = elim t.2 [
          | none ↦ (t.0, false)
          | some f ↦ art_update m t.0 key f value
        ] in
        elim t.1 [
          | ok ↦ (t.0, true)
          | element_not_found ↦ in_tree
          | hash_bin_full ↦ (t.0, true)
          | element_already_exists ↦ (t.0, true)
        ]

    pub index_update-finish :
        is_special_key key ≡ false → index_update m s key value ≡ finish (hash_update m s key value)
    unfolding index_update
    index_update-finish p = rw p refl

    -- Nothing is floated, so only the root changes.
    abbrev pub lowered : Sought → IndexSys
    lowered r = record s {
      cm = counted.0;
      tree = record s.tree { root = r.node; buffer_count = u64 (s.tree.buffer_count + r.delta) };
    }

    pub art_update-lowered :
        let r = seek m counted.0 key counted.1 (some value) s.tree.root 0 in
        r.pending ≡ none
        → (art_update m (record s { cm = counted.0 }) key counted.1 value).0 ≡ lowered r
    unfolding art_update from_root
    art_update-lowered e = rw (from_root, e) refl

    module _ (v : IsIndex m s) (p : is_special_key key ≡ false) (w : key < 2 ^ 64) where
      -- What an update leaves.
      abbrev pub Changes : IndexSys → Type 0
      Changes s' =
          IsIndex m s'
          × ((k : ℕ)
              → is_special_key k ≡ false
              → k < 2 ^ 64
              → holds m s' k ≡ updated key value (holds m s) k)

      in_table : (x : ℕ) → view m s.hash key ≡ some x → Changes (index_update m s key value).0
      in_table x f =
          let t = assign_lem m v.table key value in
          let same = index_update-finish p ∙ ap finish (hash_update_present x f v.table) in
          subst Changes (sym (ap (λ r. r.0) same)) (
            record {
              table = t.0;
              tree = v.tree;
              plain = v.plain;
              unbuffered = v.unbuffered;
              apart = λ k pk wk. elim (v.apart k pk wk) [
                | inr z ↦ inr z
                | inl z ↦ inl (
                    t.1 k
                    ∙ elim (Bool-cases (key == k)) [ inl q ↦ rw (q, z) refl | inr q ↦ rw q z ])
              ];
            },
            λ k pk wk.
                ap (λ o. first_of o (lookup s.tree.root k 0)) (t.1 k)
                ∙ elim (Bool-cases (key == k)) [
                  | inr q ↦ rw q refl
                  | inl q ↦
                      let here : view m s.hash k ≡ some x =
                        ap (view m s.hash) (sym (ground (arith, q))) ∙ f in
                      rw (q, here) refl
                ],
          )

      in_tree : view m s.hash key ≡ none → Changes (index_update m s key value).0
      in_tree f =
          let n = plain_positive key p in
          let u =
            seek_lem m counted.0 key counted.1 value s.tree.root 0 (λ _. 0) v.tree v.plain n in
          let after = λ (k : ℕ) (pk : is_special_key k ≡ false) (wk : k < 2 ^ 64).
            u.0.1 k (plain_positive k pk) wk in
          let same = index_update-finish p ∙ ap finish (hash_update_absent f) in
          subst Changes (sym (ap (λ r. r.0) same ∙ art_update-lowered u.3)) (
            record {
              table = v.table;
              tree = u.0.0;
              plain = u.1;
              unbuffered = omega (arith, v.unbuffered, u.4);
              apart = λ k pk wk. elim (v.apart k pk wk) [
                | inl z ↦ inl z
                | inr z ↦ inr (
                    after k pk wk ∙ elim (Bool-cases (key == k)) [
                      | inr q ↦ rw q z
                      | inl q ↦
                          let same : key ≡ k = ground (arith, q) in
                          let gone : lookup s.tree.root key 0 ≡ none =
                            ap (λ j. lookup s.tree.root j 0) same ∙ z in
                          rw (q, gone) refl
                    ])
              ];
            },
            λ k pk wk.
                ap (first_of (view m s.hash k)) (after k pk wk) ∙ elim (Bool-cases (key == k)) [
                  | inr q ↦ rw q refl
                  | inl q ↦
                      let same : key ≡ k = ground (arith, q) in
                      let gone : view m s.hash k ≡ none = ap (view m s.hash) (sym same) ∙ f in
                      let reads : lookup s.tree.root key 0 ≡ lookup s.tree.root k 0 =
                        ap (λ j. lookup s.tree.root j 0) same in
                      rw (q, gone, reads) refl
                ],
          )

      -- index_update of a 64-bit key that is not special, on an index whose tree has no buffered
      -- pairs and that has no key in both its table and its tree: it leaves such an index, in which
      -- the key has the new value if it was held, every other key has what it had, and a key that
      -- was not held is still not held.
      pub index_update_lem : Changes (index_update m s key value).0
      index_update_lem = elim (Option-cases (view m s.hash key)) [
        | inl f ↦ in_tree f
        | inr (x, f) ↦ in_table x f
      ]
