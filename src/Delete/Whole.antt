-- ===== src/Delete/Whole.antt =====
-- recursive_delete and art_delete on a tree without buffered pairs.
use hetero_indexing.Prelude.{
  ℕ, ◌+◌, ◌≡◌, ◌≢◌, refl, sym, ap, ◌∙◌, true, false, none, some, arith, ◌==◌, if◌then◌else◌,
  Option-cases, Bool-cases, inl, inr,
}
use mathlib.Core.Path.{subst}
use hetero_indexing.Common.{Entry}
use hetero_indexing.Hash.{find}
use hetero_indexing.Art.{
  node4, Header, Node, null, leaf, inner, is_null, key_byte, find_child, update,
}
use hetero_indexing.Art.Slots.{child_in}
use hetero_indexing.Art.Shape.{child_at}
use hetero_indexing.Art.AddChild.{Kind-cases}
use hetero_indexing.Art.Replace.{replace_lem, find_child_filled}
use hetero_indexing.Tree.{lookup}
use hetero_indexing.Tree.Shape.{
  key_byte-lt, extend, IsTree, mismatch, seen, lookup_inner, prefix_test,
}
use hetero_indexing.Tree.Step.{Sets, step-Sets}
use hetero_indexing.Delete.{as_leaf, not_found, remove_child, recursive_delete}
use hetero_indexing.Delete.Value.{as_leaf_lem}
use hetero_indexing.Delete.Child.{remove_child_lem, remove_child-kind}
use hetero_indexing.Tree.Plain.{IsPlain, IsPlain-Added}
use hetero_indexing.Delete.Fold.{Drops, without_leaf, remove_child4_lem}

-- A tree that does not hold the key stays as it is.
unchanged :
    (key d : ℕ) (path : ℕ → ℕ) (o : Node)
    → IsTree o d path
    → lookup o key d ≡ none
    → Sets key none d path o o
unchanged key d path o v e = (
  v,
  λ k n w. elim (Bool-cases (key == k)) [
    | inl q ↦
        let same : key ≡ k = ground (arith, q) in rw q (subst (λ t. lookup o t d ≡ none) same e)
    | inr q ↦ rw q refl
  ],
)

-- A removal of a leaf under its node, of whatever kind.
module _ (h : Header) (ch : ℕ → Node) (d : ℕ) (path : ℕ → ℕ) (key : ℕ)
    (v : IsTree (inner h ch) d path) (p : IsPlain (inner h ch)) (n : key ≢ 0)
    (m : mismatch h key d ≡ none) where
  abbrev next : ℕ
  next = d + h.partial_len

  abbrev byte : ℕ
  byte = key_byte key next

  leaf_goes :
      (i : ℕ) (l : Entry)
      → find_child h ch byte ≡ some i
      → child_at h ch byte ≡ leaf l
      → l.key ≡ key
      → Drops key d path (inner h ch) (remove_child h ch byte i next).node
  leaf_goes i l found is same =
      let large = λ (k : h.kind ≢ node4).
        let (r, e, a) = remove_child_lem h ch byte i next v.0 k (key_byte-lt key next) found in
        let after = without_leaf h ch d path key v p n m l is same r a in
        subst (λ t. Drops key d path (inner h ch) t.node) (sym e) (after.0, after.1, refl) in
      elim (Kind-cases h.kind) [
        | inl k ↦
            subst (λ t. Drops key d path (inner h ch) t.node)
              (sym (remove_child-kind h ch byte i next node4 k))
              (remove_child4_lem h ch d path key v p n m i l k found is same)
        | inr (inl k) ↦ large (λ z. ground (arith, z, k))
        | inr (inr (inl k)) ↦ large (λ z. ground (arith, z, k))
        | inr (inr (inr k)) ↦ large (λ z. ground (arith, z, k))
      ]

  -- The part of recursive_delete below the prefix and the buffer.
  delete_below : recursive_delete (inner h ch) key d ≡ (elim (find_child h ch byte) [
    | none ↦ not_found (inner h ch)
    | some i ↦ elim (as_leaf (ch i)) [
      | some l ↦
          let r = remove_child h ch byte i next in
          if l.key == key
          then record { node = r.node; found = true; unbuffered = r.moved }
          else not_found (inner h ch)
      | none ↦
          let r = recursive_delete (ch i) key (next + 1) in
          record r { node = inner h (update ch i r.node) }
    ]
  ])
  unfolding recursive_delete
  delete_below = let test = prefix_test h ch key d v.1 in rw (test, m, p.0 key n) refl

-- What a deletion leaves: as Drops, but a leaf may leave nothing.
abbrev pub Leaves : ℕ → ℕ → (ℕ → ℕ) → Node → Node → Type 0
Leaves key d path o x =
    Sets key none d path o x
    × IsPlain x
    × (is_null o ≡ false → as_leaf o ≡ none → is_null x ≡ false)

module _ (h : Header) (ch : ℕ → Node) (d : ℕ) (path : ℕ → ℕ) (key : ℕ)
    (v : IsTree (inner h ch) d path) (p : IsPlain (inner h ch)) (n : key ≢ 0) where
  stays : lookup (inner h ch) key d ≡ none → Leaves key d path (inner h ch) (inner h ch)
  stays e = (unchanged key d path (inner h ch) v e, p, λ _ _. refl)

  -- A deletion below a child.
  child_step :
      (m : mismatch h key d ≡ none) (i : ℕ) (x : Node)
      → let c = byte h ch d path key v p n m in
        find_child h ch c ≡ some i
        → as_leaf (ch i) ≡ none
        → Leaves key (d + h.partial_len + 1) (extend path d h c) (ch i) x
        → Leaves key d path (inner h ch) (inner h (update ch i x))
  child_step m i x found is st =
      let c = byte h ch d path key v p n m in
      let l = key_byte-lt key (d + h.partial_len) in
      let at : child_at h ch c ≡ ch i = ap (λ t. child_in t ch) found in
      let there = st.2 (find_child_filled h ch c i v.0 l found) is in
      let a = replace_lem h ch c i x v.0 l there found in
      (
        step-Sets h ch d path v key none m (p.0 key n) x
            (subst (λ t. Sets key none (d + h.partial_len + 1) (extend path d h c) t x) (sym at)
              st.0)
            (h, update ch i x) a,
        IsPlain-Added h ch c x (h, update ch i x) p st.1 a,
        λ _ _. refl,
      )

no_child :
    (h : Header) (ch : ℕ → Node) (c key d : ℕ)
    → find_child h ch c ≡ none
    → lookup (child_at h ch c) key d ≡ none
unfolding lookup
no_child h ch c key d q = rw q refl

mismatch_stays :
    (h : Header) (ch : ℕ → Node) (d : ℕ) (path : ℕ → ℕ) (key : ℕ)
    → IsTree (inner h ch) d path
    → (j : ℕ) → mismatch h key d ≡ some j
    → recursive_delete (inner h ch) key d ≡ not_found (inner h ch)
unfolding recursive_delete
mismatch_stays h ch d path key v j m = let test = prefix_test h ch key d v.1 in rw (test, m) refl

lookup-leaf_other : (l : Entry) (key d : ℕ) → (l.key == key) ≡ false → lookup (leaf l) key d ≡ none
unfolding lookup
lookup-leaf_other l key d q = rw q refl

delete-leaf :
    (l : Entry) (key d : ℕ) (path : ℕ → ℕ)
    → IsTree (leaf l) d path
    → Leaves key d path (leaf l) (recursive_delete (leaf l) key d).node
unfolding recursive_delete lookup
delete-leaf l key d path v = elim (Bool-cases (l.key == key)) [
  | inr q ↦ rw q (
    unchanged key d path (leaf l) v (lookup-leaf_other l key d q),
    tt,
    λ _ e. absurd (ground (arith, e)),
  )
  | inl q ↦ rw q (
    (
      tt,
      λ k n w. elim (Bool-cases (key == k)) [
        | inl z ↦ rw z refl
        | inr z ↦ let other : (l.key == k) ≡ false = ground (arith, q, z) in rw (z, other) refl
      ],
    ),
    tt,
    λ _ e. absurd (ground (arith, e)),
  )
]

delete-inner :
    (h : Header) (ch : ℕ → Node) (key d : ℕ) (path : ℕ → ℕ)
    → IsTree (inner h ch) d path
    → IsPlain (inner h ch)
    → key ≢ 0
    → let next = d + h.partial_len in
      let c = key_byte key next in
      ((i : ℕ)
        → find_child h ch c ≡ some i
        → Leaves key
            (next + 1)
            (extend path d h c)
            (ch i)
            (recursive_delete (ch i) key (next + 1)).node)
      → Leaves key d path (inner h ch) (recursive_delete (inner h ch) key d).node
delete-inner h ch key d path v p n ih =
    let next = d + h.partial_len in
    let c = key_byte key next in
    let fate = Leaves key d path (inner h ch) in
    let below =
      λ (t : Node). seen (mismatch h key d) (find key h.buffer) (lookup t key (next + 1)) in
    elim (Option-cases (mismatch h key d)) [
      | inr (j, m) ↦
          let gone : lookup (inner h ch) key d ≡ none = lookup_inner h ch key d v.1 ∙ rw m refl in
          subst (λ t. fate t.node) (sym (mismatch_stays h ch d path key v j m))
            (stays h ch d path key v p n gone)
      | inl m ↦
          let same = delete_below h ch d path key v p n m in
          let reads : lookup (inner h ch) key d ≡ lookup (child_at h ch c) key (next + 1) =
            lookup_inner h ch key d v.1 ∙ rw (m, p.0 key n) refl in
          subst (λ t. fate t.node) (sym same)
            (elim (Option-cases (find_child h ch c)) [
              | inl q ↦
                  let empty : lookup (child_at h ch c) key (next + 1) ≡ none =
                    no_child h ch c key (next + 1) q in
                  rw q (stays h ch d path key v p n (reads ∙ empty))
              | inr (i, q) ↦
                  let at : child_at h ch c ≡ ch i = ap (λ t. child_in t ch) q in
                  rw q (elim (Option-cases (as_leaf (ch i))) [
                    | inl a ↦ rw a (
                        child_step h ch d path key v p n m i
                          (recursive_delete (ch i) key (next + 1)).node q a (ih i q))
                    | inr (l, a) ↦
                        let is : child_at h ch c ≡ leaf l = at ∙ as_leaf_lem (ch i) l a in
                        rw a (elim (Bool-cases (l.key == key)) [
                          | inl z ↦
                              let d' =
                                leaf_goes h ch d path key v p n m i l q is (ground (arith, z)) in
                              rw z (d'.0, d'.1, λ _ _. d'.2)
                          | inr z ↦
                              let other =
                                ap (λ t. lookup t key (next + 1)) is
                                ∙ lookup-leaf_other l key (next + 1) z in
                              rw z (stays h ch d path key v p n (reads ∙ other))
                        ])
                  ])
            ])
    ]

-- In a well-formed tree without buffered pairs recursive_delete of a key other than 0 leaves a
-- well-formed tree without buffered pairs in which a search for the key finds nothing and one for any
-- other key what it found, whether nodes shrink or fold on the way or the key is not there.
pub recursive_delete_lem :
    (o : Node) (key d : ℕ) (path : ℕ → ℕ)
    → IsTree o d path
    → IsPlain o
    → key ≢ 0
    → Leaves key d path o (recursive_delete o key d).node
unfolding recursive_delete lookup
recursive_delete_lem null key d path v p n =
    (unchanged key d path null v refl, tt, λ e _. absurd (ground (arith, e)))
recursive_delete_lem (leaf l) key d path v p n = delete-leaf l key d path v
recursive_delete_lem (inner h ch) key d path v p n =
    let c = key_byte key (d + h.partial_len) in
    let l = key_byte-lt key (d + h.partial_len) in
    delete-inner h ch key d path v p n (λ i q.
      recursive_delete_lem (ch i) key (d + h.partial_len + 1) (extend path d h c) (v.4 c i l q)
        (p.1 c i l q) n)
