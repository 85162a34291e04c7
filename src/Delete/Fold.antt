-- ===== src/Delete/Fold.antt =====
-- remove_child4 on a node without buffered pairs, with the fold of a node4 into its only child.
use hetero_indexing.Prelude.{
  ℕ, ◌+◌, ◌-◌, ◌<◌, ◌^◌, ◌≡◌, ◌≢◌, ◌⊎◌, refl, sym, ap, ◌∙◌, true, false, not, none, some, arith,
  ◌==◌, if◌then◌else◌, Option-cases, Bool-cases, inl, inr,
}
use mathlib.Core.Path.{subst}
use hetero_indexing.Common.{Entry, key_len, buf_len}
use hetero_indexing.Art.{
  node4, Header, Node, Body, null, leaf, inner, is_null, key_byte, find_first, find_child,
}
use hetero_indexing.Art.Slots.{slot, child_in}
use hetero_indexing.Art.Shape.{to_IsNode, of_IsNode, Added, child_at, find_child-node4}
use hetero_indexing.Tree.{lookup}
use hetero_indexing.Tree.Shape.{extend, IsTree, mismatch, seen, lookup_inner}
use hetero_indexing.Tree.Step.{Sets, step-Sets}
use hetero_indexing.Tree.Search.{mismatch-matches}
use hetero_indexing.Delete.{join_prefix, remove_child4, close_gap, shift_down, Removed, unbuffer}
use hetero_indexing.Delete.Gap.{gap-IsArray, gap_reads}
use hetero_indexing.Tree.Plain.{Quiet, IsPlain, IsPlain-Added}
use hetero_indexing.Delete.Plain.{unbuffer-Quiet}
use hetero_indexing.Delete.Join.{J-IsTree, J-lookup, join_prefix-joined}

-- The node that takes the place of a node4 with one child.
abbrev pub folded : Header → Node → Node
folded h null = null
folded h (leaf e) = leaf e
folded h (inner g below) = join_prefix h g below

one_slot : (keys : ℕ → ℕ) (b : ℕ) → slot 1 keys b ≡ (if b == keys 0 then some 0 else none)
unfolding find_first
one_slot keys b = ground arith

-- A node4 with one child.
module _ (h : Header) (ch : ℕ → Node) (d : ℕ) (path : ℕ → ℕ) (kind : h.kind ≡ node4)
    (one : h.num_children ≡ 1) (v : IsTree (inner h ch) d path) (quiet : Quiet h.buffer) where
  only_slot : (b : ℕ) → find_child h ch b ≡ (if b == h.keys 0 then some 0 else none)
  unfolding find_child
  only_slot b = find_child-node4 h ch b kind ∙ rw one (one_slot h.keys b)

  only_reads : (b : ℕ) → child_at h ch b ≡ (if b == h.keys 0 then ch 0 else null)
  only_reads b =
      ap (λ o. child_in o ch) (only_slot b)
      ∙ elim (Bool-cases (b == h.keys 0)) [ inl q ↦ rw q refl | inr q ↦ rw q refl ]

  small : h.keys 0 < 256
  small = (of_IsNode node4 h ch kind v.0).bytes 0 (omega (arith, one))

  only-IsTree : IsTree (ch 0) (d + h.partial_len + 1) (extend path d h (h.keys 0))
  only-IsTree = v.4 (h.keys 0) 0 small (only_slot (h.keys 0) ∙ ground arith)

  only_lookup :
      (k : ℕ)
      → k ≢ 0
      → lookup (inner h ch) k d
        ≡ seen (mismatch h k d) none (
            if key_byte k (d + h.partial_len) == h.keys 0
            then lookup (ch 0) k (d + h.partial_len + 1)
            else none)
  unfolding lookup
  only_lookup k n =
      let D = d + h.partial_len + 1 in
      let b = key_byte k (d + h.partial_len) in
      lookup_inner h ch k d v.1
      ∙ ap (λ o. seen (mismatch h k d) o (lookup (child_at h ch b) k D)) (quiet k n)
      ∙ ap (λ t. seen (mismatch h k d) none (lookup t k D)) (only_reads b)
      ∙ ap (seen (mismatch h k d) none)
          (elim (Bool-cases (b == h.keys 0)) [ inl q ↦ rw q refl | inr q ↦ rw q refl ])

  -- The only child in its place is well-formed and reads the same.
  abbrev pub Folds : Node → Type 0
  Folds x =
      IsTree x d path × ((k : ℕ) → k ≢ 0 → k < 2 ^ 64 → lookup x k d ≡ lookup (inner h ch) k d)

  fold_leaf : (e : Entry) → ch 0 ≡ leaf e → Folds (leaf e)
  unfolding lookup
  fold_leaf e at =
      let w =
        subst (λ t. IsTree t (d + h.partial_len + 1) (extend path d h (h.keys 0))) at only-IsTree in
      let fits : mismatch h e.key d ≡ none = mismatch-matches h e.key d (λ i l.
        let back : h.partial (d + i - d) ≡ h.partial i = ap h.partial (omega arith) in
        ground (arith, l, back, w.1 (d + i) (omega (arith, l)))) in
      let own : key_byte e.key (d + h.partial_len) ≡ h.keys 0 =
        ground (arith, w.1 (d + h.partial_len) (omega arith)) in
      (
        (w.0, λ i l. w.1 i (omega (arith, l)) ∙ ground (arith, l)),
        λ k n _. sym (
            only_lookup k n
            ∙ rw at (elim (Bool-cases (e.key == k)) [
              | inr q ↦ rw q (elim (Option-cases (mismatch h k d)) [
                | inr (i, m) ↦ rw m refl
                | inl m ↦ rw m (elim (Bool-cases (key_byte k (d + h.partial_len) == h.keys 0)) [
                  | inl z ↦ rw z refl
                  | inr z ↦ rw z refl
                ])
              ])
              | inl q ↦
                  let same : e.key ≡ k = ground (arith, q) in
                  let m : mismatch h k d ≡ none = subst (λ t. mismatch h t d ≡ none) same fits in
                  let z : (key_byte k (d + h.partial_len) == h.keys 0) ≡ true =
                    ground
                      (arith, subst (λ t. key_byte t (d + h.partial_len) ≡ h.keys 0) same own) in
                  rw (q, m, z) refl
            ])),
      )

  fold_inner :
      (g : Header) (below : ℕ → Node)
      → ch 0 ≡ inner g below
      → Quiet g.buffer
      → Folds (join_prefix h g below)
  fold_inner g below at q =
      let w =
        subst (λ t. IsTree t (d + h.partial_len + 1) (extend path d h (h.keys 0))) at only-IsTree in
      subst Folds (sym (join_prefix-joined h g below d w.1)) (
        J-IsTree h g below d path (h.keys 0) refl small v.2 w q,
        λ k n _.
            J-lookup h g below d path (h.keys 0) refl small v.2 w q k n
            ∙ sym (only_lookup k n ∙ rw at refl),
      )

join_prefix-IsPlain :
    (h g : Header) (ch : ℕ → Node) (d : ℕ) (short : d + h.partial_len + 1 + g.partial_len < key_len)
    → IsPlain (inner g ch)
    → IsPlain (join_prefix h g ch)
unfolding find_child
join_prefix-IsPlain h g ch d short p =
    subst IsPlain (sym (join_prefix-joined h g ch d short)) (p.0, p.1)

abbrev pub NodeCase : Node → Type 0
NodeCase n =
    (n ≡ null) ⊎ ((e : Entry) × (n ≡ leaf e)) ⊎ ((h : Header) × (ch : ℕ → Node) × (n ≡ inner h ch))

pub node_case : (n : Node) → NodeCase n
node_case null = inl refl
node_case (leaf e) = inr (inl (e, refl))
node_case (inner h ch) = inr (inr (h, ch, refl))

abbrev pub as_removed : Header → Node → Removed
as_removed h null = record { node = null; moved = 0 }
as_removed h (leaf e) = record { node = leaf e; moved = 0 }
as_removed h (inner g below) = record { node = join_prefix h g below; moved = 0 }

folded_lem : (h : Header) (n : Node) → folded h n ≡ (as_removed h n).node
folded_lem h null = refl
folded_lem h (leaf e) = refl
folded_lem h (inner g below) = refl

-- The rest of remove_child4 after its loop.
abbrev pub finish : Body × ℕ → Removed
finish t =
    let folds : Removed = as_removed t.0.0 (t.0.1 0) in
    if not (t.1 == 0)
    then record { node = inner t.0.0 t.0.1; moved = t.1 }
    else (if t.0.0.num_children == 1 then folds else record { node = inner t.0.0 t.0.1; moved = 0 })

pub remove_child4-Quiet :
    (h : Header) (ch : ℕ → Node) (i depth : ℕ)
    → Quiet h.buffer
    → remove_child4 h ch i depth ≡ finish ((close_gap h i, shift_down ch i h.num_children), 0)
unfolding remove_child4
remove_child4-Quiet h ch i depth q =
    let g = close_gap h i in
    let cg = shift_down ch i h.num_children in
    let whole : remove_child4 h ch i depth ≡ finish (unbuffer buf_len 0 depth g cg 0) = refl in
    whole ∙ ap finish (unbuffer-Quiet buf_len 0 depth g cg 0 q)

-- What a deletion leaves: a search for the key finds nothing, and one for another key what it found.
abbrev pub Drops : ℕ → ℕ → (ℕ → ℕ) → Node → Node → Type 0
Drops key d path o x = Sets key none d path o x × IsPlain x × (is_null x ≡ false)

module _ (h : Header) (ch : ℕ → Node) (d : ℕ) (path : ℕ → ℕ) (key : ℕ)
    (v : IsTree (inner h ch) d path) (p : IsPlain (inner h ch)) (n : key ≢ 0)
    (m : mismatch h key d ≡ none) where
  abbrev byte : ℕ
  byte = key_byte key (d + h.partial_len)

  -- The leaf of the key is taken out of a node.
  pub without_leaf :
      (l : Entry)
      → child_at h ch byte ≡ leaf l
      → l.key ≡ key
      → (r : Body) → Added h ch byte null r
      → Sets key none d path (inner h ch) (inner r.0 r.1) × IsPlain (inner r.0 r.1)
  unfolding lookup
  without_leaf l is same r a = (
    step-Sets h ch d path v key none m (p.0 key n) null
        (
          tt,
          λ k _ _. rw is (elim (Bool-cases (key == k)) [
            | inl q ↦ rw q refl
            | inr q ↦
                let other : (l.key == k) ≡ false = ap (λ t. t == k) same ∙ q in rw (q, other) refl
          ]),
        )
        r a,
    IsPlain-Added h ch byte null r p tt a,
  )

  fold :
      (r : Body)
      → r.0.kind ≡ node4
      → r.0.num_children ≡ 1
      → Sets key none d path (inner h ch) (inner r.0 r.1)
      → IsPlain (inner r.0 r.1)
      → Drops key d path (inner h ch) (folded r.0 (r.1 0))
  fold r kind one s q =
      let only : (x : Node)
          → Folds r.0 r.1 d path kind one s.0 q.0 x
          → Sets key none d path (inner h ch) x =
        λ x f. (f.0, λ k n w. f.1 k n w ∙ s.1 k n w) in
      let first : find_child r.0 r.1 (r.0.keys 0) ≡ some 0 =
        only_slot r.0 r.1 d path kind one s.0 q.0 (r.0.keys 0) ∙ ground arith in
      let l = small r.0 r.1 d path kind one s.0 q.0 in
      let there : is_null (r.1 0) ≡ false =
        (of_IsNode node4 r.0 r.1 kind s.0.0).filled 0 (omega (arith, one)) in
      elim (node_case (r.1 0)) [
        | inl z ↦ absurd (ground (arith, ap is_null z, there))
        | inr (inl (e, z)) ↦
            rw z (only (leaf e) (fold_leaf r.0 r.1 d path kind one s.0 q.0 e z), tt, refl)
        | inr (inr (g, below, z)) ↦
            let inside = subst IsPlain z (q.1 (r.0.keys 0) 0 l first) in
            let w =
              subst (λ t. IsTree t (d + r.0.partial_len + 1) (extend path d r.0 (r.0.keys 0))) z
                (only-IsTree r.0 r.1 d path kind one s.0 q.0) in
            rw z (
              only (join_prefix r.0 g below)
                  (fold_inner r.0 r.1 d path kind one s.0 q.0 g below z inside.0),
              join_prefix-IsPlain r.0 g below d w.1 inside,
              ap is_null (join_prefix-joined r.0 g below d w.1),
            )
      ]

  pub remove_child4_lem :
      (i : ℕ) (l : Entry)
      → h.kind ≡ node4
      → find_child h ch byte ≡ some i
      → child_at h ch byte ≡ leaf l
      → l.key ≡ key
      → Drops key d path (inner h ch) (remove_child4 h ch i (d + h.partial_len)).node
  remove_child4_lem i l k found is same =
      let g = close_gap h i in
      let cg = shift_down ch i h.num_children in
      let w = of_IsNode node4 h ch k v.0 in
      let at = sym (find_child-node4 h ch byte k) ∙ found in
      let added : Added h ch byte null (g, cg) = record {
        node = to_IsNode node4 g cg k (gap-IsArray 4 (omega arith) h ch i byte w at);
        at = λ b m.
            rw (find_child-node4 g cg b k, find_child-node4 h ch b k)
              (gap_reads 4 (omega arith) h ch i byte w at b);
        len = refl;
        prefix = λ i m. refl;
        buffer = refl;
      } in
      let after = without_leaf l is same (g, cg) added in
      rw (remove_child4-Quiet h ch i (d + h.partial_len) p.0)
        (elim (Bool-cases (g.num_children == 1)) [
          | inr q ↦ rw q (after.0, after.1, refl)
          | inl q ↦
              let done = fold (g, cg) k (ground (arith, q)) after.0 after.1 in
              rw q (subst (Drops key d path (inner h ch)) (folded_lem g (cg 0)) done)
        ])
