-- ===== src/Tree/Prefix.antt =====
-- The node whose prefix recursive_insert splits.
use hetero_indexing.Prelude.{
  ℕ, ◌+◌, ◌-◌, ◌<◌, ◌^◌, ◌≡◌, ◌≢◌, refl, sym, ap, ◌∙◌, true, Option, none, some, arith, ◌==◌, ltb,
  leb, if◌then◌else◌, min, Option-cases, Bool-cases, inl, inr,
}
use mathlib.Core.Path.{subst, fun_ext}
use native.Mathlib.Decide.{ℕ_discrete, dec_lt}
use hetero_indexing.Common.{Entry, key_len}
use hetero_indexing.Hash.{find}
use hetero_indexing.Art.{Header, Node, leaf, inner, key_byte, add_child4, find_child}
use hetero_indexing.Art.Slots.{child_in}
use hetero_indexing.Art.Shape.{child_at}
use hetero_indexing.Tree.{lookup, split_prefix}
use hetero_indexing.Tree.Shape.{Agrees, extend, IsTree, mismatch, seen, lookup_inner}
use hetero_indexing.Tree.Step.{Stores, Agrees-extend}
use hetero_indexing.Tree.Wrap.{wrapper, wrapped, add_child4-new, wrapper-lookup, fork}
use hetero_indexing.Tree.Search.{matches, mismatch-matches, mismatch-some, find-zeroed}
use hetero_indexing.Tree.Rehead.{reheaded, reheaded-IsNode}
use hetero_indexing.Tree.Leaf.{Stores-same}

module _ (h : Header) (ch : ℕ → Node) (d : ℕ) (path : ℕ → ℕ) (v : IsTree (inner h ch) d path)
    (j : ℕ) (below : j < h.partial_len) where
  abbrev rest : ℕ
  rest = h.partial_len - (j + 1)

  abbrev old : Header
  old =
      reheaded h rest
        (λ i. if ltb i (min key_len rest) then h.partial (i + (j + 1)) else h.partial i)

  abbrev start : ℕ → ℕ
  start i = if ltb i (min key_len j) then h.partial i else 0

  abbrev above : Header
  above = wrapper j start h.buffer (h.partial j) (inner old ch)

  -- The path to a child stays the same.
  path_same :
      (c : ℕ) → extend (extend path d above (h.partial j)) (d + j + 1) old c ≡ extend path d h c
  path_same c = fun_ext (λ i. elim (ℕ_discrete i (d + j)) [
    | yes q ↦
        let at : h.partial (i - d) ≡ h.partial j = ap h.partial (omega (arith, q)) in
        ground (arith, q, v.1, at)
    | no q ↦ elim (dec_lt i (d + j)) [
      | yes l ↦ ground (arith, q, l, v.1)
      | no l ↦ elim (dec_lt i (d + h.partial_len)) [
        | yes m ↦
            let at : h.partial (i - (d + j + 1) + (j + 1)) ≡ h.partial (i - d) =
              ap h.partial (omega arith) in
            ground (arith, q, l, m, v.1, at)
        | no m ↦ ground (arith, q, l, m, v.1)
      ]
    ]
  ])

  found : (c : ℕ) → find_child h ch c ≡ find_child old ch c
  unfolding find_child
  found c = refl

  old-IsTree : IsTree (inner old ch) (d + j + 1) (extend path d above (h.partial j))
  old-IsTree = (
    reheaded-IsNode h ch old.partial_len old.partial v.0,
    omega (arith, v.1),
    λ i l. ground (arith, v.1, v.2 (i + (j + 1)), l),
    λ k n f. absurd (f (find-zeroed k n)),
    λ c i l f.
        subst (IsTree (ch i) (d + j + 1 + rest + 1)) (sym (path_same c)) (
          subst (λ z. IsTree (ch i) z (extend path d h c)) (omega arith) (v.4 c i l (found c ∙ f))),
    refl,
  )

  bytes : (i : ℕ) → i < j → start i < 256
  bytes i l = ground (arith, v.2 i, l)

  buffered : (k : ℕ) → k ≢ 0 → find k h.buffer ≢ none → Agrees (d + j) (extend path d above 0) k
  buffered k n f i l = v.3 k n f i (omega arith) ∙ ground (arith, v.1, l)

  -- A key matches the whole prefix when it matches both parts and the byte between them.
  parts_whole :
      (k : ℕ)
      → mismatch above k d ≡ none
      → h.partial j ≡ key_byte k (d + j)
      → mismatch old k (d + j + 1) ≡ none
      → mismatch h k d ≡ none
  parts_whole k a b c = mismatch-matches h k d (λ i l. elim (dec_lt i j) [
    | yes q ↦ ground (arith, v.1, matches above k d a i q)
    | no q ↦ elim (ℕ_discrete i j) [
      | yes z ↦ subst (λ t. h.partial t ≡ key_byte k (d + t)) (sym z) b
      | no z ↦
          let i' = i - (j + 1) in
          let at : h.partial (i' + (j + 1)) ≡ h.partial i = ap h.partial (omega arith) in
          let key_at : key_byte k (d + j + 1 + i') ≡ key_byte k (d + i) =
            ap (key_byte k) (omega arith) in
          ground (arith, q, z, v.1, at, key_at, matches old k (d + j + 1) c i' (omega arith))
    ]
  ])

  whole_parts :
      (k : ℕ)
      → mismatch h k d ≡ none
      → (mismatch above k d ≡ none)
        × (h.partial j ≡ key_byte k (d + j))
        × (mismatch old k (d + j + 1) ≡ none)
  whole_parts k e = (
    mismatch-matches above k d (λ i l. ground (arith, v.1, l, matches h k d e i)),
    matches h k d e j below,
    mismatch-matches old k (d + j + 1) (λ i l.
        let key_at : key_byte k (d + (i + (j + 1))) ≡ key_byte k (d + j + 1 + i) =
          ap (key_byte k) (omega arith) in
        ground (arith, v.1, l, matches h k d e (i + (j + 1)) (omega arith), key_at)),
  )

  child_below : ℕ → Option ℕ
  child_below k = lookup (child_at h ch (key_byte k (d + h.partial_len))) k (d + h.partial_len + 1)

  inside :
      (k : ℕ)
      → k ≢ 0
      → lookup (inner old ch) k (d + j + 1) ≡ seen (mismatch old k (d + j + 1)) none (child_below k)
  unfolding child_below
  inside k z =
      let s = seen (mismatch old k (d + j + 1)) in
      let lower = λ (n : ℕ). lookup (child_at old ch (key_byte k n)) k (n + 1) in
      let deep : d + j + 1 + rest ≡ d + h.partial_len = omega arith in
      lookup_inner old ch k (d + j + 1) (omega (arith, v.1))
      ∙ ap (λ o. s o (lower (d + j + 1 + rest))) (find-zeroed k z)
      ∙ ap (λ n. s none (lower n)) deep
      ∙ ap (λ o. s none (lookup (child_in o ch) k (d + h.partial_len + 1)))
          (sym (found (key_byte k (d + h.partial_len))))

  -- A buffered key matches the prefix.
  pub buffered_matches : (k : ℕ) → k ≢ 0 → find k h.buffer ≢ none → mismatch h k d ≡ none
  buffered_matches k z f = mismatch-matches h k d (λ i l.
      let at : h.partial (d + i - d) ≡ h.partial i = ap h.partial (omega arith) in
      ground (arith, v.3 k z f (d + i) (omega arith), at, l))

  parts_seen :
      (k : ℕ)
      → k ≢ 0
      → seen (mismatch above k d) (find k h.buffer) (
          if key_byte k (d + j) == h.partial j
          then seen (mismatch old k (d + j + 1)) none (child_below k)
          else none)
        ≡ seen (mismatch h k d) (find k h.buffer) (child_below k)
  parts_seen k z = elim (Option-cases (mismatch h k d)) [
    | inl m ↦
        let parts = whole_parts k m in
        let same : (key_byte k (d + j) == h.partial j) ≡ true = ground (arith, parts.1) in
        rw (m, parts.0, parts.2, same) refl
    | inr (i, m) ↦ elim (Option-cases (find k h.buffer)) [
      | inr (x, f) ↦ absurd (ground (arith, m, f, buffered_matches k z))
      | inl f ↦
          rw (m, f)
            (elim (Option-cases (mismatch above k d)) [
              | inr (i', a) ↦ rw a refl
              | inl a ↦ rw a (elim (Bool-cases (key_byte k (d + j) == h.partial j)) [
                | inr b ↦ rw b refl
                | inl b ↦ rw b (elim (Option-cases (mismatch old k (d + j + 1))) [
                  | inr (i', c) ↦ rw c refl
                  | inl c ↦ absurd (ground (arith, m, parts_whole k a (ground (arith, b)) c))
                ])
              ])
            ])
    ]
  ]

  wrapped_same :
      (k : ℕ)
      → k ≢ 0
      → lookup (inner above (wrapped j start h.buffer (h.partial j) (inner old ch))) k d
        ≡ lookup (inner h ch) k d
  unfolding child_below
  wrapped_same k z =
      wrapper-lookup j start h.buffer (h.partial j) (inner old ch) (v.2 j below) refl d path
        (omega (arith, v.1)) bytes buffered old-IsTree v.5 k
      ∙ ap
          (λ t.
            seen (mismatch above k d) (find k h.buffer)
              (if key_byte k (d + j) == h.partial j then t else none))
          (inside k z)
      ∙ parts_seen k z
      ∙ sym (lookup_inner h ch k d v.1)

  -- The leaf beside the old node.
  module _ (e : Entry) (n : e.key ≢ 0) (w : e.key < 2 ^ 64) (a : Agrees d path e.key)
      (found_at : mismatch h e.key d ≡ some j) (new : find e.key h.buffer ≡ none) where
    fits : mismatch above e.key d ≡ none
    fits =
        mismatch-matches above e.key d
          (λ i l. ground (arith, v.1, l, (mismatch-some h e.key d j found_at).2 i))

    prefix_forks :
        let two =
          add_child4 above
            (wrapped j start h.buffer (h.partial j) (inner old ch))
            (key_byte e.key (d + j))
            (leaf e) in
        Stores e d path (inner h ch) (inner two.0 two.1)
    prefix_forks =
        let one = inner above (wrapped j start h.buffer (h.partial j) (inner old ch)) in
        let two =
          add_child4 above (wrapped j start h.buffer (h.partial j) (inner old ch))
            (key_byte e.key (d + j)) (leaf e) in
        Stores-same e d path (inner h ch) one (inner two.0 two.1) (λ k z _. wrapped_same k z)
          (fork j start h.buffer (h.partial j) (inner old ch) (v.2 j below) refl d path
            (omega (arith, v.1)) bytes buffered old-IsTree v.5 e n w
            (Agrees-extend above e.key d path a fits) fits new
            (λ q. (mismatch-some h e.key d j found_at).1 (sym q)))

pub split_prefix_lem :
    (h : Header) (ch : ℕ → Node) (e : Entry) (d j : ℕ) (path : ℕ → ℕ)
    → IsTree (inner h ch) d path
    → e.key ≢ 0
    → e.key < 2 ^ 64
    → Agrees d path e.key
    → mismatch h e.key d ≡ some j
    → find e.key h.buffer ≡ none
    → Stores e d path (inner h ch) (split_prefix h ch e d j)
unfolding split_prefix
split_prefix_lem h ch e d j path v n w a m new =
    let below = (mismatch-some h e.key d j m).0 in
    let short : leb h.partial_len key_len ≡ true = ground (arith, v.1) in
    rw
      (
        short,
        add_child4-new j (start h ch d path v j below) h.buffer (h.partial j)
            (inner (old h ch d path v j below) ch),
      )
      (prefix_forks h ch d path v j below e n w a m new)
