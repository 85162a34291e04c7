-- ===== src/Delete/Join.antt =====
-- The child of a folded node4 with the prefixes joined: the inverse of the split of a prefix.
use hetero_indexing.Prelude.{
  ℕ, ◌+◌, ◌-◌, ◌<◌, ◌≡◌, ◌≢◌, refl, sym, ap, ◌∙◌, true, none, arith, ◌==◌, ◌&&◌, ltb, leb,
  if◌then◌else◌, min, Option-cases, Bool-cases, inl, inr,
}
use mathlib.Core.Path.{subst, fun_ext}
use native.Mathlib.Decide.{ℕ_discrete, dec_lt}
use hetero_indexing.Common.{key_len, u8}
use hetero_indexing.Art.{Header, Node, inner, key_byte, copy, update, find_child}
use hetero_indexing.Art.Slots.{child_in}
use hetero_indexing.Tree.{lookup}
use hetero_indexing.Tree.Shape.{extend, IsTree, mismatch, seen, lookup_inner}
use hetero_indexing.Tree.Search.{matches, mismatch-matches}
use hetero_indexing.Tree.Rehead.{reheaded, reheaded-IsNode, rebuffered-IsNode}
use hetero_indexing.Delete.{join_prefix}
use hetero_indexing.Tree.Plain.{Quiet}

-- `h` is the folded node, `g` its child.
module _ (h g : Header) (ch : ℕ → Node) (d : ℕ)
    (short : d + h.partial_len + 1 + g.partial_len < key_len) where
  abbrev pub bytes_joined : ℕ → ℕ
  bytes_joined i =
      if ltb i h.partial_len
      then h.partial i
      else (if i == h.partial_len then h.keys 0 else g.partial (i - (h.partial_len + 1)))

  abbrev copied : ℕ → ℕ
  copied =
      let p = h.partial_len + 1 in
      let n = min g.partial_len (key_len - p) in
      copy g.partial
        (λ i.
          if leb p i && ltb i (p + n)
          then g.partial (i - p)
          else update h.partial h.partial_len (h.keys 0) i)
        (min (p + n) key_len)

  abbrev pub joined : Header
  joined = record g { partial = copied; partial_len = h.partial_len + 1 + g.partial_len }

  pub join_prefix-joined : join_prefix h g ch ≡ inner joined ch
  unfolding join_prefix
  join_prefix-joined =
      let room : ltb h.partial_len key_len ≡ true = ground (arith, short) in
      let room' : ltb (h.partial_len + 1) key_len ≡ true = ground (arith, short) in
      let total : u8 (g.partial_len + (h.partial_len + 1)) ≡ h.partial_len + 1 + g.partial_len =
        omega (arith, short) in
      rw (room, room', total) refl

  pub joined_bytes : (i : ℕ) → i < joined.partial_len → joined.partial i ≡ bytes_joined i
  joined_bytes i l =
      let n : min g.partial_len (key_len - (h.partial_len + 1)) ≡ g.partial_len =
        omega (arith, short) in
      let m : min (h.partial_len + 1 + g.partial_len) key_len ≡ h.partial_len + 1 + g.partial_len =
        omega (arith, short) in
      rw (n, m) (ground (arith, l))

-- The child `g` under the byte `c` of a well-formed node.
module _ (h g : Header) (ch : ℕ → Node) (d : ℕ) (path : ℕ → ℕ) (c : ℕ) (byte : h.keys 0 ≡ c)
    (small : c < 256) (bytes : (i : ℕ) → i < h.partial_len → h.partial i < 256)
    (v : IsTree (inner g ch) (d + h.partial_len + 1) (extend path d h c))
    (quiet : Quiet g.buffer) where
  abbrev pub J : Header
  J = joined h g ch d v.1

  at : (i : ℕ) → i < J.partial_len → J.partial i ≡ bytes_joined h g ch d v.1 i
  at = joined_bytes h g ch d v.1

  -- The path to a child stays the same.
  path_same : (b : ℕ) → extend (extend path d h c) (d + h.partial_len + 1) g b ≡ extend path d J b
  path_same b = fun_ext (λ i. elim (dec_lt i d) [
    | yes q ↦ ground (arith, q)
    | no q ↦ elim (dec_lt i (d + J.partial_len)) [
      | no m ↦ ground (arith, q, m)
      | yes m ↦
          let there = at (i - d) (omega (arith, q, m)) in
          elim (dec_lt i (d + h.partial_len)) [
            | yes z ↦ ground (arith, q, m, z, there)
            | no z ↦ elim (ℕ_discrete i (d + h.partial_len)) [
              | yes e ↦ ground (arith, q, m, e, there, byte)
              | no e ↦
                  let shift : g.partial (i - d - (h.partial_len + 1))
                      ≡ g.partial (i - (d + h.partial_len + 1)) =
                    ap g.partial (omega arith) in
                  ground (arith, q, m, z, e, there, shift)
            ]
          ]
    ]
  ])

  same_child : (b : ℕ) → find_child J ch b ≡ find_child g ch b
  unfolding find_child
  same_child b = refl

  J_byte : (i : ℕ) → i < J.partial_len → bytes_joined h g ch d v.1 i < 256
  J_byte i l = elim (dec_lt i h.partial_len) [
    | yes q ↦ ground (arith, q, bytes i q)
    | no q ↦ elim (ℕ_discrete i h.partial_len) [
      | yes e ↦ ground (arith, e, byte, small)
      | no e ↦ ground (arith, q, e, l, v.2 (i - (h.partial_len + 1)))
    ]
  ]

  pub J-IsTree : IsTree (inner J ch) d path
  J-IsTree = (
    rebuffered-IsNode (reheaded g J.partial_len J.partial) ch g.buffer
        (reheaded-IsNode g ch J.partial_len J.partial v.0),
    omega (arith, v.1),
    λ i l. subst (λ t. t < 256) (sym (at i l)) (J_byte i l),
    λ k n f. absurd (f (quiet k n)),
    λ b i l f. subst (IsTree (ch i) (d + J.partial_len + 1)) (path_same b) (
        subst (λ z. IsTree (ch i) z (extend (extend path d h c) (d + h.partial_len + 1) g b))
          (omega arith) (v.4 b i l (sym (same_child b) ∙ f))),
    v.5,
  )

  -- A key matches the joined prefix when it matches both parts and the byte between them.
  whole_parts :
      (k : ℕ)
      → mismatch J k d ≡ none
      → (mismatch h k d ≡ none)
        × (c ≡ key_byte k (d + h.partial_len))
        × (mismatch g k (d + h.partial_len + 1) ≡ none)
  whole_parts k m = (
    mismatch-matches h k d
        (λ i l. ground (arith, l, at i (omega (arith, l)), matches J k d m i (omega (arith, l)))),
    ground
        (arith, at h.partial_len (omega arith), matches J k d m h.partial_len (omega arith), byte),
    mismatch-matches g k (d + h.partial_len + 1) (λ i l.
        let j = h.partial_len + 1 + i in
        let shift : g.partial (j - (h.partial_len + 1)) ≡ g.partial i =
          ap g.partial (omega arith) in
        let key_at : key_byte k (d + j) ≡ key_byte k (d + h.partial_len + 1 + i) =
          ap (key_byte k) (omega arith) in
        ground
          (arith, shift, key_at, at j (omega (arith, l)), matches J k d m j (omega (arith, l)))),
  )

  parts_whole :
      (k : ℕ)
      → mismatch h k d ≡ none
      → c ≡ key_byte k (d + h.partial_len)
      → mismatch g k (d + h.partial_len + 1) ≡ none
      → mismatch J k d ≡ none
  parts_whole k a e b = mismatch-matches J k d (λ i l. at i l ∙ elim (dec_lt i h.partial_len) [
    | yes q ↦ ground (arith, q, matches h k d a i q)
    | no q ↦ elim (ℕ_discrete i h.partial_len) [
      | yes z ↦ ground (arith, z, byte, e)
      | no z ↦
          let j = i - (h.partial_len + 1) in
          let key_at : key_byte k (d + h.partial_len + 1 + j) ≡ key_byte k (d + i) =
            ap (key_byte k) (omega arith) in
          ground (arith, q, z, key_at, matches g k (d + h.partial_len + 1) b j (omega (arith, l)))
    ]
  ])

  -- What a search reads through the two nodes, it reads in the joined one.
  pub J-lookup :
      (k : ℕ)
      → k ≢ 0
      → lookup (inner J ch) k d
        ≡ seen (mismatch h k d) none (
            if key_byte k (d + h.partial_len) == c
            then lookup (inner g ch) k (d + h.partial_len + 1)
            else none)
  unfolding find_child
  J-lookup k n =
      let D = d + h.partial_len + 1 in
      let deep : d + J.partial_len ≡ D + g.partial_len = omega arith in
      let low = λ (z : ℕ). lookup (child_in (find_child g ch (key_byte k z)) ch) k (z + 1) in
      let outer =
        lookup_inner J ch k d (omega (arith, v.1))
        ∙ ap (λ o. seen (mismatch J k d) o (low (d + J.partial_len))) (quiet k n)
        ∙ ap (λ z. seen (mismatch J k d) none (low z)) deep in
      let inside =
        lookup_inner g ch k D v.1
        ∙ ap (λ o. seen (mismatch g k D) o (low (D + g.partial_len))) (quiet k n) in
      outer ∙ elim (Option-cases (mismatch J k d)) [
        | inl m ↦
            let parts = whole_parts k m in
            let same : (key_byte k (d + h.partial_len) == c) ≡ true = ground (arith, parts.1) in
            rw (m, parts.0, same, inside, parts.2) refl
        | inr (j, m) ↦ rw m (elim (Option-cases (mismatch h k d)) [
          | inr (i, a) ↦ rw a refl
          | inl a ↦ rw a (elim (Bool-cases (key_byte k (d + h.partial_len) == c)) [
            | inr e ↦ rw e refl
            | inl e ↦
                rw (e, inside)
                  (elim (Option-cases (mismatch g k D)) [
                    | inr (i, b) ↦ rw b refl
                    | inl b ↦ absurd (ground (arith, m, parts_whole k a (ground (arith, e)) b))
                  ])
          ])
        ])
      ]
