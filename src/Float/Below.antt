-- ===== src/Float/Below.antt =====
-- The keys that may stand in the buffer of a node below another one.
use hetero_indexing.Prelude.{ℕ, ◌+◌, ◌-◌, ◌≡◌, true, none, arith, ap, sym, ◌∙◌}
use native.Mathlib.Decide.{dec_lt}
use hetero_indexing.Art.{Header, key_byte}
use hetero_indexing.Tree.Shape.{Agrees, extend, mismatch}
use hetero_indexing.Tree.Search.{mismatch-matches}
use hetero_indexing.Float.{same_bytes_from}
use hetero_indexing.Float.Slots.{same_bytes_from-each}

-- A node with the header `h` at depth `d` under a path, and its child with the header `g` under the
-- byte `c`.
module _ (d : ℕ) (path : ℕ → ℕ) (h : Header) (c : ℕ) (g : Header) where
  abbrev next : ℕ
  next = d + h.partial_len

  -- The key is on the way to the child and has its prefix.
  abbrev pub Below : ℕ → Type 0
  Below k = Agrees (next + 1 + g.partial_len) (extend (extend path d h c) (next + 1) g 0) k

  module _ (k : ℕ) (b : Below k) where
    pub Below-Agrees : Agrees d path k
    Below-Agrees i l = ground (arith, b i, l)

    pub Below-here : Agrees next (extend path d h 0) k
    Below-here i l = ground (arith, b i, l)

    pub Below-byte : key_byte k next ≡ c
    Below-byte = ground (arith, b next)

    pub mismatch-Below : mismatch h k d ≡ none
    mismatch-Below = mismatch-matches h k d (λ i l. ground (arith, b (d + i), l))

    pub mismatch_child-Below : mismatch g k (next + 1) ≡ none
    mismatch_child-Below =
        mismatch-matches g k (next + 1) (λ i l. ground (arith, b (next + 1 + i), l))

  -- A key of the upper buffer that has the bytes of a key below in between is below.
  pub near-Below :
      (key k : ℕ)
      → Below key
      → Agrees next (extend path d h 0) k
      → same_bytes_from key k next (g.partial_len + 1) ≡ true
      → Below k
  near-Below key k b a s i l = elim (dec_lt i next) [
    | yes z ↦ ground (arith, a i z, z)
    | no z ↦
        let at : next + (i - next) ≡ i = omega (arith, z) in
        let same = same_bytes_from-each key k next (g.partial_len + 1) s (i - next) in
        let here : key_byte k i ≡ key_byte key i =
          ap (key_byte k) (sym at) ∙ sym (same (omega (arith, l, z))) ∙ ap (key_byte key) at in
        here ∙ b i l
  ]
