-- ===== src/Tree/Step.antt =====
-- A tree whose child under a byte is replaced, in a node that may have grown.
use hetero_indexing.Prelude.{
  length, ℕ, ◌+◌, ◌-◌, ◌<◌, ◌^◌, ◌≡◌, ◌≢◌, refl, sym, ap, ◌∙◌, false, not, Option, none, some,
  arith, ◌==◌, if◌then◌else◌, Bool-cases, inl, inr,
}
use mathlib.Core.Path.{subst, fun_ext}
use native.Mathlib.Decide.{ℕ_discrete}
use hetero_indexing.Common.{Entry, key_len}
use hetero_indexing.Hash.{find}
use hetero_indexing.Art.{Header, Node, Body, inner, is_null, key_byte}
use hetero_indexing.Art.Slots.{find_first-none}
use hetero_indexing.Art.Shape.{child_at, Added}
use hetero_indexing.Art.AddChild.{find_first-ext}
use hetero_indexing.Tree.{lookup}
use hetero_indexing.Tree.Shape.{
  Agrees, key_byte-lt, extend, IsTree, mismatch, seen, lookup_inner, IsTree-child, children-IsTree,
}

-- The tree `x` holds what `o` holds and the pair (key, value), the key's old value forgotten.
abbrev pub Stores : Entry → ℕ → (ℕ → ℕ) → Node → Node → Type 0
Stores e d path o x =
    IsTree x d path
    × (is_null x ≡ false)
    × ((k : ℕ)
        → k ≢ 0
        → k < 2 ^ 64
        → lookup x k d ≡ (if e.key == k then some e.value else lookup o k d))

-- The tree `x` holds what `o` holds, except that a search for the key reads `val`.
abbrev pub Sets : ℕ → Option ℕ → ℕ → (ℕ → ℕ) → Node → Node → Type 0
Sets key val d path o x =
    IsTree x d path
    × ((k : ℕ) → k ≢ 0 → k < 2 ^ 64 → lookup x k d ≡ (if key == k then val else lookup o k d))

-- Headers with the same prefix.
abbrev pub SamePrefix : Header → Header → Type 0
SamePrefix g h =
    (g.partial_len ≡ h.partial_len) × ((i : ℕ) → i < h.partial_len → g.partial i ≡ h.partial i)

module _ (g h : Header) (s : SamePrefix g h) where
  extend-same : (path : ℕ → ℕ) (d c : ℕ) → extend path d g c ≡ extend path d h c
  extend-same path d c = fun_ext (λ j. ground (arith, s.0, s.1 (j - d)))

  mismatch-same : (k d : ℕ) → mismatch g k d ≡ mismatch h k d
  mismatch-same k d = rw s.0 (
      find_first-ext h.partial_len 0 (λ i. not (g.partial i == key_byte k (d + i)))
        (λ i. not (h.partial i == key_byte k (d + i))) (λ i l m. rw (s.1 i (omega arith)) refl))

mismatch-none :
    (h : Header) (k d i : ℕ)
    → mismatch h k d ≡ none
    → i < h.partial_len
    → h.partial i ≡ key_byte k (d + i)
mismatch-none h k d i e l =
    ground
      (arith, find_first-none h.partial_len 0 (λ j. not (h.partial j == key_byte k (d + j))) i e)

pub Agrees-extend :
    (h : Header) (k d : ℕ) (path : ℕ → ℕ)
    → Agrees d path k
    → mismatch h k d ≡ none
    → Agrees (d + h.partial_len + 1) (extend path d h (key_byte k (d + h.partial_len))) k
Agrees-extend h k d path a e i l = ground (arith, a i, mismatch-none h k d (i - d) e)

pub pick :
    (P : Node → Type 0) (b c : ℕ) (t u : Node)
    → (b ≡ c → P t)
    → (b ≢ c → P u)
    → P (if b == c then t else u)
pick P b c t u yes_case no_case = elim (Bool-cases (b == c)) [
  | inl q ↦ rw q (yes_case (ground (arith, q)))
  | inr q ↦ rw q (no_case (ground (arith, q)))
]

seen-same : (m m' f f' s s' : Option ℕ) → m ≡ m' → f ≡ f' → s ≡ s' → seen m f s ≡ seen m' f' s'
seen-same m m' f f' s s' a b c =
    ap (λ t. seen t f s) a ∙ ap (λ t. seen m' t s) b ∙ ap (seen m' f') c

module _ (h : Header) (ch : ℕ → Node) (d : ℕ) (path : ℕ → ℕ) (v : IsTree (inner h ch) d path)
    (key : ℕ) (val : Option ℕ) (m : mismatch h key d ≡ none) (new : find key h.buffer ≡ none) where
  abbrev byte : ℕ
  byte = key_byte key (d + h.partial_len)

  module _ (x : Node)
      (st : Sets key val (d + h.partial_len + 1) (extend path d h byte) (child_at h ch byte) x)
      (r : Body) (a : Added h ch byte x r) where
    same : SamePrefix r.0 h
    same = (a.len, λ i l. a.prefix i (omega (arith, v.1)))

    step_child :
        (b : ℕ) → b < 256 → IsTree (child_at r.0 r.1 b) (d + h.partial_len + 1) (extend path d h b)
    step_child b l =
        let D = d + h.partial_len + 1 in
        rw (a.at b l) (
          pick (λ t. IsTree t D (extend path d h b)) b byte x (child_at h ch b)
            (λ q. subst (λ c. IsTree x D (extend path d h c)) (sym q) st.0)
            (λ q. IsTree-child h ch d b path v l))

    merge :
        (k : ℕ)
        → k ≢ 0
        → k < 2 ^ 64
        → let D = d + h.partial_len + 1 in
          let b = key_byte k (d + h.partial_len) in
          let rest = seen (mismatch h k d) (find k h.buffer) in
          rest (lookup (if b == byte then x else child_at h ch b) k D)
          ≡ (if key == k then val else rest (lookup (child_at h ch b) k D))
    merge k n w =
        let D = d + h.partial_len + 1 in
        let b = key_byte k (d + h.partial_len) in
        let rest = seen (mismatch h k d) (find k h.buffer) in
        let P = λ (t : Node).
          rest (lookup t k D) ≡ (if key == k then val else rest (lookup (child_at h ch b) k D)) in
        elim (ℕ_discrete key k) [
          | yes p ↦
              let own : mismatch h k d ≡ none = subst (λ z. mismatch h z d ≡ none) p m in
              let away : find k h.buffer ≡ none = subst (λ z. find z h.buffer ≡ none) p new in
              rw (own, away)
                (pick (λ t. lookup t k D ≡ (if key == k then val else lookup (child_at h ch b) k D))
                  b byte x (child_at h ch b) (λ q. st.1 k n w ∙ ground (arith, p))
                  (λ q. absurd (q (ap (λ z. key_byte z (d + h.partial_len)) (sym p)))))
          | no p ↦
              let f : (key == k) ≡ false = ground (arith, p) in
              pick P b byte x (child_at h ch b)
                (λ q.
                  let below : lookup x k D ≡ lookup (child_at h ch b) k D =
                    st.1 k n w ∙ rw f (ap (λ c. lookup (child_at h ch c) k D) (sym q)) in
                  rw f (ap rest below))
                (λ q. rw f refl)
        ]

    step_lookup :
        (k : ℕ)
        → k ≢ 0
        → k < 2 ^ 64
        → lookup (inner r.0 r.1) k d ≡ (if key == k then val else lookup (inner h ch) k d)
    step_lookup k n w =
        let D = d + h.partial_len + 1 in
        let b = key_byte k (d + h.partial_len) in
        let short : d + r.0.partial_len < key_len = omega (arith, a.len, v.1) in
        let child =
          ap (λ z. lookup (child_at r.0 r.1 (key_byte k (d + z))) k (d + z + 1)) a.len
          ∙ ap (λ t. lookup t k D) (a.at b (key_byte-lt k (d + h.partial_len))) in
        let after =
          lookup_inner r.0 r.1 k d short
          ∙ seen-same (mismatch r.0 k d) (mismatch h k d) (find k r.0.buffer) (find k h.buffer)
              (lookup (child_at r.0 r.1 (key_byte k (d + r.0.partial_len))) k
                (d + r.0.partial_len + 1))
              (lookup (if b == byte then x else child_at h ch b) k D) (mismatch-same r.0 h same k d)
              (ap (find k) a.buffer) child in
        rw (after, lookup_inner h ch k d v.1) (merge k n w)

    pub step-Sets : Sets key val d path (inner h ch) (inner r.0 r.1)
    step-Sets = (
      (
        a.node,
        omega (arith, a.len, v.1),
        λ i l. ground (arith, same.1 i, v.2 i, a.len),
        λ k n f i l.
            v.3 k n (λ z. f (ap (find k) a.buffer ∙ z)) i (omega (arith, a.len, l))
            ∙ ap (λ F. F i) (sym (extend-same r.0 h same path d 0)),
        children-IsTree r.0 r.1 d path (λ c l.
            subst (IsTree (child_at r.0 r.1 c) (d + r.0.partial_len + 1))
              (sym (extend-same r.0 h same path d c))
              (subst (λ z. IsTree (child_at r.0 r.1 c) (d + z + 1) (extend path d h c)) (sym a.len)
                (step_child c l))),
        ap length a.buffer ∙ v.5,
      ),
      step_lookup,
    )

pub step :
    (h : Header) (ch : ℕ → Node) (d : ℕ) (path : ℕ → ℕ) (v : IsTree (inner h ch) d path) (e : Entry)
    → mismatch h e.key d ≡ none
    → find e.key h.buffer ≡ none
    → (x : Node)
    → let c = key_byte e.key (d + h.partial_len) in
      Stores e (d + h.partial_len + 1) (extend path d h c) (child_at h ch c) x
      → (r : Body) → Added h ch c x r
      → Stores e d path (inner h ch) (inner r.0 r.1)
step h ch d path v e m new x st r a =
    let s = step-Sets h ch d path v e.key (some e.value) m new x (st.0, st.2) r a in
    (s.0, refl, s.1)
