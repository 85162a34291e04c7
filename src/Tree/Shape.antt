-- ===== src/Tree/Shape.antt =====
-- What a well-formed tree is, and what a search reads in it.
use hetero_indexing.Prelude.{
  length, ℕ, ◌+◌, ◌-◌, ◌<◌, ◌^◌, ◌≡◌, ◌≢◌, refl, true, false, not, ◌&&◌, Option, none, some, arith,
  ◌==◌, ltb, if◌then◌else◌, min, Option-cases, inl, inr, List,
}
use mathlib.Core.Path.{subst}
use hetero_indexing.Common.{Entry, key_len, buf_len}
use hetero_indexing.Hash.{find}
use hetero_indexing.Art.{Header, Node, null, leaf, inner, find_first, find_child, key_byte}
use hetero_indexing.Art.Slots.{find_first-some, child_in}
use hetero_indexing.Art.Shape.{IsNode, child_at}
use hetero_indexing.Tree.{lookup, check_prefix}

-- The first `d` bytes of the key are those of the path.
abbrev pub Agrees : ℕ → (ℕ → ℕ) → ℕ → Type 0
Agrees d path key = (i : ℕ) → i < d → key_byte key i ≡ path i

pub key_byte-lt : (key i : ℕ) → key_byte key i < 256
unfolding key_byte
key_byte-lt key i = omega arith

-- Words with the same eight bytes are equal.
pub same_bytes :
    (a b : ℕ) → a < 2 ^ 64 → b < 2 ^ 64 → ((i : ℕ) → i < 8 → key_byte a i ≡ key_byte b i) → a ≡ b
unfolding key_byte
same_bytes a b l m h = omega (
  arith,
  h 0 (omega arith),
  h 1 (omega arith),
  h 2 (omega arith),
  h 3 (omega arith),
  h 4 (omega arith),
  h 5 (omega arith),
  h 6 (omega arith),
  h 7 (omega arith),
)

-- The path to the child of a node at depth `d` under byte `c`.
abbrev pub extend : (ℕ → ℕ) → ℕ → Header → ℕ → ℕ → ℕ
extend path d h c j =
    if ltb j d then path j else (if ltb j (d + h.partial_len) then h.partial (j - d) else c)

-- The keys of a buffer share the path of their node.
abbrev pub Buffered : ℕ → (ℕ → ℕ) → List Entry → Type 0
Buffered d path es = (k : ℕ) → k ≢ 0 → find k es ≢ none → Agrees d path k

-- A tree at depth `d` under a path: well-formed nodes, prefixes that end inside the key, and every
-- stored key a 64-bit word on its path.
abbrev pub IsTree : Node → ℕ → (ℕ → ℕ) → Type 0
IsTree null d path = Unit
IsTree (leaf e) d path = (e.key < 2 ^ 64) × Agrees d path e.key
IsTree (inner h ch) d path =
    IsNode h ch
    × (d + h.partial_len < key_len)
    × ((i : ℕ) → i < h.partial_len → h.partial i < 256)
    × Buffered (d + h.partial_len) (extend path d h 0) h.buffer
    × ((c i : ℕ)
        → c < 256
        → find_child h ch c ≡ some i
        → IsTree (ch i) (d + h.partial_len + 1) (extend path d h c))
    × (length h.buffer ≡ buf_len)

-- The first byte of the prefix that is not the key's.
abbrev pub mismatch : Header → ℕ → ℕ → Option ℕ
mismatch h key d = find_first h.partial_len 0 (λ i. not (h.partial i == key_byte key (d + i)))

-- What a search reads, from the mismatch, the buffer and the child.
abbrev pub seen : Option ℕ → Option ℕ → Option ℕ → Option ℕ
seen (some i) b s = none
seen none (some value) s = some value
seen none none s = s

module _ (h : Header) (ch : ℕ → Node) (key d : ℕ) (short : d + h.partial_len < key_len) where
  pub prefix_test :
      (not (h.partial_len == 0) && not (check_prefix h key d == min key_len h.partial_len))
      ≡ (elim (mismatch h key d) [ none ↦ false | some _ ↦ true ])
  unfolding check_prefix
  prefix_test =
      let whole : min (min h.partial_len key_len) (key_len - d) ≡ h.partial_len = omega arith in
      rw whole (elim (Option-cases (mismatch h key d)) [
        | inl e ↦ rw e (ground arith)
        | inr (i, e) ↦
            let found =
              find_first-some h.partial_len 0 (λ i. not (h.partial i == key_byte key (d + i))) i
                e in
            rw e (ground (arith, found.2))
      ])

  pub lookup_inner :
      lookup (inner h ch) key d
      ≡ seen
          (mismatch h key d)
          (find key h.buffer)
          (lookup (child_at h ch (key_byte key (d + h.partial_len))) key (d + h.partial_len + 1))
  unfolding lookup
  lookup_inner = rw prefix_test (elim (Option-cases (mismatch h key d)) [
    | inr (i, e) ↦ rw e refl
    | inl e ↦ rw e (elim (Option-cases (find key h.buffer)) [
      | inr (v, q) ↦ rw q refl
      | inl q ↦ rw q (elim (Option-cases (find_child h ch (key_byte key (d + h.partial_len)))) [
        | inl o ↦ rw o refl
        | inr (i, o) ↦ rw o refl
      ])
    ])
  ])

-- The children of a tree by their bytes.
pub IsTree-child :
    (h : Header) (ch : ℕ → Node) (d c : ℕ) (path : ℕ → ℕ)
    → IsTree (inner h ch) d path
    → c < 256
    → IsTree (child_at h ch c) (d + h.partial_len + 1) (extend path d h c)
IsTree-child h ch d c path v l = elim (Option-cases (find_child h ch c)) [
  | inl e ↦ rw e tt
  | inr (i, e) ↦ rw e (v.4 c i l e)
]

pub children-IsTree :
    (h : Header) (ch : ℕ → Node) (d : ℕ) (path : ℕ → ℕ)
    → ((c : ℕ) → c < 256 → IsTree (child_at h ch c) (d + h.partial_len + 1) (extend path d h c))
    → (c i : ℕ) → c < 256
    → find_child h ch c ≡ some i
    → IsTree (ch i) (d + h.partial_len + 1) (extend path d h c)
children-IsTree h ch d path f c i l e =
    subst (λ o. IsTree (child_in o ch) (d + h.partial_len + 1) (extend path d h c)) e (f c l)
