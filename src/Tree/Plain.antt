-- ===== src/Tree/Plain.antt =====
-- Trees without buffered pairs.
use hetero_indexing.Prelude.{
  ℕ, ◌+◌, ◌-◌, ◌<◌, ◌≡◌, ◌≢◌, ap, ◌∙◌, Bool, true, false, ◌&&◌, none, some, ◌==◌, ltb, leb,
  if◌then◌else◌, List, Option-cases, inl, inr, min, replicate,
}
use mathlib.Core.Path.{subst}
use hetero_indexing.Common.{Entry, key_len, buf_len}
use hetero_indexing.Hash.{find}
use hetero_indexing.Art.{
  Header, Node, Body, null, leaf, inner, empty_entry, find_child, find_first, add_child4, update,
  shift_up, or_default, no_children, key_byte,
}
use hetero_indexing.Art.Slots.{child_in}
use hetero_indexing.Art.Shape.{child_at, Added}
use hetero_indexing.Tree.{longest_common_prefix, split_leaf, split_prefix}
use hetero_indexing.Tree.Step.{pick}
use hetero_indexing.Tree.Wrap.{wrapper, wrapped, add_child4-new}
use hetero_indexing.Tree.Search.{find-zeroed}

-- A buffer without a pair.
abbrev pub Quiet : List Entry → Type 0
Quiet es = (k : ℕ) → k ≢ 0 → find k es ≡ none

abbrev pub IsPlain : Node → Type 0
IsPlain null = Unit
IsPlain (leaf e) = Unit
IsPlain (inner h ch) =
    Quiet h.buffer × ((c i : ℕ) → c < 256 → find_child h ch c ≡ some i → IsPlain (ch i))

pub IsPlain-child :
    (h : Header) (ch : ℕ → Node) (c : ℕ)
    → IsPlain (inner h ch)
    → c < 256
    → IsPlain (child_at h ch c)
IsPlain-child h ch c p l = elim (Option-cases (find_child h ch c)) [
  | inl e ↦ rw e tt
  | inr (i, e) ↦ rw e (p.1 c i l e)
]

-- A node whose child under a byte was replaced.
pub IsPlain-Added :
    (h : Header) (ch : ℕ → Node) (c : ℕ) (x : Node) (r : Body)
    → IsPlain (inner h ch)
    → IsPlain x
    → Added h ch c x r
    → IsPlain (inner r.0 r.1)
IsPlain-Added h ch c x r p q a = (
  λ k n. ap (find k) a.buffer ∙ p.0 k n,
  λ b i l e.
      subst (λ o. IsPlain (child_in o r.1)) e
        (rw (a.at b l)
          (pick IsPlain b c x (child_at h ch b) (λ _. q) (λ _. IsPlain-child h ch b p l))),
)

if-IsPlain : (b : Bool) (x y : Node) → IsPlain x → IsPlain y → IsPlain (if b then x else y)
if-IsPlain true x y p q = p
if-IsPlain false x y p q = q

pub cells-IsPlain :
    (ch : ℕ → Node) (idx n : ℕ) (x : Node)
    → ((i : ℕ) → IsPlain (ch i))
    → IsPlain x
    → (i : ℕ) → IsPlain (update (shift_up ch idx n) idx x i)
cells-IsPlain ch idx n x all p i =
    if-IsPlain (idx == i) x (shift_up ch idx n i) p
      (if-IsPlain (ltb idx i && leb i n) (ch (i - 1)) (ch i) (all (i - 1)) (all i))

-- A leaf beside a node without buffered pairs.
fork-IsPlain :
    (m : ℕ) (f : ℕ → ℕ) (bs : List Entry) (c : ℕ) (x : Node) (b : ℕ) (e : Entry)
    → Quiet bs
    → IsPlain x
    → let two = add_child4 (wrapper m f bs c x) (wrapped m f bs c x) b (leaf e) in
      IsPlain (inner two.0 two.1)
unfolding add_child4
fork-IsPlain m f bs c x b e q p =
    let idx = or_default (find_first 1 0 (λ j. ltb b ((wrapper m f bs c x).keys j))) 1 in
    (
      q,
      λ k i l o.
          cells-IsPlain (wrapped m f bs c x) idx 1 (leaf e)
            (cells-IsPlain no_children 0 0 x (λ _. tt) p) tt i,
    )

pub split_leaf-IsPlain : (l e : Entry) (d : ℕ) → IsPlain (split_leaf l e d)
unfolding split_leaf
split_leaf-IsPlain l e d =
    let j = longest_common_prefix l e d in
    let shared = λ (i : ℕ). if ltb i (min key_len j) then key_byte e.key (d + i) else 0 in
    let zeroed = replicate buf_len empty_entry in
    rw (add_child4-new j shared zeroed (key_byte l.key (d + j)) (leaf l)) (
      fork-IsPlain j shared zeroed (key_byte l.key (d + j)) (leaf l) (key_byte e.key (d + j)) e
        find-zeroed tt)

zeroed-IsPlain :
    (h : Header) (ch : ℕ → Node) (n : ℕ) (f : ℕ → ℕ)
    → IsPlain (inner h ch)
    → IsPlain (
        inner
          (record h { buffer = replicate buf_len empty_entry; partial_len = n; partial = f })
          ch)
unfolding find_child
zeroed-IsPlain h ch n f p = (find-zeroed, p.1)

pub split_prefix-IsPlain :
    (h : Header) (ch : ℕ → Node) (e : Entry) (d j : ℕ)
    → leb h.partial_len key_len ≡ true
    → IsPlain (inner h ch)
    → IsPlain (split_prefix h ch e d j)
unfolding split_prefix
split_prefix-IsPlain h ch e d j short p =
    let start = λ (i : ℕ). if ltb i (min key_len j) then h.partial i else 0 in
    let rest = h.partial_len - (j + 1) in
    let f = λ (i : ℕ). if ltb i (min key_len rest) then h.partial (i + (j + 1)) else h.partial i in
    let old : Node =
      inner (record h { buffer = replicate buf_len empty_entry; partial_len = rest; partial = f })
        ch in
    rw (short, add_child4-new j start h.buffer (h.partial j) old)
      (fork-IsPlain j start h.buffer (h.partial j) old (key_byte e.key (d + j)) e p.0
        (zeroed-IsPlain h ch rest f p))
