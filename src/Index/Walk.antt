-- ===== src/Index/Walk.antt =====
-- The queue of index_compact: a walk over the inner nodes of a tree, level by level.
use hetero_indexing.Prelude.{
  ℕ, zero, suc, ◌+◌, ◌<◌, ◌≤◌, ◌≡◌, refl, sym, ap, ◌∙◌, List, [], ◌∷◌, ◌++◌, Bool, true, false,
  Option, none, some, ltb, if◌then◌else◌, ◌⊎◌, arith, inl, inr,
}
use mathlib.Core.Path.{subst}
use hetero_indexing.Common.{is_special_key}
use hetero_indexing.Art.{Header, Node, null, leaf, inner, is_null}
use hetero_indexing.Tree.Plain.{Quiet}
use hetero_indexing.Index.{node_at, pair_at, cells, cells_used, inner_children, children_of}
use hetero_indexing.Index.Expand.{Quiet-pair}

abbrev pub is_inner : Node → Bool
is_inner null = false
is_inner (leaf e) = false
is_inner (inner h ch) = true

-- The sum over `n` cells from cell `k` on.
abbrev pub sum_cells : ℕ → ℕ → (ℕ → ℕ) → ℕ
sum_cells zero k f = 0
sum_cells (suc n) k f = f k + sum_cells n (k + 1) f

-- The inner nodes of a tree, counted over all cells.
abbrev pub inner_count : Node → ℕ
inner_count null = 0
inner_count (leaf e) = 0
inner_count (inner h ch) = suc (sum_cells (cells h.kind) 0 (λ i. inner_count (ch i)))

-- No pair in any buffer, and no inner node in a cell that is not in use.
abbrev pub Calm : Node → Type 0
Calm null = Unit
Calm (leaf e) = Unit
Calm (inner h ch) =
    Quiet h.buffer
    × ((k : ℕ) → k < cells h.kind → Calm (ch k))
    × ((k : ℕ) → k < cells h.kind → cells_used h ≤ k → is_inner (ch k) ≡ false)

pub pair_at-Calm : (n : Node) (j : ℕ) → Calm n → is_special_key (pair_at n j).key ≡ true
unfolding pair_at
pair_at-Calm null j p = refl
pair_at-Calm (leaf e) j p = refl
pair_at-Calm (inner h ch) j p = Quiet-pair h.buffer j p.0

-- The queue has calm inner nodes of the tree, and this many inner nodes below them.
abbrev pub AllCalm : Node → List (List ℕ) → Type 0
AllCalm root [] = Unit
AllCalm root (p ∷ q) = Calm (node_at p root) × (is_inner (node_at p root) ≡ true) × AllCalm root q

abbrev pub total : Node → List (List ℕ) → ℕ
total root [] = 0
total root (p ∷ q) = inner_count (node_at p root) + total root q

pub AllCalm-append :
    (root : Node) (p q : List (List ℕ)) → AllCalm root p → AllCalm root q → AllCalm root (p ++ q)
AllCalm-append root [] q a b = b
AllCalm-append root (x ∷ p) q a b = (a.0, a.1, AllCalm-append root p q a.2 b)

pub total-append :
    (root : Node) (p q : List (List ℕ)) → total root (p ++ q) ≡ total root p + total root q
total-append root [] q = omega arith
total-append root (x ∷ p) q = omega (arith, total-append root p q)

node_at-append :
    (path : List ℕ) (n : Node) (h : Header) (ch : ℕ → Node) (k : ℕ)
    → node_at path n ≡ inner h ch
    → node_at (path ++ k ∷ []) n ≡ ch k
unfolding node_at
node_at-append [] n h ch k e = ap (node_at (k ∷ [])) e
node_at-append (i ∷ path) null h ch k e = absurd (ground (arith, e))
node_at-append (i ∷ path) (leaf l) h ch k e = absurd (ground (arith, e))
node_at-append (i ∷ path) (inner g below) h ch k e = node_at-append path (below i) h ch k e

Node-cases : (n : Node) → (is_inner n ≡ false) ⊎ ((h : Header) × (ch : ℕ → Node) × (n ≡ inner h ch))
Node-cases null = inl refl
Node-cases (leaf e) = inl refl
Node-cases (inner h ch) = inr (h, ch, refl)

outer_count : (n : Node) → is_inner n ≡ false → inner_count n ≡ 0
outer_count null e = refl
outer_count (leaf l) e = refl
outer_count (inner h ch) e = absurd (ground (arith, e))

-- What the cells from cell `k` on give the queue.
abbrev Gives : Node → ℕ → Option (List (List ℕ)) → Type 0
Gives root count o =
    (more : List (List ℕ)) × (o ≡ some more) × AllCalm root more × (total root more ≡ count)

module _ (root : Node) (path : List ℕ) (h : Header) (ch : ℕ → Node)
    (at : node_at path root ≡ inner h ch) (used : ℕ) where
  skipped :
      (n k : ℕ)
      → is_inner (ch k) ≡ false
      → inner_children (suc n) k used path ch ≡ inner_children n (k + 1) used path ch
  unfolding inner_children
  skipped n k e = skip (ch k) e
    where
      skip :
          (c : Node)
          → is_inner c ≡ false
          → (elim c as (λ _. Option (List (List ℕ))) [
            | null ↦ inner_children n (k + 1) used path ch
            | leaf l ↦ inner_children n (k + 1) used path ch
            | inner g below ↦
                if ltb k used
                then (elim (inner_children n (k + 1) used path ch) [
                  | none ↦ none
                  | some more ↦ some ((path ++ k ∷ []) ∷ more)
                ])
                else none
          ])
            ≡ inner_children n (k + 1) used path ch
      skip null e = refl
      skip (leaf l) e = refl
      skip (inner g below) e = absurd (ground (arith, e))

  cells_give :
      (n k : ℕ)
      → ((i : ℕ) → i < k + n → Calm (ch i))
      → ((i : ℕ) → i < k + n → used ≤ i → is_inner (ch i) ≡ false)
      → Gives root (sum_cells n k (λ i. inner_count (ch i))) (inner_children n k used path ch)
  unfolding inner_children
  cells_give zero k calm stale = ([], refl, tt, refl)
  cells_give (suc n) k calm stale =
      let (more, now, quiet, count) =
        cells_give n (k + 1) (λ i l. calm i (omega arith)) (λ i l. stale i (omega arith)) in
      elim (Node-cases (ch k)) [
        | inl o ↦ (more, skipped n k o ∙ now, quiet, omega (arith, count, outer_count (ch k) o))
        | inr (g, below, e) ↦
            let live : ltb k used ≡ true = ground (arith, stale k (omega arith), e) in
            let there = node_at-append path root h ch k at in
            (
              (path ++ k ∷ []) ∷ more,
              rw (inner_children, e, live, now) refl,
              (rw there (calm k (omega arith)), rw (there, e) refl, quiet),
              rw there (omega (arith, count)),
            )
      ]

-- The children of a calm inner node.
pub children_give :
    (root : Node) (path : List ℕ)
    → Calm (node_at path root)
    → is_inner (node_at path root) ≡ true
    → (more : List (List ℕ)) × (children_of path (node_at path root) ≡ some more)
      × AllCalm root more
      × (suc (total root more) ≡ inner_count (node_at path root))
unfolding children_of
children_give root path calm i = elim (Node-cases (node_at path root)) [
  | inl o ↦ absurd (cc (o, i))
  | inr (h, ch, e) ↦
      let c : Calm (inner h ch) = subst Calm e calm in
      let (more, now, quiet, count) =
        cells_give root path h ch e (cells_used h) (cells h.kind) 0 (λ i l. c.1 i (omega arith))
          (λ i l. c.2 i (omega arith)) in
      (more, ap (children_of path) e ∙ now, quiet, ap suc count ∙ sym (ap inner_count e))
]

pub inner_count-pos : (n : Node) → is_inner n ≡ true → 0 < inner_count n
inner_count-pos null i = absurd (ground (arith, i))
inner_count-pos (leaf e) i = absurd (ground (arith, i))
inner_count-pos (inner h ch) i = omega arith

-- The walk from a root that is not NULL, where it ends as it began if the root is an inner node.
pub walk_calm {ℓ} :
    {A : Type ℓ} (o : Node) (s : A) (moved : Option A)
    → is_null o ≡ false
    → (is_inner o ≡ true → moved ≡ some s)
    → (elim o as (λ _. Option A) [ null ↦ none | leaf e ↦ some s | inner h ch ↦ moved ]) ≡ some s
walk_calm null s moved n q = absurd (ground (arith, n))
walk_calm (leaf e) s moved n q = refl
walk_calm (inner h ch) s moved n q = q refl
