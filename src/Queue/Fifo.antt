-- ===== src/Queue/Fifo.antt =====
-- The ring refines a queue of unbounded length.
use hetero_indexing.Prelude.{
  ℕ, suc, ◌+◌, ◌-◌, ◌^◌, ◌≤◌, ◌<◌, ◌≡◌, refl, ap, ◌∙◌, List, [], ◌∷◌, ◌++◌, true, false, arith, ltb,
  take, drop, length, set, get_or, length-append, length-set, length-drop, Bool-cases, inl, inr,
}
use hetero_indexing.Queue.{Queue, null, empty, full, store, push, pop, head}
use hetero_indexing.Queue.Cells.{take_all, drop-set, take-set, drop-set_above, drop-cons, drop_all}
use hetero_indexing.Queue.Contents.{IsValid, contents, full_iff_length}
use hetero_indexing.Queue.Grow.{expand_lem}
use mathlib.Core.List.{append_assoc, append-nil}

-- A write behind the `b - f` cells from `f` on extends them.
window-set :
    (xs : List ℕ) (f b d : ℕ)
    → f ≤ b
    → b < length xs
    → take (suc (b - f)) (drop f (set xs b d)) ≡ take (b - f) (drop f xs) ++ (d ∷ [])
window-set xs f b d h k =
    let e : b ≡ f + (b - f) = omega arith in
    ap (λ t. take (suc (b - f)) (drop f (set xs t d))) e
    ∙ ap (take (suc (b - f))) (drop-set_above xs f (b - f) d)
    ∙ take-set (drop f xs) (b - f) d (omega (arith, length-drop f xs))

window-head :
    (xs : List ℕ) (f b : ℕ)
    → f < b
    → b < length xs
    → take (b - f) (drop f xs) ≡ get_or xs f null ∷ take (b - suc f) (drop (suc f) xs)
window-head xs f b h k =
    let e : b - f ≡ suc (b - suc f) = omega arith in
    rw e (ap (take (suc (b - suc f))) (drop-cons xs f null (omega arith)))

-- The queue that a client sees: a list, oldest pointer first.
unfoldable pub take_oldest : List ℕ → List ℕ × ℕ
take_oldest [] = ([], null)
take_oldest (d ∷ ds) = (ds, d)

-- A write at `back` with a free cell behind it appends one pointer.
store_lem :
    {q : Queue} (d : ℕ)
    → IsValid q
    → full q ≡ false
    → IsValid (store q d) × (contents (store q d) ≡ contents q ++ (d ∷ []))
unfolding full store
store_lem {q} d v h = elim (Bool-cases (ltb q.back q.front)) [
  | inl e ↦ (
    ground (arith, length-set q.items q.back d),
    ground (
      arith,
      e,
      drop-set q.items q.back q.front d,
      take-set q.items q.back d,
      append_assoc (drop q.front q.items) (take q.back q.items) (d ∷ []),
    ),
  )
  | inr e ↦ (
    ground (arith, length-set q.items q.back d),
    ground (
      arith,
      e,
      window-set q.items q.front q.back d,
      take_all (suc (q.back - q.front)) (drop q.front (set q.items q.back d)),
      length-drop q.front (set q.items q.back d),
      length-set q.items q.back d,
      append-nil (drop q.front (set q.items q.back d)),
    ),
  )
]

module _ {q : Queue} (v : IsValid q) where
  -- Whether the ring doubles or not, push appends the pointer and keeps the ring valid.
  pub push_appends :
      (d : ℕ)
      → (full q ≡ true → q.size < 2 ^ 31)
      → IsValid (push q d) × (contents (push q d) ≡ contents q ++ (d ∷ []))
  unfolding push
  push_appends d room = elim (Bool-cases (full q)) [
    | inl e ↦
        let (valid, same, free, doubled) = expand_lem v (room e) e in
        let (valid', appended) = store_lem d valid free in
        rw e (valid', appended ∙ ap (λ t. t ++ (d ∷ [])) same)
    | inr e ↦ rw e (store_lem d v e)
  ]

  -- Pop gives the oldest pointer and leaves the rest, or gives NULL where there is none, and
  -- keeps the ring valid.
  pub pop_refines : IsValid (pop q).0 × ((contents (pop q).0, (pop q).1) ≡ take_oldest (contents q))
  unfolding pop empty take_oldest
  pop_refines = (
    ground arith,
    elim (Bool-cases (ltb q.back q.front)) [
      | inl e ↦ ground (arith, e, drop-cons q.items q.front null, drop_all q.items (suc q.front))
      | inr e ↦ ground (arith, e, window-head q.items q.front q.back)
    ],
  )

  -- The front of the queue is the pointer that a pop would give.
  pub head_lem : head q ≡ (pop q).1
  unfolding pop head
  head_lem = ground arith

-- A client's calls in order.
pub data Op : Type 0 where
  put : ℕ → Op
  get : Op

-- What the pops of a run give, on the ring and on the list.
unfoldable pub run : Queue → List Op → List ℕ
run q [] = []
run q (put d ∷ ops) = run (push q d) ops
run q (get ∷ ops) = let (q', d) = pop q in d ∷ run q' ops

unfoldable pub run_list : List ℕ → List Op → List ℕ
run_list ds [] = []
run_list ds (put d ∷ ops) = run_list (ds ++ (d ∷ [])) ops
run_list ds (get ∷ ops) = let (ds', d) = take_oldest ds in d ∷ run_list ds' ops

length-take_oldest : (ds : List ℕ) → length (take_oldest ds).0 ≤ length ds
unfolding take_oldest
length-take_oldest [] = omega arith
length-take_oldest (d ∷ ds) = omega arith

-- A full ring is no larger than what it holds, so it has room to double.
room_of_length :
    {q : Queue} → IsValid q → length (contents q) < 2 ^ 31 - 1 → full q ≡ true → q.size < 2 ^ 31
room_of_length v h e = ground (arith, full_iff_length v)

-- No sequence of pushes and pops tells a valid ring from an unbounded list of pointers, as long as
-- the pointers stored at the start and the pushes and pops together are fewer than 2 ^ 31: every pop
-- gives the same pointer, NULL on an empty queue included, also where queue_push doubles the array
-- on the way.
pub run_refines :
    (ops : List Op) {q : Queue}
    → IsValid q
    → length (contents q) + length ops < 2 ^ 31
    → run q ops ≡ run_list (contents q) ops
unfolding run run_list
run_refines [] v h = refl
run_refines (put d ∷ ops) {q} v h =
    let (valid, appended) = push_appends v d (room_of_length v (omega arith)) in
    run_refines ops valid (rw appended (omega (arith, length-append (contents q) (d ∷ []))))
    ∙ ap (λ t. run_list t ops) appended
run_refines (get ∷ ops) {q} v h =
    let (valid, same) = pop_refines v in
    ap (λ t. (pop q).1 ∷ t)
      (run_refines ops valid
        (omega (arith, length-take_oldest (contents q), ap (λ (p : List ℕ × ℕ). length p.0) same)))
    ∙ ap (λ (p : List ℕ × ℕ). p.1 ∷ run_list p.0 ops) same
