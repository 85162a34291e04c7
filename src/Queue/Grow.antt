-- ===== src/Queue/Grow.antt =====
-- queue_expand: the stored pointers move to the start of an array of twice the size.
use hetero_indexing.Prelude.{
  ℕ, ◌+◌, ◌-◌, ◌*◌, ◌^◌, ◌≤◌, ◌<◌, ◌≡◌, ap, ◌∙◌, List, ◌++◌, true, false, arith, ltb, take, drop,
  length, replicate, length-append, length-take, length-drop, length-replicate, Bool-cases, inl,
  inr,
}
use hetero_indexing.Queue.{Queue, null, u32, full, copy, expand}
use hetero_indexing.Queue.Cells.{take_all, take-copy, length-copy}
use hetero_indexing.Queue.Contents.{IsValid, contents}

module _ {q : Queue} (v : IsValid q) (room : q.size < 2 ^ 31) where
  upper : List ℕ
  upper =
      copy (replicate (u32 (q.size * 2)) null) 0 (take (q.size - q.front) (drop q.front q.items))

  lower : List ℕ
  unfolding upper
  lower = copy upper (q.size - q.front) (take q.back q.items)

  length-upper : length upper ≡ q.size * 2
  unfolding upper
  length-upper = omega (
    arith,
    length-copy (replicate (u32 (q.size * 2)) null) 0
        (take (q.size - q.front) (drop q.front q.items)),
    length-replicate (u32 (q.size * 2)) null,
    length-take (q.size - q.front) (drop q.front q.items),
    length-drop q.front q.items,
  )

  take-upper : (n : ℕ) → n ≤ q.size - q.front → take n upper ≡ take n (drop q.front q.items)
  unfolding upper
  take-upper n h =
      take-copy (replicate (u32 (q.size * 2)) null) 0 n
        (take (q.size - q.front) (drop q.front q.items))
        (omega (
          arith,
          length-take (q.size - q.front) (drop q.front q.items),
          length-drop q.front q.items,
        ))
        (omega arith)
      ∙ ap (take n) (
          take_all (q.size - q.front) (drop q.front q.items)
            (omega (arith, length-drop q.front q.items)))

  length-lower : q.back ≤ q.front → length lower ≡ q.size * 2
  unfolding lower
  length-lower h = omega (
    arith,
    length-upper,
    length-copy upper (q.size - q.front) (take q.back q.items),
    length-take q.back q.items,
  )

  take-lower :
      q.back + 1 ≡ q.front → take (q.size - 1) lower ≡ drop q.front q.items ++ take q.back q.items
  unfolding lower
  take-lower h =
      take-copy upper (q.size - q.front) (q.size - 1) (take q.back q.items)
        (omega (arith, length-take q.back q.items)) (omega (arith, length-upper))
      ∙ ap (λ t. take (q.size - 1) (t ++ take q.back q.items))
          (take-upper (q.size - q.front) (omega arith)
            ∙ take_all (q.size - q.front) (drop q.front q.items)
                (omega (arith, length-drop q.front q.items)))
      ∙ take_all (q.size - 1) (drop q.front q.items ++ take q.back q.items) (
          omega (
            arith,
            length-append (drop q.front q.items) (take q.back q.items),
            length-take q.back q.items,
            length-drop q.front q.items,
          ))

  -- On a full valid ring of fewer than 2 ^ 31 cells queue_expand gives a valid ring of twice the
  -- size that holds the same pointers in the same order and is not full.
  pub expand_lem :
      full q ≡ true
      → IsValid (expand q)
        × (contents (expand q) ≡ contents q)
        × (full (expand q) ≡ false)
        × ((expand q).size ≡ q.size * 2)
  unfolding full expand upper lower
  expand_lem h = elim (Bool-cases (ltb q.back q.front)) [
    | inl e ↦
        (ground (arith, length-lower, e), ground (arith, take-lower, e), ground arith, ground arith)
    | inr e ↦ (
      ground (arith, length-upper),
      ground (arith, take-upper (q.size - 1)),
      ground arith,
      ground arith,
    )
  ]
