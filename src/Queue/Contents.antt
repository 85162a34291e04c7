-- ===== src/Queue/Contents.antt =====
-- What a ring of queue.c holds, and the invariant of its indices.
use hetero_indexing.Prelude.{
  ℕ, suc, ◌+◌, ◌-◌, ◌^◌, ◌<◌, ◌≡◌, List, ◌++◌, arith, ltb, if◌then◌else◌, take, drop, length,
  length-append, length-take, length-drop, length-replicate,
}
use hetero_indexing.Queue.{Queue, null, construct, full}

-- Both indices are inside the array, and the array has the size that is recorded.
pub record IsValid (q : Queue) : Type 0 where
  pub cells : length q.items ≡ q.size
  pub front_in : q.front < q.size
  pub back_in : q.back < q.size
  pub word : q.size < 2 ^ 32

-- The stored pointers, oldest first.
abbrev pub contents : Queue → List ℕ
contents q =
    if ltb q.back q.front
    then drop q.front q.items ++ take q.back q.items
    else take (q.back - q.front) (drop q.front q.items)

pub construct-IsValid : (n : ℕ) → 0 < n → n < 2 ^ 32 → IsValid (construct n)
unfolding construct
construct-IsValid n h k = omega (arith, length-replicate n null)

pub length-contents :
    {q : Queue}
    → IsValid q
    → length (contents q)
      ≡ (if ltb q.back q.front then q.size + q.back - q.front else q.back - q.front)
length-contents {q} v = ground (
  arith,
  length-append (drop q.front q.items) (take q.back q.items),
  length-drop q.front q.items,
  length-take q.back q.items,
  length-take (q.back - q.front) (drop q.front q.items),
)

-- `queue_full` leaves one cell free: it holds exactly when `size - 1` pointers are stored.
pub full_iff_length :
    {q : Queue}
    → IsValid q
    → if full q then (suc (length (contents q)) ≡ q.size) else (suc (length (contents q)) < q.size)
unfolding full
full_iff_length {q} v = ground (arith, length-contents v)
