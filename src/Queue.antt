-- ===== src/Queue.antt =====
-- src/queue.h and src/queue.c: the growing ring of pointers that index_compact walks the tree with.
-- A `void *` is its address, and NULL is 0. `calloc` is taken to succeed.
use hetero_indexing.Prelude.{
  ℕ, ◌+◌, ◌-◌, ◌*◌, ◌%◌, ◌^◌, List, [], ◌∷◌, ◌++◌, Bool, ◌&&◌, ◌||◌, ◌==◌, ltb, if◌then◌else◌, take,
  drop, length, replicate, get_or, set,
}
pub mod Contents
mod Cells
pub mod Grow
pub mod Fifo
mod Tests

-- `struct queue`. All three indices are 32-bit.
pub record Queue : Type 0 where
  pub size : ℕ
  pub front : ℕ
  pub back : ℕ
  pub items : List ℕ

abbrev pub u32 : ℕ → ℕ
u32 x = x % 2 ^ 32

abbrev pub null : ℕ
null = 0

pub construct : ℕ → Queue
construct n = record { size = n; front = 0; back = 0; items = replicate n null }

pub empty : Queue → Bool
empty q = q.back == q.front

-- `size - 1` wraps at 0.
pub full : Queue → Bool
full q = u32 (q.back + 1) == q.front || (q.back == u32 (q.size + 2 ^ 32 - 1) && q.front == 0)

-- `memcpy(dst + at, from, ...)` of the whole of `from`, inside `dst`.
pub copy : List ℕ → ℕ → List ℕ → List ℕ
copy dst at from = take at dst ++ (from ++ drop (at + length from) dst)

pub expand : Queue → Queue
unfolding copy
expand q =
    let fresh = replicate (u32 (q.size * 2)) null in
    let upper = copy fresh 0 (take (q.size - q.front) (drop q.front q.items)) in
    let lower = copy upper (q.size - q.front) (take q.back q.items) in
    record {
      size = u32 (q.size * 2);
      front = 0;
      back = u32 (q.size + 2 ^ 32 - 1);
      items = if ltb q.back q.front then lower else upper;
    }

-- The write at `back`, and the step of `back` round the end.
store : Queue → ℕ → Queue
store q d = record q {
  items = set q.items q.back d;
  back = if u32 (q.back + 1) == q.size then 0 else u32 (q.back + 1);
}

pub push : Queue → ℕ → Queue
unfolding store
push q d = if full q then store (expand q) d else store q d

pub head : Queue → ℕ
head q = if empty q then null else get_or q.items q.front null

pub pop : Queue → Queue × ℕ
pop q = if empty q then (q, null) else (
  record q { front = if u32 (q.front + 1) == q.size then 0 else u32 (q.front + 1) },
  get_or q.items q.front null,
)
