-- ===== src/Sketch/Rows.antt =====
-- One pass over the rows of a Count-Min sketch: where it reads and writes, and what it leaves.
use hetero_indexing.Prelude.{
  ℕ, zero, suc, ◌+◌, ◌-◌, ◌*◌, ◌^◌, ◌≤◌, ◌<◌, ◌≡◌, refl, sym, ap, ◌∙◌, List, arith, get_or, set,
  length, min, bit_and-le, get_or-set_self, get_or-set_ne, get_or-set, length-set,
}
use native.Mathlib.Decide.{dec_lt}
use hetero_indexing.Common.{u32}
use hetero_indexing.Sketch.{Sketch, Bits, advance, cell, inc_rows, count_rows}

-- Every cell that a pass for these bits visits holds at least `c`.
abbrev pub Covers : Sketch → ℕ → ℕ → ℕ → Bits → List ℕ → Type 0
Covers cm c zero i b cs = Unit
Covers cm c (suc n) i b cs =
    (c ≤ get_or cs (cell cm i b) 0) × Covers cm c n (i + 1) (advance cm.shift b) cs

pub Covers-mono :
    (cm : Sketch) (c n i : ℕ) (b : Bits) (cs ds : List ℕ)
    → ((j : ℕ) → get_or cs j 0 ≤ get_or ds j 0)
    → Covers cm c n i b cs
    → Covers cm c n i b ds
Covers-mono cm c zero i b cs ds h v = v
Covers-mono cm c (suc n) i b cs ds h v = (
  omega (arith, h (cell cm i b), v.0),
  Covers-mono cm c n (i + 1) (advance cm.shift b) cs ds h v.1,
)

-- Where a pass goes does not depend on the counters.
pub Covers-counts :
    (cm : Sketch) (new : List ℕ) (c n i : ℕ) (b : Bits) (cs : List ℕ)
    → Covers cm c n i b cs
    → Covers (record cm { counts = new }) c n i b cs
unfolding cell
Covers-counts cm new c zero i b cs v = v
Covers-counts cm new c (suc n) i b cs v =
    (v.0, Covers-counts cm new c n (i + 1) (advance cm.shift b) cs v.1)

-- Adding one to a counter below the largest word adds at most one to any counter.
bump_bounds :
    (cs : List ℕ) (idx j : ℕ)
    → get_or cs idx 0 < 2 ^ 32 - 1
    → (get_or cs j 0 ≤ get_or (set cs idx (u32 (get_or cs idx 0 + 1))) j 0)
      × (get_or (set cs idx (u32 (get_or cs idx 0 + 1))) j 0 ≤ get_or cs j 0 + 1)
bump_bounds cs idx j h = ground (arith, get_or-set cs idx j (u32 (get_or cs idx 0 + 1)) 0)

module _ (cm : Sketch) (wide : 0 < cm.width) (word : cm.width < 2 ^ 32) where
  -- Row `i` has its cells to itself.
  pub cell_bounds :
      (i n : ℕ) (b : Bits)
      → (i + suc n) * cm.width < 2 ^ 32
      → (i * cm.width ≤ cell cm i b) × (cell cm i b < (i + 1) * cm.width)
  unfolding cell
  cell_bounds i n b h =
      let fits : i * cm.width + cm.width < 2 ^ 32 = omega arith in
      omega (arith, bit_and-le b.low (u32 (cm.width + 2 ^ 32 - 1)))

  pub length-inc_rows :
      (n i : ℕ) (b : Bits) (m : ℕ) (cs : List ℕ) → length (inc_rows n i cm b m cs).0 ≡ length cs
  unfolding inc_rows
  length-inc_rows zero i b m cs = refl
  length-inc_rows (suc n) i b m cs =
      length-inc_rows n (i + 1) (advance cm.shift b) _ _ ∙ length-set cs (cell cm i b) _

  -- The rows from `i` on leave the cells of the rows above alone.
  pub inc_rows_above :
      (n i : ℕ) (b : Bits) (m : ℕ) (cs : List ℕ) (j : ℕ)
      → (i + n) * cm.width < 2 ^ 32
      → j < i * cm.width
      → get_or (inc_rows n i cm b m cs).0 j 0 ≡ get_or cs j 0
  unfolding inc_rows
  inc_rows_above zero i b m cs j h k = refl
  inc_rows_above (suc n) i b m cs j h k =
      inc_rows_above n (i + 1) (advance cm.shift b) _ _ j (omega arith) (omega arith)
      ∙ get_or-set_ne cs (cell cm i b) j _ 0 (omega (arith, cell_bounds i n b h))

  -- The minimum that the increment returns is the one that a count of the new counters finds.
  pub inc_rows_returns :
      (n i : ℕ) (b : Bits) (m : ℕ) (cs : List ℕ)
      → (i + n) * cm.width < 2 ^ 32
      → (inc_rows n i cm b m cs).1
        ≡ count_rows n i (record cm { counts = (inc_rows n i cm b m cs).0 }) b m
  unfolding inc_rows count_rows cell
  inc_rows_returns zero i b m cs h = refl
  inc_rows_returns (suc n) i b m cs h =
      let cs' = set cs (cell cm i b) (u32 (get_or cs (cell cm i b) 0 + 1)) in
      let kept =
        inc_rows_above n (i + 1) (advance cm.shift b) (min m (get_or cs' (cell cm i b) 0)) cs'
          (cell cm i b) (omega arith) (cell_bounds i n b h).1 in
      inc_rows_returns n (i + 1) (advance cm.shift b) (min m (get_or cs' (cell cm i b) 0)) cs'
        (omega arith)
      ∙ ap
          (λ t.
            count_rows n (i + 1) (record cm { counts = (inc_rows (suc n) i cm b m cs).0 })
              (advance cm.shift b) (min m t))
          (sym kept)

  -- A write to the cell of row `i` leaves the cells of the other rows alone.
  bump_elsewhere :
      (i n : ℕ) (b : Bits) (v : ℕ) (cs : List ℕ) (j : ℕ)
      → (i + suc n) * cm.width < 2 ^ 32
      → (i + 1) * cm.width ≤ j
      → get_or (set cs (cell cm i b) v) j 0 ≡ get_or cs j 0
  bump_elsewhere i n b v cs j h k =
      get_or-set_ne cs (cell cm i b) j v 0 (omega (arith, cell_bounds i n b h))

  -- A pass over counters that cannot wrap adds at most one to each, and takes from none.
  pub inc_rows_grows :
      (T n i : ℕ) (b : Bits) (m : ℕ) (cs : List ℕ) (j : ℕ)
      → T < 2 ^ 32 - 1
      → (i + n) * cm.width < 2 ^ 32
      → ((k : ℕ) → i * cm.width ≤ k → get_or cs k 0 ≤ T)
      → (get_or cs j 0 ≤ get_or (inc_rows n i cm b m cs).0 j 0)
        × (get_or (inc_rows n i cm b m cs).0 j 0 ≤ get_or cs j 0 + 1)
  unfolding inc_rows
  inc_rows_grows T zero i b m cs j t h low = omega arith
  inc_rows_grows T (suc n) i b m cs j t h low =
      let idx = cell cm i b in
      let cs' = set cs idx (u32 (get_or cs idx 0 + 1)) in
      let b' = advance cm.shift b in
      let m' = min m (get_or cs' idx 0) in
      let here = cell_bounds i n b h in
      let apart = λ (k : ℕ) (above : (i + 1) * cm.width ≤ k).
        bump_elsewhere i n b (u32 (get_or cs idx 0 + 1)) cs k h above in
      let step = bump_bounds cs idx j (omega (arith, low idx here.0)) in
      let low' : (k : ℕ) → (i + 1) * cm.width ≤ k → get_or cs' k 0 ≤ T =
        λ k above. rw (apart k above) (low k (omega arith)) in
      let ih = inc_rows_grows T n (i + 1) b' m' cs' j t (omega arith) low' in
      elim (dec_lt j ((i + 1) * cm.width)) [
        | yes p ↦ omega (arith, step, inc_rows_above n (i + 1) b' m' cs' j (omega arith) p)
        | no p ↦ omega (arith, ih, apart j (omega arith))
      ]

  -- A pass raises each of the cells that it visits.
  pub inc_rows-Covers :
      (T c n i : ℕ) (b : Bits) (m : ℕ) (cs : List ℕ)
      → T < 2 ^ 32 - 1
      → (i + n) * cm.width < 2 ^ 32
      → (i + n) * cm.width ≤ length cs
      → ((k : ℕ) → i * cm.width ≤ k → get_or cs k 0 ≤ T)
      → Covers cm c n i b cs
      → Covers cm (c + 1) n i b (inc_rows n i cm b m cs).0
  unfolding inc_rows
  inc_rows-Covers T c zero i b m cs t h l low v = v
  inc_rows-Covers T c (suc n) i b m cs t h l low v =
      let idx = cell cm i b in
      let cs' = set cs idx (u32 (get_or cs idx 0 + 1)) in
      let b' = advance cm.shift b in
      let m' = min m (get_or cs' idx 0) in
      let here = cell_bounds i n b h in
      let old = low idx here.0 in
      let low' : (k : ℕ) → (i + 1) * cm.width ≤ k → get_or cs' k 0 ≤ T = λ k above.
        rw (bump_elsewhere i n b (u32 (get_or cs idx 0 + 1)) cs k h above) (low k (omega arith)) in
      let rest : Covers cm c n (i + 1) b' cs' =
        Covers-mono cm c n (i + 1) b' cs cs' (λ j. (bump_bounds cs idx j (omega arith)).0) v.1 in
      (
        omega (
          arith,
          v.0,
          inc_rows_above n (i + 1) b' m' cs' idx (omega arith) here.1,
          get_or-set_self cs idx (u32 (get_or cs idx 0 + 1)) 0 (omega arith),
        ),
        inc_rows-Covers T c n (i + 1) b' m' cs' t (omega arith)
            (omega (arith, length-set cs idx (u32 (get_or cs idx 0 + 1)))) low' rest,
      )

pub le-count_rows :
    (cm : Sketch) (c n i : ℕ) (b : Bits) (m : ℕ)
    → c ≤ m
    → Covers cm c n i b cm.counts
    → c ≤ count_rows n i cm b m
unfolding count_rows
le-count_rows cm c zero i b m h v = h
le-count_rows cm c (suc n) i b m h v =
    le-count_rows cm c n (i + 1) (advance cm.shift b) (min m (get_or cm.counts (cell cm i b) 0))
      (omega (arith, v.0)) v.1

count_rows-le : (cm : Sketch) (n i : ℕ) (b : Bits) (m : ℕ) → count_rows n i cm b m ≤ m
unfolding count_rows
count_rows-le cm zero i b m = omega arith
count_rows-le cm (suc n) i b m = omega (
  arith,
  count_rows-le cm n (i + 1) (advance cm.shift b) (min m (get_or cm.counts (cell cm i b) 0)),
)

-- With a row the minimum is at most the largest counter.
pub count_rows-Below :
    (cm : Sketch) (T : ℕ)
    → ((j : ℕ) → get_or cm.counts j 0 ≤ T)
    → (n i : ℕ) (b : Bits) (m : ℕ) → 0 < n
    → count_rows n i cm b m ≤ T
unfolding count_rows
count_rows-Below cm T low zero i b m d = absurd (omega arith)
count_rows-Below cm T low (suc n) i b m d = omega (
  arith,
  low (cell cm i b),
  count_rows-le cm n (i + 1) (advance cm.shift b) (min m (get_or cm.counts (cell cm i b) 0)),
)
