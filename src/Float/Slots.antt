-- ===== src/Float/Slots.antt =====
-- One buffer: what art_float reads and writes in it.
use hetero_indexing.Prelude.{
  ℕ, zero, suc, ◌+◌, ◌-◌, ◌≤◌, ◌<◌, ◌≡◌, ◌≢◌, refl, List, [], ◌∷◌, true, not, none, some, ◌==◌,
  ◌&&◌, ◌||◌, arith, get_or, set, length, inl, inr, Option-cases, Bool-cases,
}
use hetero_indexing.Common.{Entry, empty_flag, occupied_flag, int_ltb, Murmur}
use hetero_indexing.Sketch
use hetero_indexing.Sketch.{Sketch}
use hetero_indexing.Hash.{find}
use hetero_indexing.Hash.Bin.{occurs, find-eq-none_iff}
use hetero_indexing.Art.{empty_entry, key_byte, find_first}
use hetero_indexing.Art.Slots.{find_first-none}
use hetero_indexing.Float.{Info, Choice, empty_slot, lru_slot, no_slot, choose, same_bytes_from}

-- A write to a slot has no bearing on a key that neither the old nor the new entry has.
pub find-set_other :
    (k j : ℕ) (e : Entry) (bs : List Entry)
    → e.key ≢ k
    → (get_or bs j empty_entry).key ≢ k
    → find k (set bs j e) ≡ find k bs
unfolding find
find-set_other k j e [] n o = refl
find-set_other k zero e (b ∷ bs) n o = ground (arith, n, o)
find-set_other k (suc j) e (b ∷ bs) n o = ground (arith, find-set_other k j e bs n o)

-- A key that was not there is read from its slot.
pub find-set_new :
    (j : ℕ) (e : Entry) (bs : List Entry)
    → find e.key bs ≡ none
    → j < length bs
    → find e.key (set bs j e) ≡ some e.value
unfolding find
find-set_new j e [] f l = absurd (omega (arith, l))
find-set_new zero e (b ∷ bs) f l = ground arith
find-set_new (suc j) e (b ∷ bs) f l = ground (arith, f, find-set_new j e bs)

pub occurs-get_or :
    (k j : ℕ) (bs : List Entry)
    → (get_or bs j empty_entry).key ≡ k
    → j < length bs
    → 1 ≤ occurs k bs
occurs-get_or k j [] at l = absurd (omega (arith, l))
occurs-get_or k zero (b ∷ bs) at l = ground (arith, at)
occurs-get_or k (suc j) (b ∷ bs) at l = ground (arith, at, occurs-get_or k j bs at)

-- A key that stands in one slot only is gone when the slot is overwritten, and was read from it.
pub find-set_gone :
    (k j : ℕ) (e : Entry) (bs : List Entry)
    → e.key ≢ k
    → occurs k bs ≤ 1
    → (get_or bs j empty_entry).key ≡ k
    → j < length bs
    → (find k (set bs j e) ≡ none) × (find k bs ≡ some (get_or bs j empty_entry).value)
unfolding find
find-set_gone k j e [] n o at l = absurd (omega (arith, l))
find-set_gone k zero e (b ∷ bs) n o at l = ground (arith, n, o, at, find-eq-none_iff k bs)
find-set_gone k (suc j) e (b ∷ bs) n o at l =
    ground (arith, n, o, at, occurs-get_or k j bs at, find-set_gone k j e bs n)

pub length-set_slot : (j : ℕ) (e : Entry) (bs : List Entry) → length (set bs j e) ≡ length bs
length-set_slot j e [] = refl
length-set_slot zero e (b ∷ bs) = refl
length-set_slot (suc j) e (b ∷ bs) = ground (arith, length-set_slot j e bs)

pub same_bytes_from-each :
    (a b from n : ℕ)
    → same_bytes_from a b from n ≡ true
    → (i : ℕ) → i < n
    → key_byte a (from + i) ≡ key_byte b (from + i)
same_bytes_from-each a b from n s i l =
    let p = λ (j : ℕ). not (key_byte a (from + j) == key_byte b (from + j)) in
    elim (Option-cases (find_first n 0 p)) [
      | inl o ↦ ground (arith, find_first-none n 0 p i o (omega arith) (omega (arith, l)))
      | inr (j, o) ↦ absurd (ground (arith, s, o))
    ]

module _ (m : Murmur) (cm : Sketch) (key : ℕ) (info : Info) where
  -- The slot that is chosen is in the buffer, empty or with a pair.
  abbrev pub Chosen : ℕ → List Entry → Choice → Type 0
  Chosen base bs (empty_slot j) =
      (base ≤ j) × (j < base + length bs) × ((get_or bs (j - base) empty_entry).key ≡ 0)
  Chosen base bs (lru_slot j) =
      (base ≤ j) × (j < base + length bs) × ((get_or bs (j - base) empty_entry).key ≢ 0)
  Chosen base bs no_slot = Unit

  later :
      (base : ℕ) (b : Entry) (bs : List Entry) (c : Choice)
      → Chosen (base + 1) bs c
      → Chosen base (b ∷ bs) c
  later base b bs (empty_slot j) (l, u, e) =
      let up : j - base ≡ suc (j - (base + 1)) = omega (arith, l) in
      (omega (arith, l), omega (arith, u), rw up e)
  later base b bs (lru_slot j) (l, u, e) =
      let up : j - base ≡ suc (j - (base + 1)) = omega (arith, l) in
      (omega (arith, l), omega (arith, u), rw up e)
  later base b bs no_slot c = tt

  pub choose-Chosen : (base : ℕ) (bs : List Entry) → Chosen base bs (choose m cm key info base bs)
  unfolding choose
  choose-Chosen base [] = tt
  choose-Chosen base (b ∷ bs) =
      let rest =
        later base b bs (choose m cm key info (base + 1) bs) (choose-Chosen (base + 1) bs) in
      let here : base - base ≡ 0 = omega arith in
      let f = Sketch.countmin_amplify (Sketch.count m cm b.key none) in
      let near = same_bytes_from key b.key info.depth_parent (info.depth - info.depth_parent) in
      elim (Bool-cases (b.key == empty_flag)) [
        | inl q ↦ rw (q, here) (omega arith, omega arith, ground (arith, q))
        | inr q ↦ elim (Bool-cases (b.key == occupied_flag)) [
          | inl o ↦ rw (q, o) rest
          | inr o ↦ elim (Bool-cases (int_ltb f info.freq || (info.freq == f && near))) [
            | inl z ↦ rw (q, o, z, here) (omega arith, omega arith, λ e. ground (arith, q, e))
            | inr z ↦ rw (q, o, z) rest
          ]
        ]
      ]
