-- ===== src/Art/Slots.antt =====
-- The key bytes of a node4 or node16: an array with one child for each byte in use.
use hetero_indexing.Prelude.{
  ℕ, zero, suc, ◌+◌, ◌-◌, ◌≤◌, ◌<◌, ◌≡◌, ◌≢◌, sym, ◌∙◌, Bool, true, false, ◌&&◌, Option, none, some,
  arith, ◌==◌, ltb, if◌then◌else◌, Option-cases, Bool-cases, inl, inr,
}
use native.Mathlib.Decide.{ℕ_discrete, dec_lt}
use hetero_indexing.Art.{Node, null, find_first, update, shift_up}

pub find_first-some :
    (n i : ℕ) (p : ℕ → Bool) (j : ℕ)
    → find_first n i p ≡ some j
    → (p j ≡ true) × (i ≤ j) × (j < i + n)
unfolding find_first
find_first-some zero i p j h = ground arith
find_first-some (suc n) i p j h = elim (Bool-cases (p i)) [
  | inl e ↦ ground (arith, e)
  | inr e ↦ ground (arith, e, find_first-some n (i + 1) p j)
]

pub find_first-none :
    (n i : ℕ) (p : ℕ → Bool) (j : ℕ) → find_first n i p ≡ none → i ≤ j → j < i + n → p j ≡ false
unfolding find_first
find_first-none zero i p j h k l = absurd (omega arith)
find_first-none (suc n) i p j h k l = elim (Bool-cases (p i)) [
  | inl e ↦ ground (arith, e)
  | inr e ↦ elim (ℕ_discrete i j) [
    | yes q ↦ rw (← q) e
    | no q ↦ ground (arith, e, q, find_first-none n (i + 1) p j)
  ]
]

abbrev pub slot : ℕ → (ℕ → ℕ) → ℕ → Option ℕ
slot n keys b = find_first n 0 (λ i. keys i == b)

abbrev pub Distinct : ℕ → (ℕ → ℕ) → Type 0
Distinct n keys = (i j : ℕ) → i < n → j < n → keys i ≡ keys j → i ≡ j

abbrev pub child_in : Option ℕ → (ℕ → Node) → Node
child_in none ch = null
child_in (some i) ch = ch i

module _ (n : ℕ) (keys : ℕ → ℕ) where
  pub slot-eq : (b k : ℕ) → Distinct n keys → k < n → keys k ≡ b → slot n keys b ≡ some k
  slot-eq b k d h e = elim (Option-cases (slot n keys b)) [
    | inl q ↦ ground (arith, find_first-none n 0 (λ i. keys i == b) k q)
    | inr (j, q) ↦ ground (arith, find_first-some n 0 (λ i. keys i == b) j q, d j k)
  ]

  pub slot-eq-none : (b : ℕ) → ((k : ℕ) → k < n → keys k ≢ b) → slot n keys b ≡ none
  slot-eq-none b away = elim (Option-cases (slot n keys b)) [
    | inl q ↦ q
    | inr (j, q) ↦ ground (arith, find_first-some n 0 (λ i. keys i == b) j q, away j)
  ]

  pub slot_keys : (b j : ℕ) → slot n keys b ≡ some j → (keys j ≡ b) × (j < n)
  slot_keys b j q = ground (arith, find_first-some n 0 (λ i. keys i == b) j q)

  pub slot_away : (b : ℕ) → slot n keys b ≡ none → (k : ℕ) → k < n → keys k ≢ b
  slot_away b q k h = ground (arith, find_first-none n 0 (λ i. keys i == b) k q)

  -- A byte and a child go in at index `idx`.
  module _ (ch : ℕ → Node) (idx c : ℕ) (x : Node) (at_most : idx ≤ n) (d : Distinct n keys)
      (new : slot n keys c ≡ none) where
    abbrev keys' : ℕ → ℕ
    keys' = update (shift_up keys idx n) idx c

    pub insert-Distinct : Distinct (n + 1) keys'
    insert-Distinct i j h k e =
        let away = slot_away c new in
        ground (
          arith,
          d i j,
          d (i - 1) j,
          d i (j - 1),
          d (i - 1) (j - 1),
          away i,
          away j,
          away (i - 1),
          away (j - 1),
        )

-- The comparison of all 16 lanes under the mask of those in use finds the same slot.
pub slot_masked :
    (n : ℕ) (keys : ℕ → ℕ) (b : ℕ)
    → n ≤ 16
    → Distinct n keys
    → find_first 16 0 (λ i. keys i == b && ltb i n) ≡ slot n keys b
slot_masked n keys b h d = elim (Option-cases (find_first 16 0 (λ i. keys i == b && ltb i n))) [
  | inl q ↦
      q
      ∙ sym (
          slot-eq-none n keys b
            (λ k l e. ground (arith, find_first-none 16 0 (λ i. keys i == b && ltb i n) k q)))
  | inr (j, q) ↦
      let found = find_first-some 16 0 (λ i. keys i == b && ltb i n) j q in
      q ∙ sym (slot-eq n keys b j d (ground (arith, found)) (ground (arith, found)))
]

-- Inserting a byte and a child puts the child under the byte, and moves no other.
pub insert_lem :
    (n : ℕ) (keys : ℕ → ℕ) (ch : ℕ → Node) (idx c : ℕ) (x : Node)
    → idx ≤ n
    → Distinct n keys
    → slot n keys c ≡ none
    → (b : ℕ)
    → child_in
        (slot (n + 1) (update (shift_up keys idx n) idx c) b)
        (update (shift_up ch idx n) idx x)
      ≡ (if b == c then x else child_in (slot n keys b) ch)
insert_lem n keys ch idx c x h d new b =
    let keys' = update (shift_up keys idx n) idx c in
    let d' = insert-Distinct n keys ch idx c x h d new in
    let hit = λ (k : ℕ). slot-eq (n + 1) keys' b k d' in
    elim (ℕ_discrete b c) [
      | yes e ↦ rw (hit idx (omega arith) (ground (arith, e))) (ground (arith, e))
      | no ne ↦ elim (Option-cases (slot n keys b)) [
        | inr (i, q) ↦
            let (e, l) = slot_keys n keys b i q in
            elim (dec_lt i idx) [
              | yes p ↦ rw (hit i (omega arith) (ground (arith, e, p)), q) (ground (arith, ne, p))
              | no p ↦
                  rw (hit (i + 1) (omega arith) (ground (arith, e, p)), q) (ground (arith, ne, p))
            ]
        | inl q ↦
            let away = slot_away n keys b q in
            rw (slot-eq-none (n + 1) keys' b (λ k l. ground (arith, away k, away (k - 1), ne)), q)
              (ground (arith, ne))
      ]
    ]
