-- ===== src/Art/Shape.antt =====
-- What a well-formed inner node is, kind by kind, and what find_child finds in one.
use hetero_indexing.Prelude.{
  ℕ, zero, suc, ◌+◌, ◌-◌, ◌≤◌, ◌<◌, ◌≡◌, ◌≢◌, refl, sym, true, false, not, none, some, arith, ◌==◌,
  Bool, ltb, if◌then◌else◌, min, Option-cases, inl, inr,
}
use mathlib.Core.Path.{subst}
use native.Mathlib.Decide.{ℕ_discrete}
use hetero_indexing.Common.{key_len, u8}
use hetero_indexing.Art.{
  Kind, node4, node16, node48, node256, Header, Node, Body, is_null, find_first, find_child, update,
}
use hetero_indexing.Art.Tally.{tally}
use hetero_indexing.Art.Slots.{find_first-none, slot, slot_masked, Distinct, child_in}

-- How many of the first `n` child pointers are in use.
abbrev pub count_used : ℕ → (ℕ → Node) → ℕ
count_used zero ch = 0
count_used (suc n) ch = count_used n ch + (if is_null (ch n) then 0 else 1)

-- A node4 or node16: as many distinct bytes as children, none of them NULL.
pub record IsArray (cap : ℕ) (h : Header) (ch : ℕ → Node) : Type 0 where
  pub fits : h.num_children ≤ cap
  pub distinct : Distinct h.num_children h.keys
  pub bytes : (i : ℕ) → i < h.num_children → h.keys i < 256
  pub filled : (i : ℕ) → i < h.num_children → is_null (ch i) ≡ false

-- The bytes that a key map points to a slot, and the children of a node256 that are there.
abbrev pub points : (ℕ → ℕ) → ℕ → Bool
points keys c = not (keys c == 0)

abbrev pub in_use : (ℕ → Node) → ℕ → Bool
in_use ch c = not (is_null (ch c))

-- A node48: the bytes in use point to different slots of the 48, none of them NULL, and the
-- number of children is that of the slots and of the bytes in use.
pub record IsMap (h : Header) (ch : ℕ → Node) : Type 0 where
  pub slots : (c : ℕ) → c < 256 → h.keys c ≤ 48
  pub filled : (c : ℕ) → c < 256 → h.keys c ≢ 0 → is_null (ch (h.keys c - 1)) ≡ false
  pub apart : (c d : ℕ) → c < 256 → d < 256 → h.keys c ≢ 0 → h.keys c ≡ h.keys d → c ≡ d
  pub counted : h.num_children ≡ count_used 48 ch
  pub mapped : h.num_children ≡ tally 256 (points h.keys)

abbrev pub IsNodeOf : Kind → Header → (ℕ → Node) → Type 0
IsNodeOf node4 h ch = IsArray 4 h ch
IsNodeOf node16 h ch = IsArray 16 h ch
IsNodeOf node48 h ch = IsMap h ch
IsNodeOf node256 h ch = h.num_children ≡ u8 (tally 256 (in_use ch))

abbrev pub IsNode : Header → (ℕ → Node) → Type 0
IsNode h ch = IsNodeOf h.kind h ch

pub to_IsNode : (k : Kind) (h : Header) (ch : ℕ → Node) → h.kind ≡ k → IsNodeOf k h ch → IsNode h ch
to_IsNode k h ch e v = subst (λ k'. IsNodeOf k' h ch) (sym e) v

pub of_IsNode : (k : Kind) (h : Header) (ch : ℕ → Node) → h.kind ≡ k → IsNode h ch → IsNodeOf k h ch
of_IsNode k h ch e v = subst (λ k'. IsNodeOf k' h ch) e v

-- The child under a byte, NULL where there is none.
abbrev pub child_at : Header → (ℕ → Node) → ℕ → Node
child_at h ch c = child_in (find_child h ch c) ch

module _ (h : Header) (ch : ℕ → Node) (c : ℕ) where
  pub find_child-node4 : h.kind ≡ node4 → find_child h ch c ≡ slot h.num_children h.keys c
  unfolding find_child
  find_child-node4 e = ground (arith, e)

  pub find_child-node16 :
      h.kind ≡ node16 → IsArray 16 h ch → find_child h ch c ≡ slot h.num_children h.keys c
  unfolding find_child
  find_child-node16 e v = ground (arith, e, slot_masked h.num_children h.keys c v.fits v.distinct)

  pub find_child-node48 :
      h.kind ≡ node48 → find_child h ch c ≡ (if h.keys c == 0 then none else some (h.keys c - 1))
  unfolding find_child
  find_child-node48 e = ground (arith, e)

  pub find_child-node256 :
      h.kind ≡ node256 → find_child h ch c ≡ (if is_null (ch c) then none else some c)
  unfolding find_child
  find_child-node256 e = ground (arith, e)

pub count_used-update :
    (n : ℕ) (ch : ℕ → Node) (i : ℕ) (x : Node)
    → is_null x ≡ false
    → is_null (ch i) ≡ true
    → count_used n (update ch i x) ≡ count_used n ch + (if ltb i n then 1 else 0)
count_used-update zero ch i x p q = ground arith
count_used-update (suc n) ch i x p q =
    let ih = count_used-update n ch i x p q in
    elim (ℕ_discrete i n) [ yes e ↦ ground (arith, ih, e, p, q) | no e ↦ ground (arith, ih, e) ]

pub count_used-le : (n : ℕ) (ch : ℕ → Node) → count_used n ch ≤ n
count_used-le zero ch = omega arith
count_used-le (suc n) ch = ground (arith, count_used-le n ch)

-- A prefix of used slots before unused ones.
pub count_used_prefix :
    (n k : ℕ) (ch : ℕ → Node)
    → ((i : ℕ) → i < n → is_null (ch i) ≡ not (ltb i k))
    → count_used n ch ≡ min n k
count_used_prefix zero k ch h = omega arith
count_used_prefix (suc n) k ch h =
    ground (arith, h n, count_used_prefix n k ch (λ i l. h i (omega arith)))

-- With no free slot among the first `n`, all of them count.
pub count_used_full :
    (n : ℕ) (ch : ℕ → Node) → ((i : ℕ) → i < n → is_null (ch i) ≡ false) → count_used n ch ≡ n
count_used_full zero ch h = refl
count_used_full (suc n) ch h = ground (arith, h n, count_used_full n ch (λ i l. h i (omega arith)))

-- Fewer than 48 children leave a free slot, so the search of add_child48 ends inside the array.
pub free_slot :
    (h : Header) (ch : ℕ → Node)
    → IsMap h ch
    → h.num_children < 48
    → (i : ℕ) × (find_first 48 0 (λ j. is_null (ch j)) ≡ some i)
free_slot h ch v l = elim (Option-cases (find_first 48 0 (λ j. is_null (ch j)))) [
  | inr p ↦ p
  | inl q ↦ absurd (
      omega (
        arith,
        v.counted,
        count_used_full 48 ch
            (λ i k. find_first-none 48 0 (λ j. is_null (ch j)) i q (omega arith) (omega arith)),
      ))
]

-- What an addition to a node promises, and with NULL for the child, a removal.
pub record Added (h : Header) (ch : ℕ → Node) (c : ℕ) (x : Node) (r : Body) : Type 0 where
  pub node : IsNode r.0 r.1
  pub at : (b : ℕ) → b < 256 → child_at r.0 r.1 b ≡ (if b == c then x else child_at h ch b)
  pub len : r.0.partial_len ≡ h.partial_len
  pub prefix : (i : ℕ) → i < min key_len h.partial_len → r.0.partial i ≡ h.partial i
  pub buffer : r.0.buffer ≡ h.buffer
