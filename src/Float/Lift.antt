-- ===== src/Float/Lift.antt =====
-- art_float to the buffer of the parent, on a well-formed tree.
use hetero_indexing.Prelude.{
  ℕ, ◌+◌, ◌-◌, ◌^◌, ◌<◌, ◌≤◌, ◌≡◌, ◌≢◌, ◌⊎◌, refl, sym, ap, ◌∙◌, true, false, Option, none, some,
  arith, ◌==◌, get_or, set, if◌then◌else◌, Bool-cases, inl, inr,
}
use mathlib.Core.Path.{subst, fun_ext}
use native.Mathlib.Decide.{ℕ_discrete}
use hetero_indexing.Common.{Entry, Murmur}
use hetero_indexing.Sketch.{Sketch}
use hetero_indexing.Hash.{find}
use hetero_indexing.Hash.Bin.{occurs, find-eq-none_iff}
use hetero_indexing.Art.{Header, Node, inner, empty_entry, key_byte, update}
use hetero_indexing.Tree.Step.{Sets}
use hetero_indexing.Float.{
  Info, Choice, empty_slot, lru_slot, no_slot, choose, same_bytes_from, float_parent,
  float_unpacked, pack_info, unpack_info, value_to_store, zero_key, Floated,
}
use hetero_indexing.Float.Pack.{unpack_info-pack_info}
use hetero_indexing.Float.Slots.{Chosen, choose-Chosen, occurs-get_or}
use hetero_indexing.Float.Below.{near-Below}
use hetero_indexing.Float.Found.{IsFound}
use hetero_indexing.Float.Move.{key-Below, child-IsTree, after-Sets}

Choice-cases :
    (c : Choice) → ((j : ℕ) × (c ≡ empty_slot j)) ⊎ ((j : ℕ) × (c ≡ lru_slot j)) ⊎ (c ≡ no_slot)
Choice-cases (empty_slot j) = inl (j, refl)
Choice-cases (lru_slot j) = inr (inl (j, refl))
Choice-cases no_slot = inr (inr refl)

pub update_self : (ch : ℕ → Node) (i : ℕ) (n : Node) → ch i ≡ n → update ch i n ≡ ch
update_self ch i n e = fun_ext (λ j. elim (ℕ_discrete i j) [
  | yes p ↦ let test : (i == j) ≡ true = ground (arith, p) in rw test (sym e ∙ ap ch p)
  | no p ↦ let test : (i == j) ≡ false = ground (arith, p) in rw test refl
])

module _ (m : Murmur) (cm : Sketch) (key freq slot : ℕ) (new : Option ℕ) (d : ℕ) (path : ℕ → ℕ)
    (h : Header) (ch : ℕ → Node) (i : ℕ) (g : Header) (below : ℕ → Node) where
  abbrev next : ℕ
  next = d + h.partial_len

  abbrev depth : ℕ
  depth = next + 1 + g.partial_len

  -- What art_float unpacks.
  abbrev pub info : Info
  info = record { freq = freq; slot = slot; depth = depth; depth_parent = next }

  -- The slot that art_float picks.
  abbrev pub picked : Choice
  picked = if freq == 0 then no_slot else choose m cm key info 0 h.buffer

  -- A pair that is picked to be replaced has the bytes of the key up to the child's, and its key
  -- stands in the parent's buffer once and not in the child's.
  abbrev pub Swaps : Type 0
  Swaps =
      (j : ℕ)
      → picked ≡ lru_slot j
      → let lru = get_or h.buffer j empty_entry in
        (same_bytes_from key lru.key next (depth - next) ≡ true)
        × (occurs lru.key h.buffer ≤ 1)
        × (find lru.key g.buffer ≡ none)

  abbrev pub floated : Floated
  floated = float_parent m cm key (pack_info freq slot depth next) new h ch i g below

  module _ (f : IsFound key slot d path h ch i g below) (fl : freq < 2 ^ 31) (sw : Swaps) where
    abbrev own : Entry
    own = get_or g.buffer slot empty_entry

    unpacked : unpack_info (pack_info freq slot depth next) ≡ info
    unpacked =
        let t = child-IsTree key slot d path h ch i g below f in
        unpack_info-pack_info freq slot depth next fl (omega (arith, f.slot_lt))
          (omega (arith, t.1)) (omega (arith, t.1))

    picked-Chosen : Chosen m cm key info 0 h.buffer picked
    picked-Chosen = elim (Bool-cases (freq == 0)) [
      | inl q ↦ rw q tt
      | inr q ↦ rw q (choose-Chosen m cm key info 0 h.buffer)
    ]

    -- What art_float leaves.
    abbrev pub Floats : Floated → Type 0
    Floats r =
        (r.delta ≡ 0)
        × (if r.done
            then Sets key (some (value_to_store new own.value)) d path (inner h ch) r.node
            else (r.node ≡ inner h ch))

    abbrev pair : Entry
    pair = record { key = key; value = value_to_store new own.value }

    -- The parent with the pair in slot `j` and another entry in its place.
    abbrev exchanged : ℕ → Entry → Node
    exchanged j y =
        inner (record h { buffer = set h.buffer j pair })
          (update ch i (inner (record g { buffer = set g.buffer slot y }) below))

    floated_unpacked : floated ≡ float_unpacked m cm key info new h ch i g below
    unfolding float_parent
    floated_unpacked = ap (λ z. float_unpacked m cm key z new h ch i g below) unpacked

    floated_empty :
        (j : ℕ)
        → picked ≡ empty_slot j
        → floated ≡ record { node = exchanged j (zero_key own); delta = 0; done = true }
    unfolding float_unpacked
    floated_empty j q = floated_unpacked ∙ rw (float_unpacked, q) refl

    floated_lru :
        (j : ℕ)
        → picked ≡ lru_slot j
        → floated
          ≡ record { node = exchanged j (get_or h.buffer j empty_entry); delta = 0; done = true }
    unfolding float_unpacked
    floated_lru j q = let near = (sw j q).0 in floated_unpacked ∙ rw (float_unpacked, q, near) refl

    floated_none :
        picked ≡ no_slot
        → floated ≡ record { node = inner h (update ch i (inner g below)); delta = 0; done = false }
    unfolding float_unpacked
    floated_none q = floated_unpacked ∙ rw (float_unpacked, q) refl

    moved :
        (j : ℕ)
        → picked ≡ empty_slot j
        → Sets key
            (some (value_to_store new own.value))
            d
            path
            (inner h ch)
            (exchanged j (zero_key own))
    moved j q =
        let (_, l, e') = subst (Chosen m cm key info 0 h.buffer) q picked-Chosen in
        let at : j - 0 ≡ j = omega arith in
        after-Sets key slot d path h ch i g below f j (zero_key own) (omega (arith, l, f.tree.5))
          (inl (subst (λ z. (get_or h.buffer z empty_entry).key ≡ 0) at e', refl)) pair refl

    swapped :
        (j : ℕ)
        → picked ≡ lru_slot j
        → Sets key
            (some (value_to_store new own.value))
            d
            path
            (inner h ch)
            (exchanged j (get_or h.buffer j empty_entry))
    swapped j q =
        let (_, l, e') = subst (Chosen m cm key info 0 h.buffer) q picked-Chosen in
        let at : j - 0 ≡ j = omega arith in
        let lru = get_or h.buffer j empty_entry in
        let e = subst (λ z. (get_or h.buffer z empty_entry).key ≢ 0) at e' in
        let (near, once, free) = sw j q in
        let other : lru.key ≢ key = λ z. ground (
          arith,
          occurs-get_or key j h.buffer z (omega (arith, l)),
          find-eq-none_iff key h.buffer,
          f.not_above,
        ) in
        let there : find lru.key h.buffer ≢ none = λ z. ground (
          arith,
          occurs-get_or lru.key j h.buffer refl (omega (arith, l)),
          find-eq-none_iff lru.key h.buffer,
          z,
        ) in
        let width : depth - next ≡ g.partial_len + 1 = omega arith in
        let u =
          near-Below d path h (key_byte key next) g key lru.key
            (key-Below key slot d path h ch i g below f) (f.tree.3 lru.key e there)
            (subst (λ z. same_bytes_from key lru.key next z ≡ true) width near) in
        after-Sets key slot d path h ch i g below f j lru (omega (arith, l, f.tree.5))
          (inr (e, refl, other, u, once, free)) pair refl

    -- art_float to the parent of the node in whose buffer a pair with a frequency below 2 ^ 31 was
    -- found, where a pair that is picked to be replaced goes down to that buffer (it has the bytes of
    -- the key up to there, stands in the buffer of the parent once and not in the other): if art_float
    -- moved the pair, the tree is well-formed, the key reads the value that was found or the one to
    -- store, every other key what it had; otherwise the tree is as it was. The count of buffered pairs
    -- does not change.
    pub float_parent_lem : Floats floated
    float_parent_lem = elim (Choice-cases picked) [
      | inl (j, q) ↦ subst Floats (sym (floated_empty j q)) (refl, moved j q)
      | inr (inl (j, q)) ↦ subst Floats (sym (floated_lru j q)) (refl, swapped j q)
      | inr (inr q) ↦
          subst Floats (sym (floated_none q))
            (refl, ap (inner h) (update_self ch i (inner g below) f.child))
    ]
