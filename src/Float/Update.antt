-- ===== src/Float/Update.antt =====
-- art_update on a tree without buffered pairs.
use hetero_indexing.Prelude.{
  ℕ, ◌+◌, ◌≡◌, ◌≢◌, refl, sym, ap, ◌∙◌, true, false, Option, none, some, arith, ◌==◌, get_or,
  Option-cases, Bool-cases, inl, inr,
}
use mathlib.Core.Path.{subst}
use hetero_indexing.Common.{Entry, buf_len, Murmur}
use hetero_indexing.Sketch.{Sketch}
use hetero_indexing.Hash.Assign.{replaced}
use hetero_indexing.Art.{
  Header, Node, null, leaf, inner, is_null, empty_entry, key_byte, find_first, find_child, update,
}
use hetero_indexing.Art.Slots.{child_in}
use hetero_indexing.Art.Shape.{child_at}
use hetero_indexing.Art.Replace.{replace_lem, find_child_filled}
use hetero_indexing.Tree.{lookup}
use hetero_indexing.Tree.Shape.{key_byte-lt, extend, IsTree, mismatch, lookup_inner, prefix_test}
use hetero_indexing.Tree.Step.{Sets, step-Sets}
use hetero_indexing.Tree.Plain.{IsPlain, IsPlain-Added}
use hetero_indexing.Float.{Sought, missed, come_back, seek}
use hetero_indexing.Float.Value.{buffer_scan}

absent-Sets :
    (key d v : ℕ) (path : ℕ → ℕ) (o : Node)
    → IsTree o d path
    → lookup o key d ≡ none
    → Sets key (replaced (lookup o key d) v) d path o o
absent-Sets key d v path o t e = (
  t,
  λ k n w. elim (Bool-cases (key == k)) [
    | inr q ↦ rw q refl
    | inl q ↦
        let same : key ≡ k = ground (arith, q) in
        rw (q, e) (subst (λ z. lookup o z d ≡ none) same e)
  ],
)

not_in_buffer :
    (o : Option ℕ) (f : ℕ → ℕ) → (elim o [ none ↦ none | some i ↦ some (f i) ]) ≡ none → o ≡ none
not_in_buffer none f e = refl
not_in_buffer (some i) f e = absurd (ground (arith, e))

module _ (m : Murmur) (cm : Sketch) (key freq v : ℕ) where
  -- What the loop of art_update leaves.
  abbrev pub Updates : ℕ → (ℕ → ℕ) → Node → Sought → Type 0
  Updates d path o r =
      Sets key (replaced (lookup o key d) v) d path o r.node
      × IsPlain r.node
      × (is_null r.node ≡ is_null o)
      × (r.pending ≡ none)
      × (r.delta ≡ 0)

  stays :
      (d : ℕ) (path : ℕ → ℕ) (o : Node)
      → IsTree o d path
      → IsPlain o
      → lookup o key d ≡ none
      → Updates d path o (missed o)
  stays d path o t p e = (absent-Sets key d v path o t e, p, refl, refl, refl)

  module _ (h : Header) (ch : ℕ → Node) (d : ℕ) (path : ℕ → ℕ) (t : IsTree (inner h ch) d path)
      (p : IsPlain (inner h ch)) (n : key ≢ 0) where
    abbrev next : ℕ
    next = d + h.partial_len

    abbrev byte : ℕ
    byte = key_byte key next

    pub not_buffered : find_first buf_len 0 (λ i. (get_or h.buffer i empty_entry).key == key) ≡ none
    not_buffered =
        not_in_buffer (find_first buf_len 0 (λ i. (get_or h.buffer i empty_entry).key == key))
          (λ i. (get_or h.buffer i empty_entry).value) (buffer_scan h.buffer key t.5 ∙ p.0 key n)

    seek_away :
        (j : ℕ)
        → mismatch h key d ≡ some j
        → seek m cm key freq (some v) (inner h ch) d ≡ missed (inner h ch)
    unfolding seek
    seek_away j e = let test = prefix_test h ch key d t.1 in rw (test, e) refl

    module _ (e : mismatch h key d ≡ none) where
      seek_below : seek m cm key freq (some v) (inner h ch) d ≡ (elim (find_child h ch byte) [
        | none ↦ missed (inner h ch)
        | some i ↦
            come_back m cm key freq
              (some v)
              h
              ch
              i
              next
              (seek m cm key freq (some v) (ch i) (next + 1))
      ])
      unfolding seek
      seek_below = let test = prefix_test h ch key d t.1 in rw (test, e, not_buffered) refl

      reads : lookup (inner h ch) key d ≡ lookup (child_at h ch byte) key (next + 1)
      reads = lookup_inner h ch key d t.1 ∙ rw (e, p.0 key n) refl

      back :
          (i : ℕ) (r : Sought)
          → find_child h ch byte ≡ some i
          → Updates (next + 1) (extend path d h byte) (ch i) r
          → Updates d path (inner h ch) (come_back m cm key freq (some v) h ch i next r)
      unfolding come_back
      back i r q u =
          let l = key_byte-lt key next in
          let at : child_at h ch byte ≡ ch i = ap (λ o. child_in o ch) q in
          let there = u.2 ∙ find_child_filled h ch byte i t.0 l q in
          let a = replace_lem h ch byte i r.node t.0 l there q in
          let same : lookup (ch i) key (next + 1) ≡ lookup (inner h ch) key d =
            ap (λ o. lookup o key (next + 1)) (sym at) ∙ sym reads in
          let st =
            step-Sets h ch d path t key (replaced (lookup (inner h ch) key d) v) e (p.0 key n)
              r.node
              (subst
                (λ o.
                  Sets key (replaced (lookup (inner h ch) key d) v) (next + 1)
                    (extend path d h byte) o r.node)
                (sym at)
                (subst
                  (λ o. Sets key (replaced o v) (next + 1) (extend path d h byte) (ch i) r.node)
                  same u.0))
              (h, update ch i r.node) a in
          rw u.3
            (st, IsPlain-Added h ch byte r.node (h, update ch i r.node) p u.1 a, refl, refl, u.4)

  seek-inner :
      (h : Header) (ch : ℕ → Node) (d : ℕ) (path : ℕ → ℕ)
      → IsTree (inner h ch) d path
      → IsPlain (inner h ch)
      → key ≢ 0
      → let next = d + h.partial_len in
        let c = key_byte key next in
        ((i : ℕ)
          → find_child h ch c ≡ some i
          → Updates
              (next + 1)
              (extend path d h c)
              (ch i)
              (seek m cm key freq (some v) (ch i) (next + 1)))
        → Updates d path (inner h ch) (seek m cm key freq (some v) (inner h ch) d)
  unfolding lookup
  seek-inner h ch d path t p n ih =
      let next = d + h.partial_len in
      let c = key_byte key next in
      elim (Option-cases (mismatch h key d)) [
        | inr (j, e) ↦
            let gone : lookup (inner h ch) key d ≡ none = lookup_inner h ch key d t.1 ∙ rw e refl in
            subst (Updates d path (inner h ch)) (sym (seek_away h ch d path t p n j e))
              (stays d path (inner h ch) t p gone)
        | inl e ↦
            subst (Updates d path (inner h ch)) (sym (seek_below h ch d path t p n e))
              (elim (Option-cases (find_child h ch c)) [
                | inr (i, q) ↦ rw q (
                    back h ch d path t p n e i (seek m cm key freq (some v) (ch i) (next + 1)) q
                      (ih i q))
                | inl q ↦
                    let empty : child_at h ch c ≡ null = ap (λ o. child_in o ch) q in
                    let gone : lookup (inner h ch) key d ≡ none =
                      reads h ch d path t p n e ∙ ap (λ o. lookup o key (next + 1)) empty in
                    rw q (stays d path (inner h ch) t p gone)
              ])
      ]

  seek-leaf :
      (l : Entry) (d : ℕ) (path : ℕ → ℕ)
      → IsTree (leaf l) d path
      → Updates d path (leaf l) (seek m cm key freq (some v) (leaf l) d)
  unfolding seek lookup
  seek-leaf l d path t = elim (Bool-cases (l.key == key)) [
    | inr q ↦ rw q (
      (
        t,
        λ k n w. elim (Bool-cases (key == k)) [
          | inr z ↦ rw z refl
          | inl z ↦ let other : (l.key == k) ≡ false = ground (arith, q, z) in rw (z, other) refl
        ],
      ),
      tt,
      refl,
      refl,
      refl,
    )
    | inl q ↦
        let same : l.key ≡ key = ground (arith, q) in
        rw q (
          (
            t,
            λ k n w. elim (Bool-cases (key == k)) [
              | inl z ↦
                  let own : (l.key == k) ≡ true = ap (λ x. x == k) same ∙ z in rw (own, z) refl
              | inr z ↦
                  let other : (l.key == k) ≡ false = ap (λ x. x == k) same ∙ z in rw (other, z) refl
            ],
          ),
          tt,
          refl,
          refl,
          refl,
        )
  ]

  -- In a well-formed tree without buffered pairs the loop of art_update leaves a well-formed tree
  -- without buffered pairs in which a key other than 0 that was there has the new value and a search
  -- for any other key, or for a key that was not there, reads what it read; nothing is floated.
  pub seek_lem :
      (o : Node) (d : ℕ) (path : ℕ → ℕ)
      → IsTree o d path
      → IsPlain o
      → key ≢ 0
      → Updates d path o (seek m cm key freq (some v) o d)
  unfolding seek lookup
  seek_lem null d path t p n = stays d path null t p refl
  seek_lem (leaf l) d path t p n = seek-leaf l d path t
  seek_lem (inner h ch) d path t p n =
      let c = key_byte key (d + h.partial_len) in
      let l = key_byte-lt key (d + h.partial_len) in
      seek-inner h ch d path t p n (λ i q.
        seek_lem (ch i) (d + h.partial_len + 1) (extend path d h c) (t.4 c i l q) (p.1 c i l q) n)
