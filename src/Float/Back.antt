-- ===== src/Float/Back.antt =====
-- The loop of art_search, node by node on the way back to the root.
use hetero_indexing.Prelude.{
  ℕ, ◌+◌, ◌^◌, ◌<◌, ◌≡◌, ◌≢◌, refl, sym, ap, ◌∙◌, true, false, Option, none, some, arith, ◌==◌,
  get_or, if◌then◌else◌, Bool-cases, Option-cases, inl, inr,
}
use mathlib.Core.Path.{subst}
use hetero_indexing.Common.{buf_len, Murmur}
use hetero_indexing.Sketch.{Sketch}
use hetero_indexing.Hash.{find}
use hetero_indexing.Art.{
  Header, Node, null, leaf, inner, empty_entry, key_byte, find_first, find_child, update,
}
use hetero_indexing.Art.Slots.{child_in, find_first-some}
use hetero_indexing.Art.Shape.{child_at}
use hetero_indexing.Art.Replace.{replace_lem, find_child_filled}
use hetero_indexing.Tree.{lookup}
use hetero_indexing.Tree.Shape.{IsTree, extend, key_byte-lt, mismatch, lookup_inner, prefix_test}
use hetero_indexing.Tree.Step.{Sets, step-Sets}
use hetero_indexing.Float.{Sought, Floated, missed, come_back, seek}
use hetero_indexing.Float.Value.{buffer_scan, seek-lookup}
use hetero_indexing.Float.Found.{IsFound}
use hetero_indexing.Float.Lift.{floated, update_self, float_parent_lem}
use hetero_indexing.Float.Settled.{
  Settled, Swappable, Stays, Pends, Keeps, same-Sets, missed-Stays, filled,
}

module _ (m : Murmur) (cm : Sketch) (key freq : ℕ) where
  module _ (h : Header) (ch : ℕ → Node) (d : ℕ) (path : ℕ → ℕ) (t : IsTree (inner h ch) d path)
      (n : key ≢ 0) where
    abbrev next : ℕ
    next = d + h.partial_len

    abbrev byte : ℕ
    byte = key_byte key next

    away :
        (j : ℕ)
        → mismatch h key d ≡ some j
        → seek m cm key freq none (inner h ch) d ≡ missed (inner h ch)
    unfolding seek
    away j e = let test = prefix_test h ch key d t.1 in rw (test, e) refl

    module _ (e : mismatch h key d ≡ none) where
      abbrev in_buffer : Option ℕ
      in_buffer = find_first buf_len 0 (λ i. (get_or h.buffer i empty_entry).key == key)

      here :
          (slot : ℕ)
          → in_buffer ≡ some slot
          → Pends m cm key freq d (inner h ch) (seek m cm key freq none (inner h ch) d)
      unfolding seek
      here slot o =
          let test = prefix_test h ch key d t.1 in
          let at =
            find_first-some buf_len 0 (λ i. (get_or h.buffer i empty_entry).key == key) slot o in
          rw (test, e, o)
            (record {
              header = h;
              below = ch;
              slot = slot;
              shape = refl;
              node = refl;
              pending = refl;
              value = refl;
              delta = refl;
              slot_lt = omega (arith, at.2);
              in_slot = ground (arith, at.0);
            })

      further :
          in_buffer ≡ none
          → seek m cm key freq none (inner h ch) d ≡ (elim (find_child h ch byte) [
            | none ↦ missed (inner h ch)
            | some i ↦
                come_back m cm key freq none h ch i next (seek m cm key freq none (ch i) (next + 1))
          ])
      unfolding seek
      further o = let test = prefix_test h ch key d t.1 in rw (test, e, o) refl

      module _ (o : in_buffer ≡ none) where
        not_above : find key h.buffer ≡ none
        not_above = sym (buffer_scan h.buffer key t.5) ∙ rw o refl

        module _ (i : ℕ) (q : find_child h ch byte ≡ some i) where
          abbrev deeper : ℕ → ℕ
          deeper = extend path d h byte

          reads : lookup (inner h ch) key d ≡ lookup (ch i) key (next + 1)
          reads =
              lookup_inner h ch key d t.1
              ∙ rw (e, not_above) (ap (λ z. lookup (child_in z ch) key (next + 1)) q)

          back-Stays :
              (r : Sought)
              → Stays m cm key freq (next + 1) deeper (ch i) r
              → Stays m cm key freq d path (inner h ch) (come_back m cm key freq none h ch i next r)
          unfolding come_back
          back-Stays r u =
              let l = key_byte-lt key next in
              let at : child_at h ch byte ≡ ch i = ap (λ o. child_in o ch) q in
              let there = u.2 ∙ find_child_filled h ch byte i t.0 l q in
              let a = replace_lem h ch byte i r.node t.0 l there q in
              let st =
                step-Sets h ch d path t key (lookup (inner h ch) key d) e not_above r.node
                  (subst (λ o. Sets key (lookup (inner h ch) key d) (next + 1) deeper o r.node)
                    (sym at)
                    (subst (λ v. Sets key v (next + 1) deeper (ch i) r.node) (sym reads) u.1))
                  (h, update ch i r.node) a in
              rw u.0 (refl, st, refl, u.3)

          module _ (r : Sought) (u : Pends m cm key freq (next + 1) (ch i) r)
              (v : r.value ≡ lookup (ch i) key (next + 1))
              (w : Swappable m cm key freq d path h ch i (ch i)) (fl : freq < 2 ^ 31)
              (w64 : key < 2 ^ 64) where
            abbrev after_float : Floated
            after_float = floated m cm key freq u.slot none d path h ch i u.header u.below

            abbrev result : Sought
            result = record {
              node =
                  if after_float.done
                  then after_float.node
                  else inner h (update ch i (inner u.header u.below));
              value = r.value;
              in_leaf = false;
              delta = after_float.delta;
              pending = none;
            }

            whole : come_back m cm key freq none h ch i next r ≡ result
            unfolding come_back
            whole = rw (come_back, u.pending, u.node) refl

            is_found : IsFound key u.slot d path h ch i u.header u.below
            is_found = record {
              tree = t;
              child = u.shape;
              found = q;
              plain = n;
              slot_lt = u.slot_lt;
              in_slot = u.in_slot;
              not_above = not_above;
            }

            had : lookup (inner h ch) key d ≡ some (get_or u.header.buffer u.slot empty_entry).value
            had = reads ∙ sym v ∙ u.value

            back-Pends :
                Stays m cm key freq d path (inner h ch) (come_back m cm key freq none h ch i next r)
            back-Pends =
                let sw =
                  subst (Swappable m cm key freq d path h ch i) u.shape w u.slot u.slot_lt
                    u.in_slot in
                let f =
                  float_parent_lem m cm key freq u.slot none d path h ch i u.header u.below is_found
                    fl sw in
                subst (Stays m cm key freq d path (inner h ch)) (sym whole)
                  (elim (Bool-cases after_float.done) [
                    | inl z ↦
                        let now : Sets key (some (get_or u.header.buffer u.slot empty_entry).value)
                            d path (inner h ch) after_float.node =
                          subst
                            (λ b.
                              if b
                              then Sets key (some (get_or u.header.buffer u.slot empty_entry).value)
                                  d path (inner h ch) after_float.node
                              else (after_float.node ≡ inner h ch))
                            z f.1 in
                        let own : (key == key) ≡ true = ground arith in
                        rw z (
                          refl,
                          subst (λ x. Sets key x d path (inner h ch) after_float.node) (sym had)
                              now,
                          filled m cm key freq after_float.node
                              (get_or u.header.buffer u.slot empty_entry).value d
                              (now.1 key n w64 ∙ rw own refl),
                          f.0,
                        )
                    | inr z ↦
                        let same =
                          ap (inner h) (update_self ch i (inner u.header u.below) u.shape) in
                        rw z (
                          refl,
                          subst (Sets key (lookup (inner h ch) key d) d path (inner h ch))
                              (sym same) (same-Sets m cm key freq d path (inner h ch) t),
                          refl,
                          f.0,
                        )
                  ])

  module _ (n : key ≢ 0) (w64 : key < 2 ^ 64) (fl : freq < 2 ^ 31) where
    seek_inner :
        (h : Header) (ch : ℕ → Node) (d : ℕ) (path : ℕ → ℕ)
        → IsTree (inner h ch) d path
        → Settled m cm key freq (inner h ch) d path
        → (let next = d + h.partial_len in
            let byte = key_byte key next in
            (i : ℕ)
            → find_child h ch byte ≡ some i
            → Keeps m cm key freq
                (next + 1)
                (extend path d h byte)
                (ch i)
                (seek m cm key freq none (ch i) (next + 1)))
        → Keeps m cm key freq d path (inner h ch) (seek m cm key freq none (inner h ch) d)
    seek_inner h ch d path t s ih =
        let next = d + h.partial_len in
        let byte = key_byte key next in
        elim (Option-cases (mismatch h key d)) [
          | inr (j, e) ↦ inl (
              subst (Stays m cm key freq d path (inner h ch)) (sym (away h ch d path t n j e))
                (missed-Stays m cm key freq d path (inner h ch) t))
          | inl e ↦ elim (Option-cases (in_buffer h ch d path t n e)) [
            | inr (slot, o) ↦ inr (here h ch d path t n e slot o)
            | inl o ↦ inl (
                subst (Stays m cm key freq d path (inner h ch)) (sym (further h ch d path t n e o))
                  (elim (Option-cases (find_child h ch byte)) [
                    | inl q ↦ rw q (missed-Stays m cm key freq d path (inner h ch) t)
                    | inr (i, q) ↦
                        let r = seek m cm key freq none (ch i) (next + 1) in
                        let deep = extend path d h byte in
                        let below = t.4 byte i (key_byte-lt key next) q in
                        let value = seek-lookup m cm key freq none (ch i) (next + 1) deep below in
                        rw q (elim (ih i q) [
                          | inl u ↦ back-Stays h ch d path t n e o i q r u
                          | inr u ↦ back-Pends h ch d path t n e o i q r u value (s i q).1 fl w64
                        ])
                  ]))
          ]
        ]

    -- In a well-formed tree that is settled for a 64-bit key other than 0, the loop of art_search with
    -- a frequency below 2 ^ 31 leaves a well-formed tree with the pairs that it had, or the pair of the
    -- root's buffer still to be floated.
    pub seek-Keeps :
        (o : Node) (d : ℕ) (path : ℕ → ℕ)
        → IsTree o d path
        → Settled m cm key freq o d path
        → Keeps m cm key freq d path o (seek m cm key freq none o d)
    unfolding seek
    seek-Keeps null d path t s = inl (missed-Stays m cm key freq d path null t)
    seek-Keeps (leaf l) d path t s = elim (Bool-cases (l.key == key)) [
      | inl q ↦ rw q (inl (refl, same-Sets m cm key freq d path (leaf l) t, refl, refl))
      | inr q ↦ rw q (inl (missed-Stays m cm key freq d path (leaf l) t))
    ]
    seek-Keeps (inner h ch) d path t s =
        let byte = key_byte key (d + h.partial_len) in
        seek_inner h ch d path t s (λ i q.
          seek-Keeps (ch i) (d + h.partial_len + 1) (extend path d h byte)
            (t.4 byte i (key_byte-lt key (d + h.partial_len)) q) (s i q).0)
