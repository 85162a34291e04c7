-- ===== src/Float/Still.antt =====
-- art_search on a tree without buffered pairs, which it leaves as it is.
use hetero_indexing.Prelude.{
  ℕ, ◌+◌, ◌≡◌, ◌≢◌, refl, sym, ap, not, ◌&&◌, none, ◌==◌, min, inl, inr, Bool-cases, Option-cases,
}
use hetero_indexing.Common.{Murmur, key_len}
use hetero_indexing.Sketch.{Sketch}
use hetero_indexing.Art.{Node, null, leaf, inner, key_byte, find_child}
use hetero_indexing.Tree.{check_prefix}
use hetero_indexing.Tree.Shape.{IsTree, extend, key_byte-lt}
use hetero_indexing.Tree.Plain.{IsPlain}
use hetero_indexing.Float.{seek, come_back}
use hetero_indexing.Float.Update.{not_buffered}
use hetero_indexing.Float.Lift.{update_self}

module _ (m : Murmur) (cm : Sketch) (key freq : ℕ) (n : key ≢ 0) where
  pub seek_still :
      (o : Node) (d : ℕ) (path : ℕ → ℕ)
      → IsTree o d path
      → IsPlain o
      → let r = seek m cm key freq none o d in (r.node ≡ o) × (r.pending ≡ none) × (r.delta ≡ 0)
  unfolding seek come_back
  seek_still null d path t p = (refl, refl, refl)
  seek_still (leaf e) d path t p = elim (Bool-cases (e.key == key)) [
    | inl q ↦ rw q (refl, refl, refl)
    | inr q ↦ rw q (refl, refl, refl)
  ]
  seek_still (inner h ch) d path t p =
      let next = d + h.partial_len in
      let c = key_byte key next in
      let free = not_buffered m cm key freq 0 h ch d path t p n in
      elim (Bool-cases
        (not (h.partial_len == 0) && not (check_prefix h key d == min key_len h.partial_len))) [
          | inl q ↦ rw q (refl, refl, refl)
          | inr q ↦
              rw (q, free)
                (elim (Option-cases (find_child h ch c)) [
                  | inl o ↦ rw o (refl, refl, refl)
                  | inr (i, o) ↦
                      let below =
                        seek_still (ch i) (next + 1) (extend path d h c)
                          (t.4 c i (key_byte-lt key next) o) (p.1 c i (key_byte-lt key next) o) in
                      rw (o, below.1)
                        (ap (inner h) (update_self ch i _ (sym below.0)), refl, below.2)
                ])
        ]
