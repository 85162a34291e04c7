-- ===== src/Float/Value.antt =====
-- What art_search and art_update find is what a lookup reads.
use hetero_indexing.Prelude.{
  ℕ, ◌+◌, ◌≡◌, refl, ◌∙◌, Bool, not, ◌&&◌, Option, none, some, arith, ◌==◌, get_or, List, [], ◌∷◌,
  min, Bool-cases, Option-cases, inl, inr, length,
}
use hetero_indexing.Common.{Entry, key_len, buf_len, Murmur}
use hetero_indexing.Sketch.{Sketch}
use hetero_indexing.Hash.{find}
use hetero_indexing.Art.{
  Header, Node, null, leaf, inner, empty_entry, key_byte, find_first, find_child,
}
use hetero_indexing.Tree.{lookup, check_prefix}
use hetero_indexing.Tree.Shape.{IsTree, extend, key_byte-lt}
use hetero_indexing.Float.{come_back, seek}

-- The scan by index is the search of the list.
pub buffer_scan :
    (bs : List Entry) (key : ℕ)
    → length bs ≡ buf_len
    → (elim (find_first buf_len 0 (λ i. (get_or bs i empty_entry).key == key)) [
      | none ↦ none
      | some i ↦ some (get_or bs i empty_entry).value
    ])
      ≡ find key bs
unfolding find_first find
buffer_scan [] key l = absurd (omega (arith, l))
buffer_scan (a ∷ []) key l = absurd (omega (arith, l))
buffer_scan (a ∷ b ∷ []) key l = absurd (omega (arith, l))
buffer_scan (a ∷ b ∷ c ∷ d ∷ es) key l = absurd (omega (arith, l))
buffer_scan (a ∷ b ∷ c ∷ []) key l = ground arith

module _ (m : Murmur) where
  module _ (cm : Sketch) (key freq : ℕ) (new : Option ℕ) where
    come_back-value :
        (h : Header) (ch : ℕ → Node) (i next : ℕ) (n : Node) (value : Option ℕ) (in_leaf : Bool)
        (delta : ℕ) (pending : Option (ℕ × ℕ))
        → (come_back m cm key freq new h ch i next (record {
          node = n;
          value = value;
          in_leaf = in_leaf;
          delta = delta;
          pending = pending;
        })).value
          ≡ value
    unfolding come_back
    come_back-value h ch i next n value in_leaf delta none = refl
    come_back-value h ch i next null value in_leaf delta (some s) = refl
    come_back-value h ch i next (leaf e) value in_leaf delta (some s) = refl
    come_back-value h ch i next (inner g below) value in_leaf delta (some s) = refl

    -- In a well-formed tree the loop of art_search and of art_update finds the value that a lookup
    -- reads, whatever it floats.
    pub seek-lookup :
        (n : Node) (depth : ℕ) (path : ℕ → ℕ)
        → IsTree n depth path
        → (seek m cm key freq new n depth).value ≡ lookup n key depth
    unfolding seek lookup
    seek-lookup null depth path b = refl
    seek-lookup (leaf e) depth path b = elim (Bool-cases (e.key == key)) [
      | inl q ↦ rw q refl
      | inr q ↦ rw q refl
    ]
    seek-lookup (inner h ch) depth path b =
        let next = depth + h.partial_len in
        let c = key_byte key next in
        let scan = buffer_scan h.buffer key b.5 in
        elim (Bool-cases (
          not (h.partial_len == 0)
          && not (check_prefix h key depth == min key_len h.partial_len))) [
            | inl q ↦ rw q refl
            | inr q ↦ rw q (
                rw⁻¹ scan
                  (elim (Option-cases
                    (find_first buf_len 0 (λ i. (get_or h.buffer i empty_entry).key == key))) [
                      | inr (i, e) ↦ rw e refl
                      | inl e ↦ rw e (elim (Option-cases (find_child h ch c)) [
                        | inl o ↦ rw o refl
                        | inr (i, o) ↦
                            let r = seek m cm key freq new (ch i) (next + 1) in
                            rw o (
                              come_back-value h ch i next r.node r.value r.in_leaf r.delta r.pending
                              ∙ seek-lookup (ch i) (next + 1) (extend path depth h c)
                                  (b.4 c i (key_byte-lt key next) o))
                      ])
                    ]))
          ]
