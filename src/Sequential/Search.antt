-- ===== src/Sequential/Search.antt =====
-- src/sequential/art.c: art_search and art_update against the search that floats.
use hetero_indexing.Prelude.{
  ℕ, ◌+◌, ◌≡◌, ◌≢◌, refl, Bool, false, not, ◌&&◌, none, some, ◌==◌, get_or, min, inl, inr,
  Bool-cases, Option-cases,
}
use hetero_indexing.Common.{Murmur, key_len, buf_len}
use hetero_indexing.Sketch.{Sketch}
use hetero_indexing.Art.{Node, null, leaf, inner, empty_entry, key_byte, find_first, find_child}
use hetero_indexing.Tree.{lookup, check_prefix}
use hetero_indexing.Tree.Shape.{IsTree, extend, key_byte-lt}
use hetero_indexing.Tree.Plain.{IsPlain}
use hetero_indexing.Float.{Sought, seek, come_back}
use hetero_indexing.Float.Value.{buffer_scan}
use hetero_indexing.Float.Update.{seek_lem, not_buffered}
use hetero_indexing.Sequential.{art_search, art_update}

-- In a well-formed tree the loop of art_search finds what a lookup reads.
pub art_search-lookup :
    (n : Node) (key depth : ℕ) (path : ℕ → ℕ)
    → IsTree n depth path
    → art_search n key depth ≡ lookup n key depth
unfolding art_search lookup
art_search-lookup null key depth path b = refl
art_search-lookup (leaf e) key depth path b = refl
art_search-lookup (inner h ch) key depth path b =
    let next = depth + h.partial_len in
    let c = key_byte key next in
    elim (Bool-cases
      (not (h.partial_len == 0) && not (check_prefix h key depth == min key_len h.partial_len))) [
        | inl q ↦ rw q refl
        | inr q ↦ rw q (
            rw⁻¹ (buffer_scan h.buffer key b.5)
              (elim (Option-cases
                (find_first buf_len 0 (λ i. (get_or h.buffer i empty_entry).key == key))) [
                  | inr (i, e) ↦ rw e refl
                  | inl e ↦ rw e (elim (Option-cases (find_child h ch c)) [
                    | inl o ↦ rw o refl
                    | inr (i, o) ↦ rw o (
                        art_search-lookup (ch i) key (next + 1) (extend path depth h c)
                          (b.4 c i (key_byte-lt key next) o))
                  ])
                ]))
      ]

-- Whether art_update returns an address.
abbrev pub address : Sought → Bool
address r = elim r.value [ none ↦ false | some old ↦ not (r.in_leaf && old == 0) ]

module _ (m : Murmur) (cm : Sketch) (key freq value : ℕ) where
  -- In a well-formed tree without buffered pairs art_update of the sequential variant leaves the node
  -- that art_update leaves, and has the same result.
  pub art_update-seek :
      (o : Node) (d : ℕ) (path : ℕ → ℕ)
      → IsTree o d path
      → IsPlain o
      → key ≢ 0
      → let r = seek m cm key freq (some value) o d in
        art_update key value o d ≡ (r.node, address r)
  unfolding art_update seek come_back
  art_update-seek null d path t p n = refl
  art_update-seek (leaf e) d path t p n = elim (Bool-cases (e.key == key)) [
    | inl q ↦ rw q refl
    | inr q ↦ rw q refl
  ]
  art_update-seek (inner h ch) d path t p n =
      let next = d + h.partial_len in
      let c = key_byte key next in
      let l = key_byte-lt key next in
      let free = not_buffered m cm key freq value h ch d path t p n in
      elim (Bool-cases
        (not (h.partial_len == 0) && not (check_prefix h key d == min key_len h.partial_len))) [
          | inl q ↦ rw q refl
          | inr q ↦
              rw (q, free)
                (elim (Option-cases (find_child h ch c)) [
                  | inl o ↦ rw o refl
                  | inr (i, o) ↦
                      let below = t.4 c i l o in
                      let r = seek m cm key freq (some value) (ch i) (next + 1) in
                      let u =
                        seek_lem m cm key freq value (ch i) (next + 1) (extend path d h c) below
                          (p.1 c i l o) n in
                      rw
                        (
                          o,
                          art_update-seek (ch i) (next + 1) (extend path d h c) below (p.1 c i l o)
                              n,
                          u.3,
                        )
                        refl
                ])
        ]
