-- ===== src/Tree/Insert.antt =====
-- recursive_insert of a key that is not yet in the tree and not of MEM_TYPE.
use hetero_indexing.Prelude.{
  ℕ, ◌+◌, ◌-◌, ◌<◌, ◌^◌, ◌≡◌, ◌≢◌, refl, sym, ap, ◌∙◌, Bool, true, false, not, ◌&&◌, Option, none,
  some, arith, ◌==◌, ltb, min, Option-cases, inl, inr,
}
use mathlib.Core.Path.{subst}
use hetero_indexing.Common.{Entry, key_len}
use hetero_indexing.Hash.{find}
use hetero_indexing.Art.{
  Header, Node, null, leaf, inner, key_byte, add_child, find_child, update, or_default,
}
use hetero_indexing.Art.Slots.{child_in}
use hetero_indexing.Art.Shape.{child_at}
use hetero_indexing.Art.AddChild.{add_child_lem}
use hetero_indexing.Art.Replace.{replace_lem}
use hetero_indexing.Tree.{
  Inserted, added_node, lookup, insert, insert_buffer, split_prefix, prefix_mismatch,
  prefix_mismatch_within,
}
use hetero_indexing.Tree.Shape.{Agrees, key_byte-lt, extend, IsTree, mismatch, seen, lookup_inner}
use hetero_indexing.Tree.Step.{Stores, Agrees-extend, step}
use hetero_indexing.Tree.Search.{mismatch-some}
use hetero_indexing.Tree.Leaf.{lookup-leaf, split_leaf_lem}
use hetero_indexing.Tree.Prefix.{buffered_matches, split_prefix_lem}

-- Inside the key, prefix_mismatch needs no leaf.
prefix_mismatch_lem :
    (h : Header) (ch : ℕ → Node) (key d : ℕ)
    → d + h.partial_len < key_len
    → prefix_mismatch h ch key d ≡ or_default (mismatch h key d) h.partial_len
unfolding prefix_mismatch_within
prefix_mismatch_lem h ch key d l =
    let whole : min (min key_len h.partial_len) (key_len - d) ≡ h.partial_len = omega arith in
    let short : ltb key_len h.partial_len ≡ false = ground (arith, l) in rw (whole, short) refl

pub seen-none : (m f s : Option ℕ) → m ≡ none → seen m f s ≡ none → (f ≡ none) × (s ≡ none)
seen-none (some i) f s e n = absurd (ground (arith, e))
seen-none none (some x) s e n = absurd (ground (arith, n))
seen-none none none s e n = (refl, n)

-- What an insertion of a new key leaves behind.
abbrev pub Inserts : Entry → ℕ → (ℕ → ℕ) → Node → Inserted → Type 0
Inserts e d path o r =
    Stores e d path o r.node × (r.found_key ≡ false) × (r.in_buffer ≡ false) × (r.value_read ≡ none)

module _ (h : Header) (ch : ℕ → Node) (e : Entry) (d : ℕ) (path : ℕ → ℕ)
    (v : IsTree (inner h ch) d path) (replace : Bool) where
  abbrev pub next : ℕ
  next = d + h.partial_len

  abbrev pub byte : ℕ
  byte = key_byte e.key next

  pub insert_split :
      (j : ℕ)
      → mismatch h e.key d ≡ some j
      → insert false replace (inner h ch) e d ≡ added_node (split_prefix h ch e d j)
  unfolding insert insert_buffer
  insert_split j m =
      let at : prefix_mismatch h ch e.key d ≡ j =
        prefix_mismatch_lem h ch e.key d v.1 ∙ rw m refl in
      let test : (not (h.partial_len == 0) && ltb j h.partial_len) ≡ true =
        ground (arith, (mismatch-some h e.key d j m).0) in
      rw (at, test) refl

  module _ (m : mismatch h e.key d ≡ none) where
    on_down : (not (h.partial_len == 0) && ltb (prefix_mismatch h ch e.key d) h.partial_len) ≡ false
    on_down =
        let at : prefix_mismatch h ch e.key d ≡ h.partial_len =
          prefix_mismatch_lem h ch e.key d v.1 ∙ rw m refl in
        rw at (ground arith)

    pub insert_below :
        (i : ℕ)
        → find_child h ch byte ≡ some i
        → let r = insert false replace (ch i) e (next + 1) in
          insert false replace (inner h ch) e d ≡ record r { node = inner h (update ch i r.node) }
    unfolding insert insert_buffer
    insert_below i q = rw (on_down, q) refl

    pub insert_here :
        find_child h ch byte ≡ none
        → let b = add_child h ch byte (leaf e) in
          insert false replace (inner h ch) e d ≡ added_node (inner b.0 b.1)
    unfolding insert insert_buffer
    insert_here q = rw (on_down, q) refl

pub new_leaf :
    (e : Entry) (d : ℕ) (path : ℕ → ℕ)
    → e.key < 2 ^ 64
    → Agrees d path e.key
    → Stores e d path null (leaf e)
unfolding lookup
new_leaf e d path w a = ((w, a), refl, λ k _ _. refl)

-- In a well-formed tree that does not hold the key, an insertion that is not of MEM_TYPE gives a
-- well-formed tree in which the key has its value and every other key what it had, whether the
-- leaf goes into a node, splits a leaf or splits a prefix; no key is reported as found.
pub insert_lem :
    (replace : Bool) (o : Node) (e : Entry) (d : ℕ) (path : ℕ → ℕ)
    → IsTree o d path
    → e.key ≢ 0
    → e.key < 2 ^ 64
    → Agrees d path e.key
    → lookup o e.key d ≡ none
    → Inserts e d path o (insert false replace o e d)
unfolding insert
insert_lem replace null e d path v n w a new = (new_leaf e d path w a, refl, refl, refl)
insert_lem replace (leaf l) e d path v n w a new =
    let ne : l.key ≢ e.key = λ q. ground (arith, q, new, lookup-leaf l e.key d) in
    let test : (l.key == e.key) ≡ false = ground (arith, ne) in
    rw test (split_leaf_lem l e d path v n w a ne, refl, refl, refl)
insert_lem replace (inner h ch) e d path v n w a new =
    let next = d + h.partial_len in
    let c = key_byte e.key next in
    let l : c < 256 = key_byte-lt e.key next in
    let facts = sym (lookup_inner h ch e.key d v.1) ∙ new in
    elim (Option-cases (mismatch h e.key d)) [
      | inr (j, m) ↦
          let fresh : find e.key h.buffer ≡ none = elim (Option-cases (find e.key h.buffer)) [
            | inl q ↦ q
            | inr (x, q) ↦ absurd (
                ground (
                  arith,
                  m,
                  q,
                  buffered_matches h ch d path v j (mismatch-some h e.key d j m).0 e.key n,
                ))
          ] in
          subst (Inserts e d path (inner h ch)) (sym (insert_split h ch e d path v replace j m))
            (split_prefix_lem h ch e d j path v n w a m fresh, refl, refl, refl)
      | inl m ↦
          let (fresh, free) =
            seen-none (mismatch h e.key d) (find e.key h.buffer)
              (lookup (child_at h ch c) e.key (next + 1)) m facts in
          let on = Agrees-extend h e.key d path a m in
          elim (Option-cases (find_child h ch c)) [
            | inl q ↦
                let empty : child_at h ch c ≡ null = ap (λ t. child_in t ch) q in
                let st = new_leaf e (next + 1) (extend path d h c) w on in
                let b = add_child h ch c (leaf e) in
                subst (Inserts e d path (inner h ch))
                  (sym (insert_here h ch e d path v replace m q))
                  (
                    step h ch d path v e m fresh (leaf e)
                        (subst (λ t. Stores e (next + 1) (extend path d h c) t (leaf e)) (sym empty)
                          st)
                        b (add_child_lem h ch c (leaf e) v.0 l refl q),
                    refl,
                    refl,
                    refl,
                  )
            | inr (i, q) ↦
                let at : child_at h ch c ≡ ch i = ap (λ t. child_in t ch) q in
                let r = insert false replace (ch i) e (next + 1) in
                let ih =
                  insert_lem replace (ch i) e (next + 1) (extend path d h c) (v.4 c i l q) n w on
                    (subst (λ t. lookup t e.key (next + 1) ≡ none) at free) in
                subst (Inserts e d path (inner h ch))
                  (sym (insert_below h ch e d path v replace m i q))
                  (
                    step h ch d path v e m fresh r.node
                        (subst (λ t. Stores e (next + 1) (extend path d h c) t r.node) (sym at)
                          ih.0)
                        (h, update ch i r.node) (replace_lem h ch c i r.node v.0 l ih.0.1 q),
                    ih.1,
                    ih.2,
                    ih.3,
                  )
          ]
    ]
