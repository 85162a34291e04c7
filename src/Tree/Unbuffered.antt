-- ===== src/Tree/Unbuffered.antt =====
-- recursive_insert of a key that is not of MEM_TYPE puts no pair into a buffer.
use hetero_indexing.Prelude.{
  ℕ, ◌+◌, ◌<◌, ◌^◌, ◌≡◌, ◌≢◌, refl, sym, ap, ◌∙◌, Bool, false, none, arith, ◌==◌, Option-cases, inl,
  inr,
}
use mathlib.Core.Path.{subst}
use hetero_indexing.Common.{Entry}
use hetero_indexing.Hash.{find}
use hetero_indexing.Art.{Node, null, leaf, inner, key_byte, add_child, find_child, update}
use hetero_indexing.Art.Slots.{child_in}
use hetero_indexing.Art.Shape.{child_at}
use hetero_indexing.Art.AddChild.{add_child_lem}
use hetero_indexing.Art.Replace.{replace_lem}
use hetero_indexing.Tree.{Inserted, lookup, insert}
use hetero_indexing.Tree.Shape.{Agrees, key_byte-lt, extend, IsTree, mismatch, lookup_inner}
use hetero_indexing.Tree.Step.{Agrees-extend}
use hetero_indexing.Tree.Leaf.{lookup-leaf}
use hetero_indexing.Tree.Insert.{insert_lem, insert_split, insert_below, insert_here, seen-none}
use hetero_indexing.Tree.Plain.{IsPlain, IsPlain-Added, split_leaf-IsPlain, split_prefix-IsPlain}

pub insert-IsPlain :
    (replace : Bool) (o : Node) (e : Entry) (d : ℕ) (path : ℕ → ℕ)
    → IsTree o d path
    → IsPlain o
    → e.key ≢ 0
    → e.key < 2 ^ 64
    → Agrees d path e.key
    → lookup o e.key d ≡ none
    → IsPlain (insert false replace o e d).node
unfolding insert
insert-IsPlain replace null e d path v p n w a new = tt
insert-IsPlain replace (leaf l) e d path v p n w a new =
    let ne : l.key ≢ e.key = λ q. ground (arith, q, new, lookup-leaf l e.key d) in
    let test : (l.key == e.key) ≡ false = ground (arith, ne) in rw test (split_leaf-IsPlain l e d)
insert-IsPlain replace (inner h ch) e d path v p n w a new =
    let next = d + h.partial_len in
    let c = key_byte e.key next in
    let l : c < 256 = key_byte-lt e.key next in
    let facts = sym (lookup_inner h ch e.key d v.1) ∙ new in
    let plain = λ (r : Inserted). IsPlain r.node in
    elim (Option-cases (mismatch h e.key d)) [
      | inr (j, m) ↦
          subst plain (sym (insert_split h ch e d path v replace j m))
            (split_prefix-IsPlain h ch e d j (ground (arith, v.1)) p)
      | inl m ↦
          let (_, free) =
            seen-none (mismatch h e.key d) (find e.key h.buffer)
              (lookup (child_at h ch c) e.key (next + 1)) m facts in
          let on = Agrees-extend h e.key d path a m in
          elim (Option-cases (find_child h ch c)) [
            | inl q ↦
                let b = add_child h ch c (leaf e) in
                subst plain (sym (insert_here h ch e d path v replace m q)) (
                  IsPlain-Added h ch c (leaf e) b p tt (add_child_lem h ch c (leaf e) v.0 l refl q))
            | inr (i, q) ↦
                let at : child_at h ch c ≡ ch i = ap (λ t. child_in t ch) q in
                let r = insert false replace (ch i) e (next + 1) in
                let unheld = subst (λ t. lookup t e.key (next + 1) ≡ none) at free in
                let b = v.4 c i l q in
                let path' = extend path d h c in
                let st = insert_lem replace (ch i) e (next + 1) path' b n w on unheld in
                let ih =
                  insert-IsPlain replace (ch i) e (next + 1) path' b (p.1 c i l q) n w on unheld in
                subst plain (sym (insert_below h ch e d path v replace m i q)) (
                  IsPlain-Added h ch c r.node (h, update ch i r.node) p ih
                    (replace_lem h ch c i r.node v.0 l st.0.1 q))
          ]
    ]
