-- ===== src/Tree/Wrap.antt =====
-- A new node4 above an old node, as both splits of recursive_insert make it.
use hetero_indexing.Prelude.{
  length, ℕ, ◌+◌, ◌<◌, ◌^◌, ◌≡◌, ◌≢◌, refl, sym, ap, ◌∙◌, false, none, some, arith, ◌==◌,
  if◌then◌else◌, List,
}
use mathlib.Core.Path.{subst}
use hetero_indexing.Common.{Entry, key_len, buf_len}
use hetero_indexing.Hash.{find}
use hetero_indexing.Art.{
  node4, Header, Node, null, leaf, inner, is_null, find_first, find_child, key_byte, add_child4,
  alloc_node, no_children, update, shift_up,
}
use hetero_indexing.Art.Slots.{slot, child_in}
use hetero_indexing.Art.Shape.{IsArray, child_at, find_child-node4}
use hetero_indexing.Art.AddChild.{add_child4_lem}
use hetero_indexing.Tree.{lookup}
use hetero_indexing.Tree.Shape.{
  Agrees, key_byte-lt, extend, Buffered, IsTree, mismatch, seen, lookup_inner, children-IsTree,
}
use hetero_indexing.Tree.Step.{Stores, pick, step}

module _ (m : ℕ) (f : ℕ → ℕ) (bs : List Entry) (c : ℕ) (x : Node) where
  abbrev pub new_node : Header
  new_node = record (alloc_node node4) { partial_len = m; partial = f; buffer = bs }

  abbrev pub wrapper : Header
  wrapper = record new_node { keys = update (shift_up (λ _. 0) 0 0) 0 c; num_children = 1 }

  abbrev pub wrapped : ℕ → Node
  wrapped = update (shift_up no_children 0 0) 0 x

  pub add_child4-new : add_child4 new_node no_children c x ≡ (wrapper, wrapped)
  unfolding add_child4 find_first
  add_child4-new = refl

  wrapper_slot : (b : ℕ) → slot 1 wrapper.keys b ≡ (if b == c then some 0 else none)
  unfolding find_first
  wrapper_slot b = ground arith

  wrapper_reads : (b : ℕ) → child_at wrapper wrapped b ≡ (if b == c then x else null)
  wrapper_reads b = rw (find_child-node4 wrapper wrapped b refl, wrapper_slot b) (ground arith)

  module _ (l : c < 256) (p : is_null x ≡ false) where
    wrapper-IsArray : IsArray 4 wrapper wrapped
    wrapper-IsArray = record {
      fits = omega arith;
      distinct = λ i j k n q. omega arith;
      bytes = λ i k. ground (arith, l);
      filled = λ i k. ground (arith, p);
    }

    module _ (d : ℕ) (path : ℕ → ℕ) (short : d + m < key_len) (bytes : (i : ℕ) → i < m → f i < 256)
        (buffered : Buffered (d + m) (extend path d wrapper 0) bs)
        (v : IsTree x (d + m + 1) (extend path d wrapper c)) (three : length bs ≡ buf_len) where
      pub wrapper-IsTree : IsTree (inner wrapper wrapped) d path
      wrapper-IsTree = (
        wrapper-IsArray,
        short,
        bytes,
        buffered,
        children-IsTree wrapper wrapped d path (λ b k. rw (wrapper_reads b) (
            pick (λ t. IsTree t (d + m + 1) (extend path d wrapper b)) b c x null
              (λ q. subst (λ z. IsTree x (d + m + 1) (extend path d wrapper z)) (sym q) v)
              (λ q. tt))),
        three,
      )

      pub wrapper-lookup :
          (k : ℕ)
          → lookup (inner wrapper wrapped) k d
            ≡ seen
                (mismatch wrapper k d)
                (find k bs)
                (if key_byte k (d + m) == c then lookup x k (d + m + 1) else none)
      unfolding lookup
      wrapper-lookup k =
          lookup_inner wrapper wrapped k d short
          ∙ ap (seen (mismatch wrapper k d) (find k bs)) (
              rw (wrapper_reads (key_byte k (d + m))) (
                pick
                  (λ t.
                    lookup t k (d + m + 1)
                    ≡ (if key_byte k (d + m) == c then lookup x k (d + m + 1) else none))
                  (key_byte k (d + m)) c x null (λ q. ground (arith, q)) (λ q. ground (arith, q))))

      -- A leaf beside the old node.
      module _ (e : Entry) (n : e.key ≢ 0) (w : e.key < 2 ^ 64)
          (agrees : Agrees (d + m + 1) (extend path d wrapper (key_byte e.key (d + m))) e.key)
          (fits : mismatch wrapper e.key d ≡ none) (new : find e.key bs ≡ none)
          (away : key_byte e.key (d + m) ≢ c) where
        pub fork :
            let two = add_child4 wrapper wrapped (key_byte e.key (d + m)) (leaf e) in
            Stores e d path (inner wrapper wrapped) (inner two.0 two.1)
        unfolding lookup
        fork =
            let b = key_byte e.key (d + m) in
            let free : find_child wrapper wrapped b ≡ none =
              find_child-node4 wrapper wrapped b refl ∙ wrapper_slot b ∙ ground (arith, away) in
            let empty : child_at wrapper wrapped b ≡ null = ap (λ o. child_in o wrapped) free in
            step wrapper wrapped d path wrapper-IsTree e fits new (leaf e)
              ((w, agrees), refl, λ k _ _. rw empty refl) (add_child4 wrapper wrapped b (leaf e))
              (add_child4_lem wrapper wrapped b (leaf e) refl wrapper-IsArray
                (key_byte-lt e.key (d + m)) refl free)
