-- ===== src/Float/Found.antt =====
-- A pair in the buffer of a node below another one, as art_search leaves it to art_float.
use hetero_indexing.Prelude.{ℕ, ◌+◌, ◌<◌, ◌≡◌, ◌≢◌, none, some, get_or, length, List}
use hetero_indexing.Common.{Entry, buf_len}
use hetero_indexing.Hash.{find}
use hetero_indexing.Art.{Header, Node, inner, empty_entry, key_byte, find_child}
use hetero_indexing.Art.Shape.{child_at}
use hetero_indexing.Tree.{lookup}
use hetero_indexing.Tree.Shape.{Buffered, extend, IsTree, mismatch, seen, lookup_inner}
use hetero_indexing.Tree.Rehead.{rebuffered, rebuffered-IsNode}

-- The buffer of a node is another one.
module _ (h : Header) (ch : ℕ → Node) (d : ℕ) (path : ℕ → ℕ) (t : IsTree (inner h ch) d path)
    (bs : List Entry) where
  pub rebuffered-IsTree :
      length bs ≡ buf_len
      → Buffered (d + h.partial_len) (extend path d h 0) bs
      → IsTree (inner (rebuffered h bs) ch) d path
  unfolding find_child
  rebuffered-IsTree l b = (rebuffered-IsNode h ch bs t.0, t.1, t.2, b, t.4, l)

  pub lookup-rebuffered :
      (k : ℕ)
      → lookup (inner (rebuffered h bs) ch) k d
        ≡ seen
            (mismatch h k d)
            (find k bs)
            (lookup (child_at h ch (key_byte k (d + h.partial_len))) k (d + h.partial_len + 1))
  unfolding find_child
  lookup-rebuffered k = lookup_inner (rebuffered h bs) ch k d t.1

-- The pair of `key` stands in slot `slot` of the buffer of the child `(g, below)` at index `i` of the
-- node `(h, ch)`, and not in the buffer of that node.
pub record IsFound (key slot d : ℕ) (path : ℕ → ℕ) (h : Header) (ch : ℕ → Node) (i : ℕ) (g : Header)
    (below : ℕ → Node) : Type 0 where
  pub tree : IsTree (inner h ch) d path
  pub child : ch i ≡ inner g below
  pub found : find_child h ch (key_byte key (d + h.partial_len)) ≡ some i
  pub plain : key ≢ 0
  pub slot_lt : slot < buf_len
  pub in_slot : (get_or g.buffer slot empty_entry).key ≡ key
  pub not_above : find key h.buffer ≡ none
