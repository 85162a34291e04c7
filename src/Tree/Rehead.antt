-- ===== src/Tree/Rehead.antt =====
-- A node whose prefix changes and whose buffer is zeroed.
use hetero_indexing.Prelude.{List, ℕ, inl, inr, replicate}
use hetero_indexing.Common.{Entry, buf_len}
use hetero_indexing.Art.{node4, node16, node48, node256, Header, Node, empty_entry}
use hetero_indexing.Art.Shape.{IsNode, IsArray, to_IsNode, of_IsNode}
use hetero_indexing.Art.AddChild.{Kind-cases}

-- A node keeps its shape when its prefix and its buffer change.
abbrev pub reheaded : Header → ℕ → (ℕ → ℕ) → Header
reheaded h rest partial = record h {
  buffer = replicate buf_len empty_entry;
  partial_len = rest;
  partial = partial;
}

reheaded-IsArray :
    (cap : ℕ) (h : Header) (ch : ℕ → Node) (rest : ℕ) (partial : ℕ → ℕ)
    → IsArray cap h ch
    → IsArray cap (reheaded h rest partial) ch
reheaded-IsArray cap h ch rest partial v = record {
  fits = v.fits;
  distinct = v.distinct;
  bytes = v.bytes;
  filled = v.filled;
}

pub reheaded-IsNode :
    (h : Header) (ch : ℕ → Node) (rest : ℕ) (partial : ℕ → ℕ)
    → IsNode h ch
    → IsNode (reheaded h rest partial) ch
reheaded-IsNode h ch rest partial v =
    let g = reheaded h rest partial in
    elim (Kind-cases h.kind) [
      | inl e ↦
          to_IsNode node4 g ch e (reheaded-IsArray 4 h ch rest partial (of_IsNode node4 h ch e v))
      | inr (inl e) ↦
          to_IsNode node16 g ch e
            (reheaded-IsArray 16 h ch rest partial (of_IsNode node16 h ch e v))
      | inr (inr (inl e)) ↦
          let w = of_IsNode node48 h ch e v in
          to_IsNode node48 g ch e (record {
            slots = w.slots;
            filled = w.filled;
            apart = w.apart;
            counted = w.counted;
            mapped = w.mapped;
          })
      | inr (inr (inr e)) ↦ to_IsNode node256 g ch e (of_IsNode node256 h ch e v)
    ]

-- A node keeps its shape when only its buffer changes.
abbrev pub rebuffered : Header → List Entry → Header
rebuffered h bs = record h { buffer = bs }

rebuffered-IsArray :
    (cap : ℕ) (h : Header) (ch : ℕ → Node) (bs : List Entry)
    → IsArray cap h ch
    → IsArray cap (rebuffered h bs) ch
rebuffered-IsArray cap h ch bs v = record {
  fits = v.fits;
  distinct = v.distinct;
  bytes = v.bytes;
  filled = v.filled;
}

pub rebuffered-IsNode :
    (h : Header) (ch : ℕ → Node) (bs : List Entry) → IsNode h ch → IsNode (rebuffered h bs) ch
rebuffered-IsNode h ch bs v =
    let g = rebuffered h bs in
    let array = λ (cap : ℕ) (w : IsArray cap h ch). rebuffered-IsArray cap h ch bs w in
    elim (Kind-cases h.kind) [
      | inl e ↦ to_IsNode node4 g ch e (array 4 (of_IsNode node4 h ch e v))
      | inr (inl e) ↦ to_IsNode node16 g ch e (array 16 (of_IsNode node16 h ch e v))
      | inr (inr (inl e)) ↦
          let w = of_IsNode node48 h ch e v in
          to_IsNode node48 g ch e (record {
            slots = w.slots;
            filled = w.filled;
            apart = w.apart;
            counted = w.counted;
            mapped = w.mapped;
          })
      | inr (inr (inr e)) ↦ to_IsNode node256 g ch e (of_IsNode node256 h ch e v)
    ]
