-- ===== src/Float/Move.antt =====
-- art_float to the buffer of the parent, into an empty slot or in exchange with another pair.
use hetero_indexing.Prelude.{
  ℕ, ◌+◌, ◌<◌, ◌≤◌, ◌≡◌, ◌≢◌, ◌⊎◌, refl, sym, ap, ◌∙◌, true, false, none, some, arith, ◌==◌, get_or,
  set, length, if◌then◌else◌, inl, inr,
}
use mathlib.Core.Path.{subst}
use native.Mathlib.Decide.{ℕ_discrete}
use hetero_indexing.Common.{Entry, buf_len}
use hetero_indexing.Hash.{find}
use hetero_indexing.Hash.Bin.{occurs, find-eq-none_iff}
use hetero_indexing.Art.{Header, Node, inner, empty_entry, key_byte, update}
use hetero_indexing.Art.Slots.{child_in}
use hetero_indexing.Art.Shape.{child_at, Added}
use hetero_indexing.Art.Replace.{replace_lem}
use hetero_indexing.Tree.{lookup}
use hetero_indexing.Tree.Shape.{
  Agrees, Buffered, key_byte-lt, extend, IsTree, IsTree-child, children-IsTree, mismatch, seen,
  lookup_inner,
}
use hetero_indexing.Tree.Step.{Sets, pick}
use hetero_indexing.Tree.Rehead.{rebuffered}
use hetero_indexing.Float.Found.{IsFound, rebuffered-IsTree, lookup-rebuffered}
use hetero_indexing.Float.Slots.{
  find-set_other, find-set_new, find-set_gone, length-set_slot, occurs-get_or,
}
use hetero_indexing.Float.Below.{
  Below, Below-here, Below-byte, mismatch-Below, mismatch_child-Below,
}

module _ (key slot d : ℕ) (path : ℕ → ℕ) (h : Header) (ch : ℕ → Node) (i : ℕ) (g : Header)
    (below : ℕ → Node) (f : IsFound key slot d path h ch i g below) where
  abbrev next : ℕ
  next = d + h.partial_len

  abbrev c : ℕ
  c = key_byte key next

  abbrev Under : ℕ → Type 0
  Under k = Below d path h c g k

  abbrev own : Entry
  own = get_or g.buffer slot empty_entry

  pub child-IsTree : IsTree (inner g below) (next + 1) (extend path d h c)
  child-IsTree =
      subst (λ o. IsTree o (next + 1) (extend path d h c)) f.child
        (f.tree.4 c i (key_byte-lt key next) f.found)

  full_child : length g.buffer ≡ buf_len
  full_child = child-IsTree.5

  found_below : find key g.buffer ≢ none
  found_below = λ z. ground (
    arith,
    z,
    f.slot_lt,
    occurs-get_or key slot g.buffer f.in_slot,
    find-eq-none_iff key g.buffer,
    full_child,
  )

  pub key-Below : Under key
  key-Below = child-IsTree.3 key f.plain found_below

  -- What may take the slot of the pair: no pair, or the pair `old` of slot `j` above, which stands
  -- there once and not below.
  abbrev pub Swapped : ℕ → Entry → Type 0
  Swapped j y =
      let old = get_or h.buffer j empty_entry in
      ((old.key ≡ 0) × (y.key ≡ 0))
      ⊎ ((old.key ≢ 0)
          × (y ≡ old)
          × (old.key ≢ key)
          × Under old.key
          × (occurs old.key h.buffer ≤ 1)
          × (find old.key g.buffer ≡ none))

  module _ (j : ℕ) (y : Entry) (l : j < buf_len) (s : Swapped j y) (e : Entry)
      (ek : e.key ≡ key) where
    abbrev old : Entry
    old = get_or h.buffer j empty_entry

    abbrev x : Node
    x = inner (rebuffered g (set g.buffer slot y)) below

    abbrev after : Node
    after = inner (rebuffered h (set h.buffer j e)) (update ch i x)

    -- What the new entries do for a key other than the one that is floated.
    not_new : (k : ℕ) → k ≢ 0 → key ≢ k → old.key ≢ k → y.key ≢ k
    not_new k n p r z = elim s [
      | inl (o, w) ↦ ground (arith, n, w, z)
      | inr (o, w, _, _, _, _) ↦
          let at : y.key ≡ old.key = ap (λ b. Entry.key b) w in ground (arith, r, z, at)
    ]

    below_same :
        (k : ℕ) → k ≢ 0 → key ≢ k → old.key ≢ k → find k (set g.buffer slot y) ≡ find k g.buffer
    below_same k n p r =
        find-set_other k slot y g.buffer (not_new k n p r) (λ z. p (sym f.in_slot ∙ z))

    above_same : (k : ℕ) → key ≢ k → old.key ≢ k → find k (set h.buffer j e) ≡ find k h.buffer
    above_same k p r = find-set_other k j e h.buffer (λ z. p (sym ek ∙ z)) r

    above_lt : j < length h.buffer
    above_lt = omega (arith, l, f.tree.5)

    -- What holds of the pair that changes its node.
    down :
        (k : ℕ)
        → k ≢ 0
        → old.key ≡ k
        → Under k
          × (find k (set h.buffer j e) ≡ none)
          × (find k h.buffer ≡ some old.value)
          × (find k (set g.buffer slot y) ≡ some old.value)
    down k n r = elim s [
      | inl (o, w) ↦ absurd (ground (arith, n, o, r))
      | inr (o, w, other, u, once, free) ↦
          let gone =
            find-set_gone old.key j e h.buffer (λ z. other (sym z ∙ ek)) once refl above_lt in
          let at : y.key ≡ old.key = ap (λ b. Entry.key b) w in
          let there =
            find-set_new slot y g.buffer (ap (λ z. find z g.buffer) at ∙ free)
              (omega (arith, f.slot_lt, full_child)) in
          subst
            (λ z.
              Under z
              × (find z (set h.buffer j e) ≡ none)
              × (find z h.buffer ≡ some old.value)
              × (find z (set g.buffer slot y) ≡ some old.value))
            r
            (
              u,
              gone.0,
              gone.1,
              ap (λ z. find z (set g.buffer slot y)) (sym at)
                  ∙ there
                  ∙ ap (λ b. some (Entry.value b)) w,
            )
    ]

    below-Buffered :
        Buffered
          (next + 1 + g.partial_len)
          (extend (extend path d h c) (next + 1) g 0)
          (set g.buffer slot y)
    below-Buffered k n q = elim (ℕ_discrete key k) [
      | yes p ↦ subst Under p key-Below
      | no p ↦ elim (ℕ_discrete old.key k) [
        | yes r ↦ (down k n r).0
        | no r ↦ child-IsTree.3 k n (λ z. q (below_same k n p r ∙ z))
      ]
    ]

    above-Buffered : Buffered next (extend path d h 0) (set h.buffer j e)
    above-Buffered k n q = elim (ℕ_discrete key k) [
      | yes p ↦ subst (Agrees next (extend path d h 0)) p (Below-here d path h c g key key-Below)
      | no p ↦ elim (ℕ_discrete old.key k) [
        | yes r ↦ absurd (q (down k n r).1)
        | no r ↦ f.tree.3 k n (λ z. q (above_same k p r ∙ z))
      ]
    ]

    x-IsTree : IsTree x (next + 1) (extend path d h c)
    x-IsTree =
        rebuffered-IsTree g below (next + 1) (extend path d h c) child-IsTree (set g.buffer slot y)
          (length-set_slot slot y g.buffer ∙ full_child) below-Buffered

    put_child : Added h ch c x (h, update ch i x)
    put_child = replace_lem h ch c i x f.tree.0 (key_byte-lt key next) refl f.found

    between-IsTree : IsTree (inner h (update ch i x)) d path
    between-IsTree = (
      put_child.node,
      f.tree.1,
      f.tree.2,
      f.tree.3,
      children-IsTree h (update ch i x) d path (λ b lb. rw (put_child.at b lb) (
          pick (λ o. IsTree o (next + 1) (extend path d h b)) b c x (child_at h ch b)
            (λ q. subst (λ z. IsTree x (next + 1) (extend path d h z)) (sym q) x-IsTree)
            (λ _. IsTree-child h ch d b path f.tree lb))),
      f.tree.5,
    )

    reads :
        (k : ℕ)
        → lookup after k d
          ≡ seen (mismatch h k d) (find k (set h.buffer j e)) (
              lookup
                (if key_byte k next == c then x else child_at h ch (key_byte k next))
                k
                (next + 1))
    reads k =
        lookup-rebuffered h (update ch i x) d path between-IsTree (set h.buffer j e) k
        ∙ ap (λ o. seen (mismatch h k d) (find k (set h.buffer j e)) (lookup o k (next + 1)))
            (put_child.at (key_byte k next) (key_byte-lt k next))

    -- The child on the way to a key, after and before.
    abbrev next_child : ℕ → Node
    next_child k = if key_byte k next == c then x else child_at h ch (key_byte k next)

    abbrev BelowReads : ℕ → Node → Type 0
    BelowReads k o =
        seen (mismatch h k d) (find k h.buffer) (lookup o k (next + 1))
        ≡ seen (mismatch h k d) (find k h.buffer)
            (lookup (child_at h ch (key_byte k next)) k (next + 1))

    was :
        (k : ℕ)
        → key_byte k next ≡ c
        → lookup (child_at h ch (key_byte k next)) k (next + 1)
          ≡ lookup (inner g below) k (next + 1)
    was k q =
        ap (λ b. lookup (child_at h ch b) k (next + 1)) q
        ∙ ap (λ o. lookup (child_in o ch) k (next + 1)) f.found
        ∙ ap (λ o. lookup o k (next + 1)) f.child

    x_reads :
        (k : ℕ)
        → k ≢ 0
        → key ≢ k
        → old.key ≢ k
        → lookup x k (next + 1) ≡ lookup (inner g below) k (next + 1)
    x_reads k n p r =
        let after_child = key_byte k (next + 1 + g.partial_len) in
        lookup-rebuffered g below (next + 1) (extend path d h c) child-IsTree (set g.buffer slot y)
          k
        ∙ ap
            (λ o.
              seen (mismatch g k (next + 1)) o
                (lookup (child_at g below after_child) k (next + 1 + g.partial_len + 1)))
            (below_same k n p r)
        ∙ sym (lookup_inner g below k (next + 1) child-IsTree.1)

    reads_key : lookup after key d ≡ some e.value
    reads_key =
        let here : find key (set h.buffer j e) ≡ some e.value =
          ap (λ z. find z (set h.buffer j e)) (sym ek)
          ∙ find-set_new j e h.buffer (ap (λ z. find z h.buffer) ek ∙ f.not_above) above_lt in
        reads key ∙ rw (here, mismatch-Below d path h c g key key-Below) refl

    reads_other : (k : ℕ) → k ≢ 0 → key ≢ k → lookup after k d ≡ lookup (inner h ch) k d
    reads_other k n p =
        reads k
        ∙ elim (ℕ_discrete old.key k) [
          | no r ↦
              ap (λ o. seen (mismatch h k d) o (lookup (next_child k) k (next + 1)))
                (above_same k p r)
              ∙ pick (BelowReads k) (key_byte k next) c x (child_at h ch (key_byte k next))
                  (λ q.
                    ap (seen (mismatch h k d) (find k h.buffer)) (x_reads k n p r ∙ sym (was k q)))
                  (λ _. refl)
          | yes r ↦
              let (u, gone, was_here, is_below) = down k n r in
              let same = Below-byte d path h c g k u in
              let test : (key_byte k next == c) ≡ true = ground (arith, same) in
              rw (mismatch-Below d path h c g k u, gone, was_here, test)
                (lookup-rebuffered g below (next + 1) (extend path d h c) child-IsTree
                    (set g.buffer slot y) k
                  ∙ rw (mismatch_child-Below d path h c g k u, is_below) refl)
        ]
        ∙ sym (lookup_inner h ch k d f.tree.1)

    -- The key has the value that art_float writes, every other key what it had.
    pub after-Sets : Sets key (some e.value) d path (inner h ch) after
    after-Sets = (
      rebuffered-IsTree h (update ch i x) d path between-IsTree (set h.buffer j e)
          (length-set_slot j e h.buffer ∙ f.tree.5) above-Buffered,
      λ k n w. elim (ℕ_discrete key k) [
        | yes p ↦
            let test : (key == k) ≡ true = ground (arith, p) in
            rw test (subst (λ z. lookup after z d ≡ some e.value) p reads_key)
        | no p ↦ let test : (key == k) ≡ false = ground (arith, p) in rw test (reads_other k n p)
      ],
    )
