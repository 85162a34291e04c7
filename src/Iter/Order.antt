-- ===== src/Iter/Order.antt =====
-- The order of the iteration against that of the destruction.
use hetero_indexing.Prelude.{
  ℕ, zero, suc, ◌+◌, ◌-◌, ◌≡◌, refl, sym, ap, ◌∙◌, List, [], ◌∷◌, ◌++◌, Bool, true, false, ◌==◌,
  if◌then◌else◌, arith, inl, inr, Bool-cases,
}
use hetero_indexing.Common.{Entry}
use hetero_indexing.Art.{Kind, node4, node16, node48, node256, Node, null, leaf, inner, is_null}
use hetero_indexing.Iter.{visit, recursive_iter, Freed, freed_leaf, freed_node, each, destroy_node}

module _ {S : Type 0} (cb : S → Entry → S × ℕ) where
  -- The callback on the leaves of a list, up to the first status other than 0.
  abbrev pub run : List Freed → S → S × ℕ
  run [] s = (s, 0)
  run (freed_leaf e ∷ fs) s =
      let r = cb s e in let rest = run fs r.0 in if r.1 == 0 then rest else r
  run (freed_node k ∷ fs) s = run fs s

  abbrev go_on : S × ℕ → List Freed → S × ℕ
  go_on r fs = if r.1 == 0 then run fs r.0 else r

  run-append : (xs ys : List Freed) (s : S) → run (xs ++ ys) s ≡ go_on (run xs s) ys
  run-append [] ys s = refl
  run-append (freed_node k ∷ xs) ys s = run-append xs ys s
  run-append (freed_leaf e ∷ xs) ys s = elim (Bool-cases ((cb s e).1 == 0)) [
    | inl q ↦ rw q (run-append xs ys (cb s e).0)
    | inr q ↦ rw q (rw q refl)
  ]

  visit_lem :
      (f : ℕ → S → S × ℕ) (g : ℕ → List Freed)
      → ((i : ℕ) (s : S) → f i s ≡ run (g i) s)
      → (n i : ℕ) (s : S) → visit n i f s ≡ run (each n i g) s
  unfolding visit each
  visit_lem f g h zero i s = refl
  visit_lem f g h (suc n) i s =
      ap (λ r. if r.1 == 0 then visit n (i + 1) f r.0 else r) (h i s)
      ∙ ap (λ t. if (run (g i) s).1 == 0 then t else run (g i) s)
          (visit_lem f g h n (i + 1) (run (g i) s).0)
      ∙ sym (run-append (g i) (each n (i + 1) g) s)

  settled : (r : S × ℕ) → (if r.1 == 0 then (r.0, 0) else r) ≡ r
  settled (s, zero) = refl
  settled (s, suc n) = let test : (suc n == 0) ≡ false = ground arith in rw test refl

  last_node : (fs : List Freed) (k : Kind) (s : S) → run (fs ++ freed_node k ∷ []) s ≡ run fs s
  last_node fs k s = run-append fs (freed_node k ∷ []) s ∙ settled (run fs s)

  module _ (f : ℕ → S → S × ℕ) (g : ℕ → List Freed)
      (h : (i : ℕ) (s : S) → f i s ≡ run (g i) s) where
    skipped :
        (b : Bool) (i : ℕ) (s : S) → (if b then (s, 0) else f i s) ≡ run (if b then [] else g i) s
    skipped true i s = refl
    skipped false i s = h i s

    children_lem :
        (k : Kind) (n : ℕ) (keys : ℕ → ℕ) (ch : ℕ → Node) (s : S)
        → (elim k [
          | node4 ↦ visit n 0 f s
          | node16 ↦ visit n 0 f s
          | node48 ↦ visit 256 0 (λ i t. if keys i == 0 then (t, 0) else f (keys i - 1) t) s
          | node256 ↦ visit 256 0 (λ i t. if is_null (ch i) then (t, 0) else f i t) s
        ])
          ≡ run
              (elim k [
                | node4 ↦ each n 0 g
                | node16 ↦ each n 0 g
                | node48 ↦ each 256 0 (λ i. if keys i == 0 then [] else g (keys i - 1))
                | node256 ↦ each 256 0 (λ i. if is_null (ch i) then [] else g i)
              ])
              s
    children_lem node4 n keys ch s = visit_lem f g h n 0 s
    children_lem node16 n keys ch s = visit_lem f g h n 0 s
    children_lem node48 n keys ch s =
        visit_lem (λ i t. if keys i == 0 then (t, 0) else f (keys i - 1) t)
          (λ i. if keys i == 0 then [] else g (keys i - 1))
          (λ i t. skipped (keys i == 0) (keys i - 1) t) 256 0 s
    children_lem node256 n keys ch s =
        visit_lem (λ i t. if is_null (ch i) then (t, 0) else f i t)
          (λ i. if is_null (ch i) then [] else g i) (λ i t. skipped (is_null (ch i)) i t) 256 0 s

  -- The iteration calls the callback on the leaves that the destruction of the tree frees, in that
  -- order, up to the first status other than 0, which it returns.
  pub recursive_iter-destroy_node :
      (n : Node) (s : S) → recursive_iter cb n s ≡ run (destroy_node n) s
  unfolding recursive_iter destroy_node
  recursive_iter-destroy_node null s = refl
  recursive_iter-destroy_node (leaf e) s = sym (settled (cb s e))
  recursive_iter-destroy_node (inner h ch) s =
      let frees : List Freed = elim h.kind [
        | node4 ↦ each h.num_children 0 (λ i. destroy_node (ch i))
        | node16 ↦ each h.num_children 0 (λ i. destroy_node (ch i))
        | node48 ↦ each 256 0 (λ i. if h.keys i == 0 then [] else destroy_node (ch (h.keys i - 1)))
        | node256 ↦ each 256 0 (λ i. if is_null (ch i) then [] else destroy_node (ch i))
      ] in
      children_lem (λ i. recursive_iter cb (ch i)) (λ i. destroy_node (ch i))
        (λ i t. recursive_iter-destroy_node (ch i) t) h.kind h.num_children h.keys ch s
      ∙ sym (last_node frees h.kind s)
