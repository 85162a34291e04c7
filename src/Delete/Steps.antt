-- ===== src/Delete/Steps.antt =====
-- Insertions and deletions in any order from an empty tree, against a list of pairs.
use hetero_indexing.Prelude.{
  ℕ, ◌+◌, ◌-◌, ◌<◌, ◌^◌, ◌≡◌, ◌≢◌, refl, sym, ap, ◌∙◌, false, Option, none, some, arith, ◌==◌,
  if◌then◌else◌, List, [], ◌∷◌, length, Bool-cases, inl, inr,
}
use native.Mathlib.Decide.{ℕ_discrete}
use hetero_indexing.Common.{Entry, u64}
use hetero_indexing.Hash.{find}
use hetero_indexing.Tree.{ArtTree, empty_tree, art_insert_no_replace, lookup}
use hetero_indexing.Tree.Shape.{IsTree}
use hetero_indexing.Tree.Insert.{insert_lem}
use hetero_indexing.Tree.Plain.{IsPlain}
use hetero_indexing.Tree.Unbuffered.{insert-IsPlain}
use hetero_indexing.Tree.Run.{Fresh}
use hetero_indexing.Delete.{recursive_delete, art_delete}
use hetero_indexing.Delete.Value.{is_there, recursive_delete-lookup}
use hetero_indexing.Delete.Whole.{recursive_delete_lem}

-- The list without the pair of a key.
abbrev pub without : ℕ → List Entry → List Entry
without key [] = []
without key (e ∷ es) = let rest = without key es in if e.key == key then rest else e ∷ rest

-- The trees that come from an empty one by insertions of new keys, none of MEM_TYPE, and deletions,
-- with the pairs that they should hold.
pub data Made : List Entry → ArtTree → Type 0 where
  made_empty : Made [] empty_tree
  inserted :
      {es : List Entry} {t : ArtTree} (e : Entry)
      → Made es t
      → e.key ≢ 0
      → e.key < 2 ^ 64
      → find e.key es ≡ none
      → length es + 1 < 2 ^ 64
      → Made (e ∷ es) (art_insert_no_replace false t e).0
  deleted :
      {es : List Entry} {t : ArtTree} (key : ℕ)
      → Made es t
      → key ≢ 0
      → key < 2 ^ 64
      → Made (without key es) (art_delete t key).0

find-without :
    (k key : ℕ) (es : List Entry) → find k (without key es) ≡ (if key == k then none else find k es)
unfolding find
find-without k key [] = elim (Bool-cases (key == k)) [ inl q ↦ rw q refl | inr q ↦ rw q refl ]
find-without k key (e ∷ es) =
    let ih = find-without k key es in
    elim (ℕ_discrete e.key key) [
      | yes a ↦ elim (ℕ_discrete key k) [
        | yes b ↦ ground (arith, a, b, ih)
        | no b ↦ ground (arith, a, b, ih)
      ]
      | no a ↦ elim (ℕ_discrete key k) [
        | yes b ↦ ground (arith, a, b, ih)
        | no b ↦ ground (arith, a, b, ih)
      ]
    ]

without-Fresh : (key : ℕ) (es : List Entry) → Fresh es → Fresh (without key es)
without-Fresh key [] f = tt
without-Fresh key (e ∷ es) f = elim (Bool-cases (e.key == key)) [
  | inl q ↦ rw q (without-Fresh key es f.3)
  | inr q ↦ rw q (
    f.0,
    f.1,
    find-without e.key key es
        ∙ rw f.2 (elim (Bool-cases (key == e.key)) [ inl z ↦ rw z refl | inr z ↦ rw z refl ]),
    without-Fresh key es f.3,
  )
]

abbrev held : Option ℕ → ℕ
held none = 0
held (some x) = 1

length-without :
    (key : ℕ) (es : List Entry)
    → Fresh es
    → length (without key es) + held (find key es) ≡ length es
unfolding find
length-without key [] f = refl
length-without key (e ∷ es) f =
    let ih = length-without key es f.3 in
    elim (ℕ_discrete e.key key) [
      | yes q ↦
          let gone : find key es ≡ none = ap (λ k. find k es) (sym q) ∙ f.2 in
          ground (arith, q, ih, gone)
      | no q ↦ ground (arith, q, ih)
    ]

-- A well-formed tree that counts and holds the pairs of the list.
abbrev pub IsTreeOf : List Entry → ArtTree → Type 0
IsTreeOf es t =
    IsTree t.root 0 (λ _. 0)
    × IsPlain t.root
    × (t.size ≡ length es)
    × Fresh es
    × (length es < 2 ^ 64)
    × ((k : ℕ) → k ≢ 0 → k < 2 ^ 64 → lookup t.root k 0 ≡ find k es)

empty-IsTreeOf : IsTreeOf [] empty_tree
unfolding find lookup
empty-IsTreeOf = (tt, tt, refl, tt, omega arith, λ k n w. refl)

inserted-IsTreeOf :
    (es : List Entry) (t : ArtTree) (e : Entry)
    → IsTreeOf es t
    → e.key ≢ 0
    → e.key < 2 ^ 64
    → find e.key es ≡ none
    → length es + 1 < 2 ^ 64
    → IsTreeOf (e ∷ es) (art_insert_no_replace false t e).0
unfolding art_insert_no_replace find
inserted-IsTreeOf es t e v n w new room =
    let unheld = v.5 e.key n w ∙ new in
    let r = insert_lem false t.root e 0 (λ _. 0) v.0 n w (λ i l. absurd (omega arith)) unheld in
    (
      r.0.0,
      insert-IsPlain false t.root e 0 (λ _. 0) v.0 v.1 n w (λ i l. absurd (omega arith)) unheld,
      rw r.1 (omega (arith, v.2, room)),
      (n, w, new, v.3),
      omega (arith, room),
      λ k a b. r.0.2 k a b ∙ ap (λ o. if e.key == k then some e.value else o) (v.5 k a b),
    )

-- The counter of art_delete.
fewer :
    (size : ℕ) (o : Option ℕ)
    → held o + size < 2 ^ 64 + held o
    → (x : ℕ) → x + held o ≡ size
    → (if is_there o then u64 (size + 2 ^ 64 - 1) else size) ≡ x
fewer size none l x e = omega (arith, e)
fewer size (some y) l x e = omega (arith, e, l)

deleted-IsTreeOf :
    (es : List Entry) (t : ArtTree) (key : ℕ)
    → IsTreeOf es t
    → key ≢ 0
    → key < 2 ^ 64
    → IsTreeOf (without key es) (art_delete t key).0
unfolding art_delete
deleted-IsTreeOf es t key v n w =
    let r = recursive_delete_lem t.root key 0 (λ _. 0) v.0 v.1 n in
    let old : (recursive_delete t.root key 0).found ≡ is_there (find key es) =
      recursive_delete-lookup t.root key 0 ∙ ap is_there (v.5 key n w) in
    let count = length-without key es v.3 in
    (
      r.0.0,
      r.1,
      rw (art_delete, old)
          (fewer t.size (find key es) (omega (arith, v.2, v.4)) (length (without key es))
            (count ∙ sym v.2)),
      without-Fresh key es v.3,
      omega (arith, count, v.4),
      λ k a b.
          r.0.1 k a b
          ∙ ap (λ o. if key == k then none else o) (v.5 k a b)
          ∙ sym (find-without k key es),
    )

-- Whatever new keys other than 0, none of MEM_TYPE, are inserted by art_insert_no_replace into an
-- empty tree and whatever keys other than 0 are deleted by art_delete, in any order, the tree is
-- well-formed, counts its pairs, and a search for any key other than 0 reads what the list of the
-- pairs has for it; all keys are 64-bit words.
pub Made-IsTreeOf : {es : List Entry} {t : ArtTree} → Made es t → IsTreeOf es t
Made-IsTreeOf made_empty = empty-IsTreeOf
Made-IsTreeOf (inserted {es} {t} e s n w new room) =
    inserted-IsTreeOf es t e (Made-IsTreeOf s) n w new room
Made-IsTreeOf (deleted {es} {t} key s n w) = deleted-IsTreeOf es t key (Made-IsTreeOf s) n w
