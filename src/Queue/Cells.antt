-- ===== src/Queue/Cells.antt =====
-- Lists cut at an index: what `take`, `drop` and a write at the cut have to do with one another.
use hetero_indexing.Prelude.{
  ℕ, zero, suc, ◌+◌, ◌≤◌, ◌<◌, ◌≡◌, refl, ap, sym, ◌∙◌, List, [], ◌∷◌, ◌++◌, arith, take, drop,
  length, set, get_or, length-append, length-take, length-drop,
}
use hetero_indexing.Queue.{copy}
use mathlib.Core.List.{append_assoc}

module _ {A : Type 0} where
  pub take_all : (n : ℕ) (xs : List A) → length xs ≤ n → take n xs ≡ xs
  take_all zero [] h = refl
  take_all zero (x ∷ xs) h = absurd (omega arith)
  take_all (suc n) [] h = refl
  take_all (suc n) (x ∷ xs) h = ap (λ t. x ∷ t) (take_all n xs (omega arith))

  -- The cells of a first part, read through the whole.
  pub take-append : (n : ℕ) (xs ys : List A) → n ≤ length xs → take n (xs ++ ys) ≡ take n xs
  take-append zero xs ys h = refl
  take-append (suc n) [] ys h = absurd (omega arith)
  take-append (suc n) (x ∷ xs) ys h = ap (λ t. x ∷ t) (take-append n xs ys (omega arith))

  pub drop-set : (xs : List A) (i n : ℕ) (v : A) → i < n → drop n (set xs i v) ≡ drop n xs
  drop-set [] i n v h = refl
  drop-set (x ∷ xs) i zero v h = absurd (omega arith)
  drop-set (x ∷ xs) zero (suc n) v h = refl
  drop-set (x ∷ xs) (suc i) (suc n) v h = drop-set xs i n v (omega arith)

  -- A write just behind the first `i` cells extends them.
  pub take-set :
      (xs : List A) (i : ℕ) (v : A)
      → i < length xs
      → take (suc i) (set xs i v) ≡ take i xs ++ (v ∷ [])
  take-set [] i v h = absurd (omega arith)
  take-set (x ∷ xs) zero v h = refl
  take-set (x ∷ xs) (suc i) v h = ap (λ t. x ∷ t) (take-set xs i v (omega arith))

  pub drop-set_above :
      (xs : List A) (f n : ℕ) (v : A) → drop f (set xs (f + n) v) ≡ set (drop f xs) n v
  drop-set_above xs zero n v = ap (λ t. set xs t v) (omega arith)
  drop-set_above [] (suc f) n v = refl
  drop-set_above (x ∷ xs) (suc f) n v =
      let e : suc f + n ≡ suc (f + n) = omega arith in rw e (drop-set_above xs f n v)

  -- The first cell behind a cut.
  pub drop-cons :
      (xs : List A) (f : ℕ) (d : A) → f < length xs → drop f xs ≡ get_or xs f d ∷ drop (suc f) xs
  drop-cons [] f d h = absurd (omega arith)
  drop-cons (x ∷ xs) zero d h = refl
  drop-cons (x ∷ xs) (suc f) d h = drop-cons xs f d (omega arith)

  pub drop_all : (xs : List A) (n : ℕ) → length xs ≤ n → drop n xs ≡ []
  drop_all [] zero h = refl
  drop_all [] (suc n) h = refl
  drop_all (x ∷ xs) zero h = absurd (omega arith)
  drop_all (x ∷ xs) (suc n) h = drop_all xs n (omega arith)

-- What a copy leaves in the cells up to its end.
pub take-copy :
    (dst : List ℕ) (at n : ℕ) (from : List ℕ)
    → n ≤ at + length from
    → at ≤ length dst
    → take n (copy dst at from) ≡ take n (take at dst ++ from)
unfolding copy
take-copy dst at n from e h =
    ap (take n) (sym (append_assoc (take at dst) from _))
    ∙ take-append n (take at dst ++ from) _
        (omega (arith, length-append (take at dst) from, length-take at dst))

pub length-copy :
    (dst : List ℕ) (at : ℕ) (from : List ℕ)
    → at + length from ≤ length dst
    → length (copy dst at from) ≡ length dst
unfolding copy
length-copy dst at from h = omega (
  arith,
  length-append (take at dst) (from ++ drop (at + length from) dst),
  length-append from (drop (at + length from) dst),
  length-take at dst,
  length-drop (at + length from) dst,
)
