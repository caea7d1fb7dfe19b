-- ===== src/Base/Lists.antt =====
-- Lists measured by native numbers, under the library's names, and predicates by recursion.
use Prim.Native.Nat.{ℕ, zero, suc, ◌+◌, ◌≤◌}
use mathlib.Core.Path.{◌≡◌, refl, ap}
use mathlib.Core.List.{List, [], ◌∷◌, ◌++◌}
use native.Mathlib.Omega.{arith}

module _ {ℓ} {A : Type ℓ} where
  abbrev pub length : List A → ℕ
  length [] = 0
  length (_ ∷ xs) = suc (length xs)

  abbrev pub take : ℕ → List A → List A
  take zero _ = []
  take (suc n) [] = []
  take (suc n) (x ∷ xs) = x ∷ take n xs

  abbrev pub All {κ} : (A → Type κ) → List A → Type κ
  All P [] = Unit
  All P (x ∷ xs) = P x × All P xs

  pub length-take-le : (k : ℕ) (l : List A) → length (take k l) ≤ k
  length-take-le zero l = omega arith
  length-take-le (suc k) [] = omega arith
  length-take-le (suc k) (a ∷ l) = omega (arith, length-take-le k l)

  -- A prefix as long as the list is the list.
  pub take_of_length-le : (k : ℕ) (l : List A) → length l ≤ k → take k l ≡ l
  take_of_length-le (suc k) (a ∷ l) short =
      let rest = take_of_length-le k l (omega arith) in rw rest
  take_of_length-le zero (a ∷ l) short = elim short [ ]
  take_of_length-le (suc k) [] _ = refl
  take_of_length-le zero [] _ = refl

  pub length-append : (xs ys : List A) → length (xs ++ ys) ≡ length xs + length ys
  length-append (_ ∷ xs) ys = omega (arith, length-append xs ys)
  length-append [] ys = omega arith

-- Two ways to split a list, with first parts of the same length.
pub same_split {ℓ} :
    {A : Type ℓ} (xs ys xs' ys' : List A)
    → length xs ≡ length xs'
    → xs ++ ys ≡ xs' ++ ys'
    → ys ≡ ys'
same_split [] ys [] ys' n e = e
same_split [] ys (x ∷ xs') ys' n e = absurd (omega (arith, n))
same_split (x ∷ xs) ys [] ys' n e = absurd (omega (arith, n))
same_split (x ∷ xs) ys (x' ∷ xs') ys' n e = same_split xs ys xs' ys' (omega (arith, n)) cc

pub split_at {ℓ} :
    {A : Type ℓ} (n : ℕ) (l : List A)
    → n ≤ length l
    → (xs : List A) × (ys : List A) × (l ≡ xs ++ ys) × (length xs ≡ n)
split_at zero l le = ([], l, refl, refl)
split_at (suc n) [] le = absurd (omega (arith, le))
split_at (suc n) (x ∷ l) le =
    let (xs, ys, e, k) = split_at n l (omega (arith, le)) in
    (x ∷ xs, ys, ap (λ r. x ∷ r) e, omega (arith, k))

pub length_zero {ℓ} : {A : Type ℓ} (l : List A) → length l ≡ 0 → l ≡ []
length_zero [] n = refl
length_zero (x ∷ l) n = absurd (omega (arith, n))
