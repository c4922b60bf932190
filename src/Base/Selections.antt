-- ===== src/Base/Selections.antt =====
-- `Array.prototype.filter` and `slice`, and what a selection keeps of a list.
use Prim.Native.Nat.{ℕ, zero, suc}
use mathlib.Core.Path.{◌≡◌, refl}
use mathlib.Core.Logic.{inl, inr}
use mathlib.Core.Bool.{Bool, true, false}
use mathlib.Core.List.{List, [], ◌∷◌, ◌++◌}
use native.Mathlib.Omega.{arith}
use knowledger.Base.Tests.{if◌then◌else◌, Bool-cases}
use knowledger.Base.Lists.{All}

module _ {ℓ} {A : Type ℓ} where
  unfoldable pub filter : (A → Bool) → List A → List A
  filter p [] = []
  filter p (x ∷ xs) = let rest = filter p xs in if p x then x ∷ rest else rest

  unfoldable pub take : ℕ → List A → List A
  take zero xs = []
  take (suc n) [] = []
  take (suc n) (x ∷ xs) = x ∷ take n xs

  unfoldable pub drop : ℕ → List A → List A
  drop zero xs = xs
  drop (suc n) [] = []
  drop (suc n) (x ∷ xs) = drop n xs

  pub filter-keeps :
      (p : A → Bool) (x : A) (xs : List A) → p x ≡ true → filter p (x ∷ xs) ≡ (x ∷ filter p xs)
  unfolding filter
  filter-keeps p x xs h = ground arith

  pub filter-skips :
      (p : A → Bool) (x : A) (xs : List A) → p x ≡ false → filter p (x ∷ xs) ≡ filter p xs
  unfolding filter
  filter-skips p x xs h = ground arith

  pub filter-All {κ} :
      (P : A → Type κ) (p : A → Bool) (xs : List A) → All P xs → All P (filter p xs)
  unfolding filter
  filter-All P p [] hs = tt
  filter-All P p (x ∷ xs) hs = elim (Bool-cases (p x)) [
    | inl e ↦ rw e (hs.0, filter-All P p xs hs.1)
    | inr e ↦ rw e (filter-All P p xs hs.1)
  ]

  -- What passes the test is kept.
  pub filter-passed : (p : A → Bool) (xs : List A) → All (λ x. p x ≡ true) (filter p xs)
  unfolding filter
  filter-passed p [] = tt
  filter-passed p (x ∷ xs) = elim (Bool-cases (p x)) [
    | inl e ↦ rw e (e, filter-passed p xs)
    | inr e ↦ rw e (filter-passed p xs)
  ]

  pub filter-append :
      (p : A → Bool) (xs ys : List A) → filter p (xs ++ ys) ≡ filter p xs ++ filter p ys
  unfolding filter
  filter-append p [] ys = refl
  filter-append p (x ∷ xs) ys = ground (arith, filter-append p xs ys)

  pub filter-none : (p : A → Bool) (xs : List A) → All (λ x. p x ≡ false) xs → filter p xs ≡ []
  unfolding filter
  filter-none p [] hs = refl
  filter-none p (x ∷ xs) hs = ground (arith, filter-none p xs hs.1)

  -- A selection that drops only what the second one drops does not change the second one.
  pub filter-filter :
      (p q : A → Bool) (xs : List A)
      → All (λ x. q x ≡ false → p x ≡ false) xs
      → filter p (filter q xs) ≡ filter p xs
  unfolding filter
  filter-filter p q [] hs = refl
  filter-filter p q (x ∷ xs) hs = elim (Bool-cases (q x)) [
    | inl e ↦ ground (arith, filter-filter p q xs hs.1)
    | inr e ↦ ground (arith, filter-filter p q xs hs.1, hs.0 e)
  ]
