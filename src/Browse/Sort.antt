-- ===== src/Browse/Sort.antt =====
-- `Array.prototype.sort` with a comparator, and `prependLatest` of packages/storage/browse-index.ts.
-- The standard sort is stable, so that a consistent comparator determines its result: it is the one
-- of the insertion sort.
use Prim.Native.Nat.{Ordering}
use knowledger.Base.{Bool, true, false, List, [], ◌∷◌, ◌++◌, if◌then◌else◌}

-- A comparator's answer: negative, zero or positive.
unfoldable pub is_before : Ordering → Bool
is_before Ordering.lt = true
is_before Ordering.eq = false
is_before Ordering.gt = false

unfoldable pub is_after : Ordering → Bool
is_after Ordering.lt = false
is_after Ordering.eq = false
is_after Ordering.gt = true

unfoldable pub flip : Ordering → Ordering
flip Ordering.lt = Ordering.gt
flip Ordering.eq = Ordering.eq
flip Ordering.gt = Ordering.lt

-- `first || second`, of two answers
unfoldable pub or_else : Ordering → Ordering → Ordering
or_else Ordering.lt second = Ordering.lt
or_else Ordering.eq second = second
or_else Ordering.gt second = Ordering.gt

module _ {ℓ} {A : Type ℓ} (compare : A → A → Ordering) where
  unfoldable pub insert : A → List A → List A
  insert x [] = x ∷ []
  insert x (y ∷ ys) =
      let rest = insert x ys in if is_after (compare x y) then y ∷ rest else x ∷ y ∷ ys

  unfoldable pub sort : List A → List A
  sort [] = []
  sort (x ∷ xs) = insert x (sort xs)

  unfoldable pub last_before : List A → A → Bool
  last_before [] y = false
  last_before (x ∷ []) y = is_before (compare x y)
  last_before (x ∷ z ∷ xs) y = last_before (z ∷ xs) y

  unfoldable pub prepend_latest : List A → List A → List A
  prepend_latest [] existing = existing
  prepend_latest (x ∷ added) [] = x ∷ added
  prepend_latest (x ∷ added) (y ∷ existing) =
      if last_before (x ∷ added) y
      then x ∷ added ++ y ∷ existing
      else sort (x ∷ added ++ y ∷ existing)
