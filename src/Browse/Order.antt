-- ===== src/Browse/Order.antt =====
-- A sort by a consistent comparator sorts, and moves nothing that a selection keeps.
use Prim.Native.Nat.{Ordering}
use knowledger.Base.{
  ◌≡◌, refl, sym, subst, inl, inr, Bool, true, false, List, [], ◌∷◌, ◌++◌, All, All-map, All-append,
  Bool-cases, filter, filter-append, filter-none, filter-All, arith,
}
use knowledger.Browse.Sort.{is_before, is_after, flip, insert, sort, last_before, prepend_latest}

-- A consistent comparator: the answer flips with the arguments, and not-after is transitive.
pub record IsOrder {ℓ} {A : Type ℓ} (compare : A → A → Ordering) : Type ℓ where
  pub flips : (x y : A) → compare y x ≡ flip (compare x y)
  pub chains :
      (x y z : A)
      → is_after (compare x y) ≡ false
      → is_after (compare y z) ≡ false
      → is_after (compare x z) ≡ false

flip-is_after : (o : Ordering) → is_after o ≡ true → is_after (flip o) ≡ false
unfolding is_after flip
flip-is_after Ordering.lt h = cc
flip-is_after Ordering.eq h = cc
flip-is_after Ordering.gt h = refl

before_is_not_after : (o : Ordering) → is_before o ≡ true → is_after o ≡ false
unfolding is_after is_before
before_is_not_after Ordering.lt h = refl
before_is_not_after Ordering.eq h = refl
before_is_not_after Ordering.gt h = cc

-- The predicate holds of what `insert`, `sort` and `prepend_latest` return when it holds of what
-- they take.
module _ {ℓ κ} {A : Type ℓ} (compare : A → A → Ordering) (P : A → Type κ) where
  pub insert-All : (x : A) (ys : List A) → P x → All P ys → All P (insert compare x ys)
  unfolding insert
  insert-All x [] h hs = (h, tt)
  insert-All x (y ∷ ys) h hs = elim (Bool-cases (is_after (compare x y))) [
    | inl e ↦ rw e (hs.0, insert-All x ys h hs.1)
    | inr e ↦ rw e (h, hs)
  ]

  pub sort-All : (xs : List A) → All P xs → All P (sort compare xs)
  unfolding sort
  sort-All [] hs = tt
  sort-All (x ∷ xs) hs = insert-All x (sort compare xs) hs.0 (sort-All xs hs.1)

  pub prepend-All :
      (added existing : List A)
      → All P added
      → All P existing
      → All P (prepend_latest compare added existing)
  unfolding prepend_latest
  prepend-All [] existing hs ks = ks
  prepend-All (x ∷ added) [] hs ks = hs
  prepend-All (x ∷ added) (y ∷ existing) hs ks =
      let both = All-append P (x ∷ added) (y ∷ existing) hs ks in
      elim (Bool-cases (last_before compare (x ∷ added) y)) [
        | inl e ↦ rw e both
        | inr e ↦ rw e (sort-All (x ∷ added ++ y ∷ existing) both)
      ]

module _ {ℓ} {A : Type ℓ} (compare : A → A → Ordering) where
  -- Nothing in the list comes after anything behind it.
  abbrev pub Sorted : List A → Type 0
  Sorted [] = Unit
  Sorted (x ∷ xs) = All (λ y. is_after (compare x y) ≡ false) xs × Sorted xs

  pub filter-Sorted : (p : A → Bool) (xs : List A) → Sorted xs → Sorted (filter p xs)
  unfolding filter
  filter-Sorted p [] hs = tt
  filter-Sorted p (x ∷ xs) hs = elim (Bool-cases (p x)) [
    | inl e ↦
        rw e (filter-All (λ y. is_after (compare x y) ≡ false) p xs hs.0, filter-Sorted p xs hs.1)
    | inr e ↦ rw e (filter-Sorted p xs hs.1)
  ]

  -- A sorted list is left as it is.
  pub sort-Sorted_eq : (xs : List A) → Sorted xs → sort compare xs ≡ xs
  unfolding sort insert
  sort-Sorted_eq [] hs = refl
  sort-Sorted_eq (x ∷ []) hs = refl
  sort-Sorted_eq (x ∷ y ∷ xs) hs = rw (sort-Sorted_eq (y ∷ xs) hs.1, hs.0.0)

  -- A selection does not see an inserted item that it drops.
  filter-insert :
      (p : A → Bool) (x : A) (ys : List A)
      → p x ≡ false
      → filter p (insert compare x ys) ≡ filter p ys
  unfolding filter insert
  filter-insert p x [] h = ground arith
  filter-insert p x (y ∷ ys) h = ground (arith, filter-insert p x ys h)

  filter-sort_append :
      (p : A → Bool) (added existing : List A)
      → All (λ x. p x ≡ false) added
      → filter p (sort compare (added ++ existing)) ≡ filter p (sort compare existing)
  unfolding sort
  filter-sort_append p [] existing hs = refl
  filter-sort_append p (x ∷ added) existing hs =
      rw (filter-insert p x (sort compare (added ++ existing)) hs.0)
        (filter-sort_append p added existing hs.1)

  -- A selection that drops all that is added does not see the addition.
  pub filter-prepend :
      (p : A → Bool) (added existing : List A)
      → All (λ x. p x ≡ false) added
      → Sorted existing
      → filter p (prepend_latest compare added existing) ≡ filter p existing
  unfolding prepend_latest filter
  filter-prepend p [] existing hs sorted = refl
  filter-prepend p (x ∷ added) [] hs sorted = filter-none p (x ∷ added) hs
  filter-prepend p (x ∷ added) (y ∷ existing) hs sorted =
      elim (Bool-cases (last_before compare (x ∷ added) y)) [
        | inl e ↦ rw (e, filter-append p (x ∷ added) (y ∷ existing), filter-none p (x ∷ added) hs)
        | inr e ↦ rw (
          e,
          filter-sort_append p (x ∷ added) (y ∷ existing) hs,
          sort-Sorted_eq (y ∷ existing) sorted,
        )
      ]

  module _ (order : IsOrder compare) where
    insert-Sorted : (x : A) (ys : List A) → Sorted ys → Sorted (insert compare x ys)
    unfolding insert
    insert-Sorted x [] hs = (tt, tt)
    insert-Sorted x (y ∷ ys) hs = elim (Bool-cases (is_after (compare x y))) [
      | inl e ↦ rw e (
        insert-All compare (λ z. is_after (compare y z) ≡ false) x ys
            (subst (λ o. is_after o ≡ false) (sym (order.flips x y))
              (flip-is_after (compare x y) e))
            hs.0,
        insert-Sorted x ys hs.1,
      )
      | inr e ↦ rw e ((e, All-map (λ z h. order.chains x y z e h) ys hs.0), hs)
    ]

    pub sort-Sorted : (xs : List A) → Sorted (sort compare xs)
    unfolding sort
    sort-Sorted [] = tt
    sort-Sorted (x ∷ xs) = insert-Sorted x (sort compare xs) (sort-Sorted xs)

    -- Nothing before the last comes after it.
    append-Sorted :
        (x : A) (added : List A) (y : A) (existing : List A)
        → Sorted (x ∷ added)
        → Sorted (y ∷ existing)
        → last_before compare (x ∷ added) y ≡ true
        → Sorted (x ∷ added ++ y ∷ existing)
    unfolding last_before
    append-Sorted x [] y existing hs ks h =
        let first = before_is_not_after (compare x y) h in
        ((first, All-map (λ z k. order.chains x y z first k) existing ks.0), ks)
    append-Sorted x (z ∷ added) y existing hs ks h =
        let rest = append-Sorted z added y existing hs.1 ks h in
        (
          (hs.0.0, All-map (λ w k. order.chains x z w hs.0.0 k) (added ++ y ∷ existing) rest.0),
          rest,
        )

    pub prepend-Sorted :
        (added existing : List A)
        → Sorted added
        → Sorted existing
        → Sorted (prepend_latest compare added existing)
    unfolding prepend_latest
    prepend-Sorted [] existing hs ks = ks
    prepend-Sorted (x ∷ added) [] hs ks = hs
    prepend-Sorted (x ∷ added) (y ∷ existing) hs ks =
        elim (Bool-cases (last_before compare (x ∷ added) y)) [
          | inl e ↦ rw e (append-Sorted x added y existing hs ks e)
          | inr e ↦ rw e (sort-Sorted (x ∷ added ++ y ∷ existing))
        ]
