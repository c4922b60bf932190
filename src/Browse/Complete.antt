-- ===== src/Browse/Complete.antt =====
-- The lists of a kind of references hold all that the map by keys holds, also after `mergeDelta` of
-- packages/storage/browse-index.ts.
use Prim.Native.Nat.{Ordering}
use knowledger.Base.{
  ◌≡◌, sym, ap, ◌∙◌, subst, ◌⊎◌, inl, inr, Bool, true, false, List, [], ◌∷◌, ◌++◌, Option, none,
  some, Text, text_eq, text_eq→eq, if◌then◌else◌, All, any, filter, Bool-cases, some_eq,
}
use knowledger.Browse.Sort.{is_after, insert, sort, last_before, prepend_latest}
use knowledger.Browse.Refs.{RefKind}
use knowledger.Browse.Merge.{has_key, keep, merge_all, set_all, delete_all, merge_by_key}

module _ {A : Type 0} where
  abbrev pub In : A → List A → Type 0
  In c [] = ⊥
  In c (x ∷ xs) = (c ≡ x) ⊎ In c xs

  pub In-All : (P : A → Type 0) (c : A) (xs : List A) → In c xs → All P xs → P c
  In-All P c [] m hs = absurd m
  In-All P c (x ∷ xs) (inl e) hs = subst P (sym e) hs.0
  In-All P c (x ∷ xs) (inr m) hs = In-All P c xs m hs.1

  In-append_left : (c : A) (xs ys : List A) → In c xs → In c (xs ++ ys)
  In-append_left c [] ys m = absurd m
  In-append_left c (x ∷ xs) ys (inl e) = inl e
  In-append_left c (x ∷ xs) ys (inr m) = inr (In-append_left c xs ys m)

  In-append_right : (c : A) (xs ys : List A) → In c ys → In c (xs ++ ys)
  In-append_right c [] ys m = m
  In-append_right c (x ∷ xs) ys m = inr (In-append_right c xs ys m)

  pub In-filter : (p : A → Bool) (c : A) (xs : List A) → In c xs → p c ≡ true → In c (filter p xs)
  unfolding filter
  In-filter p c [] m h = absurd m
  In-filter p c (x ∷ xs) (inl e) h =
      subst (λ b. In c (if b then x ∷ filter p xs else filter p xs)) (sym (ap p (sym e) ∙ h))
        (inl e)
  In-filter p c (x ∷ xs) (inr m) h = elim (Bool-cases (p x)) [
    | inl k ↦ rw k (inr (In-filter p c xs m h))
    | inr k ↦ rw k (In-filter p c xs m h)
  ]

  module _ (compare : A → A → Ordering) where
    In-insert : (c x : A) (xs : List A) → (c ≡ x) ⊎ In c xs → In c (insert compare x xs)
    unfolding insert
    In-insert c x [] m = m
    In-insert c x (y ∷ ys) m = elim (Bool-cases (is_after (compare x y))) [
      | inr k ↦ rw k m
      | inl k ↦ rw k (elim m [
        | inl e ↦ inr (In-insert c x ys (inl e))
        | inr (inl e) ↦ inl e
        | inr (inr rest) ↦ inr (In-insert c x ys (inr rest))
      ])
    ]

    In-sort : (c : A) (xs : List A) → In c xs → In c (sort compare xs)
    unfolding sort
    In-sort c [] m = m
    In-sort c (x ∷ xs) (inl e) = In-insert c x (sort compare xs) (inl e)
    In-sort c (x ∷ xs) (inr m) = In-insert c x (sort compare xs) (inr (In-sort c xs m))

    In-prepend :
        (c : A) (added existing : List A)
        → In c added ⊎ In c existing
        → In c (prepend_latest compare added existing)
    unfolding prepend_latest
    In-prepend c [] existing (inl m) = absurd m
    In-prepend c [] existing (inr m) = m
    In-prepend c (x ∷ added) [] (inl m) = m
    In-prepend c (x ∷ added) [] (inr m) = absurd m
    In-prepend c (x ∷ added) (y ∷ existing) m =
        let both : In c (x ∷ added ++ y ∷ existing) = elim m [
          | inl h ↦ In-append_left c (x ∷ added) (y ∷ existing) h
          | inr h ↦ In-append_right c (x ∷ added) (y ∷ existing) h
        ] in
        elim (Bool-cases (last_before compare (x ∷ added) y)) [
          | inl k ↦ rw k both
          | inr k ↦ rw k (In-sort c (x ∷ added ++ y ∷ existing) both)
        ]

module _ {R : Type 0} (kind : RefKind R) where
  -- Each reference of the map stands under its key, and in the list.
  abbrev pub IsListed : (Text → Option R) → List R → Type 0
  IsListed by_key items = (k : Text) (r : R) → by_key k ≡ some r → (kind.key_of r ≡ k) × In r items

  none_is_not_some : {r : R} → none ≡ some r → ⊥
  none_is_not_some h = cc

  set_all-found :
      (refs : List R) (m : Text → Option R) (k : Text) (r : R)
      → set_all kind refs m k ≡ some r
      → ((kind.key_of r ≡ k) × In r refs) ⊎ (m k ≡ some r)
  unfolding set_all
  set_all-found [] m k r h = inr h
  set_all-found (x ∷ xs) m k r h =
      elim (set_all-found xs (λ j. if text_eq (kind.key_of x) j then some x else m j) k r h) [
        | inl found ↦ inl (found.0, inr found.1)
        | inr held ↦ elim (Bool-cases (text_eq (kind.key_of x) k)) [
          | inr e ↦ inr (rw e at held)
          | inl e ↦
              let same : x ≡ r = some_eq (rw e at held) in
              inl (ap kind.key_of (sym same) ∙ text_eq→eq (kind.key_of x) k e, inl (sym same))
        ]
      ]

  kept-IsListed :
      (gone : List R) (k : Text) (r : R)
      → kind.key_of r ≡ k
      → any (has_key kind k) gone ≡ false
      → keep kind gone r ≡ true
  unfolding keep
  kept-IsListed gone k r same h = rw (same, h)

  pub merge_all-IsListed :
      (added gone items : List R) (by_key : Text → Option R)
      → IsListed by_key items
      → IsListed (merge_by_key kind added gone by_key) (merge_all kind added gone items)
  unfolding merge_by_key merge_all delete_all
  merge_all-IsListed added gone items by_key listed k r h =
      elim (set_all-found (sort kind.compare (added ++ gone)) (delete_all kind gone by_key) k r h) [
        | inl found ↦ (
          found.0,
          In-prepend kind.compare r (sort kind.compare (added ++ gone))
              (filter (keep kind gone) items) (inl found.1),
        )
        | inr held ↦ elim (Bool-cases (any (has_key kind k) gone)) [
          | inl e ↦ absurd (none_is_not_some (rw e at held))
          | inr e ↦
              let old = listed k r (rw e at held) in
              (
                old.0,
                In-prepend kind.compare r (sort kind.compare (added ++ gone))
                    (filter (keep kind gone) items)
                    (inr
                      (In-filter (keep kind gone) r items old.1 (kept-IsListed gone k r old.0 e))),
              )
        ]
      ]
