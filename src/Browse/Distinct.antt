-- ===== src/Browse/Distinct.antt =====
-- The keys of the references that `prepare` collects are distinct, and so are those that `commit`
-- merges.
use knowledger.Base.{
  ◌≡◌, refl, sym, ap, ◌∙◌, subst, ◌≢◌, inl, inr, Bool, true, false, List, [], ◌∷◌, ◌++◌, map,
  Option, none, some, Text, text_eq, text_eq_refl, text_eq→eq, All, All-map, All-append, find,
  filter, filter-All, Bool-cases, Option-cases,
}
use knowledger.Fault.{ok, thrown_error, require, >>=-eq-ok, ok_eq}
use knowledger.Browse.Sort.{insert, sort, is_after}
use knowledger.Browse.Order.{insert-All, sort-All}
use knowledger.Browse.Refs.{RefKind, Checkpoint}
use knowledger.Browse.Merge.{
  Changes, has_key, lookup, precedes, note_demote, lower, precedes_any, revise, record_with,
  record_ref,
}

pub map-All {ℓ κ} :
    {A B : Type ℓ} (P : B → Type κ) (f : A → B) (xs : List A)
    → All (λ x. P (f x)) xs
    → All P (map f xs)
map-All P f [] hs = tt
map-All P f (x ∷ xs) hs = (hs.0, map-All P f xs hs.1)

true_is_not_false : true ≡ false → ⊥
true_is_not_false k = cc

pub text_eq-false : (a b : Text) → text_eq a b ≡ false → a ≢ b
text_eq-false a b h e =
    true_is_not_false (sym (text_eq_refl b) ∙ subst (λ t. text_eq t b ≡ false) e h)

module _ {R : Type 0} (kind : RefKind R) where
  abbrev pub Distinct : List R → Type 0
  Distinct [] = Unit
  Distinct (x ∷ xs) = All (λ y. kind.key_of y ≢ kind.key_of x) xs × Distinct xs

  pub Distinct-append :
      (xs ys : List R)
      → Distinct xs
      → Distinct ys
      → All (λ x. All (λ y. kind.key_of y ≢ kind.key_of x) ys) xs
      → Distinct (xs ++ ys)
  Distinct-append [] ys hs ks apart = ks
  Distinct-append (x ∷ xs) ys hs ks apart = (
    All-append (λ y. kind.key_of y ≢ kind.key_of x) xs ys hs.0 apart.0,
    Distinct-append xs ys hs.1 ks apart.1,
  )

  pub filter-Distinct : (p : R → Bool) (xs : List R) → Distinct xs → Distinct (filter p xs)
  unfolding filter
  filter-Distinct p [] hs = tt
  filter-Distinct p (x ∷ xs) hs = elim (Bool-cases (p x)) [
    | inl e ↦
        rw e (filter-All (λ y. kind.key_of y ≢ kind.key_of x) p xs hs.0, filter-Distinct p xs hs.1)
    | inr e ↦ rw e (filter-Distinct p xs hs.1)
  ]

  insert-Distinct :
      (x : R) (xs : List R)
      → All (λ y. kind.key_of y ≢ kind.key_of x) xs
      → Distinct xs
      → Distinct (insert kind.compare x xs)
  unfolding insert
  insert-Distinct x [] hs ks = (tt, tt)
  insert-Distinct x (y ∷ ys) hs ks = elim (Bool-cases (is_after (kind.compare x y))) [
    | inl e ↦ rw e (
      insert-All kind.compare (λ z. kind.key_of z ≢ kind.key_of y) x ys (λ h. hs.0 (sym h)) ks.0,
      insert-Distinct x ys hs.1 ks.1,
    )
    | inr e ↦ rw e (hs, ks)
  ]

  pub sort-Distinct : (xs : List R) → Distinct xs → Distinct (sort kind.compare xs)
  unfolding sort
  sort-Distinct [] hs = tt
  sort-Distinct (x ∷ xs) hs =
      insert-Distinct x (sort kind.compare xs)
        (sort-All kind.compare (λ y. kind.key_of y ≢ kind.key_of x) xs hs.0) (sort-Distinct xs hs.1)

  found_is_not_none : {a : R} → some a ≡ none → ⊥
  found_is_not_none h = cc

  -- What is not found has another key.
  lookup-apart :
      (key : Text) (xs : List R) → lookup kind key xs ≡ none → All (λ y. kind.key_of y ≢ key) xs
  unfolding lookup has_key find
  lookup-apart key [] h = tt
  lookup-apart key (x ∷ xs) h = elim (Bool-cases (text_eq (kind.key_of x) key)) [
    | inl e ↦ absurd (found_is_not_none (rw e at h))
    | inr e ↦ (text_eq-false (kind.key_of x) key e, lookup-apart key xs (rw e at h))
  ]

  -- What `prepare` has collected against a state: distinct new references, and distinct candidates
  -- among the committed ones.
  abbrev pub IsReady : (Text → Option R) → Changes R → Type 0
  IsReady by_key c =
      (Distinct c.pending × All (λ r. by_key (kind.key_of r) ≡ none) c.pending)
      × Distinct c.demotions
      × All (λ r. (e : R) × (by_key (kind.key_of r) ≡ some e)) c.demotions

  -- What `commit` relies on, in whatever state it runs.
  abbrev pub IsApart : Changes R → Type 0
  IsApart c =
      Distinct c.pending
      × Distinct c.demotions
      × All (λ r. All (λ d. kind.key_of d ≢ kind.key_of r) c.demotions) c.pending

  module _
      (keeps : (c : Checkpoint) (r : R) → kind.key_of (kind.republish c r) ≡ kind.key_of r) where
    lower-key : (ref r : R) → kind.key_of (lower kind ref r) ≡ kind.key_of r
    unfolding lower
    lower-key ref r = elim (Bool-cases (has_key kind (kind.key_of ref) r)) [
      | inl e ↦ rw e (keeps (kind.published ref) r)
      | inr e ↦ rw e
    ]

    lower-Distinct : (ref : R) (xs : List R) → Distinct xs → Distinct (map (lower kind ref) xs)
    lower-Distinct ref [] hs = tt
    lower-Distinct ref (x ∷ xs) hs = (
      map-All (λ y. kind.key_of y ≢ kind.key_of (lower kind ref x)) (lower kind ref) xs
          (All-map {Q = λ y. kind.key_of (lower kind ref y) ≢ kind.key_of (lower kind ref x)}
            (λ y h. rw (lower-key ref y, lower-key ref x) h) xs hs.0),
      lower-Distinct ref xs hs.1,
    )

    -- The candidates keep their keys, but for that of the reference, which is then the last.
    note_demote-All :
        (P : Text → Type 0) (ref : R) (xs : List R)
        → P (kind.key_of ref)
        → All (λ y. P (kind.key_of y)) xs
        → All (λ y. P (kind.key_of y)) (note_demote kind ref xs)
    unfolding note_demote
    note_demote-All P ref [] h hs = (h, tt)
    note_demote-All P ref (x ∷ xs) h hs = elim (Bool-cases (has_key kind (kind.key_of ref) x)) [
      | inr e ↦ rw e (hs.0, note_demote-All P ref xs h hs.1)
      | inl e ↦
          rw e
            (elim (Bool-cases (precedes kind ref x)) [ inl k ↦ rw k (h, hs.1) | inr k ↦ rw k hs ])
    ]

    note_demote-Distinct :
        (ref : R) (xs : List R) → Distinct xs → Distinct (note_demote kind ref xs)
    unfolding note_demote has_key
    note_demote-Distinct ref [] hs = (tt, tt)
    note_demote-Distinct ref (x ∷ xs) hs =
        elim (Bool-cases (text_eq (kind.key_of x) (kind.key_of ref))) [
          | inr e ↦ rw e (
            note_demote-All (λ k. k ≢ kind.key_of x) ref xs
                (λ h. text_eq-false (kind.key_of x) (kind.key_of ref) e (sym h)) hs.0,
            note_demote-Distinct ref xs hs.1,
          )
          | inl e ↦ rw e (elim (Bool-cases (precedes kind ref x)) [
            | inl k ↦ rw k (
              subst (λ key. All (λ y. kind.key_of y ≢ key) xs)
                  (text_eq→eq (kind.key_of x) (kind.key_of ref) e) hs.0,
              hs.1,
            )
            | inr k ↦ rw k hs
          ])
        ]

    lower-All :
        (P : Text → Type 0) (ref : R) (xs : List R)
        → All (λ r. P (kind.key_of r)) xs
        → All (λ r. P (kind.key_of r)) (map (lower kind ref) xs)
    lower-All P ref xs hs =
        map-All (λ r. P (kind.key_of r)) (lower kind ref) xs
          (All-map {Q = λ r. P (kind.key_of (lower kind ref r))}
            (λ r h. subst P (sym (lower-key ref r)) h) xs hs)

    revise-IsReady :
        (by_key : Text → Option R) (pending : Option R) (c : Changes R) (ref : R)
        → IsReady by_key c
        → IsReady by_key (revise kind (by_key (kind.key_of ref)) pending c ref)
    unfolding revise precedes_any
    revise-IsReady by_key pending c ref ready = elim (Bool-cases (precedes_any kind ref pending)) [
      | inl e ↦ rw e (
        (
          lower-Distinct ref c.pending ready.0.0,
          lower-All (λ k. by_key k ≡ none) ref c.pending ready.0.1,
        ),
        ready.1,
        ready.2,
      )
      | inr e ↦ rw e (elim (Option-cases (by_key (kind.key_of ref))) [
        | inl absent ↦ rw absent ready
        | inr (held, found) ↦ elim (Bool-cases (precedes_any kind ref (by_key (kind.key_of ref)))) [
          | inl k ↦ rw k (
            ready.0,
            note_demote-Distinct ref c.demotions ready.1,
            note_demote-All (λ k. (e : R) × (by_key k ≡ some e)) ref c.demotions (held, found)
                ready.2,
          )
          | inr k ↦ rw k ready
        ]
      ])
    ]

    record_with-IsReady :
        (by_key : Text → Option R) (committed pending : Option R) (c : Changes R) (ref : R)
        {d : Changes R}
        → by_key (kind.key_of ref) ≡ committed
        → lookup kind (kind.key_of ref) c.pending ≡ pending
        → IsReady by_key c
        → record_with kind committed pending c ref ≡ ok d
        → IsReady by_key d
    unfolding record_with
    record_with-IsReady by_key none none c ref {d} fresh new ready h =
        subst (IsReady by_key) (ok_eq h) (
          (
            Distinct-append c.pending (ref ∷ []) ready.0.0 (tt, tt)
                (All-map {Q = λ y. All (λ z. kind.key_of z ≢ kind.key_of y) (ref ∷ [])}
                  (λ y k. (λ e. k (sym e), tt)) c.pending
                  (lookup-apart (kind.key_of ref) c.pending new)),
            All-append (λ r. by_key (kind.key_of r) ≡ none) c.pending (ref ∷ []) ready.0.1
                (fresh, tt),
          ),
          ready.1,
          ready.2,
        )
    record_with-IsReady by_key none (some p) c ref {d} fresh found ready h =
        let (u, checked, done) = >>=-eq-ok (require (kind.matches p ref) thrown_error) _ h in
        subst (IsReady by_key) (ok_eq done) (
          subst (λ o. IsReady by_key (revise kind o (some p) c ref)) fresh
            (revise-IsReady by_key (some p) c ref ready))
    record_with-IsReady by_key (some e) pending c ref {d} held found ready h =
        let (u, checked, done) = >>=-eq-ok (require (kind.matches e ref) thrown_error) _ h in
        subst (IsReady by_key) (ok_eq done) (
          subst (λ o. IsReady by_key (revise kind o pending c ref)) held
            (revise-IsReady by_key pending c ref ready))

    pub record_ref-IsReady :
        (by_key : Text → Option R) (c : Changes R) (ref : R) {d : Changes R}
        → IsReady by_key c
        → record_ref kind by_key c ref ≡ ok d
        → IsReady by_key d
    unfolding record_ref
    record_ref-IsReady by_key c ref ready h =
        record_with-IsReady by_key (by_key (kind.key_of ref))
          (lookup kind (kind.key_of ref) c.pending) c ref refl refl ready h

  pub IsReady-IsApart : (by_key : Text → Option R) (c : Changes R) → IsReady by_key c → IsApart c
  IsReady-IsApart by_key c ready = (
    ready.0.0,
    ready.1,
    All-map {Q = λ r. All (λ d. kind.key_of d ≢ kind.key_of r) c.demotions}
        (λ r absent.
          All-map {Q = λ d. kind.key_of d ≢ kind.key_of r}
            (λ d held e. found_is_not_none (sym held.1 ∙ ap by_key e ∙ absent)) c.demotions ready.2)
        c.pending ready.0.1,
  )
