-- ===== src/Browse/Indexed.antt =====
-- The lists of a kind of references stay sorted and bound to the map by keys when `commit` merges a
-- delta, and a selection that drops all that the commit touches is left as it was.
use knowledger.Base.{
  ◌≡◌, refl, sym, ap, ◌∙◌, ◌≢◌, inl, inr, Bool, true, false, List, [], ◌∷◌, ◌++◌, Option, none,
  some, Text, text_eq, text_eq_refl, text_eq→eq, if◌then◌else◌, All, All-map, All-append, any,
  filter, filter-All, filter-passed, Bool-cases, Option-cases, arith,
}
use knowledger.Browse.Sort.{sort}
use knowledger.Browse.Order.{sort-All}
use knowledger.Browse.Refs.{RefKind}
use knowledger.Browse.Merge.{
  Changes, has_key, precedes, precedes_any, is_fresh, is_demotion, fresh, demoted, keep, set_all,
  delete_all, merge_by_key,
}
use knowledger.Browse.Distinct.{Distinct, Distinct-append, filter-Distinct, IsApart, text_eq-false}

module _ {R : Type 0} (kind : RefKind R) where
  -- The map holds the reference under its key.
  abbrev pub IsBound : (Text → Option R) → R → Type 0
  IsBound by_key r = by_key (kind.key_of r) ≡ some r

  -- Nothing, or a reference that the given one precedes, stands under its key.
  abbrev pub IsAbsent : (Text → Option R) → R → Type 0
  IsAbsent by_key r = by_key (kind.key_of r) ≡ none

  abbrev pub IsEarlier : (Text → Option R) → R → Type 0
  IsEarlier by_key r = (e : R) × (by_key (kind.key_of r) ≡ some e) × (precedes kind r e ≡ true)

  none_is_not_some : {a : R} → none ≡ some a → ⊥
  none_is_not_some h = cc

  is_fresh-IsAbsent :
      (by_key : Text → Option R) (r : R) → is_fresh kind by_key r ≡ true → IsAbsent by_key r
  unfolding is_fresh
  is_fresh-IsAbsent by_key r h = elim (Option-cases (by_key (kind.key_of r))) [
    | inl e ↦ e
    | inr (x, e) ↦ absurd (ground (arith, e))
  ]

  is_demotion-IsEarlier :
      (by_key : Text → Option R) (r : R) → is_demotion kind by_key r ≡ true → IsEarlier by_key r
  unfolding is_demotion precedes_any
  is_demotion-IsEarlier by_key r h = elim (Option-cases (by_key (kind.key_of r))) [
    | inl e ↦ absurd (ground (arith, e))
    | inr (x, e) ↦ (x, e, rw e at h)
  ]

  pub fresh-IsAbsent :
      (by_key : Text → Option R) (c : Changes R) → All (IsAbsent by_key) (fresh kind by_key c)
  unfolding fresh
  fresh-IsAbsent by_key c =
      All-map {Q = IsAbsent by_key} (is_fresh-IsAbsent by_key)
        (filter (is_fresh kind by_key) c.pending) (filter-passed (is_fresh kind by_key) c.pending)

  demotions-IsEarlier :
      (by_key : Text → Option R) (xs : List R)
      → All (IsEarlier by_key) (filter (is_demotion kind by_key) xs)
  demotions-IsEarlier by_key xs =
      All-map {Q = IsEarlier by_key} (is_demotion-IsEarlier by_key)
        (filter (is_demotion kind by_key) xs) (filter-passed (is_demotion kind by_key) xs)

  pub demoted-IsEarlier :
      (by_key : Text → Option R) (c : Changes R) → All (IsEarlier by_key) (demoted kind by_key c)
  unfolding demoted
  demoted-IsEarlier by_key c =
      All-append (IsEarlier by_key) (filter (is_demotion kind by_key) c.pending)
        (filter (is_demotion kind by_key) c.demotions) (demotions-IsEarlier by_key c.pending)
        (demotions-IsEarlier by_key c.demotions)

  demoted-Distinct :
      (by_key : Text → Option R) (c : Changes R)
      → IsApart kind c
      → Distinct kind (demoted kind by_key c)
  unfolding demoted
  demoted-Distinct by_key c apart =
      let test = is_demotion kind by_key in
      Distinct-append kind (filter test c.pending) (filter test c.demotions)
        (filter-Distinct kind test c.pending apart.0)
        (filter-Distinct kind test c.demotions apart.1)
        (filter-All (λ r. All (λ d. kind.key_of d ≢ kind.key_of r) (filter test c.demotions)) test
          c.pending
          (All-map {Q = λ r. All (λ d. kind.key_of d ≢ kind.key_of r) (filter test c.demotions)}
            (λ r hs. filter-All (λ d. kind.key_of d ≢ kind.key_of r) test c.demotions hs) c.pending
            apart.2))

  -- The references of a commit have distinct keys.
  pub touched-Distinct :
      (by_key : Text → Option R) (c : Changes R)
      → IsApart kind c
      → Distinct kind (fresh kind by_key c ++ demoted kind by_key c)
  unfolding fresh
  touched-Distinct by_key c apart =
      Distinct-append kind (fresh kind by_key c) (demoted kind by_key c)
        (filter-Distinct kind (is_fresh kind by_key) c.pending apart.0)
        (demoted-Distinct by_key c apart)
        (All-map {Q = λ r. All (λ d. kind.key_of d ≢ kind.key_of r) (demoted kind by_key c)}
          (λ r absent.
            All-map {Q = λ d. kind.key_of d ≢ kind.key_of r}
              (λ d held e. none_is_not_some (sym absent ∙ sym (ap by_key e) ∙ held.1))
              (demoted kind by_key c) (demoted-IsEarlier by_key c))
          (fresh kind by_key c) (fresh-IsAbsent by_key c))

  differs-false : (a b : Text) → a ≢ b → text_eq a b ≡ false
  differs-false a b h = elim (Bool-cases (text_eq a b)) [
    | inl e ↦ absurd (h (text_eq→eq a b e))
    | inr e ↦ e
  ]

  -- The map after a delta: what comes is bound, and what neither comes nor goes stays.
  set_all-other :
      (refs : List R) (by_key : Text → Option R) (k : Text)
      → All (λ r. kind.key_of r ≢ k) refs
      → set_all kind refs by_key k ≡ by_key k
  unfolding set_all
  set_all-other [] by_key k hs = refl
  set_all-other (r ∷ rest) by_key k hs =
      set_all-other rest (λ j. if text_eq (kind.key_of r) j then some r else by_key j) k hs.1
      ∙ rw (differs-false (kind.key_of r) k hs.0)

  pub set_all-IsBound :
      (refs : List R) (by_key : Text → Option R)
      → Distinct kind refs
      → All (IsBound (set_all kind refs by_key)) refs
  unfolding set_all
  set_all-IsBound [] by_key hs = tt
  set_all-IsBound (r ∷ rest) by_key hs =
      let next = λ (j : Text). if text_eq (kind.key_of r) j then some r else by_key j in
      (
        set_all-other rest next (kind.key_of r) hs.0 ∙ rw (text_eq_refl (kind.key_of r)),
        set_all-IsBound rest next hs.1,
      )

  any-false :
      (k : Text) (refs : List R)
      → any (has_key kind k) refs ≡ false
      → All (λ r. kind.key_of r ≢ k) refs
  unfolding any has_key
  any-false k [] h = tt
  any-false k (r ∷ rest) h = elim (Bool-cases (text_eq (kind.key_of r) k)) [
    | inl e ↦ absurd (ground (arith, e))
    | inr e ↦ (text_eq-false (kind.key_of r) k e, any-false k rest (rw e at h))
  ]

  any-true {κ} :
      {C : Type κ} (test : R → Bool) (refs : List R)
      → any test refs ≡ true
      → All (λ d. test d ≡ true → C) refs
      → C
  unfolding any
  any-true test [] h hs = absurd (ground arith)
  any-true test (r ∷ rest) h hs = elim (Bool-cases (test r)) [
    | inl e ↦ hs.0 e
    | inr e ↦ any-true test rest (rw e at h) hs.1
  ]

  pub any-none :
      (test : R → Bool) (refs : List R) → any test refs ≡ false → All (λ d. test d ≡ false) refs
  unfolding any
  any-none test [] h = tt
  any-none test (r ∷ rest) h = elim (Bool-cases (test r)) [
    | inl e ↦ absurd (ground (arith, e))
    | inr e ↦ (e, any-none test rest (rw e at h))
  ]

  -- What a demotion takes out of an index is the reference that it precedes.
  pub keep_false :
      (by_key : Text → Option R) (P : R → Type 0) (gone : List R) (x : R)
      → IsBound by_key x
      → All (λ d. (e : R) → by_key (kind.key_of d) ≡ some e → P e) gone
      → keep kind gone x ≡ false
      → P x
  unfolding keep has_key
  keep_false by_key P gone x bound hs h =
      any-true (λ d. text_eq (kind.key_of d) (kind.key_of x)) gone (ground arith)
        (All-map {Q = λ d. text_eq (kind.key_of d) (kind.key_of x) ≡ true → P x}
          (λ d k e. k x (ap by_key (text_eq→eq (kind.key_of d) (kind.key_of x) e) ∙ bound)) gone hs)

  pub kept-IsBound :
      (by_key : Text → Option R) (added gone : List R) (x : R)
      → All (IsAbsent by_key) added
      → keep kind gone x ≡ true
      → IsBound by_key x
      → IsBound (merge_by_key kind added gone by_key) x
  unfolding keep merge_by_key delete_all
  kept-IsBound by_key added gone x absent kept bound =
      let stays : any (has_key kind (kind.key_of x)) gone ≡ false = ground arith in
      let others =
        All-append (λ r. kind.key_of r ≢ kind.key_of x) added gone
          (All-map {Q = λ r. kind.key_of r ≢ kind.key_of x}
            (λ r h e. none_is_not_some (sym h ∙ ap by_key e ∙ bound)) added absent)
          (any-false (kind.key_of x) gone stays) in
      set_all-other (sort kind.compare (added ++ gone)) (delete_all kind gone by_key)
        (kind.key_of x)
        (sort-All kind.compare (λ r. kind.key_of r ≢ kind.key_of x) (added ++ gone) others)
      ∙ rw (stays) bound

  pub filter-All_by :
      (P Q : R → Type 0) (p : R → Bool) (xs : List R)
      → ((x : R) → p x ≡ true → P x → Q x)
      → All P xs
      → All Q (filter p xs)
  unfolding filter
  filter-All_by P Q p [] f hs = tt
  filter-All_by P Q p (x ∷ xs) f hs = elim (Bool-cases (p x)) [
    | inl e ↦ rw e (f x e hs.0, filter-All_by P Q p xs f hs.1)
    | inr e ↦ rw e (filter-All_by P Q p xs f hs.1)
  ]

  pub filter-whole : (p : R → Bool) (xs : List R) → All (λ x. p x ≡ true) xs → filter p xs ≡ xs
  unfolding filter
  filter-whole p [] hs = refl
  filter-whole p (x ∷ xs) hs = ground (arith, filter-whole p xs hs.1)
