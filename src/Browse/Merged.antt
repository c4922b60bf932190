-- ===== src/Browse/Merged.antt =====
-- The lists that `mergeDelta` of packages/storage/browse-index.ts makes: sorted, and bound to the map by
-- keys, when those that it takes are.
use knowledger.Base.{
  ◌≡◌, ◌≢◌, sym, ◌∙◌, inl, inr, Bool, true, false, List, [], ◌∷◌, ◌++◌, Option, some, Text, text_eq,
  text_eq→eq, if◌then◌else◌, All, All-map, any, filter, filter-All, filter-filter, Bool-cases,
}
use knowledger.Browse.Sort.{sort, prepend_latest}
use knowledger.Browse.Order.{
  IsOrder, Sorted, sort-All, prepend-All, sort-Sorted, prepend-Sorted, filter-Sorted,
  filter-prepend,
}
use knowledger.Browse.Refs.{RefKind}
use knowledger.Browse.Merge.{keep, merge_all, merge_by_key, merge_bucket}
use knowledger.Browse.Distinct.{Distinct, sort-Distinct, text_eq-false}
use knowledger.Browse.Indexed.{
  IsBound, IsAbsent, kept-IsBound, keep_false, filter-All_by, filter-whole, set_all-IsBound,
  any-none,
}

module _ {R : Type 0} (kind : RefKind R) (order : IsOrder kind.compare) where
  -- A list of an index: sorted, of the references that the map holds, and of those of the bucket.
  abbrev pub IsIndexed : (Text → Option R) → (R → Type 0) → List R → Type 0
  IsIndexed by_key P xs = All (λ x. IsBound kind by_key x × P x) xs × Sorted kind.compare xs

  incoming-IsBound :
      (added gone : List R) (by_key : Text → Option R)
      → Distinct kind (added ++ gone)
      → All (IsBound kind (merge_by_key kind added gone by_key)) (sort kind.compare (added ++ gone))
  unfolding merge_by_key
  incoming-IsBound added gone by_key distinct =
      set_all-IsBound kind (sort kind.compare (added ++ gone)) _
        (sort-Distinct kind (added ++ gone) distinct)

  prepend-IsIndexed :
      (P : R → Type 0) (added gone incoming items : List R) (by_key : Text → Option R)
      → All (IsAbsent kind by_key) added
      → IsIndexed (merge_by_key kind added gone by_key) P incoming
      → IsIndexed by_key P items
      → IsIndexed
          (merge_by_key kind added gone by_key)
          P
          (prepend_latest kind.compare incoming (filter (keep kind gone) items))
  prepend-IsIndexed P added gone incoming items by_key absent come old =
      let after = λ (x : R). IsBound kind (merge_by_key kind added gone by_key) x × P x in
      let kept =
        filter-All_by kind (λ x. IsBound kind by_key x × P x) after (keep kind gone) items
          (λ x k h. (kept-IsBound kind by_key added gone x absent k h.0, h.1)) old.0 in
      (
        prepend-All kind.compare after incoming (filter (keep kind gone) items) come.0 kept,
        prepend-Sorted kind.compare order incoming (filter (keep kind gone) items) come.1
            (filter-Sorted kind.compare (keep kind gone) items old.1),
      )

  pub merge_all-IsIndexed :
      (added gone items : List R) (by_key : Text → Option R)
      → Distinct kind (added ++ gone)
      → All (IsAbsent kind by_key) added
      → IsIndexed by_key (λ x. Unit) items
      → IsIndexed
          (merge_by_key kind added gone by_key)
          (λ x. Unit)
          (merge_all kind added gone items)
  unfolding merge_all
  merge_all-IsIndexed added gone items by_key distinct absent old =
      prepend-IsIndexed (λ x. Unit) added gone (sort kind.compare (added ++ gone)) items by_key
        absent
        (
          All-map {Q = λ x. IsBound kind (merge_by_key kind added gone by_key) x × Unit}
              (λ x h. (h, tt)) (sort kind.compare (added ++ gone))
              (incoming-IsBound added gone by_key distinct),
          sort-Sorted kind.compare order (added ++ gone),
        )
        old

  module _ (bucket_of : R → Text) where
    -- A reference that goes is in the bucket of the one that it takes out.
    abbrev pub IsAligned : (Text → Option R) → R → Type 0
    IsAligned by_key d = (e : R) → by_key (kind.key_of d) ≡ some e → bucket_of e ≡ bucket_of d

    All-zip :
        (b : Text) (by_key : Text → Option R) (gone : List R)
        → All (IsAligned by_key) gone
        → All (λ d. text_eq (bucket_of d) b ≡ false) gone
        → All (λ d. (e : R) → by_key (kind.key_of d) ≡ some e → bucket_of e ≢ b) gone
    All-zip b by_key [] hs ks = tt
    All-zip b by_key (d ∷ rest) hs ks = (
      λ e found same. text_eq-false (bucket_of d) b ks.0 (sym (hs.0 e found) ∙ same),
      All-zip b by_key rest hs.1 ks.1,
    )

    stays :
        (gone : List R) (by_key : Text → Option R) (b : Text) (x : R)
        → All (IsAligned by_key) gone
        → any (λ r. text_eq (bucket_of r) b) gone ≡ false
        → IsBound kind by_key x × (bucket_of x ≡ b)
        → keep kind gone x ≡ true
    stays gone by_key b x aligned none h = elim (Bool-cases (keep kind gone x)) [
      | inl e ↦ e
      | inr e ↦ absurd (
          keep_false kind by_key (λ x. bucket_of x ≢ b) gone x h.0
            (All-zip b by_key gone aligned (any-none kind (λ r. text_eq (bucket_of r) b) gone none))
            e h.1)
    ]

    -- A bucket that no reference leaves is as its filter would leave it.
    bucket-filter :
        (gone items : List R) (by_key : Text → Option R) (b : Text)
        → All (IsAligned by_key) gone
        → IsIndexed by_key (λ x. bucket_of x ≡ b) items
        → (if any (λ r. text_eq (bucket_of r) b) gone then filter (keep kind gone) items else items)
          ≡ filter (keep kind gone) items
    bucket-filter gone items by_key b aligned old =
        elim (Bool-cases (any (λ r. text_eq (bucket_of r) b) gone)) [
          | inl e ↦ rw e
          | inr e ↦ rw e (
              sym (
                filter-whole kind (keep kind gone) items (
                  All-map {Q = λ x. keep kind gone x ≡ true}
                    (λ x h. stays gone by_key b x aligned e h) items old.0)))
        ]

    pub merge_bucket-IsIndexed :
        (added gone : List R) (by_key : Text → Option R) (buckets : Text → List R) (b : Text)
        → Distinct kind (added ++ gone)
        → All (IsAbsent kind by_key) added
        → All (IsAligned by_key) gone
        → IsIndexed by_key (λ x. bucket_of x ≡ b) (buckets b)
        → IsIndexed
            (merge_by_key kind added gone by_key)
            (λ x. bucket_of x ≡ b)
            (merge_bucket kind bucket_of added gone buckets b)
    unfolding merge_bucket
    merge_bucket-IsIndexed added gone by_key buckets b distinct absent aligned old =
        rw (bucket-filter gone (buckets b) by_key b aligned old) (
          prepend-IsIndexed (λ x. bucket_of x ≡ b) added gone
            (sort kind.compare
              (filter (λ r. text_eq (bucket_of r) b) (sort kind.compare (added ++ gone))))
            (buckets b) by_key absent
            (
              All-map
                  {Q = λ x.
                    IsBound kind (merge_by_key kind added gone by_key) x × (bucket_of x ≡ b)}
                  (λ x h. h) _
                  (sort-All kind.compare
                    (λ x. IsBound kind (merge_by_key kind added gone by_key) x × (bucket_of x ≡ b))
                    (filter (λ r. text_eq (bucket_of r) b) (sort kind.compare (added ++ gone)))
                    (filter-All_by kind (IsBound kind (merge_by_key kind added gone by_key))
                      (λ x.
                        IsBound kind (merge_by_key kind added gone by_key) x × (bucket_of x ≡ b))
                      (λ r. text_eq (bucket_of r) b) (sort kind.compare (added ++ gone))
                      (λ x k h. (h, text_eq→eq (bucket_of x) b k))
                      (incoming-IsBound added gone by_key distinct))),
              sort-Sorted kind.compare order
                  (filter (λ r. text_eq (bucket_of r) b) (sort kind.compare (added ++ gone))),
            )
            old)

  -- The delta is hidden from a selection: it drops what comes and what goes.
  abbrev pub IsHidden : (R → Bool) → (Text → Option R) → List R → List R → Type 0
  IsHidden p by_key added gone =
      All (λ r. p r ≡ false) (added ++ gone)
      × All (λ d. (e : R) → by_key (kind.key_of d) ≡ some e → p e ≡ false) gone

  filter-merged :
      (p : R → Bool) (P : R → Type 0) (gone incoming items : List R) (by_key : Text → Option R)
      → All (λ d. (e : R) → by_key (kind.key_of d) ≡ some e → p e ≡ false) gone
      → All (λ r. p r ≡ false) incoming
      → IsIndexed by_key P items
      → filter p (prepend_latest kind.compare incoming (filter (keep kind gone) items))
        ≡ filter p items
  filter-merged p P gone incoming items by_key hidden come old =
      filter-prepend kind.compare p incoming (filter (keep kind gone) items) come
        (filter-Sorted kind.compare (keep kind gone) items old.1)
      ∙ filter-filter p (keep kind gone) items (
          All-map {Q = λ x. keep kind gone x ≡ false → p x ≡ false}
            (λ x h k. keep_false kind by_key (λ e. p e ≡ false) gone x h.0 hidden k) items old.0)

  pub filter-merge_all :
      (p : R → Bool) (added gone items : List R) (by_key : Text → Option R)
      → IsHidden p by_key added gone
      → IsIndexed by_key (λ x. Unit) items
      → filter p (merge_all kind added gone items) ≡ filter p items
  unfolding merge_all
  filter-merge_all p added gone items by_key hidden old =
      filter-merged p (λ x. Unit) gone (sort kind.compare (added ++ gone)) items by_key hidden.1
        (sort-All kind.compare (λ r. p r ≡ false) (added ++ gone) hidden.0) old

  pub filter-merge_bucket :
      (bucket_of : R → Text) (p : R → Bool) (added gone : List R) (by_key : Text → Option R)
      (buckets : Text → List R) (b : Text)
      → IsHidden p by_key added gone
      → All (IsAligned bucket_of by_key) gone
      → IsIndexed by_key (λ x. bucket_of x ≡ b) (buckets b)
      → filter p (merge_bucket kind bucket_of added gone buckets b) ≡ filter p (buckets b)
  unfolding merge_bucket
  filter-merge_bucket bucket_of p added gone by_key buckets b hidden aligned old =
      rw (bucket-filter bucket_of gone (buckets b) by_key b aligned old) (
        filter-merged p (λ x. bucket_of x ≡ b) gone
          (sort kind.compare
            (filter (λ r. text_eq (bucket_of r) b) (sort kind.compare (added ++ gone))))
          (buckets b) by_key hidden.1
          (sort-All kind.compare (λ r. p r ≡ false)
            (filter (λ r. text_eq (bucket_of r) b) (sort kind.compare (added ++ gone)))
            (filter-All (λ r. p r ≡ false) (λ r. text_eq (bucket_of r) b)
              (sort kind.compare (added ++ gone))
              (sort-All kind.compare (λ r. p r ≡ false) (added ++ gone) hidden.0)))
          old)
