-- ===== src/Browse/Consistent.antt =====
-- The revisions of a `BrowseState` stay consistent under `commit` of packages/storage/browse-index.ts,
-- and a selection at an earlier checkpoint is left as it was.
use Prim.Native.Nat.{Ordering}
use knowledger.Base.{
  ◌≡◌, refl, sym, ap, ◌∙◌, subst, inl, inr, Bool, true, false, List, [], ◌∷◌, ◌++◌, Option, none,
  some, Text, text_eq, text_eq→eq, any, if◌then◌else◌, All, All-map, All-append, all, filter,
  Bool-cases, some_eq, arith,
}
use knowledger.Fault.{ok, thrown_error, require, >>=-eq-ok}
use knowledger.Contracts.Slot.{Slot, slot_text}
use knowledger.Contracts.SlotKeys.{slot_text-injective}
use knowledger.Browse.Sort.{sort}
use knowledger.Browse.Order.{IsOrder, sort-All}
use knowledger.Browse.Comparators.{compare_revisions-IsOrder, visible-earlier}
use knowledger.Browse.Refs.{
  RefKind, Checkpoint, RevisionBrowseRef, visible, compare_revisions, static_revision_matches,
  matching_slots, revision_kind,
}
use knowledger.Browse.Merge.{
  Changes, has_key, precedes, is_consistent, assert_consistent, fresh, demoted, set_all, delete_all,
  merge_by_key,
}
use knowledger.Browse.Distinct.{IsApart}
use knowledger.Browse.Indexed.{IsEarlier, touched-Distinct, fresh-IsAbsent, demoted-IsEarlier}
use knowledger.Browse.Merged.{
  IsIndexed, IsAligned, IsHidden, merge_all-IsIndexed, merge_bucket-IsIndexed, filter-merge_all,
  filter-merge_bucket,
}
use knowledger.Browse.Prepared.{AllOf, IsSlotted, fresh-All, demoted-All}
use knowledger.Browse.State.{BrowseState, Delta, empty_state, check_delta, merge_delta}
use knowledger.Browse.Query.{
  Mode, Selector, latest_per_slot, all_revisions, of_slot, of_document, is_selected, candidates_of,
  candidates, select,
}

module _ (locale_compare : Text → Text → Ordering) (locale : IsOrder locale_compare) where
  abbrev kind : RefKind RevisionBrowseRef
  kind = revision_kind locale_compare

  abbrev order : IsOrder (compare_revisions locale_compare)
  order = compare_revisions-IsOrder locale_compare locale

  -- The lists are sorted, each reference of a list is the one under its key, it stands in the lists of
  -- its slot and its document only, and every slot has a key.
  pub record IsConsistent (s : BrowseState) : Type 0 where
    pub listed : IsIndexed kind order s.revisions_by_key (λ r. Unit) s.revisions
    pub by_slot :
        (b : Text)
        → IsIndexed kind order s.revisions_by_key
            (λ r. slot_text r.slot ≡ b)
            (s.revisions_by_slot b)
    pub by_document :
        (b : Text)
        → IsIndexed kind order s.revisions_by_key
            (λ r. r.slot.document_id ≡ b)
            (s.revisions_by_document b)
    pub slotted : (k : Text) (r : RevisionBrowseRef) → s.revisions_by_key k ≡ some r → IsSlotted r

  -- What `prepare` has collected, and `commit` has compared with the state.
  pub record IsChecked (s : BrowseState) (c : Changes RevisionBrowseRef) : Type 0 where
    pub apart : IsApart kind c
    pub well : AllOf kind IsSlotted c
    pub same :
        All
          (λ r. is_consistent kind s.revisions_by_key r ≡ true)
          (demoted kind s.revisions_by_key c)

  none_is_not_some : {r : RevisionBrowseRef} → none ≡ some r → ⊥
  none_is_not_some h = cc

  pub empty-IsConsistent : IsConsistent empty_state
  empty-IsConsistent = record {
    listed = (tt, tt);
    by_slot = λ b. (tt, tt);
    by_document = λ b. (tt, tt);
    slotted = λ k r h. absurd (none_is_not_some h);
  }

  All-zip :
      (P Q : RevisionBrowseRef → Type 0) (xs : List RevisionBrowseRef)
      → All P xs
      → All Q xs
      → All (λ r. P r × Q r) xs
  All-zip P Q [] hs ks = tt
  All-zip P Q (x ∷ xs) hs ks = ((hs.0, ks.0), All-zip P Q xs hs.1 ks.1)

  All-append_back :
      (P : RevisionBrowseRef → Type 0) (xs ys : List RevisionBrowseRef)
      → All P (xs ++ ys)
      → All P ys
  All-append_back P [] ys hs = hs
  All-append_back P (x ∷ xs) ys hs = All-append_back P xs ys hs.1

  all_append :
      (p : RevisionBrowseRef → Bool) (xs ys : List RevisionBrowseRef)
      → all p (xs ++ ys) ≡ true
      → All (λ r. p r ≡ true) xs × All (λ r. p r ≡ true) ys
  unfolding all
  all_append p [] [] h = (tt, tt)
  all_append p [] (y ∷ ys) h =
      let rest = all_append p [] ys (ground arith) in (tt, (ground arith, rest.1))
  all_append p (x ∷ xs) ys h =
      let rest = all_append p xs ys (ground arith) in ((ground arith, rest.0), rest.1)

  require_ok : (test : Bool) {u : Unit {0}} → require test thrown_error ≡ ok u → test ≡ true
  require_ok test h = ground arith

  aligned_slot :
      (by_key : Text → Option RevisionBrowseRef) (d e : RevisionBrowseRef)
      → is_consistent kind by_key d ≡ true
      → by_key d.key ≡ some e
      → slot_text e.slot ≡ slot_text d.slot
  unfolding is_consistent static_revision_matches matching_slots
  aligned_slot by_key d e h found =
      text_eq→eq (slot_text e.slot) (slot_text d.slot) (ground (arith, found))

  module _ (s : BrowseState) (c : Changes RevisionBrowseRef) (consistent : IsConsistent s)
      (checked : IsChecked s c) where
    abbrev added : List RevisionBrowseRef
    added = fresh kind s.revisions_by_key c

    abbrev gone : List RevisionBrowseRef
    gone = demoted kind s.revisions_by_key c

    gone-IsAligned_slot : All (IsAligned kind order (λ r. slot_text r.slot) s.revisions_by_key) gone
    gone-IsAligned_slot =
        All-map {Q = IsAligned kind order (λ r. slot_text r.slot) s.revisions_by_key}
          (λ d h e found. aligned_slot s.revisions_by_key d e h found) gone checked.same

    gone-IsSlotted : All IsSlotted gone
    gone-IsSlotted = demoted-All kind IsSlotted s.revisions_by_key c checked.well

    gone-IsAligned_document :
        All (IsAligned kind order (λ r. r.slot.document_id) s.revisions_by_key) gone
    gone-IsAligned_document =
        All-map {Q = IsAligned kind order (λ r. r.slot.document_id) s.revisions_by_key}
          (λ d h e found.
            ap (λ (t : Slot). t.document_id)
              (slot_text-injective e.slot d.slot (consistent.slotted d.key e found) h.1
                (aligned_slot s.revisions_by_key d e h.0 found)))
          gone (All-zip _ IsSlotted gone checked.same gone-IsSlotted)

    abbrev MapOf : (Text → Option RevisionBrowseRef) → Type 0
    MapOf m = (k : Text) (r : RevisionBrowseRef) → m k ≡ some r → IsSlotted r

    set_all-slotted :
        (refs : List RevisionBrowseRef) (m : Text → Option RevisionBrowseRef)
        → All IsSlotted refs
        → MapOf m
        → MapOf (set_all kind refs m)
    unfolding set_all
    set_all-slotted [] m hs ms = ms
    set_all-slotted (x ∷ xs) m hs ms =
        set_all-slotted xs (λ k. if text_eq x.key k then some x else m k) hs.1
          (λ k r h. elim (Bool-cases (text_eq x.key k)) [
            | inl e ↦ subst IsSlotted (some_eq (rw e at h)) hs.0
            | inr e ↦ ms k r (rw e at h)
          ])

    delete_all-slotted : MapOf (delete_all kind gone s.revisions_by_key)
    unfolding delete_all
    delete_all-slotted k r h = elim (Bool-cases (any (has_key kind k) gone)) [
      | inl e ↦ absurd (none_is_not_some (rw e at h))
      | inr e ↦ consistent.slotted k r (rw e at h)
    ]

    merged-slotted : MapOf (merge_by_key kind added gone s.revisions_by_key)
    unfolding merge_by_key
    merged-slotted =
        set_all-slotted (sort kind.compare (added ++ gone))
          (delete_all kind gone s.revisions_by_key)
          (sort-All kind.compare IsSlotted (added ++ gone) (
            All-append IsSlotted added gone
              (fresh-All kind IsSlotted s.revisions_by_key c checked.well) gone-IsSlotted))
          delete_all-slotted

  pub merge_delta-IsConsistent :
      (s : BrowseState) (d : Delta)
      → IsConsistent s
      → IsChecked s d.revisions
      → IsConsistent (merge_delta locale_compare s d)
  unfolding merge_delta
  merge_delta-IsConsistent s d consistent checked =
      let come = fresh kind s.revisions_by_key d.revisions in
      let go = demoted kind s.revisions_by_key d.revisions in
      let distinct = touched-Distinct kind s.revisions_by_key d.revisions checked.apart in
      let absent = fresh-IsAbsent kind s.revisions_by_key d.revisions in
      record {
        listed =
            merge_all-IsIndexed kind order come go s.revisions s.revisions_by_key distinct absent
              consistent.listed;
        by_slot = λ b.
            merge_bucket-IsIndexed kind order (λ r. slot_text r.slot) come go s.revisions_by_key
              s.revisions_by_slot b distinct absent
              (gone-IsAligned_slot s d.revisions consistent checked) (consistent.by_slot b);
        by_document = λ b.
            merge_bucket-IsIndexed kind order (λ r. r.slot.document_id) come go s.revisions_by_key
              s.revisions_by_document b distinct absent
              (gone-IsAligned_document s d.revisions consistent checked) (consistent.by_document b);
        slotted = merged-slotted s d.revisions consistent checked;
      }

  -- A delta behind the checkpoint of a selection is hidden from it.
  abbrev pub IsBehind : Checkpoint → List RevisionBrowseRef → Type 0
  IsBehind at refs = All (λ r. visible r.published_checkpoint at ≡ false) refs

  hidden_is_dropped :
      (sel : Selector) (r : RevisionBrowseRef)
      → visible r.published_checkpoint sel.at ≡ false
      → is_selected sel r ≡ false
  unfolding is_selected
  hidden_is_dropped sel r h = ground arith

  delta-IsHidden :
      (s : BrowseState) (c : Changes RevisionBrowseRef) (sel : Selector)
      → IsBehind sel.at (fresh kind s.revisions_by_key c ++ demoted kind s.revisions_by_key c)
      → IsHidden kind order
          (is_selected sel)
          s.revisions_by_key
          (fresh kind s.revisions_by_key c)
          (demoted kind s.revisions_by_key c)
  unfolding precedes
  delta-IsHidden s c sel behind =
      let come = fresh kind s.revisions_by_key c in
      let go = demoted kind s.revisions_by_key c in
      (
        All-map {Q = λ r. is_selected sel r ≡ false} (hidden_is_dropped sel) _ behind,
        All-map
            {Q = λ d.
              (e : RevisionBrowseRef)
              → s.revisions_by_key d.key ≡ some e
              → is_selected sel e ≡ false}
            (λ d h e found. hidden_is_dropped sel e (
              visible-earlier d.published_checkpoint e.published_checkpoint sel.at
                (subst (λ x. precedes kind d x ≡ true) (some_eq (sym h.0.1 ∙ found)) h.0.2) h.1))
            go
            (All-zip (IsEarlier kind s.revisions_by_key) _ go
              (demoted-IsEarlier kind s.revisions_by_key c) (All-append_back _ come go behind)),
      )

  filter-candidates :
      (s : BrowseState) (d : Delta) (p : RevisionBrowseRef → Bool) (mode : Mode)
      (slot : Option Slot) (document_id : Option Text)
      → IsConsistent s
      → IsChecked s d.revisions
      → IsHidden kind order p s.revisions_by_key
          (fresh kind s.revisions_by_key d.revisions)
          (demoted kind s.revisions_by_key d.revisions)
      → filter p (candidates_of mode slot document_id (merge_delta locale_compare s d))
        ≡ filter p (candidates_of mode slot document_id s)
  unfolding candidates_of merge_delta
  filter-candidates s d p latest_per_slot slot document_id ok_s ok_d hidden =
      filter-merge_all kind order p _ _ s.revisions s.revisions_by_key hidden ok_s.listed
  filter-candidates s d p all_revisions slot document_id ok_s ok_d hidden =
      filter-merge_all kind order p _ _ s.revisions s.revisions_by_key hidden ok_s.listed
  filter-candidates s d p of_slot none document_id ok_s ok_d hidden = refl
  filter-candidates s d p of_slot (some t) document_id ok_s ok_d hidden =
      filter-merge_bucket kind order (λ r. slot_text r.slot) p _ _ s.revisions_by_key
        s.revisions_by_slot (slot_text t) hidden (gone-IsAligned_slot s d.revisions ok_s ok_d)
        (ok_s.by_slot (slot_text t))
  filter-candidates s d p of_document slot none ok_s ok_d hidden = refl
  filter-candidates s d p of_document slot (some t) ok_s ok_d hidden =
      filter-merge_bucket kind order (λ r. r.slot.document_id) p _ _ s.revisions_by_key
        s.revisions_by_document t hidden (gone-IsAligned_document s d.revisions ok_s ok_d)
        (ok_s.by_document t)

  pub select-merge_delta :
      (s : BrowseState) (d : Delta) (sel : Selector)
      → IsConsistent s
      → IsChecked s d.revisions
      → IsBehind sel.at
          (fresh kind s.revisions_by_key d.revisions ++ demoted kind s.revisions_by_key d.revisions)
      → select (merge_delta locale_compare s d) sel ≡ select s sel
  unfolding select candidates
  select-merge_delta s d sel ok_s ok_d behind = rw (
      filter-candidates s d (is_selected sel) sel.mode sel.slot sel.document_id ok_s ok_d
        (delta-IsHidden s d.revisions sel behind))

  pub check_delta-IsChecked :
      (s : BrowseState) (d : Delta)
      → IsApart kind d.revisions × AllOf kind IsSlotted d.revisions
      → check_delta locale_compare s d ≡ ok tt
      → IsChecked s d.revisions
  unfolding check_delta assert_consistent
  check_delta-IsChecked s d ready h =
      let (u, first, rest) =
        >>=-eq-ok
          (require
            (all (is_consistent kind s.revisions_by_key)
              (d.revisions.pending ++ d.revisions.demotions))
            thrown_error)
          _ h in
      let passed =
        all_append (is_consistent kind s.revisions_by_key) d.revisions.pending d.revisions.demotions
          (require_ok _ first) in
      record {
        apart = ready.0;
        well = ready.1;
        same =
            demoted-All kind (λ r. is_consistent kind s.revisions_by_key r ≡ true)
              s.revisions_by_key d.revisions passed;
      }
