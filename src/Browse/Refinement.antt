-- ===== src/Browse/Refinement.antt =====
-- The selections of packages/storage/browse-index.ts refine a map: what a query of all revisions pages
-- through is what the map by keys holds, at the checkpoint and with the fields that were asked for.
use Prim.Native.Nat.{Ordering}
use knowledger.Base.{
  ℕ, ◌≡◌, ◌↔◌, sym, subst, true, List, none, some, Text, filter, filter-All, filter-passed,
}
use knowledger.Fault.{ok, >>=-eq-ok, ok_eq}
use knowledger.Browse.Order.{IsOrder}
use knowledger.Browse.Refs.{RevisionBrowseRef, revision_kind}
use knowledger.Browse.Merge.{fresh, demoted}
use knowledger.Browse.State.{BrowseState, Delta, merge_delta, check_delta}
use knowledger.Browse.Query.{
  Selector, all_revisions, is_selected, candidates_of, candidates, is_latest_per_slot, select,
}
use knowledger.Browse.Cache.{CacheLimits}
use knowledger.Browse.Complete.{In, In-All, In-filter, IsListed, merge_all-IsListed}
use knowledger.Browse.Index.{BrowseIndex, commit, queried, committed, Reaches, start, after}
use knowledger.Browse.Coherence.{query-keeps, Reaches-IsSound}

none_is_not_some : {r : RevisionBrowseRef} → none ≡ some r → ⊥
none_is_not_some h = cc

-- The selector of the mode `all`.
abbrev pub of_all : Selector → Selector
of_all s = record s { mode = all_revisions }

module _ (locale_compare : Text → Text → Ordering) (locale : IsOrder locale_compare)
    (sha256 : List ℕ → Text) (key_bytes : Selector → ℕ) (limits : CacheLimits)
    (channel_id : Text) where
  abbrev IsFull : BrowseState → Type 0
  IsFull s = IsListed (revision_kind locale_compare) s.revisions_by_key s.revisions

  merge_delta-IsFull :
      (s : BrowseState) (d : Delta) → IsFull s → IsFull (merge_delta locale_compare s d)
  unfolding merge_delta
  merge_delta-IsFull s d full =
      merge_all-IsListed (revision_kind locale_compare)
        (fresh (revision_kind locale_compare) s.revisions_by_key d.revisions)
        (demoted (revision_kind locale_compare) s.revisions_by_key d.revisions) s.revisions
        s.revisions_by_key full

  commit-IsFull :
      (d : Delta) (i : BrowseIndex) {j : BrowseIndex}
      → IsFull i.state
      → commit locale_compare d i ≡ ok j
      → IsFull j.state
  unfolding commit
  commit-IsFull d i full h =
      let (u, checked, done) = >>=-eq-ok (check_delta locale_compare i.state d) _ h in
      subst (λ (x : BrowseIndex). IsFull x.state) (ok_eq done) (merge_delta-IsFull i.state d full)

  Reaches-IsFull :
      (i : BrowseIndex)
      → Reaches sha256 locale_compare key_bytes limits channel_id i
      → IsFull i.state
  Reaches-IsFull i start = λ k r h. absurd (none_is_not_some h)
  Reaches-IsFull j (after {i} before (queried q found h)) =
      let sound =
        Reaches-IsSound locale_compare locale sha256 key_bytes limits channel_id i before in
      let kept = query-keeps key_bytes limits channel_id i q sound.1 h in
      subst IsFull (sym kept.0) (Reaches-IsFull i before)
  Reaches-IsFull j (after {i} before (committed s batches d ready h)) =
      commit-IsFull d i (Reaches-IsFull i before) h

  -- After any commits and queries, a selection of the mode `all` has exactly the references that stand under
  -- their keys in the map and that are visible at the checkpoint and agree with the given fields, when the
  -- order of the locale is consistent.
  pub select-Refines :
      (i : BrowseIndex) (s : Selector) (r : RevisionBrowseRef)
      → Reaches sha256 locale_compare key_bytes limits channel_id i
      → In r (select i.state (of_all s))
        ↔ ((i.state.revisions_by_key r.key ≡ some r) × (is_selected (of_all s) r ≡ true))
  unfolding select candidates candidates_of is_latest_per_slot
  select-Refines i s r reached =
      let sound =
        Reaches-IsSound locale_compare locale sha256 key_bytes limits channel_id i reached in
      let test = is_selected (of_all s) in
      let bound = λ (x : RevisionBrowseRef). (i.state.revisions_by_key x.key ≡ some x) × Unit {0} in
      (
        λ m. (
          (In-All bound r (filter test i.state.revisions) m
              (filter-All bound test i.state.revisions sound.0.listed.0)).0,
          In-All (λ x. test x ≡ true) r (filter test i.state.revisions) m
              (filter-passed test i.state.revisions),
        ),
        λ h. In-filter test r i.state.revisions (Reaches-IsFull i reached r.key r h.0).1 h.1,
      )
