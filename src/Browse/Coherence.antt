-- ===== src/Browse/Coherence.antt =====
-- The cache of packages/storage/browse-index.ts never shows: a query of an index answers what the state
-- alone answers, after whatever commits and queries came before.
use Prim.Native.Nat.{Ordering}
use knowledger.Base.{
  ℕ, ◌≡◌, refl, sym, ap, ◌∙◌, subst, inl, inr, true, false, List, ◌++◌, some, Text, All, All-map,
  find, find-All, find-holds, Option-cases,
}
use knowledger.Fault.{Result, ok, err, ◌>>=◌, ◌>>◌, >>=-eq-ok, ok_eq, Result-cases}
use knowledger.Browse.Order.{IsOrder}
use knowledger.Browse.Refs.{RevisionBrowseRef, assert_checkpoint, visible, revision_kind}
use knowledger.Browse.Merge.{fresh, demoted}
use knowledger.Browse.State.{
  BrowseState, BrowseWriteBatch, Delta, prepare, check_delta, merge_delta,
}
use knowledger.Browse.Prepared.{prepare-IsApart, prepare-IsBehind, touched-IsBehind}
use knowledger.Browse.Query.{
  Selector, RevisionBrowseQuery, BrowseQuery, of_revisions, of_proposals, of_annotations,
  BrowsePage, BrowseResult, revision_page, page, assert_range, assert_selector, select, answer,
}
use knowledger.Browse.Consistent.{
  IsConsistent, empty-IsConsistent, merge_delta-IsConsistent, select-merge_delta,
  check_delta-IsChecked,
}
use knowledger.Browse.Cache.{
  CacheLimits, RevisionCacheEntry, RevisionCache, cached, is_under, invalidate,
}
use knowledger.Browse.Entries.{Each, selector_eq→eq, touch-Each, cache_revisions-Each}
use knowledger.Browse.Stale.{IsAt, invalidate-hidden, invalidate-Each, each_both}
use knowledger.Browse.Index.{
  BrowseIndex, revisions, query, touched, commit, queried, committed, Reaches, start, after,
}

-- What a call returns, without the index behind it.
unfoldable pub answers : {A B : Type 0} → Result (A × B) → Result A
answers (ok r) = ok r.0
answers (err e) = err e

answers-same : {A B : Type 0} (m : Result A) (b : B) → answers (m >>= λ a. ok (a, b)) ≡ m
unfolding answers
answers-same (ok a) b = refl
answers-same (err e) b = refl

answers-then :
    {A B C : Type 0} (m : Result (A × B)) (f : A → C)
    → answers (m >>= λ r. ok (f r.0, r.1)) ≡ (answers m >>= λ a. ok (f a))
unfolding answers
answers-then (ok r) f = refl
answers-then (err e) f = refl

then-map :
    {A B : Type 0} (m : Result (Unit {0})) (f : A → B) (a : A)
    → ((m >> ok a) >>= λ x. ok (f x)) ≡ (m >> ok (f a))
then-map (ok u) f a = refl
then-map (err e) f a = refl

-- The entry holds what its key selects.
abbrev pub IsCoherent : BrowseState → RevisionCacheEntry → Type 0
IsCoherent s e = (e.refs ≡ select s e.key) × IsAt e

module _ (key_bytes : Selector → ℕ) (limits : CacheLimits) (channel_id : Text) where
  under_eq : (key : Selector) (x : RevisionCacheEntry) → is_under key x ≡ true → key ≡ x.key
  unfolding is_under
  under_eq key x k = selector_eq→eq key x.key k

  cached-select :
      (s : BrowseState) (c : RevisionCache) (key : Selector) {e : RevisionCacheEntry}
      → Each (IsCoherent s) c
      → cached key c ≡ some e
      → e.refs ≡ select s key
  unfolding cached
  cached-select s c key {e} hs h =
      let here = find-All (IsCoherent s) (is_under key) c.entries hs h in
      here.0 ∙ ap (select s) (sym (under_eq key e (find-holds (is_under key) c.entries h)))

  revisions-answer :
      (i : BrowseIndex) (q : RevisionBrowseQuery)
      → Each (IsCoherent i.state) i.cache
      → answers (revisions key_bytes limits channel_id i q) ≡ (
          assert_selector channel_id q.selector
          >> ok (page (select i.state q.selector) q.offset q.limit))
  unfolding revisions answers
  revisions-answer i q hs = elim (Result-cases (assert_selector channel_id q.selector)) [
    | inl (e, h) ↦ rw h
    | inr (u, h) ↦ elim (Option-cases (cached q.selector i.cache)) [
      | inl k ↦ rw (revisions, h, k)
      | inr (e, k) ↦
          rw (revisions, h, k)
            (ap (λ refs. ok (page refs q.offset q.limit))
              (cached-select i.state i.cache q.selector hs k))
    ]
  ]

  answer-revisions :
      (i : BrowseIndex) (q : RevisionBrowseQuery)
      → Each (IsCoherent i.state) i.cache
      → answers (query key_bytes limits channel_id i (of_revisions q))
        ≡ answer channel_id i.state (of_revisions q)
  unfolding query answer answers
  answer-revisions i q hs = elim (Result-cases (assert_checkpoint q.selector.at channel_id)) [
    | inl (e, h) ↦ rw h
    | inr (u, h) ↦ elim (Result-cases (assert_range q.offset q.limit)) [
      | inl (e, k) ↦ rw (h, k)
      | inr (v, k) ↦
          rw (h, k)
            (answers-then (revisions key_bytes limits channel_id i q) revision_page
              ∙ ap (λ m. m >>= λ a. ok (revision_page a)) (revisions-answer i q hs)
              ∙ then-map (assert_selector channel_id q.selector) revision_page _)
    ]
  ]

  query-answers :
      (i : BrowseIndex) (q : BrowseQuery)
      → Each (IsCoherent i.state) i.cache
      → answers (query key_bytes limits channel_id i q) ≡ answer channel_id i.state q
  unfolding query
  query-answers i (of_revisions q) hs = answer-revisions i q hs
  query-answers i (of_proposals q) hs = answers-same (answer channel_id i.state (of_proposals q)) i
  query-answers i (of_annotations q) hs =
      answers-same (answer channel_id i.state (of_annotations q)) i

  revisions-keeps :
      (i : BrowseIndex) (q : RevisionBrowseQuery)
      {found : BrowsePage RevisionBrowseRef × BrowseIndex}
      → Each (IsCoherent i.state) i.cache
      → revisions key_bytes limits channel_id i q ≡ ok found
      → (found.1.state ≡ i.state) × Each (IsCoherent i.state) found.1.cache
  unfolding revisions cached
  revisions-keeps i q {found} hs h =
      let (u, checked, rest) = >>=-eq-ok (assert_selector channel_id q.selector) _ h in
      elim (Option-cases (find (is_under q.selector) i.cache.entries)) [
        | inl k ↦
            subst
              (λ (p : BrowsePage RevisionBrowseRef × BrowseIndex).
                (p.1.state ≡ i.state) × Each (IsCoherent i.state) p.1.cache)
              (ok_eq (rw k at rest))
              (
                refl,
                cache_revisions-Each (IsCoherent i.state) key_bytes limits q.selector
                    (select i.state q.selector) q.selector.at i.cache (refl, refl) hs,
              )
        | inr (e, k) ↦
            subst
              (λ (p : BrowsePage RevisionBrowseRef × BrowseIndex).
                (p.1.state ≡ i.state) × Each (IsCoherent i.state) p.1.cache)
              (ok_eq (rw k at rest))
              (
                refl,
                touch-Each (IsCoherent i.state) e i.cache
                    (find-All (IsCoherent i.state) (is_under q.selector) i.cache.entries hs k) hs,
              )
      ]

  -- A query leaves the state as it is, and its cache coherent.
  pub query-keeps :
      (i : BrowseIndex) (q : BrowseQuery) {found : BrowseResult} {j : BrowseIndex}
      → Each (IsCoherent i.state) i.cache
      → query key_bytes limits channel_id i q ≡ ok (found, j)
      → (j.state ≡ i.state) × Each (IsCoherent i.state) j.cache
  unfolding query
  query-keeps i (of_revisions q) {found} {j} hs h =
      let (u, h1, k1) = >>=-eq-ok (assert_checkpoint q.selector.at channel_id) _ h in
      let (v, h2, k2) = >>=-eq-ok (assert_range q.offset q.limit) _ k1 in
      let (pair, h3, k3) = >>=-eq-ok (revisions key_bytes limits channel_id i q) _ k2 in
      subst (λ (x : BrowseIndex). (x.state ≡ i.state) × Each (IsCoherent i.state) x.cache)
        (ap (λ p. p.1) (ok_eq k3)) (revisions-keeps i q hs h3)
  query-keeps i (of_proposals q) {found} {j} hs h =
      let (r, h1, k1) = >>=-eq-ok (answer channel_id i.state (of_proposals q)) _ h in
      subst (λ (x : BrowseIndex). (x.state ≡ i.state) × Each (IsCoherent i.state) x.cache)
        (ap (λ p. p.1) (ok_eq k1)) (refl, hs)
  query-keeps i (of_annotations q) {found} {j} hs h =
      let (r, h1, k1) = >>=-eq-ok (answer channel_id i.state (of_annotations q)) _ h in
      subst (λ (x : BrowseIndex). (x.state ≡ i.state) × Each (IsCoherent i.state) x.cache)
        (ap (λ p. p.1) (ok_eq k1)) (refl, hs)

module _ (locale_compare : Text → Text → Ordering) (locale : IsOrder locale_compare) where
  abbrev pub IsSound : BrowseIndex → Type 0
  IsSound i = IsConsistent locale_compare locale i.state × Each (IsCoherent i.state) i.cache

  commit-IsSound :
      (sha256 : List ℕ → Text) (channel_id : Text) (before : BrowseState)
      (batches : List BrowseWriteBatch) (d : Delta) (i : BrowseIndex) {j : BrowseIndex}
      → IsSound i
      → prepare sha256 locale_compare channel_id before batches ≡ ok d
      → commit locale_compare d i ≡ ok j
      → IsSound j
  unfolding commit touched
  commit-IsSound sha256 channel_id before batches d i {j} sound ready h =
      let (u, checked, done) = >>=-eq-ok (check_delta locale_compare i.state d) _ h in
      let fine =
        check_delta-IsChecked locale_compare locale i.state d
          (prepare-IsApart sha256 locale_compare channel_id before batches ready) checked in
      let refs =
        fresh (revision_kind locale_compare) i.state.revisions_by_key d.revisions
        ++ demoted (revision_kind locale_compare) i.state.revisions_by_key d.revisions in
      subst IsSound (ok_eq done) (
        merge_delta-IsConsistent locale_compare locale i.state d sound.0 fine,
        All-map {Q = IsCoherent (merge_delta locale_compare i.state d)}
            (λ e k. (
              k.0.0
                  ∙ sym (
                      select-merge_delta locale_compare locale i.state d e.key sound.0 fine (
                        subst (λ c. All (λ r. visible r.published_checkpoint c ≡ false) refs) k.0.1
                          k.1)),
              k.0.1,
            ))
            (invalidate refs i.cache).entries
            (each_both (IsCoherent i.state) _ (invalidate refs i.cache).entries
              (invalidate-Each (IsCoherent i.state) refs i.cache sound.1)
              (invalidate-hidden refs i.cache
                (All-map {Q = IsAt} (λ e k. k.1) i.cache.entries sound.1))),
      )

  module _ (sha256 : List ℕ → Text) (key_bytes : Selector → ℕ) (limits : CacheLimits)
      (channel_id : Text) where
    pub Reaches-IsSound :
        (i : BrowseIndex) → Reaches sha256 locale_compare key_bytes limits channel_id i → IsSound i
    Reaches-IsSound i start = (empty-IsConsistent locale_compare locale, tt)
    Reaches-IsSound j (after {i} before (queried q found h)) =
        let sound = Reaches-IsSound i before in
        let kept = query-keeps key_bytes limits channel_id i q sound.1 h in
        subst (λ s. IsConsistent locale_compare locale s × Each (IsCoherent s) j.cache) (sym kept.0)
          (sound.0, kept.1)
    Reaches-IsSound j (after {i} before (committed s batches d ready h)) =
        commit-IsSound sha256 channel_id s batches d i (Reaches-IsSound i before) ready h

    -- After any commits and queries, a query through the cache answers what the state alone answers, when
    -- the order of the locale is consistent.
    pub query-answer :
        (i : BrowseIndex) (q : BrowseQuery)
        → Reaches sha256 locale_compare key_bytes limits channel_id i
        → answers (query key_bytes limits channel_id i q) ≡ answer channel_id i.state q
    query-answer i q reached =
        query-answers key_bytes limits channel_id i q (Reaches-IsSound i reached).1

    -- A query of the revisions at a checkpoint is not changed by the commit of batches of later
    -- checkpoints, when the order of the locale is consistent.
    pub commit_later-answer :
        (i : BrowseIndex) (before : BrowseState) (batches : List BrowseWriteBatch) (d : Delta)
        (j : BrowseIndex) (q : RevisionBrowseQuery)
        → Reaches sha256 locale_compare key_bytes limits channel_id i
        → prepare sha256 locale_compare channel_id before batches ≡ ok d
        → commit locale_compare d i ≡ ok j
        → All (λ b. visible b.checkpoint q.selector.at ≡ false) batches
        → answer channel_id j.state (of_revisions q) ≡ answer channel_id i.state (of_revisions q)
    unfolding commit answer
    commit_later-answer i before batches d j q reached ready h later =
        let sound = Reaches-IsSound i reached in
        let (u, checked, done) = >>=-eq-ok (check_delta locale_compare i.state d) _ h in
        let fine =
          check_delta-IsChecked locale_compare locale i.state d
            (prepare-IsApart sha256 locale_compare channel_id before batches ready) checked in
        let behind =
          prepare-IsBehind sha256 locale_compare channel_id q.selector.at before batches later
            ready in
        let same = select-merge_delta locale_compare locale i.state d q.selector sound.0 fine (
          touched-IsBehind locale_compare q.selector.at i.state.revisions_by_key d.revisions
            behind) in
        let state : j.state ≡ merge_delta locale_compare i.state d =
          ap (λ (x : BrowseIndex). x.state) (sym (ok_eq done)) in
        rw (state, same)
