-- ===== src/Browse/Index.antt =====
-- `VerifiedBrowseIndex` of packages/storage/browse-index.ts: `query` and `commit` on the state with its
-- cache, and the states that they reach from the constructor's.
use Prim.Native.Nat.{Ordering}
use knowledger.Base.{ℕ, ◌≡◌, List, ◌++◌, none, some, Text}
use knowledger.Fault.{Result, ok, ◌>>=◌, ◌>>◌}
use knowledger.Browse.Refs.{RevisionBrowseRef, assert_checkpoint, revision_kind}
use knowledger.Browse.Merge.{fresh, demoted}
use knowledger.Browse.State.{
  BrowseState, BrowseWriteBatch, Delta, empty_state, prepare, check_delta, merge_delta,
}
use knowledger.Browse.Query.{
  Selector, RevisionBrowseQuery, BrowseQuery, of_revisions, of_proposals, of_annotations,
  BrowsePage, BrowseResult, revision_page, page, assert_range, assert_selector, select, answer,
}
use knowledger.Browse.Cache.{
  CacheLimits, RevisionCache, empty_cache, cached, touch, count_miss, cache_revisions, invalidate,
}

pub record BrowseIndex : Type 0 where
  pub state : BrowseState
  pub cache : RevisionCache

abbrev pub new_index : BrowseIndex
new_index = record { state = empty_state; cache = empty_cache }

module _ (key_bytes : Selector → ℕ) (limits : CacheLimits) (channel_id : Text) where
  -- `revisions(query)`
  unfoldable pub revisions :
      BrowseIndex → RevisionBrowseQuery → Result (BrowsePage RevisionBrowseRef × BrowseIndex)
  revisions i q = do
    assert_selector channel_id q.selector
    ok (elim (cached q.selector i.cache) [
      | some entry ↦ (
        page entry.refs q.offset q.limit,
        record { state = i.state; cache = touch entry i.cache },
      )
      | none ↦
          let selected = select i.state q.selector in
          (
            page selected q.offset q.limit,
            record {
              state = i.state;
              cache =
                  cache_revisions key_bytes limits q.selector selected q.selector.at
                    (count_miss i.cache);
            },
          )
    ])

  -- `query(query)`
  unfoldable pub query : BrowseIndex → BrowseQuery → Result (BrowseResult × BrowseIndex)
  query i (of_revisions q) = do
    assert_checkpoint q.selector.at channel_id
    assert_range q.offset q.limit
    found ← revisions i q
    ok (revision_page found.0, found.1)
  query i (of_proposals q) = do found ← answer channel_id i.state (of_proposals q); ok (found, i)
  query i (of_annotations q) = do
    found ← answer channel_id i.state (of_annotations q)
    ok (found, i)

module _ (locale_compare : Text → Text → Ordering) where
  -- The revision references that a commit changes.
  unfoldable pub touched : BrowseState → Delta → List RevisionBrowseRef
  touched s d =
      let kind = revision_kind locale_compare in
      fresh kind s.revisions_by_key d.revisions ++ demoted kind s.revisions_by_key d.revisions

  -- `commit()`, of what a `prepare` has collected.
  unfoldable pub commit : Delta → BrowseIndex → Result BrowseIndex
  commit d i = do
    check_delta locale_compare i.state d
    ok (record {
      state = merge_delta locale_compare i.state d;
      cache = invalidate (touched i.state d) i.cache;
    })

module _ (sha256 : List ℕ → Text) (locale_compare : Text → Text → Ordering)
    (key_bytes : Selector → ℕ) (limits : CacheLimits) (channel_id : Text) where
  -- A step of an index: a query, or the commit of what was prepared in any earlier state.
  pub data Step (i j : BrowseIndex) : Type 0 where
    queried :
        (q : BrowseQuery) (found : BrowseResult)
        → query key_bytes limits channel_id i q ≡ ok (found, j)
        → Step i j
    committed :
        (before : BrowseState) (batches : List BrowseWriteBatch) (d : Delta)
        → prepare sha256 locale_compare channel_id before batches ≡ ok d
        → commit locale_compare d i ≡ ok j
        → Step i j

  pub data Reaches : BrowseIndex → Type 0 where
    start : Reaches new_index
    after : {i j : BrowseIndex} → Reaches i → Step i j → Reaches j
