-- ===== src/Browse/Query.antt =====
-- The queries of packages/storage/browse-contract.ts, and in packages/storage/browse-index.ts their
-- checks, what each selects of the state and the page of it, all without the cache.
use knowledger.Base.{
  ℕ, Bool, true, false, ◌&&◌, ◌||◌, List, [], ◌∷◌, Option, none, some, Text, text_eq, includes, any,
  all, find, filter, take, drop, length, ltb, leb, if◌then◌else◌,
}
use knowledger.Fault.{Result, ok, err, thrown_error, require, fail_if, ◌>>=◌, ◌>>◌}
use knowledger.Json.{max_safe_integer}
use knowledger.Contracts.Slot.{Slot, slot_text, slot_key}
use knowledger.Ledger.Keys.{state_key, revision_key}
use knowledger.Browse.Refs.{
  Checkpoint, RevisionBrowseRef, ProposalBrowseRef, AgreementBrowseRef, assert_checkpoint, visible,
}
use knowledger.Browse.State.{BrowseState}

pub data Mode : Type 0 where
  latest_per_slot all_revisions of_slot of_document : Mode

-- The part of a revision query that `revisionCacheKey` writes.
pub record Selector : Type 0 where
  pub at : Checkpoint
  pub mode : Mode
  pub slot : Option Slot
  pub document_id : Option Text
  pub context_id : Option Text
  pub scope_id : Option Text
  pub usage_scope : Option Text

pub record RevisionBrowseQuery : Type 0 where
  pub selector : Selector
  pub offset : ℕ
  pub limit : ℕ

pub record ProposalBrowseQuery : Type 0 where
  pub at : Checkpoint
  pub revision_digest : Option Text
  pub offset : ℕ
  pub limit : ℕ

pub record AnnotationBrowseQuery : Type 0 where
  pub at : Checkpoint
  pub revision_digests : List Text

pub data BrowseQuery : Type 0 where
  of_revisions : RevisionBrowseQuery → BrowseQuery
  of_proposals : ProposalBrowseQuery → BrowseQuery
  of_annotations : AnnotationBrowseQuery → BrowseQuery

pub record BrowsePage (R : Type 0) : Type 0 where
  pub items : List R
  pub total : ℕ

pub record RevisionBrowseAnnotation : Type 0 where
  pub revision_digest : Text
  pub revision : Option RevisionBrowseRef
  pub has_proposal : Bool
  pub agreement : Option AgreementBrowseRef

pub data BrowseResult : Type 0 where
  revision_page : BrowsePage RevisionBrowseRef → BrowseResult
  proposal_page : BrowsePage ProposalBrowseRef → BrowseResult
  annotations : List RevisionBrowseAnnotation → BrowseResult

unfoldable pub page : {R : Type 0} → List R → ℕ → ℕ → BrowsePage R
page values offset limit = record { items = take limit (drop offset values); total = length values }

unfoldable pub assert_range : ℕ → ℕ → Result (Unit {0})
assert_range offset limit =
    fail_if (ltb max_safe_integer offset || ltb limit 1 || ltb 1000 limit) thrown_error

-- `selector !== undefined && selector.length < 1` fails.
unfoldable pub is_given : Option Text → Bool
is_given none = true
is_given (some t) = leb 1 (length t)

unfoldable pub assert_mode : Text → Selector → Result (Unit {0})
assert_mode channel_id s = elim s.mode [
  | latest_per_slot ↦ ok tt
  | all_revisions ↦ ok tt
  | of_slot ↦ elim s.slot [
    | none ↦ err thrown_error
    | some slot ↦ do
      require (text_eq slot.channel_id channel_id) thrown_error
      checked ← slot_key slot
      ok tt
  ]
  | of_document ↦ elim s.document_id [
    | none ↦ err thrown_error
    | some t ↦ require (leb 1 (length t)) thrown_error
  ]
]

unfoldable pub assert_selector : Text → Selector → Result (Unit {0})
assert_selector channel_id s = do
  require
      (is_given s.document_id
        && is_given s.context_id
        && is_given s.scope_id
        && is_given s.usage_scope)
      thrown_error
  assert_mode channel_id s

-- `query.field === undefined || item.slot.field === query.field`
unfoldable pub agrees : Option Text → Text → Bool
agrees none t = true
agrees (some wanted) t = text_eq t wanted

unfoldable pub is_selected : Selector → RevisionBrowseRef → Bool
is_selected s item =
    visible item.published_checkpoint s.at
    && agrees s.document_id item.slot.document_id
    && agrees s.context_id item.slot.context_id
    && agrees s.scope_id item.slot.scope_id
    && agrees s.usage_scope item.slot.usage_scope

-- The filter by the slots that were seen.
unfoldable pub first_of_slots : List Text → List RevisionBrowseRef → List RevisionBrowseRef
first_of_slots seen [] = []
first_of_slots seen (item ∷ rest) =
    let key = slot_text item.slot in
    let more = first_of_slots (key ∷ seen) rest in
    let same = first_of_slots seen rest in if includes key seen then same else item ∷ more

-- The candidates of a selector that was checked.
unfoldable pub candidates_of :
    Mode → Option Slot → Option Text → BrowseState → List RevisionBrowseRef
candidates_of latest_per_slot slot document_id state = state.revisions
candidates_of all_revisions slot document_id state = state.revisions
candidates_of of_slot none document_id state = []
candidates_of of_slot (some slot) document_id state = state.revisions_by_slot (slot_text slot)
candidates_of of_document slot none state = []
candidates_of of_document slot (some t) state = state.revisions_by_document t

unfoldable pub candidates : BrowseState → Selector → List RevisionBrowseRef
candidates state s = candidates_of s.mode s.slot s.document_id state

unfoldable pub is_latest_per_slot : Mode → Bool
is_latest_per_slot latest_per_slot = true
is_latest_per_slot all_revisions = false
is_latest_per_slot of_slot = false
is_latest_per_slot of_document = false

unfoldable pub select : BrowseState → Selector → List RevisionBrowseRef
select state s =
    let selected = filter (is_selected s) (candidates state s) in
    if is_latest_per_slot s.mode then first_of_slots [] selected else selected

unfoldable pub proposals : BrowseState → ProposalBrowseQuery → Result (BrowsePage ProposalBrowseRef)
proposals state q = do
  require (is_given q.revision_digest) thrown_error
  let found : List ProposalBrowseRef = elim q.revision_digest [
    | none ↦ state.proposals
    | some digest ↦ state.proposals_by_revision digest
  ]
  ok (page (filter (λ r. visible r.published_checkpoint q.at) found) q.offset q.limit)

-- `revision && visible(...)`
unfoldable pub visible_revision : Checkpoint → Option RevisionBrowseRef → Option RevisionBrowseRef
visible_revision at none = none
visible_revision at (some r) = if visible r.published_checkpoint at then some r else none

unfoldable pub annotate : BrowseState → Checkpoint → Text → Result RevisionBrowseAnnotation
annotate state at digest = do
  key ← state_key (revision_key digest)
  ok (record {
    revision_digest = digest;
    revision = visible_revision at (state.revisions_by_key key);
    has_proposal =
        any (λ r. visible r.published_checkpoint at) (state.proposals_by_revision digest);
    agreement = find (λ r. visible r.published_checkpoint at) (state.agreements_by_revision digest);
  })

unfoldable pub annotate_all :
    BrowseState → Checkpoint → List Text → Result (List RevisionBrowseAnnotation)
annotate_all state at [] = ok []
annotate_all state at (digest ∷ rest) = do
  first ← annotate state at digest
  others ← annotate_all state at rest
  ok (first ∷ others)

unfoldable pub annotation_list :
    BrowseState → AnnotationBrowseQuery → Result (List RevisionBrowseAnnotation)
annotation_list state q = do
  fail_if (ltb 1000 (length q.revision_digests)) thrown_error
  require (all (λ t. leb 1 (length t)) q.revision_digests) thrown_error
  annotate_all state q.at q.revision_digests

-- The answer to a query by the state alone.
unfoldable pub answer : Text → BrowseState → BrowseQuery → Result BrowseResult
answer channel_id state (of_revisions q) = do
  assert_checkpoint q.selector.at channel_id
  assert_range q.offset q.limit
  assert_selector channel_id q.selector
  ok (revision_page (page (select state q.selector) q.offset q.limit))
answer channel_id state (of_proposals q) = do
  assert_checkpoint q.at channel_id
  assert_range q.offset q.limit
  found ← proposals state q
  ok (proposal_page found)
answer channel_id state (of_annotations q) = do
  assert_checkpoint q.at channel_id
  found ← annotation_list state q
  ok (annotations found)
