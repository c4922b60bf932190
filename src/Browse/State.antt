-- ===== src/Browse/State.antt =====
-- `BrowseState`, `prepare` and the part of `commit` that changes the state, in
-- packages/storage/browse-index.ts.
use Prim.Native.Nat.{Ordering}
use knowledger.Base.{
  ℕ, Bool, true, false, not, ◌&&◌, ◌||◌, List, [], ◌∷◌, Option, none, some, Text, text, text_eq,
  if◌then◌else◌,
}
use knowledger.Fault.{Result, ok, thrown_error, fail_if, ◌>>=◌, ◌>>◌}
use knowledger.Json.{Json}
use knowledger.Contracts.Slot.{slot_text}
use knowledger.Contracts.Revision.{validate_revision}
use knowledger.Contracts.Proposal.{validate_proposal}
use knowledger.Contracts.Agreement.{validate_agreement}
use knowledger.Ledger.Keys.{state_key, revision_key, proposal_key, agreement_key}
use knowledger.Browse.Refs.{
  Checkpoint, RevisionBrowseRef, ProposalBrowseRef, AgreementBrowseRef, assert_checkpoint,
  revision_kind, proposal_kind, agreement_kind,
}
use knowledger.Browse.Merge.{
  Changes, no_changes, record_ref, fresh, demoted, assert_consistent, merge_all, merge_by_key,
  merge_bucket,
}

pub record BrowseState : Type 0 where
  pub revisions_by_key : Text → Option RevisionBrowseRef
  pub revisions : List RevisionBrowseRef
  pub revisions_by_slot : Text → List RevisionBrowseRef
  pub revisions_by_document : Text → List RevisionBrowseRef
  pub proposals_by_key : Text → Option ProposalBrowseRef
  pub proposals : List ProposalBrowseRef
  pub proposals_by_revision : Text → List ProposalBrowseRef
  pub agreements_by_key : Text → Option AgreementBrowseRef
  pub agreements_by_revision : Text → List AgreementBrowseRef

-- `emptyState()`; a bucket that is missing is read as an empty one.
abbrev pub empty_state : BrowseState
empty_state = record {
  revisions_by_key = λ k. none;
  revisions = [];
  revisions_by_slot = λ b. [];
  revisions_by_document = λ b. [];
  proposals_by_key = λ k. none;
  proposals = [];
  proposals_by_revision = λ b. [];
  agreements_by_key = λ k. none;
  agreements_by_revision = λ b. [];
}

pub record BrowseWriteBatch : Type 0 where
  pub checkpoint : Checkpoint
  pub writes : List (Text × Json)

-- What `prepare` collects and `commit` applies.
pub record Delta : Type 0 where
  pub revisions : Changes RevisionBrowseRef
  pub proposals : Changes ProposalBrowseRef
  pub agreements : Changes AgreementBrowseRef

abbrev pub no_delta : Delta
no_delta = record { revisions = no_changes; proposals = no_changes; agreements = no_changes }

-- `String.prototype.startsWith`
unfoldable pub starts_with : Text → Text → Bool
starts_with [] key = true
starts_with (a ∷ prefix) [] = false
starts_with (a ∷ prefix) (b ∷ key) = text_eq (a ∷ []) (b ∷ []) && starts_with prefix key

unfoldable pub is_block_only : Checkpoint → Bool
is_block_only c = elim c.transaction_index [ none ↦ true | some n ↦ false ]

unfoldable pub is_empty : List (Text × Json) → Bool
is_empty [] = true
is_empty (w ∷ ws) = false

module _ (sha256 : List ℕ → Text) (locale_compare : Text → Text → Ordering)
    (channel_id : Text) where
  -- The reference of a write of each kind, bound to its key and to the channel.
  unfoldable pub revision_ref : Checkpoint → Text → Json → Result RevisionBrowseRef
  revision_ref checkpoint key value = do
    revision ← validate_revision sha256 value
    expected ← state_key (revision_key revision.revision_digest)
    fail_if
        (not (text_eq key expected) || not (text_eq revision.payload.slot.channel_id channel_id))
        thrown_error
    ok (record {
      key = key;
      revision_digest = revision.revision_digest;
      slot = revision.payload.slot;
      published_checkpoint = checkpoint;
    })

  unfoldable pub proposal_ref : Checkpoint → Text → Json → Result ProposalBrowseRef
  proposal_ref checkpoint key value = do
    proposal ← validate_proposal value
    expected ← state_key (proposal_key proposal.proposal_id)
    fail_if (not (text_eq key expected) || not (text_eq proposal.slot.channel_id channel_id))
        thrown_error
    ok (record {
      key = key;
      proposal_id = proposal.proposal_id;
      revision_digest = proposal.revision_digest;
      slot = proposal.slot;
      created_at = proposal.created_at;
      published_checkpoint = checkpoint;
    })

  unfoldable pub agreement_ref : Checkpoint → Text → Json → Result AgreementBrowseRef
  agreement_ref checkpoint key value = do
    agreement ← validate_agreement value
    expected ← state_key (agreement_key agreement.agreement_id)
    fail_if (not (text_eq key expected) || not (text_eq agreement.slot.channel_id channel_id))
        thrown_error
    ok (record {
      key = key;
      agreement_id = agreement.agreement_id;
      revision_digest = agreement.revision_digest;
      slot = agreement.slot;
      activated_at = agreement.activated_at;
      published_checkpoint = checkpoint;
    })

  unfoldable pub prepare_write : BrowseState → Checkpoint → Delta → Text → Json → Result Delta
  prepare_write s checkpoint d key value =
      if starts_with (text "kcl:v1:revision:") key
      then (do
        ref ← revision_ref checkpoint key value
        changes ← record_ref (revision_kind locale_compare) s.revisions_by_key d.revisions ref
        ok (record { revisions = changes; proposals = d.proposals; agreements = d.agreements }))
      else if starts_with (text "kcl:v1:proposal:") key
      then (do
        ref ← proposal_ref checkpoint key value
        changes ← record_ref (proposal_kind locale_compare) s.proposals_by_key d.proposals ref
        ok (record { revisions = d.revisions; proposals = changes; agreements = d.agreements }))
      else if starts_with (text "kcl:v1:agreement:") key
      then (do
        ref ← agreement_ref checkpoint key value
        changes ← record_ref agreement_kind s.agreements_by_key d.agreements ref
        ok (record { revisions = d.revisions; proposals = d.proposals; agreements = changes }))
      else ok d

  unfoldable pub prepare_writes :
      BrowseState → Checkpoint → List (Text × Json) → Delta → Result Delta
  prepare_writes s checkpoint [] d = ok d
  prepare_writes s checkpoint (w ∷ ws) d = do
    next ← prepare_write s checkpoint d w.0 w.1
    prepare_writes s checkpoint ws next

  unfoldable pub prepare_batches : BrowseState → List BrowseWriteBatch → Delta → Result Delta
  prepare_batches s [] d = ok d
  prepare_batches s (batch ∷ rest) d = do
    assert_checkpoint batch.checkpoint channel_id
    fail_if (is_block_only batch.checkpoint && not (is_empty batch.writes)) thrown_error
    next ← prepare_writes s batch.checkpoint batch.writes d
    prepare_batches s rest next

  -- `prepare(batches)`, whose state is the one at that time.
  unfoldable pub prepare : BrowseState → List BrowseWriteBatch → Result Delta
  prepare s batches = prepare_batches s batches no_delta

module _ (locale_compare : Text → Text → Ordering) where
  -- The first part of `commit`: the comparison with the state at that time.
  unfoldable pub check_delta : BrowseState → Delta → Result (Unit {0})
  check_delta s d = do
    assert_consistent (revision_kind locale_compare) s.revisions_by_key d.revisions
    assert_consistent (proposal_kind locale_compare) s.proposals_by_key d.proposals
    assert_consistent agreement_kind s.agreements_by_key d.agreements

  -- The third part of `commit`: the delta of each kind goes into its indexes.
  unfoldable pub merge_delta : BrowseState → Delta → BrowseState
  merge_delta s d =
      let revision = revision_kind locale_compare in
      let fresh_revisions = fresh revision s.revisions_by_key d.revisions in
      let demoted_revisions = demoted revision s.revisions_by_key d.revisions in
      let proposal = proposal_kind locale_compare in
      let fresh_proposals = fresh proposal s.proposals_by_key d.proposals in
      let demoted_proposals = demoted proposal s.proposals_by_key d.proposals in
      let fresh_agreements = fresh agreement_kind s.agreements_by_key d.agreements in
      let demoted_agreements = demoted agreement_kind s.agreements_by_key d.agreements in
      record {
        revisions_by_key =
            merge_by_key revision fresh_revisions demoted_revisions s.revisions_by_key;
        revisions = merge_all revision fresh_revisions demoted_revisions s.revisions;
        revisions_by_slot =
            merge_bucket revision (λ r. slot_text r.slot) fresh_revisions demoted_revisions
              s.revisions_by_slot;
        revisions_by_document =
            merge_bucket revision (λ r. r.slot.document_id) fresh_revisions demoted_revisions
              s.revisions_by_document;
        proposals_by_key =
            merge_by_key proposal fresh_proposals demoted_proposals s.proposals_by_key;
        proposals = merge_all proposal fresh_proposals demoted_proposals s.proposals;
        proposals_by_revision =
            merge_bucket proposal (λ r. r.revision_digest) fresh_proposals demoted_proposals
              s.proposals_by_revision;
        agreements_by_key =
            merge_by_key agreement_kind fresh_agreements demoted_agreements s.agreements_by_key;
        agreements_by_revision =
            merge_bucket agreement_kind (λ r. r.revision_digest) fresh_agreements demoted_agreements
              s.agreements_by_revision;
      }
