-- ===== src/Commands/Propose.antt =====
-- `assertPolicyMatchesRevision` and `executePropose` of packages/domain/index.ts.
use knowledger.Base.{ℕ, ◌&&◌, List, [], ◌∷◌, none, some, Text, text, text_eq, ◌==◌}
use knowledger.Fault.{
  Result, ok, err, failure, forbidden, scope_mismatch, revision_not_found, immutable_conflict,
  proposal_replay, require, fail_if, ◌>>=◌, ◌>>◌,
}
use knowledger.Json.{num, whole, str, Fields, prop, assert_keys, assert_safe_integer}
use knowledger.Contracts.Identifiers.{assert_id, assert_digest}
use knowledger.Contracts.Slot.{slot_key, same_slot}
use knowledger.Contracts.Actor.{Context}
use knowledger.Contracts.Revision.{DocumentRevision, validate_revision}
use knowledger.Contracts.Policy.{AgreementPolicy, encode_policy}
use knowledger.Contracts.Config.{DomainConfig, configured_identity, policy_for}
use knowledger.Contracts.Proposal.{
  AgreementProposal, open_for_review, encode_proposal, validate_proposal,
}
use knowledger.Ledger.Keys.{revision_key, proposal_key, review_counter_key, policy_key}
use knowledger.Ledger.Store.{Store, read, read_or, put, put_clone}
use knowledger.Commands.Replies.{Outcome, reply}

unfoldable pub assert_policy_matches_revision :
    AgreementPolicy → DocumentRevision → Result (Unit {0})
assert_policy_matches_revision policy revision = do
  same ← same_slot policy.slot revision.payload.slot
  require same (failure scope_mismatch 409)

-- A proposal id is used once; a replay of the same proposal has its own error.
unfoldable pub assert_unused : Text → DocumentRevision → AgreementPolicy → Store → Result (Unit {0})
assert_unused proposal_id revision policy s = elim (read (proposal_key proposal_id) s) [
  | none ↦ ok tt
  | some v ↦ do
    existing ← validate_proposal v
    fail_if
        (text_eq existing.revision_digest revision.revision_digest
          && text_eq existing.policy_id policy.policy_id
          && existing.policy_version == policy.policy_version)
        (failure proposal_replay 409)
    err (failure immutable_conflict 409)
]

unfoldable pub new_proposal :
    Context → DomainConfig → Text → DocumentRevision → AgreementPolicy → AgreementProposal
new_proposal ctx config proposal_id revision policy = record {
  proposal_id = proposal_id;
  revision_digest = revision.revision_digest;
  policy_id = policy.policy_id;
  policy_version = policy.policy_version;
  membership_epoch = config.membership_epoch;
  role_binding_version = config.role_binding_version;
  config_version = config.config_version;
  status = open_for_review;
  created_by = ctx.actor;
  created_at = ctx.timestamp;
  review_counter = 0;
  slot = revision.payload.slot;
  agreement_id = none;
}

-- The writes and the reply.
unfoldable pub open_proposal : AgreementProposal → AgreementPolicy → Store → Outcome
open_proposal proposal policy s = do
  s1 ← put_clone (proposal_key proposal.proposal_id) (encode_proposal proposal) s
  let s2 = put (review_counter_key proposal.proposal_id) (num (whole 0)) s1
  s3 ← put_clone (policy_key policy.policy_id policy.policy_version) (encode_policy policy) s2
  slot ← slot_key proposal.slot
  ok (
    reply "proposed" (
        (text "proposal_id", str proposal.proposal_id)
        ∷ (text "revision_digest", str proposal.revision_digest)
        ∷ (text "slot", str slot)
        ∷ []),
    s3,
  )

-- A proposal that passed every check, with its policy.
pub record Admitted : Type 0 where
  pub proposal : AgreementProposal
  pub policy : AgreementPolicy

module _ (sha256 : List ℕ → Text) where
  -- `executePropose` up to its first write.
  unfoldable pub admit_proposal : Context → DomainConfig → Fields → Store → Result Admitted
  admit_proposal ctx config input s = do
    identity ← configured_identity config ctx.actor
    assert_keys input
        (text "proposal_id"
          ∷ text "revision_digest"
          ∷ text "policy_id"
          ∷ text "policy_version"
          ∷ [])
        []
    proposal_id ← assert_id (prop (text "proposal_id") input)
    revision_digest ← assert_digest (prop (text "revision_digest") input)
    policy_id ← assert_id (prop (text "policy_id") input)
    policy_version ← assert_safe_integer (prop (text "policy_version") input) 1
    require identity.can_propose (failure forbidden 403)
    value ← read_or (failure revision_not_found 404) (revision_key revision_digest) s
    revision ← validate_revision sha256 value
    policy ← policy_for config policy_id policy_version
    assert_policy_matches_revision policy revision
    assert_unused proposal_id revision policy s
    ok (record { proposal = new_proposal ctx config proposal_id revision policy; policy = policy })

  unfoldable pub execute_propose : Context → DomainConfig → Fields → Store → Outcome
  execute_propose ctx config input s = do
    a ← admit_proposal ctx config input s
    open_proposal a.proposal a.policy s
