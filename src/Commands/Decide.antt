-- ===== src/Commands/Decide.antt =====
-- `decisionLatestKey`, `getLatestDecision`, `readReviewCounter` and `executeDecide` of
-- packages/domain/index.ts.
use knowledger.Base.{
  ℕ, ◌+◌, Bool, true, false, ◌&&◌, List, [], ◌∷◌, Option, none, some, Text, text, text_eq, includes,
  leb, ◌==◌,
}
use knowledger.Fault.{
  Result, ok, failure, corrupt, forbidden, proposal_not_found, revision_not_found, stale_decision,
  stale_configuration, decision_not_allowed, immutable_conflict, retract_target_not_found,
  retract_invalid, retract_not_latest, state_limit, require, fail_if, ◌>>=◌, ◌>>◌,
}
use knowledger.Json.{
  Json, num, whole, str, Fields, prop, assert_record, assert_keys, assert_safe_integer,
  max_safe_integer, required_property, is_present,
}
use knowledger.Contracts.Identifiers.{assert_id}
use knowledger.Contracts.Slot.{same_slot}
use knowledger.Contracts.Actor.{Context}
use knowledger.Contracts.Revision.{DocumentRevision, validate_revision}
use knowledger.Contracts.Policy.{AgreementPolicy, RoleRepresentative}
use knowledger.Contracts.Config.{DomainConfig, policy_for, require_human}
use knowledger.Contracts.Proposal.{AgreementProposal, encode_proposal, validate_proposal}
use knowledger.Contracts.Agreement.{AgreementRecord}
use knowledger.Contracts.Decision.{
  ApprovalDecision, ApprovalKind, object, abstain, is_approve, is_retract, approval_text,
  encode_decision, validate_decision,
}
use knowledger.Ledger.Keys.{
  Key, revision_key, proposal_key, decision_key, latest_decision_key, review_counter_key,
}
use knowledger.Ledger.Store.{Store, read, read_or, put, put_clone}
use knowledger.Resolve.Approvals.{representative_for}
use knowledger.Commands.Replies.{Outcome, reply, pointer}
use knowledger.Commands.Propose.{assert_policy_matches_revision}
use knowledger.Commands.Suspension.{suspend_active_agreement}

abbrev pub decision_latest_key : ApprovalDecision → Key
decision_latest_key d =
    latest_decision_key d.proposal_id d.policy_version d.actor_domain_role d.actor_org_id d.actor_id

unfoldable pub get_latest_decision : ApprovalDecision → Store → Result (Option ApprovalDecision)
get_latest_decision d s = elim (read (decision_latest_key d) s) [
  | none ↦ ok none
  | some latest ↦ do
    fs ← assert_record (some latest)
    assert_keys fs (text "decision_id" ∷ []) []
    id ← assert_id (prop (text "decision_id") fs)
    value ← read_or corrupt (decision_key id) s
    found ← validate_decision value
    ok (some found)
]

unfoldable pub read_review_counter : AgreementProposal → Store → Result ℕ
read_review_counter p s = elim (read (review_counter_key p.proposal_id) s) [
  | none ↦ ok p.review_counter
  | some v ↦ do n ← assert_safe_integer (some v) 0; require (n == p.review_counter) corrupt; ok n
]

-- The decision binds the proposal, the revision and the configuration.
unfoldable pub check_binding :
    DomainConfig → AgreementProposal → DocumentRevision → ApprovalDecision → Result (Unit {0})
check_binding config p revision d = do
  require (text_eq p.revision_digest d.revision_digest) (failure stale_decision 409)
  same_proposal ← same_slot p.slot d.slot
  require same_proposal (failure stale_decision 409)
  same_revision ← same_slot revision.payload.slot d.slot
  require same_revision (failure stale_decision 409)
  require
      (text_eq p.policy_id d.policy_id
        && p.policy_version == d.policy_version
        && p.membership_epoch == d.membership_epoch
        && p.role_binding_version == d.role_binding_version)
      (failure stale_decision 409)
  require
      (text_eq d.slot.channel_id config.channel_id
        && d.membership_epoch == config.membership_epoch
        && d.role_binding_version == config.role_binding_version)
      (failure stale_configuration 409)

unfoldable pub is_representative : Context → Option RoleRepresentative → Bool
is_representative ctx none = false
is_representative ctx (some r) =
    text_eq r.actor_org_id ctx.actor.org_id && text_eq r.actor_id ctx.actor.actor_id

-- The policy allows the decision, and the actor is the role's representative.
unfoldable pub check_authority : Context → AgreementPolicy → ApprovalDecision → Result (Unit {0})
check_authority ctx policy d = do
  require (includes (approval_text d.decision) policy.allowed_decisions)
      (failure decision_not_allowed 409)
  require
      (is_representative ctx (representative_for d.actor_domain_role policy.role_representatives))
      (failure forbidden 403)
  require (text_eq d.actor_org_id ctx.actor.org_id && text_eq d.actor_id ctx.actor.actor_id)
      (failure forbidden 403)

unfoldable pub is_latest : Text → Option ApprovalDecision → Bool
is_latest id none = false
is_latest id (some d) = text_eq d.decision_id id

-- A decision names a target exactly if it is a retract (`read_retracted`). The target is the actor's
-- own latest decision, and no retract.
unfoldable pub check_retraction :
    ApprovalDecision → Option ApprovalDecision → Option Text → Store → Result (Unit {0})
check_retraction d latest none s = ok tt
check_retraction d latest (some target_id) s = do
  value ← read_or (failure retract_target_not_found 409) (decision_key target_id) s
  target ← validate_decision value
  require
      (text_eq target.actor_org_id d.actor_org_id
        && text_eq target.actor_id d.actor_id
        && text_eq target.proposal_id d.proposal_id
        && text_eq target.actor_domain_role d.actor_domain_role)
      (failure forbidden 403)
  fail_if (is_retract target.decision) (failure retract_invalid 409)
  require (is_latest target.decision_id latest) (failure retract_not_latest 409)

unfoldable pub suspension_reason : ApprovalKind → Text
suspension_reason object = text "required_representative_objected"
suspension_reason abstain = text "required_representative_abstained"
suspension_reason k = text "required_decision_retracted"

unfoldable pub suspended_field : Option AgreementRecord → List (Text × Json)
suspended_field none = []
suspended_field (some a) = (text "suspended_agreement_id", str a.agreement_id) ∷ []

unfoldable pub recorded : ApprovalDecision → Option AgreementRecord → Json
recorded d agreement = reply "recorded" (
    (text "decision_id", str d.decision_id)
    ∷ (text "proposal_id", str d.proposal_id)
    ∷ suspended_field agreement)

-- The decision, the pointer to it, and the counter in both its places.
unfoldable pub store_decision : AgreementProposal → ApprovalDecision → Store → Result Store
store_decision p d s = do
  current ← read_review_counter p s
  require (leb (current + 1) max_safe_integer) (failure state_limit 409)
  s1 ← put_clone (decision_key d.decision_id) (encode_decision d) s
  let s2 = put (decision_latest_key d) (pointer "decision_id" (str d.decision_id)) s1
  s3 ←
      put_clone (proposal_key p.proposal_id)
        (encode_proposal (record p { review_counter = current + 1 })) s2
  ok (put (review_counter_key p.proposal_id) (num (whole (current + 1))) s3)

-- Anything but an approval suspends the active agreement of the proposal.
unfoldable pub suspend_unless_approved :
    Context → AgreementProposal → ApprovalDecision → Store → Result (Option AgreementRecord × Store)
suspend_unless_approved ctx p d s = elim (is_approve d.decision) [
  | true ↦ ok (none, s)
  | false ↦ suspend_active_agreement ctx p.slot (suspension_reason d.decision) d.proposal_id s
]

unfoldable pub record_decision : Context → AgreementProposal → ApprovalDecision → Store → Outcome
record_decision ctx p d s = do
  s' ← store_decision p d s
  done ← suspend_unless_approved ctx p d s'
  ok (recorded d (done.0), done.1)

-- A decision that passed every check, with its proposal.
pub record Admitted : Type 0 where
  pub decision : ApprovalDecision
  pub proposal : AgreementProposal

module _ (sha256 : List ℕ → Text) where
  -- `executeDecide` up to its first write.
  unfoldable pub admit_decision : Context → DomainConfig → Fields → Store → Result Admitted
  admit_decision ctx config input s = do
    identity ← require_human ctx config
    assert_keys input (text "decision" ∷ []) []
    value ← required_property (text "decision") input
    d ← validate_decision value
    proposal_value ← read_or (failure proposal_not_found 404) (proposal_key d.proposal_id) s
    p ← validate_proposal proposal_value
    revision_value ← read_or (failure revision_not_found 404) (revision_key d.revision_digest) s
    revision ← validate_revision sha256 revision_value
    check_binding config p revision d
    policy ← policy_for config d.policy_id d.policy_version
    assert_policy_matches_revision policy revision
    check_authority ctx policy d
    fail_if (is_present (read (decision_key d.decision_id) s)) (failure immutable_conflict 409)
    latest ← get_latest_decision d s
    check_retraction d latest d.retracts_decision_id s
    ok (record { decision = d; proposal = p })

  unfoldable pub execute_decide : Context → DomainConfig → Fields → Store → Outcome
  execute_decide ctx config input s = do
    a ← admit_decision ctx config input s
    record_decision ctx a.proposal a.decision s
