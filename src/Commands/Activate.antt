-- ===== src/Commands/Activate.antt =====
-- `executeActivate` of packages/domain/index.ts.
use knowledger.Base.{
  ℕ, Bool, true, false, ◌&&◌, List, [], ◌∷◌, ◌++◌, Option, none, some, Text, text, text_eq,
  includes, ◌==◌,
}
use knowledger.Fault.{
  Result, ok, err, failure, corrupt, proposal_not_found, proposal_replay, revision_not_found,
  stale_configuration, stale_precondition, already_active, immutable_conflict, approval_incomplete,
  stale_decision, require, fail_if, ◌>>=◌, ◌>>◌,
}
use knowledger.Json.{
  Json, null, num, whole, str, Fields, prop, assert_record, assert_keys, required_property,
  is_present,
}
use knowledger.Json.Canonical.{js_string}
use knowledger.Contracts.Identifiers.{assert_id}
use knowledger.Contracts.Slot.{slot_key, same_slot}
use knowledger.Contracts.Actor.{Context}
use knowledger.Contracts.Revision.{DocumentRevision, validate_revision}
use knowledger.Contracts.Policy.{AgreementPolicy, RoleRepresentative}
use knowledger.Contracts.Config.{DomainConfig, policy_for, require_human}
use knowledger.Contracts.Proposal.{
  AgreementProposal, activated, is_open, encode_proposal, validate_proposal,
}
use knowledger.Contracts.Decision.{ApprovalDecision, is_approve, validate_decision}
use knowledger.Contracts.Agreement.{AgreementRecord, active, superseded, encode_agreement}
use knowledger.Ledger.Keys.{
  revision_key, proposal_key, decision_key, latest_decision_key, agreement_key, active_slot_key,
  unchecked_key,
}
use knowledger.Ledger.Store.{Store, read, read_or, put, put_clone}
use knowledger.Resolve.{dependency_eligible}
use knowledger.Resolve.Approvals.{representative_for}
use knowledger.Commands.Replies.{Outcome, reply, pointer, increment_epoch}
use knowledger.Commands.Propose.{assert_policy_matches_revision}
use knowledger.Commands.Suspension.{get_active_agreement, change_status}
use knowledger.Commands.Decide.{read_review_counter}

-- The decision is an approval of this proposal by this representative.
unfoldable pub check_approval :
    AgreementProposal → RoleRepresentative → ApprovalDecision → Result (Unit {0})
check_approval p r d = do
  require (is_approve d.decision) (failure approval_incomplete 409)
  require
      (text_eq d.actor_org_id r.actor_org_id
        && text_eq d.actor_id r.actor_id
        && text_eq d.actor_domain_role r.domain_role)
      (failure stale_decision 409)
  require (text_eq d.revision_digest p.revision_digest && text_eq d.proposal_id p.proposal_id)
      (failure stale_decision 409)
  same ← same_slot d.slot p.slot
  require
      (same
        && text_eq d.policy_id p.policy_id
        && d.policy_version == p.policy_version
        && d.membership_epoch == p.membership_epoch
        && d.role_binding_version == p.role_binding_version)
      (failure stale_decision 409)

-- The latest decision of the representative, checked.
unfoldable pub latest_approval :
    Store → AgreementProposal → Text → RoleRepresentative → Result ApprovalDecision
latest_approval s p role r = do
  latest ←
      read_or (failure approval_incomplete 409)
        (latest_decision_key p.proposal_id p.policy_version role r.actor_org_id r.actor_id) s
  fs ← assert_record (some latest)
  assert_keys fs (text "decision_id" ∷ []) []
  id ← required_property (text "decision_id") fs
  key ← unchecked_key decision_key (js_string id)
  value ← read_or corrupt key s
  d ← validate_decision value
  check_approval p r d
  ok d

-- The loop over the required roles, with the ids collected so far. The policy was validated, so that
-- each of its roles has a representative; a missing one would be a TypeError.
unfoldable pub collect_approvals :
    Store → AgreementProposal → List RoleRepresentative → List Text → List Text → Result (List Text)
collect_approvals s p rs [] ids = ok ids
collect_approvals s p rs (role ∷ roles) ids =
    let rest = λ (more : List Text). collect_approvals s p rs roles more in
    elim (representative_for role rs) [
      | none ↦ err corrupt
      | some r ↦ do
        d ← latest_approval s p role r
        fail_if (includes d.decision_id ids) corrupt
        rest (ids ++ d.decision_id ∷ [])
    ]

-- `expected_active_agreement_id`: null or an id.
unfoldable pub read_expected : Option Json → Result (Option Text)
read_expected (some null) = ok none
read_expected v = do id ← assert_id v; ok (some id)

unfoldable pub id_of : Option AgreementRecord → Option Text
id_of none = none
id_of (some a) = some a.agreement_id

unfoldable pub same_id : Option Text → Option Text → Bool
same_id none none = true
same_id (some a) (some b) = text_eq a b
same_id _ _ = false

unfoldable pub has_revision : Text → Option AgreementRecord → Bool
has_revision digest none = false
has_revision digest (some a) = text_eq a.revision_digest digest

-- The active agreement is the expected one and has another revision.
unfoldable pub check_precondition :
    Option AgreementRecord → Option Text → DocumentRevision → Result (Unit {0})
check_precondition current expected revision = do
  require (same_id (id_of current) expected) (failure stale_precondition 409)
  fail_if (has_revision revision.revision_digest current) (failure already_active 409)

-- An activation that passed every check.
pub record Activation : Type 0 where
  pub agreement_id : Text
  pub proposal : AgreementProposal
  pub policy : AgreementPolicy
  pub revision : DocumentRevision
  pub current : Option AgreementRecord
  pub approval_decision_ids : List Text

unfoldable pub new_agreement : Context → DomainConfig → Activation → AgreementRecord
new_agreement ctx config plan = record {
  agreement_id = plan.agreement_id;
  proposal_id = plan.proposal.proposal_id;
  revision_digest = plan.revision.revision_digest;
  policy_id = plan.policy.policy_id;
  policy_version = plan.policy.policy_version;
  membership_epoch = config.membership_epoch;
  role_binding_version = config.role_binding_version;
  approval_decision_ids = plan.approval_decision_ids;
  status = active;
  activated_by = ctx.actor;
  activated_at = ctx.timestamp;
  slot = plan.revision.payload.slot;
  status_reason = none;
  status_changed_by = none;
  status_changed_at = none;
}

unfoldable pub supersede : Context → Option AgreementRecord → Store → Result Store
supersede ctx none s = ok s
supersede ctx (some a) s =
    put_clone (agreement_key a.agreement_id)
      (encode_agreement (change_status ctx superseded (text "replaced_by_new_active_agreement") a))
      s

-- The writes and the reply.
unfoldable pub commit_agreement :
    Context → AgreementProposal → Option AgreementRecord → AgreementRecord → Store → Outcome
commit_agreement ctx p current a s = do
  bumped ← increment_epoch s
  s1 ← supersede ctx current (bumped.1)
  s2 ← put_clone (agreement_key a.agreement_id) (encode_agreement a) s1
  key ← active_slot_key p.slot
  let s3 = put key (pointer "agreement_id" (str a.agreement_id)) s2
  s4 ←
      put_clone (proposal_key p.proposal_id)
        (encode_proposal (record p { status = activated; agreement_id = some a.agreement_id })) s3
  slot ← slot_key a.slot
  ok (
    reply "active" (
        (text "agreement_id", str a.agreement_id)
        ∷ (text "revision_digest", str a.revision_digest)
        ∷ (text "eligibility_epoch", num (whole (bumped.0)))
        ∷ (text "slot", str slot)
        ∷ []),
    s4,
  )

module _ (sha256 : List ℕ → Text) where
  -- The checks from the proposal on.
  unfoldable pub check_proposal :
      DomainConfig → Text → Option Text → AgreementProposal → Store → Result Activation
  check_proposal config agreement_id expected p s = do
    counter ← read_review_counter p s
    require (is_open p.status) (failure proposal_replay 409)
    revision_value ← read_or (failure revision_not_found 404) (revision_key p.revision_digest) s
    revision ← validate_revision sha256 revision_value
    policy ← policy_for config p.policy_id p.policy_version
    assert_policy_matches_revision policy revision
    require
        (p.membership_epoch == config.membership_epoch
          && p.role_binding_version == config.role_binding_version)
        (failure stale_configuration 409)
    current ← get_active_agreement p.slot s
    check_precondition current expected revision
    fail_if (is_present (read (agreement_key agreement_id) s)) (failure immutable_conflict 409)
    ids ← collect_approvals s p policy.role_representatives policy.required_domain_roles []
    dependency_eligible sha256 s revision
    ok (record {
      agreement_id = agreement_id;
      proposal = p;
      policy = policy;
      revision = revision;
      current = current;
      approval_decision_ids = ids;
    })

  -- `executeActivate` up to its first write.
  unfoldable pub admit_activation : Context → DomainConfig → Fields → Store → Result Activation
  admit_activation ctx config input s = do
    identity ← require_human ctx config
    assert_keys input
        (text "proposal_id" ∷ text "agreement_id" ∷ text "expected_active_agreement_id" ∷ []) []
    proposal_id ← assert_id (prop (text "proposal_id") input)
    agreement_id ← assert_id (prop (text "agreement_id") input)
    expected ← read_expected (prop (text "expected_active_agreement_id") input)
    value ← read_or (failure proposal_not_found 404) (proposal_key proposal_id) s
    p ← validate_proposal value
    check_proposal config agreement_id expected p s

  unfoldable pub execute_activate : Context → DomainConfig → Fields → Store → Outcome
  execute_activate ctx config input s = do
    plan ← admit_activation ctx config input s
    commit_agreement ctx plan.proposal plan.current (new_agreement ctx config plan) s
