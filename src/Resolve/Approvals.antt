-- ===== src/Resolve/Approvals.antt =====
-- `validateAgreementApprovals` of packages/domain/index.ts.
use knowledger.Base.{
  Bool, ◌&&◌, List, [], ◌∷◌, Option, none, some, Text, text_eq, includes, find, length, ◌==◌,
  if◌then◌else◌,
}
use knowledger.Fault.{Result, ok, err, corrupt, require, ◌>>=◌, ◌>>◌}
use knowledger.Contracts.Slot.{same_slot}
use knowledger.Contracts.Policy.{AgreementPolicy, RoleRepresentative}
use knowledger.Contracts.Config.{DomainConfig, validate_config, is_policy}
use knowledger.Contracts.Decision.{ApprovalDecision, is_approve, validate_decision}
use knowledger.Contracts.Agreement.{AgreementRecord, encode_agreement, validate_agreement}
use knowledger.Ledger.Keys.{config_key, decision_key}
use knowledger.Ledger.Store.{Store, read_or}

-- `catch { corruptApprovalState(...) }`
abbrev pub as_corrupt {ℓ} : {A : Type ℓ} → Result A → Result A
as_corrupt (ok a) = ok a
as_corrupt (err e) = err corrupt

-- `policy.role_representatives.find((candidate) => candidate.domain_role === role)`
unfoldable pub representative_for : Text → List RoleRepresentative → Option RoleRepresentative
representative_for role rs = find (λ r. text_eq r.domain_role role) rs

unfoldable pub represents : Text → RoleRepresentative → ApprovalDecision → Bool
represents role r d =
    text_eq d.actor_domain_role role
    && text_eq d.actor_org_id r.actor_org_id
    && text_eq d.actor_id r.actor_id

module _ (s : Store) where
  -- The inner loop: the first unselected decision of the representative. All that it passes must
  -- be approvals.
  unfoldable pub find_approval :
      Text → RoleRepresentative → List Text → List Text → Result (Text × ApprovalDecision)
  find_approval role r selected [] = err corrupt
  find_approval role r selected (id ∷ ids) =
      let rest = find_approval role r selected ids in
      if includes id selected then rest else do
        value ← read_or corrupt (decision_key id) s
        d ← as_corrupt (validate_decision value)
        require (is_approve d.decision) corrupt
        if represents role r d then ok (id, d) else rest

  -- The decision binds what the agreement binds.
  unfoldable pub check_target : AgreementRecord → ApprovalDecision → Result (Unit {0})
  check_target a d = do
    require (text_eq d.revision_digest a.revision_digest && text_eq d.proposal_id a.proposal_id)
        corrupt
    same ← same_slot d.slot a.slot
    require
        (same
          && text_eq d.policy_id a.policy_id
          && d.policy_version == a.policy_version
          && d.membership_epoch == a.membership_epoch
          && d.role_binding_version == a.role_binding_version)
        corrupt

  -- The outer loop, over the roles: the decisions, and the ids that were selected.
  unfoldable pub approvals_for :
      AgreementRecord
      → List RoleRepresentative
      → List Text
      → List Text
      → Result (List ApprovalDecision × List Text)
  approvals_for a rs selected [] = ok ([], selected)
  approvals_for a rs selected (role ∷ roles) =
      let rest = λ (ids : List Text). approvals_for a rs ids roles in
      elim (representative_for role rs) [
        | none ↦ err corrupt
        | some r ↦ do
          found ← find_approval role r selected a.approval_decision_ids
          check_target a (found.1)
          more ← rest (found.0 ∷ selected)
          ok (found.1 ∷ more.0, more.1)
      ]

  unfoldable pub matching_policy : DomainConfig → AgreementRecord → Result AgreementPolicy
  matching_policy config a = elim (find (is_policy a.policy_id a.policy_version) config.policies) [
    | none ↦ err corrupt
    | some policy ↦ do same ← same_slot policy.slot a.slot; require same corrupt; ok policy
  ]

  unfoldable pub validate_agreement_approvals : AgreementRecord → Result (List ApprovalDecision)
  validate_agreement_approvals input = do
    a ← as_corrupt (validate_agreement (encode_agreement input))
    value ← read_or corrupt config_key s
    config ← as_corrupt (validate_config value)
    require
        (a.membership_epoch == config.membership_epoch
          && a.role_binding_version == config.role_binding_version)
        corrupt
    policy ← matching_policy config a
    require (length a.approval_decision_ids == length policy.required_domain_roles) corrupt
    approvals ← approvals_for a policy.role_representatives [] policy.required_domain_roles
    require (length (approvals.1) == length a.approval_decision_ids) corrupt
    ok (approvals.0)
