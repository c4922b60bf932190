-- ===== src/Contracts/Decision.antt =====
-- `ApprovalDecision` and `validateDecision` of packages/domain/index.ts.
use knowledger.Base.{ℕ, Bool, true, false, [], ◌∷◌, Option, some, none, Text, text}
use knowledger.Fault.{Result, ok, err, invalid, require, ◌>>=◌, ◌>>◌}
use knowledger.Json.{
  Json, num, whole, str, obj, end, field, prop, assert_record, assert_keys, assert_safe_integer,
  is_text, is_number,
}
use knowledger.Json.Canonical.{canonicalize}
use knowledger.Contracts.Identifiers.{
  assert_id, assert_digest, assert_usage_scope, assert_non_empty_string,
}
use knowledger.Contracts.Slot.{Slot, read_slot, slot_fields}
use knowledger.Contracts.Proposal.{optional_field, optional_text}

pub data ApprovalKind : Type 0 where
  approve object abstain retract : ApprovalKind

pub record ApprovalDecision : Type 0 where
  pub decision_id : Text
  pub revision_digest : Text
  pub slot : Slot
  pub policy_id : Text
  pub policy_version : ℕ
  pub membership_epoch : ℕ
  pub role_binding_version : ℕ
  pub actor_org_id : Text
  pub actor_id : Text
  pub subject_id : Text
  pub actor_domain_role : Text
  pub decision : ApprovalKind
  pub rationale : Text
  pub decided_at : Text
  pub proposal_id : Text
  pub retracts_decision_id : Option Text

unfoldable pub approval_text : ApprovalKind → Text
approval_text approve = text "approve"
approval_text object = text "object"
approval_text abstain = text "abstain"
approval_text retract = text "retract"

unfoldable pub is_approve : ApprovalKind → Bool
is_approve approve = true
is_approve k = false

unfoldable pub is_retract : ApprovalKind → Bool
is_retract retract = true
is_retract k = false

unfoldable pub encode_decision : ApprovalDecision → Json
encode_decision d = obj (
    field (text "contract_type") (str (text "ApprovalDecision")) (
      field (text "contract_version") (num (whole 1)) (
        field (text "decision_id") (str d.decision_id) (
          field (text "revision_digest") (str d.revision_digest) (
            slot_fields d.slot (
              field (text "policy_id") (str d.policy_id) (
                field (text "policy_version") (num (whole d.policy_version)) (
                  field (text "membership_epoch") (num (whole d.membership_epoch)) (
                    field (text "role_binding_version") (num (whole d.role_binding_version)) (
                      field (text "actor_org_id") (str d.actor_org_id) (
                        field (text "actor_id") (str d.actor_id) (
                          field (text "subject_id") (str d.subject_id) (
                            field (text "actor_domain_role") (str d.actor_domain_role) (
                              field (text "decision") (str (approval_text d.decision)) (
                                field (text "rationale") (str d.rationale) (
                                  field (text "decided_at") (str d.decided_at) (
                                    field (text "proposal_id") (str d.proposal_id) (
                                      optional_field (text "retracts_decision_id")
                                        (optional_text d.retracts_decision_id) end))))))))))))))))))

unfoldable pub read_approval : Option Json → Result ApprovalKind
read_approval v = elim (is_text v (text "approve")) [
  | true ↦ ok approve
  | false ↦ elim (is_text v (text "object")) [
    | true ↦ ok object
    | false ↦ elim (is_text v (text "abstain")) [
      | true ↦ ok abstain
      | false ↦ elim (is_text v (text "retract")) [ true ↦ ok retract | false ↦ err invalid ]
    ]
  ]
]

-- A retract names a decision, and no other kind does.
unfoldable pub read_retracted : ApprovalKind → Option Json → Result (Option Text)
read_retracted retract v = do t ← assert_id v; ok (some t)
read_retracted k none = ok none
read_retracted k (some v) = err invalid

unfoldable pub validate_decision : Json → Result ApprovalDecision
validate_decision value = do
  fs ← assert_record (some value)
  assert_keys fs
      (text "contract_type"
        ∷ text "contract_version"
        ∷ text "decision_id"
        ∷ text "revision_digest"
        ∷ text "document_id"
        ∷ text "context_id"
        ∷ text "scope_id"
        ∷ text "usage_scope"
        ∷ text "channel_id"
        ∷ text "policy_id"
        ∷ text "policy_version"
        ∷ text "membership_epoch"
        ∷ text "role_binding_version"
        ∷ text "actor_org_id"
        ∷ text "actor_id"
        ∷ text "subject_id"
        ∷ text "actor_domain_role"
        ∷ text "decision"
        ∷ text "rationale"
        ∷ text "decided_at"
        ∷ text "proposal_id"
        ∷ [])
      (text "retracts_decision_id" ∷ [])
  require (is_text (prop (text "contract_type") fs) (text "ApprovalDecision")) invalid
  require (is_number (prop (text "contract_version") fs) 1) invalid
  decision_id ← assert_id (prop (text "decision_id") fs)
  revision_digest ← assert_digest (prop (text "revision_digest") fs)
  document_id ← assert_id (prop (text "document_id") fs)
  context_id ← assert_id (prop (text "context_id") fs)
  scope_id ← assert_id (prop (text "scope_id") fs)
  channel_id ← assert_id (prop (text "channel_id") fs)
  policy_id ← assert_id (prop (text "policy_id") fs)
  actor_org_id ← assert_id (prop (text "actor_org_id") fs)
  actor_id ← assert_id (prop (text "actor_id") fs)
  subject_id ← assert_id (prop (text "subject_id") fs)
  actor_domain_role ← assert_id (prop (text "actor_domain_role") fs)
  proposal_id ← assert_id (prop (text "proposal_id") fs)
  usage_scope ← assert_usage_scope (prop (text "usage_scope") fs)
  policy_version ← assert_safe_integer (prop (text "policy_version") fs) 1
  membership_epoch ← assert_safe_integer (prop (text "membership_epoch") fs) 1
  role_binding_version ← assert_safe_integer (prop (text "role_binding_version") fs) 1
  decision ← read_approval (prop (text "decision") fs)
  rationale ← assert_non_empty_string (prop (text "rationale") fs) 1000
  decided_at ← assert_non_empty_string (prop (text "decided_at") fs) 80
  retracts_decision_id ← read_retracted decision (prop (text "retracts_decision_id") fs)
  slot ← read_slot fs
  checked ← canonicalize value
  let result : ApprovalDecision = record {
    decision_id = decision_id;
    revision_digest = revision_digest;
    slot = slot;
    policy_id = policy_id;
    policy_version = policy_version;
    membership_epoch = membership_epoch;
    role_binding_version = role_binding_version;
    actor_org_id = actor_org_id;
    actor_id = actor_id;
    subject_id = subject_id;
    actor_domain_role = actor_domain_role;
    decision = decision;
    rationale = rationale;
    decided_at = decided_at;
    proposal_id = proposal_id;
    retracts_decision_id = retracts_decision_id;
  }
  cloned ← canonicalize (encode_decision result)
  ok result
