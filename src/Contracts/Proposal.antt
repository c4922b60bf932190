-- ===== src/Contracts/Proposal.antt =====
-- `AgreementProposalRecord` and `validateProposal` of packages/domain/index.ts.
use knowledger.Base.{ℕ, Bool, true, false, [], ◌∷◌, Option, some, none, Text, text}
use knowledger.Fault.{Result, ok, err, corrupt, require, ◌>>=◌, ◌>>◌}
use knowledger.Json.{
  Json, num, whole, str, obj, Fields, end, field, prop, assert_record, assert_keys,
  assert_safe_integer, is_text,
}
use knowledger.Json.Canonical.{canonicalize}
use knowledger.Contracts.Identifiers.{
  ConfigVersion, assert_id, assert_digest, assert_version, assert_non_empty_string, encode_version,
}
use knowledger.Contracts.Slot.{Slot, read_slot, slot_fields}
use knowledger.Contracts.Actor.{Actor, read_actor, encode_actor}

pub data ProposalStatus : Type 0 where
  open_for_review activated : ProposalStatus

pub record AgreementProposal : Type 0 where
  pub proposal_id : Text
  pub revision_digest : Text
  pub policy_id : Text
  pub policy_version : ℕ
  pub membership_epoch : ℕ
  pub role_binding_version : ℕ
  pub config_version : ConfigVersion
  pub status : ProposalStatus
  pub created_by : Actor
  pub created_at : Text
  pub review_counter : ℕ
  pub slot : Slot
  pub agreement_id : Option Text

unfoldable pub is_open : ProposalStatus → Bool
is_open open_for_review = true
is_open activated = false

-- `x !== undefined` adds the field.
unfoldable pub optional_field : Text → Option Json → Fields → Fields
optional_field k none rest = rest
optional_field k (some v) rest = field k v rest

unfoldable pub optional_text : Option Text → Option Json
optional_text none = none
optional_text (some t) = some (str t)

unfoldable pub proposal_status_text : ProposalStatus → Text
proposal_status_text open_for_review = text "open"
proposal_status_text activated = text "activated"

unfoldable pub encode_proposal : AgreementProposal → Json
encode_proposal p = obj (
    field (text "record_type") (str (text "AgreementProposal")) (
      field (text "proposal_id") (str p.proposal_id) (
        field (text "revision_digest") (str p.revision_digest) (
          field (text "policy_id") (str p.policy_id) (
            field (text "policy_version") (num (whole p.policy_version)) (
              field (text "membership_epoch") (num (whole p.membership_epoch)) (
                field (text "role_binding_version") (num (whole p.role_binding_version)) (
                  field (text "config_version") (encode_version p.config_version) (
                    field (text "status") (str (proposal_status_text p.status)) (
                      field (text "created_by") (encode_actor p.created_by) (
                        field (text "created_at") (str p.created_at) (
                          field (text "review_counter") (num (whole p.review_counter)) (
                            slot_fields p.slot (
                              optional_field (text "agreement_id") (optional_text p.agreement_id)
                                end))))))))))))))

unfoldable pub read_proposal_status : Option Json → Result ProposalStatus
read_proposal_status v = elim (is_text v (text "open")) [
  | true ↦ ok open_for_review
  | false ↦ elim (is_text v (text "activated")) [ true ↦ ok activated | false ↦ err corrupt ]
]

-- `if (value !== undefined) assertId(value)`
unfoldable pub optional_id : Option Json → Result (Option Text)
optional_id none = ok none
optional_id (some v) = do t ← assert_id (some v); ok (some t)

unfoldable pub validate_proposal : Json → Result AgreementProposal
validate_proposal value = do
  fs ← assert_record (some value)
  assert_keys fs
      (text "record_type"
        ∷ text "proposal_id"
        ∷ text "revision_digest"
        ∷ text "policy_id"
        ∷ text "policy_version"
        ∷ text "membership_epoch"
        ∷ text "role_binding_version"
        ∷ text "config_version"
        ∷ text "status"
        ∷ text "created_by"
        ∷ text "created_at"
        ∷ text "review_counter"
        ∷ text "channel_id"
        ∷ text "document_id"
        ∷ text "context_id"
        ∷ text "scope_id"
        ∷ text "usage_scope"
        ∷ [])
      (text "agreement_id" ∷ [])
  require (is_text (prop (text "record_type") fs) (text "AgreementProposal")) corrupt
  proposal_id ← assert_id (prop (text "proposal_id") fs)
  revision_digest ← assert_digest (prop (text "revision_digest") fs)
  policy_id ← assert_id (prop (text "policy_id") fs)
  policy_version ← assert_safe_integer (prop (text "policy_version") fs) 1
  membership_epoch ← assert_safe_integer (prop (text "membership_epoch") fs) 1
  role_binding_version ← assert_safe_integer (prop (text "role_binding_version") fs) 1
  config_version ← assert_version (prop (text "config_version") fs)
  status ← read_proposal_status (prop (text "status") fs)
  created_by ← read_actor corrupt (prop (text "created_by") fs)
  created_at ← assert_non_empty_string (prop (text "created_at") fs) 80
  review_counter ← assert_safe_integer (prop (text "review_counter") fs) 0
  agreement_id ← optional_id (prop (text "agreement_id") fs)
  slot ← read_slot fs
  checked ← canonicalize value
  let proposal : AgreementProposal = record {
    proposal_id = proposal_id;
    revision_digest = revision_digest;
    policy_id = policy_id;
    policy_version = policy_version;
    membership_epoch = membership_epoch;
    role_binding_version = role_binding_version;
    config_version = config_version;
    status = status;
    created_by = created_by;
    created_at = created_at;
    review_counter = review_counter;
    slot = slot;
    agreement_id = agreement_id;
  }
  cloned ← canonicalize (encode_proposal proposal)
  ok proposal
