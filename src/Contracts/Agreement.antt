-- ===== src/Contracts/Agreement.antt =====
-- `AgreementRecord` and `validateAgreement` of packages/domain/index.ts.
use knowledger.Base.{
  ℕ, Bool, true, false, ◌||◌, List, [], ◌∷◌, Option, some, none, Text, text, length, ltb, map,
}
use knowledger.Fault.{Result, ok, err, corrupt, fail_if, traverse, ◌>>=◌, ◌>>◌}
use knowledger.Json.{
  Json, num, whole, str, arr, obj, end, field, from_list, prop, assert_record, assert_array,
  assert_keys, assert_safe_integer, is_text,
}
use knowledger.Json.Canonical.{canonicalize, assert_unique_canonical}
use knowledger.Contracts.Identifiers.{assert_id, assert_digest, assert_non_empty_string}
use knowledger.Contracts.Slot.{Slot, read_slot, slot_fields}
use knowledger.Contracts.Actor.{Actor, read_actor, encode_actor}
use knowledger.Contracts.Proposal.{optional_field, optional_text}

pub data AgreementStatus : Type 0 where
  active superseded withdrawn suspended : AgreementStatus

pub record AgreementRecord : Type 0 where
  pub agreement_id : Text
  pub proposal_id : Text
  pub revision_digest : Text
  pub policy_id : Text
  pub policy_version : ℕ
  pub membership_epoch : ℕ
  pub role_binding_version : ℕ
  pub approval_decision_ids : List Text
  pub status : AgreementStatus
  pub activated_by : Actor
  pub activated_at : Text
  pub slot : Slot
  pub status_reason : Option Text
  pub status_changed_by : Option Actor
  pub status_changed_at : Option Text

unfoldable pub status_text : AgreementStatus → Text
status_text active = text "active"
status_text superseded = text "superseded"
status_text withdrawn = text "withdrawn"
status_text suspended = text "suspended"

unfoldable pub is_active : AgreementStatus → Bool
is_active active = true
is_active s = false

unfoldable pub optional_actor : Option Actor → Option Json
optional_actor none = none
optional_actor (some a) = some (encode_actor a)

unfoldable pub encode_agreement : AgreementRecord → Json
encode_agreement a = obj (
    field (text "agreement_id") (str a.agreement_id) (
      field (text "proposal_id") (str a.proposal_id) (
        field (text "revision_digest") (str a.revision_digest) (
          field (text "policy_id") (str a.policy_id) (
            field (text "policy_version") (num (whole a.policy_version)) (
              field (text "membership_epoch") (num (whole a.membership_epoch)) (
                field (text "role_binding_version") (num (whole a.role_binding_version)) (
                  field (text "approval_decision_ids")
                    (arr (from_list (map str a.approval_decision_ids)))
                    (field (text "status") (str (status_text a.status)) (
                      field (text "activated_by") (encode_actor a.activated_by) (
                        field (text "activated_at") (str a.activated_at) (
                          slot_fields a.slot (
                            optional_field (text "status_reason") (optional_text a.status_reason) (
                              optional_field (text "status_changed_by")
                                (optional_actor a.status_changed_by)
                                (optional_field (text "status_changed_at")
                                  (optional_text a.status_changed_at) end)))))))))))))))

unfoldable pub read_status : Option Json → Result AgreementStatus
read_status v = elim (is_text v (text "active")) [
  | true ↦ ok active
  | false ↦ elim (is_text v (text "superseded")) [
    | true ↦ ok superseded
    | false ↦ elim (is_text v (text "withdrawn")) [
      | true ↦ ok withdrawn
      | false ↦ elim (is_text v (text "suspended")) [ true ↦ ok suspended | false ↦ err corrupt ]
    ]
  ]
]

-- `if (value !== undefined) assertNonEmptyString(value, label, max)`
unfoldable pub optional_string : Option Json → ℕ → Result (Option Text)
optional_string none max_length = ok none
optional_string (some v) max_length = do
  t ← assert_non_empty_string (some v) max_length
  ok (some t)

unfoldable pub read_optional_actor : Option Json → Result (Option Actor)
read_optional_actor none = ok none
read_optional_actor (some v) = do a ← read_actor corrupt (some v); ok (some a)

unfoldable pub validate_agreement : Json → Result AgreementRecord
validate_agreement value = do
  fs ← assert_record (some value)
  assert_keys fs
      (text "agreement_id"
        ∷ text "proposal_id"
        ∷ text "revision_digest"
        ∷ text "policy_id"
        ∷ text "policy_version"
        ∷ text "membership_epoch"
        ∷ text "role_binding_version"
        ∷ text "approval_decision_ids"
        ∷ text "status"
        ∷ text "activated_by"
        ∷ text "activated_at"
        ∷ text "channel_id"
        ∷ text "document_id"
        ∷ text "context_id"
        ∷ text "scope_id"
        ∷ text "usage_scope"
        ∷ [])
      (text "status_reason" ∷ text "status_changed_by" ∷ text "status_changed_at" ∷ [])
  agreement_id ← assert_id (prop (text "agreement_id") fs)
  proposal_id ← assert_id (prop (text "proposal_id") fs)
  revision_digest ← assert_digest (prop (text "revision_digest") fs)
  policy_id ← assert_id (prop (text "policy_id") fs)
  policy_version ← assert_safe_integer (prop (text "policy_version") fs) 1
  membership_epoch ← assert_safe_integer (prop (text "membership_epoch") fs) 1
  role_binding_version ← assert_safe_integer (prop (text "role_binding_version") fs) 1
  id_values ← assert_array (prop (text "approval_decision_ids") fs)
  fail_if (ltb (length id_values) 1 || ltb 32 (length id_values)) corrupt
  approval_decision_ids ← traverse (λ v. assert_id (some v)) id_values
  assert_unique_canonical (map str approval_decision_ids)
  status ← read_status (prop (text "status") fs)
  activated_by ← read_actor corrupt (prop (text "activated_by") fs)
  activated_at ← assert_non_empty_string (prop (text "activated_at") fs) 80
  status_reason ← optional_string (prop (text "status_reason") fs) 1000
  status_changed_by ← read_optional_actor (prop (text "status_changed_by") fs)
  status_changed_at ← optional_string (prop (text "status_changed_at") fs) 80
  slot ← read_slot fs
  checked ← canonicalize value
  let agreement : AgreementRecord = record {
    agreement_id = agreement_id;
    proposal_id = proposal_id;
    revision_digest = revision_digest;
    policy_id = policy_id;
    policy_version = policy_version;
    membership_epoch = membership_epoch;
    role_binding_version = role_binding_version;
    approval_decision_ids = approval_decision_ids;
    status = status;
    activated_by = activated_by;
    activated_at = activated_at;
    slot = slot;
    status_reason = status_reason;
    status_changed_by = status_changed_by;
    status_changed_at = status_changed_at;
  }
  cloned ← canonicalize (encode_agreement agreement)
  ok agreement
