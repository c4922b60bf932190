-- ===== src/Contracts/Policy.antt =====
-- `AgreementPolicy` and `validatePolicy` of packages/domain/index.ts.
use knowledger.Base.{
  ℕ, ◌||◌, List, [], ◌∷◌, ◌++◌, some, Text, text, includes, length, ltb, ◌==◌, map,
}
use knowledger.Fault.{Result, ok, invalid, require, fail_if, traverse, ◌>>=◌, ◌>>◌}
use knowledger.Json.{
  Json, num, whole, str, arr, obj, end, field, from_list, prop, assert_record, assert_array,
  assert_keys, assert_safe_integer, is_text, is_number,
}
use knowledger.Json.Canonical.{canonicalize, assert_unique_canonical}
use knowledger.Contracts.Identifiers.{assert_id, assert_usage_scope}
use knowledger.Contracts.Slot.{Slot, slot_fields}

pub record RoleRepresentative : Type 0 where
  pub domain_role : Text
  pub actor_org_id : Text
  pub actor_id : Text

pub record AgreementPolicy : Type 0 where
  pub policy_id : Text
  pub policy_version : ℕ
  pub slot : Slot
  pub membership_epoch : ℕ
  pub role_binding_version : ℕ
  pub acceptance_slot : Text
  pub required_domain_roles : List Text
  pub allowed_decisions : List Text
  pub role_representatives : List RoleRepresentative

unfoldable pub encode_representative : RoleRepresentative → Json
encode_representative r = obj (
    field (text "domain_role") (str r.domain_role) (
      field (text "actor_org_id") (str r.actor_org_id)
        (field (text "actor_id") (str r.actor_id) end)))

unfoldable pub encode_policy : AgreementPolicy → Json
encode_policy p = obj (
    field (text "contract_type") (str (text "AgreementPolicy")) (
      field (text "contract_version") (num (whole 1)) (
        field (text "policy_id") (str p.policy_id) (
          field (text "policy_version") (num (whole p.policy_version)) (
            slot_fields p.slot (
              field (text "membership_epoch") (num (whole p.membership_epoch)) (
                field (text "role_binding_version") (num (whole p.role_binding_version)) (
                  field (text "acceptance_slot") (str p.acceptance_slot) (
                    field (text "required_domain_roles")
                      (arr (from_list (map str p.required_domain_roles)))
                      (field (text "allowed_decisions")
                        (arr (from_list (map str p.allowed_decisions)))
                        (field (text "role_decision_rule") (str (text "named_representatives")) (
                          field (text "role_representatives")
                            (arr (from_list (map encode_representative p.role_representatives)))
                            end))))))))))))

-- `${org}|${actor}`
unfoldable pub actor_key : Text → Text → Text
actor_key org actor = org ++ b'|' ∷ actor

unfoldable pub read_representative : Json → Result RoleRepresentative
read_representative value = do
  fs ← assert_record (some value)
  assert_keys fs (text "domain_role" ∷ text "actor_org_id" ∷ text "actor_id" ∷ []) []
  domain_role ← assert_id (prop (text "domain_role") fs)
  actor_org_id ← assert_id (prop (text "actor_org_id") fs)
  actor_id ← assert_id (prop (text "actor_id") fs)
  ok (record { domain_role = domain_role; actor_org_id = actor_org_id; actor_id = actor_id })

-- The loop over the representatives, with the roles and the actors seen so far.
unfoldable pub read_representatives :
    List Text → List Text → List Text → List Json → Result (List RoleRepresentative)
read_representatives required roles actors [] = ok []
read_representatives required roles actors (value ∷ values) = do
  r ← read_representative value
  require (includes r.domain_role required) invalid
  fail_if (includes r.domain_role roles) invalid
  fail_if (includes (actor_key r.actor_org_id r.actor_id) actors) invalid
  checked ← canonicalize value
  cloned ← canonicalize (encode_representative r)
  rest ←
      read_representatives required (r.domain_role ∷ roles)
        (actor_key r.actor_org_id r.actor_id ∷ actors) values
  ok (r ∷ rest)

unfoldable pub validate_policy : Json → Result AgreementPolicy
validate_policy value = do
  fs ← assert_record (some value)
  assert_keys fs
      (text "contract_type"
        ∷ text "contract_version"
        ∷ text "policy_id"
        ∷ text "policy_version"
        ∷ text "document_id"
        ∷ text "context_id"
        ∷ text "scope_id"
        ∷ text "usage_scope"
        ∷ text "channel_id"
        ∷ text "membership_epoch"
        ∷ text "role_binding_version"
        ∷ text "acceptance_slot"
        ∷ text "required_domain_roles"
        ∷ text "allowed_decisions"
        ∷ text "role_decision_rule"
        ∷ text "role_representatives"
        ∷ [])
      []
  require (is_text (prop (text "contract_type") fs) (text "AgreementPolicy")) invalid
  require (is_number (prop (text "contract_version") fs) 1) invalid
  policy_id ← assert_id (prop (text "policy_id") fs)
  policy_version ← assert_safe_integer (prop (text "policy_version") fs) 1
  document_id ← assert_id (prop (text "document_id") fs)
  context_id ← assert_id (prop (text "context_id") fs)
  scope_id ← assert_id (prop (text "scope_id") fs)
  usage_scope ← assert_usage_scope (prop (text "usage_scope") fs)
  channel_id ← assert_id (prop (text "channel_id") fs)
  membership_epoch ← assert_safe_integer (prop (text "membership_epoch") fs) 1
  role_binding_version ← assert_safe_integer (prop (text "role_binding_version") fs) 1
  acceptance_slot ← assert_id (prop (text "acceptance_slot") fs)
  role_values ← assert_array (prop (text "required_domain_roles") fs)
  fail_if (ltb (length role_values) 1 || ltb 32 (length role_values)) invalid
  required_domain_roles ← traverse (λ v. assert_id (some v)) role_values
  assert_unique_canonical role_values
  decision_values ← assert_array (prop (text "allowed_decisions") fs)
  fail_if (ltb (length decision_values) 1) invalid
  allowed_decisions ← traverse (λ v. assert_id (some v)) decision_values
  assert_unique_canonical decision_values
  require (is_text (prop (text "role_decision_rule") fs) (text "named_representatives")) invalid
  representative_values ← assert_array (prop (text "role_representatives") fs)
  require (length representative_values == length role_values) invalid
  role_representatives ← read_representatives required_domain_roles [] [] representative_values
  require (length role_representatives == length role_values) invalid
  ok (record {
    policy_id = policy_id;
    policy_version = policy_version;
    slot = record {
      channel_id = channel_id;
      document_id = document_id;
      context_id = context_id;
      scope_id = scope_id;
      usage_scope = usage_scope;
    };
    membership_epoch = membership_epoch;
    role_binding_version = role_binding_version;
    acceptance_slot = acceptance_slot;
    required_domain_roles = required_domain_roles;
    allowed_decisions = allowed_decisions;
    role_representatives = role_representatives;
  })
