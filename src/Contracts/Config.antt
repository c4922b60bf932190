-- ===== src/Contracts/Config.antt =====
-- `DomainConfig`, `validateConfig`, `policyFor`, `configuredIdentity` and `requireHuman` of
-- packages/domain/index.ts.
use knowledger.Base.{
  ℕ, Bool, true, false, ◌&&◌, List, [], ◌∷◌, Option, some, none, Text, text, text_eq, includes,
  length, ltb, ◌==◌, find, map,
}
use knowledger.Fault.{
  Result, ok, err, invalid, failure, forbidden, policy_not_found, require, fail_if, traverse, ◌>>=◌,
  ◌>>◌,
}
use knowledger.Json.{
  Json, bool, num, whole, str, arr, obj, end, field, from_list, prop, assert_record, assert_array,
  assert_keys, assert_safe_integer, assert_boolean, is_text,
}
use knowledger.Json.Canonical.{assert_unique_canonical}
use knowledger.Contracts.Identifiers.{ConfigVersion, assert_id, assert_version, encode_version}
use knowledger.Contracts.Actor.{Actor, is_human, same_kind, kind_text, read_kind, Context}
use knowledger.Contracts.Policy.{
  AgreementPolicy, RoleRepresentative, actor_key, encode_policy, validate_policy,
}

pub record ConfigIdentity : Type 0 where
  pub actor : Actor
  pub publish_contexts : List Text
  pub can_propose : Bool

pub record DomainConfig : Type 0 where
  pub config_version : ConfigVersion
  pub channel_id : Text
  pub membership_epoch : ℕ
  pub role_binding_version : ℕ
  pub serving_enabled : Bool
  pub identities : List ConfigIdentity
  pub policies : List AgreementPolicy

unfoldable pub encode_identity : ConfigIdentity → Json
encode_identity i = obj (
    field (text "org_id") (str i.actor.org_id) (
      field (text "actor_id") (str i.actor.actor_id) (
        field (text "kind") (str (kind_text i.actor.kind)) (
          field (text "publish_contexts") (arr (from_list (map str i.publish_contexts)))
            (field (text "can_propose") (bool i.can_propose) end)))))

unfoldable pub encode_config : DomainConfig → Json
encode_config c = obj (
    field (text "config_version") (encode_version c.config_version) (
      field (text "channel_id") (str c.channel_id) (
        field (text "membership_epoch") (num (whole c.membership_epoch)) (
          field (text "role_binding_version") (num (whole c.role_binding_version)) (
            field (text "serving_enabled") (bool c.serving_enabled) (
              field (text "identities") (arr (from_list (map encode_identity c.identities)))
                (field (text "policies") (arr (from_list (map encode_policy c.policies))) end)))))))

-- A context is an id or "*".
unfoldable pub read_context : Json → Result Text
read_context v = elim (is_text (some v) (text "*")) [
  | true ↦ ok (text "*")
  | false ↦ assert_id (some v)
]

unfoldable pub read_identity : Json → Result ConfigIdentity
read_identity value = do
  fs ← assert_record (some value)
  assert_keys fs
      (text "org_id"
        ∷ text "actor_id"
        ∷ text "kind"
        ∷ text "publish_contexts"
        ∷ text "can_propose"
        ∷ [])
      []
  org_id ← assert_id (prop (text "org_id") fs)
  actor_id ← assert_id (prop (text "actor_id") fs)
  kind ← read_kind invalid (prop (text "kind") fs)
  context_values ← assert_array (prop (text "publish_contexts") fs)
  publish_contexts ← traverse read_context context_values
  assert_unique_canonical context_values
  can_propose ← assert_boolean (prop (text "can_propose") fs)
  ok (record {
    actor = record { org_id = org_id; actor_id = actor_id; kind = kind };
    publish_contexts = publish_contexts;
    can_propose = can_propose;
  })

-- The loop over the identities, with the keys seen so far.
unfoldable pub read_identities : List Text → List Json → Result (List ConfigIdentity)
read_identities seen [] = ok []
read_identities seen (value ∷ values) = do
  i ← read_identity value
  let key = actor_key i.actor.org_id i.actor.actor_id
  fail_if (includes key seen) invalid
  rest ← read_identities (key ∷ seen) values
  ok (i ∷ rest)

-- `identity.org_id === org && identity.actor_id === actor`
unfoldable pub has_actor : Text → Text → ConfigIdentity → Bool
has_actor org actor i = text_eq i.actor.org_id org && text_eq i.actor.actor_id actor

unfoldable pub is_human_identity : Option ConfigIdentity → Bool
is_human_identity none = false
is_human_identity (some i) = is_human i.actor.kind

-- Every representative is a configured human.
unfoldable pub check_representatives :
    List ConfigIdentity → List RoleRepresentative → Result (Unit {0})
check_representatives identities [] = ok tt
check_representatives identities (r ∷ rs) = do
  require (is_human_identity (find (has_actor r.actor_org_id r.actor_id) identities)) invalid
  check_representatives identities rs

-- `${policy_id}|${policy_version}` names a pair.
unfoldable pub is_policy : Text → ℕ → AgreementPolicy → Bool
is_policy policy_id policy_version p =
    text_eq p.policy_id policy_id && p.policy_version == policy_version

-- The loop over the policies, with those read so far.
unfoldable pub read_policies :
    Text
    → ℕ
    → ℕ
    → List ConfigIdentity
    → List AgreementPolicy
    → List Json
    → Result (List AgreementPolicy)
read_policies channel epoch binding identities seen [] = ok []
read_policies channel epoch binding identities seen (value ∷ values) = do
  p ← validate_policy value
  require (text_eq p.slot.channel_id channel) invalid
  require (p.membership_epoch == epoch) invalid
  require (p.role_binding_version == binding) invalid
  fail_if
      (elim (find (is_policy p.policy_id p.policy_version) seen) [ none ↦ false | some q ↦ true ])
      invalid
  check_representatives identities p.role_representatives
  rest ← read_policies channel epoch binding identities (p ∷ seen) values
  ok (p ∷ rest)

unfoldable pub validate_config : Json → Result DomainConfig
validate_config value = do
  fs ← assert_record (some value)
  assert_keys fs
      (text "config_version"
        ∷ text "channel_id"
        ∷ text "membership_epoch"
        ∷ text "role_binding_version"
        ∷ text "serving_enabled"
        ∷ text "identities"
        ∷ text "policies"
        ∷ [])
      []
  config_version ← assert_version (prop (text "config_version") fs)
  channel_id ← assert_id (prop (text "channel_id") fs)
  membership_epoch ← assert_safe_integer (prop (text "membership_epoch") fs) 1
  role_binding_version ← assert_safe_integer (prop (text "role_binding_version") fs) 1
  serving_enabled ← assert_boolean (prop (text "serving_enabled") fs)
  identity_values ← assert_array (prop (text "identities") fs)
  fail_if (ltb (length identity_values) 1) invalid
  identities ← read_identities [] identity_values
  policy_values ← assert_array (prop (text "policies") fs)
  fail_if (ltb (length policy_values) 1) invalid
  policies ←
      read_policies channel_id membership_epoch role_binding_version identities [] policy_values
  ok (record {
    config_version = config_version;
    channel_id = channel_id;
    membership_epoch = membership_epoch;
    role_binding_version = role_binding_version;
    serving_enabled = serving_enabled;
    identities = identities;
    policies = policies;
  })

unfoldable pub policy_for : DomainConfig → Text → ℕ → Result AgreementPolicy
policy_for config policy_id policy_version =
    elim (find (is_policy policy_id policy_version) config.policies) [
      | none ↦ err (failure policy_not_found 404)
      | some p ↦ ok p
    ]

unfoldable pub configured_identity : DomainConfig → Actor → Result ConfigIdentity
configured_identity config actor =
    elim (find (λ i. has_actor actor.org_id actor.actor_id i && same_kind i.actor.kind actor.kind)
      config.identities) [ none ↦ err (failure forbidden 403) | some i ↦ ok i ]

unfoldable pub require_human : Context → DomainConfig → Result ConfigIdentity
require_human ctx config = do
  require (is_human ctx.actor.kind) (failure forbidden 403)
  configured_identity config ctx.actor
