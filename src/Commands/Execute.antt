-- ===== src/Commands/Execute.antt =====
-- `validateCommand`, `idempotencyDigest`, `performCommand`, `bootstrap` and `execute` of
-- packages/domain/index.ts.
use knowledger.Base.{
  ℕ, Bool, true, false, ◌&&◌, List, [], ◌∷◌, ◌++◌, Option, none, some, Text, text, text_eq,
  if◌then◌else◌,
}
use knowledger.Fault.{
  Result, ok, err, failure, corrupt, forbidden, scope_mismatch, already_bootstrapped,
  not_bootstrapped, unsupported_command, idempotency_conflict, require, fail_if, ◌>>=◌, ◌>>◌,
}
use knowledger.Unicode.{utf8}
use knowledger.Json.{
  Json, num, whole, str, obj, Fields, end, field, prop, assert_record, assert_keys, is_text,
  required_property, is_present,
}
use knowledger.Json.Canonical.{canonicalize, clone_canonical}
use knowledger.Contracts.Identifiers.{assert_id, assert_non_empty_string, encode_version}
use knowledger.Contracts.Actor.{Actor, Context, is_human, encode_actor, kind_text, assert_context}
use knowledger.Contracts.Policy.{AgreementPolicy, encode_policy}
use knowledger.Contracts.Config.{DomainConfig, encode_config, validate_config, configured_identity}
use knowledger.Ledger.Keys.{config_key, policy_key, epoch_key, idempotency_key}
use knowledger.Ledger.Store.{Store, read, read_or, put, put_clone}
use knowledger.Commands.Replies.{Outcome, reply}
use knowledger.Commands.Publish.{execute_publish}
use knowledger.Commands.Propose.{execute_propose}
use knowledger.Commands.Decide.{execute_decide}
use knowledger.Commands.Activate.{execute_activate}
use knowledger.Commands.Status.{withdraw, suspend, execute_status_change}
use knowledger.Commands.Fence.{execute_fence}

pub record DomainCommand : Type 0 where
  pub command_id : Text
  pub kind : Text
  pub input : Fields

unfoldable pub validate_command : Json → Result DomainCommand
validate_command value = do
  fs ← assert_record (some value)
  assert_keys fs (text "command_id" ∷ text "type" ∷ text "input" ∷ []) []
  command_id ← assert_id (prop (text "command_id") fs)
  kind ← assert_non_empty_string (prop (text "type") fs) 80
  input ← assert_record (prop (text "input") fs)
  ok (record { command_id = command_id; kind = kind; input = input })

unfoldable pub read_config : Store → Result DomainConfig
read_config s = do
  value ← read_or (record { code = not_bootstrapped; status = 503; retryable = true }) config_key s
  validate_config value

-- What an `IdempotencyRecord` binds: the type, the digest and the actor.
unfoldable pub same_stored_actor : Option Json → Actor → Bool
same_stored_actor (some (obj fs)) actor =
    is_text (prop (text "org_id") fs) actor.org_id
    && is_text (prop (text "actor_id") fs) actor.actor_id
    && is_text (prop (text "kind") fs) (kind_text actor.kind)
same_stored_actor v actor = false

abbrev pub record_keys : List Text
record_keys =
    text "record_type"
    ∷ text "command_id"
    ∷ text "command_type"
    ∷ text "command_digest"
    ∷ text "actor"
    ∷ text "result"
    ∷ text "tx_id"
    ∷ []

unfoldable pub encode_record : Context → DomainCommand → Text → Json → Json
encode_record ctx command digest result = obj (
    field (text "record_type") (str (text "IdempotencyRecord")) (
      field (text "command_id") (str command.command_id) (
        field (text "command_type") (str command.kind) (
          field (text "command_digest") (str digest) (
            field (text "actor") (encode_actor ctx.actor)
              (field (text "result") result (field (text "tx_id") (str ctx.tx_id) end)))))))

-- The result of a command that was executed before, if the record binds this request.
unfoldable pub replay : Context → DomainCommand → Text → Json → Result Json
replay ctx command digest prior = do
  fs ← assert_record (some prior)
  assert_keys fs record_keys []
  require (is_text (prop (text "record_type") fs) (text "IdempotencyRecord")) corrupt
  require
      (is_text (prop (text "command_digest") fs) digest
        && is_text (prop (text "command_type") fs) command.kind
        && same_stored_actor (prop (text "actor") fs) ctx.actor)
      (failure idempotency_conflict 409)
  result ← required_property (text "result") fs
  clone_canonical result

unfoldable pub put_policies : List AgreementPolicy → Store → Result Store
put_policies [] s = ok s
put_policies (p ∷ ps) s = do
  s' ← put_clone (policy_key p.policy_id p.policy_version) (encode_policy p) s
  put_policies ps s'

-- `isRecord(configInput) ? configInput.channel_id : undefined`
unfoldable pub channel_of : Json → Option Json
channel_of (obj fs) = prop (text "channel_id") fs
channel_of v = none

unfoldable pub bootstrap : Context → Json → Store → Outcome
bootstrap ctx input s = do
  assert_context ctx
  require (is_human ctx.actor.kind) (failure forbidden 403)
  require (is_text (channel_of input) ctx.channel_id) (failure scope_mismatch 409)
  config ← validate_config input
  fail_if (is_present (read config_key s)) (failure already_bootstrapped 409)
  s1 ← put_clone config_key (encode_config config) s
  s2 ← put_policies config.policies (put epoch_key (num (whole 0)) s1)
  ok (
    reply "bootstrapped" (
        (text "channel_id", str config.channel_id)
        ∷ (text "config_version", encode_version config.config_version)
        ∷ (text "membership_epoch", num (whole config.membership_epoch))
        ∷ (text "role_binding_version", num (whole config.role_binding_version))
        ∷ []),
    s2,
  )

unfoldable pub store_record : Context → DomainCommand → Text → Json × Store → Outcome
store_record ctx command digest (result, s) = do
  cloned ← clone_canonical result
  s' ←
      put_clone (idempotency_key ctx.actor.org_id command.command_id)
        (encode_record ctx command digest cloned) s
  ok (result, s')

module _ (sha256 : List ℕ → Text) where
  unfoldable pub idempotency_digest : DomainCommand → Result Text
  idempotency_digest command = do
    canonical ← canonicalize (
        obj (field (text "type") (str command.kind) (field (text "input") (obj command.input) end)))
    ok (text "sha256:" ++ sha256 (utf8 canonical))

  unfoldable pub perform_command : Context → DomainConfig → DomainCommand → Store → Outcome
  perform_command ctx config command s =
      if text_eq command.kind (text "publish_revision")
      then execute_publish sha256 ctx config command.input s
      else if text_eq command.kind (text "propose")
      then execute_propose sha256 ctx config command.input s
      else if text_eq command.kind (text "decide")
      then execute_decide sha256 ctx config command.input s
      else if text_eq command.kind (text "activate")
      then execute_activate sha256 ctx config command.input s
      else if text_eq command.kind (text "withdraw")
      then execute_status_change ctx config command.input withdraw s
      else if text_eq command.kind (text "suspend")
      then execute_status_change ctx config command.input suspend s
      else if text_eq command.kind (text "fence")
      then execute_fence ctx config command.input s
      else err (failure unsupported_command 400)

  -- The command is performed and its record is written.
  unfoldable pub perform_once : Context → DomainConfig → DomainCommand → Text → Store → Outcome
  perform_once ctx config command digest s = do
    done ← perform_command ctx config command s
    store_record ctx command digest done

  unfoldable pub execute : Context → Json → Store → Outcome
  execute ctx value s = do
    assert_context ctx
    command ← validate_command value
    config ← read_config s
    require (text_eq ctx.channel_id config.channel_id) (failure scope_mismatch 409)
    identity ← configured_identity config ctx.actor
    digest ← idempotency_digest command
    elim (read (idempotency_key ctx.actor.org_id command.command_id) s) [
      | some prior ↦ do result ← replay ctx command digest prior; ok (result, s)
      | none ↦ perform_once ctx config command digest s
    ]
