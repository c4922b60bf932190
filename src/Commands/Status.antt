-- ===== src/Commands/Status.antt =====
-- `executeStatusChange` of packages/domain/index.ts: withdraw and suspend.
use knowledger.Base.{Bool, ◌&&◌, List, [], ◌∷◌, String, text, text_eq, any}
use knowledger.Fault.{
  Result, ok, failure, agreement_not_found, agreement_not_active, forbidden, require, ◌>>=◌, ◌>>◌,
}
use knowledger.Json.{null, num, whole, str, Fields, prop, assert_keys}
use knowledger.Contracts.Identifiers.{assert_id, assert_non_empty_string}
use knowledger.Contracts.Actor.{Context}
use knowledger.Contracts.Policy.{RoleRepresentative}
use knowledger.Contracts.Config.{DomainConfig, policy_for, require_human}
use knowledger.Contracts.Agreement.{
  AgreementRecord, AgreementStatus, withdrawn, suspended, is_active, encode_agreement,
  validate_agreement,
}
use knowledger.Ledger.Keys.{agreement_key, active_slot_key}
use knowledger.Ledger.Store.{Store, read_or, put, put_clone}
use knowledger.Commands.Replies.{Outcome, reply, pointer, increment_epoch}
use knowledger.Commands.Suspension.{change_status}

-- The statuses that a representative may choose.
pub data DesiredStatus : Type 0 where
  withdraw suspend : DesiredStatus

unfoldable pub desired_status : DesiredStatus → AgreementStatus
desired_status withdraw = withdrawn
desired_status suspend = suspended

abbrev desired_text : DesiredStatus → String
desired_text withdraw = "withdrawn"
desired_text suspend = "suspended"

unfoldable pub is_authorized : Context → List RoleRepresentative → Bool
is_authorized ctx rs =
    any (λ r. text_eq r.actor_org_id ctx.actor.org_id && text_eq r.actor_id ctx.actor.actor_id) rs

unfoldable pub commit_status : AgreementRecord → DesiredStatus → Store → Outcome
commit_status a desired s = do
  s1 ← put_clone (agreement_key a.agreement_id) (encode_agreement a) s
  key ← active_slot_key a.slot
  bumped ← increment_epoch (put key (pointer "agreement_id" null) s1)
  ok (
    reply (desired_text desired) (
        (text "agreement_id", str a.agreement_id)
        ∷ (text "eligibility_epoch", num (whole (bumped.0)))
        ∷ []),
    bumped.1,
  )

-- `executeStatusChange` up to its first write: the agreement with its new status.
unfoldable pub admit_status_change :
    Context → DomainConfig → Fields → DesiredStatus → Store → Result AgreementRecord
admit_status_change ctx config input desired s = do
  identity ← require_human ctx config
  assert_keys input (text "agreement_id" ∷ text "reason" ∷ []) []
  agreement_id ← assert_id (prop (text "agreement_id") input)
  reason ← assert_non_empty_string (prop (text "reason") input) 1000
  value ← read_or (failure agreement_not_found 404) (agreement_key agreement_id) s
  a ← validate_agreement value
  policy ← policy_for config a.policy_id a.policy_version
  require (is_authorized ctx policy.role_representatives) (failure forbidden 403)
  require (is_active a.status) (failure agreement_not_active 409)
  ok (change_status ctx (desired_status desired) reason a)

unfoldable pub execute_status_change :
    Context → DomainConfig → Fields → DesiredStatus → Store → Outcome
execute_status_change ctx config input desired s = do
  a ← admit_status_change ctx config input desired s
  commit_status a desired s
