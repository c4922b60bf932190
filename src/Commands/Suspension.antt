-- ===== src/Commands/Suspension.antt =====
-- `getActiveAgreement` and `suspendActiveAgreement` of packages/domain/index.ts.
use knowledger.Base.{true, false, [], ◌∷◌, Option, none, some, Text, text, text_eq, ◌&&◌}
use knowledger.Fault.{Result, ok, corrupt, require, ◌>>=◌, ◌>>◌}
use knowledger.Json.{Json, null, str, prop, assert_record, assert_keys}
use knowledger.Contracts.Identifiers.{assert_id}
use knowledger.Contracts.Slot.{Slot, same_slot}
use knowledger.Contracts.Actor.{Context}
use knowledger.Contracts.Agreement.{
  AgreementRecord, AgreementStatus, suspended, is_active, encode_agreement, validate_agreement,
}
use knowledger.Ledger.Keys.{agreement_key, active_slot_key, unchecked_key}
use knowledger.Ledger.Store.{Store, read, read_or, put, put_clone}
use knowledger.Commands.Replies.{pointer, increment_epoch}

-- The id that the active slot pointer holds.
unfoldable pub pointed_id : Json → Result (Option Text)
pointed_id (str t) = ok (some t)
pointed_id v = do
  fs ← assert_record (some v)
  assert_keys fs (text "agreement_id" ∷ []) []
  elim (prop (text "agreement_id") fs) [
    | some null ↦ ok none
    | w ↦ do id ← assert_id w; ok (some id)
  ]

unfoldable pub load_active : Slot → Text → Store → Result AgreementRecord
load_active slot id s = do
  key ← unchecked_key agreement_key id
  value ← read_or corrupt key s
  agreement ← validate_agreement value
  same ← same_slot agreement.slot slot
  require same corrupt
  ok agreement

unfoldable pub get_active_agreement : Slot → Store → Result (Option AgreementRecord)
get_active_agreement slot s = do
  key ← active_slot_key slot
  elim (read key s) [
    | none ↦ ok none
    | some v ↦ do
      id ← pointed_id v
      elim id [ none ↦ ok none | some t ↦ do a ← load_active slot t s; ok (some a) ]
  ]

-- `{ ...agreement, status, status_reason, status_changed_by, status_changed_at }`
unfoldable pub change_status : Context → AgreementStatus → Text → AgreementRecord → AgreementRecord
change_status ctx status reason a = record a {
  status = status;
  status_reason = some reason;
  status_changed_by = some ctx.actor;
  status_changed_at = some ctx.timestamp;
}

-- The record with its new status, an empty pointer, and a new epoch.
unfoldable pub deactivate : AgreementRecord → Slot → Store → Result Store
deactivate a slot s = do
  s1 ← put_clone (agreement_key a.agreement_id) (encode_agreement a) s
  key ← active_slot_key slot
  bumped ← increment_epoch (put key (pointer "agreement_id" null) s1)
  ok (bumped.1)

unfoldable pub suspend_active_agreement :
    Context → Slot → Text → Text → Store → Result (Option AgreementRecord × Store)
suspend_active_agreement ctx slot reason expected_proposal s = do
  active ← get_active_agreement slot s
  elim active [
    | none ↦ ok (none, s)
    | some a ↦ elim (is_active a.status && text_eq a.proposal_id expected_proposal) [
      | false ↦ ok (none, s)
      | true ↦ do
        let after = change_status ctx suspended reason a
        s' ← deactivate after slot s
        ok (some after, s')
    ]
  ]
