-- ===== src/Commands/Withdrawal.antt =====
-- What `executeStatusChange` of packages/domain/index.ts means to the resolver.
use knowledger.Base.{ℕ, List, [], Option, some, Text, text_eq, ◌≡◌, ◌≢◌, ap, ◌∙◌, sym, arith}
use knowledger.Fault.{ok, >>=-eq-ok}
use knowledger.Json.{Json, Fields, null, present, prop}
use knowledger.Json.Canonical.{clone_canonical}
use knowledger.Contracts.Slot.{Slot, slot_text, slot_key}
use knowledger.Contracts.Actor.{Context}
use knowledger.Contracts.Revision.{DocumentRevision}
use knowledger.Contracts.Config.{DomainConfig}
use knowledger.Contracts.Agreement.{AgreementRecord, encode_agreement}
use knowledger.Ledger.Keys.{agreement_key, slot_pointer_key, active_slot_key}
use knowledger.Ledger.Store.{Store, read, put, put_clone}
use knowledger.Ledger.Laws.{key_eq_refl}
use knowledger.Resolve.{
  eligible, read_pointer, resolve_at, points_to, points_nowhere, no_active_agreement,
}
use knowledger.Resolve.Soundness.{Eligible, derive, resolve_at_sound}
use knowledger.Commands.Replies.{pointer, increment_epoch}
use knowledger.Commands.Suspension.{change_status}
use knowledger.Commands.Status.{
  DesiredStatus, desired_status, commit_status, admit_status_change, execute_status_change,
}

no_pointer : (id : Text) → points_nowhere no_active_agreement ≢ points_to id
no_pointer id h = cc

cleared_pointer :
    (id : Text) → read_pointer (present (some (pointer "agreement_id" null))) ≢ points_to id
unfolding read_pointer present prop text_eq
cleared_pointer id h = no_pointer id h

module _ (sha256 : List ℕ → Text) (t : Store) (slot : Slot) (a : AgreementRecord)
    (rev : DocumentRevision) where
  derived-points :
      (config : DomainConfig) (nodes : ℕ)
      → Eligible sha256 t config 9 [] slot a rev nodes
      → (id : Text) × (read_pointer (read (slot_pointer_key (slot_text slot)) t) ≡ points_to id)
  derived-points config nodes (derive _ _ l _) = (l.pointed, l.points)

  -- A slot whose pointer is null has no agreement for the resolver.
  pub unpointed :
      (n : ℕ)
      → t.at (slot_pointer_key (slot_text slot)) ≡ some (pointer "agreement_id" null)
      → resolve_at sha256 t slot [] 0 0 ≢ ok (eligible a rev, n)
  unfolding read
  unpointed n e h =
      let (config, _, _, _, _, derivation, _) = resolve_at_sound sha256 t slot a rev n h in
      let (id, points) = derived-points config n derivation in
      cleared_pointer id (ap (λ (o : Option Json). read_pointer (present o)) (sym e) ∙ points)

module _ (ctx : Context) (config : DomainConfig) (input : Fields) (desired : DesiredStatus)
    (s : Store) where
  commit_status-Settled :
      (a : AgreementRecord) {r : Json} {t : Store}
      → commit_status a desired s ≡ ok (r, t)
      → (t.at (agreement_key a.agreement_id) ≡ some (encode_agreement a))
        × (t.at (slot_pointer_key (slot_text a.slot)) ≡ some (pointer "agreement_id" null))
  unfolding commit_status active_slot_key slot_key put put_clone clone_canonical increment_epoch
  commit_status-Settled a h = (
    ground (arith, key_eq_refl (agreement_key a.agreement_id)),
    ground (arith, key_eq_refl (slot_pointer_key (slot_text a.slot))),
  )

  -- After a withdrawal or a suspension the store holds the agreement with the new status, and the
  -- resolver finds no agreement in its slot.
  pub execute_status_change-unresolvable :
      (sha256 : List ℕ → Text) {r : Json} {t : Store}
      → execute_status_change ctx config input desired s ≡ ok (r, t)
      → (a : AgreementRecord) × (admit_status_change ctx config input desired s ≡ ok a)
        × (a.status ≡ desired_status desired)
        × (t.at (agreement_key a.agreement_id) ≡ some (encode_agreement a))
        × ((found : AgreementRecord) (rev : DocumentRevision) (n : ℕ)
            → resolve_at sha256 t a.slot [] 0 0 ≢ ok (eligible found rev, n))
  unfolding execute_status_change admit_status_change change_status
  execute_status_change-unresolvable sha256 {r} {t} h =
      let (a, e, h1) = >>=-eq-ok (admit_status_change ctx config input desired s) _ h in
      let (stored, cleared) = commit_status-Settled a h1 in
      (
        a,
        e,
        ground (arith, e),
        stored,
        λ found rev n. unpointed sha256 t a.slot found rev n cleared,
      )
