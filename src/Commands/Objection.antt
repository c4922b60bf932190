-- ===== src/Commands/Objection.antt =====
-- What a decision other than an approval does to the active agreement: `executeDecide` and
-- `suspendActiveAgreement` of packages/domain/index.ts.
use knowledger.Base.{
  ℕ, true, false, ◌||◌, List, [], Option, none, some, Text, text_eq_refl, ◌≡◌, ◌≢◌, refl, ap, ◌∙◌,
  sym, arith,
}
use knowledger.Fault.{Result, ok, >>=-eq-ok, ok_eq, ◌>>=◌}
use knowledger.Json.{Json, Fields, null, present}
use knowledger.Json.Canonical.{clone_canonical}
use knowledger.Contracts.Slot.{Slot, is_slot, slot_text, slot_key}
use knowledger.Contracts.Actor.{Context}
use knowledger.Contracts.Revision.{DocumentRevision}
use knowledger.Contracts.Config.{DomainConfig}
use knowledger.Contracts.Proposal.{AgreementProposal}
use knowledger.Contracts.Decision.{ApprovalDecision, is_approve}
use knowledger.Contracts.Agreement.{AgreementRecord, is_active, suspended, encode_agreement}
use knowledger.Ledger.Keys.{
  Key, Prefix, agreement_key, slot_pointer_key, active_slot_key, unchecked_key,
}
use knowledger.Ledger.Store.{Store, read, read_or, put, put_clone}
use knowledger.Ledger.Laws.{key_eq_refl, same_prefix}
use knowledger.Resolve.{eligible, resolve_at}
use knowledger.Commands.Replies.{pointer, increment_epoch}
use knowledger.Commands.Suspension.{
  pointed_id, load_active, get_active_agreement, change_status, deactivate,
  suspend_active_agreement,
}
use knowledger.Commands.Decide.{
  Admitted, admit_decision, execute_decide, store_decision, suspend_unless_approved,
  record_decision, suspension_reason,
}
use knowledger.Commands.Withdrawal.{unpointed}

-- What the pointer and the agreements that it may lead to say.
abbrev active_from : Option Json → (Text → Result AgreementRecord) → Result (Option AgreementRecord)
active_from none load = ok none
active_from (some v) load = do
  id ← pointed_id v
  elim id [ none ↦ ok none | some t ↦ do a ← load t; ok (some a) ]

get_active_agreement-from :
    (slot : Slot) (s : Store)
    → is_slot slot ≡ true
    → get_active_agreement slot s
      ≡ active_from (read (slot_pointer_key (slot_text slot)) s) (λ id. load_active slot id s)
unfolding get_active_agreement active_slot_key slot_key
get_active_agreement-from slot s h = rw h (same (read (slot_pointer_key (slot_text slot)) s))
  where
    same :
        (o : Option Json)
        → (elim o [
          | none ↦ ok none
          | some v ↦ do
            id ← pointed_id v
            elim id [ none ↦ ok none | some t ↦ do a ← load_active slot t s; ok (some a) ]
        ])
          ≡ active_from o (λ id. load_active slot id s)
    same none = refl
    same (some v) = refl

module _ (slot : Slot) (s t : Store)
    (same_agreements : (id : Text) → t.at (agreement_key id) ≡ s.at (agreement_key id))
    (same_pointer : t.at (slot_pointer_key (slot_text slot))
      ≡ s.at (slot_pointer_key (slot_text slot))) where
  read_agreement_eq : (id : Text) → read (agreement_key id) t ≡ read (agreement_key id) s
  unfolding read
  read_agreement_eq id = ap present (same_agreements id)

  load_active_eq : (id : Text) → load_active slot id t ≡ load_active slot id s
  unfolding load_active unchecked_key read_or
  load_active_eq id = ground (arith, read_agreement_eq id)

  read_pointer_eq :
      read (slot_pointer_key (slot_text slot)) t ≡ read (slot_pointer_key (slot_text slot)) s
  unfolding read
  read_pointer_eq = ap present same_pointer

  get_active_agreement_eq :
      is_slot slot ≡ true → get_active_agreement slot t ≡ get_active_agreement slot s
  get_active_agreement_eq h =
      get_active_agreement-from slot t h
      ∙ (λ i. active_from (read_pointer_eq i) (λ id. load_active_eq id i))
      ∙ sym (get_active_agreement-from slot s h)

store_decision-frame :
    (p : AgreementProposal) (d : ApprovalDecision) (k : Key) (s : Store) {t : Store}
    → store_decision p d s ≡ ok t
    → (same_prefix Prefix.agreement k.prefix || same_prefix Prefix.active_slot k.prefix) ≡ true
    → t.at k ≡ s.at k
unfolding store_decision put put_clone clone_canonical
store_decision-frame p d k s h kind = ground arith

deactivate-Suspended :
    (a : AgreementRecord) (slot : Slot) (s : Store) {t : Store}
    → deactivate a slot s ≡ ok t
    → (t.at (agreement_key a.agreement_id) ≡ some (encode_agreement a))
      × (t.at (slot_pointer_key (slot_text slot)) ≡ some (pointer "agreement_id" null))
unfolding deactivate active_slot_key slot_key put put_clone clone_canonical increment_epoch
deactivate-Suspended a slot s h = (
  ground (arith, key_eq_refl (agreement_key a.agreement_id)),
  ground (arith, key_eq_refl (slot_pointer_key (slot_text slot))),
)

get_active_agreement-is_slot :
    (slot : Slot) (s : Store) {o : Option AgreementRecord}
    → get_active_agreement slot s ≡ ok o
    → is_slot slot ≡ true
unfolding get_active_agreement active_slot_key slot_key
get_active_agreement-is_slot slot s h = ground arith

suspend_unless_approved-Suspended :
    (ctx : Context) (p : AgreementProposal) (d : ApprovalDecision) (a : AgreementRecord) (s : Store)
    {o : Option AgreementRecord} {t : Store}
    → get_active_agreement p.slot s ≡ ok (some a)
    → is_active a.status ≡ true
    → a.proposal_id ≡ d.proposal_id
    → is_approve d.decision ≡ false
    → suspend_unless_approved ctx p d s ≡ ok (o, t)
    → deactivate (change_status ctx suspended (suspension_reason d.decision) a) p.slot s ≡ ok t
unfolding suspend_unless_approved suspend_active_agreement
suspend_unless_approved-Suspended ctx p d a s e active same objects h =
    ground (arith, text_eq_refl d.proposal_id)

module _ (sha256 : List ℕ → Text) (ctx : Context) (config : DomainConfig) (input : Fields)
    (s : Store) (x : Admitted) (a : AgreementRecord) where
  -- A representative's decision other than an approval suspends the active agreement of its proposal:
  -- the store holds the agreement as suspended, and the resolver finds none in its slot.
  pub execute_decide-suspends :
      {r : Json} {t : Store}
      → execute_decide sha256 ctx config input s ≡ ok (r, t)
      → admit_decision sha256 ctx config input s ≡ ok x
      → is_approve x.decision.decision ≡ false
      → get_active_agreement x.proposal.slot s ≡ ok (some a)
      → is_active a.status ≡ true
      → a.proposal_id ≡ x.decision.proposal_id
      → (t.at (agreement_key a.agreement_id)
          ≡ some (
              encode_agreement
                (change_status ctx suspended (suspension_reason x.decision.decision) a)))
        × ((found : AgreementRecord) (rev : DocumentRevision) (n : ℕ)
            → resolve_at sha256 t x.proposal.slot [] 0 0 ≢ ok (eligible found rev, n))
  unfolding execute_decide record_decision change_status
  execute_decide-suspends {r} {t} h admitted objects current active same =
      let recorded : record_decision ctx x.proposal x.decision s ≡ ok (r, t) =
        ground (arith, admitted) in
      let (s', e1, h1) = >>=-eq-ok (store_decision x.proposal x.decision s) _ recorded in
      let (done, e2, h2) = >>=-eq-ok (suspend_unless_approved ctx x.proposal x.decision s') _ h1 in
      let last : done.1 ≡ t = ap (λ (o : Json × Store). o.1) (ok_eq h2) in
      let still : get_active_agreement x.proposal.slot s' ≡ ok (some a) =
        get_active_agreement_eq x.proposal.slot s s'
          (λ id. store_decision-frame x.proposal x.decision (agreement_key id) s e1 refl)
          (store_decision-frame x.proposal x.decision (slot_pointer_key (slot_text x.proposal.slot))
            s e1 refl)
          (get_active_agreement-is_slot x.proposal.slot s current)
        ∙ current in
      let (stored, cleared) =
        deactivate-Suspended (change_status ctx suspended (suspension_reason x.decision.decision) a)
          x.proposal.slot s'
          (suspend_unless_approved-Suspended ctx x.proposal x.decision a s' still active same
            objects e2) in
      (
        rw (← last) stored,
        λ found rev n. unpointed sha256 t x.proposal.slot found rev n (rw (← last) cleared),
      )
