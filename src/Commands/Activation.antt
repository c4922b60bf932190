-- ===== src/Commands/Activation.antt =====
-- What `executeActivate` of packages/domain/index.ts demands of the approvals, and what it writes.
use knowledger.Base.{
  refl, ap, subst, Bool-cases, ◌⊎◌, ℕ, false, List, [], Option, none, some, inl, inr, Text, text,
  ◌≡◌, arith,
}
use knowledger.Fault.{ok, >>=-eq-ok}
use knowledger.Json.{Json, Fields, str}
use knowledger.Json.Canonical.{clone_canonical}
use knowledger.Contracts.Slot.{slot_key, slot_text}
use knowledger.Contracts.Actor.{Context}
use knowledger.Contracts.Config.{DomainConfig}
use knowledger.Contracts.Proposal.{AgreementProposal, activated, encode_proposal}
use knowledger.Contracts.Decision.{ApprovalDecision}
use knowledger.Contracts.Agreement.{AgreementRecord, encode_agreement, active, superseded}
use knowledger.Ledger.Keys.{agreement_key, active_slot_key, slot_pointer_key, proposal_key, key_eq}
use knowledger.Ledger.Store.{Store, put, put_clone}
use knowledger.Ledger.Laws.{key_eq_refl, key_eq→eq}
use knowledger.Commands.Replies.{pointer}
use knowledger.Commands.Suspension.{change_status}
use knowledger.Commands.Collected.{Approvals, ids_of, collect_approvals-Approvals}
use knowledger.Commands.Planned.{Planned, admit_activation-Planned}
use knowledger.Commands.Activate.{
  Activation, new_agreement, supersede, commit_agreement, admit_activation, execute_activate,
}

-- What an activation leaves in the store.
pub record Activates (ctx : Context) (p : AgreementProposal) (a : AgreementRecord) (t : Store)
    : Type 0 where
  pub agreement_stored : t.at (agreement_key a.agreement_id) ≡ some (encode_agreement a)
  pub slot_points :
      t.at (slot_pointer_key (slot_text p.slot))
      ≡ some (pointer "agreement_id" (str a.agreement_id))
  pub proposal_consumed :
      t.at (proposal_key p.proposal_id)
      ≡ some (encode_proposal (record p { status = activated; agreement_id = some a.agreement_id }))

commit_agreement-Activates :
    (ctx : Context) (p : AgreementProposal) (current : Option AgreementRecord) (a : AgreementRecord)
    (s : Store) {r : Json} {t : Store}
    → commit_agreement ctx p current a s ≡ ok (r, t)
    → Activates ctx p a t
unfolding commit_agreement active_slot_key slot_key put put_clone clone_canonical
commit_agreement-Activates ctx p current a s h = record {
  agreement_stored = ground (arith, key_eq_refl (agreement_key a.agreement_id));
  slot_points = ground (arith, key_eq_refl (slot_pointer_key (slot_text p.slot)));
  proposal_consumed = ground (arith, key_eq_refl (proposal_key p.proposal_id));
}

-- The agreement that was active before is stored as superseded by the actor, at the time of the command,
-- unless the new agreement has its id.
abbrev pub Supersedes : Context → Option AgreementRecord → Text → Store → Type 0
Supersedes ctx none id t = Unit
Supersedes ctx (some old) id t =
    (agreement_key id ≡ agreement_key old.agreement_id)
    ⊎ (t.at (agreement_key old.agreement_id)
        ≡ some (
            encode_agreement (record old {
              status = superseded;
              status_reason = some (text "replaced_by_new_active_agreement");
              status_changed_by = some ctx.actor;
              status_changed_at = some ctx.timestamp;
            })))

commit_agreement-at_superseded :
    (ctx : Context) (p : AgreementProposal) (old a : AgreementRecord) (s : Store) {r : Json}
    {t : Store}
    → commit_agreement ctx p (some old) a s ≡ ok (r, t)
    → key_eq (agreement_key a.agreement_id) (agreement_key old.agreement_id) ≡ false
    → t.at (agreement_key old.agreement_id)
      ≡ some (
          encode_agreement
            (change_status ctx superseded (text "replaced_by_new_active_agreement") old))
unfolding commit_agreement supersede active_slot_key slot_key put put_clone clone_canonical
commit_agreement-at_superseded ctx p old a s h apart =
    ground (arith, key_eq_refl (agreement_key old.agreement_id))

commit_agreement-Supersedes :
    (ctx : Context) (p : AgreementProposal) (current : Option AgreementRecord) (a : AgreementRecord)
    (s : Store) {r : Json} {t : Store}
    → commit_agreement ctx p current a s ≡ ok (r, t)
    → Supersedes ctx current a.agreement_id t
unfolding change_status
commit_agreement-Supersedes ctx p none a s h = tt
commit_agreement-Supersedes ctx p (some old) a s h =
    elim (Bool-cases (key_eq (agreement_key a.agreement_id) (agreement_key old.agreement_id))) [
      | inl e ↦ inl (key_eq→eq (agreement_key a.agreement_id) (agreement_key old.agreement_id) e)
      | inr e ↦ inr (commit_agreement-at_superseded ctx p old a s h e)
    ]

-- What a new agreement records of the plan: it is active under the configuration.
pub record Records (ctx : Context) (config : DomainConfig) (plan : Activation)
    (p : AgreementProposal) (id : Text) (ds : List ApprovalDecision) (a : AgreementRecord)
    : Type 0 where
  pub of_id : a.agreement_id ≡ id
  pub of_proposal : a.proposal_id ≡ p.proposal_id
  pub of_revision : a.revision_digest ≡ plan.revision.revision_digest
  pub in_slot : a.slot ≡ plan.revision.payload.slot
  pub of_policy : a.policy_id ≡ plan.policy.policy_id
  pub of_version : a.policy_version ≡ plan.policy.policy_version
  pub of_epoch : a.membership_epoch ≡ config.membership_epoch
  pub of_binding : a.role_binding_version ≡ config.role_binding_version
  pub cites : a.approval_decision_ids ≡ ids_of ds
  pub is_active : a.status ≡ active
  pub by_actor : a.activated_by ≡ ctx.actor
  pub at_time : a.activated_at ≡ ctx.timestamp

module _ (sha256 : List ℕ → Text) (config : DomainConfig) (s : Store) where
  -- The approvals of the stored proposal that the plan collected.
  approvals :
      (ctx : Context) (input : Fields) (plan : Activation)
      (planned : Planned sha256 config s ctx input plan)
      → (ds : List ApprovalDecision) × Approvals s planned.proposal plan.policy.role_representatives
          plan.policy.required_domain_roles ds
        × (plan.approval_decision_ids ≡ ids_of ds)
  approvals ctx input plan planned =
      collect_approvals-Approvals s planned.proposal plan.policy.role_representatives
        plan.policy.required_domain_roles [] planned.checked.collected

  -- A successful activation comes from a human who names a stored proposal that is open and current,
  -- under the configuration's policy for it and with its published revision and the dependencies eligible.
  -- Each role that this policy requires has its latest decision approve the proposal, the new agreement
  -- cites exactly those decisions in the order of the roles, records the revision, the policy and
  -- the configuration, is active and has the new id of the input, the agreement that was active is the
  -- expected one, and the store holds the new agreement, the pointer to it and the consumed
  -- proposal.
  pub execute_activate-approved :
      (ctx : Context) (input : Fields) {r : Json} {t : Store}
      → execute_activate sha256 ctx config input s ≡ ok (r, t)
      → (plan : Activation) × (planned : Planned sha256 config s ctx input plan) × ((ds : List
            ApprovalDecision)
          × Approvals s planned.proposal plan.policy.role_representatives
              plan.policy.required_domain_roles ds
          × Records ctx config plan planned.proposal planned.agreement_id ds
              (new_agreement ctx config plan))
        × Activates ctx planned.proposal (new_agreement ctx config plan) t
  unfolding execute_activate new_agreement
  execute_activate-approved ctx input {r} {t} h =
      let (plan, e, h1) = >>=-eq-ok (admit_activation sha256 ctx config input s) _ h in
      let planned = admit_activation-Planned sha256 config s ctx input plan e in
      let (ds, given, cited) = approvals ctx input plan planned in
      (
        plan,
        planned,
        (
          ds,
          given,
          record {
            of_id = planned.checked.of_id;
            of_proposal = ap (λ (p : AgreementProposal). p.proposal_id) planned.checked.of_proposal;
            of_revision = refl;
            in_slot = refl;
            of_policy = refl;
            of_version = refl;
            of_epoch = refl;
            of_binding = refl;
            cites = cited;
            is_active = refl;
            by_actor = refl;
            at_time = refl;
          },
        ),
        subst (λ p. Activates ctx p (new_agreement ctx config plan) t) planned.checked.of_proposal
            (commit_agreement-Activates ctx plan.proposal plan.current
              (new_agreement ctx config plan) s h1),
      )

  -- After a successful activation the pointer of the proposal's slot leads to the new agreement, which is
  -- stored with the status active, and the agreement that was active in the slot before is stored as
  -- superseded by the actor, at the time and with the reason of the replacement, and otherwise as it was,
  -- unless the new one has its id.
  pub execute_activate-Supersedes :
      (ctx : Context) (input : Fields) {r : Json} {t : Store}
      → execute_activate sha256 ctx config input s ≡ ok (r, t)
      → (plan : Activation) × (planned : Planned sha256 config s ctx input plan) × (t.at
            (slot_pointer_key (slot_text planned.proposal.slot))
          ≡ some (pointer "agreement_id" (str plan.agreement_id)))
        × (t.at (agreement_key plan.agreement_id)
            ≡ some (encode_agreement (record (new_agreement ctx config plan) { status = active })))
        × Supersedes ctx plan.current plan.agreement_id t
  unfolding execute_activate new_agreement
  execute_activate-Supersedes ctx input {r} {t} h =
      let (plan, e, h1) = >>=-eq-ok (admit_activation sha256 ctx config input s) _ h in
      let planned = admit_activation-Planned sha256 config s ctx input plan e in
      let written =
        commit_agreement-Activates ctx plan.proposal plan.current (new_agreement ctx config plan) s
          h1 in
      (
        plan,
        planned,
        subst
            (λ (p : AgreementProposal).
              t.at (slot_pointer_key (slot_text p.slot))
              ≡ some (pointer "agreement_id" (str plan.agreement_id)))
            planned.checked.of_proposal written.slot_points,
        written.agreement_stored,
        commit_agreement-Supersedes ctx plan.proposal plan.current (new_agreement ctx config plan) s
            h1,
      )
