-- ===== src/Commands/Collected.antt =====
-- What the loop of `executeActivate` of packages/domain/index.ts over the required roles collects.
use knowledger.Base.{
  true, List, [], ◌∷◌, ◌++◌, some, Option-cases, inl, inr, Text, text_eq→eq, includes, ◌≡◌, refl,
  ◌∙◌, sym, arith,
}
use mathlib.Core.List.{append-nil, append_assoc}
use knowledger.Fault.{ok, err≢ok, corrupt, fail_if, >>=-eq-ok, ok_eq}
use knowledger.Contracts.Slot.{Slot, same_slot, slot_key, slot_text}
use knowledger.Contracts.Policy.{RoleRepresentative}
use knowledger.Contracts.Proposal.{AgreementProposal}
use knowledger.Contracts.Decision.{ApprovalDecision, ApprovalKind, approve, is_approve}
use knowledger.Ledger.Store.{Store}
use knowledger.Resolve.Approvals.{representative_for}
use knowledger.Commands.Activate.{check_approval, latest_approval, collect_approvals}

-- `d` is the latest decision of the role's representative on the proposal, and approves just what
-- the proposal binds.
pub record Approved (s : Store) (p : AgreementProposal) (rs : List RoleRepresentative) (role : Text)
    (d : ApprovalDecision) : Type 0 where
  pub representative : RoleRepresentative
  pub named : representative_for role rs ≡ some representative
  pub latest : latest_approval s p role representative ≡ ok d
  pub approves : d.decision ≡ approve
  pub by_org : d.actor_org_id ≡ representative.actor_org_id
  pub by_actor : d.actor_id ≡ representative.actor_id
  pub by_role : d.actor_domain_role ≡ representative.domain_role
  pub in_slot : slot_text d.slot ≡ slot_text p.slot
  pub of_revision : d.revision_digest ≡ p.revision_digest
  pub of_proposal : d.proposal_id ≡ p.proposal_id
  pub of_policy : d.policy_id ≡ p.policy_id
  pub of_version : d.policy_version ≡ p.policy_version
  pub of_epoch : d.membership_epoch ≡ p.membership_epoch
  pub of_binding : d.role_binding_version ≡ p.role_binding_version

-- One approval for each role, in order.
abbrev pub Approvals :
    Store → AgreementProposal → List RoleRepresentative → List Text → List ApprovalDecision → Type 0
Approvals s p rs [] [] = Unit
Approvals s p rs (role ∷ roles) (d ∷ ds) = Approved s p rs role d × Approvals s p rs roles ds
Approvals s p rs _ _ = ⊥

latest_approval-checked :
    (s : Store) (p : AgreementProposal) (role : Text) (r : RoleRepresentative)
    {d : ApprovalDecision}
    → latest_approval s p role r ≡ ok d
    → check_approval p r d ≡ ok tt
unfolding latest_approval
latest_approval-checked s p role r h = ground arith

is_approve-eq : (k : ApprovalKind) → is_approve k ≡ true → k ≡ approve
unfolding is_approve
is_approve-eq approve h = refl
is_approve-eq _ h = cc

same_slot-eq : (x y : Slot) → same_slot x y ≡ ok true → slot_text x ≡ slot_text y
unfolding same_slot slot_key
same_slot-eq x y h = ground (arith, text_eq→eq (slot_text x) (slot_text y))

latest_approval-Approved :
    (s : Store) (p : AgreementProposal) (rs : List RoleRepresentative) (role : Text)
    (r : RoleRepresentative) (d : ApprovalDecision)
    → representative_for role rs ≡ some r
    → latest_approval s p role r ≡ ok d
    → Approved s p rs role d
unfolding check_approval
latest_approval-Approved s p rs role r d named h =
    let checked = latest_approval-checked s p role r h in
    record {
      representative = r;
      named = named;
      latest = h;
      approves = ground (arith, checked, is_approve-eq d.decision);
      by_org = ground (arith, checked, text_eq→eq d.actor_org_id r.actor_org_id);
      by_actor = ground (arith, checked, text_eq→eq d.actor_id r.actor_id);
      by_role = ground (arith, checked, text_eq→eq d.actor_domain_role r.domain_role);
      in_slot = ground (arith, checked, same_slot-eq d.slot p.slot);
      of_revision = ground (arith, checked, text_eq→eq d.revision_digest p.revision_digest);
      of_proposal = ground (arith, checked, text_eq→eq d.proposal_id p.proposal_id);
      of_policy = ground (arith, checked, text_eq→eq d.policy_id p.policy_id);
      of_version = ground (arith, checked);
      of_epoch = ground (arith, checked);
      of_binding = ground (arith, checked);
    }

abbrev pub ids_of : List ApprovalDecision → List Text
ids_of [] = []
ids_of (d ∷ ds) = d.decision_id ∷ ids_of ds

-- The loop collects one approval for each role, after the ids that it was given.
pub collect_approvals-Approvals :
    (s : Store) (p : AgreementProposal) (rs : List RoleRepresentative) (roles ids : List Text)
    {out : List Text}
    → collect_approvals s p rs roles ids ≡ ok out
    → (ds : List ApprovalDecision) × Approvals s p rs roles ds × (out ≡ ids ++ ids_of ds)
unfolding collect_approvals
collect_approvals-Approvals s p rs [] ids h = ([], tt, ok_eq (sym h) ∙ sym (append-nil ids))
collect_approvals-Approvals s p rs (role ∷ roles) ids h =
    elim (Option-cases (representative_for role rs)) [
      | inl missing ↦ absurd (err≢ok (rw (missing, collect_approvals) at h))
      | inr (r, named) ↦
          let found =
            >>=-eq-ok (latest_approval s p role r) _ (rw (named, collect_approvals) at h) in
          let (d, e, h1) = found in
          let (_, fresh, h2) = >>=-eq-ok (fail_if (includes d.decision_id ids) corrupt) _ h1 in
          let (ds, approvals, e2) =
            collect_approvals-Approvals s p rs roles (ids ++ d.decision_id ∷ []) h2 in
          (
            d ∷ ds,
            (latest_approval-Approved s p rs role r d named e, approvals),
            e2 ∙ append_assoc ids _ (ids_of ds),
          )
    ]
