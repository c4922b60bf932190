-- ===== src/State/Links.antt =====
-- `validateStateLinks` of packages/storage/state-validation.ts. The values that it is called with, and
-- those that `get` gives, have passed `validateStateWrite`: here the validators read them.
use knowledger.Base.{
  ℕ, Bool, true, false, ◌&&◌, List, [], ◌∷◌, Option, none, some, Text, text, text_eq, all, any,
  find, length, ◌==◌,
}
use knowledger.Fault.{Result, ok, corrupt, ◌>>=◌}
use knowledger.Json.{Json, assert_safe_integer}
use knowledger.Json.Canonical.{same_json}
use knowledger.Contracts.Identifiers.{assert_id, assert_digest}
use knowledger.Contracts.Slot.{Slot, same_slot}
use knowledger.Contracts.Revision.{DocumentRevision, validate_revision}
use knowledger.Contracts.Policy.{
  AgreementPolicy, RoleRepresentative, encode_policy, validate_policy,
}
use knowledger.Contracts.Config.{validate_config, is_policy}
use knowledger.Contracts.Proposal.{AgreementProposal, validate_proposal}
use knowledger.Contracts.Decision.{ApprovalDecision, is_approve, validate_decision}
use knowledger.Contracts.Agreement.{AgreementRecord, is_active, validate_agreement}
use knowledger.Ledger.Keys.{
  Key, revision, revision_id, policy, proposal, decision, latest_decision, review_counter,
  agreement, active_slot, config_key, revision_key, policy_key, proposal_key, decision_key,
  latest_decision_key, review_counter_key, agreement_key, active_slot_key, key_eq,
}
use knowledger.Ledger.Store.{Store, read_or}
use knowledger.State.Writes.{accepted, is_null, value_at}

-- `require(key)`, read by a validator.
unfoldable pub linked {ℓ} : {A : Type ℓ} → (Json → Result A) → Key → Store → Result A
linked validate key s = do v ← read_or corrupt key s; validate v

unfoldable pub in_slot : Slot → Slot → Bool
in_slot a b = accepted (same_slot a b) (λ same. same)

unfoldable pub only : List ApprovalDecision → Option ApprovalDecision
only (d ∷ []) = some d
only ds = none

-- `approvals.filter(...)`, of the decisions of a representative.
unfoldable pub of_representative :
    RoleRepresentative → List ApprovalDecision → List ApprovalDecision
of_representative r [] = []
of_representative r (d ∷ ds) =
    let rest = of_representative r ds in
    elim (text_eq d.actor_domain_role r.domain_role
      && text_eq d.actor_org_id r.actor_org_id
      && text_eq d.actor_id r.actor_id) [ true ↦ d ∷ rest | false ↦ rest ]

-- The decision approves what the agreement binds.
unfoldable pub approves : AgreementRecord → ApprovalDecision → Bool
approves a d =
    is_approve d.decision
    && in_slot d.slot a.slot
    && text_eq d.proposal_id a.proposal_id
    && text_eq d.revision_digest a.revision_digest
    && text_eq d.policy_id a.policy_id
    && d.policy_version == a.policy_version
    && d.membership_epoch == a.membership_epoch
    && d.role_binding_version == a.role_binding_version

-- Just one of the decisions is the representative's, and it approves.
unfoldable pub represented : AgreementRecord → List ApprovalDecision → RoleRepresentative → Bool
represented a ds r = elim (only (of_representative r ds)) [ none ↦ false | some d ↦ approves a d ]

module _ (sha256 : List ℕ → Text) (s : Store) where
  unfoldable pub linked_revision : Text → (DocumentRevision → Bool) → Bool
  linked_revision digest test =
      accepted (linked (validate_revision sha256) (revision_key digest) s) test

  unfoldable pub linked_policy : Text → ℕ → (AgreementPolicy → Bool) → Bool
  linked_policy id version test = accepted (linked validate_policy (policy_key id version) s) test

  -- The decisions that the ids name.
  unfoldable pub linked_decisions : List Text → Result (List ApprovalDecision)
  linked_decisions [] = ok []
  linked_decisions (id ∷ ids) = do
    d ← linked validate_decision (decision_key id) s
    ds ← linked_decisions ids
    ok (d ∷ ds)

  unfoldable pub revision_links : DocumentRevision → Bool
  revision_links r =
      all (λ parent. linked_revision parent (λ p. in_slot p.payload.slot r.payload.slot))
        r.payload.parents
      && all (λ d. linked_revision d.revision_digest (λ t. in_slot t.payload.slot d.slot))
          r.payload.dependencies

  unfoldable pub revision_id_links : List Text → Text → Bool
  revision_id_links (id ∷ []) digest =
      linked_revision digest
        (λ t. text_eq t.payload.revision_id id && text_eq t.revision_digest digest)
  revision_id_links parts digest = false

  unfoldable pub policy_links : AgreementPolicy → Bool
  policy_links p = accepted (linked validate_config config_key s) (λ c.
      elim (find (is_policy p.policy_id p.policy_version) c.policies) [
        | none ↦ false
        | some pinned ↦ same_json (encode_policy pinned) (encode_policy p)
      ])

  unfoldable pub proposal_links : AgreementProposal → Bool
  proposal_links p =
      linked_revision p.revision_digest (λ r. in_slot p.slot r.payload.slot)
      && linked_policy p.policy_id p.policy_version (λ q.
        in_slot p.slot q.slot
        && q.membership_epoch == p.membership_epoch
        && q.role_binding_version == p.role_binding_version)
      && accepted
          (linked (λ v. assert_safe_integer (some v) 0) (review_counter_key p.proposal_id) s)
          (λ n. n == p.review_counter)

  unfoldable pub decision_links : ApprovalDecision → Bool
  decision_links d =
      accepted (linked validate_proposal (proposal_key d.proposal_id) s) (λ p.
        in_slot d.slot p.slot
        && text_eq d.revision_digest p.revision_digest
        && text_eq d.policy_id p.policy_id
        && d.policy_version == p.policy_version
        && d.membership_epoch == p.membership_epoch
        && d.role_binding_version == p.role_binding_version)
      && linked_policy d.policy_id d.policy_version (λ q.
        any
          (λ r.
            text_eq r.domain_role d.actor_domain_role
            && text_eq r.actor_org_id d.actor_org_id
            && text_eq r.actor_id d.actor_id)
          q.role_representatives)

  unfoldable pub agreement_links : AgreementRecord → Bool
  agreement_links a =
      linked_revision a.revision_digest (λ r. in_slot a.slot r.payload.slot)
      && linked_policy a.policy_id a.policy_version (λ q.
        in_slot a.slot q.slot
        && a.membership_epoch == q.membership_epoch
        && a.role_binding_version == q.role_binding_version
        && length a.approval_decision_ids == length q.required_domain_roles
        && accepted (linked_decisions a.approval_decision_ids)
            (λ ds. all (represented a ds) q.role_representatives))

  unfoldable pub latest_decision_links : Key → Text → Bool
  latest_decision_links key id = accepted (linked validate_decision (decision_key id) s) (λ d.
      key_eq key (
        latest_decision_key d.proposal_id d.policy_version d.actor_domain_role d.actor_org_id
          d.actor_id))

  unfoldable pub counter_links : List Text → ℕ → Bool
  counter_links (id ∷ []) n =
      accepted (linked validate_proposal (proposal_key id) s) (λ p. p.review_counter == n)
  counter_links parts n = false

  unfoldable pub slot_links : Key → Text → Bool
  slot_links key id =
      accepted (linked validate_agreement (agreement_key id) s)
        (λ a. is_active a.status && accepted (active_slot_key a.slot) (λ k. key_eq key k))

  unfoldable pub validate_state_links : Key → Json → Bool
  validate_state_links key v = elim key.prefix [
    | revision_id ↦
        accepted (assert_digest (value_at (text "revision_digest") (some v)))
          (revision_id_links key.parts)
    | revision ↦ accepted (validate_revision sha256 v) revision_links
    | policy ↦ accepted (validate_policy v) policy_links
    | proposal ↦ accepted (validate_proposal v) proposal_links
    | decision ↦ accepted (validate_decision v) decision_links
    | latest_decision ↦
        accepted (assert_id (value_at (text "decision_id") (some v))) (latest_decision_links key)
    | review_counter ↦ accepted (assert_safe_integer (some v) 0) (counter_links key.parts)
    | active_slot ↦ elim (is_null (value_at (text "agreement_id") (some v))) [
      | true ↦ true
      | false ↦ accepted (assert_id (value_at (text "agreement_id") (some v))) (slot_links key)
    ]
    | agreement ↦ accepted (validate_agreement v) agreement_links
    | _ ↦ true
  ]
