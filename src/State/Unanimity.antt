-- ===== src/State/Unanimity.antt =====
-- What `validateStateLinks` of packages/storage/state-validation.ts demands of an agreement.
use knowledger.Base.{
  ℕ, Bool, true, false, ◌&&◌, List, [], ◌∷◌, some, Option-cases, inl, inr, Text, text_eq,
  text_eq→eq, text_eq_refl, includes, all, All, All-map, any, some_eq, length, ◌≡◌, refl, arith,
  and_parts, subst,
}
use knowledger.Fault.{Result, ok, err, >>=-eq-ok, ok_eq}
use knowledger.Contracts.Policy.{AgreementPolicy, RoleRepresentative, validate_policy}
use knowledger.Contracts.Slot.{Slot, slot_text, slot_key, same_slot}
use knowledger.Contracts.Decision.{
  ApprovalDecision, ApprovalKind, approve, is_approve, validate_decision,
}
use knowledger.Contracts.Agreement.{AgreementRecord}
use knowledger.Ledger.Keys.{decision_key, policy_key}
use knowledger.Ledger.Store.{Store}
use knowledger.State.Writes.{accepted}
use knowledger.State.Links.{
  linked, in_slot, only, of_representative, approves, represented, linked_policy, linked_revision,
  linked_decisions, agreement_links,
}

accepted-ok {ℓ} :
    {A : Type ℓ} (r : Result A) (test : A → Bool)
    → accepted r test ≡ true
    → (a : A) × (r ≡ ok a) × (test a ≡ true)
unfolding accepted
accepted-ok (ok a) test h = (a, refl, h)
accepted-ok (err e) test h = cc

all-All {ℓ κ} :
    {A : Type ℓ} {P : A → Type κ} (p : A → Bool)
    → ((a : A) → p a ≡ true → P a)
    → (xs : List A) → all p xs ≡ true
    → All P xs
unfolding all
all-All p f [] h = tt
all-All p f (x ∷ xs) h =
    let (first, rest) = and_parts (p x) (all p xs) h in (f x first, all-All p f xs rest)

-- The decision that is stored under a cited id, made by the representative.
pub record Signed (s : Store) (ids : List Text) (r : RoleRepresentative) (d : ApprovalDecision)
    : Type 0 where
  pub id : Text
  pub cited : includes id ids ≡ true
  pub stored : linked validate_decision (decision_key id) s ≡ ok d
  pub by_role : d.actor_domain_role ≡ r.domain_role
  pub by_org : d.actor_org_id ≡ r.actor_org_id
  pub by_actor : d.actor_id ≡ r.actor_id

abbrev by_representative : RoleRepresentative → ApprovalDecision → Bool
by_representative r d =
    text_eq d.actor_domain_role r.domain_role
    && text_eq d.actor_org_id r.actor_org_id
    && text_eq d.actor_id r.actor_id

Signed-later :
    {s : Store} (x : Text) (ids : List Text) (r : RoleRepresentative) (d : ApprovalDecision)
    → Signed s ids r d
    → Signed s (x ∷ ids) r d
unfolding includes any
Signed-later x ids r d g = record {
  id = g.id;
  cited = ground (arith, g.cited);
  stored = g.stored;
  by_role = g.by_role;
  by_org = g.by_org;
  by_actor = g.by_actor;
}

Signed-first :
    {s : Store} (id : Text) (ids : List Text) (r : RoleRepresentative) (d : ApprovalDecision)
    → linked validate_decision (decision_key id) s ≡ ok d
    → by_representative r d ≡ true
    → Signed s (id ∷ ids) r d
unfolding includes any
Signed-first id ids r d e h = record {
  id = id;
  cited = ground (arith, text_eq_refl id);
  stored = e;
  by_role = ground (arith, text_eq→eq d.actor_domain_role r.domain_role);
  by_org = ground (arith, text_eq→eq d.actor_org_id r.actor_org_id);
  by_actor = ground (arith, text_eq→eq d.actor_id r.actor_id);
}

only-All {κ} :
    (P : ApprovalDecision → Type κ) (ds : List ApprovalDecision) {d : ApprovalDecision}
    → All P ds
    → only ds ≡ some d
    → P d
unfolding only
only-All P [] hs h = cc
only-All P (x ∷ []) hs h = subst P (some_eq h) hs.0
only-All P (x ∷ y ∷ ds) hs h = cc

-- What holds of the representative's decisions holds with one more, which is kept or dropped.
of_representative-All {κ} :
    (P : ApprovalDecision → Type κ) (r : RoleRepresentative) (d : ApprovalDecision)
    (ds : List ApprovalDecision)
    → (by_representative r d ≡ true → P d)
    → All P (of_representative r ds)
    → All P (of_representative r (d ∷ ds))
unfolding of_representative
of_representative-All P r d ds first later = kept (by_representative r d) first
  where
    kept :
        (b : Bool)
        → (b ≡ true → P d)
        → All P (elim b [ true ↦ d ∷ of_representative r ds | false ↦ of_representative r ds ])
    kept true f = (f refl, later)
    kept false f = later

module _ (sha256 : List ℕ → Text) (s : Store) (r : RoleRepresentative) where
  of_representative-Signed :
      (ids : List Text) (ds : List ApprovalDecision)
      → linked_decisions sha256 s ids ≡ ok ds
      → All (Signed s ids r) (of_representative r ds)
  unfolding linked_decisions of_representative
  of_representative-Signed [] ds e =
      subst (λ xs. All (Signed s [] r) (of_representative r xs)) (ok_eq e) tt
  of_representative-Signed (id ∷ ids) ds e =
      let (d, e1, h1) = >>=-eq-ok (linked validate_decision (decision_key id) s) _ e in
      let (rest, e2, h2) = >>=-eq-ok (linked_decisions sha256 s ids) _ h1 in
      let later =
        All-map (λ x. Signed-later id ids r x) (of_representative r rest)
          (of_representative-Signed ids rest e2) in
      subst (λ xs. All (Signed s (id ∷ ids) r) (of_representative r xs)) (ok_eq h2)
        (of_representative-All (Signed s (id ∷ ids) r) r d rest (Signed-first id ids r d e1) later)

-- The representative's decision that the agreement cites: an approval of what it binds.
pub record Approval (s : Store) (a : AgreementRecord) (r : RoleRepresentative) : Type 0 where
  pub decision : ApprovalDecision
  pub signed : Signed s a.approval_decision_ids r decision
  pub approves_it : decision.decision ≡ approve
  pub of_slot : slot_text decision.slot ≡ slot_text a.slot
  pub of_proposal : decision.proposal_id ≡ a.proposal_id
  pub of_revision : decision.revision_digest ≡ a.revision_digest
  pub of_policy : decision.policy_id ≡ a.policy_id
  pub of_version : decision.policy_version ≡ a.policy_version
  pub of_epoch : decision.membership_epoch ≡ a.membership_epoch
  pub of_binding : decision.role_binding_version ≡ a.role_binding_version

is_approve-eq : (k : ApprovalKind) → is_approve k ≡ true → k ≡ approve
unfolding is_approve
is_approve-eq approve h = refl
is_approve-eq _ h = cc

in_slot-eq : (x y : Slot) → in_slot x y ≡ true → slot_text x ≡ slot_text y
unfolding in_slot accepted same_slot slot_key
in_slot-eq x y h = ground (arith, text_eq→eq (slot_text x) (slot_text y))

approves-Approval :
    {s : Store} (a : AgreementRecord) (r : RoleRepresentative) (d : ApprovalDecision)
    → Signed s a.approval_decision_ids r d
    → approves a d ≡ true
    → Approval s a r
unfolding approves
approves-Approval a r d signed h = record {
  decision = d;
  signed = signed;
  approves_it = ground (arith, is_approve-eq d.decision);
  of_slot = ground (arith, in_slot-eq d.slot a.slot);
  of_proposal = ground (arith, text_eq→eq d.proposal_id a.proposal_id);
  of_revision = ground (arith, text_eq→eq d.revision_digest a.revision_digest);
  of_policy = ground (arith, text_eq→eq d.policy_id a.policy_id);
  of_version = ground arith;
  of_epoch = ground arith;
  of_binding = ground arith;
}

module _ (sha256 : List ℕ → Text) (s : Store) where
  represented-Approval :
      (a : AgreementRecord) (ds : List ApprovalDecision)
      → linked_decisions sha256 s a.approval_decision_ids ≡ ok ds
      → (r : RoleRepresentative) → represented a ds r ≡ true
      → Approval s a r
  unfolding represented
  represented-Approval a ds e r h = elim (Option-cases (only (of_representative r ds))) [
    | inl none_of ↦ absurd (ground (arith, none_of))
    | inr (d, one) ↦
        approves-Approval a r d
          (only-All (Signed s a.approval_decision_ids r) (of_representative r ds)
            (of_representative-Signed sha256 s r a.approval_decision_ids ds e) one)
          (ground (arith, one))
  ]

  -- An agreement whose links are accepted has, for each representative of its stored policy, a
  -- stored decision that it cites and that the representative made: an approval of the same slot,
  -- proposal, revision, policy and configuration versions as the agreement. It cites as many decisions as the policy requires roles.
  pub agreement_links-Approval :
      (a : AgreementRecord)
      → agreement_links sha256 s a ≡ true
      → (q : AgreementPolicy) × (linked validate_policy (policy_key a.policy_id a.policy_version) s
          ≡ ok q)
        × (length a.approval_decision_ids ≡ length q.required_domain_roles)
        × All (Approval s a) q.role_representatives
  unfolding agreement_links linked_policy
  agreement_links-Approval a h =
      let second =
        (and_parts (linked_revision sha256 s a.revision_digest (λ r. in_slot a.slot r.payload.slot))
          _ h).1 in
      let (q, e, h1) =
        accepted-ok (linked validate_policy (policy_key a.policy_id a.policy_version) s) _ second in
      let decided : accepted (linked_decisions sha256 s a.approval_decision_ids)
            (λ ds. all (represented a ds) q.role_representatives)
          ≡ true =
        ground arith in
      let (ds, e2, h2) =
        accepted-ok (linked_decisions sha256 s a.approval_decision_ids) _ decided in
      (
        q,
        e,
        ground arith,
        all-All (represented a ds) (represented-Approval a ds e2) q.role_representatives h2,
      )
