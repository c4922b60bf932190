-- ===== src/Commands/Planned.antt =====
-- What the checks of `executeActivate` of packages/domain/index.ts say of a plan that passed them.
use knowledger.Base.{
  subst, ◌==◌, ◌&&◌, find, ℕ, List, [], ◌∷◌, Option, none, some, Text, text, ◌≡◌, refl, arith,
}
use knowledger.Fault.{
  DomainError, failure, proposal_replay, revision_not_found, stale_configuration,
  immutable_conflict, proposal_not_found, require, ok, fail_if, >>=-eq-ok, ok_eq,
}
use knowledger.Json.{Json, Fields, prop, assert_keys, is_present}
use knowledger.Contracts.Identifiers.{assert_id}
use knowledger.Contracts.Revision.{validate_revision}
use knowledger.Contracts.Actor.{Context, human, is_human}
use knowledger.Contracts.Policy.{AgreementPolicy}
use knowledger.Contracts.Config.{ConfigIdentity, DomainConfig, policy_for, is_policy, require_human}
use knowledger.Contracts.Proposal.{AgreementProposal, open_for_review, is_open, validate_proposal}
use knowledger.Ledger.Keys.{Key, revision_key, agreement_key, proposal_key}
use knowledger.Ledger.Store.{Store, read, read_or}
use knowledger.Resolve.{dependency_eligible}
use knowledger.Commands.Propose.{assert_policy_matches_revision}
use knowledger.Commands.Decide.{read_review_counter}
use knowledger.Commands.Suspension.{get_active_agreement}
use knowledger.Commands.Activate.{
  Activation, collect_approvals, check_precondition, read_expected, check_proposal,
  admit_activation,
}

module _ (sha256 : List ℕ → Text) (config : DomainConfig) (s : Store) where
  -- The checks that a plan of an activation of the proposal went through. The policy is the
  -- configuration's, and the revision the published one.
  pub record PlanChecked (agreement_id : Text) (expected : Option Text) (p : AgreementProposal)
      (plan : Activation) : Type 0 where
    pub of_proposal : plan.proposal ≡ p
    pub of_id : plan.agreement_id ≡ agreement_id
    pub was_open : p.status ≡ open_for_review
    pub known_policy :
        find (is_policy p.policy_id p.policy_version) config.policies ≡ some plan.policy
    pub content : Json
    pub published : read (revision_key p.revision_digest) s ≡ some content
    pub intact : validate_revision sha256 content ≡ ok plan.revision
    pub same_epoch : p.membership_epoch ≡ config.membership_epoch
    pub same_binding : p.role_binding_version ≡ config.role_binding_version
    pub active_before : get_active_agreement p.slot s ≡ ok plan.current
    pub as_expected : check_precondition plan.current expected plan.revision ≡ ok tt
    pub unused : read (agreement_key agreement_id) s ≡ none
    pub collected :
        collect_approvals s p plan.policy.role_representatives plan.policy.required_domain_roles []
        ≡ ok plan.approval_decision_ids
    pub dependencies : dependency_eligible sha256 s plan.revision ≡ ok tt

  read_or-some : (k : Key) (e : DomainError) {v : Json} → read_or e k s ≡ ok v → read k s ≡ some v
  unfolding read_or
  read_or-some k e h = ground arith

  policy_for-find :
      (id : Text) (version : ℕ) {q : AgreementPolicy}
      → policy_for config id version ≡ ok q
      → find (is_policy id version) config.policies ≡ some q
  unfolding policy_for
  policy_for-find id version h = ground arith

  check_proposal-PlanChecked :
      (agreement_id : Text) (expected : Option Text) (p : AgreementProposal) (plan : Activation)
      → check_proposal sha256 config agreement_id expected p s ≡ ok plan
      → PlanChecked agreement_id expected p plan
  unfolding check_proposal is_open is_present
  check_proposal-PlanChecked agreement_id expected p plan h =
      let (counter, counts, h1) = >>=-eq-ok (read_review_counter p s) _ h in
      let (_, opened, h2) =
        >>=-eq-ok (require (is_open p.status) (failure proposal_replay 409)) _ h1 in
      let (content, found, h3) =
        >>=-eq-ok (read_or (failure revision_not_found 404) (revision_key p.revision_digest) s) _
          h2 in
      let (revision, valid, h4) = >>=-eq-ok (validate_revision sha256 content) _ h3 in
      let (policy, known, h5) = >>=-eq-ok (policy_for config p.policy_id p.policy_version) _ h4 in
      let (_, matches, h6) = >>=-eq-ok (assert_policy_matches_revision policy revision) _ h5 in
      let (_, same, h7) =
        >>=-eq-ok
          (require
            (p.membership_epoch == config.membership_epoch
              && p.role_binding_version == config.role_binding_version)
            (failure stale_configuration 409))
          _ h6 in
      let (current, active_one, h8) = >>=-eq-ok (get_active_agreement p.slot s) _ h7 in
      let (_, expects, h9) = >>=-eq-ok (check_precondition current expected revision) _ h8 in
      let (_, free, h10) =
        >>=-eq-ok
          (fail_if (is_present (read (agreement_key agreement_id) s))
            (failure immutable_conflict 409))
          _ h9 in
      let (ids, collects, h11) =
        >>=-eq-ok
          (collect_approvals s p policy.role_representatives policy.required_domain_roles []) _
          h10 in
      let (_, depends, h12) = >>=-eq-ok (dependency_eligible sha256 s revision) _ h11 in
      subst (PlanChecked agreement_id expected p) (ok_eq h12) (record {
        of_proposal = refl;
        of_id = refl;
        was_open = ground arith;
        known_policy = policy_for-find p.policy_id p.policy_version known;
        content = content;
        published =
            read_or-some (revision_key p.revision_digest) (failure revision_not_found 404) found;
        intact = valid;
        same_epoch = ground arith;
        same_binding = ground arith;
        active_before = active_one;
        as_expected = expects;
        unused = ground arith;
        collected = collects;
        dependencies = depends;
      })

  -- The plan that the input asks for: a human names a stored proposal, which passed the checks.
  pub record Planned (ctx : Context) (input : Fields) (plan : Activation) : Type 0 where
    pub by_human : ctx.actor.kind ≡ human
    pub proposal_id : Text
    pub agreement_id : Text
    pub expected : Option Text
    pub proposal : AgreementProposal
    pub stored : Json
    pub names : assert_id (prop (text "proposal_id") input) ≡ ok proposal_id
    pub names_new : assert_id (prop (text "agreement_id") input) ≡ ok agreement_id
    pub expects : read_expected (prop (text "expected_active_agreement_id") input) ≡ ok expected
    pub found : read (proposal_key proposal_id) s ≡ some stored
    pub well_formed : validate_proposal stored ≡ ok proposal
    pub checked : PlanChecked agreement_id expected proposal plan

  require_human-human :
      (ctx : Context) {identity : ConfigIdentity}
      → require_human ctx config ≡ ok identity
      → ctx.actor.kind ≡ human
  unfolding require_human is_human
  require_human-human ctx h = ground arith

  pub admit_activation-Planned :
      (ctx : Context) (input : Fields) (plan : Activation)
      → admit_activation sha256 ctx config input s ≡ ok plan
      → Planned ctx input plan
  unfolding admit_activation
  admit_activation-Planned ctx input plan h =
      let (identity, human_acts, h1) = >>=-eq-ok (require_human ctx config) _ h in
      let (_, keyed, h2) =
        >>=-eq-ok
          (assert_keys input
            (text "proposal_id" ∷ text "agreement_id" ∷ text "expected_active_agreement_id" ∷ [])
            [])
          _ h1 in
      let (proposal_id, named, h3) = >>=-eq-ok (assert_id (prop (text "proposal_id") input)) _ h2 in
      let (agreement_id, named_new, h4) =
        >>=-eq-ok (assert_id (prop (text "agreement_id") input)) _ h3 in
      let (expected, expects, h5) =
        >>=-eq-ok (read_expected (prop (text "expected_active_agreement_id") input)) _ h4 in
      let (value, found, h6) =
        >>=-eq-ok (read_or (failure proposal_not_found 404) (proposal_key proposal_id) s) _ h5 in
      let (p, valid, h7) = >>=-eq-ok (validate_proposal value) _ h6 in
      record {
        by_human = require_human-human ctx human_acts;
        proposal_id = proposal_id;
        agreement_id = agreement_id;
        expected = expected;
        proposal = p;
        stored = value;
        names = named;
        names_new = named_new;
        expects = expects;
        found = read_or-some (proposal_key proposal_id) (failure proposal_not_found 404) found;
        well_formed = valid;
        checked = check_proposal-PlanChecked agreement_id expected p plan h7;
      }
