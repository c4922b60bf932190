-- ===== src/Examples/Applied.antt =====
-- The theorems on packages/domain/index.ts, applied in the small world.
use knowledger.Base.{
  ℕ, ◌≤◌, true, List, [], ◌∷◌, some, inl, inr, Text, text, ◌≡◌, ◌≢◌, refl, ap, arith,
}
use knowledger.Fault.{ok, err, failure, idempotency_conflict}
use knowledger.Json.{Json, str}
use knowledger.Commands.Replies.{pointer}
use knowledger.Contracts.Slot.{slot_text}
use knowledger.Contracts.Config.{encode_config, DomainConfig, validate_config}
use knowledger.Contracts.Agreement.{encode_agreement, active}
use knowledger.Ledger.Keys.{config_key, agreement_key, slot_pointer_key}
use knowledger.Ledger.Store.{read}
use knowledger.Resolve.Soundness.{Eligible, resolve_at_sound}
use knowledger.Resolve.{max_nodes}
use knowledger.Commands.Suspension.{change_status}
use knowledger.Commands.Activate.{Activation, new_agreement}
use knowledger.Commands.Execute.{execute}
use knowledger.Commands.Collected.{Approvals}
use knowledger.Commands.Planned.{Planned}
use knowledger.Commands.Activation.{
  Records, Activates, execute_activate-approved, Supersedes, execute_activate-Supersedes,
}
use knowledger.Commands.Idempotency.{execute_replays, execute_conflicts}
use knowledger.Commands.History.{execute-append_only}
use knowledger.Contracts.Decision.{ApprovalDecision}
use knowledger.Base.{All, length}
use knowledger.Contracts.Agreement.{AgreementRecord, suspended}
use knowledger.Contracts.Revision.{DocumentRevision}
use knowledger.Contracts.Policy.{AgreementPolicy, validate_policy}
use knowledger.Contracts.Decision.{object}
use knowledger.Resolve.{resolve_at, eligible}
use knowledger.Ledger.Keys.{policy_key}
use knowledger.Commands.Decide.{suspension_reason}
use knowledger.Commands.Status.{withdraw, desired_status, admit_status_change}
use knowledger.Commands.Objection.{execute_decide-suspends}
use knowledger.Commands.Withdrawal.{execute_status_change-unresolvable}
use knowledger.State.Links.{linked}
use knowledger.State.Binding.{IsBound, validate_state_write-IsBound}
use knowledger.State.Unanimity.{Approval, agreement_links-Approval}
use knowledger.Base.{◌++◌, none}
use knowledger.Json.Canonical.{canonicalize}
use knowledger.Contracts.Revision.{encode_revision}
use knowledger.Ledger.Keys.{revision_key}
use knowledger.State.Journal.{validate_journal_rows, committed_row, tip, zero_hash}
use knowledger.State.Chain.{validate_journal_rows-committed_row, apply_writes-keeps}
use knowledger.Examples.World
use knowledger.Examples.Runs.{
  runs, genesis, applied, state_of, state_eq, objected, admitted_objection, withdrawn_outcome,
  fenced, activated, replaced, fence_command, reused_command, reply_of, store_of, outcome_eq,
}

execute_replays_example :
    execute World.no_hash World.second_context World.fence (store_of fenced)
    ≡ ok (reply_of fenced, store_of fenced)
execute_replays_example =
    execute_replays World.no_hash World.first_context World.second_context World.fence
      World.bootstrapped (outcome_eq fenced runs.fence_runs) refl refl runs.second_context_valid

abbrev first_unit : Text → ℕ
first_unit [] = 0
first_unit (c ∷ cs) = c

kinds_differ : reused_command.kind ≢ fence_command.kind
kinds_differ e = omega (arith, ap first_unit e)

execute_conflicts_example :
    execute World.no_hash World.second_context World.other_command (store_of fenced)
    ≡ err (failure idempotency_conflict 409)
execute_conflicts_example =
    execute_conflicts World.no_hash World.first_context World.second_context World.fence
      World.other_command World.bootstrapped fence_command reused_command World.the_config
      World.ann_identity World.the_digest World.the_digest (outcome_eq fenced runs.fence_runs)
      runs.fence_reads runs.fence_digest runs.configured runs.second_context_valid runs.reused_reads
      runs.reused_digest runs.identified runs.same_channel refl refl (inl (inr kinds_differ))

execute-append_only_example :
    read config_key (store_of fenced) ≡ some (encode_config World.the_config)
execute-append_only_example =
    execute-append_only World.no_hash World.first_context World.bootstrapped config_key
      runs.config_held refl World.fence (outcome_eq fenced runs.fence_runs)

execute_activate-approved_example :
    (plan : Activation) × (planned : Planned World.no_hash World.the_config World.approved_proposal
      World.first_context World.activate_input plan)
    × ((ds : List ApprovalDecision) × Approvals World.approved_proposal planned.proposal
          plan.policy.role_representatives plan.policy.required_domain_roles ds
        × Records World.first_context World.the_config plan planned.proposal planned.agreement_id ds
            (new_agreement World.first_context World.the_config plan))
    × Activates World.first_context planned.proposal
        (new_agreement World.first_context World.the_config plan)
        (store_of activated)
execute_activate-approved_example =
    execute_activate-approved World.no_hash World.the_config World.approved_proposal
      World.first_context World.activate_input (outcome_eq activated runs.activate_runs)

execute_activate-Supersedes_example :
    (plan : Activation) × (planned : Planned World.no_hash World.the_config World.replaceable
      World.second_context World.replacement_input plan)
    × ((store_of replaced).at (slot_pointer_key (slot_text planned.proposal.slot))
        ≡ some (pointer "agreement_id" (str plan.agreement_id)))
    × ((store_of replaced).at (agreement_key plan.agreement_id)
        ≡ some (
            encode_agreement (record (new_agreement World.second_context World.the_config plan) {
              status = active;
            })))
    × Supersedes World.second_context plan.current plan.agreement_id (store_of replaced)
execute_activate-Supersedes_example =
    execute_activate-Supersedes World.no_hash World.the_config World.replaceable
      World.second_context World.replacement_input (outcome_eq replaced runs.replacement_runs)

resolve_at_sound_example :
    (config : DomainConfig) × (value : Json) × (read config_key World.agreed ≡ some value)
    × (validate_config value ≡ ok config)
    × (config.serving_enabled ≡ true)
    × Eligible World.no_hash World.agreed config 9 [] World.the_slot World.the_agreement
        World.the_revision 1
    × (1 ≤ max_nodes)
resolve_at_sound_example =
    resolve_at_sound World.no_hash World.agreed World.the_slot World.the_agreement
      World.the_revision 1 runs.resolved

execute_decide-suspends_example :
    ((store_of objected).at (agreement_key World.the_agreement.agreement_id)
      ≡ some (
          encode_agreement (
            change_status World.first_context suspended
              (suspension_reason object)
              World.the_agreement)))
    × ((found : AgreementRecord) (rev : DocumentRevision) (n : ℕ)
        → resolve_at World.no_hash (store_of objected) World.the_slot [] 0 0
          ≢ ok (eligible found rev, n))
execute_decide-suspends_example =
    execute_decide-suspends World.no_hash World.first_context World.the_config World.objection_input
      World.agreed admitted_objection World.the_agreement (outcome_eq objected runs.objection_runs)
      runs.objection_admitted runs.objects runs.current_agreement runs.is_current refl

execute_status_change-unresolvable_example :
    (a : AgreementRecord) × (admit_status_change World.first_context World.the_config
        World.withdrawal_input withdraw World.agreed
      ≡ ok a)
    × (a.status ≡ desired_status withdraw)
    × ((store_of withdrawn_outcome).at (agreement_key a.agreement_id) ≡ some (encode_agreement a))
    × ((found : AgreementRecord) (rev : DocumentRevision) (n : ℕ)
        → resolve_at World.no_hash (store_of withdrawn_outcome) a.slot [] 0 0
          ≢ ok (eligible found rev, n))
execute_status_change-unresolvable_example =
    execute_status_change-unresolvable World.first_context World.the_config World.withdrawal_input
      withdraw World.agreed World.no_hash (outcome_eq withdrawn_outcome runs.withdrawal_runs)

validate_state_write-IsBound_example :
    IsBound World.no_hash
      (agreement_key World.the_agreement.agreement_id)
      (encode_agreement World.the_agreement)
validate_state_write-IsBound_example =
    validate_state_write-IsBound World.no_hash (agreement_key World.the_agreement.agreement_id)
      (encode_agreement World.the_agreement) runs.agreement_written

agreement_links-Approval_example :
    (q : AgreementPolicy) × (linked validate_policy (policy_key (text "poli") 1) World.linked_state
      ≡ ok q)
    × (length World.the_agreement.approval_decision_ids ≡ length q.required_domain_roles)
    × All (Approval World.linked_state World.the_agreement) q.role_representatives
agreement_links-Approval_example =
    agreement_links-Approval World.no_hash World.linked_state World.the_agreement
      runs.agreement_linked

validate_journal_rows-committed_row_example :
    validate_journal_rows World.no_hash World.no_record_hash (text "chan") zero_hash 1 (
      genesis
      ++ committed_row World.no_hash World.no_record_hash
          (text "chan")
          (tip World.no_hash World.no_record_hash none genesis)
          (text "tx2")
          (text "later")
          World.the_writes
        ∷ [])
    ≡ true
validate_journal_rows-committed_row_example =
    validate_journal_rows-committed_row World.no_hash World.no_record_hash (text "chan")
      (text "tx2") (text "later") World.the_writes runs.writes_valid genesis runs.genesis_valid

apply_writes-keeps_example :
    (v : Json) × ((state_of applied).at (revision_key World.the_digest) ≡ some v)
    × (canonicalize v ≡ canonicalize (encode_revision World.the_revision))
apply_writes-keeps_example =
    apply_writes-keeps World.no_hash World.no_record_hash (revision_key World.the_digest)
      runs.revision_immutable World.the_writes World.agreed (encode_revision World.the_revision)
      (state_eq applied runs.applied_runs) runs.revision_held
