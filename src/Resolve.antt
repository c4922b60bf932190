-- ===== src/Resolve.antt =====
-- `resolveInternal`, `resolveAt` and `dependencyEligible` of packages/domain/index.ts.
pub mod Approvals
pub mod Soundness
use knowledger.Base.{
  ℕ, zero, suc, ◌+◌, ◌-◌, Bool, true, false, ◌&&◌, ◌||◌, not, List, [], ◌∷◌, Option, none, some,
  Text, text, text_eq, includes, find, ltb, ◌==◌, if◌then◌else◌,
}
use knowledger.Fault.{
  Result, ok, err, Code, DomainError, invalid, failure, corrupt_state, dependency_limit,
  dependency_cycle, dependency_ineligible, require, fail_if, ◌>>=◌, ◌>>◌,
}
use knowledger.Json.{Json, null, str, obj, Fields, prop}
use knowledger.Unicode.{valid_unicode}
use knowledger.Contracts.Slot.{Slot, is_slot, slot_key, slot_text, same_slot}
use knowledger.Contracts.Revision.{
  DocumentRevision, RevisionDependency, Enforcement, requires_active, informational,
  validate_revision,
}
use knowledger.Contracts.Policy.{AgreementPolicy}
use knowledger.Contracts.Config.{DomainConfig, validate_config, is_policy}
use knowledger.Contracts.Decision.{ApprovalDecision}
use knowledger.Contracts.Agreement.{AgreementRecord, AgreementStatus, is_active, validate_agreement}
use knowledger.Ledger.Keys.{
  Key, config_key, revision_key, agreement_key, slot_pointer_key, unchecked_key, active_slot_key,
}
use knowledger.Ledger.Store.{Store, read}
use knowledger.Resolve.Approvals.{validate_agreement_approvals}

pub data Reason : Type 0 where
  config_not_bootstrapped corrupt_config serving_frozen scope_mismatch dependency_depth : Reason
  dependency_cycle_found dependency_node_limit no_active_agreement corrupt_active_pointer : Reason
  missing_agreement corrupt_agreement agreement_slot_mismatch stale_configuration : Reason
  stale_policy corrupt_approvals missing_revision corrupt_revision : Reason
  revision_slot_mismatch dependency_revision_mismatch : Reason
  -- AGREEMENT_ and the status
  agreement_is : AgreementStatus → Reason
  -- DEPENDENCY_INELIGIBLE: and the reason of the dependency
  dependency_is : Reason → Reason

pub data ResolveResult : Type 0 where
  eligible : AgreementRecord → DocumentRevision → ResolveResult
  ineligible : Reason → ResolveResult

-- A resolution takes the slots on the path and the count of the budget, and returns the new count.
abbrev pub Walk : Type 0
Walk = Slot → List Text → ℕ → Result (ResolveResult × ℕ)

abbrev pub max_nodes : ℕ
max_nodes = 256

-- The active slot pointer: an agreement id, or the reason why there is none.
pub data Pointer : Type 0 where
  points_to : Text → Pointer
  points_nowhere : Reason → Pointer

unfoldable pub read_pointer : Option Json → Pointer
read_pointer none = points_nowhere no_active_agreement
read_pointer (some (str t)) = points_to t
read_pointer (some (obj fs)) = elim (prop (text "agreement_id") fs) [
  | some null ↦ points_nowhere no_active_agreement
  | some (str t) ↦ points_to t
  | _ ↦ points_nowhere corrupt_active_pointer
]
read_pointer (some v) = points_nowhere corrupt_active_pointer

-- `try { ... } catch { return reason }`
abbrev pub attempt {ℓ} : {A : Type ℓ} → Result A → Option A
attempt (ok a) = some a
attempt (err e) = none

-- Only CORRUPT_STATE is caught.
unfoldable pub is_corrupt : Code → Bool
is_corrupt corrupt_state = true
is_corrupt c = false

pub data ApprovalCheck : Type 0 where
  approved not_approved : ApprovalCheck

unfoldable pub check_approvals : Result (List ApprovalDecision) → Result ApprovalCheck
check_approvals (ok ds) = ok approved
check_approvals (err e) = if is_corrupt e.code then ok not_approved else err e

unfoldable pub is_required : Enforcement → Bool
is_required requires_active = true
is_required informational = false

-- The loop over the dependencies: `none` if every required one is eligible at its revision.
unfoldable pub resolve_dependencies :
    Walk → List Text → List RevisionDependency → ℕ → Result (Option Reason × ℕ)
resolve_dependencies walk seen [] count = ok (none, count)
resolve_dependencies walk seen (d ∷ ds) count =
    let rest = resolve_dependencies walk seen ds in
    if is_required d.enforcement
    then (walk d.slot seen count >>= λ (r, count'). elim r [
      | ineligible reason ↦ ok (some (dependency_is reason), count')
      | eligible a revision ↦
          if text_eq revision.revision_digest d.revision_digest
          then rest count'
          else ok (some dependency_revision_mismatch, count')
    ])
    else rest count

module _ (sha256 : List ℕ → Text) (s : Store) (config : DomainConfig) where
  -- An agreement whose own checks pass, with its revision.
  pub data Checked : Type 0 where
    usable : AgreementRecord → DocumentRevision → Checked
    refused : Reason → Checked

  unfoldable pub check_revision : Slot → AgreementRecord → Result Checked
  check_revision slot agreement = elim (read (revision_key agreement.revision_digest) s) [
    | none ↦ ok (refused missing_revision)
    | some v ↦ elim (attempt (validate_revision sha256 v)) [
      | none ↦ ok (refused corrupt_revision)
      | some revision ↦ do
        same ← same_slot revision.payload.slot slot
        ok (
            if text_eq revision.revision_digest agreement.revision_digest && same
            then usable agreement revision
            else refused revision_slot_mismatch)
    ]
  ]

  unfoldable pub check_policy : Slot → AgreementRecord → Result Checked
  check_policy slot agreement =
      elim (find (is_policy agreement.policy_id agreement.policy_version) config.policies) [
        | none ↦ ok (refused stale_policy)
        | some policy ↦ do
          same ← same_slot policy.slot agreement.slot
          if same
              then (do
                check ← check_approvals (validate_agreement_approvals s agreement)
                elim check [
                  | approved ↦ check_revision slot agreement
                  | not_approved ↦ ok (refused corrupt_approvals)
                ])
              else ok (refused stale_policy)
      ]

  unfoldable pub check_agreement : Slot → AgreementRecord → Result Checked
  check_agreement slot agreement =
      if is_active agreement.status
      then (do
        same ← same_slot agreement.slot slot
        if same
            then (if agreement.membership_epoch == config.membership_epoch
                  && agreement.role_binding_version == config.role_binding_version
                then check_policy slot agreement
                else ok (refused stale_configuration))
            else ok (refused agreement_slot_mismatch))
      else ok (refused (agreement_is agreement.status))

  unfoldable pub check_pointer : Slot → Pointer → Result Checked
  check_pointer slot (points_nowhere reason) = ok (refused reason)
  check_pointer slot (points_to id) = do
    key ← unchecked_key agreement_key id
    elim (read key s) [
      | none ↦ ok (refused missing_agreement)
      | some v ↦ elim (attempt (validate_agreement v)) [
        | none ↦ ok (refused corrupt_agreement)
        | some agreement ↦ check_agreement slot agreement
      ]
    ]

  -- The agreement first, and then what its revision depends on, by `walk`.
  unfoldable pub resolve_node : Walk → Walk
  resolve_node walk slot seen count = do
    key ← active_slot_key slot
    checked ← check_pointer slot (read_pointer (read key s))
    elim checked [
      | refused reason ↦ ok (ineligible reason, count)
      | usable agreement revision ↦ do
        resolved ← resolve_dependencies walk seen revision.payload.dependencies count
        elim (resolved.0) [
          | some reason ↦ ok (ineligible reason, resolved.1)
          | none ↦ ok (eligible agreement revision, resolved.1)
        ]
    ]

  -- One call of `resolveInternal`; `deeper` is `none` where `depth > 8`.
  unfoldable pub resolve_step : Option Walk → Walk
  resolve_step deeper slot seen count = do
    require (is_slot slot) invalid
    if text_eq slot.channel_id config.channel_id
        then elim deeper [
          | none ↦ ok (ineligible dependency_depth, count)
          | some walk ↦
              if includes (slot_text slot) seen
              then ok (ineligible dependency_cycle_found, count)
              else if ltb max_nodes (count + 1)
              then ok (ineligible dependency_node_limit, count + 1)
              else resolve_node walk slot (slot_text slot ∷ seen) (count + 1)
        ]
        else ok (ineligible scope_mismatch, count)

  -- `resolveInternal`, with `room` for `9 - depth`: the calls below are one deeper.
  unfoldable pub resolve_internal : ℕ → Walk
  resolve_internal zero = resolve_step none
  resolve_internal (suc room) = resolve_step (some (resolve_internal room))

module _ (sha256 : List ℕ → Text) (s : Store) where
  unfoldable pub resolve_at : Slot → List Text → ℕ → ℕ → Result (ResolveResult × ℕ)
  resolve_at slot seen depth count = do
    require (is_slot slot) invalid
    elim (read config_key s) [
      | none ↦ ok (ineligible config_not_bootstrapped, count)
      | some v ↦ elim (attempt (validate_config v)) [
        | none ↦ ok (ineligible corrupt_config, count)
        | some config ↦
            if config.serving_enabled
            then resolve_internal sha256 s config (9 - depth) slot seen count
            else ok (ineligible serving_frozen, count)
      ]
    ]

  -- The required dependencies, counted in `traversed`, each resolved one level down.
  unfoldable pub dependencies_eligible :
      DocumentRevision → List Text → List RevisionDependency → ℕ → ℕ → Result (Unit {0})
  dependencies_eligible revision seen [] traversed count = ok tt
  dependencies_eligible revision seen (d ∷ ds) traversed count =
      let rest = dependencies_eligible revision seen ds in
      if is_required d.enforcement
      then (do
        fail_if (ltb max_nodes (traversed + 1)) (failure dependency_limit 409)
        same ← same_slot d.slot revision.payload.slot
        fail_if same (failure dependency_cycle 409)
        resolved ← resolve_at d.slot seen 1 count
        elim (resolved.0) [
          | ineligible reason ↦ err (failure dependency_ineligible 409)
          | eligible a target ↦
              if text_eq target.revision_digest d.revision_digest
              then rest (traversed + 1) (resolved.1)
              else err (failure dependency_ineligible 409)
        ])
      else rest traversed count

  -- Its one call starts at depth 0 with nothing seen.
  unfoldable pub dependency_eligible : DocumentRevision → Result (Unit {0})
  dependency_eligible revision = do
    current_slot ← slot_key revision.payload.slot
    dependencies_eligible revision (current_slot ∷ []) revision.payload.dependencies 0 0
