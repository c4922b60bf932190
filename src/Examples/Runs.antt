-- ===== src/Examples/Runs.antt =====
-- The runs that the examples rest on: each is computed from the definitions.
use knowledger.Base.{Bool, true, false, List, [], ◌∷◌, Option, none, some, text, ◌≡◌, refl}
use knowledger.Fault.{Result, ok, err}
use knowledger.Ledger.Keys.{config_key, agreement_key}
use knowledger.Json.{Json, null, end}
use knowledger.Contracts.Actor.{assert_context}
use knowledger.Ledger.Store.{Store, empty}
use knowledger.Resolve.{eligible}
use knowledger.Commands.Replies.{Outcome}
use knowledger.Commands.Execute.{DomainCommand}
use knowledger.Commands.Decide.{Admitted}
use knowledger.Commands.Status.{withdraw}
use knowledger.State.Journal.{JournalRow, zero_hash}
use knowledger.Ledger.Keys.{revision_key}
use knowledger.Contracts.Agreement.{encode_agreement}
use knowledger.Examples.World
use knowledger.Fault.{traverse}
use knowledger.Json.{
  to_list, from_list, keys, prop, has_own, present, assert_record, assert_array, assert_keys,
  assert_safe_integer, assert_boolean, is_text, is_number, required_property, is_present,
}
use knowledger.Resolve.{
  read_pointer, is_corrupt, check_approvals, is_required, resolve_dependencies, check_revision,
  check_policy, check_agreement, check_pointer, resolve_node, resolve_step, resolve_internal,
  resolve_at, dependencies_eligible, dependency_eligible,
}
use knowledger.Unicode.{
  is_high, is_low, valid_unicode, code_points, utf8_point, utf8_points, utf8, byte_length, decimal,
}
use knowledger.Contracts.Actor.{
  is_human, same_kind, same_actor, kind_text, read_kind, read_actor, encode_actor, assert_context,
}
use knowledger.Contracts.Agreement.{
  status_text, is_active, optional_actor, encode_agreement, read_status, optional_string,
  read_optional_actor, validate_agreement,
}
use knowledger.Contracts.Config.{
  encode_identity, encode_config, read_context, read_identity, read_identities, has_actor,
  is_human_identity, check_representatives, is_policy, read_policies, validate_config, policy_for,
  configured_identity, require_human,
}
use knowledger.Contracts.Decision.{
  approval_text, is_approve, is_retract, encode_decision, read_approval, read_retracted,
  validate_decision,
}
use knowledger.Contracts.Identifiers.{
  repeated, is_id, after_prefix, is_digest, is_scope_version, is_scope_rest, is_usage_scope,
  is_relationship, is_nonce, assert_text, assert_id, assert_digest, assert_usage_scope,
  is_bounded_text, assert_non_empty_string, assert_version, encode_version,
}
use knowledger.Contracts.Policy.{
  encode_representative, encode_policy, actor_key, read_representative, read_representatives,
  validate_policy,
}
use knowledger.Contracts.Proposal.{
  is_open, optional_field, optional_text, proposal_status_text, encode_proposal,
  read_proposal_status, optional_id, validate_proposal,
}
use knowledger.Contracts.Revision.{
  enforcement_text, encode_dependency, encode_assertion, source_kind_text, encode_metadata,
  encode_payload, encode_revision, read_enforcement, validate_dependency, validate_assertion,
  read_source_kind, validate_metadata, validate_payload, digest_payload, validate_revision,
  no_agreement_id,
}
use knowledger.Contracts.Slot.{is_slot, read_slot, slot_text, slot_key, same_slot, slot_fields}
use knowledger.Base.{find, any, all}
use knowledger.Base.{text_eq, text_lt, includes}
use knowledger.State.Journal.{
  valid_writes, valid_row, validate_journal_rows, next_number, next_hash, unsigned_event,
  committed_row, tip, keeps_immutable, apply_writes, apply,
}
use knowledger.State.Links.{
  linked, in_slot, only, of_representative, approves, represented, linked_revision, linked_policy,
  linked_decisions, revision_links, revision_id_links, policy_links, proposal_links, decision_links,
  agreement_links, latest_decision_links, counter_links, slot_links, validate_state_links,
}
use knowledger.State.Writes.{
  accepted, has_exactly, is_integer, is_text_that, is_null, value_at, is_counting, number_from,
  push_unit, split, slot_of, names_slot, is_actor, is_some_text, valid_revision_pointer,
  valid_latest_decision, valid_counter, valid_active_slot, valid_record, valid_fence, fits,
  is_immutable, valid_value, validate_state_write,
}
use knowledger.Ledger.Keys.{
  prefix_text, is_unreserved, upper_hex, percent, percents, encoded, encoded_parts, state_key,
  active_slot_key, texts_eq, unchecked_key,
}
use knowledger.Ledger.Store.{read, read_or, put, put_clone}
use knowledger.Json.Canonical.{
  canonical_number, escape, quote, join, insert_entry, sort_entries, print_entries, count_items,
  canonicalize, clone_canonical, same_texts, same_json, assert_unique_canonical, canonical_value,
  canonical_items, canonical_fields, js_string,
}
use knowledger.Commands.Activate.{
  check_approval, latest_approval, collect_approvals, read_expected, id_of, same_id, has_revision,
  check_precondition, new_agreement, supersede, commit_agreement, check_proposal, admit_activation,
  execute_activate,
}
use knowledger.Commands.Decide.{
  get_latest_decision, read_review_counter, check_binding, is_representative, check_authority,
  is_latest, check_retraction, suspension_reason, suspended_field, recorded, store_decision,
  suspend_unless_approved, record_decision, admit_decision, execute_decide,
}
use knowledger.Commands.Execute.{
  validate_command, read_config, same_stored_actor, encode_record, replay, put_policies, channel_of,
  bootstrap, store_record, idempotency_digest, perform_command, perform_once, execute,
}
use knowledger.Commands.Fence.{read_epoch, admit_fence, store_fence, execute_fence}
use knowledger.Commands.Propose.{
  assert_policy_matches_revision, assert_unused, new_proposal, open_proposal, admit_proposal,
  execute_propose,
}
use knowledger.Commands.Publish.{
  validate_publication, pointed_digest, read_revision_by_id, visit_dependencies, visit,
  validate_published_dependency_graph, check_parents, published, already_published, publish_new,
  publish_unless_known, can_publish, assert_config_version_equal, admit_publication,
  execute_publish,
}
use knowledger.Commands.Replies.{reply, increment_epoch}
use knowledger.Commands.Status.{
  desired_status, is_authorized, commit_status, admit_status_change, execute_status_change,
}
use knowledger.Commands.Suspension.{
  pointed_id, load_active, get_active_agreement, change_status, deactivate,
  suspend_active_agreement,
}
use knowledger.Resolve.Approvals.{
  representative_for, represents, find_approval, check_target, approvals_for, matching_policy,
  validate_agreement_approvals,
}

abbrev pub is_ok {ℓ} : {A : Type ℓ} → Result A → Bool
is_ok (ok a) = true
is_ok (err e) = false

abbrev pub reply_of : Outcome → Json
reply_of (ok (r, s)) = r
reply_of (err e) = null

abbrev pub store_of : Outcome → Store
store_of (ok (r, s)) = s
store_of (err e) = empty

pub outcome_eq : (o : Outcome) → is_ok o ≡ true → o ≡ ok (reply_of o, store_of o)
outcome_eq (ok (r, s)) h = refl
outcome_eq (err e) h = cc

-- The first command of the small world.
abbrev pub fenced : Outcome
fenced = execute World.no_hash World.first_context World.fence World.bootstrapped

abbrev pub activated : Outcome
activated =
    execute_activate World.no_hash World.first_context World.the_config World.activate_input
      World.approved_proposal

abbrev pub replaced : Outcome
replaced =
    execute_activate World.no_hash World.second_context World.the_config World.replacement_input
      World.replaceable

abbrev pub fence_command : DomainCommand
fence_command = record {
  command_id = text "cmd1";
  kind = text "fence";
  input = World.fence_input (text "nonce-0123456789abcdef");
}

abbrev pub reused_command : DomainCommand
reused_command = record { command_id = text "cmd1"; kind = text "publish_revision"; input = end }

abbrev pub objected : Outcome
objected =
    execute_decide World.no_hash World.first_context World.the_config World.objection_input
      World.agreed

abbrev pub admitted_objection : Admitted
admitted_objection = record { decision = World.the_objection; proposal = World.the_proposal }

abbrev pub withdrawn_outcome : Outcome
withdrawn_outcome =
    execute_status_change World.first_context World.the_config World.withdrawal_input withdraw
      World.agreed

abbrev pub genesis : List JournalRow
genesis =
    committed_row World.no_hash World.no_record_hash (text "chan") none (text "tx1") (text "now")
      World.the_writes
    ∷ []

abbrev pub state_of : Option Store → Store
state_of none = empty
state_of (some s) = s

abbrev pub is_some : Option Store → Bool
is_some none = false
is_some (some s) = true

pub state_eq : (o : Option Store) → is_some o ≡ true → o ≡ some (state_of o)
state_eq none h = cc
state_eq (some s) h = refl

abbrev pub applied : Option Store
applied = apply_writes World.no_hash World.no_record_hash World.the_writes World.agreed

pub record Runs : Type 0 where
  pub fence_runs : is_ok fenced ≡ true
  pub activate_runs : is_ok activated ≡ true
  pub replacement_runs : is_ok replaced ≡ true
  pub replaced_agreement :
      get_active_agreement World.the_slot World.replaceable ≡ ok (some World.old_agreement)
  pub first_context_valid : assert_context World.first_context ≡ ok tt
  pub second_context_valid : assert_context World.second_context ≡ ok tt
  pub fence_reads : validate_command World.fence ≡ ok fence_command
  pub reused_reads : validate_command World.other_command ≡ ok reused_command
  pub fence_digest : idempotency_digest World.no_hash fence_command ≡ ok World.the_digest
  pub reused_digest : idempotency_digest World.no_hash reused_command ≡ ok World.the_digest
  pub configured : read_config World.bootstrapped ≡ ok World.the_config
  pub identified : configured_identity World.the_config World.ann ≡ ok World.ann_identity
  pub resolved :
      resolve_at World.no_hash World.agreed World.the_slot [] 0 0
      ≡ ok (eligible World.the_agreement World.the_revision, 1)
  pub same_channel : text_eq World.second_context.channel_id World.the_config.channel_id ≡ true
  pub config_held : read config_key World.bootstrapped ≡ some (encode_config World.the_config)
  pub objection_runs : is_ok objected ≡ true
  pub objection_admitted :
      admit_decision World.no_hash World.first_context World.the_config World.objection_input
        World.agreed
      ≡ ok admitted_objection
  pub objects : is_approve admitted_objection.decision.decision ≡ false
  pub current_agreement :
      get_active_agreement admitted_objection.proposal.slot World.agreed
      ≡ ok (some World.the_agreement)
  pub is_current : is_active World.the_agreement.status ≡ true
  pub withdrawal_runs : is_ok withdrawn_outcome ≡ true
  pub agreement_written :
      validate_state_write World.no_hash
        (agreement_key World.the_agreement.agreement_id)
        (encode_agreement World.the_agreement)
      ≡ true
  pub agreement_linked : agreement_links World.no_hash World.linked_state World.the_agreement ≡ true
  pub writes_valid : valid_writes World.no_hash World.no_record_hash World.the_writes ≡ true
  pub genesis_valid :
      validate_journal_rows World.no_hash World.no_record_hash (text "chan") zero_hash 1 genesis
      ≡ true
  pub applied_runs : is_some applied ≡ true
  pub revision_immutable : is_immutable (revision_key World.the_digest).prefix ≡ true
  pub revision_held :
      World.agreed.at (revision_key World.the_digest) ≡ some (encode_revision World.the_revision)

abbrev pub runs : Runs
unfolding traverse to_list from_list keys prop has_own present assert_record assert_array
    assert_keys assert_safe_integer assert_boolean is_text is_number required_property is_present
    read_pointer is_corrupt check_approvals is_required resolve_dependencies check_revision
    check_policy check_agreement check_pointer resolve_node resolve_step resolve_internal resolve_at
    dependencies_eligible dependency_eligible is_high is_low valid_unicode code_points utf8_point
    utf8_points utf8 byte_length decimal is_human same_kind same_actor kind_text read_kind
    read_actor encode_actor assert_context status_text is_active optional_actor encode_agreement
    read_status optional_string read_optional_actor validate_agreement encode_identity encode_config
    read_context read_identity read_identities has_actor is_human_identity check_representatives
    is_policy read_policies validate_config policy_for configured_identity require_human
    approval_text is_approve is_retract encode_decision read_approval read_retracted
    validate_decision repeated is_id after_prefix is_digest is_scope_version is_scope_rest
    is_usage_scope is_relationship is_nonce assert_text assert_id assert_digest assert_usage_scope
    is_bounded_text assert_non_empty_string assert_version encode_version encode_representative
    encode_policy actor_key read_representative read_representatives validate_policy is_open
    optional_field optional_text proposal_status_text encode_proposal read_proposal_status
    optional_id validate_proposal enforcement_text encode_dependency encode_assertion
    source_kind_text encode_metadata encode_payload encode_revision read_enforcement
    validate_dependency validate_assertion read_source_kind validate_metadata validate_payload
    digest_payload validate_revision no_agreement_id is_slot read_slot slot_text slot_key same_slot
    slot_fields find any all text_eq text_lt includes valid_writes valid_row validate_journal_rows
    next_number next_hash unsigned_event committed_row tip keeps_immutable apply_writes apply linked
    in_slot only of_representative approves represented linked_revision linked_policy
    linked_decisions revision_links revision_id_links policy_links proposal_links decision_links
    agreement_links latest_decision_links counter_links slot_links validate_state_links accepted
    has_exactly is_integer is_text_that is_null value_at is_counting number_from push_unit split
    slot_of names_slot is_actor is_some_text valid_revision_pointer valid_latest_decision
    valid_counter valid_active_slot valid_record valid_fence fits is_immutable valid_value
    validate_state_write prefix_text is_unreserved upper_hex percent percents encoded encoded_parts
    state_key active_slot_key texts_eq unchecked_key read read_or put put_clone canonical_number
    escape quote join insert_entry sort_entries print_entries count_items canonicalize
    clone_canonical same_texts same_json assert_unique_canonical canonical_value canonical_items
    canonical_fields js_string check_approval latest_approval collect_approvals read_expected id_of
    same_id has_revision check_precondition new_agreement supersede commit_agreement check_proposal
    admit_activation execute_activate get_latest_decision read_review_counter check_binding
    is_representative check_authority is_latest check_retraction suspension_reason suspended_field
    recorded store_decision suspend_unless_approved record_decision admit_decision execute_decide
    validate_command read_config same_stored_actor encode_record replay put_policies channel_of
    bootstrap store_record idempotency_digest perform_command perform_once execute read_epoch
    admit_fence store_fence execute_fence assert_policy_matches_revision assert_unused new_proposal
    open_proposal admit_proposal execute_propose validate_publication pointed_digest
    read_revision_by_id visit_dependencies visit validate_published_dependency_graph check_parents
    published already_published publish_new publish_unless_known can_publish
    assert_config_version_equal admit_publication execute_publish reply increment_epoch
    desired_status is_authorized commit_status admit_status_change execute_status_change pointed_id
    load_active get_active_agreement change_status deactivate suspend_active_agreement
    representative_for represents find_approval check_target approvals_for matching_policy
    validate_agreement_approvals
runs = record {
  fence_runs = refl;
  activate_runs = refl;
  replacement_runs = refl;
  replaced_agreement = refl;
  first_context_valid = refl;
  second_context_valid = refl;
  fence_reads = refl;
  reused_reads = refl;
  fence_digest = refl;
  reused_digest = refl;
  configured = refl;
  identified = refl;
  resolved = refl;
  same_channel = refl;
  config_held = refl;
  objection_runs = refl;
  objection_admitted = refl;
  objects = refl;
  current_agreement = refl;
  is_current = refl;
  withdrawal_runs = refl;
  agreement_written = refl;
  agreement_linked = refl;
  writes_valid = refl;
  genesis_valid = refl;
  applied_runs = refl;
  revision_immutable = refl;
  revision_held = refl;
}
