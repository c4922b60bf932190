-- ===== src/Examples/Browsing.antt =====
-- A small history of the browse index of packages/storage/browse-index.ts: a query of the empty index,
-- the commit of a revision, and the query again.
use Prim.Native.Nat.{Ordering, compare}
use knowledger.Base.{
  ℕ, Bool, true, false, not, List, [], ◌∷◌, ◌++◌, none, some, Text, text, length, ◌≡◌, ◌↔◌, refl,
  arith, All,
}
use knowledger.Fault.{Result, ok, err}
use knowledger.Contracts.Revision.{encode_revision}
use knowledger.Browse.Refs.{Checkpoint, RevisionBrowseRef}
use knowledger.Browse.Order.{IsOrder}
use knowledger.Browse.State.{BrowseWriteBatch, Delta, no_delta, empty_state}
use knowledger.Browse.Query.{
  Selector, RevisionBrowseQuery, BrowseQuery, BrowseResult, latest_per_slot, of_revisions,
  annotations,
}
use knowledger.Browse.Cache.{default_limits}
use knowledger.Browse.Index.{BrowseIndex, new_index, queried, committed, Reaches, start, after}
use knowledger.Browse.Coherence.{query-answer, commit_later-answer}
use knowledger.Browse.Complete.{In}
use knowledger.Browse.Refinement.{of_all, select-Refines}
use knowledger.Contracts.SlotKeys.{slot_key-injective}
use knowledger.Browse.Eviction.{IsDone, evict_all-IsDone}
use knowledger.Examples.World
use knowledger.Base.{filter, take, drop, find, any, all, text_eq, text_lt, includes}
use knowledger.Browse.Cache.{
  option_eq, slot_eq, slots_eq, mode_rank, checkpoint_eq, selector_eq, is_under, cached,
  is_oversized, stays, drop_entry, evict, evict_all, store_entry, is_oversized_full, is_full, touch,
  count_miss, drop_stale, least, invalidate, cache_revisions,
}
use knowledger.Browse.Coherence.{answers}
use knowledger.Browse.Index.{revisions, query, touched, commit}
use knowledger.Browse.Merge.{
  has_key, lookup, precedes, note_demote, lower, precedes_any, revise, record_with, record_ref,
  is_fresh, is_consistent, is_demotion, fresh, demoted, assert_consistent, keep, merge_all, set_all,
  delete_all, merge_by_key, merge_bucket,
}
use knowledger.Browse.Query.{
  page, assert_range, is_given, assert_mode, assert_selector, agrees, is_selected, first_of_slots,
  candidates_of, candidates, is_latest_per_slot, select, proposals, visible_revision, annotate,
  annotate_all, annotation_list, answer,
}
use knowledger.Browse.Refs.{
  checkpoint_order, earlier, visible, is_index, assert_checkpoint, matching_slots,
  static_revision_matches, static_proposal_matches, static_agreement_matches, descending,
  compare_agreements, compare_revisions, compare_proposals,
}
use knowledger.Browse.Sort.{
  is_before, is_after, flip, or_else, insert, sort, last_before, prepend_latest,
}
use knowledger.Browse.State.{
  starts_with, is_block_only, is_empty, revision_ref, proposal_ref, agreement_ref, prepare_write,
  prepare_writes, prepare_batches, prepare, check_delta, merge_delta,
}
use knowledger.Contracts.Actor.{
  is_human, same_kind, same_actor, kind_text, read_kind, read_actor, encode_actor, assert_context,
}
use knowledger.Contracts.Agreement.{
  status_text, is_active, optional_actor, encode_agreement, read_status, optional_string,
  read_optional_actor, validate_agreement,
}
use knowledger.Contracts.Config.{
  encode_identity, encode_config, read_context, read_identity, read_identities, has_actor,
  is_human_identity, check_representatives, is_policy, read_policies, validate_config, policy_for,
  configured_identity, require_human,
}
use knowledger.Contracts.Decision.{
  approval_text, is_approve, is_retract, encode_decision, read_approval, read_retracted,
  validate_decision,
}
use knowledger.Contracts.Identifiers.{
  repeated, is_id, after_prefix, is_digest, is_scope_version, is_scope_rest, is_usage_scope,
  is_relationship, is_nonce, assert_text, assert_id, assert_digest, assert_usage_scope,
  is_bounded_text, assert_non_empty_string, assert_version, encode_version,
}
use knowledger.Contracts.Policy.{
  encode_representative, encode_policy, actor_key, read_representative, read_representatives,
  validate_policy,
}
use knowledger.Contracts.Proposal.{
  is_open, optional_field, optional_text, proposal_status_text, encode_proposal,
  read_proposal_status, optional_id, validate_proposal,
}
use knowledger.Contracts.Revision.{
  enforcement_text, encode_dependency, encode_assertion, source_kind_text, encode_metadata,
  encode_payload, encode_revision, read_enforcement, validate_dependency, validate_assertion,
  read_source_kind, validate_metadata, validate_payload, digest_payload, validate_revision,
  no_agreement_id,
}
use knowledger.Contracts.Slot.{is_slot, read_slot, slot_text, slot_key, same_slot, slot_fields}
use knowledger.Fault.{traverse}
use knowledger.Http.Close.{
  assert_close_bound, assert_optional_close_bound, or_default, assert_close_options, is_settled,
  finish, release, close_ending, abandon_ending, on_close, on_abandon, step,
}
use knowledger.Json.{
  to_list, from_list, keys, prop, has_own, present, assert_record, assert_array, assert_keys,
  assert_safe_integer, assert_boolean, is_text, is_number, required_property, is_present,
}
use knowledger.Json.Canonical.{
  canonical_number, escape, quote, join, insert_entry, sort_entries, print_entries, count_items,
  canonicalize, clone_canonical, same_texts, same_json, assert_unique_canonical, canonical_value,
  canonical_items, canonical_fields, js_string,
}
use knowledger.Ledger.Keys.{
  prefix_text, is_unreserved, upper_hex, percent, percents, encoded, encoded_parts, state_key,
  active_slot_key, texts_eq, unchecked_key,
}
use knowledger.Ledger.Store.{read, read_or, put, put_clone}
use knowledger.Unicode.{
  is_high, is_low, valid_unicode, code_points, utf8_point, utf8_points, utf8, byte_length, decimal,
}

-- An order of texts that stands for the one of the platform's locale.
abbrev by_length : Text → Text → Ordering
by_length a b = compare (length a) (length b)

by_length-IsOrder : IsOrder by_length
unfolding flip is_after
by_length-IsOrder = record { flips = λ x y. ground arith; chains = λ x y z h k. ground arith }

abbrev key_size : Selector → ℕ
key_size s = 100

abbrev channel : Text
channel = text "chan"

abbrev checkpoint : ℕ → Checkpoint
checkpoint n = record {
  channel_id = channel;
  block_number = n;
  transaction_index = some 0;
  transaction_id = text "tx1";
  block_hash = text "hash";
}

abbrev batches : List BrowseWriteBatch
batches =
    record {
      checkpoint = checkpoint 5;
      writes =
          (text "kcl:v1:revision:sha256%3A" ++ World.no_hash [], encode_revision World.the_revision)
          ∷ [];
    }
    ∷ []

abbrev latest_at : ℕ → RevisionBrowseQuery
latest_at n = record {
  selector = record {
    at = checkpoint n;
    mode = latest_per_slot;
    slot = none;
    document_id = none;
    context_id = none;
    scope_id = none;
    usage_scope = none;
  };
  offset = 0;
  limit = 10;
}

abbrev is_ok : {A : Type 0} → Result A → Bool
is_ok (ok a) = true
is_ok (err e) = false

abbrev value_or : {A : Type 0} → A → Result A → A
value_or d (ok a) = a
value_or d (err e) = d

ok_of : {A : Type 0} (d : A) (r : Result A) → is_ok r ≡ true → r ≡ ok (value_or d r)
ok_of d (ok a) h = refl
ok_of d (err e) h = cc

abbrev asked : BrowseQuery → BrowseIndex → Result (BrowseResult × BrowseIndex)
asked q i = query key_size default_limits channel i q

abbrev nothing : BrowseIndex → BrowseResult × BrowseIndex
nothing i = (annotations [], i)

abbrev prepared : Result Delta
prepared = prepare World.no_hash by_length channel empty_state batches

abbrev delta : Delta
delta = value_or no_delta prepared

-- The index after a query at an early block, after the commit, and after a query at a late block.
abbrev early_query : Result (BrowseResult × BrowseIndex)
early_query = asked (of_revisions (latest_at 1)) new_index

abbrev first_index : BrowseIndex
first_index = (value_or (nothing new_index) early_query).1

abbrev first_commit : Result BrowseIndex
first_commit = commit by_length delta first_index

abbrev second_index : BrowseIndex
second_index = value_or new_index first_commit

abbrev late_query : Result (BrowseResult × BrowseIndex)
late_query = asked (of_revisions (latest_at 9)) second_index

abbrev third_index : BrowseIndex
third_index = (value_or (nothing new_index) late_query).1

record History : Type 0 where
  early_runs : is_ok early_query ≡ true
  prepare_runs : is_ok prepared ≡ true
  commit_runs : is_ok first_commit ≡ true
  late_runs : is_ok late_query ≡ true
  one_cached : length third_index.cache.entries ≡ 2
  later : All (λ b. visible b.checkpoint (checkpoint 1) ≡ false) batches

history : History
unfolding filter take drop find any all text_eq text_lt includes option_eq slot_eq slots_eq
    mode_rank checkpoint_eq selector_eq is_under cached is_oversized stays drop_entry evict
    evict_all store_entry is_oversized_full is_full touch count_miss drop_stale least invalidate
    cache_revisions answers revisions query touched commit has_key lookup precedes note_demote lower
    precedes_any revise record_with record_ref is_fresh is_consistent is_demotion fresh demoted
    assert_consistent keep merge_all set_all delete_all merge_by_key merge_bucket page assert_range
    is_given assert_mode assert_selector agrees is_selected first_of_slots candidates_of candidates
    is_latest_per_slot select proposals visible_revision annotate annotate_all annotation_list
    answer checkpoint_order earlier visible is_index assert_checkpoint matching_slots
    static_revision_matches static_proposal_matches static_agreement_matches descending
    compare_agreements compare_revisions compare_proposals is_before is_after flip or_else insert
    sort last_before prepend_latest starts_with is_block_only is_empty revision_ref proposal_ref
    agreement_ref prepare_write prepare_writes prepare_batches prepare check_delta merge_delta
    is_human same_kind same_actor kind_text read_kind read_actor encode_actor assert_context
    status_text is_active optional_actor encode_agreement read_status optional_string
    read_optional_actor validate_agreement encode_identity encode_config read_context read_identity
    read_identities has_actor is_human_identity check_representatives is_policy read_policies
    validate_config policy_for configured_identity require_human approval_text is_approve is_retract
    encode_decision read_approval read_retracted validate_decision repeated is_id after_prefix
    is_digest is_scope_version is_scope_rest is_usage_scope is_relationship is_nonce assert_text
    assert_id assert_digest assert_usage_scope is_bounded_text assert_non_empty_string
    assert_version encode_version encode_representative encode_policy actor_key read_representative
    read_representatives validate_policy is_open optional_field optional_text proposal_status_text
    encode_proposal read_proposal_status optional_id validate_proposal enforcement_text
    encode_dependency encode_assertion source_kind_text encode_metadata encode_payload
    encode_revision read_enforcement validate_dependency validate_assertion read_source_kind
    validate_metadata validate_payload digest_payload validate_revision no_agreement_id is_slot
    read_slot slot_text slot_key same_slot slot_fields traverse assert_close_bound
    assert_optional_close_bound or_default assert_close_options is_settled finish release
    close_ending abandon_ending on_close on_abandon step to_list from_list keys prop has_own present
    assert_record assert_array assert_keys assert_safe_integer assert_boolean is_text is_number
    required_property is_present canonical_number escape quote join insert_entry sort_entries
    print_entries count_items canonicalize clone_canonical same_texts same_json
    assert_unique_canonical canonical_value canonical_items canonical_fields js_string prefix_text
    is_unreserved upper_hex percent percents encoded encoded_parts state_key active_slot_key
    texts_eq unchecked_key read read_or put put_clone is_high is_low valid_unicode code_points
    utf8_point utf8_points utf8 byte_length decimal
history = record {
  early_runs = refl;
  prepare_runs = refl;
  commit_runs = refl;
  late_runs = refl;
  one_cached = refl;
  later = (refl, tt);
}

abbrev Reached : BrowseIndex → Type 0
Reached = Reaches World.no_hash by_length key_size default_limits channel

first-Reached : Reached first_index
first-Reached = after start (
    queried (of_revisions (latest_at 1)) (value_or (nothing new_index) early_query).0
      (ok_of (nothing new_index) early_query history.early_runs))

second-Reached : Reached second_index
second-Reached = after first-Reached (
    committed empty_state batches delta (ok_of no_delta prepared history.prepare_runs)
      (ok_of new_index first_commit history.commit_runs))

third-Reached : Reached third_index
third-Reached = after second-Reached (
    queried (of_revisions (latest_at 9)) (value_or (nothing new_index) late_query).0
      (ok_of (nothing new_index) late_query history.late_runs))

query-answer_example :
    answers (query key_size default_limits channel third_index (of_revisions (latest_at 9)))
    ≡ answer channel third_index.state (of_revisions (latest_at 9))
query-answer_example =
    query-answer by_length by_length-IsOrder World.no_hash key_size default_limits channel
      third_index (of_revisions (latest_at 9)) third-Reached

commit_later-answer_example :
    answer channel second_index.state (of_revisions (latest_at 1))
    ≡ answer channel first_index.state (of_revisions (latest_at 1))
commit_later-answer_example =
    commit_later-answer by_length by_length-IsOrder World.no_hash key_size default_limits channel
      first_index empty_state batches delta second_index (latest_at 1) first-Reached
      (ok_of no_delta prepared history.prepare_runs)
      (ok_of new_index first_commit history.commit_runs) history.later

slot_keyed : slot_key World.the_slot ≡ ok (slot_text World.the_slot)
unfolding filter take drop find any all text_eq text_lt includes option_eq slot_eq slots_eq
    mode_rank checkpoint_eq selector_eq is_under cached is_oversized stays drop_entry evict
    evict_all store_entry is_oversized_full is_full touch count_miss drop_stale least invalidate
    cache_revisions answers revisions query touched commit has_key lookup precedes note_demote lower
    precedes_any revise record_with record_ref is_fresh is_consistent is_demotion fresh demoted
    assert_consistent keep merge_all set_all delete_all merge_by_key merge_bucket page assert_range
    is_given assert_mode assert_selector agrees is_selected first_of_slots candidates_of candidates
    is_latest_per_slot select proposals visible_revision annotate annotate_all annotation_list
    answer checkpoint_order earlier visible is_index assert_checkpoint matching_slots
    static_revision_matches static_proposal_matches static_agreement_matches descending
    compare_agreements compare_revisions compare_proposals is_before is_after flip or_else insert
    sort last_before prepend_latest starts_with is_block_only is_empty revision_ref proposal_ref
    agreement_ref prepare_write prepare_writes prepare_batches prepare check_delta merge_delta
    is_human same_kind same_actor kind_text read_kind read_actor encode_actor assert_context
    status_text is_active optional_actor encode_agreement read_status optional_string
    read_optional_actor validate_agreement encode_identity encode_config read_context read_identity
    read_identities has_actor is_human_identity check_representatives is_policy read_policies
    validate_config policy_for configured_identity require_human approval_text is_approve is_retract
    encode_decision read_approval read_retracted validate_decision repeated is_id after_prefix
    is_digest is_scope_version is_scope_rest is_usage_scope is_relationship is_nonce assert_text
    assert_id assert_digest assert_usage_scope is_bounded_text assert_non_empty_string
    assert_version encode_version encode_representative encode_policy actor_key read_representative
    read_representatives validate_policy is_open optional_field optional_text proposal_status_text
    encode_proposal read_proposal_status optional_id validate_proposal enforcement_text
    encode_dependency encode_assertion source_kind_text encode_metadata encode_payload
    encode_revision read_enforcement validate_dependency validate_assertion read_source_kind
    validate_metadata validate_payload digest_payload validate_revision no_agreement_id is_slot
    read_slot slot_text slot_key same_slot slot_fields traverse assert_close_bound
    assert_optional_close_bound or_default assert_close_options is_settled finish release
    close_ending abandon_ending on_close on_abandon step to_list from_list keys prop has_own present
    assert_record assert_array assert_keys assert_safe_integer assert_boolean is_text is_number
    required_property is_present canonical_number escape quote join insert_entry sort_entries
    print_entries count_items canonicalize clone_canonical same_texts same_json
    assert_unique_canonical canonical_value canonical_items canonical_fields js_string prefix_text
    is_unreserved upper_hex percent percents encoded encoded_parts state_key active_slot_key
    texts_eq unchecked_key read read_or put put_clone is_high is_low valid_unicode code_points
    utf8_point utf8_points utf8 byte_length decimal
slot_keyed = refl

slot_key-injective_example : World.the_slot ≡ World.the_slot
slot_key-injective_example =
    slot_key-injective World.the_slot World.the_slot (slot_text World.the_slot) slot_keyed
      slot_keyed

evict_all-IsDone_example :
    IsDone
      (is_full default_limits 16384 0)
      (λ c k. not (is_oversized c k))
      (evict_all (is_full default_limits 16384 0) (λ c k. not (is_oversized c k)) third_index.cache)
evict_all-IsDone_example =
    evict_all-IsDone (is_full default_limits 16384 0) (λ c k. not (is_oversized c k))
      third_index.cache

abbrev the_ref : RevisionBrowseRef
the_ref = record {
  key = text "kcl:v1:revision:sha256%3A" ++ World.no_hash [];
  revision_digest = World.no_hash [];
  slot = World.the_slot;
  published_checkpoint = checkpoint 5;
}

select-Refines_example : In the_ref (select third_index.state (of_all (latest_at 9).selector)) ↔ (
    (third_index.state.revisions_by_key the_ref.key ≡ some the_ref)
    × (is_selected (of_all (latest_at 9).selector) the_ref ≡ true))
select-Refines_example =
    select-Refines by_length by_length-IsOrder World.no_hash key_size default_limits channel
      third_index (latest_at 9).selector the_ref third-Reached
