-- ===== src/Examples/Delivering.antt =====
-- A review message of packages/review that is queued, sent and received in small runs.
use knowledger.Base.{
  ◌≤◌, Bool, true, false, List, [], ◌∷◌, Option, none, Text, text, length, ◌≡◌, refl, All,
}
use knowledger.Fault.{Result, ok, err}
use knowledger.Json.{Json, num, whole, str, obj, Fields, end, field}
use knowledger.Contracts.Slot.{slot_fields}
use knowledger.Delivery.Packet.{ReviewPerson, ReviewReceipt}
use knowledger.Delivery.Outbox.{OutboxRow, pending}
use knowledger.Delivery.Inbox.{InboxRow, receive-receive}
use knowledger.Delivery.Worker.{
  WorkerOptions, Turn, receipt_of, enqueued, claimed, Reaches, start, after,
}
use knowledger.Delivery.Leases.{IsWell}
use knowledger.Delivery.Steps.{Reaches-IsWell}
use knowledger.Delivery.Drain.{NoRepeats, drain-NoRepeats}
use knowledger.Examples.World
use knowledger.Base.{filter, take, drop, find, any, all, text_eq, text_lt, includes}
use knowledger.Contracts.Actor.{
  is_human, same_kind, same_actor, kind_text, read_kind, read_actor, encode_actor, assert_context,
}
use knowledger.Contracts.Agreement.{
  status_text, is_active, optional_actor, encode_agreement, read_status, optional_string,
  read_optional_actor, validate_agreement,
}
use knowledger.Contracts.Config.{
  encode_identity, encode_config, read_context, read_identity, read_identities, has_actor,
  is_human_identity, check_representatives, is_policy, read_policies, validate_config, policy_for,
  configured_identity, require_human,
}
use knowledger.Contracts.Decision.{
  approval_text, is_approve, is_retract, encode_decision, read_approval, read_retracted,
  validate_decision,
}
use knowledger.Contracts.Identifiers.{
  repeated, is_id, after_prefix, is_digest, is_scope_version, is_scope_rest, is_usage_scope,
  is_relationship, is_nonce, assert_text, assert_id, assert_digest, assert_usage_scope,
  is_bounded_text, assert_non_empty_string, assert_version, encode_version,
}
use knowledger.Contracts.Policy.{
  encode_representative, encode_policy, actor_key, read_representative, read_representatives,
  validate_policy,
}
use knowledger.Contracts.Proposal.{
  is_open, optional_field, optional_text, proposal_status_text, encode_proposal,
  read_proposal_status, optional_id, validate_proposal,
}
use knowledger.Contracts.Revision.{
  enforcement_text, encode_dependency, encode_assertion, source_kind_text, encode_metadata,
  encode_payload, encode_revision, read_enforcement, validate_dependency, validate_assertion,
  read_source_kind, validate_metadata, validate_payload, digest_payload, validate_revision,
  no_agreement_id,
}
use knowledger.Contracts.Slot.{is_slot, read_slot, slot_text, slot_key, same_slot, slot_fields}
use knowledger.Delivery.Inbox.{
  is_from, new_receipt, inbox_row, is_received, received, receive_at, receive,
}
use knowledger.Delivery.Outbox.{
  is_pending, is_sending, is_delivered, is_retryable, is_code, is_token, is_none_or, is_some_that,
  is_set, has_lease, same_test, is_of, is_operation, has_id, update, fail_row, is_expired,
  is_exhausted, is_due, earlier_of, first_due, lease_row, settle_row, retry_row, holds_lease,
  check_receipt, settle, is_job, job, get, new_row, enqueue_at, enqueue, claim_row, claim, retry,
}
use knowledger.Delivery.Packet.{
  has_shape, is_leap, days_in, number_at, delivery_iso, is_blank, is_body, is_id_value, is_person,
  is_message_slot, is_author, is_comment, is_message, same_person, text_of, person_of, packet_of,
  validate_review_receipt, delivery_hash, has_digest, is_packet, validate_review_packet,
}
use knowledger.Delivery.Worker.{
  is_options, least_of, next_attempt, settle_failure, settlement, settle_job, take_turn,
  drain_turns, drain,
}
use knowledger.Fault.{traverse}
use knowledger.Json.{
  to_list, from_list, keys, prop, has_own, present, assert_record, assert_array, assert_keys,
  assert_safe_integer, assert_boolean, is_text, is_number, required_property, is_present,
}
use knowledger.Json.Canonical.{
  canonical_number, escape, quote, join, insert_entry, sort_entries, print_entries, count_items,
  canonicalize, clone_canonical, same_texts, same_json, assert_unique_canonical, canonical_value,
  canonical_items, canonical_fields, js_string,
}
use knowledger.Ledger.Keys.{
  prefix_text, is_unreserved, upper_hex, percent, percents, encoded, encoded_parts, state_key,
  active_slot_key, texts_eq, unchecked_key,
}
use knowledger.Ledger.Store.{read, read_or, put, put_clone}
use knowledger.State.Writes.{
  accepted, has_exactly, is_integer, is_text_that, is_null, value_at, is_counting, number_from,
  push_unit, split, slot_of, names_slot, is_actor, is_some_text, valid_revision_pointer,
  valid_latest_decision, valid_counter, valid_active_slot, valid_record, valid_fence, fits,
  is_immutable, valid_value, validate_state_write,
}
use knowledger.Unicode.{
  is_high, is_low, valid_unicode, code_points, utf8_point, utf8_points, utf8, byte_length, decimal,
}

abbrev person_value : Text → Text → Fields → Json
person_value org actor rest =
    obj (field (text "org_id") (str org) (field (text "actor_id") (str actor) rest))

abbrev now_text : Text
now_text = text "2024-02-29T10:00:00.000Z"

abbrev message : Json
message = obj (
    field (text "schema_version") (num (whole 1)) (
      field (text "delivery_id") (str (text "dlv1")) (
        field (text "source_id") (str (text "source")) (
          field (text "workspace_id") (str (text "work")) (
            field (text "slot") (obj (slot_fields World.the_slot end)) (
              field (text "revision_digest") (str World.the_digest) (
                field (text "recipient") (person_value (text "orgb") (text "bob") end) (
                  field (text "comment")
                    (obj (
                      field (text "event_id") (str (text "evt1")) (
                        field (text "author")
                          (person_value (text "orga") (text "ann")
                            (field (text "kind") (str (text "human")) end))
                          (field (text "created_at") (str now_text)
                            (field (text "body") (str (text "Please look.")) end)))))
                    end))))))))

abbrev packet : Json
packet =
    obj (field (text "message") message (field (text "payload_digest") (str World.the_digest) end))

abbrev author : ReviewPerson
author = record { org_id = text "orga"; actor_id = text "ann" }

abbrev options : WorkerOptions
options = record { timeout_ms = 10000; max_attempts = 5; retry_base_ms = 1000 }

abbrev token : Text
token = text "00000000-0000-0000-0000-000000000000"

abbrev is_ok : {A : Type 0} → Result A → Bool
is_ok (ok a) = true
is_ok (err e) = false

abbrev value_or : {A : Type 0} → A → Result A → A
value_or d (ok a) = a
value_or d (err e) = d

ok_of : {A : Type 0} (d : A) (r : Result A) → is_ok r ≡ true → r ≡ ok (value_or d r)
ok_of d (ok a) h = refl
ok_of d (err e) h = cc

abbrev queued : Result (OutboxRow × List OutboxRow)
queued =
    enqueue World.no_hash author (text "operation") packet (text "target") World.the_digest packet 7
      []

abbrev no_row : OutboxRow
no_row = record {
  delivery_id = [];
  actor = author;
  operation_id = [];
  request_digest = [];
  target_id = [];
  target_binding = [];
  packet = packet;
  status = pending;
  attempts = 0;
  total_attempts = 0;
  next_attempt_at = 0;
  lease_token = none;
  lease_until = none;
  last_code = none;
  receipt = none;
}

abbrev queue : OutboxRow × List OutboxRow
queue = value_or (no_row, []) queued

abbrev taken : Result (Option OutboxRow × List OutboxRow)
taken = claim World.no_hash 9 15000 5 [] token queue.1

abbrev lease : Option OutboxRow × List OutboxRow
lease = value_or (none, []) taken

abbrev the_receipt : ReviewReceipt
the_receipt = record {
  delivery_id = text "dlv1";
  payload_digest = World.the_digest;
  received_at = now_text;
}

abbrev turns : List Turn
turns =
    record {
      claimed_at = 9;
      token = token;
      attempt = λ job. receipt_of the_receipt;
      settled_at = 12;
    }
    ∷ []

abbrev run : Result (List Text × List OutboxRow)
run = drain World.no_hash options turns queue.1

abbrev arrival : Result (ReviewReceipt × List InboxRow)
arrival = receive World.no_hash packet now_text []

record Deliveries : Type 0 where
  queue_runs : is_ok queued ≡ true
  claim_runs : is_ok taken ≡ true
  drain_runs : is_ok run ≡ true
  attempts_one : (value_or ([], []) run).0 ≡ text "dlv1" ∷ []
  receive_runs : is_ok arrival ≡ true
  standard : delivery_iso now_text ≡ true

deliveries : Deliveries
unfolding filter take drop find any all text_eq text_lt includes is_human same_kind same_actor
    kind_text read_kind read_actor encode_actor assert_context status_text is_active optional_actor
    encode_agreement read_status optional_string read_optional_actor validate_agreement
    encode_identity encode_config read_context read_identity read_identities has_actor
    is_human_identity check_representatives is_policy read_policies validate_config policy_for
    configured_identity require_human approval_text is_approve is_retract encode_decision
    read_approval read_retracted validate_decision repeated is_id after_prefix is_digest
    is_scope_version is_scope_rest is_usage_scope is_relationship is_nonce assert_text assert_id
    assert_digest assert_usage_scope is_bounded_text assert_non_empty_string assert_version
    encode_version encode_representative encode_policy actor_key read_representative
    read_representatives validate_policy is_open optional_field optional_text proposal_status_text
    encode_proposal read_proposal_status optional_id validate_proposal enforcement_text
    encode_dependency encode_assertion source_kind_text encode_metadata encode_payload
    encode_revision read_enforcement validate_dependency validate_assertion read_source_kind
    validate_metadata validate_payload digest_payload validate_revision no_agreement_id is_slot
    read_slot slot_text slot_key same_slot slot_fields is_from new_receipt inbox_row is_received
    received receive_at receive is_pending is_sending is_delivered is_retryable is_code is_token
    is_none_or is_some_that is_set has_lease same_test is_of is_operation has_id update fail_row
    is_expired is_exhausted is_due earlier_of first_due lease_row settle_row retry_row holds_lease
    check_receipt settle is_job job get new_row enqueue_at enqueue claim_row claim retry has_shape
    is_leap days_in number_at delivery_iso is_blank is_body is_id_value is_person is_message_slot
    is_author is_comment is_message same_person text_of person_of packet_of validate_review_receipt
    delivery_hash has_digest is_packet validate_review_packet is_options least_of next_attempt
    settle_failure settlement settle_job take_turn drain_turns drain traverse to_list from_list keys
    prop has_own present assert_record assert_array assert_keys assert_safe_integer assert_boolean
    is_text is_number required_property is_present canonical_number escape quote join insert_entry
    sort_entries print_entries count_items canonicalize clone_canonical same_texts same_json
    assert_unique_canonical canonical_value canonical_items canonical_fields js_string prefix_text
    is_unreserved upper_hex percent percents encoded encoded_parts state_key active_slot_key
    texts_eq unchecked_key read read_or put put_clone accepted has_exactly is_integer is_text_that
    is_null value_at is_counting number_from push_unit split slot_of names_slot is_actor
    is_some_text valid_revision_pointer valid_latest_decision valid_counter valid_active_slot
    valid_record valid_fence fits is_immutable valid_value validate_state_write is_high is_low
    valid_unicode code_points utf8_point utf8_points utf8 byte_length decimal
deliveries = record {
  queue_runs = refl;
  claim_runs = refl;
  drain_runs = refl;
  attempts_one = refl;
  receive_runs = refl;
  standard = refl;
}

reached : Reaches World.no_hash options lease.1
reached =
    after
      (after start (
        enqueued author (text "operation") packet (text "target") World.the_digest packet 7 queue.0
          (ok_of (no_row, []) queued deliveries.queue_runs)))
      (claimed 9 [] token lease.0 (ok_of (none, []) taken deliveries.claim_runs))

Reaches-IsWell_example : All (IsWell 5) lease.1
Reaches-IsWell_example = Reaches-IsWell World.no_hash options lease.1 reached

drain-NoRepeats_example :
    NoRepeats (value_or ([], []) run).0 × (length (value_or ([], []) run).0 ≤ 20)
drain-NoRepeats_example =
    drain-NoRepeats World.no_hash options turns queue.1 (ok_of ([], []) run deliveries.drain_runs)

receive-receive_example :
    receive World.no_hash packet (text "later") (value_or (the_receipt, []) arrival).1
    ≡ ok ((value_or (the_receipt, []) arrival).0, (value_or (the_receipt, []) arrival).1)
receive-receive_example =
    receive-receive World.no_hash packet now_text (text "later") []
      (value_or (the_receipt, []) arrival).1 (value_or (the_receipt, []) arrival).0
      deliveries.standard (ok_of (the_receipt, []) arrival deliveries.receive_runs)
