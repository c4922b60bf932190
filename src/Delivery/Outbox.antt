-- ===== src/Delivery/Outbox.antt =====
-- The outbox of packages/storage/review-delivery-store.ts: its rows in the order of `seq`, and each
-- operation on it. A transaction that throws is rolled back, so that an operation returns the new rows
-- only with a result.
use knowledger.Base.{
  ℕ, ◌+◌, Bool, true, false, not, ◌&&◌, ◌||◌, List, [], ◌∷◌, ◌++◌, Option, none, some, Text, text,
  text_eq, includes, any, all, find, filter, length, ltb, leb, ◌==◌, if◌then◌else◌,
}
use knowledger.Fault.{
  Result, ok, err, failure, thrown_error, not_found, idempotency_conflict, delivery_store_corrupt,
  delivery_not_retryable, require, fail_if, ◌>>=◌, ◌>>◌,
}
use knowledger.Json.{Json, max_safe_integer}
use knowledger.Contracts.Identifiers.{is_id, is_digest, is_digit, repeated}
use knowledger.State.Writes.{accepted}
use knowledger.Delivery.Packet.{
  ReviewPerson, ReviewPacket, ReviewReceipt, same_person, validate_review_packet,
  validate_review_receipt, delivery_hash, packet_of,
}

pub data DeliveryStatus : Type 0 where
  pending sending delivered blocked failed : DeliveryStatus

unfoldable pub is_pending : DeliveryStatus → Bool
is_pending pending = true
is_pending _ = false

unfoldable pub is_sending : DeliveryStatus → Bool
is_sending sending = true
is_sending _ = false

unfoldable pub is_delivered : DeliveryStatus → Bool
is_delivered delivered = true
is_delivered _ = false

-- `["failed", "blocked"].includes(status)`
unfoldable pub is_retryable : DeliveryStatus → Bool
is_retryable failed = true
is_retryable blocked = true
is_retryable _ = false

-- A row of `review_delivery_outbox`; a job is its row.
pub record OutboxRow : Type 0 where
  pub delivery_id : Text
  pub actor : ReviewPerson
  pub operation_id : Text
  pub request_digest : Text
  pub target_id : Text
  pub target_binding : Text
  pub packet : Json
  pub status : DeliveryStatus
  pub attempts : ℕ
  pub total_attempts : ℕ
  pub next_attempt_at : ℕ
  pub lease_token : Option Text
  pub lease_until : Option ℕ
  pub last_code : Option Text
  pub receipt : Option ReviewReceipt

-- `/^[A-Z][A-Z0-9_]{1,63}$/`
unfoldable pub is_code : Text → Bool
is_code [] = false
is_code (c ∷ cs) =
    (leb b'A' c && leb c b'Z')
    && repeated (λ d. (leb b'A' d && leb d b'Z') || is_digit d || (d == b'_')) 1 63 cs

-- `/^[a-f0-9-]{36}$/`
unfoldable pub is_token : Text → Bool
is_token t = repeated (λ d. (leb b'a' d && leb d b'f') || is_digit d || (d == b'-')) 36 36 t

unfoldable pub is_none_or {ℓ} : {A : Type ℓ} → (A → Bool) → Option A → Bool
is_none_or p none = true
is_none_or p (some a) = p a

unfoldable pub is_some_that {ℓ} : {A : Type ℓ} → (A → Bool) → Option A → Bool
is_some_that p none = false
is_some_that p (some a) = p a

unfoldable pub is_set {ℓ} : {A : Type ℓ} → Option A → Bool
is_set none = false
is_set (some a) = true

-- The lease belongs to the status of sending, and the receipt to that of delivery.
unfoldable pub has_lease : OutboxRow → Bool
has_lease r =
    if is_sending r.status
    then is_some_that is_token r.lease_token
      && is_some_that (λ n. leb n max_safe_integer) r.lease_until
    else not (is_set r.lease_token) && not (is_set r.lease_until)

unfoldable pub same_test : Bool → Bool → Bool
same_test true b = b
same_test false b = not b

-- `WHERE delivery_id=? AND org_id=? AND actor_id=?`
unfoldable pub is_of : ReviewPerson → Text → OutboxRow → Bool
is_of actor id r = text_eq r.delivery_id id && same_person r.actor actor

unfoldable pub is_operation : ReviewPerson → Text → OutboxRow → Bool
is_operation actor operation_id r = same_person r.actor actor && text_eq r.operation_id operation_id

unfoldable pub has_id : Text → OutboxRow → Bool
has_id id r = text_eq r.delivery_id id

-- `UPDATE ... WHERE test`
unfoldable pub update :
    (OutboxRow → Bool) → (OutboxRow → OutboxRow) → List OutboxRow → List OutboxRow
update test change [] = []
update test change (r ∷ rs) = (if test r then change r else r) ∷ update test change rs

-- The row that runs out of attempts.
unfoldable pub fail_row : OutboxRow → OutboxRow
fail_row r = record r {
  status = failed;
  last_code = some (text "DELIVERY_UNCONFIRMED");
  lease_token = none;
  lease_until = none;
}

unfoldable pub is_expired : ℕ → OutboxRow → Bool
is_expired now r = is_sending r.status && is_some_that (λ t. leb t now) r.lease_until

unfoldable pub is_exhausted : ℕ → ℕ → OutboxRow → Bool
is_exhausted now max_attempts r =
    leb max_attempts r.attempts && (is_pending r.status || is_expired now r)

unfoldable pub is_due : ℕ → List Text → OutboxRow → Bool
is_due now exclude r =
    ((is_pending r.status && leb r.next_attempt_at now) || is_expired now r)
    && not (includes r.delivery_id exclude)

-- `ORDER BY next_attempt_at,seq LIMIT 1`
unfoldable pub earlier_of : OutboxRow → Option OutboxRow → OutboxRow
earlier_of r none = r
earlier_of r (some other) = if leb r.next_attempt_at other.next_attempt_at then r else other

unfoldable pub first_due : (OutboxRow → Bool) → List OutboxRow → Option OutboxRow
first_due test [] = none
first_due test (r ∷ rs) =
    let rest = first_due test rs in if test r then some (earlier_of r rest) else rest

unfoldable pub lease_row : Text → ℕ → OutboxRow → OutboxRow
lease_row token until r = record r {
  status = sending;
  attempts = r.attempts + 1;
  total_attempts = r.total_attempts + 1;
  lease_token = some token;
  lease_until = some until;
}

unfoldable pub settle_row :
    DeliveryStatus → ℕ → Option Text → Option ReviewReceipt → OutboxRow → OutboxRow
settle_row status now code receipt r = record r {
  status = status;
  next_attempt_at = now;
  last_code = code;
  receipt = receipt;
  lease_token = none;
  lease_until = none;
}

unfoldable pub retry_row : ℕ → OutboxRow → OutboxRow
retry_row now r = record r {
  status = pending;
  attempts = 0;
  next_attempt_at = now;
  lease_token = none;
  lease_until = none;
}

-- `delivery_id=? AND status='sending' AND lease_token=?`
unfoldable pub holds_lease : Text → Option Text → OutboxRow → Bool
holds_lease id token r =
    text_eq r.delivery_id id
    && is_sending r.status
    && is_some_that (λ held. is_some_that (λ t. text_eq held t) token) r.lease_token

-- `if (receipt) validateReviewReceipt(receipt, job.packet)`
unfoldable pub check_receipt : Option ReviewReceipt → ReviewPacket → Result (Unit {0})
check_receipt none packet = ok tt
check_receipt (some receipt) packet = do r ← validate_review_receipt receipt packet; ok tt

-- `settle(job, status, now, code, receipt)`, and whether it changed the row.
unfoldable pub settle :
    OutboxRow
    → DeliveryStatus
    → ℕ
    → Option Text
    → Option ReviewReceipt
    → List OutboxRow
    → Result (Bool × List OutboxRow)
settle held status now code receipt rows = do
  checked ← check_receipt receipt (packet_of held.packet)
  let mine = holds_lease held.delivery_id held.lease_token
  ok (length (filter mine rows) == 1, update mine (settle_row status now code receipt) rows)

module _ (sha256 : List ℕ → Text) where
  unfoldable pub is_job : OutboxRow → Bool
  is_job r = accepted (validate_review_packet sha256 r.packet) (λ packet.
      text_eq packet.delivery_id r.delivery_id
      && same_person packet.author r.actor
      && is_id r.target_id
      && leb r.total_attempts max_safe_integer
      && leb r.attempts r.total_attempts
      && leb r.next_attempt_at max_safe_integer
      && is_digest r.target_binding
      && is_none_or is_code r.last_code
      && has_lease r
      && is_none_or (λ receipt. accepted (validate_review_receipt receipt packet) (λ x. true))
          r.receipt
      && same_test (is_delivered r.status) (is_set r.receipt))

  -- `job(row)`
  unfoldable pub job : OutboxRow → Result OutboxRow
  job r = do require (is_job r) (failure delivery_store_corrupt 503); ok r

  unfoldable pub get : ReviewPerson → Text → List OutboxRow → Result OutboxRow
  get actor id rows = elim (find (is_of actor id) rows) [
    | none ↦ err (failure not_found 404)
    | some r ↦ job r
  ]

  unfoldable pub new_row : ReviewPerson → Text → Text → Text → Text → ReviewPacket → ℕ → OutboxRow
  new_row actor operation_id request_digest target_id target_binding packet now = record {
    delivery_id = packet.delivery_id;
    actor = actor;
    operation_id = operation_id;
    request_digest = request_digest;
    target_id = target_id;
    target_binding = target_binding;
    packet = packet.value;
    status = pending;
    attempts = 0;
    total_attempts = 0;
    next_attempt_at = now;
    lease_token = none;
    lease_until = none;
    last_code = none;
    receipt = none;
  }

  -- The row of the operation, if there is one. A row of another operation with the same delivery id is
  -- refused by the table.
  unfoldable pub enqueue_at :
      Option OutboxRow → Text → OutboxRow → List OutboxRow → Result (OutboxRow × List OutboxRow)
  enqueue_at (some existing) request_digest row rows = do
    require (text_eq existing.request_digest request_digest) (failure idempotency_conflict 409)
    found ← job existing
    ok (found, rows)
  enqueue_at none request_digest row rows = do
    fail_if (any (has_id row.delivery_id) rows) thrown_error
    made ← get row.actor row.delivery_id (rows ++ (row ∷ []))
    ok (made, rows ++ (row ∷ []))

  -- `enqueue(actor, operationId, input, target, packet, now)`
  unfoldable pub enqueue :
      ReviewPerson
      → Text
      → Json
      → Text
      → Text
      → Json
      → ℕ
      → List OutboxRow
      → Result (OutboxRow × List OutboxRow)
  enqueue actor operation_id input target_id target_binding value now rows = do
    packet ← validate_review_packet sha256 value
    request_digest ← delivery_hash sha256 input
    enqueue_at (find (is_operation actor operation_id) rows) request_digest
        (new_row actor operation_id request_digest target_id target_binding packet now) rows

  -- The row that is due is leased, if there is one.
  unfoldable pub claim_row :
      ℕ → Text → Option OutboxRow → List OutboxRow → Result (Option OutboxRow × List OutboxRow)
  claim_row until token none rows = ok (none, rows)
  claim_row until token (some r) rows = do
    checked ← job r
    claimed ← job (lease_row token until r)
    ok (some claimed, update (has_id r.delivery_id) (lease_row token until) rows)

  -- `claim(now, leaseMs, maxAttempts, exclude)`, with the token that `randomUUID` gives.
  unfoldable pub claim :
      ℕ → ℕ → ℕ → List Text → Text → List OutboxRow → Result (Option OutboxRow × List OutboxRow)
  claim now lease_ms max_attempts exclude token rows = do
    fail_if (ltb 20 (length exclude) || not (all is_id exclude)) thrown_error
    let kept = update (is_exhausted now max_attempts) fail_row rows
    claim_row (now + lease_ms) token (first_due (is_due now exclude) kept) kept

  unfoldable pub retry :
      ReviewPerson → Text → ℕ → List OutboxRow → Result (OutboxRow × List OutboxRow)
  retry actor id now rows = do
    found ← get actor id rows
    require (is_retryable found.status) (failure delivery_not_retryable 409)
    let next = update (has_id id) (retry_row now) rows
    again ← get actor id next
    ok (again, next)
