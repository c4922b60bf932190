-- ===== src/Delivery/Worker.antt =====
-- `drain` of packages/review/delivery-worker.ts, and the steps that the worker and the service take on
-- the outbox.
use knowledger.Base.{
  ℕ, zero, suc, ◌+◌, ◌-◌, ◌*◌, ◌^◌, ◌≡◌, Bool, true, not, ◌&&◌, List, [], ◌∷◌, ◌++◌, Option, none,
  some, Text, text, leb, if◌then◌else◌,
}
use knowledger.Fault.{Result, ok, err, ◌>>=◌}
use knowledger.Json.{Json}
use knowledger.Delivery.Packet.{ReviewPerson, ReviewReceipt, packet_of, validate_review_receipt}
use knowledger.Delivery.Outbox.{
  DeliveryStatus, pending, delivered, blocked, failed, OutboxRow, is_code, enqueue, claim, settle,
  retry,
}

pub record WorkerOptions : Type 0 where
  pub timeout_ms : ℕ
  pub max_attempts : ℕ
  pub retry_base_ms : ℕ

-- `DeliveryWorkerOptions`, in the ranges of the constructor.
unfoldable pub is_options : WorkerOptions → Bool
is_options o =
    leb 10 o.timeout_ms
    && leb o.timeout_ms 30000
    && leb 1 o.max_attempts
    && leb o.max_attempts 10
    && leb 1 o.retry_base_ms
    && leb o.retry_base_ms 60000

-- What the transport does with a job: a receipt, a `DeliveryError` (an interruption is one), or
-- something else that is thrown.
pub data Attempt : Type 0 where
  receipt_of : ReviewReceipt → Attempt
  refused : Text → Bool → Attempt
  thrown : Attempt

-- What a job is settled with.
pub record Settlement : Type 0 where
  pub status : DeliveryStatus
  pub at : ℕ
  pub code : Option Text
  pub receipt : Option ReviewReceipt

unfoldable pub least_of : ℕ → ℕ → ℕ
least_of a b = if leb a b then a else b

-- `now + Math.min(3600000, retryBaseMs * 2 ** (attempts - 1))`
unfoldable pub next_attempt : WorkerOptions → ℕ → ℕ → ℕ
next_attempt options now attempts =
    now + least_of 3600000 (options.retry_base_ms * 2 ^ (attempts - 1))

-- The `catch` of a turn.
unfoldable pub settle_failure : WorkerOptions → OutboxRow → ℕ → Text → Bool → Settlement
settle_failure options job now code retryable = record {
  status =
      if not retryable
      then blocked
      else if leb options.max_attempts job.attempts
      then failed
      else pending;
  at = next_attempt options now job.attempts;
  code = some (if is_code code then code else text "DELIVERY_UNAVAILABLE");
  receipt = none;
}

unfoldable pub settlement : WorkerOptions → OutboxRow → ℕ → Attempt → Settlement
settlement options job now (receipt_of receipt) =
    elim (validate_review_receipt receipt (packet_of job.packet)) [
      | ok checked ↦ record { status = delivered; at = now; code = none; receipt = some checked }
      | err e ↦ settle_failure options job now (text "INVALID_DELIVERY_RECEIPT") true
    ]
settlement options job now (refused code retryable) = settle_failure options job now code retryable
settlement options job now thrown =
    settle_failure options job now (text "DELIVERY_UNAVAILABLE") true

unfoldable pub settle_job :
    WorkerOptions → OutboxRow → ℕ → Attempt → List OutboxRow → Result (Bool × List OutboxRow)
settle_job options job now attempt rows =
    let s = settlement options job now attempt in settle job s.status s.at s.code s.receipt rows

-- What comes from outside in a turn of `drain`: the clock at the claim, the token, what the transport
-- does, and the clock when the job is settled.
pub record Turn : Type 0 where
  pub claimed_at : ℕ
  pub token : Text
  pub attempt : OutboxRow → Attempt
  pub settled_at : ℕ

module _ (sha256 : List ℕ → Text) (options : WorkerOptions) where
  -- One turn of the loop: the delivery that was attempted, if there is one.
  unfoldable pub take_turn :
      Turn → List Text → List OutboxRow → Result (Option Text × List OutboxRow)
  take_turn turn attempted rows = do
    claimed ←
        claim sha256 turn.claimed_at (options.timeout_ms + 5000) options.max_attempts attempted
          turn.token rows
    elim claimed.0 [
      | none ↦ ok (none, claimed.1)
      | some job ↦ do
        settled ← settle_job options job turn.settled_at (turn.attempt job) claimed.1
        ok (some job.delivery_id, settled.1)
    ]

  -- The loop of `drain`, with the number of the turns that are left of its 20. It ends when the worker
  -- is stopped, which is the end of the list, or when there is no job. The answer has the deliveries
  -- that were attempted, whose number is `processed`.
  unfoldable pub drain_turns :
      ℕ → List Turn → List Text → List OutboxRow → Result (List Text × List OutboxRow)
  drain_turns zero turns attempted rows = ok (attempted, rows)
  drain_turns (suc left) [] attempted rows = ok (attempted, rows)
  drain_turns (suc left) (turn ∷ turns) attempted rows = do
    taken ← take_turn turn attempted rows
    elim taken.0 [
      | none ↦ ok (attempted, taken.1)
      | some id ↦ drain_turns left turns (attempted ++ (id ∷ [])) taken.1
    ]

  unfoldable pub drain : List Turn → List OutboxRow → Result (List Text × List OutboxRow)
  drain turns rows = drain_turns 20 turns [] rows

  -- A step of the outbox: the service enqueues or retries, a worker claims, or it settles what it
  -- claimed at any time before.
  pub data Step (rows next : List OutboxRow) : Type 0 where
    enqueued :
        (actor : ReviewPerson) (operation_id : Text) (input : Json)
        (target_id target_binding : Text) (value : Json) (now : ℕ) (made : OutboxRow)
        → enqueue sha256 actor operation_id input target_id target_binding value now rows
          ≡ ok (made, next)
        → Step rows next
    claimed :
        (now : ℕ) (exclude : List Text) (token : Text) (job : Option OutboxRow)
        → claim sha256 now (options.timeout_ms + 5000) options.max_attempts exclude token rows
          ≡ ok (job, next)
        → Step rows next
    settled :
        (job : OutboxRow) (now : ℕ) (attempt : Attempt) (changed : Bool)
        → settle_job options job now attempt rows ≡ ok (changed, next)
        → Step rows next
    retried :
        (actor : ReviewPerson) (id : Text) (now : ℕ) (made : OutboxRow)
        → retry sha256 actor id now rows ≡ ok (made, next)
        → Step rows next

  pub data Reaches : List OutboxRow → Type 0 where
    start : Reaches []
    after : {rows next : List OutboxRow} → Reaches rows → Step rows next → Reaches next
