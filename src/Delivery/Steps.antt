-- ===== src/Delivery/Steps.antt =====
-- Each step of the outbox of packages/storage/review-delivery-store.ts keeps its rows well-formed, so
-- that they are in every state that the service and the workers reach.
use knowledger.Base.{
  ℕ, ◌+◌, ◌≡◌, ◌≢◌, inl, inr, refl, sym, ap, subst, Bool, true, false, not, ◌||◌, List, [], ◌∷◌,
  ◌++◌, Option, none, some, Text, text_eq, text_eq→eq, text_eq_refl, any, all, find, length, ltb,
  All, All-map, All-append, Bool-cases, Option-cases, arith,
}
use knowledger.Fault.{
  ok, thrown_error, require, fail_if, failure, idempotency_conflict, delivery_store_corrupt,
  delivery_not_retryable, >>=-eq-ok, ok_eq, err≢ok,
}
use knowledger.Json.{Json}
use knowledger.Contracts.Identifiers.{is_id}
use knowledger.State.Writes.{accepted}
use knowledger.Delivery.Packet.{
  ReviewPerson, ReviewPacket, ReviewReceipt, packet_of, validate_review_packet, delivery_hash,
}
use knowledger.Delivery.Outbox.{
  DeliveryStatus, OutboxRow, is_retryable, has_lease, is_sending, is_set, same_test, is_delivered,
  has_id, is_of, is_operation, update, fail_row, is_exhausted, is_due, first_due, lease_row,
  settle_row, retry_row, holds_lease, is_job, job, get, new_row, check_receipt, claim_row,
  enqueue_at, enqueue, claim, settle, retry,
}
use knowledger.Delivery.Worker.{
  WorkerOptions, Attempt, settlement, settle_job, enqueued, claimed, settled, retried, Reaches,
  start, after,
}
use knowledger.Delivery.Leases.{
  IsWell, IsSound, Distinct, In, In-All, In-only, first_due-In, find-In, update-All,
  update-Distinct, fail_row-IsWell, IsLeft, failed-IsLeft, held-IsLeft, lease_row-IsWell,
  retry_row-IsWell, settlement-IsSettled, settle_row-IsWell,
}

fail_row-id : (r : OutboxRow) → (fail_row r).delivery_id ≡ r.delivery_id
unfolding fail_row
fail_row-id r = refl

pub lease_row-id :
    (token : Text) (until : ℕ) (r : OutboxRow)
    → (lease_row token until r).delivery_id ≡ r.delivery_id
unfolding lease_row
lease_row-id token until r = refl

settle_row-id :
    (status : DeliveryStatus) (now : ℕ) (code : Option Text) (receipt : Option ReviewReceipt)
    (r : OutboxRow)
    → (settle_row status now code receipt r).delivery_id ≡ r.delivery_id
unfolding settle_row
settle_row-id status now code receipt r = refl

retry_row-id : (now : ℕ) (r : OutboxRow) → (retry_row now r).delivery_id ≡ r.delivery_id
unfolding retry_row
retry_row-id now r = refl

snoc-Distinct :
    (row : OutboxRow) (rows : List OutboxRow)
    → any (has_id row.delivery_id) rows ≡ false
    → Distinct rows
    → Distinct (rows ++ (row ∷ []))
unfolding any has_id
snoc-Distinct row [] h hs = (tt, tt)
snoc-Distinct row (r ∷ rs) h hs = elim (Bool-cases (text_eq r.delivery_id row.delivery_id)) [
  | inl e ↦ absurd (ground (arith, e))
  | inr e ↦ (
    All-append (λ s. s.delivery_id ≢ r.delivery_id) rs (row ∷ []) hs.0
        (
          (λ k. ground (
            arith,
            text_eq_refl row.delivery_id,
            subst (λ t. text_eq t row.delivery_id ≡ false) (sym k) e,
          )),
          tt,
        ),
    snoc-Distinct row rs (rw e at h) hs.1,
  )
]

module _ (sha256 : List ℕ → Text) where
  pub job-eq :
      (r : OutboxRow) {j : OutboxRow} → job sha256 r ≡ ok j → (r ≡ j) × (is_job sha256 r ≡ true)
  unfolding job
  job-eq r h =
      let (u, checked, done) =
        >>=-eq-ok (require (is_job sha256 r) (failure delivery_store_corrupt 503)) _ h in
      (ok_eq done, ground arith)

  job-has_lease : (r : OutboxRow) → is_job sha256 r ≡ true → has_lease r ≡ true
  unfolding is_job accepted
  job-has_lease r h = ground arith

  All-zip :
      (P Q : OutboxRow → Type 0) (rows : List OutboxRow)
      → All P rows
      → All Q rows
      → All (λ r. P r × Q r) rows
  All-zip P Q [] hs ks = tt
  All-zip P Q (r ∷ rs) hs ks = ((hs.0, ks.0), All-zip P Q rs hs.1 ks.1)

  -- The row of another delivery is as it was.
  only_row :
      (P : OutboxRow → Type 0) (c : OutboxRow) (rows : List OutboxRow)
      → In c rows
      → Distinct rows
      → P c
      → All (λ r. has_id c.delivery_id r ≡ true → P r) rows
  unfolding has_id
  only_row P c rows m distinct h =
      All-map {Q = λ r. has_id c.delivery_id r ≡ true → P r}
        (λ r same e. subst P (sym (same (text_eq→eq r.delivery_id c.delivery_id e))) h) rows
        (In-only c rows m distinct)

  get-In :
      (actor : ReviewPerson) (id : Text) (rows : List OutboxRow) {found : OutboxRow}
      → get sha256 actor id rows ≡ ok found
      → In found rows × (found.delivery_id ≡ id)
  unfolding get is_of
  get-In actor id rows {found} h = elim (Option-cases (find (is_of actor id) rows)) [
    | inl none_found ↦ absurd (err≢ok (rw (get, none_found) at h))
    | inr (r, e) ↦
        let (member, test) = find-In (is_of actor id) rows e in
        let same = (job-eq r (rw (get, e) at h)).0 in
        (
          subst (λ x. In x rows) same member,
          subst (λ (x : OutboxRow). x.delivery_id ≡ id) same
              (text_eq→eq r.delivery_id id (ground arith)),
        )
  ]

  require-true :
      (test : Bool) {u : Unit {0}}
      → require test (failure delivery_not_retryable 409) ≡ ok u
      → test ≡ true
  require-true test h = ground arith

  module _ (max : ℕ) where
    kept-IsLeft :
        (now : ℕ) (exclude : List Text) (rows : List OutboxRow)
        → All (IsWell max) rows
        → All (IsLeft max now exclude) (update (is_exhausted now max) fail_row rows)
    unfolding fail_row
    kept-IsLeft now exclude rows hs =
        update-All (IsWell max) (IsLeft max now exclude) (is_exhausted now max) fail_row rows
          (λ r e well.
            (fail_row-IsWell max now r e well, λ due. failed-IsLeft max now exclude r due))
          (λ r e well. (well, λ due. held-IsLeft max now exclude r e due)) hs

    -- The row that is leased is the only one of its delivery.
    claim_row-IsSound :
        (until now : ℕ) (exclude : List Text) (token : Text) (rows : List OutboxRow)
        (c : Option OutboxRow) {r : Option OutboxRow} {next : List OutboxRow}
        → first_due (is_due now exclude) rows ≡ c
        → All (IsLeft max now exclude) rows
        → Distinct rows
        → claim_row sha256 until token c rows ≡ ok (r, next)
        → IsSound max next
    unfolding claim_row
    claim_row-IsSound until now exclude token rows none e left distinct h =
        subst (IsSound max) (ap (λ (p : Option OutboxRow × List OutboxRow). p.1) (ok_eq h))
          (All-map {Q = IsWell max} (λ r k. k.0) rows left, distinct)
    claim_row-IsSound until now exclude token rows (some c) e left distinct h =
        let (j1, k1, h1) = >>=-eq-ok (job sha256 c) _ h in
        let (j2, k2, h2) = >>=-eq-ok (job sha256 (lease_row token until c)) _ h1 in
        let (member, due) = first_due-In (is_due now exclude) rows e in
        let ready = In-All (IsLeft max now exclude) c rows member left in
        let leased =
          lease_row-IsWell max token until now exclude c due
            (job-has_lease (lease_row token until c) (job-eq (lease_row token until c) k2).1)
            (ready.1 due) ready.0 in
        let alone =
          only_row (λ r. IsWell max (lease_row token until r)) c rows member distinct leased in
        subst (IsSound max) (ap (λ (p : Option OutboxRow × List OutboxRow). p.1) (ok_eq h2)) (
          update-All
              (λ r.
                IsLeft max now exclude r
                × (has_id c.delivery_id r ≡ true → IsWell max (lease_row token until r)))
              (IsWell max) (has_id c.delivery_id) (lease_row token until) rows
              (λ r same k. k.1 same) (λ r other k. k.0.0)
              (All-zip (IsLeft max now exclude)
                (λ r. has_id c.delivery_id r ≡ true → IsWell max (lease_row token until r)) rows
                left alone),
          update-Distinct (has_id c.delivery_id) (lease_row token until) rows
              (lease_row-id token until) distinct,
        )

    claim-IsSound :
        (now lease_ms : ℕ) (exclude : List Text) (token : Text) (rows : List OutboxRow)
        {r : Option OutboxRow} {next : List OutboxRow}
        → IsSound max rows
        → claim sha256 now lease_ms max exclude token rows ≡ ok (r, next)
        → IsSound max next
    unfolding claim
    claim-IsSound now lease_ms exclude token rows sound h =
        let (u, checked, rest) =
          >>=-eq-ok (fail_if (ltb 20 (length exclude) || not (all is_id exclude)) thrown_error) _
            h in
        let kept = update (is_exhausted now max) fail_row rows in
        claim_row-IsSound (now + lease_ms) now exclude token kept
          (first_due (is_due now exclude) kept) refl (kept-IsLeft now exclude rows sound.0)
          (update-Distinct (is_exhausted now max) fail_row rows fail_row-id sound.1) rest

    settle_job-IsSound :
        (options : WorkerOptions) (j : OutboxRow) (now : ℕ) (a : Attempt) (rows : List OutboxRow)
        {changed : Bool} {next : List OutboxRow}
        → IsSound max rows
        → settle_job options j now a rows ≡ ok (changed, next)
        → IsSound max next
    unfolding settle_job settle
    settle_job-IsSound options j now a rows sound h =
        let s = settlement options j now a in
        let (u, checked, done) = >>=-eq-ok (check_receipt s.receipt (packet_of j.packet)) _ h in
        let mine = holds_lease j.delivery_id j.lease_token in
        let change = settle_row s.status s.at s.code s.receipt in
        subst (IsSound max) (ap (λ (p : Bool × List OutboxRow). p.1) (ok_eq done)) (
          update-All (IsWell max) (IsWell max) mine change rows
              (λ r e well.
                settle_row-IsWell max s r (settlement-IsSettled max options j now a) well)
              (λ r e well. well) sound.0,
          update-Distinct mine change rows (λ r. settle_row-id s.status s.at s.code s.receipt r)
              sound.1,
        )

    retry-IsSound :
        (actor : ReviewPerson) (id : Text) (now : ℕ) (rows : List OutboxRow) {made : OutboxRow}
        {next : List OutboxRow}
        → IsSound max rows
        → retry sha256 actor id now rows ≡ ok (made, next)
        → IsSound max next
    unfolding retry
    retry-IsSound actor id now rows sound h =
        let (found, got, h1) = >>=-eq-ok (get sha256 actor id rows) _ h in
        let (u, allowed, h2) =
          >>=-eq-ok (require (is_retryable found.status) (failure delivery_not_retryable 409)) _
            h1 in
        let (again, k3, h3) =
          >>=-eq-ok (get sha256 actor id (update (has_id id) (retry_row now) rows)) _ h2 in
        let (member, same) = get-In actor id rows got in
        let well =
          retry_row-IsWell max now found (require-true _ allowed)
            (In-All (IsWell max) found rows member sound.0) in
        let alone = only_row (λ r. IsWell max (retry_row now r)) found rows member sound.1 well in
        subst (IsSound max) (ap (λ (p : OutboxRow × List OutboxRow). p.1) (ok_eq h3)) (
          update-All
              (λ r.
                IsWell max r × (has_id found.delivery_id r ≡ true → IsWell max (retry_row now r)))
              (IsWell max) (has_id id) (retry_row now) rows
              (λ r own k. k.1 (subst (λ t. has_id t r ≡ true) (sym same) own)) (λ r other k. k.0)
              (All-zip (IsWell max)
                (λ r. has_id found.delivery_id r ≡ true → IsWell max (retry_row now r)) rows sound.0
                alone),
          update-Distinct (has_id id) (retry_row now) rows (retry_row-id now) sound.1,
        )

    new_row-IsWell :
        (actor : ReviewPerson) (operation_id digest target_id target_binding : Text)
        (packet : ReviewPacket) (now : ℕ)
        → IsWell max (new_row sha256 actor operation_id digest target_id target_binding packet now)
    unfolding new_row has_lease is_sending is_set same_test is_delivered
    new_row-IsWell actor operation_id digest target_id target_binding packet now = record {
      leased = refl;
      receipted = refl;
      counted = omega arith;
      limited = omega arith;
    }

    enqueue_at-IsSound :
        (existing : Option OutboxRow) (digest : Text) (row : OutboxRow) (rows : List OutboxRow)
        {made : OutboxRow} {next : List OutboxRow}
        → IsSound max rows
        → IsWell max row
        → enqueue_at sha256 existing digest row rows ≡ ok (made, next)
        → IsSound max next
    unfolding enqueue_at
    enqueue_at-IsSound (some existing) digest row rows sound well h =
        let (u, e1, h1) =
          >>=-eq-ok
            (require (text_eq existing.request_digest digest) (failure idempotency_conflict 409)) _
            h in
        let (found, e2, h2) = >>=-eq-ok (job sha256 existing) _ h1 in
        subst (IsSound max) (ap (λ (p : OutboxRow × List OutboxRow). p.1) (ok_eq h2)) sound
    enqueue_at-IsSound none digest row rows sound well h =
        let (u, e1, h1) =
          >>=-eq-ok (fail_if (any (has_id row.delivery_id) rows) thrown_error) _ h in
        let (made, e2, h2) =
          >>=-eq-ok (get sha256 row.actor row.delivery_id (rows ++ (row ∷ []))) _ h1 in
        subst (IsSound max) (ap (λ (p : OutboxRow × List OutboxRow). p.1) (ok_eq h2)) (
          All-append (IsWell max) rows (row ∷ []) sound.0 (well, tt),
          snoc-Distinct row rows (ground arith) sound.1,
        )

    enqueue-IsSound :
        (actor : ReviewPerson) (operation_id : Text) (input : Json)
        (target_id target_binding : Text) (value : Json) (now : ℕ) (rows : List OutboxRow)
        {made : OutboxRow} {next : List OutboxRow}
        → IsSound max rows
        → enqueue sha256 actor operation_id input target_id target_binding value now rows
          ≡ ok (made, next)
        → IsSound max next
    unfolding enqueue
    enqueue-IsSound actor operation_id input target_id target_binding value now rows sound h =
        let (packet, e1, h1) = >>=-eq-ok (validate_review_packet sha256 value) _ h in
        let (digest, e2, h2) = >>=-eq-ok (delivery_hash sha256 input) _ h1 in
        enqueue_at-IsSound (find (is_operation actor operation_id) rows) digest _ rows sound
          (new_row-IsWell actor operation_id digest target_id target_binding packet now) h2

  Reaches-IsSound :
      (options : WorkerOptions) (rows : List OutboxRow)
      → Reaches sha256 options rows
      → IsSound options.max_attempts rows
  Reaches-IsSound options rows start = (tt, tt)
  Reaches-IsSound options next
        (after {rows} before
          (enqueued actor operation_id input target_id target_binding value now made h)) =
      enqueue-IsSound options.max_attempts actor operation_id input target_id target_binding value
        now rows (Reaches-IsSound options rows before) h
  Reaches-IsSound options next (after {rows} before (claimed now exclude token job h)) =
      claim-IsSound options.max_attempts now (options.timeout_ms + 5000) exclude token rows
        (Reaches-IsSound options rows before) h
  Reaches-IsSound options next (after {rows} before (settled job now attempt changed h)) =
      settle_job-IsSound options.max_attempts options job now attempt rows
        (Reaches-IsSound options rows before) h
  Reaches-IsSound options next (after {rows} before (retried actor id now made h)) =
      retry-IsSound options.max_attempts actor id now rows (Reaches-IsSound options rows before) h

  -- In every state of the outbox that the service and the workers reach, each row has a lease exactly while
  -- it is being sent and a receipt exactly when it was delivered, no more attempts than in total, and no
  -- more attempts than the worker allows.
  pub Reaches-IsWell :
      (options : WorkerOptions) (rows : List OutboxRow)
      → Reaches sha256 options rows
      → All (IsWell options.max_attempts) rows
  Reaches-IsWell options rows reached = (Reaches-IsSound options rows reached).0
