-- ===== src/Delivery/Leases.antt =====
-- The rows of the outbox of packages/storage/review-delivery-store.ts: a lease belongs to a job that is
-- being sent, a receipt to one that was delivered, and no job is attempted too often.
use knowledger.Base.{
  ℕ, ◌≤◌, ◌≡◌, ◌≢◌, ◌⊎◌, inl, inr, refl, sym, ap, subst, ◌∙◌, Bool, true, false, List, [], ◌∷◌,
  some, Text, text, find, leb, All, All-map, Bool-cases, Option-cases, some_eq, arith,
}
use knowledger.Fault.{Result-cases}
use knowledger.Delivery.Packet.{packet_of, validate_review_receipt}
use knowledger.Delivery.Outbox.{
  is_pending, is_sending, is_delivered, OutboxRow, is_set, is_retryable, has_lease, same_test,
  update, fail_row, is_expired, is_exhausted, is_due, earlier_of, first_due, lease_row, settle_row,
  retry_row,
}
use knowledger.Delivery.Worker.{
  WorkerOptions, Attempt, Settlement, receipt_of, refused, thrown, settle_failure, settlement,
}

-- What holds of each row under the worker's limit of attempts.
pub record IsWell (max_attempts : ℕ) (r : OutboxRow) : Type 0 where
  pub leased : has_lease r ≡ true
  pub receipted : same_test (is_delivered r.status) (is_set r.receipt) ≡ true
  pub counted : r.attempts ≤ r.total_attempts
  pub limited : r.attempts ≤ max_attempts

abbrev pub Distinct : List OutboxRow → Type 0
Distinct [] = Unit
Distinct (r ∷ rs) = All (λ s. s.delivery_id ≢ r.delivery_id) rs × Distinct rs

abbrev pub In : OutboxRow → List OutboxRow → Type 0
In c [] = ⊥
In c (r ∷ rs) = (c ≡ r) ⊎ In c rs

pub In-All :
    (P : OutboxRow → Type 0) (c : OutboxRow) (rows : List OutboxRow) → In c rows → All P rows → P c
In-All P c [] m hs = absurd m
In-All P c (r ∷ rs) (inl e) hs = subst P (sym e) hs.0
In-All P c (r ∷ rs) (inr m) hs = In-All P c rs m hs.1

-- The row of a delivery is the only one.
pub In-only :
    (c : OutboxRow) (rows : List OutboxRow)
    → In c rows
    → Distinct rows
    → All (λ r. r.delivery_id ≡ c.delivery_id → r ≡ c) rows
In-only c [] m hs = tt
In-only c (r ∷ rs) (inl e) hs = (
  λ k. sym e,
  All-map {Q = λ s. s.delivery_id ≡ c.delivery_id → s ≡ c}
      (λ s h k. absurd (h (k ∙ ap (λ (x : OutboxRow). x.delivery_id) e))) rs hs.0,
)
In-only c (r ∷ rs) (inr m) hs = (
  λ k. absurd (In-All (λ s. s.delivery_id ≢ r.delivery_id) c rs m hs.0 (sym k)),
  In-only c rs m hs.1,
)

pub first_due-In :
    (test : OutboxRow → Bool) (rows : List OutboxRow) {c : OutboxRow}
    → first_due test rows ≡ some c
    → In c rows × (test c ≡ true)
unfolding first_due earlier_of
first_due-In test [] h = ground arith
first_due-In test (r ∷ rs) {c} h = elim (Bool-cases (test r)) [
  | inr e ↦ let rest = first_due-In test rs (rw e at h) in (inr rest.0, rest.1)
  | inl e ↦ elim (Option-cases (first_due test rs)) [
    | inl k ↦ let same : c ≡ r = sym (some_eq (rw (e, k) at h)) in (inl same, rw same e)
    | inr (o, k) ↦ elim (Bool-cases (leb r.next_attempt_at o.next_attempt_at)) [
      | inl first ↦
          let same : c ≡ r = sym (some_eq (rw (e, k, first) at h)) in (inl same, rw same e)
      | inr later ↦
          let rest = first_due-In test rs k in
          let same : c ≡ o = sym (some_eq (rw (e, k, later) at h)) in
          (
            inr (subst (λ x. In x rs) (sym same) rest.0),
            subst (λ x. test x ≡ true) (sym same) rest.1,
          )
    ]
  ]
]

pub update-All :
    (P Q : OutboxRow → Type 0) (test : OutboxRow → Bool) (change : OutboxRow → OutboxRow)
    (rows : List OutboxRow)
    → ((r : OutboxRow) → test r ≡ true → P r → Q (change r))
    → ((r : OutboxRow) → test r ≡ false → P r → Q r)
    → All P rows
    → All Q (update test change rows)
unfolding update
update-All P Q test change [] f g hs = tt
update-All P Q test change (r ∷ rs) f g hs = elim (Bool-cases (test r)) [
  | inl e ↦ rw e (f r e hs.0, update-All P Q test change rs f g hs.1)
  | inr e ↦ rw e (g r e hs.0, update-All P Q test change rs f g hs.1)
]

pub update-Distinct :
    (test : OutboxRow → Bool) (change : OutboxRow → OutboxRow) (rows : List OutboxRow)
    → ((r : OutboxRow) → (change r).delivery_id ≡ r.delivery_id)
    → Distinct rows
    → Distinct (update test change rows)
unfolding update
update-Distinct test change [] same hs = tt
update-Distinct test change (r ∷ rs) same hs =
    let apart = λ (id : Text) (eq : id ≡ r.delivery_id).
      update-All (λ s. s.delivery_id ≢ r.delivery_id) (λ s. s.delivery_id ≢ id) test change rs
        (λ s e h k. h (sym (same s) ∙ k ∙ eq)) (λ s e h k. h (k ∙ eq)) hs.0 in
    elim (Bool-cases (test r)) [
      | inl e ↦
          rw e (apart (change r).delivery_id (same r), update-Distinct test change rs same hs.1)
      | inr e ↦ rw e (apart r.delivery_id refl, update-Distinct test change rs same hs.1)
    ]

pub find-In :
    (test : OutboxRow → Bool) (rows : List OutboxRow) {c : OutboxRow}
    → find test rows ≡ some c
    → In c rows × (test c ≡ true)
unfolding find
find-In test [] h = ground arith
find-In test (r ∷ rs) {c} h = elim (Bool-cases (test r)) [
  | inl e ↦ let same : c ≡ r = sym (some_eq (rw e at h)) in (inl same, rw same e)
  | inr e ↦ let rest = find-In test rs (rw e at h) in (inr rest.0, rest.1)
]

module _ (max : ℕ) where
  pub fail_row-IsWell :
      (now : ℕ) (r : OutboxRow)
      → is_exhausted now max r ≡ true
      → IsWell max r
      → IsWell max (fail_row r)
  unfolding is_exhausted fail_row is_expired is_pending is_sending is_delivered has_lease same_test
      is_set
  fail_row-IsWell now r h well = record {
    leased = refl;
    receipted = ground (arith, well.receipted);
    counted = well.counted;
    limited = well.limited;
  }

  -- A row that is left to be claimed has attempts left.
  abbrev pub IsLeft : ℕ → List Text → OutboxRow → Type 0
  IsLeft now exclude r = IsWell max r × (is_due now exclude r ≡ true → leb max r.attempts ≡ false)

  pub failed-IsLeft :
      (now : ℕ) (exclude : List Text) (r : OutboxRow)
      → is_due now exclude (fail_row r) ≡ true
      → leb max r.attempts ≡ false
  unfolding is_due fail_row is_pending is_expired is_sending
  failed-IsLeft now exclude r h = ground arith

  pub held-IsLeft :
      (now : ℕ) (exclude : List Text) (r : OutboxRow)
      → is_exhausted now max r ≡ false
      → is_due now exclude r ≡ true
      → leb max r.attempts ≡ false
  unfolding is_due is_exhausted
  held-IsLeft now exclude r h k = ground arith

  pub lease_row-IsWell :
      (token : Text) (until now : ℕ) (exclude : List Text) (r : OutboxRow)
      → is_due now exclude r ≡ true
      → has_lease (lease_row token until r) ≡ true
      → leb max r.attempts ≡ false
      → IsWell max r
      → IsWell max (lease_row token until r)
  unfolding is_due lease_row is_pending is_expired is_sending is_delivered same_test
  lease_row-IsWell token until now exclude r due leased left well =
      let counted : r.attempts ≤ r.total_attempts = well.counted in
      record {
        leased = leased;
        receipted = ground (arith, well.receipted);
        counted = omega arith;
        limited = ground arith;
      }

  pub retry_row-IsWell :
      (now : ℕ) (r : OutboxRow)
      → is_retryable r.status ≡ true
      → IsWell max r
      → IsWell max (retry_row now r)
  unfolding is_retryable retry_row is_sending is_delivered same_test has_lease is_set
  retry_row-IsWell now r h well = record {
    leased = refl;
    receipted = ground (arith, well.receipted);
    counted = omega arith;
    limited = omega arith;
  }

  -- A settlement is no lease, and has a receipt when it is a delivery.
  abbrev pub IsSettled : Settlement → Type 0
  IsSettled s =
      (is_sending s.status ≡ false) × (same_test (is_delivered s.status) (is_set s.receipt) ≡ true)

  settle_failure-IsSettled :
      (o : WorkerOptions) (j : OutboxRow) (now : ℕ) (code : Text) (retryable : Bool)
      → IsSettled (settle_failure o j now code retryable)
  unfolding settle_failure is_sending is_delivered same_test is_set
  settle_failure-IsSettled o j now code retryable = (ground arith, ground arith)

  pub settlement-IsSettled :
      (o : WorkerOptions) (j : OutboxRow) (now : ℕ) (a : Attempt) → IsSettled (settlement o j now a)
  unfolding settlement is_sending is_delivered same_test is_set
  settlement-IsSettled o j now (receipt_of receipt) =
      elim (Result-cases (validate_review_receipt receipt (packet_of j.packet))) [
        | inl (e, h) ↦
            rw (settlement, h)
              (settle_failure-IsSettled o j now (text "INVALID_DELIVERY_RECEIPT") true)
        | inr (checked, h) ↦ rw (settlement, h) (refl, refl)
      ]
  settlement-IsSettled o j now (refused code retryable) =
      settle_failure-IsSettled o j now code retryable
  settlement-IsSettled o j now thrown =
      settle_failure-IsSettled o j now (text "DELIVERY_UNAVAILABLE") true

  pub settle_row-IsWell :
      (s : Settlement) (r : OutboxRow)
      → IsSettled s
      → IsWell max r
      → IsWell max (settle_row s.status s.at s.code s.receipt r)
  unfolding settle_row has_lease is_set
  settle_row-IsWell s r h well = record {
    leased = rw h.0;
    receipted = h.1;
    counted = well.counted;
    limited = well.limited;
  }

  abbrev pub IsSound : List OutboxRow → Type 0
  IsSound rows = All (IsWell max) rows × Distinct rows
