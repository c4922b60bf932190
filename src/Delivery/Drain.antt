-- ===== src/Delivery/Drain.antt =====
-- A run of `drain` of packages/review/delivery-worker.ts ends: it attempts at most 20 deliveries, and none
-- of them twice.
use knowledger.Base.{
  ℕ, zero, suc, ◌+◌, ◌≤◌, ◌≡◌, ◌≢◌, inl, inr, refl, sym, ap, subst, ◌∙◌, false, not, ◌||◌, List, [],
  ◌∷◌, ◌++◌, Option, none, some, Text, text_eq, text_eq_refl, includes, any, all, length,
  length-append, ltb, All, All-append, Bool-cases, Option-cases, some_eq, arith,
}
use knowledger.Fault.{ok, thrown_error, fail_if, >>=-eq-ok, ok_eq}
use knowledger.Contracts.Identifiers.{is_id}
use knowledger.Delivery.Outbox.{OutboxRow, is_due, first_due, lease_row, job, claim, claim_row}
use knowledger.Delivery.Worker.{WorkerOptions, Turn, settle_job, take_turn, drain_turns, drain}
use knowledger.Delivery.Leases.{first_due-In}
use knowledger.Delivery.Steps.{job-eq, lease_row-id}

abbrev pub NoRepeats : List Text → Type 0
NoRepeats [] = Unit
NoRepeats (t ∷ ts) = All (λ s. s ≢ t) ts × NoRepeats ts

snoc-NoRepeats :
    (t : Text) (ts : List Text) → includes t ts ≡ false → NoRepeats ts → NoRepeats (ts ++ (t ∷ []))
unfolding includes any
snoc-NoRepeats t [] h hs = (tt, tt)
snoc-NoRepeats t (s ∷ ss) h hs = elim (Bool-cases (text_eq t s)) [
  | inl e ↦ absurd (ground (arith, e))
  | inr e ↦ (
    All-append (λ u. u ≢ s) ss (t ∷ []) hs.0
        ((λ k. ground (arith, text_eq_refl s, subst (λ u. text_eq u s ≡ false) k e)), tt),
    snoc-NoRepeats t ss (rw e at h) hs.1,
  )
]

module _ (sha256 : List ℕ → Text) where
  claim_row-fresh :
      (until now : ℕ) (exclude : List Text) (token : Text) (rows : List OutboxRow)
      (c : Option OutboxRow) {r : OutboxRow} {next : List OutboxRow}
      → first_due (is_due now exclude) rows ≡ c
      → claim_row sha256 until token c rows ≡ ok (some r, next)
      → includes r.delivery_id exclude ≡ false
  unfolding claim_row is_due
  claim_row-fresh until now exclude token rows none e h = cc
  claim_row-fresh until now exclude token rows (some c) {r} e h =
      let (j1, k1, h1) = >>=-eq-ok (job sha256 c) _ h in
      let (j2, k2, h2) = >>=-eq-ok (job sha256 (lease_row token until c)) _ h1 in
      let due = (first_due-In (is_due now exclude) rows e).1 in
      let own : c.delivery_id ≡ r.delivery_id =
        sym (lease_row-id token until c)
        ∙ ap (λ (x : OutboxRow). x.delivery_id)
            ((job-eq sha256 (lease_row token until c) k2).0
              ∙ some_eq (ap (λ (p : Option OutboxRow × List OutboxRow). p.0) (ok_eq h2))) in
      subst (λ t. includes t exclude ≡ false) own (ground arith)

  -- A claim gives no delivery that is excluded.
  claim-fresh :
      (now lease_ms max : ℕ) (exclude : List Text) (token : Text) (rows : List OutboxRow)
      {r : OutboxRow} {next : List OutboxRow}
      → claim sha256 now lease_ms max exclude token rows ≡ ok (some r, next)
      → includes r.delivery_id exclude ≡ false
  unfolding claim
  claim-fresh now lease_ms max exclude token rows h =
      let (u, checked, rest) =
        >>=-eq-ok (fail_if (ltb 20 (length exclude) || not (all is_id exclude)) thrown_error) _ h in
      claim_row-fresh (now + lease_ms) now exclude token _ _ refl rest

  none_is_not_some : {t : Text} → none ≡ some t → ⊥
  none_is_not_some h = cc

  take_turn-fresh :
      (options : WorkerOptions) (turn : Turn) (attempted : List Text) (rows : List OutboxRow)
      (c : Option Text × List OutboxRow) (id : Text)
      → take_turn sha256 options turn attempted rows ≡ ok c
      → c.0 ≡ some id
      → includes id attempted ≡ false
  unfolding take_turn
  take_turn-fresh options turn attempted rows c id h e =
      let (k, claimed, h1) =
        >>=-eq-ok
          (claim sha256 turn.claimed_at (options.timeout_ms + 5000) options.max_attempts attempted
            turn.token rows)
          _ h in
      elim (Option-cases k.0) [
        | inl none_due ↦ absurd (
            none_is_not_some
              (ap (λ (p : Option Text × List OutboxRow). p.0) (ok_eq (rw none_due at h1)) ∙ e))
        | inr (held, found) ↦
            let (settled, e2, h2) =
              >>=-eq-ok (settle_job options held turn.settled_at (turn.attempt held) k.1) _
                (rw found at h1) in
            let same : held.delivery_id ≡ id =
              some_eq (ap (λ (p : Option Text × List OutboxRow). p.0) (ok_eq h2) ∙ e) in
            subst (λ t. includes t attempted ≡ false) same
              (claim-fresh turn.claimed_at (options.timeout_ms + 5000) options.max_attempts
                attempted turn.token rows
                (subst
                  (λ o.
                    claim sha256 turn.claimed_at (options.timeout_ms + 5000) options.max_attempts
                      attempted turn.token rows
                    ≡ ok (o, k.1))
                  found claimed))
      ]

  module _ (options : WorkerOptions) where
    drain_turns-NoRepeats :
        (left : ℕ) (turns : List Turn) (attempted : List Text) (rows : List OutboxRow)
        {done : List Text} {next : List OutboxRow}
        → NoRepeats attempted
        → drain_turns sha256 options left turns attempted rows ≡ ok (done, next)
        → NoRepeats done × (length done ≤ length attempted + left)
    unfolding drain_turns
    drain_turns-NoRepeats zero turns attempted rows hs h =
        subst (λ ds. NoRepeats ds × (length ds ≤ length attempted + 0))
          (ap (λ (p : List Text × List OutboxRow). p.0) (ok_eq h)) (hs, omega arith)
    drain_turns-NoRepeats (suc left) [] attempted rows hs h =
        subst (λ ds. NoRepeats ds × (length ds ≤ length attempted + suc left))
          (ap (λ (p : List Text × List OutboxRow). p.0) (ok_eq h)) (hs, omega arith)
    drain_turns-NoRepeats (suc left) (turn ∷ turns) attempted rows hs h =
        let (c, took, h1) = >>=-eq-ok (take_turn sha256 options turn attempted rows) _ h in
        elim (Option-cases c.0) [
          | inl e ↦
              subst (λ ds. NoRepeats ds × (length ds ≤ length attempted + suc left))
                (ap (λ (p : List Text × List OutboxRow). p.0) (ok_eq (rw e at h1)))
                (hs, omega arith)
          | inr (id, e) ↦
              let fresh = take_turn-fresh options turn attempted rows c id took e in
              let rest =
                drain_turns-NoRepeats left turns (attempted ++ (id ∷ [])) c.1
                  (snoc-NoRepeats id attempted fresh hs) (rw e at h1) in
              (rest.0, omega (arith, rest.1, length-append attempted (id ∷ [])))
        ]

    -- A run of the worker attempts no delivery twice, and at most 20.
    pub drain-NoRepeats :
        (turns : List Turn) (rows : List OutboxRow) {attempted : List Text} {next : List OutboxRow}
        → drain sha256 options turns rows ≡ ok (attempted, next)
        → NoRepeats attempted × (length attempted ≤ 20)
    unfolding drain
    drain-NoRepeats turns rows h = drain_turns-NoRepeats 20 turns [] rows tt h
