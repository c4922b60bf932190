-- ===== src/Http/Bounds.antt =====
-- The checks of the deadlines in packages/http/graceful-close.ts: those at start-up and those of a close.
use knowledger.Base.{◌≤◌, ◌≡◌, ◌↔◌, refl, Option, none, some, arith}
use knowledger.Fault.{Result, ok, err, ◌>>◌}
use knowledger.Http.Close.{
  Milliseconds, whole, negative, non_finite, plus, max_timeout_ms, default_close_deadline_ms,
  is_finite, is_negative, is_too_long, assert_close_bound, assert_optional_close_bound, or_default,
  assert_close_options,
}

-- A number of milliseconds that a timer can wait.
abbrev pub IsBound : Milliseconds → Type 0
IsBound (whole n) = n ≤ max_timeout_ms
IsBound (negative n) = ⊥
IsBound non_finite = ⊥

assert_close_bound-IsBound : (v : Milliseconds) → assert_close_bound v ≡ ok tt → IsBound v
unfolding assert_close_bound is_finite is_negative is_too_long
assert_close_bound-IsBound (whole n) h = ground arith
assert_close_bound-IsBound (negative n) h = cc
assert_close_bound-IsBound non_finite h = cc

IsBound-assert_close_bound : (v : Milliseconds) → IsBound v → assert_close_bound v ≡ ok tt
unfolding assert_close_bound is_finite is_negative is_too_long
IsBound-assert_close_bound (whole n) h = ground arith
IsBound-assert_close_bound (negative n) h = absurd h
IsBound-assert_close_bound non_finite h = absurd h

all_pass :
    (u v w : Result (Unit {0})) → (u >> (v >> w)) ≡ ok tt → (u ≡ ok tt) × (v ≡ ok tt) × (w ≡ ok tt)
all_pass (err e) v w h = cc
all_pass (ok x) (err e) w h = cc
all_pass (ok x) (ok y) (err e) h = cc
all_pass (ok x) (ok y) (ok z) h = (refl, refl, refl)

pass_all : (u v w : Result (Unit {0})) → u ≡ ok tt → v ≡ ok tt → w ≡ ok tt → (u >> (v >> w)) ≡ ok tt
pass_all u v w p q r = rw (p, q, r)

-- Three bounds, in any order of the first two, are checked.
module _ (a b c : Milliseconds) where
  abbrev Within : Type 0
  Within = IsBound a × IsBound b × IsBound c

  checked-Within :
      (assert_close_bound a >> (assert_close_bound b >> assert_close_bound c)) ≡ ok tt → Within
  checked-Within h =
      let (p, q, r) =
        all_pass (assert_close_bound a) (assert_close_bound b) (assert_close_bound c) h in
      (
        assert_close_bound-IsBound a p,
        assert_close_bound-IsBound b q,
        assert_close_bound-IsBound c r,
      )

  Within-checked :
      Within → (assert_close_bound a >> (assert_close_bound b >> assert_close_bound c)) ≡ ok tt
  Within-checked (p, q, r) =
      pass_all (assert_close_bound a) (assert_close_bound b) (assert_close_bound c)
        (IsBound-assert_close_bound a p) (IsBound-assert_close_bound b q)
        (IsBound-assert_close_bound c r)

-- The same of two bounds.
module _ (a b : Milliseconds) where
  checked-both : (assert_close_bound a >> assert_close_bound b) ≡ ok tt → IsBound a × IsBound b
  checked-both h =
      let (_, p, q) = all_pass (ok tt) (assert_close_bound a) (assert_close_bound b) h in
      (assert_close_bound-IsBound a p, assert_close_bound-IsBound b q)

  both-checked : IsBound a → IsBound b → (assert_close_bound a >> assert_close_bound b) ≡ ok tt
  both-checked p q =
      pass_all (ok tt) (assert_close_bound a) (assert_close_bound b) refl
        (IsBound-assert_close_bound a p) (IsBound-assert_close_bound b q)

-- The start-up check accepts a deadline and a time to settle just when each of them and their sum are finite,
-- not negative and within the bound of timers, the deadline being the default if it is not given; and the
-- close accepts just the same.
pub assert_close_options-assert_optional_close_bound :
    (deadline_ms : Option Milliseconds) (settle_ms : Milliseconds)
    → ((assert_optional_close_bound deadline_ms settle_ms ≡ ok tt) ↔ (
        IsBound (or_default default_close_deadline_ms deadline_ms)
        × IsBound settle_ms
        × IsBound (plus (or_default default_close_deadline_ms deadline_ms) settle_ms)))
      × ((assert_close_options deadline_ms (some settle_ms) ≡ ok tt)
          ↔ (assert_optional_close_bound deadline_ms settle_ms ≡ ok tt))
unfolding assert_close_options assert_optional_close_bound or_default
assert_close_options-assert_optional_close_bound (some value) settle_ms =
    let sum = plus value settle_ms in
    (
      (
        (λ h. let (s, v, b) = checked-Within settle_ms value sum h in (v, s, b)),
        (λ (v, s, b). Within-checked settle_ms value sum (s, v, b)),
      ),
      (
        (λ h.
            let (v, s, b) = checked-Within value settle_ms sum h in
            Within-checked settle_ms value sum (s, v, b)),
        (λ h.
            let (s, v, b) = checked-Within settle_ms value sum h in
            Within-checked value settle_ms sum (v, s, b)),
      ),
    )
assert_close_options-assert_optional_close_bound none settle_ms =
    let fallback = default_close_deadline_ms in
    let sum = plus fallback settle_ms in
    let within : IsBound fallback = omega arith in
    (
      (
        (λ h. let (s, b) = checked-both settle_ms sum h in (within, s, b)),
        (λ (v, s, b). both-checked settle_ms sum s b),
      ),
      (
        (λ h.
            let (v, s, b) = checked-Within fallback settle_ms sum h in
            both-checked settle_ms sum s b),
        (λ h.
            let (s, b) = checked-both settle_ms sum h in
            Within-checked fallback settle_ms sum (within, s, b)),
      ),
    )
