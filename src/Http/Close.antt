-- ===== src/Http/Close.antt =====
-- packages/http/graceful-close.ts: the bounds on the deadlines, and `waitForServerClose` as a state that
-- its timers, the callback of `close` and the counts of connections change.
use knowledger.Base.{
  ℕ, suc, not, ◌-◌, ◌+◌, Bool, true, false, ◌&&◌, ◌||◌, Option, none, some, Text, ltb,
  if◌then◌else◌,
}
use knowledger.Fault.{Result, thrown_error, fail_if, ◌>>◌}

-- A number of milliseconds: a whole one, -(n + 1), or NaN or an infinity.
pub data Milliseconds : Type 0 where
  whole : ℕ → Milliseconds
  negative : ℕ → Milliseconds
  non_finite : Milliseconds

-- Addition. The numbers that are added have passed `assertCloseBound` or are small, so that it is exact.
unfoldable pub plus : Milliseconds → Milliseconds → Milliseconds
plus (whole m) (whole n) = whole (m + n)
plus (whole m) (negative n) = if ltb n m then whole (m - suc n) else negative (n - m)
plus (negative m) (whole n) = if ltb m n then whole (n - suc m) else negative (m - n)
plus (negative m) (negative n) = negative (suc (m + n))
plus non_finite _ = non_finite
plus (whole m) non_finite = non_finite
plus (negative m) non_finite = non_finite

abbrev pub default_close_deadline_ms : Milliseconds
default_close_deadline_ms = whole 5000

abbrev pub default_settle_ms : Milliseconds
default_settle_ms = whole 250

-- `MAX_TIMEOUT_MS`, which is 2147483647.
abbrev pub max_timeout_ms : ℕ
max_timeout_ms = 2147483647

unfoldable pub is_finite : Milliseconds → Bool
is_finite (whole n) = true
is_finite (negative n) = true
is_finite non_finite = false

unfoldable pub is_negative : Milliseconds → Bool
is_negative (negative n) = true
is_negative value = false

unfoldable pub is_too_long : Milliseconds → Bool
is_too_long (whole n) = ltb max_timeout_ms n
is_too_long value = false

-- `assertCloseBound(value, name)`
unfoldable pub assert_close_bound : Milliseconds → Result (Unit {0})
unfolding is_finite is_negative is_too_long
assert_close_bound value =
    fail_if (not (is_finite value) || is_negative value || is_too_long value) thrown_error

unfoldable pub assert_optional_close_bound : Option Milliseconds → Milliseconds → Result (Unit {0})
unfolding assert_close_bound plus
assert_optional_close_bound none settle_ms = do
  assert_close_bound settle_ms
  assert_close_bound (plus default_close_deadline_ms settle_ms)
assert_optional_close_bound (some value) settle_ms = do
  assert_close_bound settle_ms
  assert_close_bound value
  assert_close_bound (plus value settle_ms)

unfoldable pub or_default : Milliseconds → Option Milliseconds → Milliseconds
or_default value none = value
or_default value (some given) = given

-- The checks at the start of `closeHttpServer`.
unfoldable pub assert_close_options : Option Milliseconds → Option Milliseconds → Result (Unit {0})
unfolding or_default assert_close_bound plus
assert_close_options deadline_ms settle_ms = do
  let deadline = or_default default_close_deadline_ms deadline_ms
  let settle = or_default default_settle_ms settle_ms
  assert_close_bound deadline
  assert_close_bound settle
  assert_close_bound (plus deadline settle)

-- `CloseWaitResult`; a count that is not known is none.
pub data CloseWaitResult : Type 0 where
  closed : CloseWaitResult
  forced : Option ℕ → CloseWaitResult
  abandoned : Option ℕ → Option ℕ → Bool → CloseWaitResult

-- How the promise ends.
pub data Ending : Type 0 where
  resolved : CloseWaitResult → Ending
  rejected : Text → Ending

-- The variables of the promise, the waits that are under way, and whether the callback has come.
pub record Wait : Type 0 where
  pub ending : Option Ending
  pub is_forced : Bool
  pub has_abandoned : Bool
  pub has_close_arrived : Bool
  pub has_late_close : Bool
  pub connections : Option ℕ
  pub is_counting : Bool
  pub close_error : Option Text
  pub has_called : Bool
  pub is_waiting_close : Bool
  pub is_waiting_abandon : Bool
  pub is_looking_up : Bool

abbrev pub new_wait : Wait
new_wait = record {
  ending = none;
  is_forced = false;
  has_abandoned = false;
  has_close_arrived = false;
  has_late_close = false;
  connections = none;
  is_counting = false;
  close_error = none;
  has_called = false;
  is_waiting_close = false;
  is_waiting_abandon = false;
  is_looking_up = false;
}

unfoldable pub is_settled : Wait → Bool
is_settled w = elim w.ending [ none ↦ false | some e ↦ true ]

-- `finish(settle)`
unfoldable pub finish : Ending → Wait → Wait
finish e w = record w { ending = elim w.ending [ none ↦ some e | some first ↦ some first ] }

-- `release()`, with what `closeAllConnections` throws.
unfoldable pub release : Option Text → Wait → Wait
release none w = record w { is_forced = true; is_counting = true }
release (some e) w = finish (rejected e) (record w { is_forced = true; is_counting = true })

-- `settleClose`
unfoldable pub close_ending : Wait → Ending
close_ending w = elim w.close_error [
  | some e ↦ rejected e
  | none ↦ resolved (if w.is_forced then forced w.connections else closed)
]

-- The ending of the deadline, with the connections that are left.
unfoldable pub abandon_ending : Option ℕ → Wait → Ending
abandon_ending remaining w = elim w.close_error [
  | some e ↦ rejected e
  | none ↦ resolved (
      if w.has_close_arrived
      then forced w.connections
      else abandoned w.connections remaining w.has_late_close)
]

-- What the event loop brings: a count, the two timers with what the release of the connections throws, the
-- callback with its error, the ends of the waits, and a failure of `server.close` itself.
pub data Event : Type 0 where
  counted : Option ℕ → Event
  force_fired : Option Text → Event
  abandon_fired : Option Text → Event
  close_called : Option Text → Event
  close_waited : Event
  abandon_waited : Event
  looked_up : Option ℕ → Event
  close_failed : Text → Event

-- The callback of `close`, which comes once.
unfoldable pub on_close : Option Text → Wait → Wait
on_close error w =
    let called = record w { has_called = true; close_error = error } in
    if is_settled w
    then called
    else if w.has_abandoned
    then record called { has_late_close = elim error [ none ↦ true | some e ↦ w.has_late_close ] }
    else let arrived = record called { has_close_arrived = true } in
      if w.is_forced && w.is_counting
      then record arrived { is_waiting_close = true }
      else finish (close_ending arrived) arrived

-- The timer of the deadline. It clears the other timer, and releases what was not released.
unfoldable pub on_abandon : Option Text → Wait → Wait
on_abandon error w =
    let late = record w { has_abandoned = true } in
    let waiting = λ (v : Wait). record v { is_waiting_abandon = true } in
    if w.is_counting
    then waiting late
    else elim error [ none ↦ waiting (release none late) | some e ↦ release (some e) late ]

-- An event that cannot come in a state (a timer that was cleared or has fired, a wait that is not under
-- way) leaves it as it is.
unfoldable pub step : Event → Wait → Wait
step (counted n) w = if w.is_counting then record w { connections = n } else w
step (force_fired error) w =
    if is_settled w || w.has_abandoned || w.is_forced then w else release error w
step (abandon_fired error) w = if is_settled w || w.has_abandoned then w else on_abandon error w
step (close_called error) w = if w.has_called then w else on_close error w
step close_waited w =
    if w.is_waiting_close
    then finish (close_ending w) (record w { is_waiting_close = false })
    else w
step abandon_waited w =
    if w.is_waiting_abandon
    then record w { is_waiting_abandon = false; is_looking_up = true }
    else w
step (looked_up remaining) w =
    if w.is_looking_up
    then finish (abandon_ending remaining w) (record w { is_looking_up = false })
    else w
step (close_failed error) w = if w.has_called then w else finish (rejected error) w

-- The states of a wait.
pub data Reaches : Wait → Type 0 where
  start : Reaches new_wait
  after : {w : Wait} (e : Event) → Reaches w → Reaches (step e w)
