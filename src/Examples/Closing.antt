-- ===== src/Examples/Closing.antt =====
-- A close of packages/http/graceful-close.ts whose callback does not come.
use knowledger.Base.{◌↔◌, [], ◌∷◌, true, false, none, some, ◌≡◌, refl}
use knowledger.Fault.{ok}
use knowledger.Http.Close.{
  whole, negative, plus, close_called, close_waited, or_default, default_close_deadline_ms,
  assert_optional_close_bound, assert_close_options, abandoned, resolved, Wait, new_wait,
  is_settled, finish, release, close_ending, abandon_ending, counted, force_fired, abandon_fired,
  abandon_waited, looked_up, on_close, on_abandon, step,
}
use knowledger.Http.Bounds.{IsBound, assert_close_options-assert_optional_close_bound}
use knowledger.Http.Ends.{run, deadline, step-ending, deadline-settled}

-- The first deadline releases three connections.
abbrev released : Wait
released = step (counted (some 3)) (step (force_fired none) new_wait)

abbrev given_up : Wait
given_up = step (looked_up none) (step abandon_waited (step (abandon_fired none) released))

record EndingFacts : Type 0 where
  gives_up : given_up.ending ≡ some (resolved (abandoned (some 3) none false))

facts : EndingFacts
unfolding step on_abandon on_close release finish is_settled abandon_ending close_ending
facts = record { gives_up = refl }

step-ending_example :
    (step (counted (some 9)) given_up).ending ≡ some (resolved (abandoned (some 3) none false))
step-ending_example =
    step-ending (counted (some 9)) given_up (resolved (abandoned (some 3) none false))
      facts.gives_up

-- The callback comes late, between the deadline and the end of its first wait.
deadline-settled_example :
    is_settled (
      run
        (deadline none
          (some 1)
          (force_fired none ∷ counted (some 3) ∷ [])
          (close_called none ∷ [])
          (close_waited ∷ [])
          [])
        new_wait)
    ≡ true
deadline-settled_example =
    deadline-settled none (some 1) (force_fired none ∷ counted (some 3) ∷ [])
      (close_called none ∷ []) (close_waited ∷ []) []

assert_close_options-assert_optional_close_bound_example :
    ((assert_optional_close_bound (some (whole 6000)) (negative 99) ≡ ok tt) ↔ (
      IsBound (or_default default_close_deadline_ms (some (whole 6000)))
      × IsBound (negative 99)
      × IsBound (plus (or_default default_close_deadline_ms (some (whole 6000))) (negative 99))))
    × ((assert_close_options (some (whole 6000)) (some (negative 99)) ≡ ok tt)
        ↔ (assert_optional_close_bound (some (whole 6000)) (negative 99) ≡ ok tt))
assert_close_options-assert_optional_close_bound_example =
    assert_close_options-assert_optional_close_bound (some (whole 6000)) (negative 99)
