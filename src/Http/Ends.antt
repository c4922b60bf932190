-- ===== src/Http/Ends.antt =====
-- The promise of `waitForServerClose` in packages/http/graceful-close.ts ends once, and the last deadline
-- ends it.
use knowledger.Base.{
  List, [], ◌∷◌, ◌++◌, ℕ, ◌≡◌, refl, sym, subst, ◌∙◌, ◌⊎◌, inl, inr, Bool-cases, Option-cases, Bool,
  true, false, ◌||◌, Option, none, some, Text, if◌then◌else◌, arith,
}
use knowledger.Http.Close.{
  Ending, rejected, Wait, is_settled, finish, release, Event, counted, force_fired, abandon_fired,
  close_called, close_waited, abandon_waited, looked_up, close_failed, on_close, on_abandon, step,
  new_wait,
}
use knowledger.Http.Settled.{false_is_not_true}

finish-ending : (e end : Ending) (w : Wait) → w.ending ≡ some end → (finish e w).ending ≡ some end
unfolding finish
finish-ending e end w h = rw h

if-ending :
    (b : Bool) (v w : Wait) {end : Option Ending}
    → (b ≡ true → v.ending ≡ end)
    → (b ≡ false → w.ending ≡ end)
    → (if b then v else w).ending ≡ end
if-ending true v w f g = f refl
if-ending false v w f g = g refl

settled-true : (w : Wait) (end : Ending) → w.ending ≡ some end → is_settled w ≡ true
unfolding is_settled
settled-true w end h = rw (is_settled, h)

-- An ending is final: no event that comes later changes it.
pub step-ending :
    (e : Event) (w : Wait) (end : Ending) → w.ending ≡ some end → (step e w).ending ≡ some end
unfolding step on_close
step-ending (counted n) w end h = if-ending w.is_counting _ _ (λ k. h) (λ k. h)
step-ending (force_fired error) w end h =
    if-ending (is_settled w || w.has_abandoned || w.is_forced) _ _ (λ k. h)
      (λ k. absurd (ground (arith, settled-true w end h)))
step-ending (abandon_fired error) w end h =
    if-ending (is_settled w || w.has_abandoned) _ _ (λ k. h)
      (λ k. absurd (ground (arith, settled-true w end h)))
step-ending (close_called error) w end h =
    if-ending w.has_called _ _ (λ k. h)
      (λ k.
        if-ending (is_settled w) _ _ (λ s. h)
          (λ s. absurd (false_is_not_true (sym s ∙ settled-true w end h))))
step-ending close_waited w end h =
    if-ending w.is_waiting_close _ _ (λ k. finish-ending _ end _ h) (λ k. h)
step-ending abandon_waited w end h = if-ending w.is_waiting_abandon _ _ (λ k. h) (λ k. h)
step-ending (looked_up remaining) w end h =
    if-ending w.is_looking_up _ _ (λ k. finish-ending _ end _ h) (λ k. h)
step-ending (close_failed error) w end h =
    if-ending w.has_called _ _ (λ k. h) (λ k. finish-ending _ end _ h)

finish-settled : (e : Ending) (w : Wait) → is_settled (finish e w) ≡ true
unfolding finish is_settled
finish-settled e w = elim (Option-cases w.ending) [
  | inl h ↦ rw (finish, h)
  | inr (x, h) ↦ rw (finish, h)
]

if_true : {A : Type 0} (b : Bool) (x y : A) → b ≡ true → (if b then x else y) ≡ x
if_true true x y h = refl
if_true false x y h = absurd (false_is_not_true h)

if_false : {A : Type 0} (b : Bool) (x y : A) → b ≡ false → (if b then x else y) ≡ y
if_false true x y h = absurd (false_is_not_true (sym h))
if_false false x y h = refl

-- The promise has ended, or its last look at the connections is under way.
abbrev IsLooking : Wait → Type 0
IsLooking v = (is_settled v ≡ true) ⊎ (v.is_looking_up ≡ true)

-- The same, or the wait before that look is under way.
abbrev IsUnderWay : Wait → Type 0
IsUnderWay v = (v.is_waiting_abandon ≡ true) ⊎ IsLooking v

on_abandon-IsUnderWay : (error : Option Text) (w : Wait) → IsUnderWay (on_abandon error w)
unfolding on_abandon release
on_abandon-IsUnderWay none w = elim (Bool-cases w.is_counting) [
  | inl e ↦ subst IsUnderWay (sym (if_true w.is_counting _ _ e)) (inl refl)
  | inr e ↦ subst IsUnderWay (sym (if_false w.is_counting _ _ e)) (inl refl)
]
on_abandon-IsUnderWay (some x) w = elim (Bool-cases w.is_counting) [
  | inl e ↦ subst IsUnderWay (sym (if_true w.is_counting _ _ e)) (inl refl)
  | inr e ↦
      subst IsUnderWay (sym (if_false w.is_counting _ _ e))
        (inr (inl (finish-settled (rejected x) _)))
]

step-settled : (e : Event) (w : Wait) → is_settled w ≡ true → is_settled (step e w) ≡ true
unfolding is_settled
step-settled e w h = elim (Option-cases w.ending) [
  | inl k ↦ absurd (ground (arith, k))
  | inr (end, k) ↦ settled-true (step e w) end (step-ending e w end k)
]

if-keeps {ℓ} :
    {A : Type 0} (P : A → Type ℓ) (b : Bool) (x y : A)
    → (b ≡ true → P x)
    → (b ≡ false → P y)
    → P (if b then x else y)
if-keeps P true x y f g = f refl
if-keeps P false x y f g = g refl

-- A release, the callback and the deadline leave what does not look at the ending or at their own variables.
release-waits :
    (error : Option Text) (w : Wait)
    → ((release error w).is_looking_up ≡ w.is_looking_up)
      × ((release error w).is_waiting_abandon ≡ w.is_waiting_abandon)
      × ((release error w).has_abandoned ≡ w.has_abandoned)
unfolding release finish
release-waits none w = (refl, refl, refl)
release-waits (some e) w = (refl, refl, refl)

on_close-waits :
    (error : Option Text) (w : Wait)
    → ((on_close error w).is_looking_up ≡ w.is_looking_up)
      × ((on_close error w).is_waiting_abandon ≡ w.is_waiting_abandon)
      × ((on_close error w).has_abandoned ≡ w.has_abandoned)
unfolding on_close finish
on_close-waits error w = ground arith

on_abandon-looking :
    (error : Option Text) (w : Wait) → (on_abandon error w).is_looking_up ≡ w.is_looking_up
unfolding on_abandon release finish
on_abandon-looking error w = ground arith

on_abandon-waiting :
    (error : Option Text) (w : Wait)
    → w.is_waiting_abandon ≡ true
    → (on_abandon error w).is_waiting_abandon ≡ true
unfolding on_abandon release finish
on_abandon-waiting error w h = ground arith

-- A look that is under way goes on until it ends the promise.
step-is_looking_up : (e : Event) (w : Wait) → w.is_looking_up ≡ true → IsLooking (step e w)
unfolding step finish
step-is_looking_up (counted n) w h = inr (ground arith)
step-is_looking_up (force_fired error) w h = inr (ground (arith, release-waits error w))
step-is_looking_up (abandon_fired error) w h = inr (ground (arith, on_abandon-looking error w))
step-is_looking_up (close_called error) w h = inr (ground (arith, on_close-waits error w))
step-is_looking_up close_waited w h = inr (ground arith)
step-is_looking_up abandon_waited w h = inr (ground arith)
step-is_looking_up (looked_up remaining) w h =
    inl
      (subst (λ v. is_settled v ≡ true) (sym (if_true w.is_looking_up _ _ h)) (finish-settled _ _))
step-is_looking_up (close_failed error) w h = inr (ground arith)

step-IsLooking : (e : Event) (w : Wait) → IsLooking w → IsLooking (step e w)
step-IsLooking e w (inl h) = inl (step-settled e w h)
step-IsLooking e w (inr h) = step-is_looking_up e w h

-- A wait before the look goes on until it starts the look.
step-is_waiting_abandon :
    (e : Event) (w : Wait) → w.is_waiting_abandon ≡ true → IsUnderWay (step e w)
unfolding step finish
step-is_waiting_abandon (counted n) w h = inl (ground arith)
step-is_waiting_abandon (force_fired error) w h = inl (ground (arith, release-waits error w))
step-is_waiting_abandon (abandon_fired error) w h = inl (ground (arith, on_abandon-waiting error w))
step-is_waiting_abandon (close_called error) w h = inl (ground (arith, on_close-waits error w))
step-is_waiting_abandon close_waited w h = inl (ground arith)
step-is_waiting_abandon abandon_waited w h = inr (inr (ground arith))
step-is_waiting_abandon (looked_up remaining) w h = inl (ground arith)
step-is_waiting_abandon (close_failed error) w h = inl (ground arith)

step-IsUnderWay : (e : Event) (w : Wait) → IsUnderWay w → IsUnderWay (step e w)
step-IsUnderWay e w (inl h) = step-is_waiting_abandon e w h
step-IsUnderWay e w (inr h) = inr (step-IsLooking e w h)

-- Once the deadline has passed, the promise has ended or its waits are under way.
abbrev IsTimed : Wait → Type 0
IsTimed w = w.has_abandoned ≡ true → IsUnderWay w

fired-IsUnderWay :
    (error : Option Text) (w : Wait) → IsTimed w → IsUnderWay (step (abandon_fired error) w)
unfolding step
fired-IsUnderWay error w timed =
    if-keeps IsUnderWay (is_settled w || w.has_abandoned) w (on_abandon error w)
      (λ h. elim (Bool-cases w.has_abandoned) [
        | inl k ↦ timed k
        | inr k ↦ inr (inl (ground arith))
      ])
      (λ h. on_abandon-IsUnderWay error w)

step-has_abandoned :
    (e : Event) (w : Wait)
    → w.has_abandoned ≡ false
    → (step e w).has_abandoned ≡ true
    → (error : Option Text) × (e ≡ abandon_fired error)
unfolding step finish
step-has_abandoned (counted n) w h k = absurd (ground arith)
step-has_abandoned (force_fired error) w h k = absurd (ground (arith, release-waits error w))
step-has_abandoned (abandon_fired error) w h k = (error, refl)
step-has_abandoned (close_called error) w h k = absurd (ground (arith, on_close-waits error w))
step-has_abandoned close_waited w h k = absurd (ground arith)
step-has_abandoned abandon_waited w h k = absurd (ground arith)
step-has_abandoned (looked_up remaining) w h k = absurd (ground arith)
step-has_abandoned (close_failed error) w h k = absurd (ground arith)

step-IsTimed : (e : Event) (w : Wait) → IsTimed w → IsTimed (step e w)
step-IsTimed e w timed k = elim (Bool-cases w.has_abandoned) [
  | inl h ↦ step-IsUnderWay e w (timed h)
  | inr h ↦
      let (error, same) = step-has_abandoned e w h k in
      subst (λ x. IsUnderWay (step x w)) (sym same) (fired-IsUnderWay error w timed)
]

-- The end of the wait starts the look, and the end of the look ends the promise.
waited-IsLooking : (w : Wait) → IsUnderWay w → IsLooking (step abandon_waited w)
unfolding step
waited-IsLooking w (inl h) = inr (ground arith)
waited-IsLooking w (inr h) = step-IsLooking abandon_waited w h

looked_up-settled :
    (remaining : Option ℕ) (w : Wait)
    → IsLooking w
    → is_settled (step (looked_up remaining) w) ≡ true
unfolding step
looked_up-settled remaining w (inl h) = step-settled (looked_up remaining) w h
looked_up-settled remaining w (inr h) =
    subst (λ v. is_settled v ≡ true) (sym (if_true w.is_looking_up _ _ h)) (finish-settled _ _)

-- What a sequence of events leads to.
unfoldable pub run : List Event → Wait → Wait
unfolding step
run [] w = w
run (e ∷ es) w = run es (step e w)

run-keeps :
    (P : Wait → Type 0)
    → ((e : Event) (w : Wait) → P w → P (step e w))
    → (es : List Event) (w : Wait) → P w
    → P (run es w)
unfolding run
run-keeps P keeps [] w h = h
run-keeps P keeps (e ∷ es) w h = run-keeps P keeps es (step e w) (keeps e w h)

run-append : (es fs : List Event) (w : Wait) → run (es ++ fs) w ≡ run fs (run es w)
unfolding run
run-append [] fs w = refl
run-append (e ∷ es) fs w = run-append es fs (step e w)

-- The events of the last deadline, among any others: its timer fires, later its wait ends, and later its
-- look at the connections.
abbrev pub deadline :
    Option Text → Option ℕ → List Event → List Event → List Event → List Event → List Event
deadline error remaining before between then_on later =
    before
    ++ (abandon_fired error
        ∷ (between ++ (abandon_waited ∷ (then_on ++ (looked_up remaining ∷ later)))))

-- Whatever events come before the last deadline fires, between it and the ends of its two waits, and after
-- them, also when the release of the connections throws or the callback comes late, the promise is settled.
pub deadline-settled :
    (error : Option Text) (remaining : Option ℕ) (before between then_on later : List Event)
    → is_settled (run (deadline error remaining before between then_on later) new_wait) ≡ true
unfolding run
deadline-settled error remaining before between then_on later =
    let first = run before new_wait in
    let timed =
      run-keeps IsTimed step-IsTimed before new_wait (λ h. absurd (false_is_not_true h)) in
    let fired =
      run-keeps IsUnderWay step-IsUnderWay between (step (abandon_fired error) first)
        (fired-IsUnderWay error first timed) in
    let second = run between (step (abandon_fired error) first) in
    let looking =
      run-keeps IsLooking step-IsLooking then_on (step abandon_waited second)
        (waited-IsLooking second fired) in
    let third = run then_on (step abandon_waited second) in
    let done =
      run-keeps (λ w. is_settled w ≡ true) step-settled later (step (looked_up remaining) third)
        (looked_up-settled remaining third looking) in
    rw (run-append, run-append, run-append) done
