-- ===== src/Http/Settled.antt =====
-- What the ending of `waitForServerClose` in packages/http/graceful-close.ts says of the close.
use knowledger.Base.{◌≡◌, Bool, true, false, ◌&&◌, Option, none, some}
use knowledger.Http.Close.{closed, forced, abandoned, Ending, resolved, rejected, Wait}

-- What an ending tells of the variables: whether connections were released by force, whether the last
-- deadline has passed, and whether the callback came before it.
abbrev pub Honest : Option Ending → Bool → Bool → Bool → Type 0
Honest none was_forced late arrived = Unit
Honest (some (rejected e)) was_forced late arrived = Unit
Honest (some (resolved closed)) was_forced late arrived = was_forced ≡ false
Honest (some (resolved (forced n))) was_forced late arrived = was_forced ≡ true
Honest (some (resolved (abandoned n m l))) was_forced late arrived =
    (was_forced ≡ true) × (late ≡ true) × (arrived ≡ false)

abbrev pub IsHonest : Wait → Type 0
IsHonest w = Honest w.ending w.is_forced w.has_abandoned w.has_close_arrived

pub record IsSound (w : Wait) : Type 0 where
  pub honest : IsHonest w
  pub counting : w.is_counting ≡ w.is_forced
  pub waiting_close : w.is_waiting_close ≡ true → w.is_forced ≡ true
  pub waiting_abandon : w.is_waiting_abandon ≡ true → (w.is_forced && w.has_abandoned) ≡ true
  pub looking_up : w.is_looking_up ≡ true → (w.is_forced && w.has_abandoned) ≡ true

pub false_is_not_true : false ≡ true → ⊥
false_is_not_true h = cc
