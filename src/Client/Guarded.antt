-- ===== src/Client/Guarded.antt =====
-- `guardedGeneration` of packages/client/guarded-generation.ts. Its result comes with the calls that it
-- made, in their order. The answers of the client, of the callbacks and of the check of a refreshed
-- manifest are an `Adapter`; an error of a callback is the outcome `threw`.
use knowledger.Base.{
  ℕ, Bool, false, ◌&&◌, ◌||◌, List, [], ◌∷◌, Option, none, some, Text, text, leb, ◌==◌,
  if◌then◌else◌,
}
use knowledger.Fault.{Result, ok, thrown_error, require, ◌>>◌}
use knowledger.Json.{Json}
use knowledger.Contracts.Identifiers.{is_letter, is_digit, is_id_char, repeated}

-- What aborts the signal of the controller: the timer or the signal of the caller.
pub data Interruption : Type 0 where
  timed_out : Interruption
  cancelled : Interruption

-- How `run` ends: with the value of the operation, with its error, or by the signal, after or before
-- the operation was called.
pub data Outcome (V : Type 0) : Type 0 where
  returned : V → Outcome V
  threw : Outcome V
  interrupted : Interruption → Outcome V
  not_started : Interruption → Outcome V

pub data Phase : Type 0 where
  generate_phase : Phase
  release_phase : Phase

-- A manifest that the client has validated: its run, and all of it.
pub record Manifest : Type 0 where
  pub run_id : Text
  pub content : Json

pub data Resolution : Type 0 where
  resolved : List Json → Manifest → Resolution
  unresolved : Option Text → Resolution

pub data Revalidation : Type 0 where
  valid : Json → Revalidation
  not_valid : Option Text → Revalidation

pub data Call : Type 0 where
  resolving : Call
  authorizing : Phase → Manifest → Call
  revalidating : Phase → Text → Call
  generating : List Json → Manifest → Call

pub record Adapter : Type 0 where
  pub resolve : Outcome Resolution
  pub authorize : Phase → Manifest → Outcome Bool
  pub revalidate : Phase → Text → Outcome Revalidation
  -- `validateRefreshedManifest(manifest, value)`, and none where it throws.
  pub validate_refreshed : Manifest → Json → Option Manifest
  pub generate : List Json → Manifest → Outcome Json
  -- The signal at the end.
  pub signal : Option Interruption

pub data GuardedGenerationResult : Type 0 where
  provided : Json → Manifest → GuardedGenerationResult
  withheld_for : Text → GuardedGenerationResult

abbrev pub Traced : Type 0
Traced = List Call × GuardedGenerationResult

abbrev is_upper : ℕ → Bool
is_upper c = leb b'A' c && leb c b'Z'

-- `/^[A-Z][A-Z0-9_]{1,63}$/`
unfoldable pub is_reason : Text → Bool
unfolding repeated
is_reason [] = false
is_reason (c ∷ cs) = is_upper c && repeated (λ d. is_upper d || is_digit d || d == b'_') 1 63 cs

unfoldable pub withheld : Text → GuardedGenerationResult
unfolding is_reason
withheld reason = withheld_for (if is_reason reason then reason else text "KNOWLEDGE_UNAVAILABLE")

-- `reason ?? code`
unfoldable pub reason_or : Text → Option Text → Text
reason_or code none = code
reason_or code (some reason) = reason

unfoldable pub interruption : Interruption → GuardedGenerationResult
unfolding withheld
interruption timed_out = withheld (text "TIMEOUT")
interruption cancelled = withheld (text "GENERATION_CANCELLED")

-- An awaited `run` of an operation, the phase that is reported when it throws, and what comes behind it.
unfoldable pub await_run : {V : Type 0} → Call → Text → Outcome V → (V → Traced) → Traced
unfolding withheld interruption
await_run call phase (returned v) next = (call ∷ (next v).0, (next v).1)
await_run call phase threw next = (call ∷ [], withheld phase)
await_run call phase (interrupted why) next = (call ∷ [], interruption why)
await_run call phase (not_started why) next = ([], interruption why)

unfoldable pub refreshed : Option Manifest → (Manifest → Traced) → Traced
unfolding withheld
refreshed none next = ([], withheld (text "MANIFEST_CHANGED"))
refreshed (some m) next = next m

unfoldable pub revalidated : Adapter → Manifest → (Manifest → Traced) → Revalidation → Traced
unfolding withheld reason_or refreshed
revalidated a m next (not_valid reason) =
    ([], withheld (reason_or (text "KNOWLEDGE_CHANGED") reason))
revalidated a m next (valid value) = refreshed (a.validate_refreshed m value) next

-- What comes behind the answer to a phase: the revalidation, when the answer is true.
unfoldable pub allowed : Adapter → Phase → Text → Manifest → (Manifest → Traced) → Bool → Traced
unfolding withheld await_run revalidated
allowed a phase unavailable m next is_allowed =
    if is_allowed
    then await_run (revalidating phase m.run_id) unavailable (a.revalidate phase m.run_id)
        (revalidated a m next)
    else ([], withheld (text "AUTHORIZATION_DENIED"))

-- The permission and the revalidation before a phase; `unavailable` is what the revalidation reports.
unfoldable pub gate : Adapter → Phase → Text → Manifest → (Manifest → Traced) → Traced
unfolding await_run allowed
gate a phase unavailable m next =
    await_run (authorizing phase m) (text "AUTHORIZATION_UNAVAILABLE") (a.authorize phase m)
      (allowed a phase unavailable m next)

unfoldable pub provide : Option Interruption → Json → Manifest → Traced
unfolding interruption
provide none output m = ([], provided output m)
provide (some why) output m = ([], interruption why)

unfoldable pub on_output : Adapter → Manifest → Json → Traced
unfolding gate provide
on_output a m output = gate a release_phase (text "RELEASE_UNAVAILABLE") m (provide a.signal output)

unfoldable pub generation : Adapter → List Json → Manifest → Traced
unfolding await_run on_output
generation a documents m =
    await_run (generating documents m) (text "GENERATION_FAILED") (a.generate documents m)
      (on_output a m)

unfoldable pub on_resolution : Adapter → Resolution → Traced
unfolding withheld reason_or gate generation
on_resolution a (unresolved reason) =
    ([], withheld (reason_or (text "KNOWLEDGE_UNAVAILABLE") reason))
on_resolution a (resolved documents m) =
    gate a generate_phase (text "REVALIDATION_UNAVAILABLE") m (generation a documents)

unfoldable pub run_guarded : Adapter → Traced
unfolding await_run on_resolution
run_guarded a = await_run resolving (text "KNOWLEDGE_UNAVAILABLE") a.resolve (on_resolution a)

unfoldable pub is_adapter_id : Text → Bool
unfolding repeated
is_adapter_id [] = false
is_adapter_id (c ∷ cs) = is_letter c && repeated is_id_char 2 127 cs

-- `timeoutMs ?? 120_000`
unfoldable pub timeout_or : Option ℕ → ℕ
timeout_or none = 120000
timeout_or (some n) = n

-- A timeout is a whole number.
unfoldable pub guarded_generation : Text → Option ℕ → Bool → Adapter → Result Traced
unfolding is_adapter_id timeout_or withheld run_guarded
guarded_generation adapter_id timeout_ms is_aborted a =
    require (is_adapter_id adapter_id) thrown_error
    >> require (leb 1 (timeout_or timeout_ms) && leb (timeout_or timeout_ms) 600000) thrown_error
    >> ok (if is_aborted then ([], withheld (text "GENERATION_CANCELLED")) else run_guarded a)
