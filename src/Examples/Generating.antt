-- ===== src/Examples/Generating.antt =====
-- A guarded generation of packages/client/guarded-generation.ts that is allowed and provides its output.
use knowledger.Base.{
  all, false, true, List, [], ◌∷◌, Option, none, some, Text, text, ◌≡◌, refl, inl, inr,
}
use knowledger.Json.{Json, str}
use knowledger.Browse.Complete.{In}
use knowledger.Fault.{ok}
use knowledger.Contracts.Identifiers.{repeated}
use knowledger.Client.Guarded.{
  guarded_generation, is_adapter_id, timeout_or, Call, resolving, authorizing, revalidating, Phase,
  generate_phase, release_phase, returned, Manifest, resolved, valid, Adapter, provided, generating,
  run_guarded, await_run, refreshed, revalidated, allowed, gate, provide, on_output, generation,
  on_resolution,
}
use knowledger.Client.Released.{
  IsReleased, IsPassed, guarded_generation-IsReleased, run_guarded-authorized,
}

abbrev manifest : Text → Manifest
manifest t = record { run_id = text "run-1"; content = str t }

abbrev documents : List Json
documents = str (text "document") ∷ []

abbrev output : Json
output = str (text "draft")

abbrev refreshed_content : Phase → Text
refreshed_content generate_phase = text "second"
refreshed_content release_phase = text "third"

abbrev stored : Json → Option Manifest
stored (str t) = some (manifest t)
stored v = none

abbrev adapter : Adapter
adapter = record {
  resolve = returned (resolved documents (manifest (text "first")));
  authorize = λ phase m. returned true;
  revalidate = λ phase id. returned (valid (str (refreshed_content phase)));
  validate_refreshed = λ m value. stored value;
  generate = λ ds m. returned output;
  signal = none;
}

abbrev calls : List Call
calls =
    resolving
    ∷ authorizing generate_phase (manifest (text "first"))
    ∷ revalidating generate_phase (text "run-1")
    ∷ generating documents (manifest (text "second"))
    ∷ authorizing release_phase (manifest (text "second"))
    ∷ revalidating release_phase (text "run-1")
    ∷ []

record GenerationFacts : Type 0 where
  provides :
      guarded_generation (text "model-1") none false adapter
      ≡ ok (calls, provided output (manifest (text "third")))
  generates : In (generating documents (manifest (text "second"))) (run_guarded adapter).0

facts : GenerationFacts
unfolding guarded_generation is_adapter_id timeout_or repeated all run_guarded await_run refreshed
    revalidated allowed gate provide on_output generation on_resolution
facts = record { provides = refl; generates = inr (inr (inr (inl refl))) }

guarded_generation-IsReleased_example : IsReleased adapter calls output (manifest (text "third"))
guarded_generation-IsReleased_example =
    guarded_generation-IsReleased (text "model-1") none false adapter calls output
      (manifest (text "third")) facts.provides

run_guarded-authorized_example :
    (first : Manifest) × (adapter.resolve ≡ returned (resolved documents first))
    × IsPassed adapter generate_phase first (manifest (text "second"))
run_guarded-authorized_example =
    run_guarded-authorized adapter documents (manifest (text "second")) facts.generates
