-- ===== src/Client/Released.antt =====
-- What `guardedGeneration` of packages/client/guarded-generation.ts has checked when it generates and
-- when it provides.
use knowledger.Base.{
  ℕ, leb, ◌&&◌, ◌≡◌, refl, sym, ap, subst, ◌∙◌, ◌⊎◌, inl, inr, Option-cases, Bool, true, false,
  List, [], ◌∷◌, Option, none, some, Text, text, if◌then◌else◌,
}
use knowledger.Fault.{ok, require, thrown_error, ◌>>◌, >>=-eq-ok, ok_eq}
use knowledger.Json.{Json}
use knowledger.Browse.Complete.{In}
use knowledger.Client.Guarded.{
  guarded_generation, is_adapter_id, timeout_or, Interruption, timed_out, cancelled, Outcome,
  returned, threw, interrupted, not_started, Phase, generate_phase, release_phase, Manifest,
  reason_or, Resolution, resolved, unresolved, Revalidation, valid, not_valid, Call, resolving,
  authorizing, revalidating, generating, Adapter, GuardedGenerationResult, provided, Traced,
  withheld, interruption, await_run, allowed, on_output, refreshed, revalidated, gate, provide,
  generation, on_resolution, run_guarded,
}

-- The phase was allowed for a manifest, and its revalidation gave the other one.
abbrev pub IsPassed : Adapter → Phase → Manifest → Manifest → Type 0
IsPassed a phase before m =
    (a.authorize phase before ≡ returned true)
    × ((value : Json) × (a.revalidate phase before.run_id ≡ returned (valid value))
        × (a.validate_refreshed before value ≡ some m))

withheld_is_not_provided :
    (reason : Text) {output : Json} {m : Manifest} → withheld reason ≡ provided output m → ⊥
unfolding withheld
withheld_is_not_provided reason h = cc

interruption_is_not_provided :
    (why : Interruption) {output : Json} {m : Manifest} → interruption why ≡ provided output m → ⊥
unfolding interruption
interruption_is_not_provided timed_out h = withheld_is_not_provided (text "TIMEOUT") h
interruption_is_not_provided cancelled h = withheld_is_not_provided (text "GENERATION_CANCELLED") h

abbrev traced_calls : Traced → List Call
traced_calls t = t.0

abbrev traced_result : Traced → GuardedGenerationResult
traced_result t = t.1

-- A traced run that provides has returned from its call, which stands first, and goes on to provide.
await_run-provided :
    {V : Type 0} (call : Call) (phase : Text) (o : Outcome V) (next : V → Traced)
    {calls : List Call} {output : Json} {m : Manifest}
    → await_run call phase o next ≡ (calls, provided output m)
    → (v : V) × (rest : List Call) × (o ≡ returned v)
      × (calls ≡ call ∷ rest)
      × (next v ≡ (rest, provided output m))
unfolding await_run
await_run-provided call phase (returned v) next h =
    (v, (next v).0, refl, sym (ap traced_calls h), ap (λ (t : Traced). ((next v).0, t.1)) h)
await_run-provided call phase threw next h =
    absurd (withheld_is_not_provided phase (ap traced_result h))
await_run-provided call phase (interrupted why) next h =
    absurd (interruption_is_not_provided why (ap traced_result h))
await_run-provided call phase (not_started why) next h =
    absurd (interruption_is_not_provided why (ap traced_result h))

await_run-In :
    {V : Type 0} (call : Call) (phase : Text) (o : Outcome V) (next : V → Traced) (c : Call)
    → In c (await_run call phase o next).0
    → (c ≡ call) ⊎ ((v : V) × (o ≡ returned v) × In c (next v).0)
unfolding await_run
await_run-In call phase (returned v) next c (inl e) = inl e
await_run-In call phase (returned v) next c (inr k) = inr (v, refl, k)
await_run-In call phase threw next c (inl e) = inl e
await_run-In call phase threw next c (inr k) = absurd k
await_run-In call phase (interrupted why) next c (inl e) = inl e
await_run-In call phase (interrupted why) next c (inr k) = absurd k
await_run-In call phase (not_started why) next c k = absurd k

revalidated-passed :
    (P : Traced → Type 0) (a : Adapter) (before : Manifest) (next : Manifest → Traced)
    (r : Revalidation)
    → ((reason : Text) → P ([], withheld reason) → ⊥)
    → P (revalidated a before next r)
    → (value : Json) × (m : Manifest) × (r ≡ valid value)
      × (a.validate_refreshed before value ≡ some m)
      × P (next m)
unfolding revalidated refreshed
revalidated-passed P a before next (not_valid reason) refused h =
    absurd (refused (reason_or (text "KNOWLEDGE_CHANGED") reason) h)
revalidated-passed P a before next (valid value) refused h =
    elim (Option-cases (a.validate_refreshed before value)) [
      | inl e ↦ absurd (refused (text "MANIFEST_CHANGED") (subst (λ o. P (refreshed o next)) e h))
      | inr (m, e) ↦ (value, m, refl, e, subst (λ o. P (refreshed o next)) e h)
    ]

generating_is_not_authorizing :
    {ds : List Json} {m n : Manifest} {phase : Phase} → generating ds m ≡ authorizing phase n → ⊥
generating_is_not_authorizing h = cc

generating_is_not_revalidating :
    {ds : List Json} {m : Manifest} {phase : Phase} {t : Text}
    → generating ds m ≡ revalidating phase t
    → ⊥
generating_is_not_revalidating h = cc

generating_is_not_resolving : {ds : List Json} {m : Manifest} → generating ds m ≡ resolving → ⊥
generating_is_not_resolving h = cc

generating-injective :
    {ds es : List Json} {m n : Manifest} → generating ds m ≡ generating es n → (ds ≡ es) × (m ≡ n)
generating-injective h = (cc, cc)

provided-injective : {o q : Json} {m n : Manifest} → provided o m ≡ provided q n → (o ≡ q) × (m ≡ n)
provided-injective h = (cc, cc)

if-allowed :
    (P : Traced → Type 0) (b : Bool) (passed denied : Traced)
    → (P denied → ⊥)
    → P (if b then passed else denied)
    → (b ≡ true) × P passed
if-allowed P true passed denied f h = (refl, h)
if-allowed P false passed denied f h = absurd (f h)

module _ (a : Adapter) (phase : Phase) (unavailable : Text) (before : Manifest)
    (next : Manifest → Traced) where
  gate-provided :
      {calls : List Call} {output : Json} {m : Manifest}
      → gate a phase unavailable before next ≡ (calls, provided output m)
      → (after : Manifest) × (rest : List Call) × IsPassed a phase before after
        × (calls ≡ authorizing phase before ∷ revalidating phase before.run_id ∷ rest)
        × (next after ≡ (rest, provided output m))
  unfolding gate allowed
  gate-provided {calls} {output} {m} h =
      let (answer, asked, answers, first, k) =
        await_run-provided (authorizing phase before) (text "AUTHORIZATION_UNAVAILABLE")
          (a.authorize phase before) (allowed a phase unavailable before next) h in
      let (is_allowed, checked) =
        if-allowed (λ t. t ≡ (asked, provided output m)) answer
          (await_run (revalidating phase before.run_id) unavailable
            (a.revalidate phase before.run_id) (revalidated a before next))
          ([], withheld (text "AUTHORIZATION_DENIED"))
          (λ x. withheld_is_not_provided (text "AUTHORIZATION_DENIED") (ap traced_result x)) k in
      let (r, rest, answered, second, l) =
        await_run-provided (revalidating phase before.run_id) unavailable
          (a.revalidate phase before.run_id) (revalidated a before next) checked in
      let (value, after, is_valid, refreshes, last) =
        revalidated-passed (λ t. t ≡ (rest, provided output m)) a before next r
          (λ reason x. withheld_is_not_provided reason (ap traced_result x)) l in
      (
        after,
        rest,
        (answers ∙ ap returned is_allowed, (value, answered ∙ ap returned is_valid, refreshes)),
        first ∙ ap (λ (cs : List Call). authorizing phase before ∷ cs) second,
        last,
      )

  gate-In :
      (documents : List Json) (m : Manifest)
      → In (generating documents m) (gate a phase unavailable before next).0
      → (after : Manifest) × IsPassed a phase before after
        × In (generating documents m) (next after).0
  unfolding gate allowed
  gate-In documents m h =
      let P = λ (t : Traced). In (generating documents m) t.0 in
      elim (await_run-In (authorizing phase before) (text "AUTHORIZATION_UNAVAILABLE")
        (a.authorize phase before) (allowed a phase unavailable before next) _ h) [
          | inl e ↦ absurd (generating_is_not_authorizing e)
          | inr (answer, answers, k) ↦
              let (is_allowed, checked) =
                if-allowed P answer
                  (await_run (revalidating phase before.run_id) unavailable
                    (a.revalidate phase before.run_id) (revalidated a before next))
                  _ (λ x. x) k in
              elim (await_run-In (revalidating phase before.run_id) unavailable
                (a.revalidate phase before.run_id) (revalidated a before next) _ checked) [
                  | inl e ↦ absurd (generating_is_not_revalidating e)
                  | inr (r, answered, l) ↦
                      let (value, after, is_valid, refreshes, last) =
                        revalidated-passed P a before next r (λ reason x. x) l in
                      (
                        after,
                        (
                          answers ∙ ap returned is_allowed,
                          (value, answered ∙ ap returned is_valid, refreshes),
                        ),
                        last,
                      )
                ]
        ]

provide-provided :
    (o : Option Interruption) (made : Json) (last : Manifest) {calls : List Call} {output : Json}
    {m : Manifest}
    → provide o made last ≡ (calls, provided output m)
    → (o ≡ none) × (made ≡ output) × (last ≡ m) × (calls ≡ [])
unfolding provide
provide-provided none made last h =
    let (same, ends) = provided-injective (ap traced_result h) in
    (refl, same, ends, sym (ap traced_calls h))
provide-provided (some why) made last h =
    absurd (interruption_is_not_provided why (ap traced_result h))

provide-In :
    (o : Option Interruption) (made : Json) (last : Manifest) (c : Call)
    → In c (provide o made last).0
    → ⊥
unfolding provide
provide-In none made last c h = h
provide-In (some why) made last c h = h

-- The calls of a generation that is released, in their order.
abbrev pub released_calls : List Json → Manifest → Manifest → List Call
released_calls documents first second =
    resolving
    ∷ authorizing generate_phase first
    ∷ revalidating generate_phase first.run_id
    ∷ generating documents second
    ∷ authorizing release_phase second
    ∷ revalidating release_phase second.run_id
    ∷ []

-- The output was generated from the resolved documents, under a manifest that passed the first gate before,
-- and its release passed the second one, with nothing aborted at the end.
abbrev pub IsReleased : Adapter → List Call → Json → Manifest → Type 0
IsReleased a calls output m =
    (documents : List Json) × (first : Manifest) × (second : Manifest) × (calls
      ≡ released_calls documents first second)
    × (a.resolve ≡ returned (resolved documents first))
    × IsPassed a generate_phase first second
    × (a.generate documents second ≡ returned output)
    × IsPassed a release_phase second m
    × (a.signal ≡ none)

on_resolution-IsReleased :
    (a : Adapter) (calls : List Call) (output : Json) (m : Manifest) (r : Resolution)
    → a.resolve ≡ returned r
    → on_resolution a r ≡ (calls, provided output m)
    → IsReleased a (resolving ∷ calls) output m
unfolding on_resolution generation on_output
on_resolution-IsReleased a calls output m (unresolved reason) e k = absurd (
    withheld_is_not_provided (reason_or (text "KNOWLEDGE_UNAVAILABLE") reason) (ap traced_result k))
on_resolution-IsReleased a calls output m (resolved documents first) e k =
    let (second, generation_calls, passed, c1, l) =
      gate-provided a generate_phase (text "REVALIDATION_UNAVAILABLE") first
        (generation a documents) k in
    let (made, release_calls, makes, c2, n) =
      await_run-provided (generating documents second) (text "GENERATION_FAILED")
        (a.generate documents second) (on_output a second) l in
    let (last, other_calls, again, c3, done) =
      gate-provided a release_phase (text "RELEASE_UNAVAILABLE") second (provide a.signal made) n in
    let (calm, same, ends, c4) = provide-provided a.signal made last done in
    (
      documents,
      first,
      second,
      cc,
      e,
      passed,
      makes ∙ ap returned same,
      subst (IsPassed a release_phase second) ends again,
      calm,
    )

not_aborted-provided :
    (b : Bool) (t : Traced) {calls : List Call} {output : Json} {m : Manifest}
    → (if b then ([], withheld (text "GENERATION_CANCELLED")) else t) ≡ (calls, provided output m)
    → t ≡ (calls, provided output m)
not_aborted-provided true t h =
    absurd (withheld_is_not_provided (text "GENERATION_CANCELLED") (ap traced_result h))
not_aborted-provided false t h = h

run_guarded-IsReleased :
    (a : Adapter) (calls : List Call) (output : Json) (m : Manifest)
    → run_guarded a ≡ (calls, provided output m)
    → IsReleased a calls output m
unfolding run_guarded
run_guarded-IsReleased a calls output m h =
    let (resolution, rest, resolves, c, k) =
      await_run-provided resolving (text "KNOWLEDGE_UNAVAILABLE") a.resolve (on_resolution a) h in
    subst (λ cs. IsReleased a cs output m) (sym c)
      (on_resolution-IsReleased a rest output m resolution resolves k)

-- A guarded generation that provides an output has made just these calls, in this order: it resolved the
-- documents, asked the callback for the generation and revalidated, generated the output from the resolved
-- documents, and asked the callback for the release and revalidated. The callback has allowed both phases,
-- each revalidation has given a manifest that the check accepts as the refreshed one, and the signal is not
-- aborted at the end.
pub guarded_generation-IsReleased :
    (adapter_id : Text) (timeout_ms : Option ℕ) (is_aborted : Bool) (a : Adapter)
    (calls : List Call) (output : Json) (m : Manifest)
    → guarded_generation adapter_id timeout_ms is_aborted a ≡ ok (calls, provided output m)
    → IsReleased a calls output m
unfolding guarded_generation
guarded_generation-IsReleased adapter_id timeout_ms is_aborted a calls output m h =
    let checks =
      require (is_adapter_id adapter_id) thrown_error
      >> require (leb 1 (timeout_or timeout_ms) && leb (timeout_or timeout_ms) 600000)
          thrown_error in
    let (done, passes, last) =
      >>=-eq-ok checks
        (λ x.
          ok (if is_aborted then ([], withheld (text "GENERATION_CANCELLED")) else run_guarded a))
        h in
    run_guarded-IsReleased a calls output m
      (not_aborted-provided is_aborted (run_guarded a) (ok_eq last))

on_resolution-authorized :
    (a : Adapter) (documents : List Json) (m : Manifest) (r : Resolution)
    → a.resolve ≡ returned r
    → In (generating documents m) (on_resolution a r).0
    → (first : Manifest) × (a.resolve ≡ returned (resolved documents first))
      × IsPassed a generate_phase first m
unfolding on_resolution generation on_output
on_resolution-authorized a documents m (unresolved reason) e k = absurd k
on_resolution-authorized a documents m (resolved given first) e k =
    let (second, passed, l) =
      gate-In a generate_phase (text "REVALIDATION_UNAVAILABLE") first (generation a given)
        documents m k in
    elim (await_run-In (generating given second) (text "GENERATION_FAILED")
      (a.generate given second) (on_output a second) _ l) [
        | inl same ↦
            let (docs, manifests) = generating-injective same in
            (
              first,
              e ∙ ap (λ ds. returned (resolved ds first)) (sym docs),
              subst (IsPassed a generate_phase first) (sym manifests) passed,
            )
        | inr (made, makes, n) ↦
            let (last, again, done) =
              gate-In a release_phase (text "RELEASE_UNAVAILABLE") second (provide a.signal made)
                documents m n in
            absurd (provide-In a.signal made last _ done)
      ]

-- Documents go to the generator only with a manifest that the client has resolved with them, after the
-- callback has allowed the generation and the revalidation has given the manifest as the refreshed one.
pub run_guarded-authorized :
    (a : Adapter) (documents : List Json) (m : Manifest)
    → In (generating documents m) (run_guarded a).0
    → (first : Manifest) × (a.resolve ≡ returned (resolved documents first))
      × IsPassed a generate_phase first m
unfolding run_guarded
run_guarded-authorized a documents m h =
    elim (await_run-In resolving (text "KNOWLEDGE_UNAVAILABLE") a.resolve (on_resolution a) _ h) [
      | inl e ↦ absurd (generating_is_not_resolving e)
      | inr (resolution, resolves, k) ↦ on_resolution-authorized a documents m resolution resolves k
    ]
