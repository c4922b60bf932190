-- ===== src/Fault.antt =====
-- `DomainError` and `fail` of packages/domain/index.ts: a call that may throw returns a `Result`.
-- The message and the details of an error are for people and are not modelled.
use knowledger.Base.{ℕ, ◌≡◌, refl, Bool, true, false, List, [], ◌∷◌, ◌⊎◌, inl, inr}

pub data Code : Type 0 where
  invalid_input canonicalization_limit digest_mismatch not_bootstrapped already_bootstrapped : Code
  forbidden scope_mismatch serving_frozen stale_configuration immutable_conflict : Code
  parent_not_found dependency_not_found dependency_scope_mismatch dependency_limit : Code
  dependency_cycle dependency_ineligible policy_not_found revision_not_found : Code
  proposal_not_found agreement_not_found proposal_replay stale_decision : Code
  decision_not_allowed retract_target_not_found retract_invalid retract_not_latest : Code
  approval_incomplete stale_precondition already_active agreement_not_active : Code
  unsupported_command idempotency_conflict state_limit corrupt_state uri_error plain_error : Code
  not_found invalid_delivery_packet invalid_delivery_receipt delivery_store_corrupt : Code
  delivery_not_retryable delivery_id_conflict : Code

pub record DomainError : Type 0 where
  pub code : Code
  pub status : ℕ
  pub retryable : Bool

-- What a call returns, or the error that it throws.
pub data Result {ℓ} (A : Type ℓ) : Type ℓ where
  ok : A → Result A
  err : DomainError → Result A

infixl 5 ◌>>◌
module _ {ℓ κ} {A : Type ℓ} {B : Type κ} where
  infixl 5 ◌>>=◌
  abbrev pub ◌>>=◌ : Result A → (A → Result B) → Result B
  ok value >>= next = next value
  err thrown >>= next = err thrown

  -- What a chain that succeeds says of its first part.
  pub >>=-eq-ok :
      (first : Result A) (next : A → Result B) {b : B}
      → (first >>= next) ≡ ok b
      → (a : A) × (first ≡ ok a) × (next a ≡ ok b)
  >>=-eq-ok (err thrown) next h = cc
  >>=-eq-ok (ok value) next h = (value, refl, h)

abbrev pub ◌>>◌ {ℓ} : {B : Type ℓ} → Result (Unit {0}) → Result B → Result B
check >> next = check >>= λ done. next

-- `fail(code, message, { status })`
abbrev pub failure : Code → ℕ → DomainError
failure c n = record { code = c; status = n; retryable = false }

abbrev pub invalid : DomainError
invalid = failure invalid_input 400

-- `fail("CORRUPT_STATE", message, { status: 500, retryable: true })`
abbrev pub corrupt : DomainError
corrupt = record { code = corrupt_state; status = 500; retryable = true }

-- `throw new Error(message)`: no domain error, so that it has no status of its own.
abbrev pub thrown_error : DomainError
thrown_error = failure plain_error 0

-- `if (test) fail(...)`
abbrev pub fail_if : Bool → DomainError → Result (Unit {0})
fail_if true e = err e
fail_if false e = ok tt

-- `if (!test) fail(...)`
abbrev pub require : Bool → DomainError → Result (Unit {0})
require true e = ok tt
require false e = err e

pub ok_eq {ℓ} : {A : Type ℓ} {a b : A} → ok a ≡ ok b → a ≡ b
ok_eq h = cc

pub err≢ok {ℓ} : {A : Type ℓ} {e : DomainError} {a : A} → err e ≡ ok a → ⊥
err≢ok h = cc

pub Result-cases {ℓ} :
    {A : Type ℓ} (r : Result A) → ((e : DomainError) × (r ≡ err e)) ⊎ ((a : A) × (r ≡ ok a))
Result-cases (ok a) = inr (a, refl)
Result-cases (err e) = inl (e, refl)

-- `values.map(check)`, where a check may throw.
unfoldable pub traverse {ℓ κ} :
    {A : Type ℓ} {B : Type κ} → (A → Result B) → List A → Result (List B)
traverse f [] = ok []
traverse f (x ∷ xs) = do y ← f x; ys ← traverse f xs; ok (y ∷ ys)
