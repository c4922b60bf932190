-- ===== src/State/Writes.antt =====
-- `validateStateWrite` and `IMMUTABLE_KINDS` of packages/storage/state-validation.ts. Each failure ends
-- in the same error, so that a check is a test.
use knowledger.Base.{
  ℕ, ◌+◌, ◌-◌, ◌*◌, Bool, true, false, ◌&&◌, ◌||◌, List, [], ◌∷◌, Option, none, some, Text, text,
  text_eq, includes, all, length, leb, ◌==◌, if◌then◌else◌,
}
use knowledger.Fault.{Result, ok, err}
use knowledger.Unicode.{byte_length, decimal}
use knowledger.Json.{
  Json, null, num, whole, str, obj, prop, keys, has_own, is_text, max_safe_integer,
}
use knowledger.Json.Canonical.{canonicalize}
use knowledger.Contracts.Identifiers.{is_id, is_digest, is_nonce, is_digit}
use knowledger.Contracts.Slot.{Slot, is_slot, slot_text}
use knowledger.Contracts.Revision.{validate_revision}
use knowledger.Contracts.Policy.{validate_policy}
use knowledger.Contracts.Config.{validate_config}
use knowledger.Contracts.Proposal.{validate_proposal}
use knowledger.Contracts.Decision.{validate_decision}
use knowledger.Contracts.Agreement.{validate_agreement}
use knowledger.Ledger.Keys.{
  Key, Prefix, config, revision, revision_id, policy, proposal, decision, latest_decision,
  review_counter, agreement, active_slot, eligibility_epoch, idempotency, fence, config_key,
  revision_key, policy_key, proposal_key, decision_key, agreement_key, epoch_key, idempotency_key,
  fence_key, key_eq,
}

-- A validator that throws refuses.
unfoldable pub accepted {ℓ} : {A : Type ℓ} → Result A → (A → Bool) → Bool
accepted (ok a) test = test a
accepted (err e) test = false

-- `record(value, names)`
unfoldable pub has_exactly : List Text → Option Json → Bool
has_exactly names (some (obj fs)) =
    length (keys fs) == length names && all (λ k. has_own k fs) names
has_exactly names v = false

unfoldable pub is_integer : Option Json → Bool
is_integer (some (num (whole n))) = leb n max_safe_integer
is_integer v = false

-- A string that passes a test.
unfoldable pub is_text_that : (Text → Bool) → Option Json → Bool
is_text_that test (some (str t)) = test t
is_text_that test v = false

unfoldable pub is_null : Option Json → Bool
is_null (some null) = true
is_null v = false

-- The property of a value that is an object.
unfoldable pub value_at : Text → Option Json → Option Json
value_at k (some (obj fs)) = prop k fs
value_at k v = none

-- `/^[1-9][0-9]*$/`
unfoldable pub is_counting : Text → Bool
is_counting [] = false
is_counting (d ∷ ds) = leb b'1' d && leb d b'9' && all is_digit ds

-- `Number(text)`, of decimal digits, after those that were read.
unfoldable pub number_from : ℕ → Text → ℕ
number_from n [] = n
number_from n (d ∷ ds) = number_from (n * 10 + (d - b'0')) ds

-- `text.split("|")`
unfoldable pub push_unit : ℕ → List Text → List Text
push_unit c [] = (c ∷ []) ∷ []
push_unit c (part ∷ rest) = (c ∷ part) ∷ rest

unfoldable pub split : Text → List Text
split [] = [] ∷ []
split (c ∷ cs) = let rest = split cs in if c == b'|' then [] ∷ rest else push_unit c rest

-- `{ channel_id: fields[0], ... }`, of five fields.
unfoldable pub slot_of : List Text → Option Slot
slot_of (channel ∷ document ∷ context ∷ scope ∷ usage ∷ []) = some (record {
  channel_id = channel;
  document_id = document;
  context_id = context;
  scope_id = scope;
  usage_scope = usage;
})
slot_of fields = none

-- The text is the key of the slot that it splits into.
unfoldable pub names_slot : Text → Bool
names_slot t = elim (slot_of (split t)) [
  | none ↦ false
  | some slot ↦ is_slot slot && text_eq (slot_text slot) t
]

abbrev pub command_types : List Text
command_types =
    text "publish_revision"
    ∷ text "propose"
    ∷ text "decide"
    ∷ text "activate"
    ∷ text "withdraw"
    ∷ text "suspend"
    ∷ text "fence"
    ∷ []

abbrev pub record_names : List Text
record_names =
    text "record_type"
    ∷ text "command_id"
    ∷ text "command_type"
    ∷ text "command_digest"
    ∷ text "actor"
    ∷ text "result"
    ∷ text "tx_id"
    ∷ []

unfoldable pub is_actor : Option Json → Bool
is_actor v =
    has_exactly (text "org_id" ∷ text "actor_id" ∷ text "kind" ∷ []) v
    && is_text_that is_id (value_at (text "org_id") v)
    && is_text_that is_id (value_at (text "actor_id") v)
    && is_text_that (λ t. includes t (text "human" ∷ text "agent" ∷ [])) (value_at (text "kind") v)

-- `typeof value !== "string" || value.length < 1` fails.
unfoldable pub is_some_text : Option Json → Bool
is_some_text v = is_text_that (λ t. leb 1 (length t)) v

-- The cases of the value under a key of the kind.
unfoldable pub valid_revision_pointer : List Text → Option Json → Bool
valid_revision_pointer (id ∷ []) v =
    has_exactly (text "revision_digest" ∷ []) v
    && is_id id
    && is_text_that is_digest (value_at (text "revision_digest") v)
valid_revision_pointer parts v = false

unfoldable pub valid_latest_decision : List Text → Option Json → Bool
valid_latest_decision (proposal_id ∷ version ∷ role ∷ org_id ∷ actor_id ∷ []) v =
    has_exactly (text "decision_id" ∷ []) v
    && is_text_that is_id (value_at (text "decision_id") v)
    && is_id proposal_id
    && is_id role
    && is_id org_id
    && is_id actor_id
    && is_counting version
    && leb (number_from 0 version) max_safe_integer
    && text_eq (decimal (number_from 0 version)) version
valid_latest_decision parts v = false

unfoldable pub valid_counter : List Text → Option Json → Bool
valid_counter (id ∷ []) v = is_integer v && is_id id
valid_counter parts v = false

unfoldable pub valid_active_slot : List Text → Option Json → Bool
valid_active_slot (t ∷ []) v =
    has_exactly (text "agreement_id" ∷ []) v
    && (is_null (value_at (text "agreement_id") v)
        || is_text_that is_id (value_at (text "agreement_id") v))
    && names_slot t
valid_active_slot parts v = false

unfoldable pub valid_record : Key → Option Json → Bool
valid_record key v =
    let at = λ (k : Text). value_at k v in
    let actor = at (text "actor") in
    has_exactly record_names v
    && is_actor actor
    && is_text (at (text "record_type")) (text "IdempotencyRecord")
    && is_text_that is_id (at (text "command_id"))
    && is_text_that is_digest (at (text "command_digest"))
    && is_some_text (at (text "tx_id"))
    && is_text_that (λ t. includes t command_types) (at (text "command_type"))
    && is_text_that (λ t. true) (value_at (text "status") (at (text "result")))
    && is_text_that
        (λ org. is_text_that (λ id. key_eq key (idempotency_key org id)) (at (text "command_id")))
        (value_at (text "org_id") actor)

unfoldable pub valid_fence : Key → Option Json → Bool
valid_fence key v =
    has_exactly (text "nonce" ∷ text "eligibility_epoch" ∷ text "tx_id" ∷ []) v
    && is_text_that (λ nonce. is_nonce nonce && key_eq key (fence_key nonce))
        (value_at (text "nonce") v)
    && is_integer (value_at (text "eligibility_epoch") v)
    && is_some_text (value_at (text "tx_id") v)

abbrev pub max_bytes : ℕ
max_bytes = 2 * 1024 * 1024

unfoldable pub fits : Json → Bool
fits v = accepted (canonicalize v) (λ t. leb (byte_length t) max_bytes)

-- `IMMUTABLE_KINDS`
unfoldable pub is_immutable : Prefix → Bool
is_immutable config = true
is_immutable revision = true
is_immutable revision_id = true
is_immutable policy = true
is_immutable decision = true
is_immutable idempotency = true
is_immutable fence = true
is_immutable _ = false

module _ (sha256 : List ℕ → Text) where
  -- The value has the schema of the key's kind, and the key is the one of the value.
  unfoldable pub valid_value : Key → Json → Bool
  valid_value key v = elim key.prefix [
    | config ↦ accepted (validate_config v) (λ c. key_eq key config_key)
    | revision ↦
        accepted (validate_revision sha256 v) (λ r. key_eq key (revision_key r.revision_digest))
    | revision_id ↦ valid_revision_pointer key.parts (some v)
    | policy ↦
        accepted (validate_policy v) (λ p. key_eq key (policy_key p.policy_id p.policy_version))
    | proposal ↦ accepted (validate_proposal v) (λ p. key_eq key (proposal_key p.proposal_id))
    | decision ↦ accepted (validate_decision v) (λ d. key_eq key (decision_key d.decision_id))
    | latest_decision ↦ valid_latest_decision key.parts (some v)
    | review_counter ↦ valid_counter key.parts (some v)
    | agreement ↦ accepted (validate_agreement v) (λ a. key_eq key (agreement_key a.agreement_id))
    | active_slot ↦ valid_active_slot key.parts (some v)
    | eligibility_epoch ↦ is_integer (some v) && key_eq key epoch_key
    | idempotency ↦ valid_record key (some v)
    | fence ↦ valid_fence key (some v)
  ]

  unfoldable pub validate_state_write : Key → Json → Bool
  validate_state_write key v = fits v && valid_value key v
