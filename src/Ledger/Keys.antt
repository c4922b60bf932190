-- ===== src/Ledger/Keys.antt =====
-- `KEY_PREFIXES`, `encoded`, `stateKey` and `keyFor` of packages/domain/index.ts.
use knowledger.Base.{
  ℕ, ◌+◌, ◌/◌, ◌%◌, Bool, true, false, ◌&&◌, ◌||◌, List, [], ◌∷◌, ◌++◌, Text, text, text_eq, ltb,
  ◌==◌, if◌then◌else◌,
}
use knowledger.Fault.{Result, ok, failure, uri_error, require, ◌>>=◌, ◌>>◌}
use knowledger.Unicode.{valid_unicode, utf8, decimal}
use knowledger.Contracts.Identifiers.{is_letter, is_digit}
use knowledger.Contracts.Slot.{Slot, slot_key}

pub data Prefix : Type 0 where
  config revision revision_id policy proposal decision latest_decision : Prefix
  review_counter agreement active_slot eligibility_epoch idempotency fence : Prefix

-- The arguments of `stateKey`.
pub record Key : Type 0 where
  pub prefix : Prefix
  pub parts : List Text

unfoldable pub prefix_text : Prefix → Text
prefix_text config = text "kcl:v1:config"
prefix_text revision = text "kcl:v1:revision"
prefix_text revision_id = text "kcl:v1:revision_id"
prefix_text policy = text "kcl:v1:policy"
prefix_text proposal = text "kcl:v1:proposal"
prefix_text decision = text "kcl:v1:decision"
prefix_text latest_decision = text "kcl:v1:latest_decision"
prefix_text review_counter = text "kcl:v1:review_counter"
prefix_text agreement = text "kcl:v1:agreement"
prefix_text active_slot = text "kcl:v1:active_slot"
prefix_text eligibility_epoch = text "kcl:v1:eligibility_epoch"
prefix_text idempotency = text "kcl:v1:idempotency"
prefix_text fence = text "kcl:v1:fence"

-- The bytes that `encodeURIComponent` keeps: `A-Z a-z 0-9 - _ . ! ~ * ' ( )`.
unfoldable pub is_unreserved : ℕ → Bool
is_unreserved c =
    is_letter c
    || is_digit c
    || c == b'-'
    || c == b'_'
    || c == b'.'
    || c == b'!'
    || c == b'~'
    || c == b'*'
    || c == 0x27
    || c == 0x28
    || c == 0x29

unfoldable pub upper_hex : ℕ → ℕ
upper_hex n = if ltb n 10 then b'0' + n else b'7' + n

-- A byte of the UTF-8 form, as it is or as `%XX`.
unfoldable pub percent : ℕ → Text
unfolding upper_hex
percent c = if is_unreserved c then c ∷ [] else b'%' ∷ upper_hex (c / 16) ∷ upper_hex (c % 16) ∷ []

unfoldable pub percents : List ℕ → Text
unfolding percent
percents [] = []
percents (c ∷ cs) = percent c ++ percents cs

-- `encodeURIComponent(value)`, which throws on a lone surrogate.
unfoldable pub encoded : Text → Result Text
encoded value = do require (valid_unicode value) (failure uri_error 500); ok (percents (utf8 value))

-- Each part behind a colon.
unfoldable pub encoded_parts : List Text → Result Text
encoded_parts [] = ok []
encoded_parts (p ∷ ps) = do part ← encoded p; rest ← encoded_parts ps; ok (b':' ∷ part ++ rest)

unfoldable pub state_key : Key → Result Text
state_key k = do suffix ← encoded_parts k.parts; ok (prefix_text k.prefix ++ suffix)

abbrev pub config_key : Key
config_key = record { prefix = config; parts = [] }

abbrev pub revision_key : Text → Key
revision_key digest = record { prefix = revision; parts = digest ∷ [] }

abbrev pub revision_id_key : Text → Key
revision_id_key id = record { prefix = revision_id; parts = id ∷ [] }

abbrev pub policy_key : Text → ℕ → Key
policy_key id version = record { prefix = policy; parts = id ∷ decimal version ∷ [] }

abbrev pub proposal_key : Text → Key
proposal_key id = record { prefix = proposal; parts = id ∷ [] }

abbrev pub decision_key : Text → Key
decision_key id = record { prefix = decision; parts = id ∷ [] }

abbrev pub latest_decision_key : Text → ℕ → Text → Text → Text → Key
latest_decision_key proposal_id policy_version role org_id actor_id = record {
  prefix = latest_decision;
  parts = proposal_id ∷ decimal policy_version ∷ role ∷ org_id ∷ actor_id ∷ [];
}

abbrev pub review_counter_key : Text → Key
review_counter_key id = record { prefix = review_counter; parts = id ∷ [] }

abbrev pub agreement_key : Text → Key
agreement_key id = record { prefix = agreement; parts = id ∷ [] }

-- The slot by its key, which `slotKey` gives only to a well-formed slot.
abbrev pub slot_pointer_key : Text → Key
slot_pointer_key slot = record { prefix = active_slot; parts = slot ∷ [] }

unfoldable pub active_slot_key : Slot → Result Key
active_slot_key slot = do t ← slot_key slot; ok (slot_pointer_key t)

abbrev pub epoch_key : Key
epoch_key = record { prefix = eligibility_epoch; parts = [] }

abbrev pub idempotency_key : Text → Text → Key
idempotency_key org_id command_id = record {
  prefix = idempotency;
  parts = org_id ∷ command_id ∷ [];
}

abbrev pub fence_key : Text → Key
fence_key nonce = record { prefix = fence; parts = nonce ∷ [] }

-- Equality of keys: of the prefixes by their place in the list, of the parts as texts.
abbrev pub rank : Prefix → ℕ
rank config = 0
rank revision = 1
rank revision_id = 2
rank policy = 3
rank proposal = 4
rank decision = 5
rank latest_decision = 6
rank review_counter = 7
rank agreement = 8
rank active_slot = 9
rank eligibility_epoch = 10
rank idempotency = 11
rank fence = 12

unfoldable pub texts_eq : List Text → List Text → Bool
unfolding text_eq
texts_eq [] [] = true
texts_eq [] (b ∷ bs) = false
texts_eq (a ∷ xs) [] = false
texts_eq (a ∷ xs) (b ∷ bs) = text_eq a b && texts_eq xs bs

abbrev pub key_eq : Key → Key → Bool
key_eq k j = rank k.prefix == rank j.prefix && texts_eq k.parts j.parts

-- A key whose part is a string that nothing has checked: `encodeURIComponent` may throw.
unfoldable pub unchecked_key : (Text → Key) → Text → Result Key
unchecked_key make part = do require (valid_unicode part) (failure uri_error 500); ok (make part)
