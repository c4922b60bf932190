-- ===== src/Delivery/Packet.antt =====
-- `validateReviewPacket` and `validateReviewReceipt` of packages/review/delivery-contract.ts.
use knowledger.Base.{
  ℕ, ◌*◌, ◌%◌, Bool, true, false, not, ◌&&◌, ◌||◌, List, [], ◌∷◌, ◌++◌, Option, none, some, Text,
  text, text_eq, includes, all, length, take, drop, leb, ◌==◌, if◌then◌else◌,
}
use knowledger.Fault.{
  Result, ok, DomainError, invalid_delivery_packet, invalid_delivery_receipt, failure, require,
  ◌>>=◌, ◌>>◌,
}
use knowledger.Unicode.{utf8, byte_length}
use knowledger.Json.{Json, str, is_number, is_text}
use knowledger.Json.Canonical.{canonicalize}
use knowledger.Contracts.Identifiers.{is_id, is_digest, is_usage_scope, is_digit}
use knowledger.State.Writes.{accepted, has_exactly, value_at, is_text_that, number_from}

abbrev pub delivery_max_bytes : ℕ
delivery_max_bytes = 32 * 1024

-- A text against a pattern, in which `d` stands for a digit.
unfoldable pub has_shape : Text → Text → Bool
has_shape [] [] = true
has_shape [] (c ∷ cs) = false
has_shape (p ∷ ps) [] = false
has_shape (p ∷ ps) (c ∷ cs) = (if p == b'd' then is_digit c else c == p) && has_shape ps cs

unfoldable pub is_leap : ℕ → Bool
is_leap y = (y % 4 == 0) && (not (y % 100 == 0) || (y % 400 == 0))

unfoldable pub days_in : ℕ → ℕ → ℕ
days_in year month =
    if month == 2
    then (if is_leap year then 29 else 28)
    else if (month == 4) || (month == 6) || (month == 9) || (month == 11)
    then 30
    else 31

-- The number in the digits from a place on.
unfoldable pub number_at : ℕ → ℕ → Text → ℕ
number_at from count t = number_from 0 (take count (drop from t))

-- `deliveryIso(value)`: the parsed date prints as the text only when each part is in its range.
unfoldable pub delivery_iso : Text → Bool
delivery_iso t =
    let year = number_at 0 4 t in
    let month = number_at 5 2 t in
    let day = number_at 8 2 t in
    has_shape (text "dddd-dd-ddTdd:dd:dd.dddZ") t
    && leb 1 month
    && leb month 12
    && leb 1 day
    && leb day (days_in year month)
    && leb (number_at 11 2 t) 23
    && leb (number_at 14 2 t) 59
    && leb (number_at 17 2 t) 59

-- The white space that `trim` removes.
unfoldable pub is_blank : ℕ → Bool
is_blank c =
    (leb 9 c && leb c 13)
    || (c == 0x20)
    || (c == 0xa0)
    || (c == 0x1680)
    || (leb 0x2000 c && leb c 0x200a)
    || (c == 0x2028)
    || (c == 0x2029)
    || (c == 0x202f)
    || (c == 0x205f)
    || (c == 0x3000)
    || (c == 0xfeff)

unfoldable pub is_body : Text → Bool
is_body t = not (all is_blank t) && leb (length t) 4000

unfoldable pub is_id_value : Option Json → Bool
is_id_value v = is_text_that is_id v

unfoldable pub is_person : Option Json → Bool
is_person v =
    has_exactly (text "org_id" ∷ text "actor_id" ∷ []) v
    && is_id_value (value_at (text "org_id") v)
    && is_id_value (value_at (text "actor_id") v)

unfoldable pub is_message_slot : Option Json → Bool
is_message_slot v =
    has_exactly
      (text "channel_id"
        ∷ text "document_id"
        ∷ text "context_id"
        ∷ text "scope_id"
        ∷ text "usage_scope"
        ∷ [])
      v
    && is_id_value (value_at (text "channel_id") v)
    && is_id_value (value_at (text "document_id") v)
    && is_id_value (value_at (text "context_id") v)
    && is_id_value (value_at (text "scope_id") v)
    && is_text_that is_usage_scope (value_at (text "usage_scope") v)

unfoldable pub is_author : Option Json → Bool
is_author v =
    has_exactly (text "org_id" ∷ text "actor_id" ∷ text "kind" ∷ []) v
    && is_id_value (value_at (text "org_id") v)
    && is_id_value (value_at (text "actor_id") v)
    && is_text_that (λ t. includes t (text "human" ∷ text "agent" ∷ [])) (value_at (text "kind") v)

unfoldable pub is_comment : Option Json → Bool
is_comment v =
    has_exactly (text "event_id" ∷ text "author" ∷ text "created_at" ∷ text "body" ∷ []) v
    && is_id_value (value_at (text "event_id") v)
    && is_text_that delivery_iso (value_at (text "created_at") v)
    && is_author (value_at (text "author") v)
    && is_text_that is_body (value_at (text "body") v)

unfoldable pub is_message : Option Json → Bool
is_message v =
    has_exactly
      (text "schema_version"
        ∷ text "delivery_id"
        ∷ text "source_id"
        ∷ text "workspace_id"
        ∷ text "slot"
        ∷ text "revision_digest"
        ∷ text "recipient"
        ∷ text "comment"
        ∷ [])
      v
    && is_number (value_at (text "schema_version") v) 1
    && is_id_value (value_at (text "delivery_id") v)
    && is_id_value (value_at (text "source_id") v)
    && is_id_value (value_at (text "workspace_id") v)
    && is_person (value_at (text "recipient") v)
    && is_text_that is_digest (value_at (text "revision_digest") v)
    && is_message_slot (value_at (text "slot") v)
    && is_comment (value_at (text "comment") v)

pub record ReviewPerson : Type 0 where
  pub org_id : Text
  pub actor_id : Text

-- `samePerson(a, b)`
unfoldable pub same_person : ReviewPerson → ReviewPerson → Bool
same_person a b = text_eq a.org_id b.org_id && text_eq a.actor_id b.actor_id

-- A packet that was validated, with the fields that the store reads.
pub record ReviewPacket : Type 0 where
  pub value : Json
  pub delivery_id : Text
  pub source_id : Text
  pub author : ReviewPerson
  pub recipient : ReviewPerson
  pub payload_digest : Text

unfoldable pub text_of : Option Json → Text
text_of (some (str t)) = t
text_of v = []

unfoldable pub person_of : Option Json → ReviewPerson
person_of v = record {
  org_id = text_of (value_at (text "org_id") v);
  actor_id = text_of (value_at (text "actor_id") v);
}

unfoldable pub packet_of : Json → ReviewPacket
packet_of v =
    let m = value_at (text "message") (some v) in
    record {
      value = v;
      delivery_id = text_of (value_at (text "delivery_id") m);
      source_id = text_of (value_at (text "source_id") m);
      author = person_of (value_at (text "author") (value_at (text "comment") m));
      recipient = person_of (value_at (text "recipient") m);
      payload_digest = text_of (value_at (text "payload_digest") (some v));
    }

pub record ReviewReceipt : Type 0 where
  pub delivery_id : Text
  pub payload_digest : Text
  pub received_at : Text

abbrev pub invalid_receipt : DomainError
invalid_receipt = record { code = invalid_delivery_receipt; status = 502; retryable = true }

-- `validateReviewReceipt(value, packet)`, of a value with the fields of a receipt.
unfoldable pub validate_review_receipt : ReviewReceipt → ReviewPacket → Result ReviewReceipt
validate_review_receipt receipt packet = do
  require
      (text_eq receipt.delivery_id packet.delivery_id
        && text_eq receipt.payload_digest packet.payload_digest
        && delivery_iso receipt.received_at)
      invalid_receipt
  ok receipt

module _ (sha256 : List ℕ → Text) where
  -- `deliveryHash(value)`
  unfoldable pub delivery_hash : Json → Result Text
  delivery_hash value = do
    canonical ← canonicalize value
    ok (text "sha256:" ++ sha256 (utf8 canonical))

  -- `value.payload_digest !== deliveryHash(m)` fails.
  unfoldable pub has_digest : Option Json → Option Json → Bool
  has_digest (some m) digest = accepted (delivery_hash m) (λ t. is_text digest t)
  has_digest none digest = false

  unfoldable pub is_packet : Json → Bool
  is_packet v =
      has_exactly (text "message" ∷ text "payload_digest" ∷ []) (some v)
      && accepted (canonicalize v) (λ t. leb (byte_length t) delivery_max_bytes)
      && is_message (value_at (text "message") (some v))
      && has_digest (value_at (text "message") (some v)) (value_at (text "payload_digest") (some v))

  unfoldable pub validate_review_packet : Json → Result ReviewPacket
  validate_review_packet v = do
    require (is_packet v) (failure invalid_delivery_packet 400)
    ok (packet_of v)
