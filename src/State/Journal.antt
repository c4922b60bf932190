-- ===== src/State/Journal.antt =====
-- The journal of packages/storage/local-ledger.ts: `validateJournalRows`, the event that `transact`
-- appends and the writes that `apply` makes. The writes of an event come in the order of their keys.
use knowledger.Base.{
  ℕ, ◌+◌, Bool, true, false, ◌&&◌, ◌||◌, not, List, [], ◌∷◌, Option, none, some, Text, text,
  text_eq, all, ◌==◌, if◌then◌else◌,
}
use knowledger.Json.{Json}
use knowledger.Json.Canonical.{same_json}
use knowledger.Ledger.Keys.{Key}
use knowledger.Ledger.Store.{Store, put}
use knowledger.State.Writes.{validate_state_write, is_immutable}
use knowledger.State.Links.{validate_state_links}

abbrev pub WriteSet : Type 0
WriteSet = List (Key × Json)

-- What the hash of a block is taken of: the event without that hash.
pub record UnsignedEvent : Type 0 where
  pub channel_id : Text
  pub block_number : ℕ
  pub transaction_index : ℕ
  pub transaction_id : Text
  pub previous_hash : Text
  pub timestamp : Text
  pub validation_code : Text
  pub reducer_version : ℕ
  pub writes : WriteSet

pub record LedgerEvent : Type 0 where
  pub unsigned : UnsignedEvent
  pub block_hash : Text

pub record JournalRow : Type 0 where
  pub sequence : ℕ
  pub event : LedgerEvent

abbrev pub zero_hash : Text
zero_hash = text "0000000000000000000000000000000000000000000000000000000000000000"

module _ (sha256 : List ℕ → Text) (hash_record : UnsignedEvent → Text) where
  unfoldable pub valid_writes : WriteSet → Bool
  valid_writes ws = all (λ w. validate_state_write sha256 (w.0) (w.1)) ws

  unfoldable pub valid_row : Text → Text → ℕ → JournalRow → Bool
  valid_row channel previous expected row =
      row.sequence == expected
      && row.event.unsigned.block_number == expected
      && row.event.unsigned.transaction_index == 0
      && text_eq row.event.unsigned.channel_id channel
      && text_eq row.event.unsigned.previous_hash previous
      && text_eq (hash_record row.event.unsigned) row.event.block_hash
      && row.event.unsigned.reducer_version == 1
      && text_eq row.event.unsigned.validation_code (text "VALID")
      && valid_writes row.event.unsigned.writes

  -- The loop, with `previousHash` and `expectedSequence`.
  unfoldable pub validate_journal_rows : Text → Text → ℕ → List JournalRow → Bool
  validate_journal_rows channel previous expected [] = true
  validate_journal_rows channel previous expected (row ∷ rows) =
      valid_row channel previous expected row
      && validate_journal_rows channel row.event.block_hash (expected + 1) rows

  -- The row that `transact` inserts after `previous`, the event at the tip.
  unfoldable pub next_number : Option LedgerEvent → ℕ
  next_number none = 0 + 1
  next_number (some e) = e.unsigned.block_number + 1

  unfoldable pub next_hash : Option LedgerEvent → Text
  next_hash none = zero_hash
  next_hash (some e) = e.block_hash

  unfoldable pub unsigned_event : Text → Option LedgerEvent → Text → Text → WriteSet → UnsignedEvent
  unsigned_event channel previous tx_id timestamp writes = record {
    channel_id = channel;
    block_number = next_number previous;
    transaction_index = 0;
    transaction_id = tx_id;
    previous_hash = next_hash previous;
    timestamp = timestamp;
    validation_code = text "VALID";
    reducer_version = 1;
    writes = writes;
  }

  unfoldable pub committed_row : Text → Option LedgerEvent → Text → Text → WriteSet → JournalRow
  committed_row channel previous tx_id timestamp writes =
      let unsigned = unsigned_event channel previous tx_id timestamp writes in
      record {
        sequence = next_number previous;
        event = record { unsigned = unsigned; block_hash = hash_record unsigned };
      }

  -- `checkpoint()`: the last event, or the one before the rows.
  unfoldable pub tip : Option LedgerEvent → List JournalRow → Option LedgerEvent
  tip previous [] = previous
  tip previous (row ∷ rows) = tip (some row.event) rows

  -- An immutable value may be written again only as it is.
  unfoldable pub keeps_immutable : Key → Json → Store → Bool
  keeps_immutable key v s = elim (s.at key) [
    | none ↦ true
    | some prior ↦ not (is_immutable key.prefix) || same_json prior v
  ]

  -- The first loop of `apply`, of a live commit.
  unfoldable pub apply_writes : WriteSet → Store → Option Store
  apply_writes [] s = some s
  apply_writes ((key, v) ∷ ws) s =
      let rest = apply_writes ws (put key v s) in
      elim (validate_state_write sha256 key v && keeps_immutable key v s) [
        | true ↦ rest
        | false ↦ none
      ]

  -- The second loop runs after all the writes.
  unfoldable pub apply : WriteSet → Store → Option Store
  apply ws s = elim (apply_writes ws s) [
    | none ↦ none
    | some t ↦ if all (λ w. validate_state_links sha256 t (w.0) (w.1)) ws then some t else none
  ]
