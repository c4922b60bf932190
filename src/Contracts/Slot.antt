-- ===== src/Contracts/Slot.antt =====
-- `Slot`, `slotKey`, `sameSlot` and `assertSlotShape` of packages/domain/index.ts.
use knowledger.Base.{Bool, ◌&&◌, ◌∷◌, ◌++◌, Text, text, text_eq}
use knowledger.Fault.{Result, ok, invalid, require, ◌>>=◌, ◌>>◌}
use knowledger.Json.{str, Fields, field, prop}
use knowledger.Contracts.Identifiers.{is_id, is_usage_scope, assert_id, assert_usage_scope}

pub record Slot : Type 0 where
  pub channel_id : Text
  pub document_id : Text
  pub context_id : Text
  pub scope_id : Text
  pub usage_scope : Text

-- The test of `assertSlotShape` on a slot that is already a record of strings.
unfoldable pub is_slot : Slot → Bool
is_slot s =
    is_id s.channel_id
    && is_id s.document_id
    && is_id s.context_id
    && is_id s.scope_id
    && is_usage_scope s.usage_scope

-- `assertSlotShape(value)` and `slotFields(value)`
unfoldable pub read_slot : Fields → Result Slot
read_slot v = do
  channel_id ← assert_id (prop (text "channel_id") v)
  document_id ← assert_id (prop (text "document_id") v)
  context_id ← assert_id (prop (text "context_id") v)
  scope_id ← assert_id (prop (text "scope_id") v)
  usage_scope ← assert_usage_scope (prop (text "usage_scope") v)
  ok (record {
    channel_id = channel_id;
    document_id = document_id;
    context_id = context_id;
    scope_id = scope_id;
    usage_scope = usage_scope;
  })

-- `[...].join("|")`
unfoldable pub slot_text : Slot → Text
slot_text s =
    s.channel_id
    ++ b'|'
      ∷ (s.document_id ++ b'|' ∷ (s.context_id ++ b'|' ∷ (s.scope_id ++ b'|' ∷ s.usage_scope)))

unfoldable pub slot_key : Slot → Result Text
slot_key s = do require (is_slot s) invalid; ok (slot_text s)

unfoldable pub same_slot : Slot → Slot → Result Bool
same_slot left right = do a ← slot_key left; b ← slot_key right; ok (text_eq a b)

-- The fields of a slot before others.
unfoldable pub slot_fields : Slot → Fields → Fields
slot_fields s rest = field (text "channel_id") (str s.channel_id) (
    field (text "document_id") (str s.document_id) (
      field (text "context_id") (str s.context_id) (
        field (text "scope_id") (str s.scope_id)
          (field (text "usage_scope") (str s.usage_scope) rest))))
