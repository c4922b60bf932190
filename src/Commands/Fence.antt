-- ===== src/Commands/Fence.antt =====
-- `executeFence` of packages/domain/index.ts.
use knowledger.Base.{ℕ, [], ◌∷◌, none, some, Text, text}
use knowledger.Fault.{
  Result, ok, failure, serving_frozen, immutable_conflict, require, fail_if, ◌>>=◌, ◌>>◌,
}
use knowledger.Json.{
  num, whole, str, obj, Fields, end, field, prop, assert_keys, assert_safe_integer, is_present,
}
use knowledger.Contracts.Identifiers.{assert_text, is_nonce}
use knowledger.Contracts.Actor.{Context}
use knowledger.Contracts.Config.{DomainConfig, configured_identity}
use knowledger.Ledger.Keys.{epoch_key, fence_key}
use knowledger.Ledger.Store.{Store, read, put}
use knowledger.Commands.Replies.{Outcome, reply}

unfoldable pub read_epoch : Store → Result ℕ
read_epoch s = elim (read epoch_key s) [ none ↦ ok 0 | some v ↦ assert_safe_integer (some v) 0 ]

-- `executeFence` up to its last read: a nonce that is new.
unfoldable pub admit_fence : Context → DomainConfig → Fields → Store → Result Text
admit_fence ctx config input s = do
  identity ← configured_identity config ctx.actor
  assert_keys input (text "nonce" ∷ []) []
  nonce ← assert_text is_nonce (prop (text "nonce") input)
  require config.serving_enabled (failure serving_frozen 409)
  fail_if (is_present (read (fence_key nonce) s)) (failure immutable_conflict 409)
  ok nonce

unfoldable pub store_fence : Context → Text → Store → Outcome
store_fence ctx nonce s = do
  epoch ← read_epoch s
  ok (
    reply "fenced" (
        (text "nonce", str nonce)
        ∷ (text "eligibility_epoch", num (whole epoch))
        ∷ (text "tx_id", str ctx.tx_id)
        ∷ []),
    put (fence_key nonce)
        (obj (
          field (text "nonce") (str nonce) (
            field (text "eligibility_epoch") (num (whole epoch))
              (field (text "tx_id") (str ctx.tx_id) end))))
        s,
  )

unfoldable pub execute_fence : Context → DomainConfig → Fields → Store → Outcome
execute_fence ctx config input s = do
  nonce ← admit_fence ctx config input s
  store_fence ctx nonce s
