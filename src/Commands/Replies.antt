-- ===== src/Commands/Replies.antt =====
-- What a command returns, as JSON, and the counter of eligibility: `incrementEpoch` of
-- packages/domain/index.ts.
use knowledger.Base.{ℕ, ◌+◌, List, [], ◌∷◌, none, some, Text, String, text, leb}
use knowledger.Fault.{Result, ok, failure, state_limit, require, ◌>>=◌, ◌>>◌}
use knowledger.Json.{
  Json, num, whole, str, obj, Fields, end, field, max_safe_integer, assert_safe_integer,
}
use knowledger.Ledger.Keys.{epoch_key}
use knowledger.Ledger.Store.{Store, read, put}

abbrev pub Outcome : Type 0
Outcome = Result (Json × Store)

add_fields : List (Text × Json) → Fields
add_fields [] = end
add_fields ((k, v) ∷ rest) = field k v (add_fields rest)

-- `{ status, ... }`
unfoldable pub reply : String → List (Text × Json) → Json
unfolding add_fields
reply status rest = obj (field (text "status") (str (text status)) (add_fields rest))

-- `{ decision_id: id }` and the like
abbrev pub pointer : String → Json → Json
pointer name v = obj (field (text name) v end)

unfoldable pub increment_epoch : Store → Result (ℕ × Store)
increment_epoch s = elim (read epoch_key s) [
  | none ↦ ok (1, put epoch_key (num (whole 1)) s)
  | some v ↦ do
    existing ← assert_safe_integer (some v) 0
    require (leb (existing + 1) max_safe_integer) (failure state_limit 409)
    ok (existing + 1, put epoch_key (num (whole (existing + 1))) s)
]
