-- ===== src/Contracts/Actor.antt =====
-- `Actor`, `sameActor` and the context of a transaction, packages/domain/index.ts.
use knowledger.Base.{Bool, true, false, ◌&&◌, [], ◌∷◌, Option, some, Text, text, text_eq}
use knowledger.Fault.{Result, ok, err, DomainError, invalid, require, ◌>>=◌, ◌>>◌}
use knowledger.Json.{Json, str, obj, end, field, prop, assert_record, assert_keys}
use knowledger.Contracts.Identifiers.{is_id, is_bounded_text, assert_id}

pub data ActorKind : Type 0 where
  human agent : ActorKind

pub record Actor : Type 0 where
  pub org_id : Text
  pub actor_id : Text
  pub kind : ActorKind

unfoldable pub is_human : ActorKind → Bool
is_human human = true
is_human agent = false

unfoldable pub same_kind : ActorKind → ActorKind → Bool
same_kind human human = true
same_kind agent agent = true
same_kind _ _ = false

unfoldable pub same_actor : Actor → Actor → Bool
same_actor left right =
    text_eq left.org_id right.org_id
    && text_eq left.actor_id right.actor_id
    && same_kind left.kind right.kind

unfoldable pub kind_text : ActorKind → Text
kind_text human = text "human"
kind_text agent = text "agent"

-- `kind !== "human" && kind !== "agent"` fails with the error that is given.
unfoldable pub read_kind : DomainError → Option Json → Result ActorKind
read_kind e (some (str t)) = elim (text_eq t (text "human")) [
  | true ↦ ok human
  | false ↦ elim (text_eq t (text "agent")) [ true ↦ ok agent | false ↦ err e ]
]
read_kind e v = err e

-- An actor inside a stored record.
unfoldable pub read_actor : DomainError → Option Json → Result Actor
read_actor e v = do
  fs ← assert_record v
  assert_keys fs (text "org_id" ∷ text "actor_id" ∷ text "kind" ∷ []) []
  org_id ← assert_id (prop (text "org_id") fs)
  actor_id ← assert_id (prop (text "actor_id") fs)
  kind ← read_kind e (prop (text "kind") fs)
  ok (record { org_id = org_id; actor_id = actor_id; kind = kind })

unfoldable pub encode_actor : Actor → Json
encode_actor a = obj (
    field (text "org_id") (str a.org_id)
      (field (text "actor_id") (str a.actor_id) (field (text "kind") (str (kind_text a.kind)) end)))

-- `TxContext`, less the reads and writes, which go to a store.
pub record Context : Type 0 where
  pub actor : Actor
  pub channel_id : Text
  pub tx_id : Text
  pub timestamp : Text

unfoldable pub assert_context : Context → Result (Unit {0})
assert_context ctx = do
  require (is_id ctx.actor.org_id) invalid
  require (is_id ctx.actor.actor_id) invalid
  require (is_id ctx.channel_id) invalid
  require (is_bounded_text 200 ctx.tx_id) invalid
  require (is_bounded_text 80 ctx.timestamp) invalid
