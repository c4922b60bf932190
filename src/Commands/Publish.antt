-- ===== src/Commands/Publish.antt =====
-- `validatePublication`, `readRevisionById`, `validatePublishedDependencyGraph` and
-- `executePublish` of packages/domain/index.ts.
use knowledger.Base.{
  ℕ, zero, suc, Bool, true, false, ◌&&◌, ◌||◌, List, [], ◌∷◌, Option, none, some, Text, text,
  text_eq, includes, length, ltb, ◌==◌, if◌then◌else◌,
}
use knowledger.Fault.{
  Result, ok, err, invalid, failure, corrupt, forbidden, scope_mismatch, serving_frozen,
  stale_configuration, immutable_conflict, parent_not_found, dependency_limit, dependency_cycle,
  dependency_not_found, dependency_scope_mismatch, require, ◌>>=◌, ◌>>◌,
}
use knowledger.Json.{
  Json, str, obj, Fields, end, field, prop, assert_record, assert_keys, assert_safe_integer,
  required_property,
}
use knowledger.Json.Canonical.{canonicalize, same_json}
use knowledger.Contracts.Identifiers.{ConfigVersion, assert_digest, assert_version, encode_version}
use knowledger.Contracts.Slot.{slot_key, same_slot}
use knowledger.Contracts.Actor.{Context}
use knowledger.Contracts.Revision.{
  DocumentRevision, RevisionDependency, validate_revision, encode_revision,
}
use knowledger.Contracts.Config.{DomainConfig, ConfigIdentity, configured_identity}
use knowledger.Ledger.Keys.{revision_key, revision_id_key}
use knowledger.Ledger.Store.{Store, read, read_or, put, put_clone}
use knowledger.Commands.Replies.{Outcome, reply, pointer}

pub record Publication : Type 0 where
  pub revision : DocumentRevision
  pub config_version : ConfigVersion
  pub membership_epoch : ℕ

-- The revisions of the graph that were seen so far.
abbrev pub Visit : Type 0
Visit = DocumentRevision → List Text → List Text → Result (List Text)

abbrev pub max_revisions : ℕ
max_revisions = 256

module _ (sha256 : List ℕ → Text) where
  unfoldable pub validate_publication : Fields → Result Publication
  validate_publication input = do
    assert_keys input (text "revision" ∷ text "publication" ∷ []) []
    revision_value ← required_property (text "revision") input
    revision ← validate_revision sha256 revision_value
    fs ← assert_record (prop (text "publication") input)
    assert_keys fs (text "revision_digest" ∷ text "config_version" ∷ text "membership_epoch" ∷ [])
        []
    digest ← assert_digest (prop (text "revision_digest") fs)
    config_version ← assert_version (prop (text "config_version") fs)
    membership_epoch ← assert_safe_integer (prop (text "membership_epoch") fs) 1
    require (text_eq digest revision.revision_digest) invalid
    ok (record {
      revision = revision;
      config_version = config_version;
      membership_epoch = membership_epoch;
    })

  -- The compact pointer has the digest alone; any other value is an older full revision.
  unfoldable pub pointed_digest : Json → Option Text
  pointed_digest (obj (field k (str t) end)) =
      if text_eq k (text "revision_digest") then some t else none
  pointed_digest v = none

  unfoldable pub read_revision_by_id : Text → Store → Result (Option DocumentRevision)
  read_revision_by_id id s = elim (read (revision_id_key id) s) [
    | none ↦ ok none
    | some v ↦ elim (pointed_digest v) [
      | none ↦ do r ← validate_revision sha256 v; ok (some r)
      | some t ↦ do
        digest ← assert_digest (some (str t))
        value ← read_or corrupt (revision_key digest) s
        r ← validate_revision sha256 value
        ok (some r)
    ]
  ]

  -- The loop over the dependencies of a revision on the path.
  unfoldable pub visit_dependencies :
      Visit → Store → List Text → List RevisionDependency → List Text → Result (List Text)
  visit_dependencies walk s path [] seen = ok seen
  visit_dependencies walk s path (d ∷ ds) seen = do
    value ← read_or (failure dependency_not_found 409) (revision_key d.revision_digest) s
    target ← validate_revision sha256 value
    require (text_eq target.revision_digest d.revision_digest)
        (failure dependency_scope_mismatch 409)
    same ← same_slot target.payload.slot d.slot
    require same (failure dependency_scope_mismatch 409)
    seen' ← walk target path seen
    visit_dependencies walk s path ds seen'

  -- `walk`, with `room` for `9 - depth`. The path is what the set `path` holds during the call.
  unfoldable pub visit : Store → ℕ → Visit
  visit s zero current path seen = err (failure dependency_limit 409)
  visit s (suc room) current path seen = elim (includes current.revision_digest path) [
    | true ↦ err (failure dependency_cycle 409)
    | false ↦ elim (includes current.revision_digest seen) [
      | true ↦ ok seen
      | false ↦ elim (ltb max_revisions (suc (length seen))) [
        | true ↦ err (failure dependency_limit 409)
        | false ↦
            visit_dependencies (visit s room) s (current.revision_digest ∷ path)
              current.payload.dependencies (current.revision_digest ∷ seen)
      ]
    ]
  ]

  unfoldable pub validate_published_dependency_graph : Store → DocumentRevision → Result (List Text)
  validate_published_dependency_graph s root = visit s 9 root [] []

  -- Every parent is published, in the same slot.
  unfoldable pub check_parents : DocumentRevision → List Text → Store → Result (Unit {0})
  check_parents revision [] s = ok tt
  check_parents revision (parent ∷ parents) s = do
    value ← read_or (failure parent_not_found 409) (revision_key parent) s
    p ← validate_revision sha256 value
    same ← same_slot p.payload.slot revision.payload.slot
    require same (failure scope_mismatch 409)
    check_parents revision parents s

  unfoldable pub published : DocumentRevision → Store → Outcome
  published revision s = do
    slot ← slot_key revision.payload.slot
    ok (
      reply "published"
          ((text "revision_digest", str revision.revision_digest) ∷ (text "slot", str slot) ∷ []),
      s,
    )

  unfoldable pub already_published : DocumentRevision → Store → Outcome
  already_published revision s = do
    slot ← slot_key revision.payload.slot
    ok (
      reply "already_published"
          ((text "revision_digest", str revision.revision_digest) ∷ (text "slot", str slot) ∷ []),
      s,
    )

  -- The digest and the id are new.
  unfoldable pub publish_new : DocumentRevision → Store → Outcome
  publish_new revision s = do
    check_parents revision revision.payload.parents s
    seen ← validate_published_dependency_graph s revision
    stored ← put_clone (revision_key revision.revision_digest) (encode_revision revision) s
    published revision (
        put (revision_id_key revision.payload.revision_id)
          (pointer "revision_digest" (str revision.revision_digest)) stored)

  unfoldable pub publish_unless_known : DocumentRevision → Store → Outcome
  publish_unless_known revision s = elim (read (revision_key revision.revision_digest) s) [
    | some v ↦ do
      existing ← validate_revision sha256 v
      require (same_json (encode_revision existing) (encode_revision revision))
          (failure immutable_conflict 409)
      already_published revision s
    | none ↦ do
      existing ← read_revision_by_id revision.payload.revision_id s
      elim existing [
        | some r ↦ do
          require (text_eq r.revision_digest revision.revision_digest)
              (failure immutable_conflict 409)
          already_published revision s
        | none ↦ publish_new revision s
      ]
  ]

  unfoldable pub can_publish : ConfigIdentity → Text → Bool
  can_publish identity context_id =
      includes (text "*") identity.publish_contexts || includes context_id identity.publish_contexts

  -- `assertConfigVersionEqual`
  unfoldable pub assert_config_version_equal : ConfigVersion → ConfigVersion → Result (Unit {0})
  assert_config_version_equal left right = do
    a ← canonicalize (encode_version left)
    b ← canonicalize (encode_version right)
    require (text_eq a b) (failure stale_configuration 409)

  -- `executePublish` up to the reads of what is published.
  unfoldable pub admit_publication : Context → DomainConfig → Fields → Result DocumentRevision
  admit_publication ctx config input = do
    identity ← configured_identity config ctx.actor
    publication ← validate_publication input
    let revision = publication.revision
    require
        (text_eq ctx.channel_id config.channel_id
          && text_eq revision.payload.slot.channel_id config.channel_id)
        (failure scope_mismatch 409)
    require (can_publish identity revision.payload.slot.context_id) (failure forbidden 403)
    require config.serving_enabled (failure serving_frozen 409)
    assert_config_version_equal publication.config_version config.config_version
    require (publication.membership_epoch == config.membership_epoch)
        (failure stale_configuration 409)
    ok revision

  unfoldable pub execute_publish : Context → DomainConfig → Fields → Store → Outcome
  execute_publish ctx config input s = do
    revision ← admit_publication ctx config input
    publish_unless_known revision s
