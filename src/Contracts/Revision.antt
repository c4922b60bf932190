-- ===== src/Contracts/Revision.antt =====
-- `DocumentRevision`, `validateDependency`, `validateRevision`, `digestPayload` and
-- `assertNoAgreementId` of packages/domain/index.ts. SHA-256 is a parameter: bytes to hexadecimal.
use knowledger.Base.{
  ℕ, Bool, true, false, ◌&&◌, not, List, [], ◌∷◌, ◌++◌, Option, some, Text, text, text_eq, length,
  ltb, map,
}
use knowledger.Fault.{
  Result, ok, err, invalid, failure, digest_mismatch, require, fail_if, traverse, ◌>>=◌, ◌>>◌,
}
use knowledger.Unicode.{utf8, byte_length}
use knowledger.Json.{
  Json, num, whole, str, arr, obj, Items, nil, cons, Fields, end, field, from_list, prop, has_own,
  assert_record, assert_array, assert_keys, is_text, is_number,
}
use knowledger.Json.Canonical.{canonicalize, assert_unique_canonical}
use knowledger.Contracts.Identifiers.{
  is_relationship, assert_text, assert_id, assert_digest, assert_usage_scope,
  assert_non_empty_string,
}
use knowledger.Contracts.Slot.{Slot, slot_fields}

pub data Enforcement : Type 0 where
  requires_active informational : Enforcement

pub record RevisionDependency : Type 0 where
  pub slot : Slot
  pub revision_digest : Text
  pub relationship : Text
  pub enforcement : Enforcement

pub record SharedAssertion : Type 0 where
  pub assertion_id : Text
  pub statement : Text

pub data SourceKind : Type 0 where
  human_authored approved_import llm_drafted : SourceKind

pub record Metadata : Type 0 where
  pub author_id : Text
  pub created_at : Text
  pub source_kind : SourceKind
  pub shared_assertions : List SharedAssertion
  pub author_org_id : Text

pub record DocumentRevisionPayload : Type 0 where
  pub revision_id : Text
  pub slot : Slot
  pub title : Text
  pub body_markdown : Text
  pub parents : List Text
  pub dependencies : List RevisionDependency
  pub metadata : Metadata

pub record DocumentRevision : Type 0 where
  pub revision_digest : Text
  pub payload : DocumentRevisionPayload

unfoldable pub enforcement_text : Enforcement → Text
enforcement_text requires_active = text "requires_active"
enforcement_text informational = text "informational"

unfoldable pub encode_dependency : RevisionDependency → Json
encode_dependency d = obj (
    field (text "revision_digest") (str d.revision_digest) (
      field (text "relationship") (str d.relationship) (
        field (text "enforcement") (str (enforcement_text d.enforcement))
          (slot_fields d.slot end))))

unfoldable pub encode_assertion : SharedAssertion → Json
encode_assertion a = obj (
    field (text "assertion_id") (str a.assertion_id) (
      field (text "statement") (str a.statement)
        (field (text "source_visibility") (str (text "private_shared_assertion")) end)))

unfoldable pub source_kind_text : SourceKind → Text
source_kind_text human_authored = text "human_authored"
source_kind_text approved_import = text "approved_import"
source_kind_text llm_drafted = text "llm_drafted"

unfoldable pub encode_metadata : Metadata → Json
encode_metadata m = obj (
    field (text "author_id") (str m.author_id) (
      field (text "created_at") (str m.created_at) (
        field (text "source_kind") (str (source_kind_text m.source_kind)) (
          field (text "shared_assertions")
            (arr (from_list (map encode_assertion m.shared_assertions)))
            (field (text "author_org_id") (str m.author_org_id) end)))))

unfoldable pub encode_payload : DocumentRevisionPayload → Json
encode_payload p = obj (
    field (text "contract_type") (str (text "DocumentRevision")) (
      field (text "contract_version") (num (whole 1)) (
        field (text "revision_id") (str p.revision_id) (
          slot_fields p.slot (
            field (text "visibility") (str (text "shared_channel")) (
              field (text "title") (str p.title) (
                field (text "body_markdown") (str p.body_markdown) (
                  field (text "parents") (arr (from_list (map str p.parents))) (
                    field (text "dependencies")
                      (arr (from_list (map encode_dependency p.dependencies)))
                      (field (text "metadata") (encode_metadata p.metadata) end))))))))))

unfoldable pub encode_revision : DocumentRevision → Json
encode_revision r = obj (
    field (text "revision_digest") (str r.revision_digest)
      (field (text "payload") (encode_payload r.payload) end))

unfoldable pub read_enforcement : Option Json → Result Enforcement
read_enforcement v = elim (is_text v (text "requires_active")) [
  | true ↦ ok requires_active
  | false ↦ elim (is_text v (text "informational")) [
    | true ↦ ok informational
    | false ↦ err invalid
  ]
]

unfoldable pub validate_dependency : Text → Json → Result RevisionDependency
validate_dependency channel_id value = do
  fs ← assert_record (some value)
  assert_keys fs
      (text "revision_digest"
        ∷ text "context_id"
        ∷ text "usage_scope"
        ∷ text "relationship"
        ∷ text "enforcement"
        ∷ text "document_id"
        ∷ text "scope_id"
        ∷ text "channel_id"
        ∷ [])
      []
  revision_digest ← assert_digest (prop (text "revision_digest") fs)
  context_id ← assert_id (prop (text "context_id") fs)
  usage_scope ← assert_usage_scope (prop (text "usage_scope") fs)
  relationship ← assert_text is_relationship (prop (text "relationship") fs)
  enforcement ← read_enforcement (prop (text "enforcement") fs)
  document_id ← assert_id (prop (text "document_id") fs)
  scope_id ← assert_id (prop (text "scope_id") fs)
  require (is_text (prop (text "channel_id") fs) channel_id) invalid
  checked ← canonicalize value
  let dependency : RevisionDependency = record {
    slot = record {
      channel_id = channel_id;
      document_id = document_id;
      context_id = context_id;
      scope_id = scope_id;
      usage_scope = usage_scope;
    };
    revision_digest = revision_digest;
    relationship = relationship;
    enforcement = enforcement;
  }
  cloned ← canonicalize (encode_dependency dependency)
  ok dependency

unfoldable pub validate_assertion : Json → Result SharedAssertion
validate_assertion value = do
  fs ← assert_record (some value)
  assert_keys fs (text "assertion_id" ∷ text "statement" ∷ text "source_visibility" ∷ []) []
  assertion_id ← assert_id (prop (text "assertion_id") fs)
  statement ← assert_non_empty_string (prop (text "statement") fs) 300
  require (is_text (prop (text "source_visibility") fs) (text "private_shared_assertion")) invalid
  checked ← canonicalize value
  let assertion : SharedAssertion = record { assertion_id = assertion_id; statement = statement }
  cloned ← canonicalize (encode_assertion assertion)
  ok assertion

unfoldable pub read_source_kind : Option Json → Result SourceKind
read_source_kind v = elim (is_text v (text "human_authored")) [
  | true ↦ ok human_authored
  | false ↦ elim (is_text v (text "approved_import")) [
    | true ↦ ok approved_import
    | false ↦ elim (is_text v (text "llm_drafted")) [ true ↦ ok llm_drafted | false ↦ err invalid ]
  ]
]

unfoldable pub validate_metadata : Option Json → Result Metadata
validate_metadata value = do
  fs ← assert_record value
  assert_keys fs
      (text "author_id"
        ∷ text "created_at"
        ∷ text "source_kind"
        ∷ text "shared_assertions"
        ∷ text "author_org_id"
        ∷ [])
      []
  author_id ← assert_id (prop (text "author_id") fs)
  created_at ← assert_non_empty_string (prop (text "created_at") fs) 80
  source_kind ← read_source_kind (prop (text "source_kind") fs)
  entries ← assert_array (prop (text "shared_assertions") fs)
  shared_assertions ← traverse validate_assertion entries
  assert_unique_canonical (map encode_assertion shared_assertions)
  author_org_id ← assert_id (prop (text "author_org_id") fs)
  ok (record {
    author_id = author_id;
    created_at = created_at;
    source_kind = source_kind;
    shared_assertions = shared_assertions;
    author_org_id = author_org_id;
  })

-- `assertNoAgreementId`, as a test.
unfoldable mutual
  pub no_agreement_id : Json → Bool
  no_agreement_id (arr vs) = no_agreement_items vs
  no_agreement_id (obj fs) = not (has_own (text "agreement_id") fs) && no_agreement_fields fs
  no_agreement_id v = true

  no_agreement_items : Items → Bool
  no_agreement_items nil = true
  no_agreement_items (cons v vs) = no_agreement_id v && no_agreement_items vs

  no_agreement_fields : Fields → Bool
  no_agreement_fields end = true
  no_agreement_fields (field k v fs) = no_agreement_id v && no_agreement_fields fs

unfoldable pub validate_payload : Option Json → Result DocumentRevisionPayload
validate_payload value = do
  fs ← assert_record value
  assert_keys fs
      (text "contract_type"
        ∷ text "contract_version"
        ∷ text "revision_id"
        ∷ text "document_id"
        ∷ text "context_id"
        ∷ text "scope_id"
        ∷ text "usage_scope"
        ∷ text "channel_id"
        ∷ text "visibility"
        ∷ text "title"
        ∷ text "body_markdown"
        ∷ text "parents"
        ∷ text "dependencies"
        ∷ text "metadata"
        ∷ [])
      []
  require (is_text (prop (text "contract_type") fs) (text "DocumentRevision")) invalid
  require (is_number (prop (text "contract_version") fs) 1) invalid
  revision_id ← assert_id (prop (text "revision_id") fs)
  document_id ← assert_id (prop (text "document_id") fs)
  context_id ← assert_id (prop (text "context_id") fs)
  scope_id ← assert_id (prop (text "scope_id") fs)
  usage_scope ← assert_usage_scope (prop (text "usage_scope") fs)
  channel_id ← assert_id (prop (text "channel_id") fs)
  require (is_text (prop (text "visibility") fs) (text "shared_channel")) invalid
  title ← assert_non_empty_string (prop (text "title") fs) 200
  body_markdown ← assert_non_empty_string (prop (text "body_markdown") fs) 262144
  fail_if (ltb 262144 (byte_length body_markdown)) invalid
  parent_values ← assert_array (prop (text "parents") fs)
  fail_if (ltb 2 (length parent_values)) invalid
  parents ← traverse (λ v. assert_digest (some v)) parent_values
  assert_unique_canonical (map str parents)
  dependency_values ← assert_array (prop (text "dependencies") fs)
  fail_if (ltb 32 (length dependency_values)) invalid
  dependencies ← traverse (validate_dependency channel_id) dependency_values
  assert_unique_canonical (map encode_dependency dependencies)
  metadata ← validate_metadata (prop (text "metadata") fs)
  require (no_agreement_id (obj fs)) invalid
  ok (record {
    revision_id = revision_id;
    slot = record {
      channel_id = channel_id;
      document_id = document_id;
      context_id = context_id;
      scope_id = scope_id;
      usage_scope = usage_scope;
    };
    title = title;
    body_markdown = body_markdown;
    parents = parents;
    dependencies = dependencies;
    metadata = metadata;
  })

module _ (sha256 : List ℕ → Text) where
  unfoldable pub digest_payload : DocumentRevisionPayload → Result Text
  digest_payload payload = do
    canonical ← canonicalize (encode_payload payload)
    ok (text "sha256:" ++ sha256 (utf8 canonical))

  unfoldable pub validate_revision : Json → Result DocumentRevision
  validate_revision value = do
    fs ← assert_record (some value)
    assert_keys fs (text "revision_digest" ∷ text "payload" ∷ []) []
    revision_digest ← assert_digest (prop (text "revision_digest") fs)
    payload ← validate_payload (prop (text "payload") fs)
    canonical ← canonicalize (encode_payload payload)
    fail_if (ltb 524288 (byte_length canonical)) invalid
    expected_digest ← digest_payload payload
    require (text_eq revision_digest expected_digest) (failure digest_mismatch 400)
    ok (record { revision_digest = revision_digest; payload = payload })
