-- ===== src/Examples/World.antt =====
-- A configuration, a published revision, its approved proposal and the agreement that it leads to, as
-- packages/domain/index.ts stores them.
use knowledger.Base.{ℕ, true, List, [], ◌∷◌, ◌++◌, none, Text, text}
use knowledger.Json.{Json, str, obj, Fields, end, field, null}
use knowledger.Contracts.Identifiers.{number}
use knowledger.Contracts.Slot.{Slot, slot_text}
use knowledger.Contracts.Actor.{Actor, human, Context}
use knowledger.Contracts.Revision.{DocumentRevision, human_authored, encode_revision}
use knowledger.Contracts.Policy.{AgreementPolicy, RoleRepresentative, encode_policy}
use knowledger.Contracts.Config.{ConfigIdentity, DomainConfig, encode_config}
use knowledger.Contracts.Proposal.{AgreementProposal, open_for_review, encode_proposal}
use knowledger.Contracts.Decision.{ApprovalDecision, approve, object, encode_decision}
use knowledger.Contracts.Agreement.{AgreementRecord, active, encode_agreement}
use knowledger.Ledger.Keys.{
  config_key, policy_key, revision_key, proposal_key, decision_key, latest_decision_key,
  agreement_key, slot_pointer_key,
}
use knowledger.Ledger.Store.{Store, empty, put}
use knowledger.Ledger.Keys.{Key}
use knowledger.State.Journal.{UnsignedEvent}
use knowledger.Commands.Replies.{pointer}

abbrev zeros : Text
zeros = text "0000000000000000"

-- A digest function that forgets its input.
abbrev pub no_hash : List ℕ → Text
no_hash bytes = zeros ++ zeros ++ zeros ++ zeros

abbrev pub the_digest : Text
the_digest = text "sha256:" ++ no_hash []

abbrev pub the_slot : Slot
the_slot = record {
  channel_id = text "chan";
  document_id = text "docu";
  context_id = text "ctxt";
  scope_id = text "scop";
  usage_scope = text "use/v1";
}

abbrev pub ann : Actor
ann = record { org_id = text "orga"; actor_id = text "ann"; kind = human }

abbrev pub the_representative : RoleRepresentative
the_representative = record {
  domain_role = text "owner";
  actor_org_id = text "orga";
  actor_id = text "ann";
}

abbrev pub the_policy : AgreementPolicy
the_policy = record {
  policy_id = text "poli";
  policy_version = 1;
  slot = the_slot;
  membership_epoch = 1;
  role_binding_version = 1;
  acceptance_slot = text "main";
  required_domain_roles = text "owner" ∷ [];
  allowed_decisions = text "approve" ∷ text "object" ∷ [];
  role_representatives = the_representative ∷ [];
}

abbrev pub ann_identity : ConfigIdentity
ann_identity = record { actor = ann; publish_contexts = text "*" ∷ []; can_propose = true }

abbrev pub the_config : DomainConfig
the_config = record {
  config_version = number 1;
  channel_id = text "chan";
  membership_epoch = 1;
  role_binding_version = 1;
  serving_enabled = true;
  identities = ann_identity ∷ [];
  policies = the_policy ∷ [];
}

abbrev pub the_revision : DocumentRevision
the_revision = record {
  revision_digest = the_digest;
  payload = record {
    revision_id = text "revi";
    slot = the_slot;
    title = text "T";
    body_markdown = text "B";
    parents = [];
    dependencies = [];
    metadata = record {
      author_id = text "ann";
      created_at = text "now";
      source_kind = human_authored;
      shared_assertions = [];
      author_org_id = text "orga";
    };
  };
}

abbrev pub the_proposal : AgreementProposal
the_proposal = record {
  proposal_id = text "prop";
  revision_digest = the_digest;
  policy_id = text "poli";
  policy_version = 1;
  membership_epoch = 1;
  role_binding_version = 1;
  config_version = number 1;
  status = open_for_review;
  created_by = ann;
  created_at = text "now";
  review_counter = 1;
  slot = the_slot;
  agreement_id = none;
}

abbrev pub the_decision : ApprovalDecision
the_decision = record {
  decision_id = text "deci";
  revision_digest = the_digest;
  slot = the_slot;
  policy_id = text "poli";
  policy_version = 1;
  membership_epoch = 1;
  role_binding_version = 1;
  actor_org_id = text "orga";
  actor_id = text "ann";
  subject_id = text "ann";
  actor_domain_role = text "owner";
  decision = approve;
  rationale = text "R";
  decided_at = text "now";
  proposal_id = text "prop";
  retracts_decision_id = none;
}

abbrev pub the_agreement : AgreementRecord
the_agreement = record {
  agreement_id = text "agre";
  proposal_id = text "prop";
  revision_digest = the_digest;
  policy_id = text "poli";
  policy_version = 1;
  membership_epoch = 1;
  role_binding_version = 1;
  approval_decision_ids = text "deci" ∷ [];
  status = active;
  activated_by = ann;
  activated_at = text "now";
  slot = the_slot;
  status_reason = none;
  status_changed_by = none;
  status_changed_at = none;
}

abbrev pub first_context : Context
first_context = record {
  actor = ann;
  channel_id = text "chan";
  tx_id = text "tx1";
  timestamp = text "now";
}

abbrev pub second_context : Context
second_context = record {
  actor = ann;
  channel_id = text "chan";
  tx_id = text "tx2";
  timestamp = text "later";
}

abbrev pub bootstrapped : Store
bootstrapped = put config_key (encode_config the_config) empty

abbrev pub approved_proposal : Store
approved_proposal =
    put (latest_decision_key (text "prop") 1 (text "owner") (text "orga") (text "ann"))
      (pointer "decision_id" (str (text "deci")))
      (put (decision_key (text "deci")) (encode_decision the_decision) (
        put (proposal_key (text "prop")) (encode_proposal the_proposal)
          (put (revision_key the_digest) (encode_revision the_revision) bootstrapped)))

abbrev pub agreed : Store
agreed =
    put (slot_pointer_key (slot_text the_slot)) (pointer "agreement_id" (str (text "agre")))
      (put (agreement_key (text "agre")) (encode_agreement the_agreement) approved_proposal)

-- `{ command_id, type, input }`
abbrev pub command : Text → Text → Fields → Json
command id kind input = obj (
    field (text "command_id") (str id)
      (field (text "type") (str kind) (field (text "input") (obj input) end)))

abbrev pub fence_input : Text → Fields
fence_input nonce = field (text "nonce") (str nonce) end

abbrev pub fence : Json
fence = command (text "cmd1") (text "fence") (fence_input (text "nonce-0123456789abcdef"))

abbrev pub activate_input : Fields
activate_input = field (text "proposal_id") (str (text "prop")) (
    field (text "agreement_id") (str (text "agre"))
      (field (text "expected_active_agreement_id") null end))

-- The same command id with another type.
abbrev pub other_command : Json
other_command = command (text "cmd1") (text "publish_revision") end

-- An agreement on another revision, which the activation of the proposal replaces.
abbrev pub old_agreement : AgreementRecord
old_agreement = record the_agreement {
  agreement_id = text "prev";
  revision_digest =
      text "sha256:"
      ++ text "1111111111111111"
      ++ text "1111111111111111"
      ++ text "1111111111111111"
      ++ text "1111111111111111";
}

abbrev pub replaceable : Store
replaceable =
    put (slot_pointer_key (slot_text the_slot)) (pointer "agreement_id" (str (text "prev")))
      (put (agreement_key (text "prev")) (encode_agreement old_agreement) approved_proposal)

abbrev pub replacement_input : Fields
replacement_input = field (text "proposal_id") (str (text "prop")) (
    field (text "agreement_id") (str (text "agre"))
      (field (text "expected_active_agreement_id") (str (text "prev")) end))

abbrev pub the_objection : ApprovalDecision
the_objection = record the_decision { decision_id = text "obje"; decision = object }

abbrev pub objection_input : Fields
objection_input = field (text "decision") (encode_decision the_objection) end

abbrev pub withdrawal_input : Fields
withdrawal_input =
    field (text "agreement_id") (str (text "agre")) (field (text "reason") (str (text "old")) end)

-- The state with the policy's record, which an adapter's links lead to.
abbrev pub linked_state : Store
linked_state = put (policy_key (text "poli") 1) (encode_policy the_policy) agreed

abbrev pub the_writes : List (Key × Json)
the_writes = (revision_key the_digest, encode_revision the_revision) ∷ []

abbrev pub no_record_hash : UnsignedEvent → Text
no_record_hash e = zeros
