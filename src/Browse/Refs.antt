-- ===== src/Browse/Refs.antt =====
-- `Checkpoint` of packages/storage/local-ledger.ts, the references of packages/storage/browse-contract.ts,
-- and their comparators, static tests and checks in packages/storage/browse-index.ts. A reference is a
-- value here, so that the clones are the identity.
use Prim.Native.Nat.{Ordering}
use knowledger.Base.{
  ℕ, suc, Bool, not, ◌&&◌, [], Option, none, some, Text, text_eq, text_lt, length, ltb, leb, ◌==◌,
  if◌then◌else◌,
}
use knowledger.Fault.{Result, thrown_error, require}
use knowledger.Json.{max_safe_integer}
use knowledger.Contracts.Slot.{Slot, slot_text}
use knowledger.Browse.Sort.{is_before, is_after, or_else}

-- The index of a transaction in its block, and none where the source has -1: a checkpoint of a whole
-- block.
pub record Checkpoint : Type 0 where
  pub channel_id : Text
  pub block_number : ℕ
  pub transaction_index : Option ℕ
  pub transaction_id : Text
  pub block_hash : Text

-- -1 and the indices, in their order.
abbrev pub index_rank : Option ℕ → ℕ
index_rank none = 0
index_rank (some n) = suc n

unfoldable pub checkpoint_order : Checkpoint → Checkpoint → Ordering
checkpoint_order left right =
    if not (left.block_number == right.block_number)
    then (if ltb left.block_number right.block_number then Ordering.lt else Ordering.gt)
    else if not (index_rank left.transaction_index == index_rank right.transaction_index)
    then (if ltb (index_rank left.transaction_index) (index_rank right.transaction_index)
        then Ordering.lt
        else Ordering.gt)
    else Ordering.eq

-- `checkpointOrder(left, right) < 0`
unfoldable pub earlier : Checkpoint → Checkpoint → Bool
earlier left right = is_before (checkpoint_order left right)

unfoldable pub visible : Checkpoint → Checkpoint → Bool
visible checkpoint at = not (is_after (checkpoint_order checkpoint at))

unfoldable pub is_index : Option ℕ → Text → Bool
is_index none transaction_id = text_eq transaction_id []
is_index (some n) transaction_id = leb n max_safe_integer && leb 1 (length transaction_id)

unfoldable pub assert_checkpoint : Checkpoint → Text → Result (Unit {0})
assert_checkpoint value channel_id =
    require
      (text_eq value.channel_id channel_id
        && leb value.block_number max_safe_integer
        && is_index value.transaction_index value.transaction_id
        && leb 1 (length value.block_hash))
      thrown_error

pub record RevisionBrowseRef : Type 0 where
  pub key : Text
  pub revision_digest : Text
  pub slot : Slot
  pub published_checkpoint : Checkpoint

pub record ProposalBrowseRef : Type 0 where
  pub key : Text
  pub proposal_id : Text
  pub revision_digest : Text
  pub slot : Slot
  pub created_at : Text
  pub published_checkpoint : Checkpoint

pub record AgreementBrowseRef : Type 0 where
  pub key : Text
  pub agreement_id : Text
  pub revision_digest : Text
  pub slot : Slot
  pub activated_at : Text
  pub published_checkpoint : Checkpoint

-- `slotKey(left) === slotKey(right)`, of slots of validated records, which have keys.
unfoldable pub matching_slots : Slot → Slot → Bool
matching_slots left right = text_eq (slot_text left) (slot_text right)

unfoldable pub static_revision_matches : RevisionBrowseRef → RevisionBrowseRef → Bool
static_revision_matches existing next =
    text_eq existing.key next.key
    && text_eq existing.revision_digest next.revision_digest
    && matching_slots existing.slot next.slot

unfoldable pub static_proposal_matches : ProposalBrowseRef → ProposalBrowseRef → Bool
static_proposal_matches existing next =
    text_eq existing.key next.key
    && text_eq existing.proposal_id next.proposal_id
    && text_eq existing.revision_digest next.revision_digest
    && text_eq existing.created_at next.created_at
    && matching_slots existing.slot next.slot

unfoldable pub static_agreement_matches : AgreementBrowseRef → AgreementBrowseRef → Bool
static_agreement_matches existing next =
    text_eq existing.key next.key
    && text_eq existing.agreement_id next.agreement_id
    && text_eq existing.revision_digest next.revision_digest
    && text_eq existing.activated_at next.activated_at
    && matching_slots existing.slot next.slot

-- `>` first
unfoldable pub descending : Text → Text → Ordering
descending left right =
    if text_eq left right
    then Ordering.eq
    else if text_lt right left
    then Ordering.lt
    else Ordering.gt

unfoldable pub compare_agreements : AgreementBrowseRef → AgreementBrowseRef → Ordering
compare_agreements left right =
    or_else (descending left.activated_at right.activated_at)
      (descending left.agreement_id right.agreement_id)

-- `String.prototype.localeCompare`, whose order is the one of the platform's locale.
module _ (locale_compare : Text → Text → Ordering) where
  unfoldable pub compare_revisions : RevisionBrowseRef → RevisionBrowseRef → Ordering
  compare_revisions left right =
      or_else (checkpoint_order right.published_checkpoint left.published_checkpoint)
        (locale_compare left.revision_digest right.revision_digest)

  unfoldable pub compare_proposals : ProposalBrowseRef → ProposalBrowseRef → Ordering
  compare_proposals left right =
      or_else (locale_compare right.created_at left.created_at)
        (locale_compare left.proposal_id right.proposal_id)

-- What the index needs of a kind of references.
pub record RefKind (R : Type 0) : Type 0 where
  pub key_of : R → Text
  pub published : R → Checkpoint
  pub republish : Checkpoint → R → R
  pub matches : R → R → Bool
  pub compare : R → R → Ordering

module _ (locale_compare : Text → Text → Ordering) where
  abbrev pub revision_kind : RefKind RevisionBrowseRef
  revision_kind = record {
    key_of = λ r. r.key;
    published = λ r. r.published_checkpoint;
    republish = λ c r. record {
      key = r.key;
      revision_digest = r.revision_digest;
      slot = r.slot;
      published_checkpoint = c;
    };
    matches = static_revision_matches;
    compare = compare_revisions locale_compare;
  }

  abbrev pub proposal_kind : RefKind ProposalBrowseRef
  proposal_kind = record {
    key_of = λ r. r.key;
    published = λ r. r.published_checkpoint;
    republish = λ c r. record {
      key = r.key;
      proposal_id = r.proposal_id;
      revision_digest = r.revision_digest;
      slot = r.slot;
      created_at = r.created_at;
      published_checkpoint = c;
    };
    matches = static_proposal_matches;
    compare = compare_proposals locale_compare;
  }

abbrev pub agreement_kind : RefKind AgreementBrowseRef
agreement_kind = record {
  key_of = λ r. r.key;
  published = λ r. r.published_checkpoint;
  republish = λ c r. record {
    key = r.key;
    agreement_id = r.agreement_id;
    revision_digest = r.revision_digest;
    slot = r.slot;
    activated_at = r.activated_at;
    published_checkpoint = c;
  };
  matches = static_agreement_matches;
  compare = compare_agreements;
}
