-- ===== src/Commands/Frames.antt =====
-- Which prefixes each command of packages/domain/index.ts writes.
use knowledger.Base.{ℕ, Bool, false, ◌||◌, List, Text, ◌≡◌, arith}
use knowledger.Fault.{ok}
use knowledger.Json.{Json, Fields}
use knowledger.Json.Canonical.{clone_canonical}
use knowledger.Contracts.Actor.{Context}
use knowledger.Contracts.Config.{DomainConfig}
use knowledger.Ledger.Keys.{
  Prefix, revision, revision_id, policy, proposal, decision, latest_decision, review_counter,
  agreement, active_slot, Key, eligibility_epoch, fence, active_slot_key,
}
use knowledger.Ledger.Store.{Store, put, put_clone}
use knowledger.Ledger.Laws.{same_prefix}
use knowledger.Commands.Replies.{increment_epoch}
use knowledger.Commands.Publish.{
  published, already_published, publish_new, publish_unless_known, execute_publish,
}
use knowledger.Commands.Propose.{open_proposal, execute_propose}
use knowledger.Commands.Suspension.{deactivate, suspend_active_agreement}
use knowledger.Commands.Decide.{
  store_decision, suspend_unless_approved, record_decision, execute_decide,
}
use knowledger.Commands.Activate.{supersede, commit_agreement, execute_activate}
use knowledger.Commands.Execute.{DomainCommand, perform_command}
use knowledger.Commands.Status.{
  DesiredStatus, withdraw, suspend, commit_status, execute_status_change,
}
use knowledger.Commands.Fence.{store_fence, execute_fence}

abbrev pub publishing : Prefix → Bool
publishing p = same_prefix revision p || same_prefix revision_id p

abbrev pub proposing : Prefix → Bool
proposing p = same_prefix proposal p || same_prefix review_counter p || same_prefix policy p

-- Agreements, their pointers and the epoch.
abbrev pub settling : Prefix → Bool
settling p = same_prefix agreement p || same_prefix active_slot p || same_prefix eligibility_epoch p

abbrev pub deciding : Prefix → Bool
deciding p =
    same_prefix decision p
    || same_prefix latest_decision p
    || same_prefix proposal p
    || same_prefix review_counter p
    || settling p

abbrev pub activating : Prefix → Bool
activating p = same_prefix proposal p || settling p

abbrev pub fencing : Prefix → Bool
fencing p = same_prefix fence p

module _ (sha256 : List ℕ → Text) (ctx : Context) (config : DomainConfig) (input : Fields)
    (s : Store) (k : Key) {r : Json} {t : Store} where
  pub execute_activate-frame :
      execute_activate sha256 ctx config input s ≡ ok (r, t)
      → activating k.prefix ≡ false
      → t.at k ≡ s.at k
  unfolding execute_activate commit_agreement supersede active_slot_key put put_clone
      clone_canonical increment_epoch
  execute_activate-frame h apart = ground arith

  pub execute_propose-frame :
      execute_propose sha256 ctx config input s ≡ ok (r, t)
      → proposing k.prefix ≡ false
      → t.at k ≡ s.at k
  unfolding execute_propose open_proposal put put_clone clone_canonical
  execute_propose-frame h apart = ground arith

  pub execute_publish-frame :
      execute_publish sha256 ctx config input s ≡ ok (r, t)
      → publishing k.prefix ≡ false
      → t.at k ≡ s.at k
  unfolding execute_publish publish_unless_known publish_new published already_published put
      put_clone clone_canonical
  execute_publish-frame h apart = ground arith

  pub execute_decide-frame :
      execute_decide sha256 ctx config input s ≡ ok (r, t)
      → deciding k.prefix ≡ false
      → t.at k ≡ s.at k
  unfolding execute_decide record_decision store_decision suspend_unless_approved
      suspend_active_agreement deactivate active_slot_key put put_clone clone_canonical
      increment_epoch
  execute_decide-frame h apart = ground arith

  pub execute_fence-frame :
      execute_fence ctx config input s ≡ ok (r, t) → fencing k.prefix ≡ false → t.at k ≡ s.at k
  unfolding execute_fence store_fence put
  execute_fence-frame h apart = ground arith

  pub execute_status_change-frame :
      (desired : DesiredStatus)
      → execute_status_change ctx config input desired s ≡ ok (r, t)
      → settling k.prefix ≡ false
      → t.at k ≡ s.at k
  unfolding execute_status_change commit_status active_slot_key put put_clone clone_canonical
      increment_epoch
  execute_status_change-frame desired h apart = ground arith

-- What a command may write, besides its idempotency record.
abbrev pub performing : Prefix → Bool
performing p = publishing p || proposing p || deciding p || activating p || fencing p

module _ (sha256 : List ℕ → Text) (ctx : Context) (config : DomainConfig) (command : DomainCommand)
    (s : Store) (k : Key) {r : Json} {t : Store} where
  pub perform_command-frame :
      perform_command sha256 ctx config command s ≡ ok (r, t)
      → performing k.prefix ≡ false
      → t.at k ≡ s.at k
  unfolding perform_command
  perform_command-frame h apart = ground (
    arith,
    execute_publish-frame sha256 ctx config command.input s k {r = r} {t = t},
    execute_propose-frame sha256 ctx config command.input s k {r = r} {t = t},
    execute_decide-frame sha256 ctx config command.input s k {r = r} {t = t},
    execute_activate-frame sha256 ctx config command.input s k {r = r} {t = t},
    execute_status_change-frame sha256 ctx config command.input s k {r = r} {t = t} withdraw,
    execute_status_change-frame sha256 ctx config command.input s k {r = r} {t = t} suspend,
    execute_fence-frame sha256 ctx config command.input s k {r = r} {t = t},
  )
