-- ===== src/Commands/History.antt =====
-- The records that no command of packages/domain/index.ts changes once they are written.
use knowledger.Base.{
  ℕ, Bool, true, false, ◌||◌, List, Option, none, some, Option-cases, inl, inr, Text, ◌≡◌, refl, ap,
  ◌∙◌, sym, arith,
}
use knowledger.Fault.{ok, >>=-eq-ok, ok_eq, ◌>>=◌}
use knowledger.Json.{Json, Fields, present, is_present}
use knowledger.Json.Canonical.{clone_canonical}
use knowledger.Contracts.Actor.{Context}
use knowledger.Contracts.Revision.{DocumentRevision}
use knowledger.Contracts.Config.{DomainConfig}
use knowledger.Contracts.Proposal.{AgreementProposal}
use knowledger.Contracts.Decision.{ApprovalDecision}
use knowledger.Contracts.Agreement.{AgreementRecord}
use knowledger.Ledger.Keys.{
  Key, Prefix, idempotency_key, revision_key, revision_id_key, decision_key, fence_key,
  active_slot_key,
}
use knowledger.Ledger.Store.{Store, read, put, put_clone}
use knowledger.Ledger.Laws.{same_prefix, key_eq→eq}
use knowledger.Commands.Replies.{increment_epoch}
use knowledger.Commands.Publish.{
  published, already_published, publish_new, publish_unless_known, read_revision_by_id,
  admit_publication, execute_publish,
}
use knowledger.Commands.Suspension.{deactivate, suspend_active_agreement}
use knowledger.Commands.Decide
use knowledger.Commands.Decide.{
  store_decision, suspend_unless_approved, record_decision, admit_decision, execute_decide,
}
use knowledger.Commands.Execute.{DomainCommand, perform_command, perform_once, replay, execute}
use knowledger.Commands.Idempotency.{execute_parts, store_record-eq}
use knowledger.Commands.Propose.{execute_propose}
use knowledger.Commands.Activate.{execute_activate}
use knowledger.Commands.Status.{DesiredStatus, withdraw, suspend, execute_status_change}
use knowledger.Commands.Fence.{read_epoch, admit_fence, store_fence, execute_fence}
use knowledger.Commands.Frames.{
  settling, perform_command-frame, execute_propose-frame, execute_activate-frame,
  execute_status_change-frame,
}

abbrev pub append_only : Prefix → Bool
append_only p =
    same_prefix Prefix.config p
    || same_prefix Prefix.revision p
    || same_prefix Prefix.revision_id p
    || same_prefix Prefix.decision p
    || same_prefix Prefix.fence p
    || same_prefix Prefix.idempotency p

-- A write at a key that held nothing.
read-put_new :
    (j k : Key) (v : Json) (s : Store) {u : Json}
    → read j s ≡ none
    → read k s ≡ some u
    → read k (put j v s) ≡ some u
unfolding put read
read-put_new j k v s fresh held =
    ground (arith, key_eq→eq j k, ap (λ (i : Key). s.at i) {x = j} {y = k})

publish_new-keeps :
    (sha256 : List ℕ → Text) (rev : DocumentRevision) (s : Store) (k : Key) {u r : Json} {t : Store}
    → read (revision_key rev.revision_digest) s ≡ none
    → read (revision_id_key rev.payload.revision_id) s ≡ none
    → publish_new sha256 rev s ≡ ok (r, t)
    → read k s ≡ some u
    → read k t ≡ some u
unfolding publish_new published put_clone clone_canonical put read
publish_new-keeps sha256 rev s k new_digest new_id h held = ground (
  arith,
  ap (λ (i : Key). s.at i) {x = revision_key rev.revision_digest} {y = k},
  ap (λ (i : Key). s.at i) {x = revision_id_key rev.payload.revision_id} {y = k},
  key_eq→eq (revision_key rev.revision_digest) k,
  key_eq→eq (revision_id_key rev.payload.revision_id) k,
)

store_decision-keeps :
    (p : AgreementProposal) (d : ApprovalDecision) (s : Store) (k : Key) {u : Json} {t : Store}
    → read (decision_key d.decision_id) s ≡ none
    → append_only k.prefix ≡ true
    → store_decision p d s ≡ ok t
    → read k s ≡ some u
    → read k t ≡ some u
unfolding store_decision put_clone clone_canonical put read
store_decision-keeps p d s k fresh kind h held = ground (
  arith,
  ap (λ (i : Key). s.at i) {x = decision_key d.decision_id} {y = k},
  key_eq→eq (decision_key d.decision_id) k,
)

suspend_unless_approved-frame :
    (ctx : Context) (p : AgreementProposal) (d : ApprovalDecision) (s : Store) (k : Key)
    {a : Option AgreementRecord} {t : Store}
    → suspend_unless_approved ctx p d s ≡ ok (a, t)
    → settling k.prefix ≡ false
    → t.at k ≡ s.at k
unfolding suspend_unless_approved suspend_active_agreement deactivate active_slot_key put put_clone
    clone_canonical increment_epoch
suspend_unless_approved-frame ctx p d s k h apart = ground arith

admit_decision-fresh :
    (sha256 : List ℕ → Text) (ctx : Context) (config : DomainConfig) (input : Fields) (s : Store)
    {a : Decide.Admitted}
    → admit_decision sha256 ctx config input s ≡ ok a
    → read (decision_key a.decision.decision_id) s ≡ none
unfolding admit_decision is_present
admit_decision-fresh sha256 ctx config input s h = ground arith

admit_fence-fresh :
    (ctx : Context) (config : DomainConfig) (input : Fields) (s : Store) {nonce : Text}
    → admit_fence ctx config input s ≡ ok nonce
    → read (fence_key nonce) s ≡ none
unfolding admit_fence is_present
admit_fence-fresh ctx config input s h = ground arith

read_revision_by_id-none :
    (sha256 : List ℕ → Text) (id : Text) (s : Store)
    → read_revision_by_id sha256 id s ≡ ok none
    → read (revision_id_key id) s ≡ none
unfolding read_revision_by_id
read_revision_by_id-none sha256 id s h = ground arith

read_eq : (k : Key) (s t : Store) → t.at k ≡ s.at k → read k t ≡ read k s
unfolding read
read_eq k s t h = ap present h

module _ (sha256 : List ℕ → Text) (ctx : Context) (config : DomainConfig) (input : Fields)
    (s : Store) (k : Key) {u r : Json} {t : Store} (held : read k s ≡ some u)
    (kind : append_only k.prefix ≡ true) where
  publish-keeps : execute_publish sha256 ctx config input s ≡ ok (r, t) → read k t ≡ some u
  unfolding execute_publish publish_unless_known already_published
  publish-keeps h =
      let (rev, e, h1) = >>=-eq-ok (admit_publication sha256 ctx config input) _ h in
      ground (
        arith,
        read_revision_by_id-none sha256 rev.payload.revision_id s,
        publish_new-keeps sha256 rev s k {u = u} {r = r} {t = t},
      )

  decide-keeps : execute_decide sha256 ctx config input s ≡ ok (r, t) → read k t ≡ some u
  unfolding execute_decide record_decision
  decide-keeps h =
      let (a, e, h1) = >>=-eq-ok (admit_decision sha256 ctx config input s) _ h in
      let (s1, e1, h2) = >>=-eq-ok (store_decision a.proposal a.decision s) _ h1 in
      let (done, e2, h3) = >>=-eq-ok (suspend_unless_approved ctx a.proposal a.decision s1) _ h2 in
      let same_store : t ≡ done.1 = ap (λ (o : Json × Store). o.1) (sym (ok_eq h3)) in
      rw same_store (
        read_eq k s1 (done.1)
          (suspend_unless_approved-frame ctx a.proposal a.decision s1 k e2 (ground arith))
        ∙ store_decision-keeps a.proposal a.decision s k
            (admit_decision-fresh sha256 ctx config input s e) kind e1 held)

  fence-keeps : execute_fence ctx config input s ≡ ok (r, t) → read k t ≡ some u
  unfolding execute_fence store_fence
  fence-keeps h =
      let (nonce, e, h1) = >>=-eq-ok (admit_fence ctx config input s) _ h in
      let (epoch, e1, h2) = >>=-eq-ok (read_epoch s) _ h1 in
      rw (ap (λ (o : Json × Store). o.1) (sym (ok_eq h2)))
        (read-put_new (fence_key nonce) k _ s (admit_fence-fresh ctx config input s e) held)

  propose-keeps : execute_propose sha256 ctx config input s ≡ ok (r, t) → read k t ≡ some u
  propose-keeps h =
      read_eq k s t (execute_propose-frame sha256 ctx config input s k h (ground arith)) ∙ held

  activate-keeps : execute_activate sha256 ctx config input s ≡ ok (r, t) → read k t ≡ some u
  activate-keeps h =
      read_eq k s t (execute_activate-frame sha256 ctx config input s k h (ground arith)) ∙ held

  status_change-keeps :
      (desired : DesiredStatus)
      → execute_status_change ctx config input desired s ≡ ok (r, t)
      → read k t ≡ some u
  status_change-keeps desired h =
      read_eq k s t
        (execute_status_change-frame sha256 ctx config input s k desired h (ground arith))
      ∙ held

module _ (sha256 : List ℕ → Text) (ctx : Context) (s : Store) (k : Key) {u r : Json} {t : Store}
    (held : read k s ≡ some u) (kind : append_only k.prefix ≡ true) where
  perform_command-keeps :
      (config : DomainConfig) (command : DomainCommand)
      → perform_command sha256 ctx config command s ≡ ok (r, t)
      → read k t ≡ some u
  unfolding perform_command
  perform_command-keeps config command h = ground (
    arith,
    publish-keeps sha256 ctx config command.input s k {u = u} {r = r} {t = t} held kind,
    propose-keeps sha256 ctx config command.input s k {u = u} {r = r} {t = t} held kind,
    decide-keeps sha256 ctx config command.input s k {u = u} {r = r} {t = t} held kind,
    activate-keeps sha256 ctx config command.input s k {u = u} {r = r} {t = t} held kind,
    status_change-keeps sha256 ctx config command.input s k {u = u} {r = r} {t = t} held kind
        withdraw,
    status_change-keeps sha256 ctx config command.input s k {u = u} {r = r} {t = t} held kind
        suspend,
    fence-keeps sha256 ctx config command.input s k {u = u} {r = r} {t = t} held kind,
  )

module _ (sha256 : List ℕ → Text) (ctx : Context) (s : Store) (k : Key) {u r : Json} {t : Store}
    (held : read k s ≡ some u) (kind : append_only k.prefix ≡ true) where
  -- Every command leaves each configuration, revision, revision id, decision, fence and idempotency
  -- record that was in the store as it was.
  pub execute-append_only :
      (value : Json) → execute sha256 ctx value s ≡ ok (r, t) → read k t ≡ some u
  unfolding perform_once
  execute-append_only value h =
      let (command, config, digest, e1, e2, e3, e4, e5, h1) = execute_parts sha256 ctx value s h in
      let id_key = idempotency_key ctx.actor.org_id command.command_id in
      elim (Option-cases (read id_key s)) [
        | inl fresh ↦
            let once : perform_once sha256 ctx config command digest s ≡ ok (r, t) =
              rw fresh at h1 in
            let (done, e6, h2) = >>=-eq-ok (perform_command sha256 ctx config command s) _ once in
            let (written, _, _) = store_record-eq ctx command digest done h2 in
            rw written (
              read-put_new id_key k _ (done.1)
                (read_eq id_key s (done.1)
                    (perform_command-frame sha256 ctx config command s id_key e6 refl)
                  ∙ fresh)
                (perform_command-keeps sha256 ctx s k held kind config command e6))
        | inr (prior, known) ↦
            let answered : (replay ctx command digest prior >>= λ result. ok (result, s))
                ≡ ok (r, t) =
              rw known at h1 in
            let (result, e6, h2) = >>=-eq-ok (replay ctx command digest prior) _ answered in
            rw (ap (λ (o : Json × Store). o.1) (sym (ok_eq h2))) held
      ]
