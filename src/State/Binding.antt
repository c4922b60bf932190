-- ===== src/State/Binding.antt =====
-- The key/value binding of `validateStateWrite`, packages/storage/state-validation.ts.
use knowledger.Base.{
  ℕ, true, ◌&&◌, List, [], ◌∷◌, Option, some, Option-cases, inl, inr, Text, text_eq, text_eq→eq,
  ◌≡◌, refl, ap, sym, arith, and_parts,
}
use knowledger.Fault.{Result, ok, err}
use knowledger.Json.{Json}
use knowledger.Contracts.Slot.{Slot, is_slot, slot_text}
use knowledger.Contracts.Revision.{validate_revision}
use knowledger.Contracts.Policy.{validate_policy}
use knowledger.Contracts.Config.{validate_config}
use knowledger.Contracts.Proposal.{validate_proposal}
use knowledger.Contracts.Decision.{validate_decision}
use knowledger.Contracts.Agreement.{validate_agreement}
use knowledger.Ledger.Keys.{
  Key, Prefix, config, revision, revision_id, policy, proposal, decision, latest_decision,
  review_counter, agreement, active_slot, eligibility_epoch, idempotency, fence, config_key,
  revision_key, policy_key, proposal_key, decision_key, agreement_key, epoch_key, key_eq,
}
use knowledger.Ledger.Laws.{key_eq→eq}
use knowledger.State.Writes.{
  accepted, split, slot_of, names_slot, valid_active_slot, valid_value, validate_state_write,
}

-- A value of the type that the validator reads, whose key this is.
abbrev pub Holds {ℓ} : {A : Type ℓ} → Result A → (A → Key) → Key → Type ℓ
Holds {A} r key_of key = (a : A) × (r ≡ ok a) × (key ≡ key_of a)

accepted-Holds {ℓ} :
    {A : Type ℓ} (r : Result A) (key_of : A → Key) (key : Key)
    → accepted r (λ a. key_eq key (key_of a)) ≡ true
    → Holds r key_of key
unfolding accepted
accepted-Holds (ok a) key_of key h = (a, refl, key_eq→eq key (key_of a) h)
accepted-Holds (err e) key_of key h = cc

module _ (sha256 : List ℕ → Text) where
  -- What a key says of the value that is stored there.
  abbrev pub IsBound : Key → Json → Type 0
  IsBound key v = elim key.prefix [
    | config ↦ Holds (validate_config v) (λ c. config_key) key
    | revision ↦ Holds (validate_revision sha256 v) (λ r. revision_key r.revision_digest) key
    | policy ↦ Holds (validate_policy v) (λ p. policy_key p.policy_id p.policy_version) key
    | proposal ↦ Holds (validate_proposal v) (λ p. proposal_key p.proposal_id) key
    | decision ↦ Holds (validate_decision v) (λ d. decision_key d.decision_id) key
    | agreement ↦ Holds (validate_agreement v) (λ a. agreement_key a.agreement_id) key
    | active_slot ↦ (slot : Slot) × (is_slot slot ≡ true) × (key.parts ≡ slot_text slot ∷ [])
    | eligibility_epoch ↦ key ≡ epoch_key
    | _ ↦ Unit
  ]

  names_slot-eq :
      (t : Text)
      → names_slot t ≡ true
      → (slot : Slot) × (is_slot slot ≡ true) × (t ≡ slot_text slot)
  unfolding names_slot
  names_slot-eq t h = elim (Option-cases (slot_of (split t))) [
    | inl e ↦ absurd (ground (arith, e))
    | inr (slot, e) ↦
        let both : (is_slot slot && text_eq (slot_text slot) t) ≡ true = ground (arith, e) in
        let (shape, same) = and_parts (is_slot slot) _ both in
        (slot, shape, sym (text_eq→eq (slot_text slot) t same))
  ]

  valid_active_slot-Slot :
      (parts : List Text) (v : Option Json)
      → valid_active_slot parts v ≡ true
      → (slot : Slot) × (is_slot slot ≡ true) × (parts ≡ slot_text slot ∷ [])
  unfolding valid_active_slot
  valid_active_slot-Slot [] v h = cc
  valid_active_slot-Slot (t ∷ []) v h =
      let (slot, shape, e) = names_slot-eq t (ground arith) in
      (slot, shape, ap (λ (x : Text). x ∷ []) e)
  valid_active_slot-Slot (t ∷ u ∷ rest) v h = cc

  valid_value-IsBound :
      (kind : Prefix) (parts : List Text) (v : Json)
      → valid_value sha256 (record { prefix = kind; parts = parts }) v ≡ true
      → IsBound (record { prefix = kind; parts = parts }) v
  unfolding valid_value
  valid_value-IsBound config parts v h = accepted-Holds _ _ _ h
  valid_value-IsBound revision parts v h = accepted-Holds _ _ _ h
  valid_value-IsBound policy parts v h = accepted-Holds _ _ _ h
  valid_value-IsBound proposal parts v h = accepted-Holds _ _ _ h
  valid_value-IsBound decision parts v h = accepted-Holds _ _ _ h
  valid_value-IsBound agreement parts v h = accepted-Holds _ _ _ h
  valid_value-IsBound active_slot parts v h = valid_active_slot-Slot parts (some v) h
  valid_value-IsBound eligibility_epoch parts v h = key_eq→eq _ epoch_key (ground arith)
  valid_value-IsBound revision_id parts v h = tt
  valid_value-IsBound latest_decision parts v h = tt
  valid_value-IsBound review_counter parts v h = tt
  valid_value-IsBound idempotency parts v h = tt
  valid_value-IsBound fence parts v h = tt

  -- A write that is accepted under the key of a configuration, revision, policy, proposal, decision
  -- or agreement has a value that its validator reads, and the key is the one of that value. The key
  -- of a slot's pointer is the text of a well-formed slot, and the epoch has a single key.
  pub validate_state_write-IsBound :
      (key : Key) (v : Json) → validate_state_write sha256 key v ≡ true → IsBound key v
  unfolding validate_state_write
  validate_state_write-IsBound key v h = valid_value-IsBound key.prefix key.parts v (ground arith)
