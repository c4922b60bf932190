-- ===== src/Resolve/Soundness.antt =====
-- What `resolveInternal` of packages/domain/index.ts promises: an eligible answer has a derivation.
use knowledger.Base.{
  ℕ, zero, suc, ◌+◌, ◌≤◌, true, false, List, [], ◌∷◌, none, some, Option-cases, inl, inr, ◌⊎◌, Text,
  text_eq→eq, includes, find, subst, ◌≡◌, refl, ap, ◌∙◌, sym, arith,
}
use knowledger.Fault.{ok, Result-cases}
use knowledger.Json.{Json}
use knowledger.Contracts.Slot.{Slot, is_slot, slot_text, slot_key, same_slot}
use knowledger.Contracts.Revision.{
  DocumentRevision, RevisionDependency, Enforcement, requires_active, informational,
  validate_revision,
}
use knowledger.Contracts.Policy.{AgreementPolicy}
use knowledger.Contracts.Config.{DomainConfig, is_policy, validate_config}
use knowledger.Contracts.Decision.{ApprovalDecision}
use knowledger.Contracts.Agreement.{
  AgreementRecord, AgreementStatus, active, is_active, validate_agreement,
}
use knowledger.Ledger.Keys.{
  config_key, revision_key, agreement_key, slot_pointer_key, active_slot_key, unchecked_key,
}
use knowledger.Ledger.Store.{Store, read}
use knowledger.Resolve.Approvals.{validate_agreement_approvals}
use knowledger.Resolve.{
  ResolveResult, eligible, ineligible, Reason, Walk, Pointer, points_to, points_nowhere,
  read_pointer, check_approvals, is_required, resolve_dependencies, Checked, usable, refused,
  check_revision, check_policy, check_agreement, check_pointer, resolve_node, resolve_step,
  resolve_internal, resolve_at, max_nodes,
}

module _ (sha256 : List ℕ → Text) (s : Store) (config : DomainConfig) where
  -- What holds of the agreement and the revision that a slot resolves to, by themselves.
  pub record Local (slot : Slot) (a : AgreementRecord) (rev : DocumentRevision) : Type 0 where
    pub stored : Json
    pub pointed : Text
    pub policy : AgreementPolicy
    pub decisions : List ApprovalDecision
    pub content : Json
    pub points : read_pointer (read (slot_pointer_key (slot_text slot)) s) ≡ points_to pointed
    pub found : read (agreement_key pointed) s ≡ some stored
    pub well_formed : validate_agreement stored ≡ ok a
    pub is_current : a.status ≡ active
    pub in_slot : slot_text a.slot ≡ slot_text slot
    pub same_epoch : a.membership_epoch ≡ config.membership_epoch
    pub same_binding : a.role_binding_version ≡ config.role_binding_version
    pub known_policy : find (is_policy a.policy_id a.policy_version) config.policies ≡ some policy
    pub policy_slot : slot_text policy.slot ≡ slot_text a.slot
    pub approvals : validate_agreement_approvals s a ≡ ok decisions
    pub published : read (revision_key a.revision_digest) s ≡ some content
    pub intact : validate_revision sha256 content ≡ ok rev
    pub same_digest : rev.revision_digest ≡ a.revision_digest
    pub same_place : slot_text rev.payload.slot ≡ slot_text slot

  is_active-eq : (x : AgreementStatus) → is_active x ≡ true → x ≡ active
  unfolding is_active
  is_active-eq active h = refl
  is_active-eq _ h = cc

  same_slot-eq : (x y : Slot) → same_slot x y ≡ ok true → slot_text x ≡ slot_text y
  unfolding same_slot slot_key
  same_slot-eq x y h = ground (arith, text_eq→eq (slot_text x) (slot_text y))

  check_revision-inv :
      (slot : Slot) (a a' : AgreementRecord) (rev : DocumentRevision)
      → check_revision sha256 s config slot a ≡ ok (usable a' rev)
      → (content : Json) × (a' ≡ a)
        × (read (revision_key a.revision_digest) s ≡ some content)
        × (validate_revision sha256 content ≡ ok rev)
        × (rev.revision_digest ≡ a.revision_digest)
        × (slot_text rev.payload.slot ≡ slot_text slot)
  unfolding check_revision
  check_revision-inv slot a a' rev h =
      elim (Option-cases (read (revision_key a.revision_digest) s)) [
        | inl e ↦ absurd (ground (arith, e))
        | inr (content, e) ↦ (
          content,
          ground (arith, e),
          e,
          ground (arith, e),
          ground (arith, e, text_eq→eq rev.revision_digest a.revision_digest),
          ground (arith, e, same_slot-eq rev.payload.slot slot),
        )
      ]

  check_policy-inv :
      (slot : Slot) (a a' : AgreementRecord) (rev : DocumentRevision)
      → check_policy sha256 s config slot a ≡ ok (usable a' rev)
      → (policy : AgreementPolicy) × (decisions : List ApprovalDecision) × (find
            (is_policy a.policy_id a.policy_version)
            config.policies
          ≡ some policy)
        × (slot_text policy.slot ≡ slot_text a.slot)
        × (validate_agreement_approvals s a ≡ ok decisions)
        × (check_revision sha256 s config slot a ≡ ok (usable a' rev))
  unfolding check_policy check_approvals
  check_policy-inv slot a a' rev h =
      elim (Option-cases (find (is_policy a.policy_id a.policy_version) config.policies)) [
        | inl e ↦ absurd (ground (arith, e))
        | inr (policy, e) ↦ elim (Result-cases (validate_agreement_approvals s a)) [
          | inl (f, g) ↦ absurd (ground (arith, e, g))
          | inr (decisions, g) ↦ (
            policy,
            decisions,
            e,
            ground (arith, e, same_slot-eq policy.slot a.slot),
            g,
            ground (arith, e, g),
          )
        ]
      ]

  check_agreement-inv :
      (slot : Slot) (a a' : AgreementRecord) (rev : DocumentRevision)
      → check_agreement sha256 s config slot a ≡ ok (usable a' rev)
      → (a.status ≡ active)
        × (slot_text a.slot ≡ slot_text slot)
        × (a.membership_epoch ≡ config.membership_epoch)
        × (a.role_binding_version ≡ config.role_binding_version)
        × (check_policy sha256 s config slot a ≡ ok (usable a' rev))
  unfolding check_agreement
  check_agreement-inv slot a a' rev h = (
    ground (arith, is_active-eq a.status),
    ground (arith, same_slot-eq a.slot slot),
    ground arith,
    ground arith,
    ground arith,
  )

  check_pointer-inv :
      (slot : Slot) (id : Text) (a' : AgreementRecord) (rev : DocumentRevision)
      → check_pointer sha256 s config slot (points_to id) ≡ ok (usable a' rev)
      → (stored : Json) × (a : AgreementRecord) × (read (agreement_key id) s ≡ some stored)
        × (validate_agreement stored ≡ ok a)
        × (check_agreement sha256 s config slot a ≡ ok (usable a' rev))
  unfolding check_pointer unchecked_key
  check_pointer-inv slot id a' rev h = elim (Option-cases (read (agreement_key id) s)) [
    | inl e ↦ absurd (ground (arith, e))
    | inr (stored, e) ↦ elim (Result-cases (validate_agreement stored)) [
      | inl (f, g) ↦ absurd (ground (arith, e, g))
      | inr (a, g) ↦ (stored, a, e, g, ground (arith, e, g))
    ]
  ]

  check_pointer-Local :
      (slot : Slot) (id : Text) (a : AgreementRecord) (rev : DocumentRevision)
      → read_pointer (read (slot_pointer_key (slot_text slot)) s) ≡ points_to id
      → check_pointer sha256 s config slot (points_to id) ≡ ok (usable a rev)
      → Local slot a rev
  check_pointer-Local slot id a rev points h =
      let (stored, b, found, well_formed, h1) = check_pointer-inv slot id a rev h in
      let (is_current, in_slot, epoch, binding, h2) = check_agreement-inv slot b a rev h1 in
      let (policy, decisions, known, policy_slot, approvals, h3) =
        check_policy-inv slot b a rev h2 in
      let (content, same, published, intact, digest, place) = check_revision-inv slot b a rev h3 in
      rw same (record {
        stored = stored;
        pointed = id;
        policy = policy;
        decisions = decisions;
        content = content;
        points = points;
        found = found;
        well_formed = well_formed;
        is_current = is_current;
        in_slot = in_slot;
        same_epoch = epoch;
        same_binding = binding;
        known_policy = known;
        policy_slot = policy_slot;
        approvals = approvals;
        published = published;
        intact = intact;
        same_digest = digest;
        same_place = place;
      })

  -- A derivation of eligibility: `room` bounds its height, no slot of `seen` occurs on it, and the last
  -- number is that of its nodes.
  mutual
    pub data Eligible : ℕ → List Text → Slot → AgreementRecord → DocumentRevision → ℕ → Type 0 where
      derive :
          {room : ℕ} {seen : List Text} {slot : Slot} {a : AgreementRecord} {rev : DocumentRevision}
          {nodes : ℕ}
          → slot.channel_id ≡ config.channel_id
          → includes (slot_text slot) seen ≡ false
          → Local slot a rev
          → Dependencies room (slot_text slot ∷ seen) rev.payload.dependencies nodes
          → Eligible (suc room) seen slot a rev (suc nodes)

    -- Each required dependency is eligible, at the revision that it names.
    pub data Dependencies : ℕ → List Text → List RevisionDependency → ℕ → Type 0 where
      finished : {room : ℕ} {seen : List Text} → Dependencies room seen [] 0
      skip :
          {room : ℕ} {seen : List Text} {d : RevisionDependency} {ds : List RevisionDependency}
          {nodes : ℕ}
          → d.enforcement ≡ informational
          → Dependencies room seen ds nodes
          → Dependencies room seen (d ∷ ds) nodes
      follow :
          {room : ℕ} {seen : List Text} {d : RevisionDependency} {ds : List RevisionDependency}
          {a : AgreementRecord} {rev : DocumentRevision} {nodes others : ℕ}
          → Eligible room seen d.slot a rev nodes
          → rev.revision_digest ≡ d.revision_digest
          → Dependencies room seen ds others
          → Dependencies room seen (d ∷ ds) (nodes + others)

  -- A walk whose eligible answers have derivations, whose nodes it counts within the budget.
  abbrev pub IsSound : ℕ → Walk → Type 0
  IsSound room walk =
      (slot : Slot) (seen : List Text) (count : ℕ) (a : AgreementRecord) (rev : DocumentRevision)
      (count' : ℕ)
      → walk slot seen count ≡ ok (eligible a rev, count')
      → (nodes : ℕ) × Eligible room seen slot a rev nodes
        × (count' ≡ count + nodes)
        × (count' ≤ max_nodes)

  result_cases :
      (r : ResolveResult)
      → ((reason : Reason) × (r ≡ ineligible reason))
        ⊎ ((a : AgreementRecord) × (rev : DocumentRevision) × (r ≡ eligible a rev))
  result_cases (eligible a rev) = inr (a, rev, refl)
  result_cases (ineligible reason) = inl (reason, refl)

  enforcement_cases : (e : Enforcement) → (e ≡ requires_active) ⊎ (e ≡ informational)
  enforcement_cases requires_active = inl refl
  enforcement_cases informational = inr refl

  resolve_dependencies-required :
      (walk : Walk) (seen : List Text) (d : RevisionDependency) (ds : List RevisionDependency)
      (count count' : ℕ)
      → d.enforcement ≡ requires_active
      → resolve_dependencies walk seen (d ∷ ds) count ≡ ok (none, count')
      → (a : AgreementRecord) × (rev : DocumentRevision) × (middle : ℕ) × (walk d.slot seen count
          ≡ ok (eligible a rev, middle))
        × (rev.revision_digest ≡ d.revision_digest)
        × (resolve_dependencies walk seen ds middle ≡ ok (none, count'))
  unfolding resolve_dependencies is_required
  resolve_dependencies-required walk seen d ds count count' e h =
      elim (Result-cases (walk d.slot seen count)) [
        | inl (f, g) ↦ absurd (ground (arith, e, g))
        | inr (o, g) ↦ elim (result_cases (o.0)) [
          | inl (reason, q) ↦ absurd (ground (arith, e, g, q))
          | inr (a, rev, q) ↦ (
            a,
            rev,
            o.1,
            ground (arith, g, q),
            ground (arith, e, g, q, text_eq→eq rev.revision_digest d.revision_digest),
            ground (arith, e, g, q),
          )
        ]
      ]

  resolve_dependencies-skip :
      (walk : Walk) (seen : List Text) (d : RevisionDependency) (ds : List RevisionDependency)
      (count : ℕ)
      → d.enforcement ≡ informational
      → resolve_dependencies walk seen (d ∷ ds) count ≡ resolve_dependencies walk seen ds count
  unfolding resolve_dependencies is_required
  resolve_dependencies-skip walk seen d ds count e = ground arith

  resolve_dependencies_sound :
      (room : ℕ) (walk : Walk) (seen : List Text)
      → IsSound room walk
      → (ds : List RevisionDependency) (count count' : ℕ)
      → resolve_dependencies walk seen ds count ≡ ok (none, count')
      → count ≤ max_nodes
      → (nodes : ℕ) × Dependencies room seen ds nodes
        × (count' ≡ count + nodes)
        × (count' ≤ max_nodes)
  unfolding resolve_dependencies
  resolve_dependencies_sound room walk seen sound [] count count' h fits =
      (0, finished, ground arith, ground arith)
  resolve_dependencies_sound room walk seen sound (d ∷ ds) count count' h fits =
      elim (enforcement_cases d.enforcement) [
        | inl e ↦
            let (a, rev, middle, w, digest, h1) =
              resolve_dependencies-required walk seen d ds count count' e h in
            let (nodes, derived, grows, bounded) = sound d.slot seen count a rev middle w in
            let (others, rest, grows', bounded') =
              resolve_dependencies_sound room walk seen sound ds middle count' h1 bounded in
            (nodes + others, follow derived digest rest, omega arith, bounded')
        | inr e ↦
            let (others, rest, grows, bounded) =
              resolve_dependencies_sound room walk seen sound ds count count'
                (sym (resolve_dependencies-skip walk seen d ds count e) ∙ h) fits in
            (others, skip e rest, grows, bounded)
      ]

  pointer_cases :
      (q : Pointer) → ((r : Reason) × (q ≡ points_nowhere r)) ⊎ ((id : Text) × (q ≡ points_to id))
  pointer_cases (points_to id) = inr (id, refl)
  pointer_cases (points_nowhere r) = inl (r, refl)

  checked_cases :
      (c : Checked sha256 s config)
      → ((r : Reason) × (c ≡ refused r))
        ⊎ ((a : AgreementRecord) × (rev : DocumentRevision) × (c ≡ usable a rev))
  checked_cases (usable a rev) = inr (a, rev, refl)
  checked_cases (refused r) = inl (r, refl)

  resolve_node-inv :
      (walk : Walk) (slot : Slot) (seen : List Text) (count count' : ℕ) (a : AgreementRecord)
      (rev : DocumentRevision)
      → is_slot slot ≡ true
      → resolve_node sha256 s config walk slot seen count ≡ ok (eligible a rev, count')
      → Local slot a rev
        × (resolve_dependencies walk seen rev.payload.dependencies count ≡ ok (none, count'))
  unfolding resolve_node active_slot_key slot_key
  resolve_node-inv walk slot seen count count' a rev shape h =
      elim (pointer_cases (read_pointer (read (slot_pointer_key (slot_text slot)) s))) [
        | inl (r, q) ↦ absurd (ground (arith, shape, q, nowhere r))
        | inr (id, q) ↦ elim (Result-cases (check_pointer sha256 s config slot (points_to id))) [
          | inl (f, g) ↦ absurd (ground (arith, shape, q, g))
          | inr (c, g) ↦ elim (checked_cases c) [
            | inl (r, e) ↦ absurd (ground (arith, shape, q, g, e))
            | inr (b, rev', e) ↦
                let same : (a ≡ b) × (rev ≡ rev') =
                  (ground (arith, shape, q, g, e), ground (arith, shape, q, g, e)) in
                (
                  check_pointer-Local slot id a rev q (g ∙ ap ok (e ∙ cc (same.0, same.1))),
                  ground (arith, shape, q, g, e),
                )
          ]
        ]
      ]
    where
      nowhere :
          (r : Reason) → check_pointer sha256 s config slot (points_nowhere r) ≡ ok (refused r)
      nowhere r = unfold check_pointer in refl

  resolve_step-inv :
      (walk : Walk) (slot : Slot) (seen : List Text) (count count' : ℕ) (a : AgreementRecord)
      (rev : DocumentRevision)
      → resolve_step sha256 s config (some walk) slot seen count ≡ ok (eligible a rev, count')
      → (is_slot slot ≡ true)
        × (slot.channel_id ≡ config.channel_id)
        × (includes (slot_text slot) seen ≡ false)
        × (count + 1 ≤ max_nodes)
        × (resolve_node sha256 s config walk slot (slot_text slot ∷ seen) (count + 1)
            ≡ ok (eligible a rev, count'))
  unfolding resolve_step
  resolve_step-inv walk slot seen count count' a rev h = (
    ground arith,
    ground (arith, text_eq→eq slot.channel_id config.channel_id),
    ground arith,
    ground arith,
    ground arith,
  )

  -- An eligible answer of `resolveInternal` has a derivation: the slot's pointer leads to an active
  -- agreement of the slot, of the current configuration, with its policy and valid approvals and an
  -- intact revision, and so for each required dependency, at most `room` deep and with no slot
  -- twice on a path. The count grew by the number of its nodes, and the budget was kept.
  pub resolve_internal-IsSound : (room : ℕ) → IsSound room (resolve_internal sha256 s config room)
  unfolding resolve_internal
  resolve_internal-IsSound zero slot seen count a rev count' h =
      absurd (unfold resolve_step in ground arith)
  resolve_internal-IsSound (suc room) slot seen count a rev count' h =
      let (shape, channel, fresh, fits, h1) =
        resolve_step-inv (resolve_internal sha256 s config room) slot seen count count' a rev h in
      let (local, h2) =
        resolve_node-inv (resolve_internal sha256 s config room) slot (slot_text slot ∷ seen)
          (count + 1) count' a rev shape h1 in
      let (nodes, below, grows, bounded) =
        resolve_dependencies_sound room (resolve_internal sha256 s config room)
          (slot_text slot ∷ seen) (resolve_internal-IsSound room) rev.payload.dependencies
          (count + 1) count' h2 fits in
      (suc nodes, derive channel fresh local below, omega arith, bounded)

module _ (sha256 : List ℕ → Text) (s : Store) where
  -- `resolveAt` answers eligible only while serving is enabled in a valid configuration, with a
  -- derivation at most nine nodes high, of as many nodes as it counted, which are at most 256.
  pub resolve_at_sound :
      (slot : Slot) (a : AgreementRecord) (rev : DocumentRevision) (count : ℕ)
      → resolve_at sha256 s slot [] 0 0 ≡ ok (eligible a rev, count)
      → (config : DomainConfig) × (value : Json) × (read config_key s ≡ some value)
        × (validate_config value ≡ ok config)
        × (config.serving_enabled ≡ true)
        × Eligible sha256 s config 9 [] slot a rev count
        × (count ≤ max_nodes)
  unfolding resolve_at
  resolve_at_sound slot a rev count h = elim (Option-cases (read config_key s)) [
    | inl e ↦ absurd (ground (arith, e))
    | inr (value, e) ↦ elim (Result-cases (validate_config value)) [
      | inl (f, g) ↦ absurd (ground (arith, e, g))
      | inr (config, g) ↦
          let (nodes, derived, grows, bounded) =
            resolve_internal-IsSound sha256 s config 9 slot [] 0 a rev count
              (ground (arith, e, g)) in
          (
            config,
            value,
            e,
            g,
            ground (arith, e, g),
            subst (Eligible sha256 s config 9 [] slot a rev) (omega arith) derived,
            bounded,
          )
    ]
  ]
