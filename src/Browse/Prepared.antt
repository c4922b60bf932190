-- ===== src/Browse/Prepared.antt =====
-- What `prepare` of packages/storage/browse-index.ts collects of the revisions: references with distinct
-- keys and well-formed slots.
use Prim.Native.Nat.{Ordering}
use knowledger.Base.{
  ℕ, ◌≡◌, refl, sym, ap, subst, inl, inr, true, false, not, ◌&&◌, ◌||◌, List, [], ◌∷◌, ◌++◌, Option,
  none, some, Text, text, text_eq, All, All-map, All-append, Bool-cases, filter, filter-All,
}
use knowledger.Fault.{ok, thrown_error, require, fail_if, >>=-eq-ok, ok_eq}
use knowledger.Json.{Json}
use knowledger.Contracts.Slot.{is_slot}
use knowledger.Contracts.Revision.{validate_revision}
use knowledger.Contracts.Slotted.{validate_revision-slot}
use knowledger.Ledger.Keys.{state_key, revision_key}
use knowledger.Browse.Refs.{
  RefKind, Checkpoint, RevisionBrowseRef, visible, assert_checkpoint, revision_kind, proposal_kind,
  agreement_kind,
}
use knowledger.Browse.Merge.{
  Changes, has_key, lookup, precedes, precedes_any, note_demote, lower, revise, record_with,
  record_ref, fresh, demoted, is_fresh, is_demotion,
}
use knowledger.Browse.Distinct.{map-All, IsReady, IsApart, record_ref-IsReady, IsReady-IsApart}
use knowledger.Browse.State.{
  BrowseState, BrowseWriteBatch, Delta, no_delta, starts_with, is_block_only, is_empty,
  revision_ref, proposal_ref, agreement_ref, prepare_write, prepare_writes, prepare_batches,
  prepare,
}

-- All that is collected has the property, and so has all that `commit` takes of it.
module _ {R : Type 0} (kind : RefKind R) (P : R → Type 0) where
  abbrev pub AllOf : Changes R → Type 0
  AllOf c = All P c.pending × All P c.demotions

  pub fresh-All : (by_key : Text → Option R) (c : Changes R) → AllOf c → All P (fresh kind by_key c)
  unfolding fresh
  fresh-All by_key c hs = filter-All P (is_fresh kind by_key) c.pending hs.0

  pub demoted-All :
      (by_key : Text → Option R) (c : Changes R) → AllOf c → All P (demoted kind by_key c)
  unfolding demoted
  demoted-All by_key c hs =
      All-append P (filter (is_demotion kind by_key) c.pending)
        (filter (is_demotion kind by_key) c.demotions)
        (filter-All P (is_demotion kind by_key) c.pending hs.0)
        (filter-All P (is_demotion kind by_key) c.demotions hs.1)

-- A predicate that a lower checkpoint does not touch holds of all that is collected.
module _ {R : Type 0} (kind : RefKind R) (P : R → Type 0)
    (lowers : (ref r : R) → P ref → P r → P (kind.republish (kind.published ref) r)) where
  lower-P : (ref r : R) → P ref → P r → P (lower kind ref r)
  unfolding lower
  lower-P ref r k h = elim (Bool-cases (has_key kind (kind.key_of ref) r)) [
    | inl e ↦ rw e (lowers ref r k h)
    | inr e ↦ rw e h
  ]

  note_demote-P : (ref : R) (xs : List R) → P ref → All P xs → All P (note_demote kind ref xs)
  unfolding note_demote
  note_demote-P ref [] h hs = (h, tt)
  note_demote-P ref (x ∷ xs) h hs = elim (Bool-cases (has_key kind (kind.key_of ref) x)) [
    | inr e ↦ rw e (hs.0, note_demote-P ref xs h hs.1)
    | inl e ↦
        rw e (elim (Bool-cases (precedes kind ref x)) [ inl k ↦ rw k (h, hs.1) | inr k ↦ rw k hs ])
  ]

  revise-AllOf :
      (committed pending : Option R) (c : Changes R) (ref : R)
      → P ref
      → AllOf kind P c
      → AllOf kind P (revise kind committed pending c ref)
  unfolding revise
  revise-AllOf committed pending c ref h hs = elim (Bool-cases (precedes_any kind ref pending)) [
    | inl e ↦ rw e (
      map-All P (lower kind ref) c.pending
          (All-map {Q = λ r. P (lower kind ref r)} (λ r. lower-P ref r h) c.pending hs.0),
      hs.1,
    )
    | inr e ↦ rw e (elim (Bool-cases (precedes_any kind ref committed)) [
      | inl k ↦ rw k (hs.0, note_demote-P ref c.demotions h hs.1)
      | inr k ↦ rw k hs
    ])
  ]

  record_with-AllOf :
      (committed pending : Option R) (c : Changes R) (ref : R) {d : Changes R}
      → P ref
      → AllOf kind P c
      → record_with kind committed pending c ref ≡ ok d
      → AllOf kind P d
  unfolding record_with
  record_with-AllOf none none c ref h hs k =
      subst (AllOf kind P) (ok_eq k) (All-append P c.pending (ref ∷ []) hs.0 (h, tt), hs.1)
  record_with-AllOf none (some p) c ref h hs k =
      let (u, checked, done) = >>=-eq-ok (require (kind.matches p ref) thrown_error) _ k in
      subst (AllOf kind P) (ok_eq done) (revise-AllOf none (some p) c ref h hs)
  record_with-AllOf (some e) pending c ref h hs k =
      let (u, checked, done) = >>=-eq-ok (require (kind.matches e ref) thrown_error) _ k in
      subst (AllOf kind P) (ok_eq done) (revise-AllOf (some e) pending c ref h hs)

  pub record_ref-AllOf :
      (by_key : Text → Option R) (c : Changes R) (ref : R) {d : Changes R}
      → P ref
      → AllOf kind P c
      → record_ref kind by_key c ref ≡ ok d
      → AllOf kind P d
  unfolding record_ref
  record_ref-AllOf by_key c ref h hs k =
      record_with-AllOf (by_key (kind.key_of ref)) (lookup kind (kind.key_of ref) c.pending) c ref h
        hs k

-- The slot of the reference has a key.
abbrev pub IsSlotted : RevisionBrowseRef → Type 0
IsSlotted r = is_slot r.slot ≡ true

module _ (sha256 : List ℕ → Text) (locale_compare : Text → Text → Ordering)
    (channel_id : Text) where
  revision_ref-IsSlotted :
      (checkpoint : Checkpoint) (key : Text) (value : Json) {r : RevisionBrowseRef}
      → revision_ref sha256 locale_compare channel_id checkpoint key value ≡ ok r
      → IsSlotted r
  unfolding revision_ref
  revision_ref-IsSlotted checkpoint key value h =
      let (revision, valid, h1) = >>=-eq-ok (validate_revision sha256 value) _ h in
      let (expected, e2, h2) = >>=-eq-ok (state_key (revision_key revision.revision_digest)) _ h1 in
      let (u, e3, h3) =
        >>=-eq-ok
          (fail_if
            (not (text_eq key expected)
              || not (text_eq revision.payload.slot.channel_id channel_id))
            thrown_error)
          _ h2 in
      subst IsSlotted (ok_eq h3) (validate_revision-slot sha256 value revision valid)

  module _ (P : RevisionBrowseRef → Type 0)
      (lowers : (ref r : RevisionBrowseRef)
        → P ref
        → P r
        → P ((revision_kind locale_compare).republish ref.published_checkpoint r)) where
    -- The references of a batch of the checkpoint have the property.
    abbrev pub Makes : Checkpoint → Type 0
    Makes checkpoint =
        (key : Text) (value : Json) (r : RevisionBrowseRef)
        → revision_ref sha256 locale_compare channel_id checkpoint key value ≡ ok r
        → P r

    abbrev IsCollected : BrowseState → Delta → Type 0
    IsCollected s d =
        IsReady (revision_kind locale_compare) s.revisions_by_key d.revisions
        × AllOf (revision_kind locale_compare) P d.revisions

    prepare_write-IsCollected :
        (s : BrowseState) (checkpoint : Checkpoint) (d : Delta) (key : Text) (value : Json)
        {e : Delta}
        → Makes checkpoint
        → IsCollected s d
        → prepare_write sha256 locale_compare channel_id s checkpoint d key value ≡ ok e
        → IsCollected s e
    unfolding prepare_write
    prepare_write-IsCollected s checkpoint d key value makes hs h =
        elim (Bool-cases (starts_with (text "kcl:v1:revision:") key)) [
          | inl a ↦
              let (ref, made, h1) =
                >>=-eq-ok (revision_ref sha256 locale_compare channel_id checkpoint key value) _
                  (rw a at h) in
              let (changes, recorded, h2) =
                >>=-eq-ok
                  (record_ref (revision_kind locale_compare) s.revisions_by_key d.revisions ref) _
                  h1 in
              subst (IsCollected s) (ok_eq h2) (
                record_ref-IsReady (revision_kind locale_compare) (λ c r. refl) s.revisions_by_key
                    d.revisions ref hs.0 recorded,
                record_ref-AllOf (revision_kind locale_compare) P lowers s.revisions_by_key
                    d.revisions ref (makes key value ref made) hs.1 recorded,
              )
          | inr a ↦ elim (Bool-cases (starts_with (text "kcl:v1:proposal:") key)) [
            | inl b ↦
                let (ref, made, h1) =
                  >>=-eq-ok (proposal_ref sha256 locale_compare channel_id checkpoint key value) _
                    (rw (a, b) at h) in
                let (changes, recorded, h2) =
                  >>=-eq-ok
                    (record_ref (proposal_kind locale_compare) s.proposals_by_key d.proposals ref) _
                    h1 in
                subst (IsCollected s) (ok_eq h2) hs
            | inr b ↦ elim (Bool-cases (starts_with (text "kcl:v1:agreement:") key)) [
              | inl c ↦
                  let (ref, made, h1) =
                    >>=-eq-ok (agreement_ref sha256 locale_compare channel_id checkpoint key value)
                      _ (rw (a, b, c) at h) in
                  let (changes, recorded, h2) =
                    >>=-eq-ok (record_ref agreement_kind s.agreements_by_key d.agreements ref) _
                      h1 in
                  subst (IsCollected s) (ok_eq h2) hs
              | inr c ↦ subst (IsCollected s) (ok_eq (rw (a, b, c) at h)) hs
            ]
          ]
        ]

    prepare_writes-IsCollected :
        (s : BrowseState) (checkpoint : Checkpoint) (ws : List (Text × Json)) (d : Delta)
        {e : Delta}
        → Makes checkpoint
        → IsCollected s d
        → prepare_writes sha256 locale_compare channel_id s checkpoint ws d ≡ ok e
        → IsCollected s e
    unfolding prepare_writes
    prepare_writes-IsCollected s checkpoint [] d makes hs h = subst (IsCollected s) (ok_eq h) hs
    prepare_writes-IsCollected s checkpoint (w ∷ ws) d makes hs h =
        let (next, first, rest) =
          >>=-eq-ok (prepare_write sha256 locale_compare channel_id s checkpoint d w.0 w.1) _ h in
        prepare_writes-IsCollected s checkpoint ws next makes
          (prepare_write-IsCollected s checkpoint d w.0 w.1 makes hs first) rest

    pub prepare_batches-IsCollected :
        (s : BrowseState) (batches : List BrowseWriteBatch) (d : Delta) {e : Delta}
        → All (λ b. Makes b.checkpoint) batches
        → IsCollected s d
        → prepare_batches sha256 locale_compare channel_id s batches d ≡ ok e
        → IsCollected s e
    unfolding prepare_batches
    prepare_batches-IsCollected s [] d makes hs h = subst (IsCollected s) (ok_eq h) hs
    prepare_batches-IsCollected s (b ∷ bs) d makes hs h =
        let (u, e1, h1) = >>=-eq-ok (assert_checkpoint b.checkpoint channel_id) _ h in
        let (v, e2, h2) =
          >>=-eq-ok (fail_if (is_block_only b.checkpoint && not (is_empty b.writes)) thrown_error) _
            h1 in
        let (next, first, rest) =
          >>=-eq-ok (prepare_writes sha256 locale_compare channel_id s b.checkpoint b.writes d) _
            h2 in
        prepare_batches-IsCollected s bs next makes.1
          (prepare_writes-IsCollected s b.checkpoint b.writes d makes.0 hs first) rest

  every-All :
      (Q : BrowseWriteBatch → Type 0) (bs : List BrowseWriteBatch)
      → ((b : BrowseWriteBatch) → Q b)
      → All Q bs
  every-All Q [] f = tt
  every-All Q (b ∷ bs) f = (f b, every-All Q bs f)

  -- What `commit` relies on.
  pub prepare-IsApart :
      (s : BrowseState) (batches : List BrowseWriteBatch) {d : Delta}
      → prepare sha256 locale_compare channel_id s batches ≡ ok d
      → IsApart (revision_kind locale_compare) d.revisions
        × AllOf (revision_kind locale_compare) IsSlotted d.revisions
  unfolding prepare
  prepare-IsApart s batches {d} h =
      let collected =
        prepare_batches-IsCollected IsSlotted (λ ref r h k. k) s batches no_delta
          (every-All _ batches
            (λ b key value r made. revision_ref-IsSlotted b.checkpoint key value made))
          (((tt, tt), tt, tt), (tt, tt)) h in
      (
        IsReady-IsApart (revision_kind locale_compare) s.revisions_by_key d.revisions collected.0,
        collected.1,
      )

  revision_ref-published :
      (checkpoint : Checkpoint) (key : Text) (value : Json) {r : RevisionBrowseRef}
      → revision_ref sha256 locale_compare channel_id checkpoint key value ≡ ok r
      → r.published_checkpoint ≡ checkpoint
  unfolding revision_ref
  revision_ref-published checkpoint key value h =
      let (revision, valid, h1) = >>=-eq-ok (validate_revision sha256 value) _ h in
      let (expected, e2, h2) = >>=-eq-ok (state_key (revision_key revision.revision_digest)) _ h1 in
      let (u, e3, h3) =
        >>=-eq-ok
          (fail_if
            (not (text_eq key expected)
              || not (text_eq revision.payload.slot.channel_id channel_id))
            thrown_error)
          _ h2 in
      ap (λ (r : RevisionBrowseRef). r.published_checkpoint) (sym (ok_eq h3))

  abbrev IsBehind : Checkpoint → RevisionBrowseRef → Type 0
  IsBehind at r = visible r.published_checkpoint at ≡ false

  -- Batches that are hidden at a checkpoint give references that are.
  pub prepare-IsBehind :
      (at : Checkpoint) (s : BrowseState) (batches : List BrowseWriteBatch) {d : Delta}
      → All (λ b. visible b.checkpoint at ≡ false) batches
      → prepare sha256 locale_compare channel_id s batches ≡ ok d
      → AllOf (revision_kind locale_compare) (IsBehind at) d.revisions
  unfolding prepare
  prepare-IsBehind at s batches {d} later h =
      (prepare_batches-IsCollected (IsBehind at) (λ ref r a b. a) s batches no_delta
        (All-map {Q = λ b. Makes (IsBehind at) (λ ref r a k. a) b.checkpoint}
          (λ b hidden key value r made.
            subst (λ c. visible c at ≡ false)
              (sym (revision_ref-published b.checkpoint key value made)) hidden)
          batches later)
        (((tt, tt), tt, tt), (tt, tt)) h).1

pub touched-IsBehind :
    (locale_compare : Text → Text → Ordering) (at : Checkpoint)
    (by_key : Text → Option RevisionBrowseRef) (c : Changes RevisionBrowseRef)
    → AllOf (revision_kind locale_compare) (λ r. visible r.published_checkpoint at ≡ false) c
    → All
        (λ r. visible r.published_checkpoint at ≡ false)
        (fresh (revision_kind locale_compare) by_key c
          ++ demoted (revision_kind locale_compare) by_key c)
touched-IsBehind locale_compare at by_key c hs =
    let kind = revision_kind locale_compare in
    All-append (λ r. visible r.published_checkpoint at ≡ false) (fresh kind by_key c)
      (demoted kind by_key c)
      (fresh-All kind (λ r. visible r.published_checkpoint at ≡ false) by_key c hs)
      (demoted-All kind (λ r. visible r.published_checkpoint at ≡ false) by_key c hs)
