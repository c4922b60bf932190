-- ===== src/Browse/Merge.antt =====
-- `noteDemote`, the handling of one reference in `prepare`, and `collectDemoted` and `mergeDelta` of
-- `commit`, in packages/storage/browse-index.ts, for any kind of references. A map that is only looked
-- up is a function, and one whose values are listed is the list of them in the order of insertion.
use knowledger.Base.{
  Bool, true, false, not, List, [], ◌∷◌, ◌++◌, map, Option, none, some, Text, text_eq, any, all,
  find, filter, if◌then◌else◌,
}
use knowledger.Fault.{Result, ok, thrown_error, require, ◌>>◌}
use knowledger.Browse.Sort.{sort, prepend_latest}
use knowledger.Browse.Refs.{RefKind, earlier}

-- The references of one kind that a `prepare` collects: `addedRevisions`, whose references
-- `pendingRevisions` holds by their keys, and `demoteCandidatesRevisions`.
pub record Changes (R : Type 0) : Type 0 where
  pub pending : List R
  pub demotions : List R

abbrev pub no_changes : {R : Type 0} → Changes R
no_changes = record { pending = []; demotions = [] }

module _ {R : Type 0} (kind : RefKind R) where
  unfoldable pub has_key : Text → R → Bool
  has_key key ref = text_eq (kind.key_of ref) key

  -- `map.get(key)`
  unfoldable pub lookup : Text → List R → Option R
  lookup key refs = find (has_key key) refs

  -- `checkpointOrder(ref.published_checkpoint, existing.published_checkpoint) < 0`
  unfoldable pub precedes : R → R → Bool
  precedes ref existing = earlier (kind.published ref) (kind.published existing)

  unfoldable pub note_demote : R → List R → List R
  note_demote ref [] = ref ∷ []
  note_demote ref (previous ∷ rest) =
      let noted = note_demote ref rest in
      if has_key (kind.key_of ref) previous
      then (if precedes ref previous then ref ∷ rest else previous ∷ rest)
      else previous ∷ noted

  -- `pendingRevision.published_checkpoint = cloneCheckpoint(ref.published_checkpoint)`
  unfoldable pub lower : R → R → R
  lower ref pending =
      if has_key (kind.key_of ref) pending
      then kind.republish (kind.published ref) pending
      else pending

  unfoldable pub precedes_any : R → Option R → Bool
  precedes_any ref none = false
  precedes_any ref (some existing) = precedes ref existing

  -- A reference that was found before, under its committed and its pending one: the earlier checkpoint
  -- goes to the pending one, or makes a candidate against the committed one.
  unfoldable pub revise : Option R → Option R → Changes R → R → Changes R
  revise committed pending changes ref =
      if precedes_any ref pending
      then record { pending = map (lower ref) changes.pending; demotions = changes.demotions }
      else if precedes_any ref committed
      then record { pending = changes.pending; demotions = note_demote ref changes.demotions }
      else changes

  -- The existing reference is `committed ?? pending`.
  unfoldable pub record_with : Option R → Option R → Changes R → R → Result (Changes R)
  record_with none none changes ref =
      ok (record { pending = changes.pending ++ (ref ∷ []); demotions = changes.demotions })
  record_with none (some pending) changes ref = do
    require (kind.matches pending ref) thrown_error
    ok (revise none (some pending) changes ref)
  record_with (some committed) pending changes ref = do
    require (kind.matches committed ref) thrown_error
    ok (revise (some committed) pending changes ref)

  -- One write of `prepare`, whose reference is made.
  unfoldable pub record_ref : (Text → Option R) → Changes R → R → Result (Changes R)
  record_ref by_key changes ref =
      record_with (by_key (kind.key_of ref)) (lookup (kind.key_of ref) changes.pending) changes ref

  -- What `commit` finds of a reference under its key: nothing, a match, or a reference with other
  -- immutable fields, which stops it.
  unfoldable pub is_fresh : (Text → Option R) → R → Bool
  is_fresh by_key ref = elim (by_key (kind.key_of ref)) [ none ↦ true | some existing ↦ false ]

  unfoldable pub is_consistent : (Text → Option R) → R → Bool
  is_consistent by_key ref = elim (by_key (kind.key_of ref)) [
    | none ↦ true
    | some existing ↦ kind.matches existing ref
  ]

  unfoldable pub is_demotion : (Text → Option R) → R → Bool
  is_demotion by_key ref = precedes_any ref (by_key (kind.key_of ref))

  -- The references to add, and those to put back under an earlier checkpoint.
  unfoldable pub fresh : (Text → Option R) → Changes R → List R
  fresh by_key changes = filter (is_fresh by_key) changes.pending

  unfoldable pub demoted : (Text → Option R) → Changes R → List R
  demoted by_key changes =
      filter (is_demotion by_key) changes.pending ++ filter (is_demotion by_key) changes.demotions

  unfoldable pub assert_consistent : (Text → Option R) → Changes R → Result (Unit {0})
  assert_consistent by_key changes =
      require (all (is_consistent by_key) (changes.pending ++ changes.demotions)) thrown_error

  -- `!demotedKeys.has(item.key)`
  unfoldable pub keep : List R → R → Bool
  keep gone item = not (any (has_key (kind.key_of item)) gone)

  -- `all` after the delta.
  unfoldable pub merge_all : List R → List R → List R → List R
  merge_all added gone items =
      prepend_latest kind.compare (sort kind.compare (added ++ gone)) (filter (keep gone) items)

  -- `byKey.set(ref.key, ref)`
  unfoldable pub set_all : List R → (Text → Option R) → Text → Option R
  set_all [] by_key = by_key
  set_all (ref ∷ rest) by_key =
      set_all rest (λ k. if text_eq (kind.key_of ref) k then some ref else by_key k)

  unfoldable pub delete_all : List R → (Text → Option R) → Text → Option R
  delete_all gone by_key k = if any (has_key k) gone then none else by_key k

  -- `byKey` after the delta.
  unfoldable pub merge_by_key : List R → List R → (Text → Option R) → Text → Option R
  merge_by_key added gone by_key =
      set_all (sort kind.compare (added ++ gone)) (delete_all gone by_key)

  -- A bucket after the delta: only the buckets of the references that go are filtered, and only those of
  -- the references that come are merged.
  unfoldable pub merge_bucket : (R → Text) → List R → List R → (Text → List R) → Text → List R
  merge_bucket bucket_of added gone buckets b =
      let here = λ (ref : R). text_eq (bucket_of ref) b in
      let kept = if any here gone then filter (keep gone) (buckets b) else buckets b in
      prepend_latest kind.compare
        (sort kind.compare (filter here (sort kind.compare (added ++ gone)))) kept
