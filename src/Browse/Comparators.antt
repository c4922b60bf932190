-- ===== src/Browse/Comparators.antt =====
-- The comparators of packages/storage/browse-index.ts are consistent, those by `localeCompare` when it
-- is, and what is visible at a checkpoint.
use Prim.Native.Nat.{Ordering}
use knowledger.Base.{◌≡◌, refl, ◌⊎◌, inl, inr, true, false, Text, arith}
use knowledger.Browse.Sort.{is_before, is_after, flip, or_else}
use knowledger.Browse.Order.{IsOrder}
use knowledger.Browse.Refs.{
  Checkpoint, RevisionBrowseRef, ProposalBrowseRef, checkpoint_order, earlier, visible,
  compare_revisions, compare_proposals,
}

Ordering-cases : (o : Ordering) → (o ≡ Ordering.lt) ⊎ ((o ≡ Ordering.eq) ⊎ (o ≡ Ordering.gt))
Ordering-cases Ordering.lt = inl refl
Ordering-cases Ordering.eq = inr (inl refl)
Ordering-cases Ordering.gt = inr (inr refl)

checkpoint_order-flips : (x y : Checkpoint) → checkpoint_order y x ≡ flip (checkpoint_order x y)
unfolding checkpoint_order flip
checkpoint_order-flips x y = ground arith

checkpoint_order-chains :
    (x y z : Checkpoint)
    → is_after (checkpoint_order x y) ≡ false
    → is_after (checkpoint_order y z) ≡ false
    → is_after (checkpoint_order x z) ≡ false
unfolding checkpoint_order is_after
checkpoint_order-chains x y z h k = ground arith

pub checkpoint_order-IsOrder : IsOrder checkpoint_order
checkpoint_order-IsOrder = record {
  flips = checkpoint_order-flips;
  chains = checkpoint_order-chains;
}

module _ {A : Type 0} where
  pub IsOrder-pullback :
      {B : Type 0} (f : A → B) (c : B → B → Ordering) → IsOrder c → IsOrder (λ x y. c (f x) (f y))
  IsOrder-pullback f c order = record {
    flips = λ x y. order.flips (f x) (f y);
    chains = λ x y z. order.chains (f x) (f y) (f z);
  }

  pub IsOrder-reverse : (c : A → A → Ordering) → IsOrder c → IsOrder (λ x y. c y x)
  IsOrder-reverse c order = record {
    flips = λ x y. order.flips y x;
    chains = λ x y z h k. order.chains z y x k h;
  }

  -- The second comparator decides where the first one does not.
  or_else-flips :
      (c d : A → A → Ordering)
      → IsOrder c
      → IsOrder d
      → (x y : A) → or_else (c y x) (d y x) ≡ flip (or_else (c x y) (d x y))
  unfolding or_else flip
  or_else-flips c d oc od x y = elim (Ordering-cases (c x y)) [
    | inl e ↦ rw (oc.flips x y, e)
    | inr (inl e) ↦ rw (oc.flips x y, e) (od.flips x y)
    | inr (inr e) ↦ rw (oc.flips x y, e)
  ]

  or_else-chains :
      (c d : A → A → Ordering)
      → IsOrder c
      → IsOrder d
      → (x y z : A) → is_after (or_else (c x y) (d x y)) ≡ false
      → is_after (or_else (c y z) (d y z)) ≡ false
      → is_after (or_else (c x z) (d x z)) ≡ false
  unfolding or_else is_after flip
  or_else-chains c d oc od x y z h k = ground (
    arith,
    oc.chains x y z,
    oc.chains y z x,
    oc.chains z x y,
    oc.flips x y,
    oc.flips y z,
    oc.flips x z,
    od.chains x y z,
  )

  pub IsOrder-or_else :
      (c d : A → A → Ordering) → IsOrder c → IsOrder d → IsOrder (λ x y. or_else (c x y) (d x y))
  IsOrder-or_else c d oc od = record {
    flips = or_else-flips c d oc od;
    chains = or_else-chains c d oc od;
  }

module _ (locale_compare : Text → Text → Ordering) (locale : IsOrder locale_compare) where
  pub compare_revisions-IsOrder : IsOrder (compare_revisions locale_compare)
  unfolding compare_revisions
  compare_revisions-IsOrder =
      IsOrder-or_else
        (λ (x y : RevisionBrowseRef).
          checkpoint_order y.published_checkpoint x.published_checkpoint)
        _
        (IsOrder-reverse _ (
          IsOrder-pullback (λ (x : RevisionBrowseRef). x.published_checkpoint) checkpoint_order
            checkpoint_order-IsOrder))
        (IsOrder-pullback (λ (x : RevisionBrowseRef). x.revision_digest) locale_compare locale)

  pub compare_proposals-IsOrder : IsOrder (compare_proposals locale_compare)
  unfolding compare_proposals
  compare_proposals-IsOrder =
      IsOrder-or_else (λ (x y : ProposalBrowseRef). locale_compare y.created_at x.created_at) _
        (IsOrder-reverse _
          (IsOrder-pullback (λ (x : ProposalBrowseRef). x.created_at) locale_compare locale))
        (IsOrder-pullback (λ (x : ProposalBrowseRef). x.proposal_id) locale_compare locale)

-- What is hidden at a checkpoint hides what it precedes.
pub visible-earlier :
    (d e at : Checkpoint) → earlier d e ≡ true → visible d at ≡ false → visible e at ≡ false
unfolding earlier visible is_before is_after checkpoint_order
visible-earlier d e at h k = ground arith

-- The least checkpoint hides its later ones, too.
pub visible-not_earlier :
    (r least at : Checkpoint)
    → earlier r least ≡ false
    → visible least at ≡ false
    → visible r at ≡ false
unfolding earlier visible is_before is_after checkpoint_order
visible-not_earlier r least at h k = ground arith
