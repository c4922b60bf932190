-- ===== src/Browse/Stale.antt =====
-- `commit` of packages/storage/browse-index.ts leaves no entry in the cache whose checkpoint sees one of
-- the references that it changes.
use knowledger.Base.{
  ◌≡◌, refl, sym, ap, ◌∙◌, subst, ◌⊎◌, inl, inr, true, false, List, [], ◌∷◌, Option, none, some,
  Text, text_eq_refl, All, All-map, any, find, filter-passed, Bool-cases, Option-cases, arith,
}
use knowledger.Contracts.Slot.{Slot}
use knowledger.Browse.Refs.{Checkpoint, RevisionBrowseRef, visible, earlier}
use knowledger.Browse.Comparators.{visible-earlier, visible-not_earlier}
use knowledger.Browse.Query.{Selector}
use knowledger.Browse.Cache.{
  RevisionCacheEntry, RevisionCache, option_eq, slot_eq, slots_eq, checkpoint_eq, selector_eq,
  is_under, cached, stays, drop_entry, drop_stale, least, invalidate,
}
use knowledger.Browse.Entries.{Each, selector_eq→eq, drop_entry-Each, drop_stale-Each}

option_eq_refl : (a : Option Text) → option_eq a a ≡ true
unfolding option_eq
option_eq_refl none = refl
option_eq_refl (some a) = text_eq_refl a

slots_eq_refl : (a : Option Slot) → slots_eq a a ≡ true
unfolding slots_eq slot_eq
slots_eq_refl none = refl
slots_eq_refl (some a) = rw (
  text_eq_refl a.channel_id,
  text_eq_refl a.document_id,
  text_eq_refl a.context_id,
  text_eq_refl a.scope_id,
  text_eq_refl a.usage_scope,
)

checkpoint_eq_refl : (a : Checkpoint) → checkpoint_eq a a ≡ true
unfolding checkpoint_eq
checkpoint_eq_refl a =
    ground
      (arith, text_eq_refl a.channel_id, text_eq_refl a.transaction_id, text_eq_refl a.block_hash)

pub selector_eq_refl : (a : Selector) → selector_eq a a ≡ true
unfolding selector_eq
selector_eq_refl a = ground (
  arith,
  checkpoint_eq_refl a.at,
  slots_eq_refl a.slot,
  option_eq_refl a.document_id,
  option_eq_refl a.context_id,
  option_eq_refl a.scope_id,
  option_eq_refl a.usage_scope,
)

-- The entry is bound to the checkpoint of its key.
abbrev pub IsAt : RevisionCacheEntry → Type 0
IsAt e = e.at ≡ e.key.at

abbrev IsIn : List RevisionCacheEntry → RevisionCacheEntry → Type 0
IsIn es x = any (λ e. selector_eq e.key x.key) es ≡ true

All-IsIn : (es : List RevisionCacheEntry) → All (IsIn es) es
unfolding any
All-IsIn [] = tt
All-IsIn (e ∷ es) = (
  rw (selector_eq_refl e.key),
  All-map {Q = IsIn (e ∷ es)} (λ x h. ground arith) es (All-IsIn es),
)

find-none :
    (key : Selector) (es : List RevisionCacheEntry)
    → find (is_under key) es ≡ none
    → All (λ x. stays key x ≡ true) es
unfolding find stays
find-none key [] h = tt
find-none key (e ∷ es) h = elim (Bool-cases (is_under key e)) [
  | inl k ↦ absurd (ground (arith, k))
  | inr k ↦ (rw k, find-none key es (rw k at h))
]

-- What is dropped is gone.
drop_entry-gone :
    (key : Selector) (c : RevisionCache) → Each (λ x. stays key x ≡ true) (drop_entry key c)
unfolding drop_entry cached
drop_entry-gone key c = elim (Option-cases (find (is_under key) c.entries)) [
  | inl e ↦ rw (drop_entry, e) (find-none key c.entries e)
  | inr (x, e) ↦ rw (drop_entry, e) (filter-passed (stays key) c.entries)
]

pub each_both :
    (P Q : RevisionCacheEntry → Type 0) (es : List RevisionCacheEntry)
    → All P es
    → All Q es
    → All (λ x. P x × Q x) es
each_both P Q [] hs ks = tt
each_both P Q (e ∷ es) hs ks = ((hs.0, ks.0), each_both P Q es hs.1 ks.1)

module _ (min : Checkpoint) where
  abbrev IsHeld : List RevisionCacheEntry → RevisionCacheEntry → Type 0
  IsHeld es x = IsAt x × ((visible min x.at ≡ false) ⊎ IsIn es x)

  IsHeld-step :
      (e : RevisionCacheEntry) (es : List RevisionCacheEntry) (x : RevisionCacheEntry)
      → selector_eq e.key x.key ≡ false
      → IsHeld (e ∷ es) x
      → IsHeld es x
  unfolding any
  IsHeld-step e es x h (at, inl k) = (at, inl k)
  IsHeld-step e es x h (at, inr k) = (at, inr (rw h at k))

  IsHeld-skip :
      (e : RevisionCacheEntry) (es : List RevisionCacheEntry) (x : RevisionCacheEntry)
      → IsAt e
      → visible min e.at ≡ false
      → IsHeld (e ∷ es) x
      → IsHeld es x
  IsHeld-skip e es x at hidden held = elim (Bool-cases (selector_eq e.key x.key)) [
    | inl k ↦ (
      held.0,
      inl (
          subst (λ c. visible min c ≡ false)
            (at ∙ ap (λ (s : Selector). s.at) (selector_eq→eq e.key x.key k) ∙ sym held.0) hidden),
    )
    | inr k ↦ IsHeld-step e es x k held
  ]

  only : (x : RevisionCacheEntry) → IsHeld [] x → visible min x.at ≡ false
  unfolding any
  only x (at, inl k) = k
  only x (at, inr k) = absurd (ground arith)

  stays-false : (e x : RevisionCacheEntry) → stays e.key x ≡ true → selector_eq e.key x.key ≡ false
  unfolding stays is_under
  stays-false e x h = ground arith

  drop_stale-hidden :
      (es : List RevisionCacheEntry) (c : RevisionCache)
      → All IsAt es
      → Each (IsHeld es) c
      → Each (λ x. visible min x.at ≡ false) (drop_stale min es c)
  unfolding drop_stale any
  drop_stale-hidden [] c ats held = All-map {Q = λ x. visible min x.at ≡ false} only c.entries held
  drop_stale-hidden (e ∷ es) c ats held = elim (Bool-cases (visible min e.at)) [
    | inl k ↦ rw k (
        drop_stale-hidden es (drop_entry e.key c) ats.1 (
          All-map {Q = IsHeld es} (λ x h. IsHeld-step e es x (stays-false e x h.0) h.1) _
            (each_both _ (IsHeld (e ∷ es)) _ (drop_entry-gone e.key c)
              (drop_entry-Each (IsHeld (e ∷ es)) e.key c held))))
    | inr k ↦ rw k (
        drop_stale-hidden es c ats.1
          (All-map {Q = IsHeld es} (λ x h. IsHeld-skip e es x ats.0 k h) c.entries held))
  ]

-- The least checkpoint is hidden only when all are.
least-hidden :
    (min : Checkpoint) (refs : List RevisionBrowseRef) (at : Checkpoint)
    → visible (least min refs) at ≡ false
    → (visible min at ≡ false) × All (λ r. visible r.published_checkpoint at ≡ false) refs
unfolding least
least-hidden min [] at h = (h, tt)
least-hidden min (r ∷ rs) at h = elim (Bool-cases (earlier r.published_checkpoint min)) [
  | inl k ↦
      let rest = least-hidden r.published_checkpoint rs at (rw k at h) in
      (visible-earlier r.published_checkpoint min at k rest.0, (rest.0, rest.1))
  | inr k ↦
      let rest = least-hidden min rs at (rw k at h) in
      (rest.0, (visible-not_earlier r.published_checkpoint min at k rest.0, rest.1))
]

pub invalidate-hidden :
    (refs : List RevisionBrowseRef) (c : RevisionCache)
    → Each IsAt c
    → Each (λ x. All (λ r. visible r.published_checkpoint x.at ≡ false) refs) (invalidate refs c)
unfolding invalidate
invalidate-hidden [] c ats = All-map {Q = λ x. Unit} (λ x h. tt) c.entries ats
invalidate-hidden (r ∷ rs) c ats =
    let min = least r.published_checkpoint (r ∷ rs) in
    All-map {Q = λ x. All (λ s. visible s.published_checkpoint x.at ≡ false) (r ∷ rs)}
      (λ x h. (least-hidden r.published_checkpoint (r ∷ rs) x.at h).1)
      (drop_stale min c.entries c).entries
      (drop_stale-hidden min c.entries c ats (
        All-map {Q = IsHeld min c.entries} (λ x h. (h.0, inr h.1)) c.entries
          (each_both IsAt (IsIn c.entries) c.entries ats (All-IsIn c.entries))))

pub invalidate-Each :
    (P : RevisionCacheEntry → Type 0) (refs : List RevisionBrowseRef) (c : RevisionCache)
    → Each P c
    → Each P (invalidate refs c)
unfolding invalidate
invalidate-Each P [] c hs = hs
invalidate-Each P (r ∷ rs) c hs =
    drop_stale-Each P (least r.published_checkpoint (r ∷ rs)) c.entries c hs
