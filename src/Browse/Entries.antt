-- ===== src/Browse/Entries.antt =====
-- What holds of every entry of the cache of packages/storage/browse-index.ts holds after its operations,
-- and no entry that a commit makes stale is left.
use knowledger.Base.{
  ℕ, zero, suc, ◌+◌, ◌*◌, ◌≡◌, refl, ap, inl, inr, Bool, true, false, List, [], ◌∷◌, Option, none,
  some, Text, text_eq→eq, ◌==◌, ltb, All, All-append, find, filter, filter-All, length, Bool-cases,
  Option-cases, arith,
}
use knowledger.Contracts.Slot.{Slot}
use knowledger.Browse.Refs.{Checkpoint, RevisionBrowseRef, index_rank, visible}
use knowledger.Browse.Query.{Mode, Selector, latest_per_slot, all_revisions, of_slot, of_document}
use knowledger.Browse.Cache.{
  CacheLimits, RevisionCacheEntry, RevisionCache, option_eq, slot_eq, slots_eq, mode_rank,
  checkpoint_eq, selector_eq, cached, is_oversized, stays, drop_entry, evict, evict_all,
  store_entry, is_oversized_full, is_full, touch, count_miss, drop_stale, cache_revisions,
  pointer_bytes,
}

option_eq→eq : (a b : Option Text) → option_eq a b ≡ true → a ≡ b
unfolding option_eq
option_eq→eq none none h = refl
option_eq→eq none (some b) h = cc
option_eq→eq (some a) none h = cc
option_eq→eq (some a) (some b) h = ap some (text_eq→eq a b h)

slot_eq→eq : (a b : Slot) → slot_eq a b ≡ true → a ≡ b
unfolding slot_eq
slot_eq→eq a b h =
    let e1 = text_eq→eq a.channel_id b.channel_id (ground arith) in
    let e2 = text_eq→eq a.document_id b.document_id (ground arith) in
    let e3 = text_eq→eq a.context_id b.context_id (ground arith) in
    let e4 = text_eq→eq a.scope_id b.scope_id (ground arith) in
    let e5 = text_eq→eq a.usage_scope b.usage_scope (ground arith) in cc

slots_eq→eq : (a b : Option Slot) → slots_eq a b ≡ true → a ≡ b
unfolding slots_eq
slots_eq→eq none none h = refl
slots_eq→eq none (some b) h = cc
slots_eq→eq (some a) none h = cc
slots_eq→eq (some a) (some b) h = ap some (slot_eq→eq a b h)

mode_rank→eq : (a b : Mode) → (mode_rank a == mode_rank b) ≡ true → a ≡ b
unfolding mode_rank
mode_rank→eq latest_per_slot latest_per_slot h = refl
mode_rank→eq all_revisions all_revisions h = refl
mode_rank→eq of_slot of_slot h = refl
mode_rank→eq of_document of_document h = refl
mode_rank→eq a b h = ground arith

index_rank→eq : (a b : Option ℕ) → (index_rank a == index_rank b) ≡ true → a ≡ b
index_rank→eq a b h = ground arith

checkpoint_eq→eq : (a b : Checkpoint) → checkpoint_eq a b ≡ true → a ≡ b
unfolding checkpoint_eq
checkpoint_eq→eq a b h =
    let e1 = text_eq→eq a.channel_id b.channel_id (ground arith) in
    let e2 : a.block_number ≡ b.block_number = ground arith in
    let e3 = index_rank→eq a.transaction_index b.transaction_index (ground arith) in
    let e4 = text_eq→eq a.transaction_id b.transaction_id (ground arith) in
    let e5 = text_eq→eq a.block_hash b.block_hash (ground arith) in cc

-- Equal keys are of the same selection.
pub selector_eq→eq : (a b : Selector) → selector_eq a b ≡ true → a ≡ b
unfolding selector_eq
selector_eq→eq a b h =
    let e1 = checkpoint_eq→eq a.at b.at (ground arith) in
    let e2 = mode_rank→eq a.mode b.mode (ground arith) in
    let e3 = slots_eq→eq a.slot b.slot (ground arith) in
    let e4 = option_eq→eq a.document_id b.document_id (ground arith) in
    let e5 = option_eq→eq a.context_id b.context_id (ground arith) in
    let e6 = option_eq→eq a.scope_id b.scope_id (ground arith) in
    let e7 = option_eq→eq a.usage_scope b.usage_scope (ground arith) in cc

module _ (P : RevisionCacheEntry → Type 0) where
  abbrev pub Each : RevisionCache → Type 0
  Each c = All P c.entries

  pub drop_entry-Each : (key : Selector) (c : RevisionCache) → Each c → Each (drop_entry key c)
  unfolding drop_entry
  drop_entry-Each key c hs = elim (Option-cases (cached key c)) [
    | inl e ↦ rw (drop_entry, e) hs
    | inr (x, e) ↦ rw (drop_entry, e) (filter-All P (stays key) c.entries hs)
  ]

  evict-Each :
      (full : RevisionCache → Bool) (evictable : RevisionCache → Selector → Bool) (fuel : ℕ)
      (c : RevisionCache)
      → Each c
      → Each (evict full evictable fuel c)
  unfolding evict
  evict-Each full evictable zero c hs = hs
  evict-Each full evictable (suc fuel) c hs =
      elim (Option-cases (find (λ e. evictable c e.key) c.entries)) [
        | inl e ↦ rw (evict, e) hs
        | inr (oldest, e) ↦ elim (Bool-cases (full c)) [
          | inl k ↦
              rw (evict, e, k)
                (evict-Each full evictable fuel (drop_entry oldest.key c)
                  (drop_entry-Each oldest.key c hs))
          | inr k ↦ rw (evict, e, k) hs
        ]
      ]

  pub touch-Each :
      (entry : RevisionCacheEntry) (c : RevisionCache) → P entry → Each c → Each (touch entry c)
  unfolding touch
  touch-Each entry c h hs =
      All-append P (filter (stays entry.key) c.entries) (entry ∷ [])
        (filter-All P (stays entry.key) c.entries hs) (h, tt)

  store_entry-Each :
      (entry : RevisionCacheEntry) (over : Bool) (c : RevisionCache)
      → P entry
      → Each c
      → Each (store_entry entry over c)
  unfolding store_entry
  store_entry-Each entry over c h hs = All-append P c.entries (entry ∷ []) hs (h, tt)

  pub cache_revisions-Each :
      (key_bytes : Selector → ℕ) (limits : CacheLimits) (key : Selector)
      (refs : List RevisionBrowseRef) (at : Checkpoint) (c : RevisionCache)
      → P (record {
        key = key;
        refs = refs;
        estimated_bytes = key_bytes key + length refs * pointer_bytes;
        at = at;
      })
      → Each c
      → Each (cache_revisions key_bytes limits key refs at (count_miss c))
  unfolding cache_revisions count_miss evict_all
  cache_revisions-Each key_bytes limits key refs at c h hs =
      let bytes = key_bytes key + length refs * pointer_bytes in
      let without = drop_entry-Each key (count_miss c) hs in
      elim (Bool-cases (ltb limits.max_refs (length refs))) [
        | inl a ↦ elim (Bool-cases (ltb limits.max_oversized_bytes bytes)) [
          | inl b ↦ rw (a, b) without
          | inr b ↦
              rw (a, b)
                (store_entry-Each _ true _ h
                  (evict-Each (is_oversized_full limits bytes) is_oversized _ _ without))
        ]
        | inr a ↦ elim (Bool-cases (ltb limits.max_bytes bytes)) [
          | inl b ↦ rw (a, b) without
          | inr b ↦
              rw (a, b)
                (store_entry-Each _ false _ h
                  (evict-Each (is_full limits (length refs) bytes) _ _ _ without))
        ]
      ]

  pub drop_stale-Each :
      (min : Checkpoint) (es : List RevisionCacheEntry) (c : RevisionCache)
      → Each c
      → Each (drop_stale min es c)
  unfolding drop_stale
  drop_stale-Each min [] c hs = hs
  drop_stale-Each min (e ∷ es) c hs = elim (Bool-cases (visible min e.at)) [
    | inl k ↦ rw k (drop_stale-Each min es (drop_entry e.key c) (drop_entry-Each e.key c hs))
    | inr k ↦ rw k (drop_stale-Each min es c hs)
  ]
