-- ===== src/Browse/Cache.antt =====
-- The cache of the selections of `VerifiedBrowseIndex` in packages/storage/browse-index.ts: its entries
-- in the order of the `Map`, which is the one of their last use, and its counters.
use knowledger.Base.{
  ℕ, zero, suc, ◌+◌, ◌-◌, ◌*◌, Bool, true, false, not, ◌&&◌, ◌||◌, List, [], ◌∷◌, ◌++◌, Option,
  none, some, Text, text_eq, any, find, filter, length, ltb, leb, ◌==◌, if◌then◌else◌,
}
use knowledger.Contracts.Slot.{Slot}
use knowledger.Browse.Refs.{Checkpoint, RevisionBrowseRef, index_rank, visible, earlier}
use knowledger.Browse.Query.{Mode, Selector, latest_per_slot, all_revisions, of_slot, of_document}

-- The limits of the constructor.
pub record CacheLimits : Type 0 where
  pub max_entries : ℕ
  pub max_refs : ℕ
  pub max_bytes : ℕ
  pub max_oversized_bytes : ℕ

abbrev pub default_limits : CacheLimits
default_limits = record {
  max_entries = 8;
  max_refs = 16384;
  max_bytes = 512 * 1024;
  max_oversized_bytes = 16 * 1024 * 1024;
}

abbrev pub pointer_bytes : ℕ
pointer_bytes = 16

pub record RevisionCacheEntry : Type 0 where
  pub key : Selector
  pub refs : List RevisionBrowseRef
  pub estimated_bytes : ℕ
  pub at : Checkpoint

pub record RevisionCache : Type 0 where
  pub entries : List RevisionCacheEntry
  pub refs : ℕ
  pub bytes : ℕ
  pub oversized_keys : List Selector
  pub oversized_refs : ℕ
  pub oversized_bytes : ℕ
  pub hits : ℕ
  pub misses : ℕ

abbrev pub empty_cache : RevisionCache
empty_cache = record {
  entries = [];
  refs = 0;
  bytes = 0;
  oversized_keys = [];
  oversized_refs = 0;
  oversized_bytes = 0;
  hits = 0;
  misses = 0;
}

-- Equality of `revisionCacheKey`: the key is the JSON text of an array of strings, numbers and nulls,
-- and two such texts are equal when the arrays are.
unfoldable pub option_eq : Option Text → Option Text → Bool
option_eq none none = true
option_eq none (some b) = false
option_eq (some a) none = false
option_eq (some a) (some b) = text_eq a b

unfoldable pub slot_eq : Slot → Slot → Bool
slot_eq a b =
    text_eq a.channel_id b.channel_id
    && text_eq a.document_id b.document_id
    && text_eq a.context_id b.context_id
    && text_eq a.scope_id b.scope_id
    && text_eq a.usage_scope b.usage_scope

unfoldable pub slots_eq : Option Slot → Option Slot → Bool
slots_eq none none = true
slots_eq none (some b) = false
slots_eq (some a) none = false
slots_eq (some a) (some b) = slot_eq a b

unfoldable pub mode_rank : Mode → ℕ
mode_rank latest_per_slot = 0
mode_rank all_revisions = 1
mode_rank of_slot = 2
mode_rank of_document = 3

unfoldable pub checkpoint_eq : Checkpoint → Checkpoint → Bool
checkpoint_eq a b =
    text_eq a.channel_id b.channel_id
    && a.block_number == b.block_number
    && index_rank a.transaction_index == index_rank b.transaction_index
    && text_eq a.transaction_id b.transaction_id
    && text_eq a.block_hash b.block_hash

unfoldable pub selector_eq : Selector → Selector → Bool
selector_eq a b =
    checkpoint_eq a.at b.at
    && mode_rank a.mode == mode_rank b.mode
    && slots_eq a.slot b.slot
    && option_eq a.document_id b.document_id
    && option_eq a.context_id b.context_id
    && option_eq a.scope_id b.scope_id
    && option_eq a.usage_scope b.usage_scope

unfoldable pub is_under : Selector → RevisionCacheEntry → Bool
is_under key entry = selector_eq key entry.key

-- `this.revisionCache.get(key)`
unfoldable pub cached : Selector → RevisionCache → Option RevisionCacheEntry
cached key c = find (is_under key) c.entries

-- `this.oversizedRevisionKeys.has(key)`
unfoldable pub is_oversized : RevisionCache → Selector → Bool
is_oversized c key = any (selector_eq key) c.oversized_keys

-- A key that stays when another one is deleted.
unfoldable pub stays : Selector → RevisionCacheEntry → Bool
stays key entry = not (is_under key entry)

-- `dropRevisionCacheEntry(key)`
unfoldable pub drop_entry : Selector → RevisionCache → RevisionCache
drop_entry key c = elim (cached key c) [
  | none ↦ c
  | some entry ↦
      let over = is_oversized c key in
      record {
        entries = filter (stays key) c.entries;
        refs = c.refs - length entry.refs;
        bytes = c.bytes - entry.estimated_bytes;
        oversized_keys = filter (λ k. not (selector_eq key k)) c.oversized_keys;
        oversized_refs = if over then c.oversized_refs - length entry.refs else c.oversized_refs;
        oversized_bytes =
            if over then c.oversized_bytes - entry.estimated_bytes else c.oversized_bytes;
        hits = c.hits;
        misses = c.misses;
      }
]

-- `while (full) { const oldest = keys.find(...); if (oldest === undefined) break; drop(oldest); }`
unfoldable pub evict :
    (RevisionCache → Bool) → (RevisionCache → Selector → Bool) → ℕ → RevisionCache → RevisionCache
evict full evictable zero c = c
evict full evictable (suc fuel) c = elim (find (λ e. evictable c e.key) c.entries) [
  | none ↦ c
  | some oldest ↦
      let rest = evict full evictable fuel (drop_entry oldest.key c) in if full c then rest else c
]

-- The loop drops an entry at each turn, so that the number of the entries is enough fuel.
unfoldable pub evict_all :
    (RevisionCache → Bool) → (RevisionCache → Selector → Bool) → RevisionCache → RevisionCache
evict_all full evictable c = evict full evictable (length c.entries) c

-- The last three lines of `cacheRevisions`, behind the additions to the counters of the oversized.
unfoldable pub store_entry : RevisionCacheEntry → Bool → RevisionCache → RevisionCache
store_entry entry over c = record {
  entries = c.entries ++ (entry ∷ []);
  refs = c.refs + length entry.refs;
  bytes = c.bytes + entry.estimated_bytes;
  oversized_keys = if over then c.oversized_keys ++ (entry.key ∷ []) else c.oversized_keys;
  oversized_refs = if over then c.oversized_refs + length entry.refs else c.oversized_refs;
  oversized_bytes = if over then c.oversized_bytes + entry.estimated_bytes else c.oversized_bytes;
  hits = c.hits;
  misses = c.misses;
}

unfoldable pub is_oversized_full : CacheLimits → ℕ → RevisionCache → Bool
is_oversized_full limits bytes c =
    leb limits.max_entries (length c.oversized_keys)
    || ltb limits.max_oversized_bytes (c.oversized_bytes + bytes)

unfoldable pub is_full : CacheLimits → ℕ → ℕ → RevisionCache → Bool
is_full limits refs bytes c =
    leb limits.max_entries (length c.entries - length c.oversized_keys)
    || ltb limits.max_refs (c.refs - c.oversized_refs + refs)
    || ltb limits.max_bytes (c.bytes - c.oversized_bytes + bytes)

-- The cache after a use of an entry: it is the last one.
unfoldable pub touch : RevisionCacheEntry → RevisionCache → RevisionCache
touch entry c = record {
  entries = filter (stays entry.key) c.entries ++ (entry ∷ []);
  refs = c.refs;
  bytes = c.bytes;
  oversized_keys = c.oversized_keys;
  oversized_refs = c.oversized_refs;
  oversized_bytes = c.oversized_bytes;
  hits = c.hits + 1;
  misses = c.misses;
}

unfoldable pub count_miss : RevisionCache → RevisionCache
count_miss c = record {
  entries = c.entries;
  refs = c.refs;
  bytes = c.bytes;
  oversized_keys = c.oversized_keys;
  oversized_refs = c.oversized_refs;
  oversized_bytes = c.oversized_bytes;
  hits = c.hits;
  misses = c.misses + 1;
}

-- The entries that a commit makes stale: those at its least checkpoint or behind it.
unfoldable pub drop_stale : Checkpoint → List RevisionCacheEntry → RevisionCache → RevisionCache
drop_stale min [] c = c
drop_stale min (e ∷ es) c =
    let dropped = drop_stale min es (drop_entry e.key c) in
    let held = drop_stale min es c in if visible min e.at then dropped else held

unfoldable pub least : Checkpoint → List RevisionBrowseRef → Checkpoint
least min [] = min
least min (r ∷ rs) =
    least (if earlier r.published_checkpoint min then r.published_checkpoint else min) rs

unfoldable pub invalidate : List RevisionBrowseRef → RevisionCache → RevisionCache
invalidate [] c = c
invalidate (r ∷ rs) c = drop_stale (least r.published_checkpoint (r ∷ rs)) c.entries c

-- `Buffer.byteLength(key)` of the text of the key.
module _ (key_bytes : Selector → ℕ) where
  -- `cacheRevisions(key, refs, at)`
  unfoldable pub cache_revisions :
      CacheLimits → Selector → List RevisionBrowseRef → Checkpoint → RevisionCache → RevisionCache
  cache_revisions limits key refs at c =
      let bytes = key_bytes key + length refs * pointer_bytes in
      let entry : RevisionCacheEntry = record {
        key = key;
        refs = refs;
        estimated_bytes = bytes;
        at = at;
      } in
      let without = drop_entry key c in
      if ltb limits.max_refs (length refs)
      then (if ltb limits.max_oversized_bytes bytes
          then without
          else store_entry entry true
              (evict_all (is_oversized_full limits bytes) is_oversized without))
      else if ltb limits.max_bytes bytes
      then without
      else store_entry entry false
          (evict_all (is_full limits (length refs) bytes) (λ d k. not (is_oversized d k)) without)
