-- ===== src/Browse/Eviction.antt =====
-- The eviction loops of `cacheRevisions` in packages/storage/browse-index.ts end: each turn drops an
-- entry.
use knowledger.Base.{
  ℕ, zero, suc, ◌≤◌, ◌<◌, ◌≡◌, refl, sym, ◌∙◌, subst, ◌⊎◌, inl, inr, Bool, true, false, not, List,
  [], ◌∷◌, none, some, find, filter, length, Bool-cases, Option-cases, some_eq, arith,
}
use knowledger.Browse.Query.{Selector}
use knowledger.Browse.Cache.{
  RevisionCacheEntry, RevisionCache, selector_eq, is_under, cached, stays, drop_entry, evict,
  evict_all,
}
use knowledger.Browse.Stale.{selector_eq_refl}

-- The loop has nothing left to do: the guard fails, or no entry may go.
abbrev pub IsDone :
    (RevisionCache → Bool) → (RevisionCache → Selector → Bool) → RevisionCache → Type 0
IsDone full evictable c =
    (full c ≡ false) ⊎ (find (λ (e : RevisionCacheEntry). evictable c e.key) c.entries ≡ none)

module _ {A : Type 0} where
  filter-length : (p : A → Bool) (xs : List A) → length (filter p xs) ≤ length xs
  unfolding filter
  filter-length p [] = omega arith
  filter-length p (x ∷ xs) = ground (arith, filter-length p xs)

-- The entry that a loop finds is under its own key, so that its deletion makes the cache shorter.
stays-shorter :
    (test : RevisionCacheEntry → Bool) (es : List RevisionCacheEntry) {e : RevisionCacheEntry}
    → find test es ≡ some e
    → length (filter (stays e.key) es) < length es
unfolding find filter stays is_under
stays-shorter test [] h = ground arith
stays-shorter test (x ∷ xs) {e} h = elim (Bool-cases (test x)) [
  | inl k ↦
      let same : x ≡ e = some_eq (rw k at h) in
      let own : selector_eq e.key x.key ≡ true = rw same (selector_eq_refl e.key) in
      ground (arith, own, filter-length (λ y. not (selector_eq e.key y.key)) xs)
  | inr k ↦ ground (arith, stays-shorter test xs (rw k at h))
]

true_is_not_false : true ≡ false → ⊥
true_is_not_false k = cc

find-cached :
    (test : RevisionCacheEntry → Bool) (es : List RevisionCacheEntry) {e : RevisionCacheEntry}
    → find test es ≡ some e
    → (x : RevisionCacheEntry) × (find (is_under e.key) es ≡ some x)
unfolding find is_under
find-cached test [] h = ground arith
find-cached test (x ∷ xs) {e} h = elim (Bool-cases (selector_eq e.key x.key)) [
  | inl own ↦ (x, rw own)
  | inr other ↦ elim (Bool-cases (test x)) [
    | inl k ↦
        let same : x ≡ e = some_eq (rw k at h) in
        absurd (
          true_is_not_false (
            sym (selector_eq_refl e.key) ∙ subst (λ y. selector_eq e.key y.key ≡ false) same other))
    | inr k ↦ let rest = find-cached test xs (rw k at h) in (rest.0, rw other (rest.1))
  ]
]

find-empty :
    (test : RevisionCacheEntry → Bool) (es : List RevisionCacheEntry)
    → length es ≤ 0
    → find test es ≡ none
unfolding find
find-empty test [] h = refl
find-empty test (e ∷ es) h = ground arith

drop_entry-shorter :
    (test : RevisionCacheEntry → Bool) (c : RevisionCache) {e : RevisionCacheEntry}
    → find test c.entries ≡ some e
    → length (drop_entry e.key c).entries < length c.entries
unfolding drop_entry cached
drop_entry-shorter test c {e} h =
    let here = find-cached test c.entries h in
    rw (drop_entry, here.1) (stays-shorter test c.entries h)

evict-IsDone :
    (full : RevisionCache → Bool) (evictable : RevisionCache → Selector → Bool) (fuel : ℕ)
    (c : RevisionCache)
    → length c.entries ≤ fuel
    → IsDone full evictable (evict full evictable fuel c)
unfolding evict
evict-IsDone full evictable zero c h = inr (find-empty _ c.entries h)
evict-IsDone full evictable (suc fuel) c h =
    elim (Option-cases (find (λ (e : RevisionCacheEntry). evictable c e.key) c.entries)) [
      | inl e ↦ rw (evict, e) (inr e)
      | inr (oldest, e) ↦ elim (Bool-cases (full c)) [
        | inr k ↦ rw (evict, e, k) (inl k)
        | inl k ↦
            rw (evict, e, k)
              (evict-IsDone full evictable fuel (drop_entry oldest.key c)
                (ground (arith, drop_entry-shorter (λ x. evictable c x.key) c e)))
      ]
    ]

-- With the number of the entries as fuel, an eviction loop stops where its guard fails or no entry may
-- go, whatever the guard and the choice are.
pub evict_all-IsDone :
    (full : RevisionCache → Bool) (evictable : RevisionCache → Selector → Bool) (c : RevisionCache)
    → IsDone full evictable (evict_all full evictable c)
unfolding evict_all
evict_all-IsDone full evictable c = evict-IsDone full evictable (length c.entries) c (ground arith)
