-- ===== src/Ledger/Laws.antt =====
-- Laws of keys and of the store: what a write changes, and what it leaves alone.
use knowledger.Base.{
  Bool, true, List, [], ◌∷◌, some, Text, ◌≡◌, refl, arith, text_eq_refl, text_eq→eq, ◌==◌,
  if◌then◌else◌,
}
use knowledger.Fault.{ok}
use knowledger.Json.{Json, present}
use knowledger.Json.Canonical.{clone_canonical}
use knowledger.Ledger.Keys.{Key, Prefix, config, revision, rank, texts_eq, key_eq}
use knowledger.Ledger.Store.{Store, put, put_clone, read}

pub texts_eq_refl : (xs : List Text) → texts_eq xs xs ≡ true
unfolding texts_eq
texts_eq_refl [] = refl
texts_eq_refl (x ∷ xs) = ground (arith, text_eq_refl x, texts_eq_refl xs)

pub texts_eq→eq : (xs ys : List Text) → texts_eq xs ys ≡ true → xs ≡ ys
unfolding texts_eq
texts_eq→eq [] [] h = refl
texts_eq→eq [] (y ∷ ys) h = cc
texts_eq→eq (x ∷ xs) [] h = cc
texts_eq→eq (x ∷ xs) (y ∷ ys) h = ground (arith, text_eq→eq x y, texts_eq→eq xs ys)

rank-injective : (p q : Prefix) → rank p ≡ rank q → p ≡ q
rank-injective config q h = ground arith
rank-injective revision q h = ground arith
rank-injective _ q h = ground arith

pub key_eq_refl : (k : Key) → key_eq k k ≡ true
key_eq_refl k = ground (arith, texts_eq_refl k.parts)

pub key_eq→eq : (k j : Key) → key_eq k j ≡ true → k ≡ j
key_eq→eq k j h = ground (arith, rank-injective k.prefix j.prefix, texts_eq→eq k.parts j.parts)

pub at-put :
    (k j : Key) (v : Json) (s : Store) → (put k v s).at j ≡ (if key_eq k j then some v else s.at j)
unfolding put
at-put k j v s = refl

pub read-put :
    (k j : Key) (v : Json) (s : Store)
    → read j (put k v s) ≡ (if key_eq k j then present (some v) else read j s)
unfolding put read
read-put k j v s = ground arith

-- A successful `put_clone` is a `put`.
pub put_clone-eq :
    (k : Key) (v : Json) (s : Store) {t : Store} → put_clone k v s ≡ ok t → t ≡ put k v s
unfolding put_clone clone_canonical
put_clone-eq k v s h = ground arith

abbrev pub same_prefix : Prefix → Prefix → Bool
same_prefix p q = rank p == rank q

-- A clone is the value.
pub clone_canonical-eq : (v : Json) {w : Json} → clone_canonical v ≡ ok w → w ≡ v
unfolding clone_canonical
clone_canonical-eq v h = ground arith

pub read-put_self : (k : Key) (v : Json) (s : Store) → read k (put k v s) ≡ present (some v)
read-put_self k v s = rw (read-put k k v s, key_eq_refl k)
