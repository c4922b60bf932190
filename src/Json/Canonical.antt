-- ===== src/Json/Canonical.antt =====
-- `canonicalNumber`, `canonicalizeValue`, `canonicalize`, `cloneCanonical`, `sameJson` and
-- `assertUniqueCanonical` of packages/domain/index.ts.
use knowledger.Base.{
  ℕ, suc, ◌+◌, ◌/◌, ◌%◌, Bool, false, ◌||◌, List, [], ◌∷◌, ◌++◌, Text, text, text_eq, text_lt,
  includes, ltb, leb, ◌==◌, if◌then◌else◌,
}
use knowledger.Fault.{
  Result, ok, err, invalid, failure, canonicalization_limit, fail_if, require, ◌>>=◌, ◌>>◌,
}
use knowledger.Unicode.{valid_unicode, decimal}
use knowledger.Json.{
  Number, whole, negative, fraction, non_finite, Json, null, bool, num, str, arr, obj, Items, nil,
  cons, Fields, end, field, max_safe_integer,
}

unfoldable pub canonical_number : Number → Result Text
unfolding decimal
canonical_number (whole n) = if leb n max_safe_integer then ok (decimal n) else err invalid
canonical_number (negative n) =
    if ltb n max_safe_integer then ok (b'-' ∷ decimal (n + 1)) else err invalid
canonical_number (fraction t) = ok t
canonical_number non_finite = err invalid

hex_digit : ℕ → ℕ
hex_digit n = if ltb n 10 then b'0' + n else b'W' + n

-- The characters that `JSON.stringify` escapes in a string of valid Unicode.
unfoldable pub escape : ℕ → Text
unfolding hex_digit
escape c =
    if c == 0x22
    then 0x5c ∷ 0x22 ∷ []
    else if c == 0x5c
    then 0x5c ∷ 0x5c ∷ []
    else if c == 8
    then text "\\b"
    else if c == 9
    then text "\\t"
    else if c == 10
    then text "\\n"
    else if c == 12
    then text "\\f"
    else if c == 13
    then text "\\r"
    else if ltb c 32
    then text "\\u00" ++ hex_digit (c / 16) ∷ hex_digit (c % 16) ∷ []
    else c ∷ []

escapes : Text → Text
unfolding escape
escapes [] = []
escapes (c ∷ cs) = escape c ++ escapes cs

unfoldable pub quote : Text → Text
unfolding escapes
quote t = 0x22 ∷ escapes t ++ 0x22 ∷ []

-- `texts.join(",")`
join_rest : List Text → Text
join_rest [] = []
join_rest (t ∷ ts) = b',' ∷ t ++ join_rest ts

unfoldable pub join : List Text → Text
unfolding join_rest
join [] = []
join (t ∷ ts) = t ++ join_rest ts

-- The fields of an object, each with the outcome of its value.
abbrev pub Entries : Type 0
Entries = List (Text × Result Text)

-- `Object.getOwnPropertyNames(value).sort()`, by insertion.
unfoldable pub insert_entry : Text → Result Text → Entries → Entries
insert_entry k r [] = (k, r) ∷ []
insert_entry k r ((j, q) ∷ es) =
    if text_lt j k then (j, q) ∷ insert_entry k r es else (k, r) ∷ (j, q) ∷ es

unfoldable pub sort_entries : Entries → Entries
unfolding insert_entry
sort_entries [] = []
sort_entries ((k, r) ∷ es) = insert_entry k r (sort_entries es)

-- The fields in order; the first failure ends the call.
unfoldable pub print_entries : Entries → Result (List Text)
unfolding quote
print_entries [] = ok []
print_entries ((k, r) ∷ es) = do
  require (valid_unicode k) invalid
  t ← r
  ts ← print_entries es
  ok ((quote k ++ b':' ∷ t) ∷ ts)

abbrev pub max_canonical_depth : ℕ
max_canonical_depth = 128

abbrev pub max_canonical_array_items : ℕ
max_canonical_array_items = 65536

abbrev limit_reached : Result Text
limit_reached = err (failure canonicalization_limit 400)

unfoldable pub count_items : Items → ℕ
count_items nil = 0
count_items (cons v vs) = suc (count_items vs)

brackets : Result (List Text) → Result Text
unfolding join
brackets r = do ts ← r; ok (b'[' ∷ join ts ++ b']' ∷ [])

braces : Entries → Result Text
unfolding sort_entries print_entries join
braces es = do ts ← print_entries (sort_entries es); ok (0x7b ∷ join ts ++ 0x7d ∷ [])

string_text : Text → Result Text
unfolding quote
string_text t = if valid_unicode t then ok (quote t) else err invalid

unfoldable mutual
  unfolding canonical_number quote brackets braces string_text count_items

  pub canonical_value : Json → ℕ → Result Text
  canonical_value null depth =
      if ltb max_canonical_depth depth then limit_reached else ok (text "null")
  canonical_value (bool b) depth =
      if ltb max_canonical_depth depth
      then limit_reached
      else ok (if b then text "true" else text "false")
  canonical_value (num n) depth =
      if ltb max_canonical_depth depth then limit_reached else canonical_number n
  canonical_value (str t) depth =
      if ltb max_canonical_depth depth then limit_reached else string_text t
  canonical_value (arr vs) depth =
      let items = canonical_items vs (depth + 1) in
      if ltb max_canonical_depth depth || ltb max_canonical_array_items (count_items vs)
      then limit_reached
      else brackets items
  canonical_value (obj fs) depth =
      let entries = canonical_fields fs (depth + 1) in
      if ltb max_canonical_depth depth then limit_reached else braces entries

  pub canonical_items : Items → ℕ → Result (List Text)
  canonical_items nil depth = ok []
  canonical_items (cons v vs) depth = do
    t ← canonical_value v depth
    ts ← canonical_items vs depth
    ok (t ∷ ts)

  pub canonical_fields : Fields → ℕ → Entries
  canonical_fields end depth = []
  canonical_fields (field k v fs) depth = (k, canonical_value v depth) ∷ canonical_fields fs depth

unfoldable pub canonicalize : Json → Result Text
unfolding canonical_value canonical_items canonical_fields
canonicalize v = canonical_value v 0

-- `JSON.parse(canonicalize(value))`: the value again, or the failure. The order of an object's
-- fields may change, which nothing in the package observes but `canonicalize`, and that sorts them.
unfoldable pub clone_canonical : Json → Result Json
unfolding canonicalize
clone_canonical v = do printed ← canonicalize v; ok v

unfoldable pub same_texts : Result Text → Result Text → Bool
same_texts (ok s) (ok t) = text_eq s t
same_texts r q = false

-- A value that has no canonical form is the same as no other.
unfoldable pub same_json : Json → Json → Bool
unfolding canonicalize same_texts
same_json v w = same_texts (canonicalize v) (canonicalize w)

unique_from : List Text → List Json → Result (Unit {0})
unfolding canonicalize includes
unique_from seen [] = ok tt
unique_from seen (v ∷ vs) = do
  key ← canonicalize v
  fail_if (includes key seen) invalid
  unique_from (key ∷ seen) vs

unfoldable pub assert_unique_canonical : List Json → Result (Unit {0})
unfolding unique_from
assert_unique_canonical vs = unique_from [] vs

-- `String(value)` as `encodeURIComponent` applies it to a value that is not a string. Arrays join
-- their parts; NaN and the infinities, which no stored value holds, share one text.
unfoldable mutual
  unfolding decimal join

  pub js_string : Json → Text
  js_string null = text "null"
  js_string (bool b) = if b then text "true" else text "false"
  js_string (num (whole n)) = decimal n
  js_string (num (negative n)) = b'-' ∷ decimal (n + 1)
  js_string (num (fraction t)) = t
  js_string (num non_finite) = text "NaN"
  js_string (str t) = t
  js_string (arr vs) = join (js_strings vs)
  js_string (obj fs) = text "[object Object]"

  js_strings : Items → List Text
  js_strings nil = []
  js_strings (cons null vs) = [] ∷ js_strings vs
  js_strings (cons v vs) = js_string v ∷ js_strings vs
