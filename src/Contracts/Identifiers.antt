-- ===== src/Contracts/Identifiers.antt =====
-- The regular expressions of packages/domain/index.ts and the assertions on single values.
use knowledger.Base.{
  ℕ, suc, Bool, false, ◌&&◌, ◌||◌, [], ◌∷◌, Option, none, some, Text, text, all, length, leb, ◌==◌,
  if◌then◌else◌,
}
use knowledger.Fault.{Result, ok, err, invalid, ◌>>=◌}
use knowledger.Unicode.{valid_unicode, code_points}
use knowledger.Json.{Json, num, str, assert_safe_integer, whole}

abbrev pub is_lower : ℕ → Bool
is_lower c = leb b'a' c && leb c b'z'

abbrev pub is_digit : ℕ → Bool
is_digit c = leb b'0' c && leb c b'9'

abbrev pub is_letter : ℕ → Bool
is_letter c = (leb b'A' c && leb c b'Z') || is_lower c

-- `[A-Za-z0-9._:-]`
abbrev pub is_id_char : ℕ → Bool
is_id_char c = is_letter c || is_digit c || c == b'.' || c == b'_' || c == b':' || c == b'-'

-- `{low,high}` of characters of a class.
unfoldable pub repeated : (ℕ → Bool) → ℕ → ℕ → Text → Bool
unfolding all
repeated in_class low high t = leb low (length t) && leb (length t) high && all in_class t

-- `ID_RE`
unfoldable pub is_id : Text → Bool
unfolding repeated
is_id [] = false
is_id (c ∷ cs) = is_letter c && repeated is_id_char 2 63 cs

unfoldable pub after_prefix : Text → Text → Option Text
after_prefix [] t = some t
after_prefix (p ∷ ps) [] = none
after_prefix (p ∷ ps) (c ∷ cs) = if p == c then after_prefix ps cs else none

abbrev is_hex : ℕ → Bool
is_hex c = is_digit c || (leb b'a' c && leb c b'f')

-- `DIGEST_RE`
unfoldable pub is_digest : Text → Bool
unfolding after_prefix repeated
is_digest t = elim (after_prefix (text "sha256:") t) [
  | none ↦ false
  | some hex ↦ repeated is_hex 64 64 hex
]

-- `v[1-9][0-9]*`
unfoldable pub is_scope_version : Text → Bool
unfolding all
is_scope_version (v ∷ d ∷ ds) = v == b'v' && (leb b'1' d && leb d b'9') && all is_digit ds
is_scope_version t = false

-- `[a-z0-9-]{1,40}\/` and the version, with `n` characters of the class behind.
unfoldable pub is_scope_rest : ℕ → Text → Bool
unfolding is_scope_version
is_scope_rest n [] = false
is_scope_rest n (c ∷ cs) =
    let more = is_scope_rest (suc n) cs in
    if c == b'/'
    then leb 1 n && leb n 40 && is_scope_version cs
    else (is_lower c || is_digit c || c == b'-') && more

-- `USAGE_SCOPE_RE`
unfoldable pub is_usage_scope : Text → Bool
unfolding is_scope_rest
is_usage_scope [] = false
is_usage_scope (c ∷ cs) = is_lower c && is_scope_rest 0 cs

-- `RELATIONSHIP_RE`
unfoldable pub is_relationship : Text → Bool
unfolding repeated
is_relationship [] = false
is_relationship (c ∷ cs) =
    is_lower c
    && repeated (λ d. is_lower d || is_digit d || d == b'_' || d == b':' || d == b'-') 2 63 cs

-- The nonce of a fence.
unfoldable pub is_nonce : Text → Bool
unfolding repeated
is_nonce t = repeated is_id_char 16 128 t

-- A string that passes a test.
unfoldable pub assert_text : (Text → Bool) → Option Json → Result Text
assert_text test (some (str t)) = if test t then ok t else err invalid
assert_text test v = err invalid

unfoldable pub assert_id : Option Json → Result Text
unfolding assert_text is_id
assert_id v = assert_text is_id v

unfoldable pub assert_digest : Option Json → Result Text
unfolding assert_text is_digest
assert_digest v = assert_text is_digest v

unfoldable pub assert_usage_scope : Option Json → Result Text
unfolding assert_text is_usage_scope
assert_usage_scope v = assert_text is_usage_scope v

unfoldable pub is_bounded_text : ℕ → Text → Bool
unfolding valid_unicode code_points
is_bounded_text max_length t =
    valid_unicode t && leb 1 (length (code_points t)) && leb (length (code_points t)) max_length

unfoldable pub assert_non_empty_string : Option Json → ℕ → Result Text
unfolding assert_text is_bounded_text
assert_non_empty_string v max_length = assert_text (is_bounded_text max_length) v

-- `ConfigVersion`
pub data ConfigVersion : Type 0 where
  number : ℕ → ConfigVersion
  name : Text → ConfigVersion

unfoldable pub assert_version : Option Json → Result ConfigVersion
unfolding assert_safe_integer assert_id
assert_version (some (num n)) = do k ← assert_safe_integer (some (num n)) 1; ok (number k)
assert_version v = do t ← assert_id v; ok (name t)

unfoldable pub encode_version : ConfigVersion → Json
encode_version (number n) = num (whole n)
encode_version (name t) = str t
