-- ===== src/Unicode.antt =====
-- `assertValidUnicode` of packages/domain/index.ts and what the language does with UTF-16 text:
-- counting code points, encoding as UTF-8, printing numbers.
use knowledger.Base.{
  ℕ, zero, suc, ◌+◌, ◌-◌, ◌*◌, ◌/◌, ◌%◌, Bool, true, not, ◌&&◌, List, [], ◌∷◌, ◌++◌, Text, ltb, leb,
  if◌then◌else◌, length,
}

unfoldable pub is_high : ℕ → Bool
is_high c = leb 0xd800 c && leb c 0xdbff

unfoldable pub is_low : ℕ → Bool
is_low c = leb 0xdc00 c && leb c 0xdfff

-- The loop: a high surrogate is skipped with the low one after it.
unfoldable pub valid_unicode : Text → Bool
unfolding is_high is_low
valid_unicode [] = true
valid_unicode (c ∷ []) = not (is_high c) && not (is_low c)
valid_unicode (c ∷ next ∷ rest) =
    let paired = is_low next && valid_unicode rest in
    let single = not (is_low c) && valid_unicode (next ∷ rest) in
    if is_high c then paired else single

-- The code point of a pair.
abbrev pub pair_point : ℕ → ℕ → ℕ
pair_point high low = 0x10000 + (high - 0xd800) * 0x400 + (low - 0xdc00)

-- `Array.from(value)`: the code points; a lone surrogate stays as it is.
unfoldable pub code_points : Text → List ℕ
unfolding is_high is_low
code_points [] = []
code_points (c ∷ []) = c ∷ []
code_points (c ∷ next ∷ rest) =
    let paired = pair_point c next ∷ code_points rest in
    let single = c ∷ code_points (next ∷ rest) in
    if is_high c && is_low next then paired else single

-- UTF-8; a lone surrogate is written as U+FFFD.
unfoldable pub utf8_point : ℕ → List ℕ
utf8_point p =
    if ltb p 0x80
    then p ∷ []
    else if ltb p 0x800
    then (0xc0 + p / 0x40) ∷ (0x80 + p % 0x40) ∷ []
    else if leb 0xd800 p && leb p 0xdfff
    then 0xef ∷ 0xbf ∷ 0xbd ∷ []
    else if ltb p 0x10000
    then (0xe0 + p / 0x1000) ∷ (0x80 + p / 0x40 % 0x40) ∷ (0x80 + p % 0x40) ∷ []
    else (0xf0 + p / 0x40000)
      ∷ (0x80 + p / 0x1000 % 0x40)
      ∷ (0x80 + p / 0x40 % 0x40)
      ∷ (0x80 + p % 0x40)
      ∷ []

unfoldable pub utf8_points : List ℕ → List ℕ
unfolding utf8_point
utf8_points [] = []
utf8_points (p ∷ ps) = utf8_point p ++ utf8_points ps

-- `Buffer.from(value, "utf8")`
unfoldable pub utf8 : Text → List ℕ
unfolding utf8_points code_points
utf8 t = utf8_points (code_points t)

-- `Buffer.byteLength(value, "utf8")`
unfoldable pub byte_length : Text → ℕ
unfolding utf8
byte_length t = length (utf8 t)

-- `String(n)` of a whole number; `n + 1` rounds are enough.
decimal_digits : ℕ → ℕ → Text → Text
decimal_digits zero n rest = rest
decimal_digits (suc fuel) n rest =
    let more = decimal_digits fuel (n / 10) ((b'0' + n % 10) ∷ rest) in
    if ltb n 10 then (b'0' + n) ∷ rest else more

unfoldable pub decimal : ℕ → Text
unfolding decimal_digits
decimal n = decimal_digits (suc n) n []
