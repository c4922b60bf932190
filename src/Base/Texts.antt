-- ===== src/Base/Texts.antt =====
-- JavaScript strings: lists of UTF-16 code units.
use Prim.Native.Nat.{ℕ}
use Prim.Native.Char.{code}
use Prim.Native.String.{String}
use mathlib.Core.Path.{◌≡◌, refl}
use mathlib.Core.Bool.{Bool, true, false, ◌&&◌, ◌||◌}
use mathlib.Core.List.{List, [], ◌∷◌}
use native.Mathlib.Omega.{arith}
use knowledger.Base.Tests.{◌==◌, ltb}
use knowledger.Base.Lists.{any}

abbrev pub Text : Type 0
Text = List ℕ

-- A literal: every literal of the source is ASCII, where the units are the code points.
abbrev pub text : String → Text
text String.[] = []
text (String.◌∷◌ c s) = code c ∷ text s

-- `===` on strings
unfoldable pub text_eq : Text → Text → Bool
text_eq [] [] = true
text_eq [] (b ∷ ys) = false
text_eq (a ∷ xs) [] = false
text_eq (a ∷ xs) (b ∷ ys) = (a == b) && text_eq xs ys

pub text_eq_refl : (a : Text) → text_eq a a ≡ true
unfolding text_eq
text_eq_refl [] = refl
text_eq_refl (a ∷ xs) = ground (arith, text_eq_refl xs)

pub text_eq→eq : (a b : Text) → text_eq a b ≡ true → a ≡ b
unfolding text_eq
text_eq→eq [] [] h = refl
text_eq→eq [] (b ∷ ys) h = cc
text_eq→eq (a ∷ xs) [] h = cc
text_eq→eq (a ∷ xs) (b ∷ ys) h = ground (arith, text_eq→eq xs ys)

-- `<` on strings, by code units
unfoldable pub text_lt : Text → Text → Bool
text_lt [] [] = false
text_lt [] (b ∷ ys) = true
text_lt (a ∷ xs) [] = false
text_lt (a ∷ xs) (b ∷ ys) = ltb a b || ((a == b) && text_lt xs ys)

-- `Array.prototype.includes` and `Set.prototype.has` on strings
unfoldable pub includes : Text → List Text → Bool
unfolding any
includes t ts = any (text_eq t) ts
