-- ===== src/Json.antt =====
-- JSON values, as the domain receives them from a request or from the store, and the first checks
-- that packages/domain/index.ts makes of them. What JSON text cannot produce (functions, accessors,
-- symbols, cycles, foreign prototypes, sparse arrays) has no value here.
pub mod Canonical
use knowledger.Base.{
  ℕ, ◌-◌, ◌^◌, Bool, true, false, ◌&&◌, List, [], ◌∷◌, ◌++◌, Option, none, some, Text, text_eq,
  includes, all, leb, if◌then◌else◌,
}
use knowledger.Fault.{Result, ok, err, invalid, require, ◌>>◌}

-- A number is a whole one, another finite one by the text that `JSON.stringify` gives, or NaN or an
-- infinity. -0 is 0: `===` and `canonicalNumber` do not tell them apart. `negative n` is -(n + 1).
pub data Number : Type 0 where
  whole : ℕ → Number
  negative : ℕ → Number
  fraction : Text → Number
  non_finite : Number

mutual
  pub data Json : Type 0 where
    null : Json
    bool : Bool → Json
    num : Number → Json
    str : Text → Json
    arr : Items → Json
    obj : Fields → Json

  pub data Items : Type 0 where
    nil : Items
    cons : Json → Items → Items

  pub data Fields : Type 0 where
    end : Fields
    field : Text → Json → Fields → Fields

unfoldable pub to_list : Items → List Json
to_list nil = []
to_list (cons v vs) = v ∷ to_list vs

unfoldable pub from_list : List Json → Items
from_list [] = nil
from_list (v ∷ vs) = cons v (from_list vs)

-- `Object.keys(value)`
unfoldable pub keys : Fields → List Text
keys end = []
keys (field k v fs) = k ∷ keys fs

-- `value[key]`; `none` is `undefined`.
unfoldable pub prop : Text → Fields → Option Json
prop k end = none
prop k (field j v fs) = if text_eq k j then some v else prop k fs

-- `Object.prototype.hasOwnProperty.call(value, key)`
unfoldable pub has_own : Text → Fields → Bool
unfolding prop
has_own k fs = elim (prop k fs) [ none ↦ false | some v ↦ true ]

-- `value === undefined || value === null` is `none`.
unfoldable pub present : Option Json → Option Json
present none = none
present (some null) = none
present (some v) = some v

unfoldable pub assert_record : Option Json → Result Fields
assert_record (some (obj fs)) = ok fs
assert_record v = err invalid

unfoldable pub assert_array : Option Json → Result (List Json)
unfolding to_list
assert_array (some (arr vs)) = ok (to_list vs)
assert_array v = err invalid

unfoldable pub assert_keys : Fields → List Text → List Text → Result (Unit {0})
unfolding includes all keys has_own
assert_keys fs required optional = do
  require (all (λ k. includes k (required ++ optional)) (keys fs)) invalid
  require (all (λ k. has_own k fs) required) invalid

abbrev pub max_safe_integer : ℕ
max_safe_integer = 2 ^ 53 - 1

unfoldable pub assert_safe_integer : Option Json → ℕ → Result ℕ
assert_safe_integer (some (num (whole n))) minimum =
    if leb n max_safe_integer && leb minimum n then ok n else err invalid
assert_safe_integer v minimum = err invalid

unfoldable pub assert_boolean : Option Json → Result Bool
assert_boolean (some (bool b)) = ok b
assert_boolean v = err invalid

-- `value === "literal"`
unfoldable pub is_text : Option Json → Text → Bool
is_text (some (str t)) u = text_eq t u
is_text v u = false

-- `value === n`
unfoldable pub is_number : Option Json → ℕ → Bool
is_number (some (num (whole n))) m = leb n m && leb m n
is_number v m = false

-- A property whose check fails on `undefined`.
unfoldable pub required_property : Text → Fields → Result Json
unfolding prop
required_property k fs = elim (prop k fs) [ none ↦ err invalid | some v ↦ ok v ]

-- `value !== undefined && value !== null`, of a value that was read.
unfoldable pub is_present : Option Json → Bool
is_present none = false
is_present (some v) = true
