-- ===== src/Json.antt =====
-- The JSON values that tasks hold, as src/project/services/project.service.ts reads and prints them
-- (`parseJsonLike`, `serializeJsonForGraphql`), over what the language does with them.
use rooeel_backend_api.Prelude.{ℕ, zero, suc, ◌≡◌, true, Option, none, some, if◌then◌else◌}
use rooeel_backend_api.Text.{Text, text_eq, trim, is_empty}
use rooeel_backend_api.Schema.{Json, null, other_num, bool, num, str, arr, obj, Fields, end, field}

-- What the language does with JSON values.
pub record JsonHost : Type 0 where
  -- `JSON.parse`; `none` if it throws
  pub parse : Text → Option Json
  -- `JSON.stringify`
  pub stringify : Json → Text
  -- `String(value)`
  pub text_of : Json → Text
  -- `Number(value)`, where it is a natural number
  pub number_of : Json → Option ℕ
  pub number_of-num : (n : ℕ) → number_of (num n) ≡ some n

-- `schema[key]`
unfoldable pub field_of : Text → Fields → Option Json
field_of key end = none
field_of key (field k v rest) = if text_eq k key then some v else field_of key rest

-- `{ ...schema, [key]: value }`
unfoldable pub put_field : Text → Json → Fields → Fields
put_field key v end = field key v end
put_field key v (field k w rest) =
    if text_eq k key then field k v rest else field k w (put_field key v rest)

-- `value ?? …` passes over `null`.
abbrev pub not_null : Option Json → Option Json
not_null none = none
not_null (some null) = none
not_null (some other_num) = some other_num
not_null (some (bool b)) = some (bool b)
not_null (some (num n)) = some (num n)
not_null (some (str s)) = some (str s)
not_null (some (arr xs)) = some (arr xs)
not_null (some (obj fs)) = some (obj fs)

-- `value || 0`
abbrev pub or_zero : Option Json → Json
or_zero none = num 0
or_zero (some null) = num 0
or_zero (some other_num) = other_num
or_zero (some (bool b)) = if b then bool true else num 0
or_zero (some (num n)) = num n
or_zero (some (str s)) = if is_empty s then num 0 else str s
or_zero (some (arr xs)) = arr xs
or_zero (some (obj fs)) = obj fs

-- An object that is no array.
abbrev pub object_of : Option Json → Option Fields
object_of none = none
object_of (some null) = none
object_of (some other_num) = none
object_of (some (bool b)) = none
object_of (some (num n)) = none
object_of (some (str s)) = none
object_of (some (arr xs)) = none
object_of (some (obj fs)) = some fs

module _ (host : JsonHost) where
  -- The rounds of the loop that are left, and the current value. A text is parsed; a blank one is
  -- `undefined`; any other value, and a text that does not parse, is the result.
  unfoldable pub parse_rounds : ℕ → Json → Option Json
  parse_rounds zero v = some v
  parse_rounds (suc rounds) (str s) =
      if is_empty (trim s)
      then none
      else elim (host.parse (trim s)) [ none ↦ some (str s) | some v ↦ parse_rounds rounds v ]
  parse_rounds (suc rounds) null = some null
  parse_rounds (suc rounds) other_num = some other_num
  parse_rounds (suc rounds) (bool b) = some (bool b)
  parse_rounds (suc rounds) (num n) = some (num n)
  parse_rounds (suc rounds) (arr xs) = some (arr xs)
  parse_rounds (suc rounds) (obj fs) = some (obj fs)

  unfoldable pub parse_json_like : Option Json → Option Json
  unfolding parse_rounds
  parse_json_like none = none
  parse_json_like (some v) = parse_rounds 2 v

  unfoldable pub serialize_json : Option Json → Option Text
  serialize_json none = none
  serialize_json (some null) = none
  serialize_json (some other_num) = some (host.stringify other_num)
  serialize_json (some (bool b)) = some (host.stringify (bool b))
  serialize_json (some (num n)) = some (host.stringify (num n))
  serialize_json (some (str s)) = some s
  serialize_json (some (arr xs)) = some (host.stringify (arr xs))
  serialize_json (some (obj fs)) = some (host.stringify (obj fs))
