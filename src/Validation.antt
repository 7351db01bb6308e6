-- ===== src/Validation.antt =====
-- src/edition-actions/action-validation.ts: the fields of a payload are read with their types, lengths and
-- ranges. The labels, which only the messages use, are left out. `lower` is toLowerCase and `is_date` tells
-- whether Date.parse reads a date.
pub mod Patterns
pub mod Normal
use intereng_api.Base.{
  ℕ, String, Bool, true, false, not, ◌&&◌, ◌||◌, Option, none, some, List, [], ◌∷◌, ltb, leb, ◌==◌,
  contains, length, if◌then◌else◌,
}
use intereng_api.Base.Text
use intereng_api.Base.Text.{trim}
use intereng_api.Base.Int.{ℤ, leb_ℤ}
use intereng_api.Json.{
  Number, whole, fraction, Json, null, boolean, number, text, array, object, Fields, items, keys,
  at,
}
use intereng_api.Validation.Patterns.{is_id, is_time, is_date_text, is_email}
use intereng_api.Http.{bad_request, Reply, ok, fail, ◌>>=◌, ◌>>◌, throw_if}

-- The keys that are not allowed.
unfoldable pub unknown_keys : List String → List String → List String
unknown_keys allowed [] = []
unknown_keys allowed (k ∷ ks) =
    let rest = unknown_keys allowed ks in if contains allowed k then rest else k ∷ rest

-- `allowed` is `none` where the caller names no keys.
unfoldable pub action_object : Option (List String) → Option Json → Reply Fields
unfolding unknown_keys
action_object none (some (object fs)) = ok fs
action_object (some allowed) (some (object fs)) =
    if length (unknown_keys allowed (keys fs)) == 0 then ok fs else fail bad_request
action_object allowed _ = fail bad_request

unfoldable pub action_array : ℕ → Option Json → Reply (List Json)
action_array max (some (array vs)) =
    if ltb max (length (items vs)) then fail bad_request else ok (items vs)
action_array max _ = fail bad_request

pub record StringOptions : Type 0 where
  pub min : ℕ
  pub max : ℕ
  pub trimmed : Bool

-- The options `{ min, max }`.
abbrev pub between : ℕ → ℕ → StringOptions
between lo hi = record { min = lo; max = hi; trimmed = true }

unfoldable pub string_value : StringOptions → Option Json → Reply String
string_value o (some (text s)) =
    let normalized = if o.trimmed then trim s else s in
    if ltb (Text.length normalized) o.min || ltb o.max (Text.length normalized)
    then fail bad_request
    else ok normalized
string_value o _ = fail bad_request

unfoldable pub action_string : Fields → String → StringOptions → Reply String
unfolding string_value
action_string fs key o = string_value o (at key fs)

-- What an optional field holds: undefined, null or a value.
pub data Field (A : Type 0) : Type 0 where
  missing cleared : Field A
  given : A → Field A

-- `read` where the field is there, and null where `nullable` allows it.
abbrev pub optional : {A : Type 0} → Bool → (Option Json → Reply A) → Option Json → Reply (Field A)
optional nullable read none = ok missing
optional true read (some null) = ok cleared
optional nullable read v = read v >>= λ a. ok (given a)

unfoldable pub optional_action_string :
    Bool → Fields → String → StringOptions → Reply (Field String)
unfolding string_value
optional_action_string nullable fs key o = optional nullable (string_value o) (at key fs)

unfoldable pub action_id : Fields → String → Reply String
action_id fs key = do
  value ← action_string fs key (between 1 128)
  throw_if (not (is_id value)) bad_request
  ok value

unfoldable pub boolean_value : Option Json → Reply Bool
boolean_value (some (boolean b)) = ok b
boolean_value _ = fail bad_request

unfoldable pub action_boolean : Fields → String → Reply Bool
unfolding boolean_value
action_boolean fs key = boolean_value (at key fs)

unfoldable pub optional_action_boolean : Fields → String → Reply (Field Bool)
unfolding boolean_value
optional_action_boolean fs key = optional false boolean_value (at key fs)

pub record NumberOptions : Type 0 where
  pub min : Option ℤ
  pub max : Option ℤ
  pub integer : Bool

abbrev pub is_integer : Number → Bool
is_integer (whole n) = true
is_integer (fraction n d) = false

-- value < min
abbrev pub below : Number → Option ℤ → Bool
below v none = false
below (whole n) (some m) = not (leb_ℤ m n)
below (fraction n d) (some m) = not (leb_ℤ m n)

-- value > max
abbrev pub above : Number → Option ℤ → Bool
above v none = false
above (whole n) (some m) = not (leb_ℤ n m)
above (fraction n d) (some m) = leb_ℤ m n

unfoldable pub number_value : NumberOptions → Option Json → Reply Number
number_value o (some (number v)) =
    if o.integer && not (is_integer v)
    then fail bad_request
    else if below v o.min
    then fail bad_request
    else if above v o.max
    then fail bad_request
    else ok v
number_value o _ = fail bad_request

unfoldable pub action_number : Fields → String → NumberOptions → Reply Number
unfolding number_value
action_number fs key o = number_value o (at key fs)

unfoldable pub optional_action_number :
    Bool → Fields → String → NumberOptions → Reply (Field Number)
unfolding number_value
optional_action_number nullable fs key o = optional nullable (number_value o) (at key fs)

unfoldable pub enum_value : List String → Option Json → Reply String
enum_value values v = do
  value ← string_value (between 1 100) v
  throw_if (not (contains values value)) bad_request
  ok value

unfoldable pub action_enum : Fields → String → List String → Reply String
unfolding enum_value
action_enum fs key values = enum_value values (at key fs)

unfoldable pub optional_action_enum : Fields → String → List String → Reply (Field String)
unfolding enum_value
optional_action_enum fs key values = optional false (enum_value values) (at key fs)

unfoldable pub action_time : Fields → String → Reply String
action_time fs key = do
  value ← action_string fs key (between 5 5)
  throw_if (not (is_time value)) bad_request
  ok value

unfoldable pub action_date : (String → Bool) → Fields → String → Reply String
action_date is_date fs key = do
  value ← action_string fs key (between 10 10)
  throw_if (not (is_date_text value) || not (is_date value)) bad_request
  ok value

unfoldable pub action_email : (String → String) → Fields → String → Reply String
action_email lower fs key = do
  value ← action_string fs key (between 3 254)
  throw_if (not (is_email false (lower value))) bad_request
  ok (lower value)

-- EditionActionAuditDto
pub record Audit : Type 0 where
  pub action : String
  pub entity : String
  pub before : Option String
  pub after : Option String
  pub reason : Option String

unfoldable pub require_action_reason : Option Audit → Reply String
require_action_reason none = fail bad_request
require_action_reason (some a) = elim a.reason [
  | none ↦ fail bad_request
  | some r ↦ if ltb (Text.length (trim r)) 5 then fail bad_request else ok (trim r)
]
