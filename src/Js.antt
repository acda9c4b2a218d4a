-- ===== src/Js.antt =====
-- JavaScript values as public/javascripts/pagination.js meets them: what `typeof` and the plug-in's
-- own `getObjectType` say of them, which count as false, and reading a property.
use pact_broker.Prelude.{
  ℕ, zero, suc, String, Bool, true, false, Option, none, some, List, [], ◌∷◌, ◌≡◌, refl, str_eq,
  truthy, if◌then◌else◌,
}
use Prim.Native.String
use Prim.Native.Char.{code}
use pact_broker.Prelude.{◌==◌}

-- A function is known by a number only. Objects with a class of their own are left out.
mutual
  pub data Value : Type 0 where
    undefined null function : Value
    bool : Bool → Value
    number : ℕ → Value
    text : String → Value
    array : Items → Value
    object : Fields → Value

  pub data Items : Type 0 where
    end : Items
    item : Value → Items → Items

  pub data Fields : Type 0 where
    done : Fields
    field : String → Value → Fields → Fields

-- Whether a value counts as true in a test.
unfoldable pub holds : Value → Bool
holds undefined = false
holds null = false
holds function = true
holds (bool b) = b
holds (number zero) = false
holds (number (suc n)) = true
holds (text s) = truthy s
holds (array xs) = true
holds (object fs) = true

-- `getObjectType`: `typeof`, but the class of an object, in small letters, and "null".
unfoldable pub get_object_type : Value → String
get_object_type undefined = "undefined"
get_object_type null = "null"
get_object_type function = "function"
get_object_type (bool b) = "boolean"
get_object_type (number n) = "number"
get_object_type (text s) = "string"
get_object_type (array xs) = "array"
get_object_type (object fs) = "object"

-- `Helpers.isObject`, `Helpers.isArray`, `Helpers.isString`, and jQuery's `$.isFunction`.
unfoldable pub is_object : Value → Bool
unfolding get_object_type
is_object v = str_eq (get_object_type v) "object"

unfoldable pub is_array : Value → Bool
unfolding get_object_type
is_array v = str_eq (get_object_type v) "array"

unfoldable pub is_string : Value → Bool
unfolding get_object_type
is_string v = str_eq (get_object_type v) "string"

abbrev pub is_function : Value → Bool
is_function function = true
is_function _ = false

abbrev pub is_undefined : Value → Bool
is_undefined undefined = true
is_undefined _ = false

-- An array counts as true.
pub holds_of_is_array : (v : Value) → is_array v ≡ true → holds v ≡ true
unfolding holds is_array
holds_of_is_array (array xs) h = refl
holds_of_is_array _ h = cc

abbrev pub own : String → Fields → Option Value
own key done = none
own key (field name v fs) = if str_eq name key then some v else own key fs

-- `v[key]`: `none` where the read throws. What a value has besides an object's own fields (an
-- array's items, what is inherited) is a parameter.
unfoldable pub property : (Value → String → Value) → Value → String → Option Value
property inherited undefined key = none
property inherited null key = none
property inherited (object fs) key = elim (own key fs) [
  | none ↦ some (inherited (object fs) key)
  | some v ↦ some v
]
property inherited v key = some (inherited v key)

-- `s.split('.')`: the parts between the dots, with the part that is being read.
split_from : String → String → List String
split_from part String.[] = part ∷ []
split_from part (String.◌∷◌ c s) =
    let closed = split_from "" s in
    let longer = split_from (String.◌++◌ part (String.◌∷◌ c String.[])) s in
    if code c == b'.' then part ∷ closed else longer

unfoldable pub split_dots : String → List String
unfolding split_from
split_dots s = split_from "" s
