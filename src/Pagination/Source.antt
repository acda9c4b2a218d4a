-- ===== src/Pagination/Source.antt =====
-- The data source of public/javascripts/pagination.js: `getLocator`, `filterDataByLocator`,
-- `parseDataSource` and `parameterChecker`. `throwError` is the error case of a result.
pub mod Located
pub mod Checked
pub mod Handed
use package.text.Mathlib.Text.{starts_with, find?}
use pact_broker.Prelude.{
  ℕ, String, Bool, true, false, not, ◌||◌, ◌&&◌, Option, none, some, List, [], ◌∷◌, map,
  if◌then◌else◌, join,
}
use pact_broker.Js.{
  Value, undefined, null, function, text, array, object, holds, is_object, is_array, is_string,
  is_function, is_undefined, property, split_dots,
}

pub data Result {ℓ} (A : Type ℓ) : Type ℓ where
  ok : A → Result A
  err : String → Result A

infixl 5 ◌>>=◌
abbrev pub ◌>>=◌ {ℓ κ} : {A : Type ℓ} {B : Type κ} → Result A → (A → Result B) → Result B
ok a >>= f = f a
err e >>= f = err e

-- The option `locator`: any value, or a function with the locator that it returns.
pub data Locator : Type 0 where
  value : Value → Locator
  returns : String → Locator

unfoldable pub get_locator : Locator → Result String
get_locator (value (text s)) = ok s
get_locator (returns s) = ok s
get_locator _ = err "\"locator\" is incorrect. (String | Function)"

-- One part of the locator is read from what was found so far, or from the source if that counts as
-- false. A read that throws ends the loop (the source catches it), with what was found so far.
locate : (Value → String → Value) → (source found : Value) → List String → Value
locate inherited source found [] = found
locate inherited source found (key ∷ keys) =
    elim (property inherited (if holds found then found else source) key) [
      | none ↦ found
      | some v ↦ locate inherited source v keys
    ]

-- The check of what was located: it has to be there, and to be an array.
unfoldable pub checked : (locator : String) → Value → Result Value
checked locator found =
    if not (holds found)
    then err (join ("dataSource." ∷ locator ∷ " is undefined." ∷ []))
    else if not (is_array found)
    then err (join ("dataSource." ∷ locator ∷ " must be an Array." ∷ []))
    else ok found

unfoldable pub filter_data_by_locator : (Value → String → Value) → Locator → Value → Result Value
unfolding get_locator locate checked is_object
filter_data_by_locator inherited located source = get_locator located >>= λ locator.
    if is_object source
    then checked locator (locate inherited source undefined (split_dots locator))
    else ok source

-- The option `dataSource`: a value, or a function with the data that it hands to its callback before it
-- returns, one for each call that it makes. What it hands over later is an event of Pagination/Late.
pub data Source : Type 0 where
  value : Value → Source
  delivers : List Value → Source

-- What `parseDataSource` hands to its callback, and whether it sets the type of the requests.
pub record Parsed : Type 0 where
  pub data_source : Value
  pub jsonp : Bool

abbrev pub is_found : Option ℕ → Bool
is_found none = false
is_found (some n) = true

-- `/^https?|file:/`: "http" at the start, or "file:" anywhere.
abbrev pub is_remote : String → Bool
is_remote s = starts_with s "http" || is_found (find? s "file:")

parse_text : Value → Result Parsed
parse_text (text s) = ok (record { data_source = text s; jsonp = is_remote s })
parse_text _ = err "Unexpected type of \"dataSource\"."

-- `parseDataSource` at a value that is no function.
unfoldable pub parse_value : (Value → String → Value) → Locator → Value → Result Parsed
unfolding parse_text filter_data_by_locator
parse_value inherited located source =
    if is_object source
    then (filter_data_by_locator inherited located source >>= λ found.
        ok (record { data_source = found; jsonp = false }))
    else if is_array source
    then ok (record { data_source = source; jsonp = false })
    else parse_text source

-- The function that `dataSource` is given, at what it is called with.
unfoldable pub parse_delivered : (Value → String → Value) → Locator → Value → Result Parsed
unfolding parse_value
parse_delivered inherited located v =
    if not (is_array v)
    then err "The parameter of \"done\" Function should be an Array."
    else parse_value inherited located v

-- The outcomes by the time that `parseDataSource` returns, one for each call of the callback or each
-- error.
unfoldable pub parse_data_source :
    (Value → String → Value) → Locator → Source → List (Result Parsed)
unfolding parse_value parse_delivered
parse_data_source inherited located (value v) = parse_value inherited located v ∷ []
parse_data_source inherited located (delivers vs) = map (parse_delivered inherited located) vs

-- The options that `parameterChecker` reads.
pub record Parameters : Type 0 where
  pub data_source : Source
  pub total_number : Value
  pub total_number_locator : Value
  pub locator : Locator
  pub format_result : Value

abbrev locator_given : Locator → Bool
locator_given (value v) = not (is_undefined v)
locator_given (returns s) = true

abbrev locator_usable : Locator → Bool
locator_usable (value (text s)) = true
locator_usable (value v) = false
locator_usable (returns s) = true

-- The checks of each kind of source, in the source's order.
check_source :
    (is_numeric : Value → Bool)
    → (printed : Locator → String) → Parameters
    → Value
    → Result (Unit {0})
check_source is_numeric printed p v =
    if is_string v
    then (if is_undefined p.total_number_locator
        then (if is_undefined p.total_number
            then err "\"totalNumber\" is required."
            else if not (is_numeric p.total_number)
            then err "\"totalNumber\" is incorrect. (Number)"
            else ok tt)
        else if not (is_function p.total_number_locator)
        then err "\"totalNumberLocator\" should be a Function."
        else ok tt)
    else if is_object v
    then (if not (locator_given p.locator)
        then err "\"dataSource\" is an Object, please specify \"locator\"."
        else if not (locator_usable p.locator)
        then err (join (printed p.locator ∷ " is incorrect. (String | Function)" ∷ []))
        else ok tt)
    else ok tt

-- A function counts as true, and is neither a string nor an object.
check_data_source :
    (is_numeric : Value → Bool)
    → (printed : Locator → String) → Parameters
    → Source
    → Result (Unit {0})
unfolding check_source
check_data_source is_numeric printed p (delivers vs) = ok tt
check_data_source is_numeric printed p (value v) =
    if not (holds v) then err "\"dataSource\" is required." else check_source is_numeric printed p v

-- jQuery's `$.isNumeric`, and how a locator prints in a text, are parameters.
unfoldable pub parameter_checker :
    (is_numeric : Value → Bool) → (printed : Locator → String) → Parameters → Result (Unit {0})
unfolding check_data_source
parameter_checker is_numeric printed p =
    check_data_source is_numeric printed p p.data_source >>= λ _.
    if not (is_undefined p.format_result) && not (is_function p.format_result)
    then err "\"formatResult\" should be a Function."
    else ok tt
