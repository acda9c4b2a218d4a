-- ===== src/Examples/Sources.antt =====
-- Data sources and hooks of public/javascripts/pagination.js at concrete inputs.
use pact_broker.Prelude.{String, Bool, true, false, some, [], ◌∷◌, All, ◌≡◌, ◌↔◌, refl}
use pact_broker.Js.{
  Value, undefined, null, text, number, array, object, end, done, field, holds, is_array, is_object,
  property, split_dots,
}
use pact_broker.Pagination.Source.{
  ok, Locator, Source, delivers, Parameters, get_locator, filter_data_by_locator, parse_data_source,
  parameter_checker,
}
use pact_broker.Pagination.Source.Located.{Leads, here, further, filter_data_by_locator-Leads}
use pact_broker.Pagination.Source.Checked.{Fits, parameter_checker_iff}
use pact_broker.Pagination.Source.Handed.{IsSound, parse_data_source-IsSound}

-- Values with nothing besides their own fields.
abbrev plain : Value → String → Value
plain v key = undefined

abbrev located : Locator
located = Locator.value (text "data.items")

-- { data: { items: [] }, items: [] }
abbrev nested : Value
nested = object (field "data" (object (field "items" (array end) done)) done)

-- { data: null, items: [] }
abbrev hollow : Value
hollow = object (field "data" null (field "items" (array end) done))

nested_object : is_object nested ≡ true
unfolding is_object
nested_object = refl

hollow_object : is_object hollow ≡ true
unfolding is_object
hollow_object = refl

given : get_locator located ≡ ok "data.items"
unfolding get_locator
given = refl

two_parts : split_dots "data.items" ≡ "data" ∷ "items" ∷ []
unfolding split_dots
two_parts = refl

empty_array : is_array (array end) ≡ true
unfolding is_array
empty_array = refl

items_of_hollow : Leads plain hollow ("items" ∷ []) (array end)
unfolding property holds
items_of_hollow = further refl refl here

path_of_nested : Leads plain nested ("data" ∷ "items" ∷ []) (array end)
unfolding property holds
path_of_nested = further refl refl (further refl refl here)

data_of_hollow : property plain hollow "data" ≡ some null
unfolding property
data_of_hollow = refl

null_false : holds null ≡ false
unfolding holds
null_false = refl

nested_found : filter_data_by_locator plain located nested ≡ ok (array end)
unfolding filter_data_by_locator property is_array holds split_dots
nested_found = refl

filter_data_by_locator-Leads_example : filter_data_by_locator plain located nested ≡ ok (array end)
filter_data_by_locator-Leads_example =
    filter_data_by_locator-Leads plain located nested nested_object given two_parts path_of_nested
      empty_array

parse_data_source-IsSound_example :
    All IsSound (parse_data_source plain located (delivers (array end ∷ text "x" ∷ [])))
parse_data_source-IsSound_example =
    parse_data_source-IsSound plain located (delivers (array end ∷ text "x" ∷ []))

abbrev numeric : Value → Bool
numeric (number n) = true
numeric _ = false

abbrev no_print : Locator → String
no_print l = ""

abbrev remote : Parameters
remote = record {
  data_source = Source.value (text "/pacts");
  total_number = number 40;
  total_number_locator = undefined;
  locator = located;
  format_result = undefined;
}

parameter_checker_iff_example :
    (parameter_checker numeric no_print remote ≡ ok tt) ↔ Fits numeric remote
parameter_checker_iff_example = parameter_checker_iff numeric no_print remote
