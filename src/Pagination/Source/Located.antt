-- ===== src/Pagination/Source/Located.antt =====
-- What `filterDataByLocator` finds.
use pact_broker.Prelude.{String, true, false, some, List, [], ◌∷◌, ◌≡◌, refl, arith}
use pact_broker.Js.{
  Value, undefined, holds, is_object, is_array, property, split_dots, holds_of_is_array,
}
use pact_broker.Pagination.Source.{
  ok, Locator, get_locator, locate, checked, filter_data_by_locator,
}

-- Where a chain of properties leads, if each value on the way counts as true.
pub data Leads (inherited : Value → String → Value) : Value → List String → Value → Type 0 where
  here : {v : Value} → Leads inherited v [] v
  further :
      {v w z : Value} {key : String} {keys : List String}
      → property inherited v key ≡ some w
      → holds w ≡ true
      → Leads inherited w keys z
      → Leads inherited v (key ∷ keys) z

module _ (inherited : Value → String → Value) where
  -- From a value that counts as true, the loop follows the chain to its end.
  locate_found :
      (source : Value) {found z : Value} {keys : List String}
      → holds found ≡ true
      → Leads inherited found keys z
      → locate inherited source found keys ≡ z
  unfolding locate
  locate_found source h here = refl
  locate_found source {found} h (further {key} {keys} p t l) =
      rw (h, p, locate) (locate_found source t l)

  -- While what was found counts as false, the loop begins with the source.
  locate_first :
      (source found : Value) {z : Value} {key : String} {keys : List String}
      → holds found ≡ false
      → Leads inherited source (key ∷ keys) z
      → locate inherited source found (key ∷ keys) ≡ z
  unfolding locate
  locate_first source found h (further p t l) = rw (h, p, locate) (locate_found source t l)

  locate_restarts :
      (source : Value) (k : String) {w z : Value} {key : String} {keys : List String}
      → property inherited source k ≡ some w
      → holds w ≡ false
      → Leads inherited source (key ∷ keys) z
      → locate inherited source undefined (k ∷ key ∷ keys) ≡ z
  unfolding locate holds
  locate_restarts source k {w} p f l = rw (p, locate) (locate_first source w f l)

  module _ (located : Locator) (source : Value) (object : is_object source ≡ true) where
    -- Whatever the locator, a source that is an object gives an array or an error.
    pub filter_data_by_locator-array :
        {v : Value} → filter_data_by_locator inherited located source ≡ ok v → is_array v ≡ true
    unfolding filter_data_by_locator checked
    filter_data_by_locator-array {v} e = ground arith

    module _ {locator : String} (given : get_locator located ≡ ok locator) where
      checked_array : {z : Value} → is_array z ≡ true → checked locator z ≡ ok z
      unfolding checked
      checked_array {z} a = rw (holds_of_is_array z a, a)

      -- Where the data is an object and the parts of the locator lead from it to an array, through
      -- values that count as true, that array is found.
      pub filter_data_by_locator-Leads :
          {key : String} {keys : List String} {z : Value}
          → split_dots locator ≡ key ∷ keys
          → Leads inherited source (key ∷ keys) z
          → is_array z ≡ true
          → filter_data_by_locator inherited located source ≡ ok z
      unfolding filter_data_by_locator holds
      filter_data_by_locator-Leads parts l a =
          rw (given, object, parts, locate_first source undefined refl l) (checked_array a)

      -- Where the data is an object, the first part of the locator leads to a value that counts as
      -- false, and the others lead from the data itself to an array, through values that count as
      -- true, that array is found.
      pub filter_data_by_locator_restarts :
          {k key : String} {keys : List String} {w z : Value}
          → split_dots locator ≡ k ∷ key ∷ keys
          → property inherited source k ≡ some w
          → holds w ≡ false
          → Leads inherited source (key ∷ keys) z
          → is_array z ≡ true
          → filter_data_by_locator inherited located source ≡ ok z
      unfolding filter_data_by_locator
      filter_data_by_locator_restarts {k} parts p f l a =
          rw (given, object, parts, locate_restarts source k p f l) (checked_array a)
