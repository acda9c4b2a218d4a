-- ===== src/Pagination/Source/Handed.antt =====
-- What `parseDataSource` hands to its callback.
use pact_broker.Prelude.{
  true, false, List, [], ◌∷◌, map, ◌≡◌, ◌⊎◌, inl, inr, refl, String, Bool, not, if◌then◌else◌, All,
}
use pact_broker.Js.{Value, text, is_object, is_array, is_string}
use pact_broker.Pagination.Source.{
  Result, ok, err, ◌>>=◌, Locator, Source, value, delivers, Parsed, parse_value, parse_text,
  parse_delivered, parse_data_source,
}
use pact_broker.Pagination.Source.Located.{filter_data_by_locator-array}

-- An outcome is an error, or hands on an array or a text.
abbrev pub IsSound : Result Parsed → Type 0
IsSound (err e) = Unit
IsSound (ok parsed) = (is_array parsed.data_source ≡ true) ⊎ (is_string parsed.data_source ≡ true)

if-IsSound :
    (b : Bool) (x y : Result Parsed)
    → (b ≡ true → IsSound x)
    → (b ≡ false → IsSound y)
    → IsSound (if b then x else y)
if-IsSound true x y h k = h refl
if-IsSound false x y h k = k refl

module _ (inherited : Value → String → Value) (located : Locator) where
  parse_text-IsSound : (v : Value) → IsSound (parse_text v)
  unfolding parse_text is_string
  parse_text-IsSound (text s) = inr refl
  parse_text-IsSound _ = tt

  found-IsSound :
      (r : Result Value)
      → ((v : Value) → r ≡ ok v → is_array v ≡ true)
      → IsSound (r >>= λ found. ok (record { data_source = found; jsonp = false }))
  found-IsSound (ok v) h = inl (h v refl)
  found-IsSound (err e) h = tt

  parse_value-IsSound : (v : Value) → IsSound (parse_value inherited located v)
  unfolding parse_value
  parse_value-IsSound v =
      if-IsSound (is_object v) _ _
        (λ o. found-IsSound _ (λ w e. filter_data_by_locator-array inherited located v o e))
        (λ _. if-IsSound (is_array v) _ _ (λ a. inl a) (λ _. parse_text-IsSound v))

  parse_delivered-IsSound : (v : Value) → IsSound (parse_delivered inherited located v)
  unfolding parse_delivered
  parse_delivered-IsSound v =
      if-IsSound (not (is_array v)) _ _ (λ _. tt) (λ _. parse_value-IsSound v)

  delivered-IsSound : (vs : List Value) → All IsSound (map (parse_delivered inherited located) vs)
  delivered-IsSound [] = tt
  delivered-IsSound (v ∷ vs) = (parse_delivered-IsSound v, delivered-IsSound vs)

  -- Whatever the source is, or delivers, the plug-in goes on with an array or a text, or stops with
  -- an error.
  pub parse_data_source-IsSound :
      (source : Source) → All IsSound (parse_data_source inherited located source)
  unfolding parse_data_source
  parse_data_source-IsSound (value v) = (parse_value-IsSound v, tt)
  parse_data_source-IsSound (delivers vs) = delivered-IsSound vs
