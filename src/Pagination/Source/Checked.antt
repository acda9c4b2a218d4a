-- ===== src/Pagination/Source/Checked.antt =====
-- What `parameterChecker` lets through, and what then becomes of the source.
use pact_broker.Prelude.{String, Bool, true, false, ◌≡◌, ◌≢◌, ◌⊎◌, ◌↔◌, refl, arith}
use pact_broker.Js.{Value, undefined, function, text, holds, is_object, is_string, Fields, object}
use pact_broker.Pagination.Source.{
  ok, Locator, value, returns, Source, delivers, Parameters, parameter_checker, check_source,
  check_data_source,
}

-- A text, or a function.
abbrev pub IsUsable : Locator → Type 0
IsUsable (value v) = (s : String) × (v ≡ text s)
IsUsable (returns s) = Unit

-- A source that counts as true; for an address, a locator function for the total or else a numeric
-- total; for an object, a locator.
abbrev pub SourceFits : (Value → Bool) → Parameters → Source → Type 0
SourceFits is_numeric p (delivers vs) = Unit
SourceFits is_numeric p (value v) =
    (holds v ≡ true)
    × ((is_string v ≡ false)
        ⊎ (p.total_number_locator ≡ function)
        ⊎ ((p.total_number_locator ≡ undefined)
            × (p.total_number ≢ undefined)
            × (is_numeric p.total_number ≡ true)))
    × ((is_object v ≡ false) ⊎ IsUsable p.locator)

abbrev pub Fits : (Value → Bool) → Parameters → Type 0
Fits is_numeric p =
    SourceFits is_numeric p p.data_source
    × ((p.format_result ≡ undefined) ⊎ (p.format_result ≡ function))

module _ (is_numeric : Value → Bool) (printed : Locator → String) where
  check_object :
      (p : Parameters) (fs : Fields) (l : Locator)
      → (check_source is_numeric printed (record p { locator = l }) (object fs) ≡ ok tt)
        ↔ IsUsable l
  unfolding check_source is_string is_object
  check_object p fs (value (text s)) = (λ _. (s, refl), λ _. refl)
  check_object p fs (value v) = (λ e. ground arith, λ u. ground arith)
  check_object p fs (returns s) = (λ _. tt, λ _. refl)

  check_data_source_iff :
      (p : Parameters) (s : Source)
      → (check_data_source is_numeric printed p s ≡ ok tt) ↔ SourceFits is_numeric p s
  unfolding check_data_source holds is_string is_object
  check_data_source_iff p (delivers vs) = (λ _. tt, λ _. refl)
  check_data_source_iff p (value (text s)) = (λ e. ground arith, λ f. ground arith)
  check_data_source_iff p (value (object fs)) = (
    λ e. ground (arith, check_object p fs p.locator),
    λ f. ground (arith, check_object p fs p.locator),
  )
  check_data_source_iff p (value v) = (λ e. ground arith, λ f. ground arith)

  -- The parameters are let through exactly if the source is a function or counts as true, an address
  -- comes with a function that locates the total or with a numeric total, an object comes with a
  -- locator that is a text or a function, and the format of the result is a function or left out.
  pub parameter_checker_iff :
      (p : Parameters) → (parameter_checker is_numeric printed p ≡ ok tt) ↔ Fits is_numeric p
  unfolding parameter_checker
  parameter_checker_iff p = (
    λ e. ground (arith, check_data_source_iff p p.data_source),
    λ e. ground (arith, check_data_source_iff p p.data_source),
  )
