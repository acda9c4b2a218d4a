-- ===== src/Deletion/Message.antt =====
-- The message for a request that failed: `createErrorMessage`, which public/javascripts/index.js and
-- public/javascripts/pact.js both have, word for word.
pub mod Total
use pact_broker.Prelude.{
  String, Bool, true, false, not, Option, none, some, List, [], ◌∷◌, join, ◌<>◌, if◌then◌else◌,
}
use pact_broker.Js.{Value, holds, property}

-- How values print in a template and as JSON, and what they have besides their own fields.
pub record Printer : Type 0 where
  pub inherited : Value → String → Value
  pub print : Value → String
  pub stringify : Value → String

infixl 5 ◌>>=◌
abbrev pub ◌>>=◌ {ℓ κ} : {A : Type ℓ} {B : Type κ} → Option A → (A → Option B) → Option B
none >>= f = none
some a >>= f = f a

abbrev pub paired : Value → Option Value → Option (Value × Value)
paired message none = none
paired message (some reference) = some (message, reference)

module _ (p : Printer) where
  -- `v && v[key] && …`: the value of the property, if `v` counts as true. The outer `none` is an
  -- error of type.
  abbrev pub guarded : Value → String → Option (Option Value)
  guarded v key =
      if not (holds v)
      then some none
      else (property p.inherited v key >>= λ w. some (if holds w then some w else none))

  abbrev pub guarded_again : Option Value → String → Option (Option Value)
  guarded_again none key = some none
  guarded_again (some v) key = guarded v key

  -- The last part of the test, once the message is read.
  abbrev pub with_message : (error message : Option Value) → Option (Option (Value × Value))
  with_message error none = some none
  with_message error (some m) =
      guarded_again error "reference" >>= λ reference. some (paired m reference)

  -- The message and the reference of the body's error, if the test of the source passes.
  unfoldable pub error_details : Value → Option (Option (Value × Value))
  error_details body = guarded body "error" >>= λ error.
      guarded_again error "message" >>= λ message. with_message error message

  abbrev pub described : Value → Option (Value × Value) → String
  described body (some (message, reference)) = join (
      "<p>Could not delete resources due to error: "
      ∷ p.print message
      ∷ "</p><p>Error reference:\n      "
      ∷ p.print reference
      ∷ "\n      </p>"
      ∷ [])
  described body none =
      if holds body
      then "Could not delete resources due to error: " <> p.stringify body
      else "Could not delete resources."

  unfoldable pub create_error_message : Value → Option String
  unfolding error_details
  create_error_message body = error_details body >>= λ details. some (described body details)
