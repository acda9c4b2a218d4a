-- ===== src/Deletion/Message/Total.antt =====
-- A failed request always gets a message.
use pact_broker.Prelude.{
  String, true, Option, none, some, [], ◌∷◌, join, ◌≡◌, refl, if◌then◌else◌, Bool-cases,
  Option-cases, inl, inr,
}
use pact_broker.Js.{Value, undefined, null, object, holds, property, own}
use pact_broker.Deletion.Message.{
  Printer, ◌>>=◌, guarded, guarded_again, with_message, error_details, described,
  create_error_message,
}

-- A property of a value that counts as true can be read.
property_of_holds :
    (inherited : Value → String → Value) (v : Value) (key : String)
    → holds v ≡ true
    → (w : Value) × (property inherited v key ≡ some w)
unfolding holds property
property_of_holds inherited undefined key h = absurd (cc)
property_of_holds inherited null key h = absurd (cc)
property_of_holds inherited (object fs) key h = elim (Option-cases (own key fs)) [
  | inl missing ↦ (inherited (object fs) key, rw (missing, property))
  | inr (v, e) ↦ (v, rw (e, property))
]
property_of_holds inherited v key h = (inherited v key, refl)

abbrev IsTotal {ℓ} : {A : Type ℓ} → Option A → Type ℓ
IsTotal {A} o = (a : A) × (o ≡ some a)

>>=-IsTotal {ℓ κ} :
    {A : Type ℓ} {B : Type κ} (m : Option A) (f : A → Option B)
    → IsTotal m
    → ((a : A) → IsTotal (f a))
    → IsTotal (m >>= f)
>>=-IsTotal none f (a, e) h = absurd (cc)
>>=-IsTotal (some b) f m h = h b

module _ (p : Printer) where
  guarded_total : (v : Value) (key : String) → (o : Option Value) × (guarded p v key ≡ some o)
  guarded_total v key = elim (Bool-cases (holds v)) [
    | inl h ↦
        let (w, e) = property_of_holds p.inherited v key h in
        ((if holds w then some w else none), rw (h, e))
    | inr h ↦ (none, rw h)
  ]

  guarded_again_total :
      (v : Option Value) (key : String) → (o : Option Value) × (guarded_again p v key ≡ some o)
  guarded_again_total none key = (none, refl)
  guarded_again_total (some v) key = guarded_total v key

  with_message-IsTotal : (error message : Option Value) → IsTotal (with_message p error message)
  with_message-IsTotal error none = (none, refl)
  with_message-IsTotal error (some m) =
      >>=-IsTotal _ _ (guarded_again_total error "reference") (λ reference. (_, refl))

  error_details-IsTotal : (body : Value) → IsTotal (error_details p body)
  unfolding error_details
  error_details-IsTotal body =
      >>=-IsTotal _ _ (guarded_total body "error") (λ error.
        >>=-IsTotal _ _ (guarded_again_total error "message") (with_message-IsTotal error))

  -- Whatever the body of the answer is, also where there is none, there is a message: reading the body
  -- throws no error.
  pub create_error_message_total :
      (body : Value) → (message : String) × (create_error_message p body ≡ some message)
  unfolding create_error_message
  create_error_message_total body =
      >>=-IsTotal _ _ (error_details-IsTotal body) (λ details. (described p body details, refl))

  guarded-holds :
      (v : Value) (key : String) {w : Value}
      → holds v ≡ true
      → property p.inherited v key ≡ some w
      → holds w ≡ true
      → guarded p v key ≡ some (some w)
  guarded-holds v key h e k = rw (h, e, k)

  -- A body that counts as true, with an error that has a message and a reference, none of them
  -- counting as false, gets the message that holds both.
  pub create_error_message_details :
      (body : Value) {error message reference : Value}
      → holds body ≡ true
      → (property p.inherited body "error" ≡ some error) × (holds error ≡ true)
      → (property p.inherited error "message" ≡ some message) × (holds message ≡ true)
      → (property p.inherited error "reference" ≡ some reference) × (holds reference ≡ true)
      → create_error_message p body
        ≡ some (
            join (
              "<p>Could not delete resources due to error: "
              ∷ p.print message
              ∷ "</p><p>Error reference:\n      "
              ∷ p.print reference
              ∷ "\n      </p>"
              ∷ []))
  unfolding create_error_message
  create_error_message_details body {error} {message} {reference} h (e, he) (m, hm) (r, hr) = rw (
    guarded-holds body "error" h e he,
    guarded-holds error "message" he m hm,
    guarded-holds error "reference" he r hr,
  )
