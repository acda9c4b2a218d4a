-- ===== src/Prelude/Text.antt =====
-- Texts: concatenation, truth values and numbers as JavaScript prints them.
use Prim.Native.Nat.{ℕ, zero, suc, ◌/◌, ◌%◌}
use Prim.Native.String
use Prim.Native.String.{String}
use mathlib.Core.Path.{◌≡◌, refl, ap}
use Prim.Native.String.append.{nil, cons}
use mathlib.Core.Bool.{Bool, true, false}
use mathlib.Core.List.{List, [], ◌∷◌}
use text.Mathlib.Text.{◌==◌ as text_eq}
use pact_broker.Prelude.Tests.{ltb, if◌then◌else◌}

infixr 65 ◌<>◌
abbrev pub ◌<>◌ : String → String → String
s <> t = String.◌++◌ s t

abbrev pub str_eq : String → String → Bool
str_eq = text_eq

-- The concatenation of the pieces of a text.
abbrev pub join : List String → String
join [] = ""
join (s ∷ ss) = s <> join ss

-- JavaScript counts the empty text as false.
abbrev pub truthy : String → Bool
truthy String.[] = false
truthy (String.◌∷◌ c s) = true

pub nil-append : (t : String) → "" <> t ≡ t
nil-append t = nil t

pub append-empty : (s : String) → s <> "" ≡ s
append-empty String.[] = nil ""
append-empty (String.◌∷◌ c s) = rw (cons c s "") (ap (λ t. String.◌∷◌ c t) (append-empty s))

pub truthy-append : (s t : String) → truthy s ≡ true → truthy (s <> t) ≡ true
truthy-append String.[] t h = cc
truthy-append (String.◌∷◌ c s) t h = rw (cons c s t)

digit_names : List String
digit_names = "0" ∷ "1" ∷ "2" ∷ "3" ∷ "4" ∷ "5" ∷ "6" ∷ "7" ∷ "8" ∷ "9" ∷ []

nth : List String → ℕ → String
nth [] n = ""
nth (s ∷ ss) zero = s
nth (s ∷ ss) (suc n) = nth ss n

decimal : ℕ → ℕ → String
decimal zero n = ""
decimal (suc f) n =
    let more = decimal f (n / 10) in
    if ltb n 10 then nth digit_names n else more <> nth digit_names (n % 10)

-- A natural number as JavaScript prints it, in decimal; a number has no more digits than its value
-- plus one.
unfoldable pub show : ℕ → String
unfolding decimal nth digit_names
show n = decimal (suc n) n

show_tests : (show 0 ≡ "0") × (show 10 ≡ "10") × (show 4096 ≡ "4096")
unfolding show
show_tests = (refl, refl, refl)
