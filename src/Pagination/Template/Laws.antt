-- ===== src/Pagination/Template/Laws.antt =====
-- Putting values into a template.
use pact_broker.Prelude.{String, List, [], ◌∷◌, some, ◌≡◌, refl, true, truthy}
use pact_broker.Pagination.Template.{Replace, replace_from, replace_variables}

-- All the replacements, one after the other.
abbrev pub replaced : Replace → String → List (String × String) → String
replaced replace text [] = text
replaced replace text ((key, value) ∷ variables) =
    replaced replace (replace key value text) variables

-- No round of the loop leaves an empty text.
abbrev pub StaysFilled : Replace → String → List (String × String) → Type 0
StaysFilled replace text [] = Unit
StaysFilled replace text ((key, value) ∷ variables) =
    (truthy (replace key value text) ≡ true)
    × StaysFilled replace (replace key value text) variables

replace_from_lem :
    (replace : Replace) (text template : String) (variables : List (String × String))
    → truthy text ≡ true
    → StaysFilled replace text variables
    → replace_from replace (some text) template variables ≡ some (replaced replace text variables)
unfolding replace_from
replace_from_lem replace text template [] h k = refl
replace_from_lem replace text template ((key, value) ∷ variables) h k =
    rw h (replace_from_lem replace (replace key value text) template variables k.0 k.1)

-- Where there is a variable and no replacement leaves an empty text, the result is the template
-- with the replacements of all the variables made in order.
pub replace_variables_lem :
    (replace : Replace) (template : String) (key value : String)
    (variables : List (String × String))
    → StaysFilled replace template ((key, value) ∷ variables)
    → replace_variables replace template ((key, value) ∷ variables)
      ≡ some (replaced replace template ((key, value) ∷ variables))
unfolding replace_variables replace_from
replace_variables_lem replace template key value variables h =
    replace_from_lem replace (replace key value template) template variables h.0 h.1

-- Where the first replacement leaves an empty text, it is lost: the result is that of the other
-- variables, of which there is at least one.
pub replace_variables_restarts :
    (replace : Replace) (template key value : String) (variables : List (String × String))
    → replace key value template ≡ ""
    → (next : String × String)
    → replace_variables replace template ((key, value) ∷ next ∷ variables)
      ≡ replace_variables replace template (next ∷ variables)
unfolding replace_variables replace_from
replace_variables_restarts replace template key value variables h next = rw h
