-- ===== src/Pagination/Template.antt =====
-- `replaceVariables` of public/javascripts/pagination.js. `String.replace` with the expression that
-- the source builds for a variable is a parameter.
pub mod Laws
use pact_broker.Prelude.{String, List, [], ◌∷◌, Option, none, some, truthy, if◌then◌else◌}

-- `replace key value text`: `text` with `value` for each `<%= key %>`, in any case, spaces allowed.
abbrev pub Replace : Type 0
Replace = String → String → String → String

-- A format as `formattedString || template` reads it; before the first round there is none.
abbrev pub or_template : Option String → String → String
or_template none template = template
or_template (some formatted) template = if truthy formatted then formatted else template

-- The loop over the variables. With none of them the source returns `undefined`, here `none`.
replace_from : Replace → Option String → String → List (String × String) → Option String
replace_from replace formatted template [] = formatted
replace_from replace formatted template ((key, value) ∷ variables) =
    replace_from replace (some (replace key value (or_template formatted template))) template
      variables

unfoldable pub replace_variables : Replace → String → List (String × String) → Option String
unfolding replace_from
replace_variables replace template variables = replace_from replace none template variables
