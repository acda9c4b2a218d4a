-- ===== src/Pagination/Container.antt =====
-- The container of public/javascripts/pagination.js: what jQuery keeps for it, its children, its
-- data and its event handlers, and `uninstallPlugin`, which resets them.
use pact_broker.Prelude.{
  ℕ, String, Bool, true, false, not, Option, none, some, List, [], ◌∷◌, ◌++◌, ◌==◌, str_eq, truthy,
  if◌then◌else◌, any, keep, ◌<>◌,
}
use pact_broker.Js.{Value, undefined}
use pact_broker.Pagination.Options.{Attributes}
use pact_broker.Pagination.Template.{Replace}
use pact_broker.Pagination.Hooks.{Hook, Register, call_hook}
use pact_broker.Pagination.Source.{Locator, Parameters}
use pact_broker.Pagination.Render.{Nav}

pub data Child : Type 0 where
  nav : Nav → Child
  other : ℕ → Child

pub record Model : Type 0 where
  pub page_number : Option ℕ
  pub total_number : ℕ
  pub page_size : ℕ
  pub disabled : Bool

-- `container.data('pagination')`.
pub record PluginData : Type 0 where
  pub initialized : Bool
  pub hooks : Register
  pub model : Option Model
  pub attributes : Option Attributes
  pub current_page_data : Value

abbrev pub no_data : PluginData
no_data = record {
  initialized = false;
  hooks = [];
  model = none;
  attributes = none;
  current_page_data = undefined;
}

-- `handlers` are the events that something listens to, `fired` those that were heard, `called` the
-- hooks that were called, and `calls` counts the calls that made an element.
pub record Container : Type 0 where
  pub data_of : Option PluginData
  pub children : List Child
  pub handlers : List String
  pub fired : List String
  pub called : List ℕ
  pub calls : ℕ

-- What a call returns: the container itself, a value, or an error. `left_out` is no answer of the source:
-- it stands for a start with a page size of 0, whose drawing is left out.
pub data Answer : Type 0 where
  itself : Answer
  nothing : Answer
  answered : Value → Answer
  pages : Option ℕ → Answer
  thrown : String → Answer
  type_error : Answer
  left_out : Answer

-- What the plug-in takes from elsewhere.
pub record Host : Type 0 where
  pub replace : Replace
  pub inherited : Value → String → Value
  pub is_numeric : Value → Bool
  pub printed : Locator → String

abbrev pub event_prefix : String
event_prefix = "__pagination-"

abbrev pub event_names : List String
event_names =
    "go" ∷ "previous" ∷ "next" ∷ "disable" ∷ "enable" ∷ "refresh" ∷ "show" ∷ "hide" ∷ "destroy" ∷ []

-- jQuery's `trigger` and `off`, for the names of events.
unfoldable pub trigger : String → Container → Container
trigger event c =
    if any (str_eq event) c.handlers then record c { fired = c.fired ++ event ∷ [] } else c

unfoldable pub off : List String → Container → Container
off events c = record c {
  handlers = keep (λ h. not (any (λ e. str_eq (event_prefix <> e) h) events)) c.handlers;
}

abbrev pub is_nav : Child → Bool
is_nav (nav n) = true
is_nav (other n) = false

abbrev pub is_owned : ℕ → Child → Bool
is_owned owner (nav n) = n.owner == owner
is_owned owner (other n) = false

-- `$('.paginationjs', target).remove()`.
unfoldable pub remove_navs : Container → Container
remove_navs c = record c { children = keep (λ x. not (is_nav x)) c.children }

unfoldable pub uninstall_plugin : Container → Container
unfolding off remove_navs
uninstall_plugin c = remove_navs (record (off event_names c) { data_of = some no_data })

abbrev pub data_or_new : Container → PluginData
data_or_new c = elim c.data_of [ none ↦ no_data | some d ↦ d ]

-- The options of a call: the attributes with the defaults under them, the options that are only
-- checked, the hooks among them, and whether `disabled` is set.
pub record Config : Type 0 where
  pub attributes : Attributes
  pub parameters : Parameters
  pub hooks : String → Option Hook
  pub disabled : Bool

-- A call of the hooks, recorded in the container.
unfoldable pub run_hook : Config → String → Container → Container × Bool
unfolding call_hook
run_hook config name c =
    let outcome = call_hook config.hooks (data_or_new c).hooks name in
    (record c { called = c.called ++ outcome.called }, outcome.proceeds)

-- `container[attributes.position === 'bottom' ? 'append' : 'prepend'](el)`: an element that is in
-- the page already moves.
abbrev pub place : Attributes → Nav → List Child → List Child
place a el children =
    let others = keep (λ x. not (is_owned el.owner x)) children in
    if str_eq a.position "bottom" then others ++ nav el ∷ [] else nav el ∷ others

abbrev pub add_class : Option String → Nav → Nav
add_class none el = el
add_class (some name) el =
    if truthy name then record el { classes = el.classes ++ name ∷ [] } else el

-- The element of the call before anything is drawn, or as an earlier round of the call left it.
abbrev pub element_of : ℕ → Option Nav → Nav
element_of owner none = record {
  owner = owner;
  html = "";
  classes = "paginationjs" ∷ [];
  visible = true;
}
element_of owner (some el) = el
