-- ===== src/Pagination/Calls.antt =====
-- The calls of public/javascripts/pagination.js on a container: `$.fn.pagination`, `$.fn.addHook` and
-- `$.pagination`.
pub mod Tame
pub mod Started
pub mod Reached
pub mod Actions
pub mod Quiet
pub mod Restart
pub mod Failed
pub mod Registered
use pact_broker.Prelude.{
  ℕ, String, Option, none, some, [], ◌∷◌, str_eq, if◌then◌else◌, any, ◌<>◌, ltb, join,
}
use pact_broker.Js.{text, number, bool, undefined}
use pact_broker.Pagination.Pages.{get_total_page}
use pact_broker.Pagination.Hooks.{Hook, push_hook}
use pact_broker.Pagination.Source.{ok, err, parameter_checker}
use pact_broker.Pagination.Container.{
  PluginData, Container, Answer, itself, nothing, answered, pages, thrown, type_error, Host,
  event_prefix, event_names, trigger, uninstall_plugin, data_or_new, Config,
}
use pact_broker.Pagination.Initialize.{initialize}

-- The argument of `$.fn.pagination`.
pub data Argument : Type 0 where
  absent : Argument
  page : ℕ → Argument
  action : String → Argument
  settings : Config → Argument
  illegal : Argument

pub selected_page : PluginData → Answer
selected_page d = elim d.model [
  | some m ↦ elim m.page_number [ none ↦ answered undefined | some n ↦ answered (number n) ]
  | none ↦ elim d.attributes [ none ↦ type_error | some a ↦ answered (number a.page_number) ]
]

pub total_page_of : PluginData → Answer
total_page_of d = elim d.model [
  | none ↦ type_error
  | some m ↦ pages (get_total_page m.total_number m.page_size)
]

pub disabled_of : PluginData → Answer
disabled_of d = elim d.model [ none ↦ type_error | some m ↦ answered (bool m.disabled) ]

-- The `switch` over the name of an action.
pub run_action : String → PluginData → Container → Container × Answer
unfolding selected_page total_page_of disabled_of
run_action name d c =
    if any (str_eq name) event_names
    then (trigger (event_prefix <> name) c, itself)
    else if str_eq name "getSelectedPageNum"
    then (c, selected_page d)
    else if str_eq name "getTotalPage"
    then (c, total_page_of d)
    else if str_eq name "getSelectedPageData"
    then (c, answered d.current_page_data)
    else if str_eq name "isDisabled"
    then (c, disabled_of d)
    else (c, thrown (join ("Unknown action: " ∷ name ∷ [])))

pub start : Host → Config → Container → Container × Answer
start host config c = elim (parameter_checker host.is_numeric host.printed config.parameters) [
  | err e ↦ (c, thrown e)
  | ok _ ↦ initialize host config c
]

on_initialized : Host → Argument → PluginData → Container → Container × Answer
unfolding run_action start
on_initialized host absent d c = (c, itself)
on_initialized host (page n) d c = (trigger (event_prefix <> "go") c, itself)
on_initialized host (action name) d c =
    if host.is_numeric (text name)
    then (trigger (event_prefix <> "go") c, itself)
    else run_action name d c
on_initialized host (settings config) d c = start host config (uninstall_plugin c)
on_initialized host illegal d c = (uninstall_plugin c, thrown "\"dataSource\" is required.")

on_other : Host → Argument → Container → Container × Answer
unfolding start
on_other host absent c = (c, itself)
on_other host (settings config) c = start host config c
on_other host _ c = (c, thrown "Illegal options")

-- Whether the data says that the plug-in was started.
with_data : Host → Argument → Container → Option PluginData → Container × Answer
unfolding on_initialized on_other
with_data host argument c none = on_other host argument c
with_data host argument c (some d) =
    if d.initialized then on_initialized host argument d c else on_other host argument c

unfoldable pub plugin : Host → Argument → Container → Container × Answer
unfolding with_data
plugin host argument c = with_data host argument c c.data_of

-- `$.fn.addHook`, with the number of its arguments; a callback that is no function is `none`.
unfoldable pub add_hook : (arguments : ℕ) → String → Option Hook → Container → Container × Answer
add_hook arguments name none c =
    (c, thrown (if ltb arguments 2 then "Missing argument." else "callback must be a function."))
add_hook arguments name (some hook) c =
    if ltb arguments 2
    then (c, thrown "Missing argument.")
    else let d = data_or_new c in
      (record c { data_of = some (record d { hooks = push_hook name hook d.hooks }) }, nothing)

-- `$.pagination(selector, options)`, with what the selector finds.
unfoldable pub static_plugin :
    Host → (arguments : ℕ) → Option Container → Argument → Option Container × Answer
static_plugin host arguments none options =
    (none, if ltb arguments 2 then thrown "Requires two parameters." else nothing)
static_plugin host arguments (some c) options =
    if ltb arguments 2
    then (some c, thrown "Requires two parameters.")
    else let (c', answer) = plugin host options c in (some c', answer)
