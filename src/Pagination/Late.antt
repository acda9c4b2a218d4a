-- ===== src/Pagination/Late.antt =====
-- The callback of `parseDataSource` of public/javascripts/pagination.js when the function of `dataSource`
-- calls it after `initialize` is over: what `initialize` leaves to the callback, and its later calls.
pub mod Owned
pub mod Single
use pact_broker.Prelude.{
  ℕ, zero, suc, not, Option, none, some, List, [], ◌∷◌, get_elem?, if◌then◌else◌, String,
}
use pact_broker.Js.{Value}
use pact_broker.Pagination.Hooks.{Hook}
use pact_broker.Pagination.Source.{
  ok, err, Source, value, delivers, parameter_checker, parse_data_source, parse_delivered,
}
use pact_broker.Pagination.Render.{Nav}
use pact_broker.Pagination.Container.{
  Child, Container, Answer, itself, Host, Config, remove_navs, uninstall_plugin, data_or_new,
  run_hook, element_of,
}
use pact_broker.Pagination.Initialize.{Round, draw_all}
use pact_broker.Pagination.Calls.{Argument, settings, plugin, add_hook}

-- What the callback shares with its start: the options, and the element and the total of the model.
pub record Callback : Type 0 where
  pub config : Config
  pub el : Nav
  pub total : Option ℕ

abbrev pub callback_after : Config → Round → Callback
callback_after config s = record {
  config = config;
  el = element_of s.page.calls s.el;
  total = s.total;
}

-- Only a function is given the callback; other sources are parsed at once.
abbrev pub given : Config → Source → Round → Option Callback
given config (value v) s = none
given config (delivers vs) s = some (callback_after config s)

-- The callback that `initialize` leaves to a function, after what that handed over within the call.
unfoldable pub initialize_callback : Host → Config → Container → Option Callback
initialize_callback host config c =
    let fresh = record c { data_of = some (data_or_new c); calls = suc c.calls } in
    let (asked, proceeds) = run_hook config "beforeInit" fresh in
    if not proceeds
    then none
    else let cleared = if (data_or_new asked).initialized then remove_navs asked else asked in
      let p = config.parameters in
      given config p.data_source (
        draw_all host config (parse_data_source host.inherited p.locator p.data_source)
          (record { el = none; total = none; page = cleared; answer = itself }))

-- The container in which a start begins.
abbrev pub before_start : Container → Container
before_start c = if (data_or_new c).initialized then uninstall_plugin c else c

unfoldable pub start_callback : Host → Config → Container → Option Callback
start_callback host config c =
    elim (parameter_checker host.is_numeric host.printed config.parameters) [
      | err e ↦ none
      | ok _ ↦ initialize_callback host config (before_start c)
    ]

-- A later call of the callback.
unfoldable pub deliver : Host → Callback → Value → Container → Round
deliver host p v c =
    draw_all host p.config (parse_delivered host.inherited p.config.parameters.locator v ∷ [])
      (record { el = some p.el; total = p.total; page = c; answer = itself })

-- A container, and the callback that each start gave to a function, if it did: the latest start first.
pub record Page : Type 0 where
  pub container : Container
  pub starts : List (Option Callback)

-- A call of the plug-in, a registration of a hook, and data that the function of a start hands over
-- later, after so many further starts.
pub data Event : Type 0 where
  call : Argument → Event
  hook : ℕ → String → Option Hook → Event
  late : ℕ → Value → Event

abbrev pub with_starts : Host → Argument → Page → List (Option Callback)
with_starts host (settings config) s = start_callback host config s.container ∷ s.starts
with_starts host _ s = s.starts

abbrev pub callback_at : ℕ → List (Option Callback) → Option Callback
callback_at k starts = elim (get_elem? starts k) [ none ↦ none | some o ↦ o ]

pub set_callback : ℕ → Callback → List (Option Callback) → List (Option Callback)
set_callback k p [] = []
set_callback zero p (o ∷ starts) = some p ∷ starts
set_callback (suc k) p (o ∷ starts) = o ∷ set_callback k p starts

unfoldable pub step : Host → Event → Page → Page
unfolding set_callback
step host (call argument) s = record {
  container = (plugin host argument s.container).0;
  starts = with_starts host argument s;
}
step host (hook arguments name callback) s = record s {
  container = (add_hook arguments name callback s.container).0;
}
step host (late k v) s = elim (callback_at k s.starts) [
  | none ↦ s
  | some p ↦
      let round = deliver host p v s.container in
      record {
        container = round.page;
        starts = set_callback k (callback_after p.config round) s.starts;
      }
]

unfoldable pub run : Host → List Event → Page → Page
run host [] s = s
run host (e ∷ events) s = run host events (step host e s)
