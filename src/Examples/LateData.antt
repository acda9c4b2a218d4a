-- ===== src/Examples/LateData.antt =====
-- Data that come late, for the plug-in of public/javascripts/pagination.js, at concrete inputs.
use pact_broker.Prelude.{◌≡◌, refl, true, List, [], ◌∷◌, All, none, some, arith, if◌then◌else◌}
use pact_broker.Js.{array, end, is_array, holds, is_object}
use pact_broker.Pagination.Source.{Source, parameter_checker, parse_data_source}
use pact_broker.Pagination.Hooks.{call_hook}
use pact_broker.Pagination.Pages.{get_total_page, get_total_number}
use pact_broker.Pagination.Render.{render}
use pact_broker.Pagination.Container.{
  Config, other, data_or_new, element_of, run_hook, uninstall_plugin, remove_navs, off,
}
use pact_broker.Pagination.Initialize.{draw, draw_all, initialize}
use pact_broker.Pagination.Calls.{settings, action, plugin}
use pact_broker.Pagination.Calls.Tame.{navs}
use pact_broker.Pagination.Calls.Reached.{fresh}
use pact_broker.Pagination.Late.{
  Callback, Page, Event, call, late, callback_at, initialize_callback, start_callback, deliver,
  step, run,
}
use pact_broker.Pagination.Late.Single.{is_timely, navs-run, navs-late}
use pact_broker.Examples.Calls.{host, config}

-- A function that hands over nothing before it returns.
abbrev waiting : Config
waiting = record config {
  parameters = record config.parameters { data_source = Source.delivers [] };
}

abbrev page : Page
page = record { container = fresh (other 0 ∷ []); starts = [] }

abbrev rounds : List Event
rounds =
    call (settings waiting)
    ∷ call (action "getTotalPage")
    ∷ late 0 (array end)
    ∷ late 0 (array end)
    ∷ call (settings waiting)
    ∷ late 0 (array end)
    ∷ []

timely : All (λ e. is_timely e ≡ true) rounds
timely = (refl, (refl, (refl, (refl, (refl, (refl, tt))))))

navs-run_example :
    let c = (run host rounds page).container in
    navs c.children ≡ (if (data_or_new c).initialized then 1 else 0)
navs-run_example = navs-run host (other 0 ∷ []) rounds refl timely

abbrev called_back : Callback
called_back = record { config = waiting; el = element_of 2 none; total = none }

abbrev begun : List Event
begun =
    call (settings waiting) ∷ late 0 (array end) ∷ late 0 (array end) ∷ call (settings waiting) ∷ []

begun_timely : All (λ e. is_timely e ≡ true) begun
begun_timely = (refl, (refl, (refl, (refl, tt))))

latest : callback_at 0 (run host begun page).starts ≡ some called_back
unfolding run step plugin initialize initialize_callback start_callback deliver draw_all draw render
    parameter_checker parse_data_source run_hook call_hook get_total_page get_total_number
    uninstall_plugin remove_navs off holds is_object is_array
latest = refl

navs-late_example :
    let c = (step host (late 0 (array end)) (run host begun page)).container in
    ((data_or_new c).initialized ≡ true) × (navs c.children ≡ 1)
navs-late_example = navs-late host (other 0 ∷ []) begun refl begun_timely latest (omega arith) end

-- The element is there.
drawn_once : navs (run host rounds page).container.children ≡ 1
unfolding run step plugin initialize initialize_callback start_callback deliver draw_all draw render
    parameter_checker parse_data_source run_hook call_hook get_total_page get_total_number
    uninstall_plugin remove_navs off holds is_object is_array
drawn_once = refl

-- Two starts whose data come after both: each has put in its element.
abbrev overlapping : List Event
overlapping =
    call (settings waiting) ∷ call (settings waiting) ∷ late 1 (array end) ∷ late 0 (array end) ∷ []

drawn_twice : navs (run host overlapping page).container.children ≡ 2
unfolding run step plugin initialize initialize_callback start_callback deliver draw_all draw render
    parameter_checker parse_data_source run_hook call_hook get_total_page get_total_number
    uninstall_plugin remove_navs off holds is_object is_array
drawn_twice = refl
