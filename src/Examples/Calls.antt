-- ===== src/Examples/Calls.antt =====
-- Calls of the plug-in of public/javascripts/pagination.js at concrete inputs.
use pact_broker.Prelude.{◌≡◌, refl, true, false, none, some, [], ◌∷◌}
use pact_broker.Js.{undefined, text, number, array, end, holds, is_string, is_array, is_object}
use pact_broker.Pagination.Options.{defaults}
use pact_broker.Pagination.Pages.{get_total_page, get_total_number}
use pact_broker.Pagination.Source.{Locator, Source, parameter_checker, parse_data_source}
use pact_broker.Pagination.Hooks.{call_hook}
use pact_broker.Pagination.Render.{render}
use pact_broker.Pagination.Container.{
  Container, PluginData, no_data, Config, Host, itself, type_error, run_hook,
}
use pact_broker.Pagination.Initialize.{draw, draw_all, initialize}
use pact_broker.Pagination.Calls.{settings, action, plugin}
use pact_broker.Pagination.Calls.Reached.{fresh, Reach, begin, call}
use pact_broker.Pagination.Calls.Actions.{total, Question-type_error}
use pact_broker.Pagination.Hooks.History.{History}
use pact_broker.Pagination.Calls.Registered.{add_all, run_hook-add_all}
use pact_broker.Prelude.{◌≢◌, String, arith}
use pact_broker.Pagination.Source.{ok, err}
use pact_broker.Pagination.Container.{Answer, thrown, other, data_or_new}
use pact_broker.Pagination.Calls.Restart.{cleaned, plugin-cleaned, plugin-refused}
use pact_broker.Pagination.Calls.Failed.{plugin-kept}

abbrev pub host : Host
host = record {
  replace = λ key value s. s;
  inherited = λ v key. undefined;
  is_numeric = λ v. false;
  printed = λ l. "";
}

abbrev pub config : Config
config = record {
  attributes = defaults;
  parameters = record {
    data_source = Source.value (array end);
    total_number = number 0;
    total_number_locator = undefined;
    locator = Locator.value (text "data");
    format_result = undefined;
  };
  hooks = λ name. none;
  disabled = false;
}

abbrev drawn : Container
drawn = (plugin host (settings config) (fresh [])).0

drawn_reached : Reach host drawn
drawn_reached = call (settings config) (begin [] refl)

abbrev drawn_data : PluginData
drawn_data = record no_data { initialized = true }

data_of_drawn : drawn.data_of ≡ some drawn_data
unfolding plugin initialize draw_all draw render parameter_checker parse_data_source run_hook
    call_hook get_total_page get_total_number holds is_string is_array
data_of_drawn = refl

Question-type_error_example : plugin host (action "getTotalPage") drawn ≡ (drawn, type_error)
Question-type_error_example =
    Question-type_error host drawn_reached drawn_data data_of_drawn refl total refl

abbrev registered : History
registered =
    ("afterRender", record { id = 1; refuses = false })
    ∷ ("beforeRender", record { id = 2; refuses = true })
    ∷ []

run_hook-add_all_example :
    let (after, proceeds) = run_hook config "beforeRender" (add_all registered (fresh [])) in
    (after.called ≡ 2 ∷ []) × (proceeds ≡ false)
run_hook-add_all_example = run_hook-add_all config registered "beforeRender" []

accepted : parameter_checker host.is_numeric host.printed config.parameters ≡ ok tt
unfolding parameter_checker holds is_string is_object
accepted = refl

plugin-cleaned_example :
    plugin host (settings config) drawn ≡ plugin host (settings config) (cleaned drawn)
plugin-cleaned_example = plugin-cleaned host config drawn_reached data_of_drawn refl accepted

-- Without a source.
abbrev sourceless : Config
sourceless = record config {
  parameters = record config.parameters { data_source = Source.value undefined };
}

abbrev reason : String
reason = "\"dataSource\" is required."

sourceless_refused :
    parameter_checker host.is_numeric host.printed sourceless.parameters ≡ err reason
unfolding parameter_checker holds
sourceless_refused = refl

plugin-refused_example :
    plugin host (settings sourceless) drawn
    ≡ (record (cleaned drawn) { data_of = some no_data }, thrown reason)
plugin-refused_example =
    plugin-refused host sourceless drawn_reached data_of_drawn refl sourceless_refused

-- A function that hands over a text, which is no array.
abbrev misled : Config
misled = record config {
  parameters = record config.parameters { data_source = Source.delivers (text "none" ∷ []) };
}

abbrev page : Container
page = fresh (other 0 ∷ [])

abbrev failed : Container × Answer
failed = plugin host (settings misled) page

fails : failed.1 ≢ itself
unfolding plugin initialize draw_all parameter_checker parse_data_source run_hook call_hook is_array
fails e = cc

plugin-kept_example :
    (failed.0.children ≡ other 0 ∷ []) × ((data_or_new failed.0).initialized ≡ false)
unfolding parse_data_source
plugin-kept_example = plugin-kept host misled page (omega arith) refl (omega arith) fails
