-- ===== src/Pagination/Instance.antt =====
-- The methods that an instance of public/javascripts/pagination.js has beside `initialize`:
-- `disable`, `enable`, `show`, `hide`, `destroy`, `doCallback`, `previous`, `next`, `refresh` and what
-- is left of `observer`. No code of the plug-in calls them.
pub mod Laws
use pact_broker.Prelude.{
  ℕ, String, Bool, true, false, not, Option, none, some, List, [], ◌∷◌, map, min, max, keep,
  if◌then◌else◌, ◌==◌, ◌<>◌,
}
use pact_broker.Pagination.Hooks.{Hook}
use pact_broker.Pagination.Render.{Nav}
use pact_broker.Js.{Value}
use pact_broker.Pagination.Container.{
  Model, Child, nav, other, Container, Answer, type_error, Config, run_hook, is_owned, trigger,
  event_prefix,
}

-- `owner` is the call that made the instance, and so the mark of its element.
pub record Instance : Type 0 where
  pub config : Config
  pub owner : ℕ
  pub disabled : Bool
  pub model_disabled : Bool
  pub page : Container

-- A method that a hook can stop: nothing changes if it does, and else a second hook follows.
guarded : (before after : String) → (Instance → Instance) → Instance → Instance
guarded before after change i =
    let (c, proceeds) = run_hook i.config before i.page in
    let asked = record i { page = c } in
    if not proceeds
    then asked
    else let changed = change asked in
      record changed { page = (run_hook changed.config after changed.page).0 }

unfoldable pub disable : Instance → Instance
unfolding guarded
disable =
    guarded "beforeDisable" "afterDisable"
      (λ i. record i { disabled = true; model_disabled = true })

unfoldable pub enable : Instance → Instance
unfolding guarded
enable =
    guarded "beforeEnable" "afterEnable"
      (λ i. record i { disabled = false; model_disabled = false })

set_visible : Bool → ℕ → Child → Child
set_visible visible owner (nav el) =
    if el.owner == owner then nav (record el { visible = visible }) else nav el
set_visible visible owner (other n) = other n

-- `show` and `hide` first look whether there is anything to do; setting what is set changes nothing.
unfoldable pub show : Instance → Instance
unfolding set_visible
show i = record i {
  page = record i.page { children = map (set_visible true i.owner) i.page.children };
}

unfoldable pub hide : Instance → Instance
unfolding set_visible
hide i = record i {
  page = record i.page { children = map (set_visible false i.owner) i.page.children };
}

-- The element and all handlers of the container are removed.
unfoldable pub destroy : Instance → Instance
unfolding guarded
destroy = guarded "beforeDestroy" "afterDestroy" (λ i. record i {
  page = record i.page {
    children = keep (λ x. not (is_owned i.owner x)) i.page.children;
    handlers = [];
  };
})

-- Which callback is called: the one that is given, or else the option; `none` is no function.
unfoldable pub do_callback : (given option : Option ℕ) → Option ℕ
do_callback (some f) option = some f
do_callback none option = option

-- `previous`, `next` and `refresh` call `this.go`, which is commented out.
unfoldable pub turn : Instance → Instance × Answer
turn i = (i, type_error)

unfoldable pub previous : Instance → Instance × Answer
unfolding turn
previous i = turn i

unfoldable pub next : Instance → Instance × Answer
unfolding turn
next i = turn i

unfoldable pub refresh : Instance → Instance × Answer
unfolding turn
refresh i = turn i

-- The total of a response, as the option `totalNumberLocator` finds it.
unfoldable pub find_total_number_from_remote_response :
    (total_number_locator : Value → ℕ) → (response : Value) → Model → Model
find_total_number_from_remote_response total_number_locator response m = record m {
  total_number = total_number_locator response;
}

-- The page that `observer` asks for at the start.
unfoldable pub default_page : (is_dynamic : Bool) → (page_number total_page : ℕ) → ℕ
default_page is_dynamic page_number total_page =
    min (if is_dynamic then 1 else page_number) (max total_page 1)

-- What is left of `observer`: the event that asks for the first page, if it is wanted at the start. The
-- page that the event carries is `default_page`.
unfoldable pub observer : Instance → Instance
observer i =
    if i.config.attributes.trigger_paging_on_init
    then record i { page = trigger (event_prefix <> "go") i.page }
    else i
