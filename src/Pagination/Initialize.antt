-- ===== src/Pagination/Initialize.antt =====
-- `initialize` of public/javascripts/pagination.js: drawing the element and putting it in its place.
use pact_broker.Prelude.{ℕ, suc, true, not, Option, none, some, List, [], ◌∷◌, if◌then◌else◌}
use pact_broker.Js.{is_array}
use pact_broker.Pagination.Source.{Result, ok, err, Parsed, parse_data_source}
use pact_broker.Pagination.Render.{Nav, render}
use pact_broker.Pagination.Container.{
  Container, Answer, itself, thrown, left_out, Host, remove_navs, data_or_new, Config, run_hook,
  place, add_class, element_of,
}

-- The callback of `parseDataSource`, for one outcome: draws and places the element. A page size of 0,
-- with which the source draws up to `Infinity` or `NaN`, is left out. The state is
-- the model's element and its total, which a source that is no array leaves as it was.
pub record Round : Type 0 where
  pub el : Option Nav
  pub total : Option ℕ
  pub page : Container
  pub answer : Answer

abbrev pub finish : Config → Nav → Option ℕ → Container → Round
finish config el total c =
    let shown = add_class config.attributes.class_name el in
    let placed = record c {
      children = place config.attributes shown c.children;
      data_of = some (record (data_or_new c) { initialized = true });
    } in
    record {
      el = some shown;
      total = total;
      page = (run_hook config "afterInit" placed).0;
      answer = itself;
    }

unfoldable pub draw : Host → Config → Parsed → Round → Round
draw host config parsed s =
    let a = config.attributes in
    let total = if is_array parsed.data_source then some a.total_number else s.total in
    let c = (run_hook config "beforeRender" s.page).0 in
    elim (render host.replace a total (element_of c.calls s.el)) [
      | none ↦ record s { total = total; page = c; answer = left_out }
      | some el ↦ finish config el total (run_hook config "afterRender" c).0
    ]

-- The outcomes one after the other, up to the first that fails.
unfoldable pub draw_all : Host → Config → List (Result Parsed) → Round → Round
draw_all host config [] s = s
draw_all host config (err e ∷ rest) s = record s { answer = thrown e }
draw_all host config (ok parsed ∷ rest) s =
    let next = draw host config parsed s in
    elim next.answer [ itself ↦ draw_all host config rest next | _ ↦ next ]

-- A function is given the callback; the calls that it makes at once are among the outcomes here, those
-- that it makes after `initialize` is over are in Pagination/Late.
unfoldable pub initialize : Host → Config → Container → Container × Answer
initialize host config c =
    let fresh = record c { data_of = some (data_or_new c); calls = suc c.calls } in
    let (asked, proceeds) = run_hook config "beforeInit" fresh in
    if not proceeds
    then (asked, itself)
    else let cleared = if (data_or_new asked).initialized then remove_navs asked else asked in
      let p = config.parameters in
      let result =
        draw_all host config (parse_data_source host.inherited p.locator p.data_source)
          (record { el = none; total = none; page = cleared; answer = itself }) in
      (result.page, result.answer)
