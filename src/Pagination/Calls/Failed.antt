-- ===== src/Pagination/Calls/Failed.antt =====
-- Starts that end in an error.
use pact_broker.Prelude.{
  ℕ, suc, ◌≤◌, ◌≡◌, ◌≢◌, ◌⊎◌, refl, ◌∙◌, sym, subst, true, false, Option, none, some, List, [], ◌∷◌,
  arith, length, if◌then◌else◌, Bool-cases, Option-cases, inl, inr,
}
use pact_broker.Js.{is_array}
use pact_broker.Pagination.Options.{Attributes}
use pact_broker.Pagination.Pages.{get_total_page}
use pact_broker.Pagination.Source.{Result, ok, err, Parsed, parameter_checker, parse_data_source}
use pact_broker.Pagination.Render.{Nav, render}
use pact_broker.Pagination.Container.{
  Container, Answer, itself, Host, data_or_new, Config, run_hook, element_of,
}
use pact_broker.Pagination.Initialize.{Round, draw, draw_all, initialize}
use pact_broker.Pagination.Calls.{settings, start, plugin}
use pact_broker.Pagination.Calls.Restart.{plugin_unstarted, start_accepted, start_refused}

-- The page and the start that was under way: nothing new in the container, and the plug-in not started.
record IsUntouched (before after : Container) : Type 0 where
  children : after.children ≡ before.children
  initialized : (data_or_new after).initialized ≡ (data_or_new before).initialized

-- Either nothing was drawn, or there was no error.
abbrev IsAtomic : Container → Container → Answer → Type 0
IsAtomic before after answer = IsUntouched before after ⊎ (answer ≡ itself)

-- With a page size, there is always an element to draw.
render_drawn :
    (host : Host) (a : Attributes) (total : Option ℕ) (el : Nav)
    → a.page_size ≢ 0
    → render host.replace a total el ≢ none
unfolding render get_total_page
render_drawn host a total el sized = ground arith

draw_itself :
    (host : Host) (config : Config) (parsed : Parsed) (s : Round)
    → config.attributes.page_size ≢ 0
    → (draw host config parsed s).answer ≡ itself
unfolding draw
draw_itself host config parsed s sized =
    let a = config.attributes in
    let total = if is_array parsed.data_source then some a.total_number else s.total in
    let c = (run_hook config "beforeRender" s.page).0 in
    elim (Option-cases (render host.replace a total (element_of c.calls s.el))) [
      | inl failed ↦ absurd (render_drawn host a total (element_of c.calls s.el) sized failed)
      | inr (drawn, e) ↦ rw (e, draw) refl
    ]

pub draw_started :
    (host : Host) (config : Config) (parsed : Parsed) (s : Round)
    → config.attributes.page_size ≢ 0
    → (data_or_new (draw host config parsed s).page).initialized ≡ true
unfolding draw run_hook
draw_started host config parsed s sized =
    let a = config.attributes in
    let total = if is_array parsed.data_source then some a.total_number else s.total in
    let c = (run_hook config "beforeRender" s.page).0 in
    elim (Option-cases (render host.replace a total (element_of c.calls s.el))) [
      | inl failed ↦ absurd (render_drawn host a total (element_of c.calls s.el) sized failed)
      | inr (drawn, e) ↦ rw (e, draw) refl
    ]

pub draw_all_one :
    (host : Host) (config : Config) (parsed : Parsed) (s : Round)
    → draw_all host config (ok parsed ∷ []) s ≡ draw host config parsed s
unfolding draw_all
draw_all_one host config parsed s = ended (draw host config parsed s).answer
  where
    ended :
        (answer : Answer)
        → elim answer [ itself ↦ draw host config parsed s | _ ↦ draw host config parsed s ]
          ≡ draw host config parsed s
    ended itself = refl
    ended _ = refl

draw_all-IsAtomic :
    (host : Host) (config : Config) (outcomes : List (Result Parsed)) (s : Round)
    → config.attributes.page_size ≢ 0
    → s.answer ≡ itself
    → length outcomes ≤ 1
    → IsAtomic s.page
        (draw_all host config outcomes s).page
        (draw_all host config outcomes s).answer
unfolding draw_all
draw_all-IsAtomic host config [] s sized fine h = inr fine
draw_all-IsAtomic host config (err e ∷ rest) s sized fine h =
    inl (record { children = refl; initialized = refl })
draw_all-IsAtomic host config (ok parsed ∷ []) s sized fine h =
    let drawn = draw_itself host config parsed s sized in inr (rw (drawn, draw_all) drawn)
draw_all-IsAtomic host config (ok parsed ∷ r ∷ rest) s sized fine h = absurd (omega arith)

initialize-IsAtomic :
    (host : Host) (config : Config) (c : Container)
    → config.attributes.page_size ≢ 0
    → (data_or_new c).initialized ≡ false
    → length
        (parse_data_source host.inherited config.parameters.locator config.parameters.data_source)
      ≤ 1
    → IsAtomic c (initialize host config c).0 (initialize host config c).1
unfolding initialize run_hook
initialize-IsAtomic host config c sized idle few =
    let fresh : Container = record c { data_of = some (data_or_new c); calls = suc c.calls } in
    let asked = (run_hook config "beforeInit" fresh).0 in
    let p = config.parameters in
    elim (Bool-cases (run_hook config "beforeInit" fresh).1) [
      | inr stops ↦ rw (stops, initialize) (inr refl)
      | inl proceeds ↦
          rw (proceeds, idle, initialize)
            (drawn asked (record { children = refl; initialized = refl }))
    ]
  where
    drawn :
        (asked : Container)
        → IsUntouched c asked
        → let r =
            draw_all host config
              (parse_data_source host.inherited config.parameters.locator
                config.parameters.data_source)
              (record { el = none; total = none; page = asked; answer = itself }) in
          IsAtomic c r.page r.answer
    drawn asked same =
        elim (draw_all-IsAtomic host config
          (parse_data_source host.inherited config.parameters.locator config.parameters.data_source)
          (record { el = none; total = none; page = asked; answer = itself }) sized refl few) [
            | inr fine ↦ inr fine
            | inl kept ↦ inl (record {
              children = kept.children ∙ same.children;
              initialized = kept.initialized ∙ same.initialized;
            })
          ]

start-IsAtomic :
    (host : Host) (config : Config) (c : Container)
    → config.attributes.page_size ≢ 0
    → (data_or_new c).initialized ≡ false
    → length
        (parse_data_source host.inherited config.parameters.locator config.parameters.data_source)
      ≤ 1
    → IsAtomic c (start host config c).0 (start host config c).1
start-IsAtomic host config c sized idle few =
    by_check (parameter_checker host.is_numeric host.printed config.parameters) refl
  where
    by_check :
        (r : Result (Unit {0}))
        → parameter_checker host.is_numeric host.printed config.parameters ≡ r
        → IsAtomic c (start host config c).0 (start host config c).1
    by_check (ok _) e =
        subst (λ (x : Container × Answer). IsAtomic c x.0 x.1)
          (sym (start_accepted host config c e)) (initialize-IsAtomic host config c sized idle few)
    by_check (err reason) e =
        subst (λ (x : Container × Answer). IsAtomic c x.0 x.1) (sym (start_refused host config c e))
          (inl (record { children = refl; initialized = refl }))

-- Where the plug-in was not started, the page size is not 0, and the source hands over data at most once
-- within the call: a start that does not return the container, but ends in an error, leaves all children
-- of the container as they were, and the plug-in not started.
pub plugin-kept :
    (host : Host) (config : Config) (c : Container)
    → config.attributes.page_size ≢ 0
    → (data_or_new c).initialized ≡ false
    → length
        (parse_data_source host.inherited config.parameters.locator config.parameters.data_source)
      ≤ 1
    → (plugin host (settings config) c).1 ≢ itself
    → let after = (plugin host (settings config) c).0 in
      (after.children ≡ c.children) × ((data_or_new after).initialized ≡ false)
plugin-kept host config c sized idle few failed =
    elim (subst (λ (x : Container × Answer). IsAtomic c x.0 x.1)
      (sym (plugin_unstarted host config c idle)) (start-IsAtomic host config c sized idle few)) [
        | inr fine ↦ absurd (failed fine)
        | inl kept ↦ (kept.children, kept.initialized ∙ idle)
      ]
