-- ===== src/Pagination/Late/Owned.antt =====
-- Starts, calls and registrations of hooks: the elements in a container are those of the latest start.
use pact_broker.Prelude.{
  suc, ◌≡◌, ◌≢◌, ◌⊎◌, refl, ap, ◌∙◌, sym, subst, true, false, [], ◌∷◌, Option, none, some, arith,
  Bool-cases, Option-cases, inl, inr, String, ltb, ℕ,
}
use pact_broker.Pagination.Source.{
  Result, ok, err, Parsed, Source, value, delivers, parameter_checker, parse_data_source,
  parse_delivered, parse_value,
}
use pact_broker.Pagination.Hooks.{Hook}
use pact_broker.Js.{Value, Items, array, is_array, is_object}
use pact_broker.Pagination.Container.{
  Container, Answer, itself, Host, Config, remove_navs, off, uninstall_plugin, data_or_new,
  run_hook, PluginData,
}
use pact_broker.Pagination.Initialize.{Round, initialize}
use pact_broker.Pagination.Calls.{Argument, settings, start, plugin, add_hook}
use pact_broker.Pagination.Calls.Tame.{
  navs, stray_of_navs, IsTame, IsOwn, PageIsTame, RoundIsTame, draw_all-RoundIsTame,
  owner-element_of,
}
use pact_broker.Pagination.Calls.Started.{asked-PageIsTame, uninstall_plugin-IsTame}
use pact_broker.Pagination.Calls.Reached.{add_hook-IsTame}
use pact_broker.Pagination.Calls.Failed.{draw_all_one, draw_started}
use pact_broker.Pagination.Calls.Quiet.{is_start, plugin-IsQuiet}
use pact_broker.Pagination.Calls.Restart.{plugin_started, plugin_unstarted, start_accepted}
use pact_broker.Pagination.Late.{
  Callback, callback_after, given, initialize_callback, before_start, start_callback, deliver,
}

-- If the latest start gave its callback to a function, all elements in the container are its own.
abbrev pub Owns : Container → Option Callback → Type 0
Owns c none = Unit
Owns c (some p) = PageIsTame p.el.owner c

given-Owns :
    (config : Config) (source : Source) (owner : ℕ) (s : Round)
    → RoundIsTame owner s
    → Owns s.page (given config source s)
given-Owns config (value v) owner s h = tt
given-Owns config (delivers vs) owner s h =
    let same = h.page.count in
    subst (λ o. PageIsTame o s.page)
      (sym (owner-element_of s.page.calls s.el (subst (λ o. IsOwn o s.el) (sym same) h.own) ∙ same))
      h.page

initialize-Owns :
    (host : Host) (config : Config) (c : Container)
    → IsTame c
    → navs c.children ≡ 0
    → Owns (initialize host config c).0 (initialize_callback host config c)
unfolding initialize initialize_callback
initialize-Owns host config c h empty =
    let fresh : Container = record c { data_of = some (data_or_new c); calls = suc c.calls } in
    let asked = (run_hook config "beforeInit" fresh).0 in
    let (after, e) = asked-PageIsTame config c h empty in
    let p = config.parameters in
    elim (Bool-cases (run_hook config "beforeInit" fresh).1) [
      | inr stops ↦ rw (stops, initialize, initialize_callback) tt
      | inl proceeds ↦
          rw (proceeds, e, initialize, initialize_callback)
            (given-Owns config p.data_source (suc c.calls) _ (
              draw_all-RoundIsTame host config
                (parse_data_source host.inherited p.locator p.data_source) (suc c.calls)
                (record { el = none; total = none; page = asked; answer = itself })
                (record { page = after; own = tt })))
    ]

before_start-IsTame :
    (c : Container) → IsTame c → IsTame (before_start c) × (navs (before_start c).children ≡ 0)
before_start-IsTame c h = elim (Bool-cases (data_or_new c).initialized) [
  | inl started ↦ rw started (uninstall_plugin-IsTame c h)
  | inr idle ↦ rw idle (h, ground (arith, h.nav_count))
]

-- A call with settings is a start, once an earlier start is taken back.
plugin-before_start :
    (host : Host) (config : Config) (c : Container)
    → plugin host (settings config) c ≡ start host config (before_start c)
plugin-before_start host config c = elim (Bool-cases (data_or_new c).initialized) [
  | inr idle ↦ rw idle (plugin_unstarted host config c idle)
  | inl started ↦ rw started (restarted (Option-cases c.data_of) started)
]
  where
    restarted :
        (c.data_of ≡ none) ⊎ ((d : PluginData) × (c.data_of ≡ some d))
        → (data_or_new c).initialized ≡ true
        → plugin host (settings config) c ≡ start host config (uninstall_plugin c)
    restarted (inl none_there) started = ground arith
    restarted (inr (d, e)) started = plugin_started host config c e (rw e at started)

pub start-Owns :
    (host : Host) (config : Config) (c : Container)
    → IsTame c
    → Owns (plugin host (settings config) c).0 (start_callback host config c)
unfolding start_callback
start-Owns host config c h =
    by_check (parameter_checker host.is_numeric host.printed config.parameters) refl
  where
    by_check :
        (r : Result (Unit {0}))
        → parameter_checker host.is_numeric host.printed config.parameters ≡ r
        → Owns (plugin host (settings config) c).0 (start_callback host config c)
    by_check (err reason) e = rw (e, start_callback) tt
    by_check (ok _) e =
        let (tame, empty) = before_start-IsTame c h in
        rw (e, start_callback)
          (subst
            (λ (r : Container × Answer).
              Owns r.0 (initialize_callback host config (before_start c)))
            (sym
              (plugin-before_start host config c ∙ start_accepted host config (before_start c) e))
            (initialize-Owns host config (before_start c) tame empty))

pub uninstall_plugin-PageIsTame :
    (owner : ℕ) (c : Container) → PageIsTame owner c → PageIsTame owner (uninstall_plugin c)
unfolding uninstall_plugin remove_navs off
uninstall_plugin-PageIsTame owner c h =
    let (tame, empty) = uninstall_plugin-IsTame c h.tame in
    record {
      tame = tame;
      count = h.count;
      clean = stray_of_navs owner (uninstall_plugin c).children empty;
    }

pub add_hook-PageIsTame :
    (owner arguments : ℕ) (name : String) (hook : Option Hook) (c : Container)
    → PageIsTame owner c
    → PageIsTame owner (add_hook arguments name hook c).0
unfolding add_hook
add_hook-PageIsTame owner arguments name none c h = h
add_hook-PageIsTame owner arguments name (some hook) c h =
    let tame = add_hook-IsTame arguments name (some hook) c h.tame in
    elim (Bool-cases (ltb arguments 2)) [
      | inl few ↦ rw few h
      | inr enough ↦
          rw enough (record { tame = rw enough at tame; count = h.count; clean = h.clean })
    ]

pub plugin-PageIsTame :
    (host : Host) (argument : Argument) (owner : ℕ) (c : Container)
    → is_start argument ≡ false
    → PageIsTame owner c
    → PageIsTame owner (plugin host argument c).0
plugin-PageIsTame host argument owner c e h =
    elim (plugin-IsQuiet host argument c h.tame.unheard e) [
      | inl same ↦ subst (PageIsTame owner) (sym same) h
      | inr gone ↦ subst (PageIsTame owner) (sym gone) (uninstall_plugin-PageIsTame owner c h)
    ]

-- Data that come late, for the callback whose elements are in the container.
pub deliver-Owns :
    (host : Host) (p : Callback) (v : Value) (c : Container)
    → PageIsTame p.el.owner c
    → let round = deliver host p v c in
      IsTame round.page × Owns round.page (some (callback_after p.config round))
unfolding deliver
deliver-Owns host p v c h =
    let drawn =
      draw_all-RoundIsTame host p.config
        (parse_delivered host.inherited p.config.parameters.locator v ∷ []) p.el.owner
        (record { el = some p.el; total = p.total; page = c; answer = itself })
        (record { page = h; own = refl }) in
    (drawn.page.tame, given-Owns p.config (delivers []) p.el.owner (deliver host p v c) drawn)

-- An array that comes late is drawn.
pub deliver-started :
    (host : Host) (p : Callback) (items : Items) (c : Container)
    → p.config.attributes.page_size ≢ 0
    → (data_or_new (deliver host p (array items) c).page).initialized ≡ true
unfolding deliver parse_delivered parse_value is_array is_object
deliver-started host p items c sized =
    let s : Round = record { el = some p.el; total = p.total; page = c; answer = itself } in
    let parsed : Parsed = record { data_source = array items; jsonp = false } in
    ap (λ (r : Round). (data_or_new r.page).initialized) (draw_all_one host p.config parsed s)
    ∙ draw_started host p.config parsed s sized
