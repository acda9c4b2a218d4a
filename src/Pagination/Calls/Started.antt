-- ===== src/Pagination/Calls/Started.antt =====
-- Starting and uninstalling the plug-in leave at most one element in the container, and no model.
use pact_broker.Prelude.{
  suc, ◌≡◌, refl, ap, ◌∙◌, false, not, none, some, List, [], ◌∷◌, arith, keep, Bool-cases, inl, inr,
  String,
}
use pact_broker.Pagination.Source.{parse_data_source}
use pact_broker.Pagination.Container.{
  Child, nav, other, Container, itself, Host, is_nav, remove_navs, uninstall_plugin, data_or_new,
  Config, run_hook, off,
}
use pact_broker.Pagination.Calls.{start}
use pact_broker.Pagination.Initialize.{initialize}
use pact_broker.Pagination.Calls.Tame.{
  navs, stray_of_navs, IsTame, PageIsTame, run_hook-PageIsTame, draw_all-RoundIsTame,
}

navs-remove : (children : List Child) → navs (keep (λ x. not (is_nav x)) children) ≡ 0
navs-remove [] = refl
navs-remove (nav el ∷ children) = navs-remove children
navs-remove (other n ∷ children) = navs-remove children

children-run_hook :
    (config : Config) (name : String) (c : Container)
    → (run_hook config name c).0.children ≡ c.children
unfolding run_hook
children-run_hook config name c = refl

pub not_initialized :
    (c : Container) → IsTame c → navs c.children ≡ 0 → (data_or_new c).initialized ≡ false
not_initialized c h empty = ground arith

-- A start in a container with no element: the page when the callback of `parseDataSource` is made.
pub asked-PageIsTame :
    (config : Config) (c : Container)
    → IsTame c
    → navs c.children ≡ 0
    → let fresh = record c { data_of = some (data_or_new c); calls = suc c.calls } in
      let asked = (run_hook config "beforeInit" fresh).0 in
      PageIsTame (suc c.calls) asked × ((data_or_new asked).initialized ≡ false)
asked-PageIsTame config c h empty =
    let fresh : Container = record c { data_of = some (data_or_new c); calls = suc c.calls } in
    let ready : PageIsTame (suc c.calls) fresh = record {
      tame = record {
        model_unset = h.model_unset;
        attributes_unset = h.attributes_unset;
        unheard = h.unheard;
        nav_count = h.nav_count;
      };
      count = refl;
      clean = stray_of_navs (suc c.calls) c.children empty;
    } in
    let after = run_hook-PageIsTame config "beforeInit" (suc c.calls) fresh ready in
    (
      after,
      not_initialized (run_hook config "beforeInit" fresh).0 after.tame
          (ap navs (children-run_hook config "beforeInit" fresh) ∙ empty),
    )

-- Starting the plug-in in a container with no element.
pub initialize-IsTame :
    (host : Host) (config : Config) (c : Container)
    → IsTame c
    → navs c.children ≡ 0
    → IsTame (initialize host config c).0
unfolding initialize
initialize-IsTame host config c h empty =
    let fresh : Container = record c { data_of = some (data_or_new c); calls = suc c.calls } in
    let asked = (run_hook config "beforeInit" fresh).0 in
    let (after, e) = asked-PageIsTame config c h empty in
    let p = config.parameters in
    elim (Bool-cases (run_hook config "beforeInit" fresh).1) [
      | inl proceeds ↦
          rw (proceeds, e, initialize)
            (draw_all-RoundIsTame host config
              (parse_data_source host.inherited p.locator p.data_source) (suc c.calls)
              (record { el = none; total = none; page = asked; answer = itself })
              (record { page = after; own = tt })).page.tame
      | inr stops ↦ rw (stops, initialize) after.tame
    ]

pub uninstall_plugin-IsTame :
    (c : Container)
    → IsTame c
    → IsTame (uninstall_plugin c) × (navs (uninstall_plugin c).children ≡ 0)
unfolding uninstall_plugin remove_navs off
uninstall_plugin-IsTame c h = (
  record {
    model_unset = refl;
    attributes_unset = refl;
    unheard = rw h.unheard;
    nav_count = navs-remove c.children;
  },
  navs-remove c.children,
)

pub start-IsTame :
    (host : Host) (config : Config) (c : Container)
    → IsTame c
    → navs c.children ≡ 0
    → IsTame (start host config c).0
unfolding start
start-IsTame host config c h empty = ground (arith, h, initialize-IsTame host config c h empty)
