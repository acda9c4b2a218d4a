-- ===== src/Pagination/Calls/Reached.antt =====
-- What holds of every container after any calls of the plug-in on it.
use pact_broker.Prelude.{
  ℕ, ◌≡◌, refl, sym, subst, Bool, true, false, Option, none, some, List, [], arith, any,
  if◌then◌else◌, Bool-cases, inl, inr, String, str_eq, ◌<>◌, ltb,
}
use pact_broker.Js.{text}
use pact_broker.Pagination.Hooks.{Hook}
use pact_broker.Pagination.Container.{
  Child, PluginData, Container, Answer, itself, Host, uninstall_plugin, trigger, event_names,
  event_prefix,
}
use pact_broker.Pagination.Calls.{
  Argument, absent, page, action, settings, illegal, run_action, on_initialized, on_other,
  with_data, plugin, add_hook,
}
use pact_broker.Pagination.Calls.Tame.{IsTame, navs}
use pact_broker.Pagination.Calls.Started.{uninstall_plugin-IsTame, start-IsTame}

pub trigger_unheard : (event : String) (c : Container) → c.handlers ≡ [] → trigger event c ≡ c
unfolding trigger
trigger_unheard event c h = ground arith

pub if-unchanged :
    (b : Bool) (x y : Container × Answer) (c : Container)
    → x.0 ≡ c
    → y.0 ≡ c
    → (if b then x else y).0 ≡ c
if-unchanged true x y c h k = h
if-unchanged false x y c h k = k

pub run_action_unchanged :
    (name : String) (d : PluginData) (c : Container) → c.handlers ≡ [] → (run_action name d c).0 ≡ c
unfolding run_action
run_action_unchanged name d c h =
    if-unchanged (any (str_eq name) event_names) _ _ c (trigger_unheard (event_prefix <> name) c h)
      (if-unchanged (str_eq name "getSelectedPageNum") _ _ c refl (
        if-unchanged (str_eq name "getTotalPage") _ _ c refl (
          if-unchanged (str_eq name "getSelectedPageData") _ _ c refl
            (if-unchanged (str_eq name "isDisabled") _ _ c refl refl))))

no_navs_of_no_data : (c : Container) → IsTame c → c.data_of ≡ none → navs c.children ≡ 0
no_navs_of_no_data c h e = ground arith

no_navs_of_idle :
    (c : Container) (d : PluginData)
    → IsTame c
    → c.data_of ≡ some d
    → d.initialized ≡ false
    → navs c.children ≡ 0
no_navs_of_idle c d h e idle = ground arith

module _ (host : Host) where
  on_initialized-IsTame :
      (argument : Argument) (d : PluginData) (c : Container)
      → IsTame c
      → IsTame (on_initialized host argument d c).0
  unfolding on_initialized
  on_initialized-IsTame absent d c h = h
  on_initialized-IsTame (page n) d c h = rw (trigger_unheard (event_prefix <> "go") c h.unheard) h
  on_initialized-IsTame (action name) d c h =
      let same =
        if-unchanged (host.is_numeric (text name)) (trigger (event_prefix <> "go") c, itself)
          (run_action name d c) c (trigger_unheard (event_prefix <> "go") c h.unheard)
          (run_action_unchanged name d c h.unheard) in
      subst IsTame (sym same) h
  on_initialized-IsTame (settings config) d c h =
      let (clear, empty) = uninstall_plugin-IsTame c h in
      start-IsTame host config (uninstall_plugin c) clear empty
  on_initialized-IsTame illegal d c h = (uninstall_plugin-IsTame c h).0

  on_other-IsTame :
      (argument : Argument) (c : Container)
      → IsTame c
      → navs c.children ≡ 0
      → IsTame (on_other host argument c).0
  unfolding on_other
  on_other-IsTame (settings config) c h empty = start-IsTame host config c h empty
  on_other-IsTame absent c h empty = h
  on_other-IsTame _ c h empty = h

  with_data-IsTame :
      (argument : Argument) (c : Container) (o : Option PluginData)
      → c.data_of ≡ o
      → IsTame c
      → IsTame (with_data host argument c o).0
  unfolding with_data
  with_data-IsTame argument c none e h = on_other-IsTame argument c h (no_navs_of_no_data c h e)
  with_data-IsTame argument c (some d) e h = elim (Bool-cases d.initialized) [
    | inl started ↦ simp started (on_initialized-IsTame argument d c h)
    | inr idle ↦ simp idle (on_other-IsTame argument c h (no_navs_of_idle c d h e idle))
  ]

  -- Whatever the plug-in is called with, the container keeps its one element or none, has no model
  -- and no attributes in its data, and no handlers.
  pub plugin-IsTame :
      (argument : Argument) (c : Container) → IsTame c → IsTame (plugin host argument c).0
  unfolding plugin
  plugin-IsTame argument c h = with_data-IsTame argument c c.data_of refl h

pub add_hook-IsTame :
    (arguments : ℕ) (name : String) (hook : Option Hook) (c : Container)
    → IsTame c
    → IsTame (add_hook arguments name hook c).0
unfolding add_hook
add_hook-IsTame arguments name none c h = h
add_hook-IsTame arguments name (some hook) c h = elim (Bool-cases (ltb arguments 2)) [
  | inl few ↦ rw few h
  | inr enough ↦ rw enough (record {
    model_unset = h.model_unset;
    attributes_unset = h.attributes_unset;
    unheard = h.unheard;
    nav_count = h.nav_count;
  })
]

-- A container as the page brings it: no data, no handlers and no element of the plug-in.
abbrev pub fresh : List Child → Container
fresh children = record {
  data_of = none;
  children = children;
  handlers = [];
  fired = [];
  called = [];
  calls = 0;
}

-- The containers that calls of the plug-in and registrations of hooks lead to.
pub data Reach (host : Host) : Container → Type 0 where
  begin : (children : List Child) → navs children ≡ 0 → Reach host (fresh children)
  call :
      {c : Container} (argument : Argument) → Reach host c → Reach host (plugin host argument c).0
  hook :
      {c : Container} (arguments : ℕ) (name : String) (callback : Option Hook)
      → Reach host c
      → Reach host (add_hook arguments name callback c).0

pub Reach-IsTame : (host : Host) {c : Container} → Reach host c → IsTame c
Reach-IsTame host (begin children empty) = record {
  model_unset = refl;
  attributes_unset = refl;
  unheard = refl;
  nav_count = empty;
}
Reach-IsTame host (call {c} argument r) = plugin-IsTame host argument c (Reach-IsTame host r)
Reach-IsTame host (hook {c} arguments name callback r) =
    add_hook-IsTame arguments name callback c (Reach-IsTame host r)
