-- ===== src/Pagination/Calls/Restart.antt =====
-- Starting the plug-in again, and starts that fail.
use pact_broker.Prelude.{
  ◌≡◌, refl, ap, ◌∙◌, sym, true, false, not, none, some, List, [], keep, if◌then◌else◌,
  Option-cases, inl, inr, String,
}
use pact_broker.Pagination.Source.{ok, err, parameter_checker}
use pact_broker.Pagination.Container.{
  Child, PluginData, no_data, Container, thrown, Host, is_nav, remove_navs, off, uninstall_plugin,
  data_or_new, Config,
}
use pact_broker.Pagination.Initialize.{initialize}
use pact_broker.Pagination.Calls.{settings, start, on_initialized, on_other, with_data, plugin}
use pact_broker.Pagination.Calls.Reached.{fresh, Reach, Reach-IsTame}

-- What is in a container besides the elements of the plug-in.
abbrev pub others : List Child → List Child
others children = keep (λ x. not (is_nav x)) children

-- A container that never saw the plug-in, but for the counts of what happened before.
abbrev pub cleaned : Container → Container
cleaned c = record (fresh (others c.children)) {
  fired = c.fired;
  called = c.called;
  calls = c.calls;
}

pub plugin_started :
    (host : Host) (config : Config) (c : Container) {d : PluginData}
    → c.data_of ≡ some d
    → d.initialized ≡ true
    → plugin host (settings config) c ≡ start host config (uninstall_plugin c)
unfolding plugin with_data on_initialized
plugin_started host config c {d} e started =
    ap (with_data host (settings config) c) e
    ∙ ap (λ b. if b then start host config (uninstall_plugin c) else start host config c) started

pub plugin_unstarted :
    (host : Host) (config : Config) (c : Container)
    → (data_or_new c).initialized ≡ false
    → plugin host (settings config) c ≡ start host config c
unfolding plugin with_data on_initialized on_other
plugin_unstarted host config c idle = elim (Option-cases c.data_of) [
  | inl none_there ↦ ap (with_data host (settings config) c) none_there
  | inr (d, e) ↦
      ap (with_data host (settings config) c) e
      ∙ ap (λ b. if b then start host config (uninstall_plugin c) else start host config c)
          (rw e at idle)
]

uninstall_plugin-cleaned :
    (c : Container)
    → c.handlers ≡ []
    → uninstall_plugin c ≡ record (cleaned c) { data_of = some no_data }
unfolding uninstall_plugin remove_navs off
uninstall_plugin-cleaned c h = rw h refl

pub start_accepted :
    (host : Host) (config : Config) (c : Container)
    → parameter_checker host.is_numeric host.printed config.parameters ≡ ok tt
    → start host config c ≡ initialize host config c
unfolding start
start_accepted host config c h = rw (h, start) refl

pub start_refused :
    (host : Host) (config : Config) (c : Container) {e : String}
    → parameter_checker host.is_numeric host.printed config.parameters ≡ err e
    → start host config c ≡ (c, thrown e)
unfolding start
start_refused host config c h = rw (h, start) refl

initialize-no_data :
    (host : Host) (config : Config) (c : Container)
    → c.data_of ≡ none
    → initialize host config (record c { data_of = some no_data }) ≡ initialize host config c
unfolding initialize
initialize-no_data host config c h = rw (h, initialize) refl

module _ (host : Host) (config : Config) {c : Container} (r : Reach host c) {d : PluginData}
    (e : c.data_of ≡ some d) (started : d.initialized ≡ true) where
  uninstalled : uninstall_plugin c ≡ record (cleaned c) { data_of = some no_data }
  uninstalled = uninstall_plugin-cleaned c (Reach-IsTame host r).unheard

  -- A start with accepted parameters, in a container where calls of the plug-in led to and in which it was
  -- started, is a start in a container that never saw the plug-in.
  pub plugin-cleaned :
      parameter_checker host.is_numeric host.printed config.parameters ≡ ok tt
      → plugin host (settings config) c ≡ plugin host (settings config) (cleaned c)
  plugin-cleaned accepted =
      plugin_started host config c e started
      ∙ ap (start host config) uninstalled
      ∙ start_accepted host config (record (cleaned c) { data_of = some no_data }) accepted
      ∙ initialize-no_data host config (cleaned c) refl
      ∙ sym (start_accepted host config (cleaned c) accepted)
      ∙ sym (plugin_unstarted host config (cleaned c) refl)

  -- If the parameters are refused instead, the error is thrown after the element of the plug-in, and all
  -- that was registered, are gone.
  pub plugin-refused :
      {reason : String}
      → parameter_checker host.is_numeric host.printed config.parameters ≡ err reason
      → plugin host (settings config) c
        ≡ (record (cleaned c) { data_of = some no_data }, thrown reason)
  plugin-refused refused =
      plugin_started host config c e started
      ∙ ap (start host config) uninstalled
      ∙ start_refused host config (record (cleaned c) { data_of = some no_data }) refused
