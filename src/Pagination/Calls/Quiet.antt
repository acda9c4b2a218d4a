-- ===== src/Pagination/Calls/Quiet.antt =====
-- Calls of the plug-in that start nothing.
use pact_broker.Prelude.{
  ◌≡◌, ◌⊎◌, refl, Bool, true, false, Option, none, some, [], Bool-cases, inl, inr, ◌<>◌,
}
use pact_broker.Js.{text}
use pact_broker.Pagination.Container.{
  PluginData, Container, itself, Host, uninstall_plugin, trigger, event_prefix,
}
use pact_broker.Pagination.Calls.{
  Argument, absent, page, action, settings, illegal, on_initialized, on_other, with_data, plugin,
}
use pact_broker.Pagination.Calls.Reached.{if-unchanged, run_action_unchanged, trigger_unheard}

-- A call that is no start leaves the container as it is, or takes the plug-in out of it.
abbrev IsQuiet : Container → Container → Type 0
IsQuiet c next = (next ≡ c) ⊎ (next ≡ uninstall_plugin c)

abbrev pub is_start : Argument → Bool
is_start (settings config) = true
is_start _ = false

with_data-IsQuiet :
    (host : Host) (argument : Argument) (c : Container) (o : Option PluginData)
    → c.handlers ≡ []
    → is_start argument ≡ false
    → IsQuiet c (with_data host argument c o).0
unfolding with_data on_initialized on_other
with_data-IsQuiet host absent c none h e = inl refl
with_data-IsQuiet host (page n) c none h e = inl refl
with_data-IsQuiet host (action name) c none h e = inl refl
with_data-IsQuiet host illegal c none h e = inl refl
with_data-IsQuiet host (settings config) c o h e = absurd (cc)
with_data-IsQuiet host absent c (some d) h e = inl (if-unchanged d.initialized _ _ c refl refl)
with_data-IsQuiet host (page n) c (some d) h e =
    inl (if-unchanged d.initialized _ _ c (trigger_unheard (event_prefix <> "go") c h) refl)
with_data-IsQuiet host (action name) c (some d) h e = inl (
    if-unchanged d.initialized _ _ c
      (if-unchanged (host.is_numeric (text name)) (trigger (event_prefix <> "go") c, itself) _ c
        (trigger_unheard (event_prefix <> "go") c h) (run_action_unchanged name d c h))
      refl)
with_data-IsQuiet host illegal c (some d) h e = elim (Bool-cases d.initialized) [
  | inl started ↦ rw started (inr refl)
  | inr idle ↦ rw idle (inl refl)
]

pub plugin-IsQuiet :
    (host : Host) (argument : Argument) (c : Container)
    → c.handlers ≡ []
    → is_start argument ≡ false
    → IsQuiet c (plugin host argument c).0
unfolding plugin
plugin-IsQuiet host argument c h e = with_data-IsQuiet host argument c c.data_of h e
