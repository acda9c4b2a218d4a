-- ===== src/Pagination/Calls/Actions.antt =====
-- The actions of the plug-in, which are left without the code that they were made for.
use pact_broker.Prelude.{
  ◌≡◌, ap, ◌∙◌, true, false, none, some, [], arith, if◌then◌else◌, Bool-cases, inl, inr, String,
  ◌<>◌,
}
use pact_broker.Js.{text}
use pact_broker.Pagination.Container.{
  PluginData, Container, Answer, itself, type_error, Host, trigger, event_prefix,
}
use pact_broker.Pagination.Calls.{
  action, run_action, on_initialized, with_data, plugin, selected_page, total_page_of, disabled_of,
}
use pact_broker.Pagination.Calls.Tame.{IsTame}
use pact_broker.Pagination.Calls.Reached.{Reach, Reach-IsTame, trigger_unheard}

-- The names that ask for something that only the model holds.
pub data Question : String → Type 0 where
  selected : Question "getSelectedPageNum"
  total : Question "getTotalPage"
  is_disabled : Question "isDisabled"

-- The names of actions.
pub data Action : String → Type 0 where
  go : Action "go"
  previous : Action "previous"
  next : Action "next"
  disable : Action "disable"
  enable : Action "enable"
  refresh : Action "refresh"
  show : Action "show"
  hide : Action "hide"
  destroy : Action "destroy"

unset_of_IsTame :
    (c : Container) (d : PluginData)
    → IsTame c
    → c.data_of ≡ some d
    → (d.model ≡ none) × (d.attributes ≡ none)
unset_of_IsTame c d h e = (ground arith, ground arith)

selected_page_unset :
    (d : PluginData) → (d.model ≡ none) × (d.attributes ≡ none) → selected_page d ≡ type_error
unfolding selected_page
selected_page_unset d h = ground arith

total_page_of_unset :
    (d : PluginData) → (d.model ≡ none) × (d.attributes ≡ none) → total_page_of d ≡ type_error
unfolding total_page_of
total_page_of_unset d h = ground arith

disabled_of_unset :
    (d : PluginData) → (d.model ≡ none) × (d.attributes ≡ none) → disabled_of d ≡ type_error
unfolding disabled_of
disabled_of_unset d h = ground arith

run_action-Question :
    {name : String} (d : PluginData) (c : Container)
    → Question name
    → (d.model ≡ none) × (d.attributes ≡ none)
    → run_action name d c ≡ (c, type_error)
unfolding run_action
run_action-Question d c selected h = ap (λ (a : Answer). (c, a)) (selected_page_unset d h)
run_action-Question d c total h = ap (λ (a : Answer). (c, a)) (total_page_of_unset d h)
run_action-Question d c is_disabled h = ap (λ (a : Answer). (c, a)) (disabled_of_unset d h)

run_action-action :
    {name : String} (d : PluginData) (c : Container)
    → Action name
    → c.handlers ≡ []
    → run_action name d c ≡ (c, itself)
unfolding run_action
run_action-action d c go h = rw (trigger_unheard "__pagination-go" c h)
run_action-action d c previous h = rw (trigger_unheard "__pagination-previous" c h)
run_action-action d c next h = rw (trigger_unheard "__pagination-next" c h)
run_action-action d c disable h = rw (trigger_unheard "__pagination-disable" c h)
run_action-action d c enable h = rw (trigger_unheard "__pagination-enable" c h)
run_action-action d c refresh h = rw (trigger_unheard "__pagination-refresh" c h)
run_action-action d c show h = rw (trigger_unheard "__pagination-show" c h)
run_action-action d c hide h = rw (trigger_unheard "__pagination-hide" c h)
run_action-action d c destroy h = rw (trigger_unheard "__pagination-destroy" c h)

module _ (host : Host) {c : Container} (r : Reach host c) (d : PluginData) (e : c.data_of ≡ some d)
    (started : d.initialized ≡ true) where
  plugin_started :
      (name : String)
      → plugin host (action name) c ≡ (
          if host.is_numeric (text name)
          then (trigger (event_prefix <> "go") c, itself)
          else run_action name d c)
  unfolding plugin with_data on_initialized
  plugin_started name = ap (with_data host (action name) c) e ∙ simp started

  -- In a container that such calls lead to, and whose data says that the plug-in was started,
  -- asking for the selected page, for the number of pages or whether it is disabled is an error of
  -- type and changes nothing; the name asked with is supposed to be no numeral.
  pub Question-type_error :
      {name : String}
      → Question name
      → host.is_numeric (text name) ≡ false
      → plugin host (action name) c ≡ (c, type_error)
  Question-type_error {name} q word =
      plugin_started name
      ∙ rw word (run_action-Question d c q (unset_of_IsTame c d (Reach-IsTame host r) e))

  -- In a container that such calls lead to, and whose data says that the plug-in was started, each
  -- of the nine actions leaves the container as it was and returns it.
  pub action_unchanged : {name : String} → Action name → plugin host (action name) c ≡ (c, itself)
  action_unchanged {name} a =
      let unheard = (Reach-IsTame host r).unheard in
      plugin_started name ∙ (elim (Bool-cases (host.is_numeric (text name))) [
        | inl numeral ↦ rw (numeral, trigger_unheard (event_prefix <> "go") c unheard)
        | inr word ↦ rw word (run_action-action d c a unheard)
      ])
