-- ===== src/Pagination/Calls/Registered.antt =====
-- Hooks from their registration on a container to their call.
use pact_broker.Prelude.{String, not, none, some, List, [], ◌∷◌, ◌++◌, map, ◌≡◌, refl, ap, ◌∙◌, any}
use pact_broker.Pagination.Hooks.{Hook, hooks_of}
use pact_broker.Pagination.Hooks.Laws.{hooks_for, call_hook_lem}
use pact_broker.Pagination.Hooks.History.{History, named, push_all, hooks_of-push_all}
use pact_broker.Pagination.Container.{Child, Container, Config, data_or_new, run_hook}
use pact_broker.Pagination.Calls.{add_hook}
use pact_broker.Pagination.Calls.Reached.{fresh}

-- `container.addHook(name, callback)`, again and again.
unfoldable pub add_all : History → Container → Container
unfolding add_hook
add_all [] c = c
add_all ((name, hook) ∷ history) c = add_all history (add_hook 2 name (some hook) c).0

hooks-add_all :
    (history : History) (c : Container)
    → (data_or_new (add_all history c)).hooks ≡ push_all history (data_or_new c).hooks
unfolding add_all push_all
hooks-add_all [] c = refl
hooks-add_all ((name, hook) ∷ history) c = hooks-add_all history (add_hook 2 name (some hook) c).0

called-add_all : (history : History) (c : Container) → (add_all history c).called ≡ c.called
unfolding add_all
called-add_all [] c = refl
called-add_all ((name, hook) ∷ history) c = called-add_all history (add_hook 2 name (some hook) c).0

-- The hooks that an event is to reach: that of the options, then those that were registered for it.
abbrev pub expected : Config → History → String → List Hook
expected config history name =
    elim (config.hooks name) [ none ↦ [] | some hook ↦ hook ∷ [] ] ++ named name history

-- On a container with no data, after any registrations, an event calls the hook of the options and then
-- exactly those that were registered under its name, in the order of their registration, and goes on
-- exactly if none of these refuses.
pub run_hook-add_all :
    (config : Config) (history : History) (name : String) (children : List Child)
    → let (after, proceeds) = run_hook config name (add_all history (fresh children)) in
      (after.called ≡ map (λ h. h.id) (expected config history name))
      × (proceeds ≡ not (any (λ h. h.refuses) (expected config history name)))
unfolding run_hook
run_hook-add_all config history name children =
    let c = add_all history (fresh children) in
    let hooks : hooks_for config.hooks (data_or_new c).hooks name ≡ expected config history name =
      ap (λ l. elim (config.hooks name) [ none ↦ [] | some hook ↦ hook ∷ [] ] ++ l)
        (ap (hooks_of name) (hooks-add_all history (fresh children))
          ∙ hooks_of-push_all name history []) in
    let outcome = call_hook_lem config.hooks (data_or_new c).hooks name in
    (rw (called-add_all history (fresh children), outcome, hooks), rw (outcome, hooks))
