-- ===== src/Pagination/Hooks/Laws.antt =====
-- Which hooks run, in which order, and when they stop the plug-in.
use pact_broker.Prelude.{
  String, false, not, ◌&&◌, Option, none, some, List, [], ◌∷◌, ◌++◌, map, ◌≡◌, any, str_eq, eq_iff,
  append_assoc, append-nil, arith, if◌then◌else◌,
}
use pact_broker.Pagination.Hooks.{
  Hook, Register, Outcome, hooks_of, each_hook, option_hook, call_hook, push_hook,
}

-- The hooks that an event reaches: the option's, then the registered ones.
abbrev pub hooks_for : (String → Option Hook) → Register → String → List Hook
hooks_for options register name =
    elim (options name) [ none ↦ [] | some hook ↦ hook ∷ [] ] ++ hooks_of name register

each_hook_lem :
    (hooks : List Hook) (result : Outcome)
    → each_hook hooks result ≡ record {
      proceeds = result.proceeds && not (any (λ h. h.refuses) hooks);
      called = result.called ++ map (λ h. h.id) hooks;
    }
unfolding each_hook
each_hook_lem [] result = ground (arith, append-nil result.called)
each_hook_lem (hook ∷ hooks) result =
    let next : Outcome = record {
      proceeds = if hook.refuses then false else result.proceeds;
      called = result.called ++ hook.id ∷ [];
    } in
    ground (
      arith,
      each_hook_lem hooks next,
      append_assoc result.called (hook.id ∷ []) (map (λ h. h.id) hooks),
    )

-- Every hook of the event is called, once and in order, whatever the others return; the plug-in goes
-- on exactly if none of them returns `false`.
pub call_hook_lem :
    (options : String → Option Hook) (register : Register) (name : String)
    → call_hook options register name ≡ record {
      proceeds = not (any (λ h. h.refuses) (hooks_for options register name));
      called = map (λ h. h.id) (hooks_for options register name);
    }
unfolding call_hook option_hook
call_hook_lem options register name =
    ground (arith, each_hook_lem (hooks_of name register) (option_hook (options name)))

-- Registering a hook adds it behind those of its name, and leaves the other names alone.
pub hooks_of-push_hook :
    (name other : String) (hook : Hook) (register : Register)
    → hooks_of other (push_hook name hook register) ≡ (
        if str_eq name other then hooks_of other register ++ hook ∷ [] else hooks_of other register)
unfolding hooks_of push_hook
hooks_of-push_hook name other hook [] = ground arith
hooks_of-push_hook name other hook ((key, hooks) ∷ rest) = ground (
  arith,
  eq_iff key name,
  eq_iff key other,
  eq_iff name other,
  hooks_of-push_hook name other hook rest,
)
