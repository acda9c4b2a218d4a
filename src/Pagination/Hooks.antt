-- ===== src/Pagination/Hooks.antt =====
-- The hooks of public/javascripts/pagination.js: `callHook`, and `addHook`, the hook register.
pub mod Laws
pub mod History
use pact_broker.Prelude.{
  ℕ, String, Bool, true, false, not, ◌&&◌, ◌||◌, Option, none, some, List, [], ◌∷◌, ◌++◌, str_eq,
  if◌then◌else◌,
}

-- A function of the page, known by a number, and whether its call returns `false`. Its arguments
-- are handed through and left out.
pub record Hook : Type 0 where
  pub id : ℕ
  pub refuses : Bool

-- `paginationData.hooks`: the hooks of each name, in the order of their registration.
abbrev pub Register : Type 0
Register = List (String × List Hook)

unfoldable pub hooks_of : String → Register → List Hook
hooks_of name [] = []
hooks_of name ((key, hooks) ∷ rest) = if str_eq key name then hooks else hooks_of name rest

-- The answer of `callHook`, and the hooks that it called, in order.
pub record Outcome : Type 0 where
  pub proceeds : Bool
  pub called : List ℕ

-- `$.each` over the registered hooks. It passes over the callback's own result, so all are called.
each_hook : List Hook → Outcome → Outcome
each_hook [] result = result
each_hook (hook ∷ hooks) result = each_hook hooks (record {
  proceeds = if hook.refuses then false else result.proceeds;
  called = result.called ++ hook.id ∷ [];
})

option_hook : Option Hook → Outcome
option_hook none = record { proceeds = true; called = [] }
option_hook (some hook) = record { proceeds = not hook.refuses; called = hook.id ∷ [] }

-- The option of that name is called first, then what is registered.
unfoldable pub call_hook : (String → Option Hook) → Register → String → Outcome
unfolding each_hook option_hook hooks_of
call_hook options register name = each_hook (hooks_of name register) (option_hook (options name))

-- `paginationData.hooks[hook].push(callback)`, with a list of its own for a new name. Names that every
-- object has, such as "constructor", are left out: there `push` is no function, and the call throws.
unfoldable pub push_hook : String → Hook → Register → Register
push_hook name hook [] = (name, hook ∷ []) ∷ []
push_hook name hook ((key, hooks) ∷ rest) =
    if str_eq key name
    then (key, hooks ++ hook ∷ []) ∷ rest
    else (key, hooks) ∷ push_hook name hook rest
