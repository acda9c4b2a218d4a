-- ===== src/Pagination/Hooks/History.antt =====
-- The register of hooks against the list of all registrations.
use pact_broker.Prelude.{
  String, Bool, true, false, List, [], ◌∷◌, ◌++◌, ◌≡◌, refl, ap, ◌∙◌, str_eq, append_assoc,
  append-nil, if◌then◌else◌,
}
use pact_broker.Pagination.Hooks.{Hook, Register, hooks_of, push_hook}
use pact_broker.Pagination.Hooks.Laws.{hooks_of-push_hook}

-- Every registration, with its name, in the order in which they were made.
abbrev pub History : Type 0
History = List (String × Hook)

-- The hooks that were registered under a name.
abbrev pub named : String → History → List Hook
named name [] = []
named name ((key, hook) ∷ history) =
    if str_eq key name then hook ∷ named name history else named name history

unfoldable pub push_all : History → Register → Register
push_all [] register = register
push_all ((key, hook) ∷ history) register = push_all history (push_hook key hook register)

pub hooks_of-push_all :
    (name : String) (history : History) (register : Register)
    → hooks_of name (push_all history register) ≡ hooks_of name register ++ named name history
unfolding push_all
hooks_of-push_all name [] register = rw (append-nil (hooks_of name register))
hooks_of-push_all name ((key, hook) ∷ history) register =
    hooks_of-push_all name history (push_hook key hook register)
    ∙ ap (λ l. l ++ named name history) (hooks_of-push_hook key name hook register)
    ∙ joined (str_eq key name)
  where
    joined :
        (b : Bool)
        → (if b then hooks_of name register ++ hook ∷ [] else hooks_of name register)
            ++ named name history
          ≡ hooks_of name register ++ (if b then hook ∷ named name history else named name history)
    joined true = append_assoc (hooks_of name register) (hook ∷ []) (named name history)
    joined false = refl
