-- ===== src/Pagination/Load.antt =====
-- What public/javascripts/pagination.js does when it is loaded: it gives jQuery its two plug-ins, under
-- another name if there is a plug-in "pagination" already.
use pact_broker.Prelude.{
  ℕ, String, Option, none, some, ◌≡◌, refl, str_eq, if◌then◌else◌, Option-cases, inl, inr,
}

-- `$.fn`: the plug-ins by their names, each known by a number.
abbrev pub Plugins : Type 0
Plugins = String → Option ℕ

abbrev plugin_hook_method : String
plugin_hook_method = "addHook"

unfoldable pub plugin_name : Plugins → String
plugin_name fn = elim (fn "pagination") [ none ↦ "pagination" | some p ↦ "pagination2" ]

-- `$.fn[name] = p`.
abbrev assigned : String → ℕ → Plugins → Plugins
assigned name p fn key = if str_eq name key then some p else fn key

-- The numbers are those of the functions that `$.fn.pagination` and `$.fn.addHook` become; without jQuery
-- there is an error, and `none`.
unfoldable pub load : (pagination add_hook : ℕ) → Option Plugins → Option Plugins
unfolding plugin_name
load pagination add_hook none = none
load pagination add_hook (some fn) =
    some (assigned plugin_hook_method add_hook (assigned (plugin_name fn) pagination fn))

-- A plug-in "pagination" that is there stays what it is, and the new one is found as "pagination2"; where
-- there is none, the new one gets the name.
pub load-plugin_name :
    (p h : ℕ) (fn : Plugins)
    → (after : Plugins) × (load p h (some fn) ≡ some after)
      × (after (plugin_name fn) ≡ some p)
      × (after "pagination" ≡ elim (fn "pagination") [ none ↦ some p | some old ↦ some old ])
unfolding load plugin_name
load-plugin_name p h fn = elim (Option-cases (fn "pagination")) [
  | inl free ↦ (_, refl, rw (free, plugin_name) refl, rw (free, plugin_name) refl)
  | inr (old, taken) ↦ (_, refl, rw (taken, plugin_name) refl, rw (taken, plugin_name) refl)
]
