-- ===== src/Pagination/Instance/Laws.antt =====
-- What the methods of an instance keep and change.
use pact_broker.Prelude.{if◌then◌else◌, ℕ, ◌≤◌, ◌≡◌, Bool, true, false, not, max, keep, [], arith}
use pact_broker.Pagination.Container.{run_hook, is_owned}
use pact_broker.Pagination.Instance.{Instance, disable, enable, destroy, default_page}

-- Disabling sets, and enabling clears, the flag of the instance and that of its model if the hook before
-- it lets it proceed, and leaves both as they were if it does not.
pub disable-enable_flags :
    (i : Instance)
    → let disables = (run_hook i.config "beforeDisable" i.page).1 in
      let enables = (run_hook i.config "beforeEnable" i.page).1 in
      ((disable i).disabled ≡ (if disables then true else i.disabled))
      × ((disable i).model_disabled ≡ (if disables then true else i.model_disabled))
      × ((enable i).disabled ≡ (if enables then false else i.disabled))
      × ((enable i).model_disabled ≡ (if enables then false else i.model_disabled))
unfolding disable enable
disable-enable_flags i = ground arith

-- The page that is asked for at the start is a page, whatever page number is set.
pub default_page_bounds :
    (is_dynamic : Bool) (page_number total_page : ℕ)
    → 1 ≤ page_number
    → (1 ≤ default_page is_dynamic page_number total_page)
      × (default_page is_dynamic page_number total_page ≤ max total_page 1)
unfolding default_page
default_page_bounds is_dynamic page_number total_page h = ground arith

-- Destroying an instance takes its element and all handlers from the container if the hook before it lets
-- it proceed, and changes neither if it does not; whatever else is in the container stays.
pub destroy_lem :
    (i : Instance)
    → let proceeds = (run_hook i.config "beforeDestroy" i.page).1 in
      ((destroy i).page.children ≡ (
        if proceeds then keep (λ x. not (is_owned i.owner x)) i.page.children else i.page.children))
      × ((destroy i).page.handlers ≡ (if proceeds then [] else i.page.handlers))
unfolding destroy run_hook
destroy_lem i = (ground arith, ground arith)
