-- ===== src/Pagination/Markup/Navigation.antt =====
-- The Previous and the Next button.
use pact_broker.Prelude.{ℕ, ◌≤◌, ◌≡◌, ◌↔◌, true, arith}
use pact_broker.Pagination.Options.{Attributes}
use pact_broker.Pagination.Markup.{to, previous_button, next_button}

-- Where both buttons are to be shown, the Next button of a page from 1 on links to `n` exactly if
-- the Previous button of `n` links to that page and `n` is no higher than the last page.
pub next-previous :
    (a : Attributes) (total_page current n : ℕ)
    → a.show_previous ≡ true
    → a.show_next ≡ true
    → 1 ≤ current
    → (next_button a total_page current ≡ to n)
      ↔ ((previous_button a n ≡ to current) × (n ≤ total_page))
unfolding previous_button next_button
next-previous a total_page current n p q h = (λ e. ground arith, λ e. ground arith)
