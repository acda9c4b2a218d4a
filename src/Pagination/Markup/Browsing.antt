-- ===== src/Pagination/Markup/Browsing.antt =====
-- Following the Next button from page to page.
use pact_broker.Prelude.{
  ℕ, zero, suc, ◌+◌, ◌-◌, ◌≤◌, ◌≡◌, ap, true, List, [], ◌∷◌, arith, leb, leb→le, between,
  Bool-cases, inl, inr,
}
use pact_broker.Pagination.Options.{Attributes}
use pact_broker.Pagination.Markup.{Button, to, next_button}

follow : Button → (ℕ → List ℕ) → List ℕ
follow (to n) visit = visit n
follow _ visit = []

-- The pages that one sees, the current one first: at most so many clicks, and no click where there is no
-- link.
unfoldable pub browse : Attributes → (total_page clicks current : ℕ) → List ℕ
unfolding follow
browse a total_page zero current = current ∷ []
browse a total_page (suc clicks) current =
    current ∷ follow (next_button a total_page current) (browse a total_page clicks)

follow_last :
    (a : Attributes) (total_page current : ℕ) (visit : ℕ → List ℕ)
    → total_page ≤ current
    → follow (next_button a total_page current) visit ≡ []
unfolding next_button follow
follow_last a total_page current visit h = ground arith

next_button_inner :
    (a : Attributes) (total_page current : ℕ)
    → a.show_next ≡ true
    → suc current ≤ total_page
    → next_button a total_page current ≡ to (suc current)
unfolding next_button
next_button_inner a total_page current shown h = ground arith

-- Where the Next button is to be shown: from any page that is not past the last one, it leads in
-- turn to every later page and no other, and ends at the last; so many clicks as there are later
-- pages are enough, and more change nothing.
pub browse-between :
    (a : Attributes) (total_page clicks current : ℕ)
    → a.show_next ≡ true
    → current ≤ total_page
    → total_page ≤ current + clicks
    → browse a total_page clicks current ≡ between current total_page
unfolding browse follow
browse-between a total_page zero current shown h k =
    let one : suc total_page - current ≡ 1 = omega arith in rw one
browse-between a total_page (suc clicks) current shown h k =
    elim (Bool-cases (leb total_page current)) [
      | inl last ↦
          let one : suc total_page - current ≡ 1 = ground arith in
          rw (
            follow_last a total_page current (browse a total_page clicks)
                (leb→le total_page current last),
            one,
          )
      | inr inner ↦
          let later : suc current ≤ total_page = ground arith in
          let more : suc total_page - current ≡ suc (suc total_page - suc current) = omega arith in
          rw (next_button_inner a total_page current shown later, follow, more)
            (ap (λ l. current ∷ l)
              (browse-between a total_page clicks (suc current) shown later (omega arith)))
    ]
