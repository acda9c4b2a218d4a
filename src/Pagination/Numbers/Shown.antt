-- ===== src/Pagination/Numbers/Shown.antt =====
-- Which page numbers are drawn, in which order, and which of them are links.
use pact_broker.Prelude.{
  ℕ, zero, suc, ◌+◌, ◌-◌, ◌≤◌, ◌≡◌, Bool, true, false, ◌&&◌, ◌||◌, some, Option, none, Option-cases,
  inl, inr, ap, sym, ◌∙◌, ◌++◌, map, ◌==◌, leb, ltb, if◌then◌else◌, arith, any, any-append, between,
  count_up,
}
use pact_broker.Pagination.Options.{Attributes}
use pact_broker.Pagination.Render.{range_or_zero}
use pact_broker.Pagination.Window.{Range, range_around}
use pact_broker.Pagination.Window.Bounds.{range_around_total}
use pact_broker.Pagination.Numbers.{
  Item, active, link, first, last, ellipsis, page_item, leading, trailing, page_numbers,
}

-- Whether an item is drawn for the page `p`.
abbrev pub draws : ℕ → Item → Bool
draws p (active i) = p == i
draws p (link i) = p == i
draws p first = p == 1
draws p (last i) = p == i
draws p ellipsis = false

any-draws_items :
    (p current a n : ℕ)
    → any (draws p) (map (page_item current) (count_up a n)) ≡ (leb a p && ltb p (a + n))
any-draws_items p current a zero = ground arith
any-draws_items p current a (suc n) = ground (arith, any-draws_items p current (suc a) n)

any-draws_links : (p a n : ℕ) → any (draws p) (map link (count_up a n)) ≡ (leb a p && ltb p (a + n))
any-draws_links p a zero = ground arith
any-draws_links p a (suc n) = ground (arith, any-draws_links p (suc a) n)

any-leading :
    (attributes : Attributes) (p current start : ℕ)
    → 1 ≤ start
    → any (draws p) (leading attributes current start) ≡ (
        if leb start 3
        then leb 1 p && ltb p start
        else p == 1 && attributes.show_first_on_ellipsis_show)
unfolding leading
any-leading attributes p current start h = ground (arith, any-draws_items p current 1 (start - 1))

any-trailing :
    (attributes : Attributes) (p total stop : ℕ)
    → any (draws p) (trailing attributes total stop) ≡ (
        if leb total (stop + 2)
        then leb (stop + 1) p && leb p total
        else p == total && attributes.show_last_on_ellipsis_show)
unfolding trailing
any-trailing attributes p total stop =
    ground (arith, any-draws_links p (stop + 1) (suc total - (stop + 1)))

-- Where `p` stands: in the range, or on a side that is drawn in full, or at an end that is drawn.
abbrev pub is_drawn : Attributes → (total p : ℕ) → Range → Bool
is_drawn attributes total p r =
    if ltb p r.start
    then leb 1 p && (leb r.start 3 || p == 1 && attributes.show_first_on_ellipsis_show)
    else if leb p r.stop
    then true
    else leb p total
      && (leb total (r.stop + 2) || p == total && attributes.show_last_on_ellipsis_show)

-- Where a page range is set, and whatever the current page is, exactly these pages are drawn: all
-- in the range around the current page; those before it, if they are at most two, and else the
-- first, if it is to be shown; those after it, if they are at most two, and else the last, if it
-- is to be shown.
pub page_numbers-drawn :
    (attributes : Attributes) (total page_range current p : ℕ)
    → attributes.page_range ≡ some page_range
    → let r = range_around total page_range current in
      any (draws p) (page_numbers attributes total current r) ≡ is_drawn attributes total p r
unfolding page_numbers
page_numbers-drawn attributes total page_range current p e =
    let r = range_around total page_range current in
    let (low, ordered, high, some_shown) = range_around_total total page_range current in
    let middle = map (page_item current) (between r.start r.stop) in
    let after = trailing attributes total r.stop in
    rw
      (
        e,
        page_numbers,
        any-append (draws p) (leading attributes current r.start) (middle ++ after),
        any-append (draws p) middle after,
        any-leading attributes p current r.start low,
        any-draws_items p current r.start (suc r.stop - r.start),
        any-trailing attributes p total r.stop,
      )
      (ground arith)

-- Where no page range is set, all pages are to be drawn.
abbrev pub is_expected : Attributes → (total current p : ℕ) → Bool
is_expected attributes total current p = elim attributes.page_range [
  | none ↦ leb 1 p && leb p total
  | some page_range ↦ is_drawn attributes total p (range_around total page_range current)
]

-- Whatever the current page is: where no page range is set, exactly the pages from 1 to the last are drawn;
-- where one is set, exactly these: all in the range around the current page; those before it, if they
-- are at most two, and else the first, if it is to be shown; those after it, if they are at most two,
-- and else the last, if it is to be shown.
pub page_numbers-expected :
    (attributes : Attributes) (total current p : ℕ)
    → any (draws p) (
        page_numbers attributes total current
          (range_around total (range_or_zero attributes.page_range) current))
      ≡ is_expected attributes total current p
unfolding page_numbers
page_numbers-expected attributes total current p = elim (Option-cases attributes.page_range) [
  | inl unset ↦
      rw (unset, page_numbers) (any-draws_items p current 1 (suc total - 1) ∙ ground arith)
  | inr (page_range, set) ↦
      ap
        (λ (o : Option ℕ).
          any (draws p)
            (page_numbers attributes total current (range_around total (range_or_zero o) current)))
        set
      ∙ page_numbers-drawn attributes total page_range current p set
      ∙ ap
          (λ (o : Option ℕ). elim o [
            | none ↦ leb 1 p && leb p total
            | some n ↦ is_drawn attributes total p (range_around total n current)
          ])
          (sym set)
]
