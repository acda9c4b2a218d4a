-- ===== src/Pagination/Numbers/Order.antt =====
-- The page numbers ascend, and the current page is the only one that is no link.
use pact_broker.Prelude.{
  ℕ, zero, suc, ◌+◌, ◌-◌, ◌≤◌, ◌<◌, ◌≡◌, refl, List, [], ◌∷◌, ◌++◌, map, ◌==◌, arith, Bool-cases,
  Option-cases, inl, inr, ◌⊎◌, leb, keep, keep-append, between, count_up,
}
use pact_broker.Pagination.Options.{Attributes}
use pact_broker.Pagination.Window.{range_around}
use pact_broker.Pagination.Window.Bounds.{range_around_bounds, range_around_total}
use pact_broker.Pagination.Numbers.{
  Item, active, link, first, last, ellipsis, page_item, leading, trailing, page_numbers,
}
use pact_broker.Pagination.Numbers.Shown.{draws}

-- The numbers that are drawn ascend, from `low` on and below `high`.
abbrev pub AscendsIn : ℕ → ℕ → List Item → Type 0
AscendsIn low high [] = low ≤ high
AscendsIn low high (active i ∷ items) = (low ≤ i) × AscendsIn (suc i) high items
AscendsIn low high (link i ∷ items) = (low ≤ i) × AscendsIn (suc i) high items
AscendsIn low high (first ∷ items) = (low ≤ 1) × AscendsIn 2 high items
AscendsIn low high (last i ∷ items) = (low ≤ i) × AscendsIn (suc i) high items
AscendsIn low high (ellipsis ∷ items) = AscendsIn low high items

AscendsIn-append :
    (a b c : ℕ) (xs ys : List Item) → AscendsIn a b xs → AscendsIn b c ys → AscendsIn a c (xs ++ ys)
AscendsIn-append a b c [] ys h k = AscendsIn-weaken a b c ys h k
  where
    AscendsIn-weaken : (a b c : ℕ) (ys : List Item) → a ≤ b → AscendsIn b c ys → AscendsIn a c ys
    AscendsIn-weaken a b c [] h k = omega arith
    AscendsIn-weaken a b c (active i ∷ ys) h k = (omega arith, k.1)
    AscendsIn-weaken a b c (link i ∷ ys) h k = (omega arith, k.1)
    AscendsIn-weaken a b c (first ∷ ys) h k = (omega arith, k.1)
    AscendsIn-weaken a b c (last i ∷ ys) h k = (omega arith, k.1)
    AscendsIn-weaken a b c (ellipsis ∷ ys) h k = AscendsIn-weaken a b c ys h k
AscendsIn-append a b c (active i ∷ xs) ys h k = (h.0, AscendsIn-append (suc i) b c xs ys h.1 k)
AscendsIn-append a b c (link i ∷ xs) ys h k = (h.0, AscendsIn-append (suc i) b c xs ys h.1 k)
AscendsIn-append a b c (first ∷ xs) ys h k = (h.0, AscendsIn-append 2 b c xs ys h.1 k)
AscendsIn-append a b c (last i ∷ xs) ys h k = (h.0, AscendsIn-append (suc i) b c xs ys h.1 k)
AscendsIn-append a b c (ellipsis ∷ xs) ys h k = AscendsIn-append a b c xs ys h k

items-AscendsIn :
    (current a n b : ℕ) → a + n ≤ b → AscendsIn a b (map (page_item current) (count_up a n))
items-AscendsIn current a zero b h = omega arith
items-AscendsIn current a (suc n) b h =
    ground (arith, items-AscendsIn current (suc a) n b (omega arith))

links-AscendsIn : (a n b : ℕ) → a + n ≤ b → AscendsIn a b (map link (count_up a n))
links-AscendsIn a zero b h = omega arith
links-AscendsIn a (suc n) b h = (omega arith, links-AscendsIn (suc a) n b (omega arith))

leading-AscendsIn :
    (attributes : Attributes) (current start : ℕ)
    → 1 ≤ start
    → AscendsIn 1 start (leading attributes current start)
unfolding leading
leading-AscendsIn attributes current start h =
    ground (arith, items-AscendsIn current 1 (start - 1) start (omega arith))

trailing-AscendsIn :
    (attributes : Attributes) (total stop : ℕ)
    → stop ≤ total
    → AscendsIn (suc stop) (suc total) (trailing attributes total stop)
unfolding trailing
trailing-AscendsIn attributes total stop h =
    let next : stop + 1 ≡ suc stop = omega arith in
    elim (Bool-cases (leb total (stop + 2))) [
      | inl all ↦
          rw (all, next)
            (links-AscendsIn (suc stop) (suc total - suc stop) (suc total) (omega arith))
      | inr some_hidden ↦ ground arith
    ]

-- Whatever the current page is: of the pages that are drawn, each has a higher number than the one
-- before it, and all are among the pages.
pub page_numbers-AscendsIn :
    (attributes : Attributes) (total page_range current : ℕ)
    → AscendsIn 1
        (suc total)
        (page_numbers attributes total current (range_around total page_range current))
unfolding page_numbers
page_numbers-AscendsIn attributes total page_range current =
    let r = range_around total page_range current in
    let (low, ordered, high, some_shown) = range_around_total total page_range current in
    elim (Option-cases attributes.page_range) [
      | inl all ↦
          rw (all, page_numbers)
            (items-AscendsIn current 1 (suc total - 1) (suc total) (omega arith))
      | inr (n, e) ↦
          rw (e, page_numbers)
            (AscendsIn-append 1 r.start (suc total) (leading attributes current r.start) _
              (leading-AscendsIn attributes current r.start low)
              (AscendsIn-append r.start (suc r.stop) (suc total)
                (map (page_item current) (between r.start r.stop))
                (trailing attributes total r.stop)
                (items-AscendsIn current r.start (suc r.stop - r.start) (suc r.stop) (omega arith))
                (trailing-AscendsIn attributes total r.stop high)))
    ]

keep-draws_items_outside :
    (p current a n : ℕ)
    → (p < a) ⊎ (a + n ≤ p)
    → keep (draws p) (map (page_item current) (count_up a n)) ≡ []
keep-draws_items_outside p current a zero h = refl
keep-draws_items_outside p current a (suc n) h =
    ground (arith, keep-draws_items_outside p current (suc a) n)

keep-draws_items :
    (current a n : ℕ)
    → a ≤ current
    → current < a + n
    → keep (draws current) (map (page_item current) (count_up a n)) ≡ active current ∷ []
keep-draws_items current a zero h k = absurd (omega arith)
keep-draws_items current a (suc n) h k = elim (Bool-cases (a == current)) [
  | inl here ↦
      ground (arith, keep-draws_items_outside current current (suc a) n (inl (ground arith)))
  | inr later ↦ ground (arith, keep-draws_items current (suc a) n)
]

keep-draws_links : (p a n : ℕ) → p < a → keep (draws p) (map link (count_up a n)) ≡ []
keep-draws_links p a zero h = refl
keep-draws_links p a (suc n) h = ground (arith, keep-draws_links p (suc a) n)

keep-leading :
    (attributes : Attributes) (current start : ℕ)
    → 1 ≤ start
    → start ≤ current
    → keep (draws current) (leading attributes current start) ≡ []
unfolding leading
keep-leading attributes current start h k =
    ground (arith, keep-draws_items_outside current current 1 (start - 1) (inr (omega arith)))

keep-trailing :
    (attributes : Attributes) (current total stop : ℕ)
    → current ≤ stop
    → keep (draws current) (trailing attributes total stop) ≡ []
unfolding trailing
keep-trailing attributes current total stop h = elim (Bool-cases (leb total (stop + 2))) [
  | inl all ↦ rw all (keep-draws_links current (stop + 1) (suc total - (stop + 1)) (omega arith))
  | inr some_hidden ↦ ground arith
]

-- For a current page among the pages: of all that is drawn, exactly one item stands for the
-- current page, and it is the active one.
pub page_numbers-current :
    (attributes : Attributes) (total page_range current : ℕ)
    → 1 ≤ current
    → current ≤ total
    → keep
        (draws current)
        (page_numbers attributes total current (range_around total page_range current))
      ≡ active current ∷ []
unfolding page_numbers
page_numbers-current attributes total page_range current h k =
    let r = range_around total page_range current in
    let (low, left, right, high) = range_around_bounds total page_range current h k in
    let middle = map (page_item current) (between r.start r.stop) in
    let after = trailing attributes total r.stop in
    elim (Option-cases attributes.page_range) [
      | inl all ↦
          rw (all, page_numbers) (keep-draws_items current 1 (suc total - 1) h (omega arith))
      | inr (n, e) ↦ rw (
        e,
        page_numbers,
        keep-append (draws current) (leading attributes current r.start) (middle ++ after),
        keep-append (draws current) middle after,
        keep-leading attributes current r.start low left,
        keep-draws_items current r.start (suc r.stop - r.start) left (omega arith),
        keep-trailing attributes current total r.stop right,
      )
    ]
