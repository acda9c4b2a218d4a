-- ===== src/Deletion/PactPage/Options/Within.antt =====
-- The page of a pact with its menus: which pacts it deletes.
use pact_broker.Prelude.{
  some_inj, ℕ, zero, suc, String, ◌≡◌, refl, sym, subst, ap, ◌∙◌, Option, none, some, List, [], ◌∷◌,
  ◌++◌, ◌==◌, Bool-cases, inl, inr, All,
}
use pact_broker.Menu.Items.{Call, click, make_item, make_items, kind_of}
use pact_broker.Menu.Store.{Store}
use pact_broker.Menu.Parents.Own.{new_menu}
use pact_broker.Menu.Owners.{
  Screen, pair_up, owner_of, settings_click, entry_click, menu_event, page_event,
}
use pact_broker.Menu.Owners.Projected.{Entries, run_page, projected, IsOn}
use pact_broker.Menu.Owners.Projected as Projected
use pact_broker.Menu.Owners as Owners
use pact_broker.Deletion.Message.{Printer}
use pact_broker.Deletion.PactPage.{PactData, Page, choose, pressed, success, failure}
use pact_broker.Deletion.PactPage as PactPage
use pact_broker.Deletion.PactPage.Chosen.{ChoosesIn, requests-run-All}
use pact_broker.Deletion.PactPage.Options.{
  BadgedPage, BadgedEvent, badge_click, pact_event, badged_step, options_settings, ready,
  call_entry, Event, run,
}

-- What a click on an entry asks: the first chooses the pact.
abbrev asked_by : ℕ → Option PactData → List BadgedEvent
asked_by k none = []
asked_by zero (some d) = pact_event (choose d) ∷ []
asked_by (suc k) (some d) = []

abbrev entry_call : ℕ → Option Call
entry_call zero = some (record { item = 0; told = none })
entry_call (suc k) = none

click-entries :
    (key k : ℕ)
    → click k (new_menu "overlay" options_settings key).items
      ≡ ((new_menu "overlay" options_settings key).items, entry_call k)
unfolding click make_items make_item kind_of
click-entries key zero = refl
click-entries key (suc k) = refl

module _ (h : String → String) (printer : Printer) where
  call_entry_asks :
      (k : ℕ) (d : PactData) (v : BadgedPage)
      → run_page (badged_step h printer) (asked_by k (some d)) v
        ≡ call_entry h (entry_call k) (some d) v
  unfolding call_entry run_page badged_step PactPage.step
  call_entry_asks zero d v = refl
  call_entry_asks (suc k) d v = refl

  call_entry_rests : (call : Option Call) (v : BadgedPage) → v ≡ call_entry h call none v
  unfolding call_entry
  call_entry_rests none v = refl
  call_entry_rests (some call) v = refl

  entries : Entries PactData BadgedPage BadgedEvent
  unfolding run_page
  entries = record {
    settings = options_settings;
    call_entry = call_entry h;
    page_step = badged_step h printer;
    entry_call = entry_call;
    asked = asked_by;
    calls = click-entries;
    asks = call_entry_asks;
    rests = λ k call v. call_entry_rests call v;
  }

  -- The page of the pact goes its way without the badge.
  abbrev pact_events : List BadgedEvent → List PactPage.Event
  pact_events [] = []
  pact_events (badge_click ∷ events) = pact_events events
  pact_events (pact_event e ∷ events) = e ∷ pact_events events

  run-pact_events :
      (events : List BadgedEvent) (v : BadgedPage)
      → (run_page (badged_step h printer) events v).pact
        ≡ PactPage.run h printer (pact_events events) v.pact
  unfolding run_page badged_step PactPage.run
  run-pact_events [] v = refl
  run-pact_events (badge_click ∷ events) v =
      run-pact_events events (badged_step h printer badge_click v)
  run-pact_events (pact_event e ∷ events) v =
      run-pact_events events (badged_step h printer (pact_event e) v)

  module _ (P : String → Type 0) where
    -- Only the entries of the menus choose a pact.
    abbrev pub IsByMenu : Event → Type 0
    IsByMenu (page_event (pact_event (choose d))) = ⊥
    IsByMenu _ = Unit

    owner_of-All :
        (keys : List ℕ) (pacts : List PactData) (key : ℕ) (d : PactData)
        → All (λ d. P d.pact_url) pacts
        → owner_of key (pair_up keys pacts) ≡ some d
        → P d.pact_url
    owner_of-All [] pacts key d all o = absurd cc
    owner_of-All (n ∷ keys) [] key d all o = absurd cc
    owner_of-All (n ∷ keys) (e ∷ pacts) key d all o = elim (Bool-cases (n == key)) [
      | inl here ↦ subst (λ f. P f.pact_url) (some_inj (rw here at o)) all.0
      | inr other ↦ owner_of-All keys pacts key d all.1 (rw other at o)
    ]

    asked_by-ChoosesIn :
        (k : ℕ) (owner : Option PactData) (rest : List BadgedEvent)
        → ((d : PactData) → owner ≡ some d → P d.pact_url)
        → All (ChoosesIn P) (pact_events rest)
        → All (ChoosesIn P) (pact_events (asked_by k owner ++ rest))
    asked_by-ChoosesIn k none rest own all = all
    asked_by-ChoosesIn zero (some d) rest own all = (own d refl, all)
    asked_by-ChoosesIn (suc k) (some d) rest own all = all

    projected-ChoosesIn :
        (events : List Event) (owners : List (ℕ × PactData))
        → ((key : ℕ) (d : PactData) → owner_of key owners ≡ some d → P d.pact_url)
        → All IsByMenu events
        → All (ChoosesIn P) (pact_events (projected asked_by owners events))
    projected-ChoosesIn [] owners own menu = tt
    projected-ChoosesIn (settings_click key ∷ events) owners own menu =
        projected-ChoosesIn events owners own menu.1
    projected-ChoosesIn (entry_click key k ∷ events) owners own menu =
        asked_by-ChoosesIn k (owner_of key owners) _ (own key)
          (projected-ChoosesIn events owners own menu.1)
    projected-ChoosesIn (menu_event key e ∷ events) owners own menu =
        projected-ChoosesIn events owners own menu.1
    projected-ChoosesIn (page_event badge_click ∷ events) owners own menu =
        projected-ChoosesIn events owners own menu.1
    projected-ChoosesIn (page_event (pact_event (choose d)) ∷ events) owners own menu =
        absurd menu.0
    projected-ChoosesIn (page_event (pact_event (pressed b)) ∷ events) owners own menu =
        (tt, projected-ChoosesIn events owners own menu.1)
    projected-ChoosesIn (page_event (pact_event (success k body)) ∷ events) owners own menu =
        (tt, projected-ChoosesIn events owners own menu.1)
    projected-ChoosesIn (page_event (pact_event (failure k response)) ∷ events) owners own menu =
        (tt, projected-ChoosesIn events owners own menu.1)

    -- When the page is ready and no confirmation is open, whatever happens on it, as long as only the menus
    -- choose what is to be deleted, and the elements that are clicked and the menus that something happens
    -- to are those of its pacts: there is no error of the menus, and where the addresses of all its
    -- pacts, and of the requests before, are in a set, all requests that are sent go to addresses of the set.
    pub requests-run-ready :
        (events : List Event) (pacts : List PactData) (s : Store) (v : BadgedPage)
        → let x = (ready pacts s v).0 in
          v.pact.dialog ≡ none
          → All IsByMenu events
          → All (IsOn x.owners) events
          → All (λ d. P d.pact_url) pacts
          → All P v.pact.requests
          → (after : Screen PactData BadgedPage) × (run h printer events x ≡ some after)
            × All P after.page.pact.requests
    unfolding ready run entries Owners.ready
    requests-run-ready events pacts s v closed menu on pacts_in sent =
        let x = (ready pacts s v).0 in
        let asked = projected asked_by x.owners events in
        let (after, runs, page) = Projected.run-ready-projected entries events pacts s v on in
        let same : after.page.pact ≡ PactPage.run h printer (pact_events asked) v.pact =
          ap (λ (w : BadgedPage). w.pact) page ∙ run-pact_events asked v in
        let chosen =
          projected-ChoosesIn events x.owners (λ key d o. owner_of-All _ pacts key d pacts_in o)
            menu in
        (
          after,
          runs,
          subst (λ (q : Page). All P q.requests) (sym same)
              (requests-run-All P h printer (pact_events asked) v.pact closed chosen sent),
        )
