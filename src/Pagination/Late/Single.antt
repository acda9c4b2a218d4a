-- ===== src/Pagination/Late/Single.antt =====
-- One element at a time, whenever the data come.
use pact_broker.Prelude.{
  ℕ, zero, suc, ◌≡◌, ◌≢◌, ◌∙◌, refl, Bool, true, false, Option, none, some, List, [], ◌∷◌, All,
  is_absent, if◌then◌else◌, Option-cases, inl, inr, String,
}
use pact_broker.Js.{Value, Items, array}
use pact_broker.Pagination.Hooks.{Hook}
use pact_broker.Pagination.Container.{Child, Container, Host, data_or_new}
use pact_broker.Pagination.Calls.{
  Argument, absent, page, action, settings, illegal, plugin, add_hook,
}
use pact_broker.Pagination.Calls.Tame.{navs, IsTame, PageIsTame}
use pact_broker.Pagination.Calls.Reached.{
  fresh, Reach, Reach-IsTame, plugin-IsTame, add_hook-IsTame,
}
use pact_broker.Pagination.Calls.Quiet.{is_start}
use pact_broker.Pagination.Late.{
  Callback, Page, Event, call, hook, late, callback_at, set_callback, step, run,
}
use pact_broker.Pagination.Late.Owned.{
  Owns, start-Owns, add_hook-PageIsTame, plugin-PageIsTame, deliver-Owns, deliver-started,
}

-- The container, and the callback of the latest start.
record IsSingle (s : Page) : Type 0 where
  tame : IsTame s.container
  latest : Owns s.container (callback_at 0 s.starts)

-- Data that come late belong to the latest start.
abbrev pub is_timely : Event → Bool
is_timely (late (suc k) v) = false
is_timely _ = true

Owns-map :
    (o : Option Callback) (c next : Container)
    → ((owner : ℕ) → PageIsTame owner c → PageIsTame owner next)
    → Owns c o
    → Owns next o
Owns-map none c next f h = tt
Owns-map (some p) c next f h = f p.el.owner h

callback_at-set :
    (q : Callback) (starts : List (Option Callback)) {p : Callback}
    → callback_at 0 starts ≡ some p
    → callback_at 0 (set_callback 0 q starts) ≡ some q
unfolding set_callback
callback_at-set q [] h = absurd (is_absent h)
callback_at-set q (o ∷ starts) h = refl

module _ (host : Host) where
  -- A call that starts nothing leaves the callbacks as they are.
  kept :
      (argument : Argument) (s : Page)
      → is_start argument ≡ false
      → IsSingle s
      → IsSingle (record s { container = (plugin host argument s.container).0 })
  kept argument s e h = record {
    tame = plugin-IsTame host argument s.container h.tame;
    latest =
        Owns-map (callback_at 0 s.starts) s.container (plugin host argument s.container).0
          (λ owner. plugin-PageIsTame host argument owner s.container e) h.latest;
  }

  call-IsSingle :
      (argument : Argument) (s : Page) → IsSingle s → IsSingle (step host (call argument) s)
  unfolding step
  call-IsSingle (settings config) s h = record {
    tame = plugin-IsTame host (settings config) s.container h.tame;
    latest = start-Owns host config s.container h.tame;
  }
  call-IsSingle absent s h = kept absent s refl h
  call-IsSingle (page n) s h = kept (page n) s refl h
  call-IsSingle (action name) s h = kept (action name) s refl h
  call-IsSingle illegal s h = kept illegal s refl h

  hook-IsSingle :
      (arguments : ℕ) (name : String) (callback : Option Hook) (s : Page)
      → IsSingle s
      → IsSingle (step host (hook arguments name callback) s)
  unfolding step
  hook-IsSingle arguments name callback s h = record {
    tame = add_hook-IsTame arguments name callback s.container h.tame;
    latest =
        Owns-map (callback_at 0 s.starts) s.container
          (add_hook arguments name callback s.container).0
          (λ owner. add_hook-PageIsTame owner arguments name callback s.container) h.latest;
  }

  late-IsSingle : (v : Value) (s : Page) → IsSingle s → IsSingle (step host (late 0 v) s)
  unfolding step
  late-IsSingle v s h = elim (Option-cases (callback_at 0 s.starts)) [
    | inl none_there ↦ rw (none_there, step) h
    | inr (p, there) ↦
        let (tame, owned) = deliver-Owns host p v s.container (rw there at h.latest) in
        rw (there, step)
          (record { tame = tame; latest = rw (callback_at-set _ s.starts there) owned })
  ]

  step-IsSingle :
      (e : Event) (s : Page) → is_timely e ≡ true → IsSingle s → IsSingle (step host e s)
  step-IsSingle (call argument) s t h = call-IsSingle argument s h
  step-IsSingle (hook arguments name callback) s t h = hook-IsSingle arguments name callback s h
  step-IsSingle (late zero v) s t h = late-IsSingle v s h
  step-IsSingle (late (suc k) v) s t h = absurd (cc)

  run-IsSingle :
      (events : List Event) (s : Page)
      → All (λ e. is_timely e ≡ true) events
      → IsSingle s
      → IsSingle (run host events s)
  unfolding run
  run-IsSingle [] s timely h = h
  run-IsSingle (e ∷ events) s (t, timely) h =
      run-IsSingle events (step host e s) timely (step-IsSingle e s t h)

  -- What such events lead to from a container that never saw the plug-in.
  abbrev pub after : List Child → List Event → Page
  after children events = run host events (record { container = fresh children; starts = [] })

  after-IsSingle :
      (children : List Child) (events : List Event)
      → navs children ≡ 0
      → All (λ e. is_timely e ≡ true) events
      → IsSingle (after children events)
  after-IsSingle children events empty timely =
      run-IsSingle events (record { container = fresh children; starts = [] }) timely
        (record { tame = Reach-IsTame host (Reach.begin children empty); latest = tt })

  -- In a container that comes with no data, no handlers and no element of the plug-in, there is one element
  -- of it if its data say that the plug-in was started, and none if not, after any calls of the plug-in,
  -- registrations of hooks, and data that a function hands over, within its start or later and any number
  -- of times, if the data that come later are those of the latest start.
  pub navs-run :
      (children : List Child) (events : List Event)
      → navs children ≡ 0
      → All (λ e. is_timely e ≡ true) events
      → let c = (after children events).container in
        navs c.children ≡ (if (data_or_new c).initialized then 1 else 0)
  navs-run children events empty timely =
      (after-IsSingle children events empty timely).tame.nav_count

  -- After any such course: if the latest start, with a page size that is not 0, gave its callback to a
  -- function, then an array that the function hands over later is drawn. The plug-in is started, and there
  -- is one element of it, even if others were drawn before.
  pub navs-late :
      (children : List Child) (events : List Event) {p : Callback}
      → navs children ≡ 0
      → All (λ e. is_timely e ≡ true) events
      → callback_at 0 (after children events).starts ≡ some p
      → p.config.attributes.page_size ≢ 0
      → (items : Items)
      → let c = (step host (late 0 (array items)) (after children events)).container in
        ((data_or_new c).initialized ≡ true) × (navs c.children ≡ 1)
  unfolding step
  navs-late children events {p} empty timely there sized items =
      let s = after children events in
      let started : (data_or_new (step host (late 0 (array items)) s).container).initialized
          ≡ true =
        rw (there, step) (deliver-started host p items s.container sized) in
      let next = late-IsSingle (array items) s (after-IsSingle children events empty timely) in
      (started, next.tame.nav_count ∙ rw started refl)
