-- ===== src/Pagination/Calls/Tame.antt =====
-- What the calls of the plug-in keep: at most one element in the container, and no model.
use pact_broker.Prelude.{
  ℕ, ◌+◌, ◌≡◌, refl, ◌∙◌, sym, subst, Bool, true, false, not, ◌&&◌, Option, none, some, List, [],
  ◌∷◌, ◌++◌, arith, any, keep, length, keep-append, length-append, any-append, if◌then◌else◌,
  Option-cases, inl, inr, String,
}
use pact_broker.Js.{is_array}
use pact_broker.Pagination.Source.{Result, ok, err, Parsed}
use pact_broker.Pagination.Options.{Attributes}
use pact_broker.Pagination.Render.{Nav, render}
use pact_broker.Pagination.Container.{
  Child, nav, other, Container, Answer, itself, Host, is_nav, is_owned, data_or_new, Config,
  run_hook, place, add_class, element_of,
}
use pact_broker.Pagination.Initialize.{Round, finish, draw, draw_all}

abbrev pub navs : List Child → ℕ
navs children = length (keep is_nav children)

-- An element that is not of this call.
abbrev pub stray : ℕ → Child → Bool
stray owner x = is_nav x && not (is_owned owner x)

navs-not_owned :
    (owner : ℕ) (children : List Child)
    → any (stray owner) children ≡ false
    → navs (keep (λ x. not (is_owned owner x)) children) ≡ 0
navs-not_owned owner [] h = refl
navs-not_owned owner (nav el ∷ children) h = ground (arith, navs-not_owned owner children)
navs-not_owned owner (other n ∷ children) h = ground (arith, navs-not_owned owner children)

pub stray_of_navs :
    (owner : ℕ) (children : List Child) → navs children ≡ 0 → any (stray owner) children ≡ false
stray_of_navs owner [] h = refl
stray_of_navs owner (nav el ∷ children) h = absurd (omega arith)
stray_of_navs owner (other n ∷ children) h = stray_of_navs owner children h

navs-append : (xs ys : List Child) → navs (xs ++ ys) ≡ navs xs + navs ys
navs-append xs ys = rw (keep-append is_nav xs ys) (length-append (keep is_nav xs) (keep is_nav ys))

-- Placing an element leaves it as the only one, if the others in the container are of its own call.
navs-place :
    (a : Attributes) (el : Nav) (children : List Child)
    → any (stray el.owner) children ≡ false
    → navs (place a el children) ≡ 1
navs-place a el children h =
    let others = keep (λ x. not (is_owned el.owner x)) children in
    ground (arith, navs-not_owned el.owner children h, navs-append others (nav el ∷ []))

stray-place :
    (a : Attributes) (el : Nav) (children : List Child)
    → any (stray el.owner) children ≡ false
    → any (stray el.owner) (place a el children) ≡ false
stray-place a el children h =
    let others = keep (λ x. not (is_owned el.owner x)) children in
    ground (
      arith,
      stray_of_navs el.owner others (navs-not_owned el.owner children h),
      any-append (stray el.owner) others (nav el ∷ []),
    )

abbrev pub expected_navs : Container → ℕ
expected_navs c = if (data_or_new c).initialized then 1 else 0

-- One element if the plug-in was started in the container, and none if not; no model, no attributes
-- and nobody who listens.
pub record IsTame (c : Container) : Type 0 where
  pub model_unset : (data_or_new c).model ≡ none
  pub attributes_unset : (data_or_new c).attributes ≡ none
  pub unheard : c.handlers ≡ []
  pub nav_count : navs c.children ≡ expected_navs c

abbrev pub IsOwn : ℕ → Option Nav → Type 0
IsOwn owner none = Unit
IsOwn owner (some el) = el.owner ≡ owner

-- A page in the course of the call `owner`: all its elements are of that call.
pub record PageIsTame (owner : ℕ) (c : Container) : Type 0 where
  pub tame : IsTame c
  pub count : c.calls ≡ owner
  pub clean : any (stray owner) c.children ≡ false

pub record RoundIsTame (owner : ℕ) (s : Round) : Type 0 where
  pub page : PageIsTame owner s.page
  pub own : IsOwn owner s.el

pub run_hook-PageIsTame :
    (config : Config) (name : String) (owner : ℕ) (c : Container)
    → PageIsTame owner c
    → PageIsTame owner (run_hook config name c).0
unfolding run_hook
run_hook-PageIsTame config name owner c h = record {
  tame = record {
    model_unset = h.tame.model_unset;
    attributes_unset = h.tame.attributes_unset;
    unheard = h.tame.unheard;
    nav_count = h.tame.nav_count;
  };
  count = h.count;
  clean = h.clean;
}

owner-add_class : (name : Option String) (el : Nav) → (add_class name el).owner ≡ el.owner
owner-add_class none el = refl
owner-add_class (some name) el = ground arith

owner-render :
    (host : Host) (a : Attributes) (total : Option ℕ) (el : Nav) {drawn : Nav}
    → render host.replace a total el ≡ some drawn
    → drawn.owner ≡ el.owner
unfolding render
owner-render host a total el h = ground arith

pub owner-element_of :
    (owner : ℕ) (el : Option Nav) → IsOwn owner el → (element_of owner el).owner ≡ owner
owner-element_of owner none h = refl
owner-element_of owner (some el) h = h

finish-RoundIsTame :
    (config : Config) (el : Nav) (total : Option ℕ) (owner : ℕ) (c : Container)
    → el.owner ≡ owner
    → PageIsTame owner c
    → RoundIsTame owner (finish config el total c)
finish-RoundIsTame config el total owner c e h =
    let shown = add_class config.attributes.class_name el in
    let same : shown.owner ≡ owner = owner-add_class config.attributes.class_name el ∙ e in
    let clean : any (stray shown.owner) c.children ≡ false = rw same h.clean in
    let placed : Container = record c {
      children = place config.attributes shown c.children;
      data_of = some (record (data_or_new c) { initialized = true });
    } in
    let placed_tame : PageIsTame owner placed = record {
      tame = record {
        model_unset = h.tame.model_unset;
        attributes_unset = h.tame.attributes_unset;
        unheard = h.tame.unheard;
        nav_count = navs-place config.attributes shown c.children clean;
      };
      count = h.count;
      clean =
          subst (λ o. any (stray o) placed.children ≡ false) same
            (stray-place config.attributes shown c.children clean);
    } in
    record { page = run_hook-PageIsTame config "afterInit" owner placed placed_tame; own = same }

draw-RoundIsTame :
    (host : Host) (config : Config) (parsed : Parsed) (owner : ℕ) (s : Round)
    → RoundIsTame owner s
    → RoundIsTame owner (draw host config parsed s)
unfolding draw
draw-RoundIsTame host config parsed owner s h =
    let a = config.attributes in
    let total = if is_array parsed.data_source then some a.total_number else s.total in
    let c = (run_hook config "beforeRender" s.page).0 in
    let before = run_hook-PageIsTame config "beforeRender" owner s.page h.page in
    let el = element_of c.calls s.el in
    let mine : el.owner ≡ owner =
      owner-element_of c.calls s.el (subst (λ o. IsOwn o s.el) (sym before.count) h.own)
      ∙ before.count in
    elim (Option-cases (render host.replace a total el)) [
      | inl failed ↦ rw (failed, draw) (record { page = before; own = h.own })
      | inr (drawn, e) ↦
          rw (e, draw)
            (finish-RoundIsTame config drawn total owner (run_hook config "afterRender" c).0
              (owner-render host a total el e ∙ mine)
              (run_hook-PageIsTame config "afterRender" owner c before))
    ]

pub draw_all-RoundIsTame :
    (host : Host) (config : Config) (outcomes : List (Result Parsed)) (owner : ℕ) (s : Round)
    → RoundIsTame owner s
    → RoundIsTame owner (draw_all host config outcomes s)
unfolding draw_all
draw_all-RoundIsTame host config [] owner s h = h
draw_all-RoundIsTame host config (err e ∷ rest) owner s h = record { page = h.page; own = h.own }
draw_all-RoundIsTame host config (ok parsed ∷ rest) owner s h =
    let next = draw host config parsed s in
    let drawn = draw-RoundIsTame host config parsed owner s h in
    let later = draw_all-RoundIsTame host config rest owner next drawn in
    keep_going next.answer later drawn
  where
    keep_going :
        (answer : Answer)
        → RoundIsTame owner (draw_all host config rest (draw host config parsed s))
        → RoundIsTame owner (draw host config parsed s)
        → RoundIsTame owner (elim answer [
          | itself ↦ draw_all host config rest (draw host config parsed s)
          | _ ↦ draw host config parsed s
        ])
    keep_going itself later drawn = later
    keep_going _ later drawn = drawn
