-- ===== src/Matrix/Page/Sent.antt =====
-- What the form shows and sends, whatever was changed before.
use pact_broker.Prelude.{
  ℕ, zero, suc, ◌+◌, ◌<◌, ◌≡◌, ◌≢◌, refl, ap, ◌∙◌, sym, String, Bool, true, false, not, ◌&&◌, ◌||◌,
  str_eq, none, some, List, [], ◌∷◌, ◌==◌, ltb, ==_iff, if◌then◌else◌, arith, length, get_elem?,
  Bool-cases, Option-cases, inl, inr,
}
use pact_broker.Matrix.Form.{
  Form, Field, version, branch, environment, tag, latest_flag, selectorizor, same_field,
}
use pact_broker.Matrix.Selectors.{
  show_applicable_text_boxes, show_all, disable_fields_that_should_not_be_submitted,
}
use pact_broker.Matrix.Selectors.Types.{applies}
use pact_broker.Matrix.Selectors.Shown.{
  is_textbox, visible-show_applicable_text_boxes, disabled-show_applicable_text_boxes,
}
use pact_broker.Matrix.Page.{Page, set_at, ready, change, change_all, on_submit, is_sent}

-- The types that ask for the latest version: of the pacticipant, with a tag, or of a branch.
abbrev wants_latest : String → Bool
wants_latest type =
    str_eq type "specify-latest"
    || str_eq type "specify-latest-tag"
    || str_eq type "specify-latest-branch"

-- What a selector of a type is to send: the text box that its type asks for, and the flag for the latest
-- version; never itself.
abbrev pub is_wanted : (type : String) → Field → Bool
is_wanted type version = applies type version
is_wanted type branch = applies type branch
is_wanted type environment = applies type environment
is_wanted type tag = applies type tag
is_wanted type latest_flag = wants_latest type
is_wanted type selectorizor = false

get_elem?-set_at :
    (i j : ℕ) (t : String) (types : List String)
    → get_elem? (set_at i t types) j ≡ (
        if i == j
        then (elim (get_elem? types j) [ none ↦ none | some u ↦ some t ])
        else get_elem? types j)
get_elem?-set_at i j t [] = ground arith
get_elem?-set_at zero zero t (u ∷ types) = refl
get_elem?-set_at zero (suc j) t (u ∷ types) = ground arith
get_elem?-set_at (suc i) zero t (u ∷ types) = ground arith
get_elem?-set_at (suc i) (suc j) t (u ∷ types) = get_elem?-set_at i j t types ∙ ground arith

get_elem?-lt :
    (i : ℕ) (types : List String) {type : String} → get_elem? types i ≡ some type → i < length types
get_elem?-lt i [] h = absurd (cc)
get_elem?-lt zero (u ∷ types) h = omega arith
get_elem?-lt (suc i) (u ∷ types) h = omega (arith, get_elem?-lt i types h)

ne_of : (i j : ℕ) → (i == j) ≡ false → i ≢ j
ne_of i j h e = ground arith

module _ (form : Form) where
  open form use {
    State, visible, disabled, set_disabled, disabled-set_disabled, visible-set_disabled,
  }

  -- The fields of a selector are as its type wants them.
  pub record IsSettled (s : State) (i : ℕ) (type : String) : Type 0 where
    pub shown : (g : Field) → is_textbox g ≡ true → visible s i g ≡ applies type g
    pub sent :
        (g : Field) → same_field selectorizor g ≡ false → disabled s i g ≡ not (is_wanted type g)

  show_applicable-IsSettled :
      (i : ℕ) (type : String) (s : State)
      → IsSettled (show_applicable_text_boxes form i type s) i type
  show_applicable-IsSettled i type s = record { shown = shows; sent = sends }
    where
      shows :
          (g : Field)
          → is_textbox g ≡ true
          → visible (show_applicable_text_boxes form i type s) i g ≡ applies type g
      shows g h = visible-show_applicable_text_boxes form i type s i g ∙ ground arith

      sends :
          (g : Field)
          → same_field selectorizor g ≡ false
          → disabled (show_applicable_text_boxes form i type s) i g ≡ not (is_wanted type g)
      sends version h = disabled-show_applicable_text_boxes form i type s i version ∙ ground arith
      sends branch h = disabled-show_applicable_text_boxes form i type s i branch ∙ ground arith
      sends environment h =
          disabled-show_applicable_text_boxes form i type s i environment ∙ ground arith
      sends tag h = disabled-show_applicable_text_boxes form i type s i tag ∙ ground arith
      sends latest_flag h =
          disabled-show_applicable_text_boxes form i type s i latest_flag ∙ ground arith
      sends selectorizor h = cc

  -- A call for another selector changes nothing.
  show_applicable-other :
      (i : ℕ) (type : String) (s : State) (j : ℕ) (u : String)
      → i ≢ j
      → IsSettled s j u
      → IsSettled (show_applicable_text_boxes form i type s) j u
  show_applicable-other i type s j u ne h = record {
    shown =
        λ g t. visible-show_applicable_text_boxes form i type s j g ∙ ground (arith, h.shown g t);
    sent =
        λ g t. disabled-show_applicable_text_boxes form i type s j g ∙ ground (arith, h.sent g t);
  }

  show_all-other :
      (i : ℕ) (types : List String) (s : State) (j : ℕ) (u : String)
      → j < i
      → IsSettled s j u
      → IsSettled (show_all form i types s) j u
  unfolding show_all
  show_all-other i [] s j u h settled = settled
  show_all-other i (type ∷ types) s j u h settled =
      show_all-other (suc i) types _ j u (omega arith)
        (show_applicable-other i type s j u (λ e. absurd (omega (arith, e))) settled)

  show_all-IsSettled :
      (i : ℕ) (types : List String) (s : State) (k j : ℕ) {type : String}
      → j ≡ i + k
      → get_elem? types k ≡ some type
      → IsSettled (show_all form i types s) j type
  unfolding show_all
  show_all-IsSettled i [] s k j e h = cc
  show_all-IsSettled i (t ∷ types) s zero j {type} e h =
      let same : t ≡ type = cc in
      let here : i ≡ j = omega (arith, e) in
      show_all-other (suc i) types _ j type (omega (arith, e))
        (rw (← same, ← here) (show_applicable-IsSettled i t s))
  show_all-IsSettled i (t ∷ types) s (suc k) j e h =
      show_all-IsSettled (suc i) types _ k j (omega (arith, e)) h

  -- Every selector of the page is settled.
  abbrev IsConsistent : Page form → Type 0
  IsConsistent p =
      (i : ℕ) (type : String) → get_elem? p.types i ≡ some type → IsSettled p.fields i type

  ready-IsConsistent : (types : List String) (s : State) → IsConsistent (ready form types s)
  unfolding ready
  ready-IsConsistent types s i type h = show_all-IsSettled 0 types s i i (omega arith) h

  change-IsConsistent :
      (i : ℕ) (t : String) (p : Page form) → IsConsistent p → IsConsistent (change form i t p)
  unfolding change
  change-IsConsistent i t p c = elim (Option-cases (get_elem? p.types i)) [
    | inl none_there ↦ rw (none_there, change) c
    | inr (u, there) ↦ rw (there, change) (λ j type h. changed u there j type h)
  ]
    where
      changed :
          (u : String)
          → get_elem? p.types i ≡ some u
          → (j : ℕ) (type : String) → get_elem? (set_at i t p.types) j ≡ some type
          → IsSettled (show_applicable_text_boxes form i t p.fields) j type
      changed u there j type h = elim (Bool-cases (i == j)) [
        | inl here ↦
            let e : i ≡ j = (==_iff i j).0 here in
            let same : t ≡ type = ground (arith, get_elem?-set_at i j t p.types) in
            rw (← same, ← e) (show_applicable-IsSettled i t p.fields)
        | inr away ↦
            show_applicable-other i t p.fields j type (ne_of i j away)
              (c j type (ground (arith, get_elem?-set_at i j t p.types)))
      ]

  change_all-IsConsistent :
      (changes : List (ℕ × String)) (p : Page form)
      → IsConsistent p
      → IsConsistent (change_all form changes p)
  unfolding change_all
  change_all-IsConsistent [] p c = c
  change_all-IsConsistent ((i, t) ∷ changes) p c =
      change_all-IsConsistent changes (change form i t p) (change-IsConsistent i t p c)

  disabled-on_submit :
      (n : ℕ) (s : State) (j : ℕ) (g : Field)
      → disabled (disable_fields_that_should_not_be_submitted form n s) j g
        ≡ (if ltb j n && same_field selectorizor g then true else disabled s j g)
  unfolding disable_fields_that_should_not_be_submitted
  disabled-on_submit zero s j g = ground arith
  disabled-on_submit (suc n) s j g =
      disabled-on_submit n (set_disabled n selectorizor true s) j g
      ∙ ground (arith, disabled-set_disabled n selectorizor true s j g)

  -- Whatever was changed since the page was ready, the form sends for each selector exactly what its type
  -- asks for. That is the text box for the version (type "specify-version"), the branch
  -- ("specify-latest-branch", "specify-all-branch"), the environment ("specify-environment") or the tag
  -- ("specify-latest-tag", "specify-all-tagged"), and the flag for the latest version ("specify-latest",
  -- "specify-latest-tag", "specify-latest-branch"); never the selector itself.
  pub is_sent-change_all :
      (types : List String) (s : State) (changes : List (ℕ × String)) (i : ℕ) {type : String}
      → get_elem? (change_all form changes (ready form types s)).types i ≡ some type
      → (g : Field)
      → is_sent form (change_all form changes (ready form types s)) i g ≡ is_wanted type g
  unfolding is_sent on_submit
  is_sent-change_all types s changes i {type} h g =
      let p = change_all form changes (ready form types s) in
      let settled =
        change_all-IsConsistent changes (ready form types s) (ready-IsConsistent types s) i type
          h in
      ap not (disabled-on_submit (length p.types) p.fields i g)
      ∙ sent_cases p g settled.sent (get_elem?-lt i p.types h)
    where
      sent_cases :
          (p : Page form) (g : Field)
          → ((g : Field)
              → same_field selectorizor g ≡ false
              → disabled p.fields i g ≡ not (is_wanted type g))
          → i < length p.types
          → not (
              if ltb i (length p.types) && same_field selectorizor g
              then true
              else disabled p.fields i g)
            ≡ is_wanted type g
      sent_cases p selectorizor sent lt = ground arith
      sent_cases p version sent lt = ground (arith, sent version refl)
      sent_cases p branch sent lt = ground (arith, sent branch refl)
      sent_cases p environment sent lt = ground (arith, sent environment refl)
      sent_cases p tag sent lt = ground (arith, sent tag refl)
      sent_cases p latest_flag sent lt = ground (arith, sent latest_flag refl)

  -- Whatever was changed since the page was ready, a text box of a selector is shown exactly if it is sent.
  pub visible-change_all :
      (types : List String) (s : State) (changes : List (ℕ × String)) (i : ℕ) {type : String}
      → get_elem? (change_all form changes (ready form types s)).types i ≡ some type
      → (g : Field) → is_textbox g ≡ true
      → visible (change_all form changes (ready form types s)).fields i g
        ≡ is_sent form (change_all form changes (ready form types s)) i g
  visible-change_all types s changes i {type} h g t =
      let settled =
        change_all-IsConsistent changes (ready form types s) (ready-IsConsistent types s) i type
          h in
      settled.shown g t ∙ applied g t ∙ sym (is_sent-change_all types s changes i h g)
    where
      applied : (g : Field) → is_textbox g ≡ true → applies type g ≡ is_wanted type g
      applied latest_flag t = cc
      applied selectorizor t = cc
      applied version t = refl
      applied branch t = refl
      applied environment t = refl
      applied tag t = refl
