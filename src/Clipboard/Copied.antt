-- ===== src/Clipboard/Copied.antt =====
-- What is in the clipboard, the page and the selection after a copy.
use pact_broker.Prelude.{
  ℕ, ◌≡◌, refl, ap, ◌∙◌, String, true, false, not, Option, none, some, List, [], ◌∷◌, ◌++◌, ◌≢◌,
  ◌⊎◌, inr, ◌==◌, any, keep, arith, if◌then◌else◌,
}
use pact_broker.Clipboard.Dom.{Document, View, holds_child}
use pact_broker.Clipboard.{
  add_area, restore, copy_to_clipboard, first_range, Clippy, Event, hover, click, timeout, step,
  run,
}

keep-new :
    (n : ℕ) (body : List ℕ)
    → any (λ m. m == n) body ≡ false
    → keep (λ m. not (m == n)) (body ++ n ∷ []) ≡ body
keep-new n [] h = ground arith
keep-new n (m ∷ body) h = ground (arith, keep-new n body)

any-last : (n : ℕ) (body : List ℕ) → any (λ m. m == n) (body ++ n ∷ []) ≡ true
any-last n [] = ground arith
any-last n (m ∷ body) = ground (arith, any-last n body)

module _ (d : Document) (text : String) (s : d.State) where
  open d use {
    State, Range, view, create_area, remove_child, select, exec_copy, remove_all_ranges, add_range,
    view-create, new-create, view-set_value, view-set_attribute, view-set_style, view-append_child,
    view-remove_child, view-select, view-exec_copy, view-remove_all_ranges, view-add_range,
  }

  view-add_area : view (add_area d text s).0 ≡ record (view s) {
    body = (view s).body ++ (create_area s).1 ∷ [];
    value = λ m. if m == (create_area s).1 then text else (view s).value m;
  }
  unfolding add_area
  view-add_area = rw (
    view-append_child, view-set_style, view-set_style, view-set_attribute, view-set_value,
    view-create,
  )

  -- The page when the text has been copied, and when the text area is gone.
  abbrev selected : State
  selected = select (create_area s).1 (add_area d text s).0

  abbrev removed : State
  removed = remove_child (create_area s).1 (exec_copy selected)

  view-exec : view (exec_copy selected) ≡ record (view selected) { clipboard = text }
  view-exec =
      let n = (create_area s).1 in
      let chosen : (view selected).chosen ≡ some n =
        ap (λ (v : View Range). v.chosen) (view-select n (add_area d text s).0) in
      let here : holds_child n (view selected) ≡ true =
        ap (holds_child n) (view-select n (add_area d text s).0)
        ∙ ap (holds_child n) view-add_area
        ∙ any-last n (view s).body in
      let filled : (view selected).value n ≡ text =
        ap (λ (v : View Range). v.value n) (view-select n (add_area d text s).0)
        ∙ ap (λ (v : View Range). v.value n) view-add_area
        ∙ ground arith in
      rw (view-exec_copy n selected chosen here, filled)

  clipboard-removed : (view removed).clipboard ≡ text
  clipboard-removed =
      ap (λ (v : View Range). v.clipboard)
        (view-remove_child (create_area s).1 (exec_copy selected))
      ∙ ap (λ (v : View Range). v.clipboard) view-exec

  body-removed : (view removed).body ≡ (view s).body
  body-removed =
      let n = (create_area s).1 in
      let gone = λ (v : View Range). keep (λ m. not (m == n)) v.body in
      ap (λ (v : View Range). v.body) (view-remove_child n (exec_copy selected))
      ∙ ap gone view-exec
      ∙ ap gone (view-select n (add_area d text s).0)
      ∙ ap gone view-add_area
      ∙ keep-new n (view s).body (new-create s)

  view-restore :
      (o : Option Range) (t : State)
      → ((view (restore d o t)).clipboard ≡ (view t).clipboard)
        × ((view (restore d o t)).body ≡ (view t).body)
  unfolding restore
  view-restore none t = (refl, refl)
  view-restore (some r) t =
      let cleared = view-remove_all_ranges t in
      let added =
        view-add_range r (remove_all_ranges t) (ap (λ (v : View Range). v.ranges) cleared) in
      (
        ap (λ (v : View Range). v.clipboard) added ∙ ap (λ (v : View Range). v.clipboard) cleared,
        ap (λ (v : View Range). v.body) added ∙ ap (λ (v : View Range). v.body) cleared,
      )

  -- A copy puts the text into the clipboard, and leaves the children of the body as they were.
  pub copy_to_clipboard_lem :
      ((view (copy_to_clipboard d text s)).clipboard ≡ text)
      × ((view (copy_to_clipboard d text s)).body ≡ (view s).body)
  unfolding copy_to_clipboard add_area
  copy_to_clipboard_lem =
      let (same_clipboard, same_body) =
        view-restore (first_range (view (add_area d text s).0).ranges) removed in
      (same_clipboard ∙ clipboard-removed, same_body ∙ body-removed)

  -- Where something was selected before a copy, its first range is what is selected afterwards.
  pub ranges-copy_to_clipboard :
      {r : Range} {rest : List Range}
      → (view s).ranges ≡ r ∷ rest
      → (view (copy_to_clipboard d text s)).ranges ≡ r ∷ []
  unfolding copy_to_clipboard restore add_area
  ranges-copy_to_clipboard {r} {rest} e =
      let before : (view (add_area d text s).0).ranges ≡ r ∷ rest =
        ap (λ (v : View Range). v.ranges) view-add_area ∙ e in
      let first : first_range (view (add_area d text s).0).ranges ≡ some r =
        ap first_range before in
      let cleared = view-remove_all_ranges removed in
      ap (λ o. (view (restore d o removed)).ranges) first
      ∙ ap (λ (v : View Range). v.ranges)
          (view-add_range r (remove_all_ranges removed) (ap (λ (v : View Range). v.ranges) cleared))

-- A button shows the success of a copy only while a timer runs.
abbrev pub IsTimed : Clippy → Type 0
IsTimed c = (c.icon ≡ "copy-icon") ⊎ (c.timers ≢ 0)

step-IsTimed : (e : Event) (c : Clippy) → IsTimed c → IsTimed (step e c)
unfolding step
step-IsTimed hover c h = h
step-IsTimed click c h = inr (omega arith)
step-IsTimed timeout c h = ground arith

-- Whatever happens to a button that shows the copy icon, or for which a timer runs, it shows the copy
-- icon again, or a timer runs.
pub run-IsTimed : (events : List Event) (c : Clippy) → IsTimed c → IsTimed (run events c)
unfolding run
run-IsTimed [] c h = h
run-IsTimed (e ∷ events) c h = run-IsTimed events (step e c) (step-IsTimed e c h)
