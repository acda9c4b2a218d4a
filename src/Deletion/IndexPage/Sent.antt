-- ===== src/Deletion/IndexPage/Sent.antt =====
-- What the page sends, from what was asked and confirmed alone.
use pact_broker.Prelude.{
  String, Option, none, some, List, [], ◌∷◌, ◌++◌, ◌≡◌, refl, ap, ◌∙◌, sym, append_assoc,
  append-nil, get_elem?,
}
use pact_broker.Deletion.Message.{Printer}
use pact_broker.Deletion.IndexPage.{
  Task, Page, Selector, create_pact_deletion_confirmation_text,
  create_integration_deletion_confirmation_text, handle_delete_resources_selected,
  handle_delete_pacts_selected, handle_delete_integrations_selected, cancelled, confirmed,
  handle_deletion_success, handle_deletion_failure, slide_end, remove_at, Event, delete_pacts,
  delete_integration, cancel, confirm, success, failure, slid, answered, step, run,
}

-- A question: the text that is shown, and the address that the deletion is sent to.
pub record Question : Type 0 where
  pub text : String
  pub url : String

abbrev pub question_of : Option Task → Option Question
question_of none = none
question_of (some t) = some (record { text = t.text; url = t.url })

-- The open question after an event, and what the event sends. Only the entries of the menus and the buttons
-- of the confirmation matter.
abbrev pub next_question : Event → Option Question → Option Question
next_question (delete_pacts row) q =
    some (record { text = create_pact_deletion_confirmation_text row; url = row.pact_versions_url })
next_question (delete_integration row) q =
    some (record {
      text = create_integration_deletion_confirmation_text row;
      url = row.integration_url;
    })
next_question cancel q = none
next_question confirm q = none
next_question _ q = q

abbrev pub sent_by : Event → Option Question → List String
sent_by confirm (some q) = q.url ∷ []
sent_by _ q = []

abbrev pub question_after : List Event → Option Question → Option Question
question_after [] q = q
question_after (e ∷ events) q = question_after events (next_question e q)

abbrev pub all_sent : List Event → Option Question → List String
all_sent [] q = []
all_sent (e ∷ events) q = sent_by e q ++ all_sent events (next_question e q)

record IsStep (e : Event) (before after : Page) : Type 0 where
  question : question_of after.dialog ≡ next_question e (question_of before.dialog)
  requests : after.requests ≡ before.requests ++ sent_by e (question_of before.dialog)

-- An event that neither asks nor sends.
quiet :
    (e : Event) (before after : Page)
    → after.dialog ≡ before.dialog
    → after.requests ≡ before.requests
    → next_question e (question_of before.dialog) ≡ question_of before.dialog
    → sent_by e (question_of before.dialog) ≡ []
    → IsStep e before after
quiet e before after same_dialog same_requests same none_sent = record {
  question = ap question_of same_dialog ∙ sym same;
  requests =
      same_requests
      ∙ sym (append-nil before.requests)
      ∙ ap (λ l. before.requests ++ l) (sym none_sent);
}

answered_cancelled :
    (o : Option Task) (p : Page) → p.dialog ≡ o → IsStep cancel p (answered cancelled o p)
unfolding answered cancelled
answered_cancelled none p e = record {
  question = ap question_of e;
  requests = sym (append-nil p.requests);
}
answered_cancelled (some t) p e = record { question = refl; requests = sym (append-nil p.requests) }

answered_confirmed :
    (o : Option Task) (p : Page) → p.dialog ≡ o → IsStep confirm p (answered confirmed o p)
unfolding answered confirmed
answered_confirmed none p e = record {
  question = ap question_of e;
  requests =
      sym (append-nil p.requests) ∙ ap (λ o. p.requests ++ sent_by confirm (question_of o)) (sym e);
}
answered_confirmed (some t) p e = record {
  question = refl;
  requests = ap (λ o. p.requests ++ sent_by confirm (question_of o)) (sym e);
}

-- The handler of an answer changes neither the confirmation nor what was sent.
record IsQuiet (f : Task → Page → Page) : Type 0 where
  dialog : (t : Task) (p : Page) → (f t p).dialog ≡ p.dialog
  requests : (t : Task) (p : Page) → (f t p).requests ≡ p.requests

answered_quiet :
    (e : Event) (f : Task → Page → Page) (o : Option Task) (p : Page)
    → IsQuiet f
    → next_question e (question_of p.dialog) ≡ question_of p.dialog
    → sent_by e (question_of p.dialog) ≡ []
    → IsStep e p (answered f o p)
unfolding answered
answered_quiet e f none p h same none_sent = quiet e p p refl refl same none_sent
answered_quiet e f (some t) p h same none_sent =
    quiet e p (f t p) (h.dialog t p) (h.requests t p) same none_sent

module _ (select : Selector) (printer : Printer) where
  step-IsStep : (e : Event) (p : Page) → IsStep e p (step select printer e p)
  unfolding step handle_delete_pacts_selected handle_delete_integrations_selected
      handle_delete_resources_selected handle_deletion_success handle_deletion_failure slide_end
  step-IsStep (delete_pacts row) p = record {
    question = refl;
    requests = sym (append-nil p.requests);
  }
  step-IsStep (delete_integration row) p = record {
    question = refl;
    requests = sym (append-nil p.requests);
  }
  step-IsStep cancel p = answered_cancelled p.dialog p refl
  step-IsStep confirm p = answered_confirmed p.dialog p refl
  step-IsStep (success k) p =
      answered_quiet (success k)
        (λ t q. handle_deletion_success t.rows (record q { pending = remove_at k q.pending }))
        (get_elem? p.pending k) p (record { dialog = λ t q. refl; requests = λ t q. refl }) refl
        refl
  step-IsStep (failure k response) p =
      answered_quiet (failure k response)
        (λ t q.
          handle_deletion_failure printer t.rows response
            (record q { pending = remove_at k q.pending }))
        (get_elem? p.pending k) p (record { dialog = λ t q. refl; requests = λ t q. refl }) refl
        refl
  step-IsStep slid p = quiet slid p (slide_end p) refl refl refl refl

  -- Whatever happens on the page, its confirmation shows the question that was asked last, if it was not
  -- answered since, and what it sends are the addresses of the questions that were confirmed, each once
  -- and in order, whatever the answers to the requests are and whenever they come.
  pub run-all_sent :
      (events : List Event) (p : Page)
      → let after = run select printer events p in
        (question_of after.dialog ≡ question_after events (question_of p.dialog))
        × (after.requests ≡ p.requests ++ all_sent events (question_of p.dialog))
  unfolding run
  run-all_sent [] p = (refl, sym (append-nil p.requests))
  run-all_sent (e ∷ events) p =
      let now = step-IsStep e p in
      let (question, requests) = run-all_sent events (step select printer e p) in
      (
        question ∙ ap (question_after events) now.question,
        requests
            ∙ ap (λ l. l ++ all_sent events (question_of (step select printer e p).dialog))
                now.requests
            ∙ append_assoc p.requests (sent_by e (question_of p.dialog)) _
            ∙ ap (λ q. p.requests ++ (sent_by e (question_of p.dialog) ++ all_sent events q))
                now.question,
      )
