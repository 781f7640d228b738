-- ===== src/Examples/Guided.antt =====
-- web/src/pages/GuidedStart.tsx, components/ConfirmDialog.tsx and the wording on concrete inputs.
use infra_orch_studio.Common.{ℕ, ◌≡◌, refl, true, false, none, some, [], ◌∷◌, units, Bool, map}
use infra_orch_studio.Examples.{evaluation}
use infra_orch_studio.Js.Number.{Number, finite}
use infra_orch_studio.Pages.GuidedStart.Values.{
  Json, null, string, array, object, end, item, none_left, field, Shown, format_value,
}
use infra_orch_studio.Pages.GuidedStart.Search.{
  create, review, approval, result, match_stage_value, stage_detail,
}
use infra_orch_studio.Pages.GuidedStart.Page.{StageCard, cards, initial_page, end_load, failed}
use infra_orch_studio.Pages.GuidedStart.Cards.{GoOverview, overview_json, overview_cards}
use infra_orch_studio.I18n.Provider.{ko, copy_of}
use infra_orch_studio.Shell.Navigation.{title, active_unique}
use infra_orch_studio.Shell.Dialog.{Dialog, danger, dialog_call, key, press_cancel, on_cancel}

-- Every number is printed as the digit 7.
abbrev printed : Shown
printed = record {
  is_falsy = λ n. false;
  of_number = λ n. units "7";
  of_count = λ n. units "2";
  of_other = λ x. units "[object Object]";
  format_date = λ t. t;
}

abbrev never_one : Number → Bool
never_one n = false

abbrev some_number : Number
some_number = finite false 5

-- `{ data: { overview: { steps: [{ name: 'Review gate', status: ' open ' }] } } }`
abbrev review_step : Json
review_step = object (
    field (units "name") (string (units "Review gate"))
      (field (units "status") (string (units " open ")) none_left))

abbrev nested : Json
nested = object (
    field (units "data")
      (object (
        field (units "overview")
          (object (field (units "steps") (array (item review_step end)) none_left)) none_left))
      none_left)

abbrev overview_answer : GoOverview
overview_answer = record {
  environments_total = some_number;
  pending_approval = some_number;
  approved_waiting_apply = some_number;
  applying = some_number;
  failed = some_number;
  active = some_number;
  destroyed = some_number;
  jobs_total = some_number;
  jobs_queued = some_number;
  jobs_running = some_number;
  jobs_done = some_number;
  jobs_failed = some_number;
  recent_failures = end;
}

overview_cards_example :
    (stage_detail printed never_one 3 (overview_json overview_answer) create (units "none")
      ≡ units "7")
    × (stage_detail printed never_one 3 (overview_json overview_answer) review (units "none")
        ≡ units "7")
    × (stage_detail printed never_one 3 (overview_json overview_answer) result (units "none")
        ≡ units "7")
    × (stage_detail printed never_one 3 (overview_json overview_answer) approval (units "none")
        ≡ units "none")
overview_cards_example =
    overview_cards printed never_one 3 overview_answer (units "none") (λ n. refl)

-- The list of steps is two objects below the answer.
search_tests :
    (match_stage_value printed 3 review nested ≡ review_step)
    × (match_stage_value printed 2 review nested ≡ null)
    × (stage_detail printed never_one 3 nested review (units "none") ≡ units "open")
    × (format_value printed never_one nested ≡ some (units "data"))
unfolding evaluation
search_tests = (refl, refl, refl, refl)

abbrev confirming : Dialog
confirming = record {
  is_open = true;
  title = "Destroy";
  description = "";
  confirm_label = "Yes";
  cancel_label = "No";
  tone = danger;
  details = [];
  busy = true;
}

page_tests :
    (map (λ (c : StageCard). c.summary) (cards printed never_one 3 false none)
      ≡ map units (
          "Shape the desired state and draft the request." ∷ "Inspect the plan and its impact."
          ∷ "Confirm the gate before approval." ∷ "Review the execution result and audit trail."
          ∷ []))
    × ((end_load false true failed initial_page).loading ≡ true)
    × (dialog_call confirming (key "Escape") ≡ some on_cancel)
    × (dialog_call confirming press_cancel ≡ none)
    × (title (copy_of ko) true (units "/providers/x") ≡ "공급자 연결")
unfolding evaluation
page_tests = (refl, refl, refl, refl, refl)

-- The fifth link is the active one at the address of a job.
active_unique_example : ◌≡◌ {A = ℕ} 4 4
unfolding evaluation
active_unique_example =
    active_unique (copy_of ko) true (units "/jobs/7") 4 4 _ _ refl refl refl refl
