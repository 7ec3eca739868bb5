-- ===== src/Assistant/Chat.antt =====
-- A message to the assistant (backend/app/assistant/service.py, `WorkflowService.chat`): the plan is
-- classified, and runs at once when it only reads, or is stored until the user confirms it.
pub mod Gate
pub mod Pending
use cloud_drive.Prelude.{
  ℕ, Bool, true, false, ◌&&◌, ◌||◌, not, Option, none, some, List, [], ◌∷◌, ◌++◌, Text,
  if◌then◌else◌,
}
use cloud_drive.Naming.Decimal.{show}
use cloud_drive.Model.{
  Uuid, Time, ItemType, DriveItem, Error, app_error, ErrorCode, Db, resolution_error,
}
use cloud_drive.Exec.{Result, ok, err, bind_result}
use cloud_drive.Drive.Checks.{get_item_any_state}
use cloud_drive.Assistant.Value.{Fields, end, field, string}
use cloud_drive.Assistant.Steps.{Registry, WorkflowStep, classify_steps, is_auto_confirmable}
use cloud_drive.Assistant.Selection.{has_selection_reference, apply_selection}
use cloud_drive.Assistant.Executor.{StepResult, Hook, execute}
use cloud_drive.Assistant.Workflows.{
  AssistantState, WorkflowStatus, new_workflow, all_ok, record_run,
}
use cloud_drive.Assistant.Planning.{
  PlanResult, request, failed_run, Planner, is_empty, maybe_plan_followup,
}

-- A reply of the model, the request to tick files, a workflow that has run with its results (and the
-- model's reply where all went well), or one that waits for the user.
pub data ChatResponse : Type 0 where
  replied : Text → ChatResponse
  needs_selection : ChatResponse
  auto_executed : Option Text → List WorkflowStep → List StepResult → ChatResponse
  pending_approval : Uuid → Text → List WorkflowStep → ChatResponse

abbrev item_type_text : ItemType → Text
item_type_text ItemType.file = 70 ∷ 73 ∷ 76 ∷ 69 ∷ []
item_type_text ItemType.folder = 70 ∷ 79 ∷ 76 ∷ 68 ∷ 69 ∷ 82 ∷ []

-- `{"id": .., "name": .., "item_type": ..}`
abbrev selection_item : DriveItem → Fields
selection_item it = field (105 ∷ 100 ∷ []) (string (show it.id)) (
    field (110 ∷ 97 ∷ 109 ∷ 101 ∷ []) (string it.name) (
      field (105 ∷ 116 ∷ 101 ∷ 109 ∷ 95 ∷ 116 ∷ 121 ∷ 112 ∷ 101 ∷ [])
        (string (item_type_text it.item_type)) end))

is_not_found : Error → Bool
is_not_found (app_error ErrorCode.not_found status) = true
is_not_found e = false

-- An item that is gone is left out; any other error is raised.
unfoldable pub resolve_selection : Uuid → List Uuid → Db → Result (List Fields)
unfolding is_not_found
resolve_selection user [] db = ok []
resolve_selection user (i ∷ is) db =
    let rest = resolve_selection user is db in
    elim (get_item_any_state user i db) [
      | err e ↦ if is_not_found e then rest else err e
      | ok it ↦ bind_result rest (λ items. ok (selection_item it ∷ items))
    ]

abbrev pub reply_if : Bool → Text → Option Text
reply_if true reply = some reply
reply_if false reply = none

-- " [replan]"
abbrev replan_mark : Text
replan_mark = 32 ∷ 91 ∷ 114 ∷ 101 ∷ 112 ∷ 108 ∷ 97 ∷ 110 ∷ 93 ∷ []

-- " 這個操作需要你確認後才會執行。"
abbrev pending_note : Text
pending_note =
    32 ∷ 36889 ∷ 20491 ∷ 25805 ∷ 20316 ∷ 38656 ∷ 35201 ∷ 20320 ∷ 30906 ∷ 35469 ∷ 24460 ∷ 25165
    ∷ 26371 ∷ 22519 ∷ 34892 ∷ 12290 ∷ []

-- The ids that a call draws.
pub record ChatIds : Type 0 where
  pub session_id : Uuid
  pub workflow_id : Uuid
  pub run_id : Uuid
  pub replan_run_id : Uuid

-- The reply after the workflow has run: that of the second attempt, where there was one.
abbrev pub or_else :
    ChatResponse
    → Result (Option ChatResponse) × AssistantState
    → Result ChatResponse × AssistantState
or_else first (err e, st) = (err e, st)
or_else first (ok none, st) = (ok first, st)
or_else first (ok (some second), st) = (ok second, st)

module _ (registry : Registry) (before_execution : Hook) (planner : Planner) where
  -- `_replan_after_failure`: none where there is no plan that may run unseen.
  unfoldable pub replan_after_failure :
      ChatIds
      → Time
      → Uuid
      → Text
      → List Fields
      → List StepResult
      → AssistantState
      → Result (Option ChatResponse) × AssistantState
  replan_after_failure ids now user message items results st =
      elim (planner items (failed_run message results)) [
        | err e ↦ (err e, st)
        | ok replan ↦
            if is_empty replan.steps
            then (ok none, st)
            else elim (classify_steps registry replan.steps) [
              | err e ↦ (err e, st)
              | ok steps ↦
                  if has_selection_reference registry steps || not (is_auto_confirmable steps)
                  then (ok none, st)
                  else let run = execute registry before_execution user steps st.drive in
                    (
                      ok (some (auto_executed (reply_if (all_ok run.0) replan.reply) steps run.0)),
                      record_run ids.replan_run_id now user none (message ++ replan_mark) run.0
                          (record st { drive = run.1 }),
                    )
            ]
      ]

  unfoldable pub run_at_once :
      ChatIds
      → Time
      → Uuid
      → Text
      → List Fields
      → PlanResult
      → List WorkflowStep
      → AssistantState
      → Result ChatResponse × AssistantState
  run_at_once ids now user message items plan steps st =
      let run = execute registry before_execution user steps st.drive in
      let after = record_run ids.run_id now user none message run.0 (record st { drive = run.1 }) in
      if all_ok run.0
      then (ok (auto_executed (some plan.reply) steps run.0), after)
      else or_else (auto_executed none steps run.0)
          (replan_after_failure ids now user message items run.0 after)

  unfoldable pub create_pending :
      ChatIds
      → Time
      → Uuid
      → Text
      → PlanResult
      → List WorkflowStep
      → AssistantState
      → Result ChatResponse × AssistantState
  create_pending ids now user message plan steps st =
      let w =
        new_workflow ids.workflow_id now user ids.session_id message steps WorkflowStatus.pending
          none in
      (
        ok (pending_approval ids.workflow_id (plan.reply ++ pending_note) steps),
        record st { workflows = st.workflows ++ w ∷ [] },
      )

  -- The gate: only what needs no approval runs.
  unfoldable pub run_or_store :
      ChatIds
      → Time
      → Uuid
      → Text
      → List Fields
      → PlanResult
      → List WorkflowStep
      → AssistantState
      → Result ChatResponse × AssistantState
  run_or_store ids now user message items plan steps st =
      if is_auto_confirmable steps
      then run_at_once ids now user message items plan steps st
      else create_pending ids now user message plan steps st

  unfoldable pub chat_plan :
      ChatIds
      → Time
      → Uuid
      → Text
      → List Fields
      → PlanResult
      → AssistantState
      → Result ChatResponse × AssistantState
  chat_plan ids now user message items plan st = elim (classify_steps registry plan.steps) [
    | err e ↦ (err e, st)
    | ok steps ↦
        if has_selection_reference registry steps
        then (if is_empty items
            then (ok needs_selection, st)
            else elim (apply_selection steps items registry) [
              | none ↦ (err resolution_error, st)
              | some resolved ↦ run_or_store ids now user message items plan resolved st
            ])
        else run_or_store ids now user message items plan steps st
  ]

  abbrev pub with_plan :
      ChatIds
      → Time
      → Uuid
      → Text
      → List Fields
      → AssistantState
      → Result PlanResult × Db
      → Result ChatResponse × AssistantState
  with_plan ids now user message items st (err e, db) = (err e, record st { drive = db })
  with_plan ids now user message items st (ok plan, db) =
      chat_plan ids now user message items plan (record st { drive = db })

  unfoldable pub chat_items :
      Bool
      → ChatIds
      → Time
      → Uuid
      → Text
      → List Fields
      → AssistantState
      → Result ChatResponse × AssistantState
  chat_items two_phase ids now user message items st = elim (planner items (request message)) [
    | err e ↦ (err e, st)
    | ok plan ↦
        if is_empty plan.steps
        then (ok (replied plan.reply), st)
        else with_plan ids now user message items st (
            maybe_plan_followup registry before_execution planner two_phase plan user message items
              st.drive)
  ]

  -- `authoring` is backend/app/assistant/skills/authoring.py, which answers when the message asks for a skill.
  unfoldable pub chat :
      (Text → Result (Option Text))
      → Bool
      → ChatIds
      → Time
      → Uuid
      → Text
      → List Uuid
      → AssistantState
      → Result ChatResponse × AssistantState
  chat authoring two_phase ids now user message selected st = elim (authoring message) [
    | err e ↦ (err e, st)
    | ok (some reply) ↦ (ok (replied reply), st)
    | ok none ↦ elim (resolve_selection user selected st.drive) [
      | err e ↦ (err e, st)
      | ok items ↦ chat_items two_phase ids now user message items st
    ]
  ]
