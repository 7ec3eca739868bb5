-- ===== src/Assistant/Workflows.antt =====
-- Stored workflows and their runs (backend/app/assistant/repository.py), and what the service does with
-- them after planning (service.py): confirm, cancel, save and run again.
pub mod Once
use cloud_drive.Prelude.{
  ℕ, Bool, true, false, ◌&&◌, ◌||◌, not, Option, none, some, List, [], ◌∷◌, ◌++◌, map, Text,
  text_eq, ◌==◌, keep, any, take, drop, length, ltb, ◌-◌, if◌then◌else◌,
}
use cloud_drive.Naming.Decimal.{show}
use cloud_drive.Model.{Uuid, Time, Trigger, Db, not_found_error}
use cloud_drive.Exec.{Result, ok, err, one_or_none}
use cloud_drive.Assistant.Value.{Fields}
use cloud_drive.Assistant.Steps.{Registry, PlannedStep, WorkflowStep, classify_steps}
use cloud_drive.Assistant.Executor.{StepResult, Hook, execute}
use cloud_drive.Snapshot.{create}

pub data WorkflowStatus : Type 0 where
  pending saved executed cancelled : WorkflowStatus

unfoldable pub same_status : WorkflowStatus → WorkflowStatus → Bool
same_status WorkflowStatus.pending WorkflowStatus.pending = true
same_status WorkflowStatus.saved WorkflowStatus.saved = true
same_status WorkflowStatus.executed WorkflowStatus.executed = true
same_status WorkflowStatus.cancelled WorkflowStatus.cancelled = true
same_status a b = false

pub record AssistantWorkflow : Type 0 where
  pub id : Uuid
  pub user_id : Uuid
  pub session_id : Uuid
  pub source_nl : Text
  pub steps : List WorkflowStep
  pub status : WorkflowStatus
  pub name : Option Text
  pub created_at : Time
  pub updated_at : Time

pub data RunStatus : Type 0 where
  succeeded failed : RunStatus

pub record AssistantWorkflowRun : Type 0 where
  pub id : Uuid
  pub user_id : Uuid
  pub workflow_id : Option Uuid
  pub source_nl : Text
  pub status : RunStatus
  pub step_results : List StepResult
  pub created_at : Time

-- The drive that the skills work on, and the assistant's own tables.
pub record AssistantState : Type 0 where
  pub drive : Db
  pub workflows : List AssistantWorkflow
  pub runs : List AssistantWorkflowRun

unfoldable pub is_row : WorkflowStatus → Uuid → Uuid → AssistantWorkflow → Bool
is_row status user_id id w = w.id == id && w.user_id == user_id && same_status w.status status

-- `get_pending` and `get_saved`, each with its status
unfoldable pub get_workflow :
    WorkflowStatus → Uuid → Uuid → List AssistantWorkflow → Result (Option AssistantWorkflow)
get_workflow status user_id id workflows = one_or_none (keep (is_row status user_id id) workflows)

unfoldable pub list_saved : Uuid → List AssistantWorkflow → List AssistantWorkflow
list_saved user_id workflows =
    keep (λ w. w.user_id == user_id && same_status w.status WorkflowStatus.saved) workflows

abbrev pub new_workflow :
    Uuid
    → Time
    → Uuid
    → Uuid
    → Text
    → List WorkflowStep
    → WorkflowStatus
    → Option Text
    → AssistantWorkflow
new_workflow new_id now user session source steps status name = record {
  id = new_id;
  user_id = user;
  session_id = session;
  source_nl = source;
  steps = steps;
  status = status;
  name = name;
  created_at = now;
  updated_at = now;
}

unfoldable pub with_status : Uuid → WorkflowStatus → Time → AssistantWorkflow → AssistantWorkflow
with_status workflow_id status now w =
    if w.id == workflow_id then record w { status = status; updated_at = now } else w

unfoldable pub set_status : Uuid → WorkflowStatus → Time → AssistantState → AssistantState
set_status workflow_id status now st = record st {
  workflows = map (with_status workflow_id status now) st.workflows;
}

unfoldable pub all_ok : List StepResult → Bool
all_ok results = not (any (λ r. not r.is_ok) results)

unfoldable pub run_status : List StepResult → RunStatus
run_status results = if all_ok results then succeeded else failed

unfoldable pub record_run :
    Uuid → Time → Uuid → Option Uuid → Text → List StepResult → AssistantState → AssistantState
record_run new_id now user workflow source results st = record st {
  runs =
      st.runs
      ++ (record {
        id = new_id;
        user_id = user;
        workflow_id = workflow;
        source_nl = source;
        status = run_status results;
        step_results = results;
        created_at = now;
      })
        ∷ [];
}

pub record ConfirmResponse : Type 0 where
  pub workflow_id : Uuid
  pub status : WorkflowStatus
  pub results : List StepResult

abbrev pub response : Uuid → WorkflowStatus → List StepResult → ConfirmResponse
response workflow_id status results = record {
  workflow_id = workflow_id;
  status = status;
  results = results;
}

module _ (registry : Registry) (before_execution : Hook) where
  unfoldable pub run_confirmed :
      Uuid
      → Time
      → Uuid
      → AssistantWorkflow
      → AssistantState
      → Result ConfirmResponse × AssistantState
  run_confirmed run_id now user w st =
      let run = execute registry before_execution user w.steps st.drive in
      let marked = set_status w.id WorkflowStatus.executed now (record st { drive = run.1 }) in
      (
        ok (response w.id WorkflowStatus.executed run.0),
        record_run run_id now user (some w.id) w.source_nl run.0 marked,
      )

  unfoldable pub confirm :
      Uuid → Time → Uuid → Uuid → AssistantState → Result ConfirmResponse × AssistantState
  confirm run_id now user id st = elim (get_workflow WorkflowStatus.pending user id st.workflows) [
    | err e ↦ (err e, st)
    | ok none ↦ (err not_found_error, st)
    | ok (some w) ↦ run_confirmed run_id now user w st
  ]

  -- The stored steps are planned again, so that they are checked against the skills of today.
  abbrev as_planned : WorkflowStep → PlannedStep
  as_planned s = record { skill = s.skill; arguments = s.arguments; depends_on = s.depends_on }

  abbrev run_name : AssistantWorkflow → Text
  run_name w = elim w.name [ none ↦ w.source_nl | some [] ↦ w.source_nl | some (c ∷ s) ↦ c ∷ s ]

  unfoldable pub run_saved :
      Uuid
      → Time
      → Uuid
      → AssistantWorkflow
      → AssistantState
      → Result ConfirmResponse × AssistantState
  run_saved run_id now user w st = elim (classify_steps registry (map as_planned w.steps)) [
    | err e ↦ (err e, st)
    | ok steps ↦
        let run = execute registry before_execution user steps st.drive in
        (
          ok (response w.id WorkflowStatus.executed run.0),
          record_run run_id now user (some w.id) (run_name w) run.0 (record st { drive = run.1 }),
        )
  ]

  unfoldable pub rerun_workflow :
      Uuid → Time → Uuid → Uuid → AssistantState → Result ConfirmResponse × AssistantState
  rerun_workflow run_id now user id st =
      elim (get_workflow WorkflowStatus.saved user id st.workflows) [
        | err e ↦ (err e, st)
        | ok none ↦ (err not_found_error, st)
        | ok (some w) ↦ run_saved run_id now user w st
      ]

unfoldable pub cancel :
    Time → Uuid → Uuid → AssistantState → Result ConfirmResponse × AssistantState
cancel now user id st = elim (get_workflow WorkflowStatus.pending user id st.workflows) [
  | err e ↦ (err e, st)
  | ok none ↦ (err not_found_error, st)
  | ok (some w) ↦ (
    ok (response w.id WorkflowStatus.cancelled []),
    set_status w.id WorkflowStatus.cancelled now st,
  )
]

unfoldable pub save_workflow :
    Registry
    → Uuid
    → Uuid
    → Time
    → Uuid
    → Text
    → Text
    → List PlannedStep
    → AssistantState
    → Result AssistantWorkflow × AssistantState
save_workflow registry new_id new_session now user name source planned st =
    elim (classify_steps registry planned) [
      | err e ↦ (err e, st)
      | ok steps ↦
          let w =
            new_workflow new_id now user new_session source steps WorkflowStatus.saved
              (some (take 200 name)) in
          (ok w, record st { workflows = st.workflows ++ w ∷ [] })
    ]

-- The skills of the write steps, each once and in their order.
distinct_skills : List Text → List WorkflowStep → List Text
distinct_skills names [] = names
distinct_skills names (s ∷ ss) =
    let added = distinct_skills (names ++ s.skill ∷ []) ss in
    let rest = distinct_skills names ss in if any (text_eq s.skill) names then rest else added

-- `", ".join(names)`
join_names : List Text → Text
join_names [] = []
join_names (n ∷ []) = n
join_names (n ∷ m ∷ ns) = n ++ 44 ∷ 32 ∷ join_names (m ∷ ns)

-- "Before assistant action"
abbrev label_head : Text
label_head =
    66 ∷ 101 ∷ 102 ∷ 111 ∷ 114 ∷ 101 ∷ 32 ∷ 97 ∷ 115 ∷ 115 ∷ 105 ∷ 115 ∷ 116 ∷ 97 ∷ 110 ∷ 116 ∷ 32
    ∷ 97 ∷ 99 ∷ 116 ∷ 105 ∷ 111 ∷ 110 ∷ []

label_of : List Text → Text
unfolding join_names
label_of [] = label_head
label_of (n ∷ ns) =
    let names = n ∷ ns in
    let more =
      if ltb 3 (length names)
      then 44 ∷ 32 ∷ 43 ∷ show (length names - 3) ++ 32 ∷ 109 ∷ 111 ∷ 114 ∷ 101 ∷ []
      else [] in
    label_head ++ 58 ∷ 32 ∷ join_names (take 3 names) ++ more

-- `_assistant_snapshot_label`
unfoldable pub assistant_snapshot_label : List WorkflowStep → Text
unfolding distinct_skills label_of
assistant_snapshot_label write_steps = label_of (distinct_skills [] write_steps)

-- The snapshot before a workflow that writes; what goes wrong in it never stops the workflow.
unfoldable pub snapshot_before_write_hook : Uuid → Time → Hook
snapshot_before_write_hook new_id now user steps db =
    let label = assistant_snapshot_label (keep (λ s. s.requires_approval) steps) in
    if any (λ s. s.requires_approval) steps
    then (create new_id now user Trigger.assistant label false db).1
    else db
