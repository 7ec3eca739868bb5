-- ===== src/Tests/Assistant.antt =====
-- The assistant's properties on a skill that lists and one that deletes.
use cloud_drive.Prelude.{
  ℕ, ◌≡◌, refl, inl, inr, Bool, not, true, false, none, some, List, [], ◌∷◌, ◌++◌, Text, text_eq,
  arith, length, any, keep, IfSome, IfSome-some, Bool-cases,
}
use cloud_drive.Model.{Uuid, Db}
use cloud_drive.Exec.{Result, ok, one_or_none, pure}
use cloud_drive.Assistant.Value.{
  ℤ, pos, Value, null, boolean, integer, string, object, Fields, end, field, lookup, any_field,
  map_fields, is_truthy,
}
use cloud_drive.Assistant.References.{
  from_key, selection_word, is_selection_ref, ref_source, get_field, step_ref,
}
use cloud_drive.Assistant.Steps.{
  SkillOutput, RegisteredSkill, Registry, get, read_tier, PlannedStep, WorkflowStep, classify_steps,
  classify_from, is_bad_dependency,
}
use cloud_drive.Assistant.Steps.Runnable.{IsRunnable, IsClassified, classify_steps-IsRunnable}
use cloud_drive.Assistant.Selection.{
  apply_selection, expand_steps, expand_step, selection_arguments, is_each, copies, resolved_value,
  selection_value, single, find_new, new_numbers, remap_deps, remap_step_ref,
}
use cloud_drive.Assistant.Selection.Runnable.{apply_selection-IsRunnable}
use cloud_drive.Assistant.Executor.{execute}
use cloud_drive.Assistant.Executor.Runs.{Run, execute-Run}
use cloud_drive.Assistant.Executor.Quiet.{IsReadOnly}
use cloud_drive.Assistant.Workflows.{
  AssistantState, WorkflowStatus, get_workflow, is_row, same_status, confirm, cancel, response,
  snapshot_before_write_hook, new_workflow,
}
use cloud_drive.Assistant.Workflows.Once.{IsSettled, confirm-IsSettled}
use cloud_drive.Assistant.Planning.{PlanResult, Planner, renumber_kept}
use cloud_drive.Assistant.Planning.Renumber.{renumber_kept-classify_steps}
use cloud_drive.Assistant.Context.{Role, LlmMessage, is_system, chars, max_chars_of, trim}
use cloud_drive.Assistant.Context.Trimmed.{IsSelected, trim-IsSelected}
use cloud_drive.Assistant.Validate
use cloud_drive.Assistant.Validate.{
  PlanProblem, ModelAnswer, plan_loop, validate_plan, validate_from, step_problems,
  dependency_problems, all_argument_problems, required_problems,
}
use cloud_drive.Assistant.Validate.Sound.{plan-classify_steps}
use cloud_drive.Assistant.Chat.{ChatIds, chat, create_pending}
use cloud_drive.Assistant.Chat.Gate.{
  IsUnwritten, snapshot_before_write_hook-IsQuiet, chat-IsUnwritten,
}
use cloud_drive.Assistant.Chat.Pending.{create_pending-confirm}
use cloud_drive.Tests.{drive_db}

abbrev lists : RegisteredSkill
lists = record {
  name = 108 ∷ [];
  permission_tier = read_tier;
  handler = λ user arguments. pure null;
  requires_selection = false;
  required = [];
  output = SkillOutput.opaque;
}

abbrev deletes : RegisteredSkill
deletes = record {
  name = 100 ∷ [];
  permission_tier = 119 ∷ [];
  handler = λ user arguments db. (ok null, record db { items = [] });
  requires_selection = false;
  required = [];
  output = SkillOutput.opaque;
}

abbrev skills : Registry
skills = lists ∷ deletes ∷ []

abbrev planned : Text → Fields → List ℤ → PlannedStep
planned skill arguments deps = record { skill = skill; arguments = arguments; depends_on = deps }

-- A listing, a deletion after it, and a listing after both.
abbrev two_reads : List PlannedStep
two_reads =
    planned (108 ∷ []) end []
    ∷ planned (100 ∷ []) end (pos 0 ∷ [])
    ∷ planned (108 ∷ []) end (pos 0 ∷ pos 1 ∷ [])
    ∷ []

abbrev step : ℕ → RegisteredSkill → Fields → List ℤ → Bool → WorkflowStep
step i skill arguments deps approval = record {
  index = i;
  skill = skill.name;
  arguments = arguments;
  depends_on = deps;
  permission_tier = skill.permission_tier;
  requires_approval = approval;
}

abbrev three_steps : List WorkflowStep
three_steps =
    step 0 lists end [] false
    ∷ step 1 deletes end (pos 0 ∷ []) true
    ∷ step 2 lists end (pos 0 ∷ pos 1 ∷ []) false
    ∷ []

classify_steps-IsRunnable_example :
    IsRunnable 0 three_steps × IsClassified skills two_reads three_steps
unfolding classify_steps classify_from is_bad_dependency get text_eq any
classify_steps-IsRunnable_example = classify_steps-IsRunnable skills two_reads three_steps refl

-- An argument that stands for every ticked item.
abbrev each_item : Value
each_item =
    object
      (field from_key (string selection_word) (field (101 ∷ 97 ∷ 99 ∷ 104 ∷ []) (boolean true) end))

abbrev item : ℕ → Fields
item i = field (105 ∷ 100 ∷ []) (integer (pos i)) end

abbrev on_each : List WorkflowStep
on_each =
    step 0 deletes (field (120 ∷ []) each_item end) [] true
    ∷ step 1 lists end (pos 0 ∷ []) false
    ∷ []

abbrev on_two : List WorkflowStep
on_two =
    step 0 deletes (field (120 ∷ []) (integer (pos 3)) end) [] true
    ∷ step 1 deletes (field (120 ∷ []) (integer (pos 4)) end) [] true
    ∷ step 2 lists end (pos 0 ∷ pos 1 ∷ []) false
    ∷ []

apply_selection-IsRunnable_example : IsRunnable 0 on_two
unfolding apply_selection any is_bad_dependency expand_steps expand_step any_field
    selection_arguments get text_eq is_each is_selection_ref ref_source lookup get_field is_truthy
    copies map_fields resolved_value selection_value single step_ref find_new new_numbers remap_deps
    remap_step_ref
apply_selection-IsRunnable_example =
    apply_selection-IsRunnable skills (item 3 ∷ item 4 ∷ []) on_each on_two
      (refl, (refl, (refl, (refl, tt)))) refl

execute-Run_example :
    let run = execute skills (λ user steps db. db) 7 three_steps drive_db in
    Run skills 7 [] three_steps drive_db run.0 run.1
execute-Run_example = execute-Run skills (λ user steps db. db) 7 three_steps drive_db

abbrev assistant_state : AssistantState
assistant_state = record {
  drive = drive_db;
  workflows = new_workflow 60 100 7 61 [] three_steps WorkflowStatus.pending none ∷ [];
  runs = [];
}

abbrev hook : Uuid → List WorkflowStep → Db → Db
hook = snapshot_before_write_hook 90 200

confirm-IsSettled_example : IsSettled skills hook 60 (cancel 200 7 60 assistant_state).1
unfolding cancel get_workflow one_or_none keep is_row same_status
confirm-IsSettled_example =
    confirm-IsSettled skills hook 70 200 7 60 assistant_state (cancel 200 7 60 assistant_state)
      (response 60 WorkflowStatus.cancelled []) (inr refl) refl

abbrev plan : PlanResult
plan = record { reply = []; steps = two_reads; needs_followup = true }

abbrev planner : Planner
planner items prompt = ok plan

abbrev ids : ChatIds
ids = record { session_id = 80; workflow_id = 81; run_id = 82; replan_run_id = 83 }

renumber_kept-classify_steps_example :
    (fresh : List PlannedStep) × (renumber_kept two_reads (0 ∷ 2 ∷ []) ≡ ok fresh)
    × ((out : List WorkflowStep) × (classify_steps skills fresh ≡ ok out))
unfolding classify_steps classify_from is_bad_dependency get text_eq any
renumber_kept-classify_steps_example =
    renumber_kept-classify_steps skills two_reads three_steps (0 ∷ 2 ∷ []) refl
      (omega arith, (omega arith, tt)) (omega arith, (omega arith, tt))

create_pending-confirm_example :
    let asked =
      (create_pending skills hook planner ids 200 7 [] plan three_steps assistant_state).1 in
    let run = execute skills hook 7 three_steps drive_db in
    let confirmed = confirm skills hook 84 300 7 81 asked in
    (confirmed.0 ≡ ok (response 81 WorkflowStatus.executed run.0))
    × (length run.0 ≡ length three_steps)
    × (confirmed.1.drive ≡ run.1)
unfolding any
create_pending-confirm_example =
    create_pending-confirm skills hook planner ids 200 7 [] plan three_steps assistant_state 84 300
      refl

skills-read :
    (name : Text)
    → IfSome
        (λ s.
          text_eq s.permission_tier read_tier ≡ true
          → (user : Uuid) (arguments : Fields) (db : Db) → (s.handler user arguments db).1 ≡ db)
        (get name skills)
unfolding get text_eq
skills-read name = elim (Bool-cases (text_eq (108 ∷ []) name)) [
  | inl e ↦ rw (e, IfSome) (λ h user arguments db. refl)
  | inr e ↦ elim (Bool-cases (text_eq (100 ∷ []) name)) [
    | inl f ↦ rw (e, f, IfSome) (λ h. absurd (ground arith))
    | inr f ↦ rw (e, f, IfSome) tt
  ]
]

skills-IsReadOnly : IsReadOnly skills
skills-IsReadOnly name skill found =
    IfSome-some
      (λ s.
        text_eq s.permission_tier read_tier ≡ true
        → (user : Uuid) (arguments : Fields) (db : Db) → (s.handler user arguments db).1 ≡ db)
      _ skill found (skills-read name)

chat-IsUnwritten_example :
    IsUnwritten assistant_state
      (chat skills hook planner (λ message. ok none) true ids 200 7 [] [] assistant_state).1
chat-IsUnwritten_example =
    chat-IsUnwritten skills skills-IsReadOnly hook (snapshot_before_write_hook-IsQuiet 90 200)
      planner (λ message. ok none) true ids 200 7 [] [] assistant_state

abbrev llm : List (List PlanProblem) → Result ModelAnswer
llm asked = ok (record {
  content = [];
  parsed = some (record plan { steps = planned (108 ∷ []) end (pos 2 ∷ []) ∷ [] });
})

plan-classify_steps_example :
    (steps : List WorkflowStep) × (classify_steps skills
        (two_reads ++ planned (108 ∷ []) end (pos 2 ∷ []) ∷ [])
      ≡ ok steps)
unfolding classify_steps classify_from is_bad_dependency get text_eq any Validate.plan plan_loop
    validate_plan validate_from step_problems dependency_problems all_argument_problems
    required_problems
plan-classify_steps_example =
    plan-classify_steps llm skills two_reads 2
      (record plan { steps = planned (108 ∷ []) end (pos 2 ∷ []) ∷ [] }) three_steps refl refl

abbrev said : Role → Text → LlmMessage
said role content = record { role = role; content = content }

trim-IsSelected_example :
    let messages =
      said Role.system (1 ∷ []) ∷ said Role.user (2 ∷ []) ∷ said Role.assistant (3 ∷ []) ∷ [] in
    (kept : List LlmMessage) × (trim 1 messages ≡ keep is_system messages ++ kept)
    × IsSelected
        (max_chars_of 1)
        (chars (keep is_system messages))
        (keep (λ m. not (is_system m)) messages)
        kept
trim-IsSelected_example =
    trim-IsSelected 1
      (said Role.system (1 ∷ []) ∷ said Role.user (2 ∷ []) ∷ said Role.assistant (3 ∷ []) ∷ [])
