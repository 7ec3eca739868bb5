-- ===== src/Assistant/Executor.antt =====
-- Running a workflow (backend/app/assistant/workflow.py, `WorkflowExecutor`): one step after the
-- other, where a failure blocks only the steps that need it.
pub mod Runs
pub mod Quiet
use cloud_drive.Prelude.{
  ℕ, Bool, true, false, ◌&&◌, Option, none, some, List, [], ◌∷◌, ◌++◌, Text, mem, keep, ◌==◌,
  if◌then◌else◌,
}
use cloud_drive.Model.{Uuid, Error, Db}
use cloud_drive.Exec.{Result, ok, err, Exec, pure, ◌>>=◌}
use cloud_drive.Assistant.Value.{
  ℤ, pos, negsuc, Value, integer, array, object, Values, nil, cons, Fields, end, field, len,
}
use cloud_drive.Assistant.References.{step_ref}
use cloud_drive.Assistant.Steps.{Registry, run_skill, WorkflowStep}
use cloud_drive.Assistant.Resolve.{resolve_arguments, has_fanout, resolve_fanout_arguments}

-- What the text of an error says: the dependencies that did not succeed, a reference that does not
-- resolve, or the exception of the skill.
pub data StepError : Type 0 where
  blocked_by : List ℤ → StepError
  resolution : StepError
  raised : Error → StepError

pub record StepResult : Type 0 where
  pub index : ℕ
  pub skill : Text
  pub is_ok : Bool
  pub output : Option Value
  pub error : Option StepError
  pub skipped : Bool

-- The steps that the arguments refer to.
unfoldable pub reference_sources : Fields → List ℤ
reference_sources end = []
reference_sources (field k v fs) =
    let rest = reference_sources fs in elim (step_ref v) [ none ↦ rest | some i ↦ i ∷ rest ]

unfoldable pub needs : WorkflowStep → List ℤ
needs step = step.depends_on ++ reference_sources step.arguments

unfoldable pub is_among : List ℕ → ℤ → Bool
is_among unavailable (pos i) = mem i unavailable
is_among unavailable (negsuc i) = false

unfoldable pub blocked_dependencies : WorkflowStep → List ℕ → List ℤ
blocked_dependencies step unavailable = keep (is_among unavailable) (needs step)

-- `{r.index: r for r in results if r.ok}`: the last result with the number counts.
unfoldable pub ok_output : List StepResult → ℕ → Option Value
ok_output [] i = none
ok_output (r ∷ rs) i = elim (ok_output rs i) [
  | some v ↦ some v
  | none ↦ if r.is_ok && r.index == i then r.output else none
]

unfoldable pub ok_outputs : List StepResult → ℤ → Option Value
ok_outputs results (pos i) = ok_output results i
ok_outputs results (negsuc i) = none

unfoldable pub run_each : Registry → Uuid → Text → List Fields → Exec Values
run_each registry user skill [] = pure nil
run_each registry user skill (arguments ∷ more) = do
  output ← run_skill registry user skill arguments
  outputs ← run_each registry user skill more
  pure (cons output outputs)

-- `{"items": outputs, "count": len(outputs)}`
abbrev pub collected : Values → Value
collected outputs = object (
    field (105 ∷ 116 ∷ 101 ∷ 109 ∷ 115 ∷ []) (array outputs)
      (field (99 ∷ 111 ∷ 117 ∷ 110 ∷ 116 ∷ []) (integer (pos (len outputs))) end))

abbrev pub ok_result : WorkflowStep → Value → StepResult
ok_result step v = record {
  index = step.index;
  skill = step.skill;
  is_ok = true;
  output = some v;
  error = none;
  skipped = false;
}

abbrev pub failed_result : WorkflowStep → StepError → StepResult
failed_result step e = record {
  index = step.index;
  skill = step.skill;
  is_ok = false;
  output = none;
  error = some e;
  skipped = false;
}

abbrev pub skipped_result : WorkflowStep → List ℤ → StepResult
skipped_result step blocked = record {
  index = step.index;
  skill = step.skill;
  is_ok = false;
  output = none;
  error = some (blocked_by blocked);
  skipped = true;
}

abbrev pub attempt : WorkflowStep → Result Value → StepResult
attempt step (ok v) = ok_result step v
attempt step (err e) = failed_result step (raised e)

-- The `try` block: a raise of the skill becomes a failed result, and what it wrote stays.
unfoldable pub run_step : Registry → Uuid → List StepResult → WorkflowStep → Db → StepResult × Db
run_step registry user results step db =
    if has_fanout step.arguments
    then elim (resolve_fanout_arguments (ok_outputs results) step.arguments) [
      | none ↦ (failed_result step resolution, db)
      | some rows ↦
          let run =
            (run_each registry user step.skill rows >>= λ outputs. pure (collected outputs)) db in
          (attempt step run.0, run.1)
    ]
    else elim (resolve_arguments (ok_outputs results) step.arguments) [
      | none ↦ (failed_result step resolution, db)
      | some arguments ↦
          let run = run_skill registry user step.skill arguments db in (attempt step run.0, run.1)
    ]

-- A step that is blocked is not run.
unfoldable pub step_outcome :
    Registry → Uuid → List StepResult → List ℕ → WorkflowStep → Db → StepResult × Db
step_outcome registry user results unavailable step db =
    elim (blocked_dependencies step unavailable) [
      | [] ↦ run_step registry user results step db
      | d ∷ ds ↦ (skipped_result step (d ∷ ds), db)
    ]

abbrev pub now_unavailable : List ℕ → StepResult → List ℕ
now_unavailable unavailable result =
    if result.is_ok then unavailable else result.index ∷ unavailable

-- The loop, which returns the results of the steps that are left.
unfoldable pub run_steps :
    Registry → Uuid → List StepResult → List ℕ → List WorkflowStep → Db → List StepResult × Db
run_steps registry user results unavailable [] db = ([], db)
run_steps registry user results unavailable (s ∷ ss) db =
    let now = step_outcome registry user results unavailable s db in
    let rest =
      run_steps registry user (results ++ now.0 ∷ []) (now_unavailable unavailable now.0) ss
        now.1 in
    (now.0 ∷ rest.0, rest.1)

-- The hooks that run before the steps; the others only write the log.
abbrev pub Hook : Type 0
Hook = Uuid → List WorkflowStep → Db → Db

unfoldable pub execute : Registry → Hook → Uuid → List WorkflowStep → Db → List StepResult × Db
execute registry before_execution user steps db =
    run_steps registry user [] [] steps (before_execution user steps db)
