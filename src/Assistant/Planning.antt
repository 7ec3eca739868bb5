-- ===== src/Assistant/Planning.antt =====
-- Planning in two passes (backend/app/assistant/service.py, `_maybe_plan_followup`): the steps that only
-- read run first, and a second plan continues from what they returned. The planner, a language model
-- behind backend/app/assistant/planner.py, is a parameter that may answer anything.
pub mod Renumber
use cloud_drive.Prelude.{
  ℕ, zero, suc, Bool, true, false, not, ◌&&◌, ◌||◌, Option, none, some, List, [], ◌∷◌, ◌++◌, map,
  Text, mem, ◌==◌, is_some, if◌then◌else◌,
}
use cloud_drive.Model.{Uuid, Db, index_error, type_error}
use cloud_drive.Exec.{Result, ok, err, bind_result}
use cloud_drive.Assistant.Value.{
  ℤ, pos, negsuc, Value, null, boolean, integer, string, array, object, Fields, end, field, lookup,
  put,
}
use cloud_drive.Assistant.References.{from_key, from_step_key, ref_source, step_ref}
use cloud_drive.Assistant.Steps.{Registry, PlannedStep, WorkflowStep, classify_steps}
use cloud_drive.Assistant.Selection.{has_selection_reference}
use cloud_drive.Assistant.Executor.{StepResult, Hook, execute}

pub record PlanResult : Type 0 where
  pub reply : Text
  pub steps : List PlannedStep
  pub needs_followup : Bool

-- What the planner is asked: a request, the rest of a plan after its first steps were run and what they
-- returned, or another plan after a failed run.
pub data Prompt : Type 0 where
  request : Text → Prompt
  follow_up : Text → List PlannedStep → List StepResult → Prompt
  failed_run : Text → List StepResult → Prompt

-- The planner for one message: the target and the history are the same in each of its calls.
abbrev pub Planner : Type 0
Planner = List Fields → Prompt → Result PlanResult

-- `ref_source(value) in indices`, where `True` is 1 and a list or a dict cannot be looked up.
unfoldable pub is_in_indices : List ℕ → Value → Result Bool
is_in_indices indices null = ok false
is_in_indices indices (boolean true) = ok (mem 1 indices)
is_in_indices indices (boolean false) = ok (mem 0 indices)
is_in_indices indices (integer (pos i)) = ok (mem i indices)
is_in_indices indices (integer (negsuc i)) = ok false
is_in_indices indices (string s) = ok false
is_in_indices indices (array vs) = err type_error
is_in_indices indices (object fs) = err type_error

unfoldable pub consumes_output_of : Fields → List ℕ → Result Bool
consumes_output_of end indices = ok false
consumes_output_of (field k v fs) indices =
    let rest = consumes_output_of fs indices in
    bind_result (is_in_indices indices (ref_source v)) (λ found. if found then ok true else rest)

unfoldable pub approval_steps : List WorkflowStep → List ℕ
approval_steps [] = []
approval_steps (s ∷ ss) =
    let rest = approval_steps ss in if s.requires_approval then s.index ∷ rest else rest

-- The steps that only read and need nothing of those that are left out.
unfoldable pub recon_steps : List ℕ → List WorkflowStep → Result (List WorkflowStep)
recon_steps skipped [] = ok []
recon_steps skipped (s ∷ ss) =
    let rest = recon_steps skipped ss in
    if mem s.index skipped
    then rest
    else bind_result (consumes_output_of s.arguments skipped)
        (λ consumes. if consumes then rest else bind_result rest (λ kept. ok (s ∷ kept)))

-- `{old: new for new, old in enumerate(kept)}`, whose numbers begin at `n`
unfoldable pub position_from : ℕ → ℕ → List ℕ → Option ℕ
position_from i n [] = none
position_from i n (k ∷ ks) =
    let rest = position_from i (suc n) ks in if k == i then some n else rest

unfoldable pub position : List ℕ → ℤ → Option ℕ
position kept (pos i) = position_from i 0 kept
position kept (negsuc i) = none

unfoldable pub renumber_deps : List ℕ → List ℤ → List ℤ
renumber_deps kept [] = []
renumber_deps kept (d ∷ ds) =
    let rest = renumber_deps kept ds in
    elim (position kept d) [ none ↦ rest | some new ↦ pos new ∷ rest ]

-- `{**value, key_name: new}`
point_at : ℕ → Value → Value
point_at new (object fs) =
    let key_name = if is_some (lookup from_key fs) then from_key else from_step_key in
    object (put key_name (integer (pos new)) fs)
point_at new v = v

unfoldable pub renumber_value : List ℕ → Value → Value
unfolding point_at
renumber_value kept v = elim (step_ref v) [
  | none ↦ v
  | some source ↦ elim (position kept source) [ none ↦ v | some new ↦ point_at new v ]
]

unfoldable pub renumber_fields : List ℕ → Fields → Fields
renumber_fields kept end = end
renumber_fields kept (field k v fs) = field k (renumber_value kept v) (renumber_fields kept fs)

abbrev pub renumber_step : List ℕ → PlannedStep → PlannedStep
renumber_step kept p = record {
  skill = p.skill;
  arguments = renumber_fields kept p.arguments;
  depends_on = renumber_deps kept p.depends_on;
}

-- `planned[i]`
unfoldable pub planned_at : ℕ → List PlannedStep → Option PlannedStep
planned_at i [] = none
planned_at zero (p ∷ ps) = some p
planned_at (suc i) (p ∷ ps) = planned_at i ps

unfoldable pub renumber_each : List PlannedStep → List ℕ → List ℕ → Result (List PlannedStep)
renumber_each planned kept [] = ok []
renumber_each planned kept (old ∷ olds) =
    let rest = renumber_each planned kept olds in
    elim (planned_at old planned) [
      | none ↦ err index_error
      | some p ↦ bind_result rest (λ steps. ok (renumber_step kept p ∷ steps))
    ]

unfoldable pub renumber_kept : List PlannedStep → List ℕ → Result (List PlannedStep)
renumber_kept planned kept = renumber_each planned kept kept

abbrev pub is_empty {ℓ} : {A : Type ℓ} → List A → Bool
is_empty [] = true
is_empty (x ∷ xs) = false

-- `reply or other`
unfoldable pub reply_or : Text → Text → Text
reply_or [] other = other
reply_or (c ∷ s) other = c ∷ s

-- The second plan after the steps of the first that were run.
combine : PlanResult → List PlannedStep → PlanResult → PlanResult
unfolding reply_or
combine plan kept followup = if is_empty followup.steps then plan else record {
  reply = reply_or followup.reply plan.reply;
  steps = kept ++ followup.steps;
  needs_followup = false;
}

module _ (registry : Registry) (before_execution : Hook) (planner : Planner) where
  unfoldable pub run_recon :
      PlanResult → Uuid → Text → List Fields → List WorkflowStep → Db → Result PlanResult × Db
  unfolding combine
  run_recon plan user message items [] db = (ok plan, db)
  run_recon plan user message items (r ∷ rs) db =
      let recon = r ∷ rs in
      let run = execute registry before_execution user recon db in
      (
        bind_result (renumber_kept plan.steps (map (λ s. s.index) recon)) (λ kept.
            bind_result (planner items (follow_up message kept run.0))
              (λ followup. ok (combine plan kept followup))),
        run.1,
      )

  unfoldable pub maybe_plan_followup :
      Bool → PlanResult → Uuid → Text → List Fields → Db → Result PlanResult × Db
  maybe_plan_followup two_phase plan user message items db =
      if two_phase && plan.needs_followup
      then elim (classify_steps registry plan.steps) [
        | err e ↦ (err e, db)
        | ok steps ↦
            if not (is_empty items) && has_selection_reference registry steps
            then (ok plan, db)
            else elim (recon_steps (approval_steps steps) steps) [
              | err e ↦ (err e, db)
              | ok recon ↦ run_recon plan user message items recon db
            ]
      ]
      else (ok plan, db)
