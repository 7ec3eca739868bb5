-- ===== src/Assistant/Executor/Quiet.antt =====
-- The lemmas on workflows that need no approval.
use cloud_drive.Prelude.{
  ◌≡◌, refl, ◌∙◌, inl, inr, true, false, some, List, [], ◌∷◌, ◌++◌, Text, All, text_eq, arith,
  Bool-cases, Option-cases, ℕ,
}
use cloud_drive.Model.{Uuid, Db}
use cloud_drive.Exec.{Result, ok, err, Exec, continue, pure, ◌>>=◌}
use cloud_drive.Assistant.Value.{Value, Values, Fields, cons}
use cloud_drive.Assistant.Steps.{
  Registry, RegisteredSkill, get, run_skill, read_tier, WorkflowStep, is_auto_confirmable,
}
use cloud_drive.Assistant.Steps.Marks.{IsMarked, head_auto_confirmable}
use cloud_drive.Assistant.Resolve.{has_fanout, resolve_fanout_arguments, resolve_arguments}
use cloud_drive.Assistant.Executor.{
  StepResult, run_each, run_step, step_outcome, collected, now_unavailable, run_steps, ok_outputs,
  Hook, execute,
}
use cloud_drive.Assistant.Executor.Runs.{step_outcome-cases}

-- A skill of the tier `read` leaves the database as it is.
abbrev pub IsReadOnly : Registry → Type 0
IsReadOnly registry =
    (name : Text) (skill : RegisteredSkill)
    → get name registry ≡ some skill
    → text_eq skill.permission_tier read_tier ≡ true
    → (user : Uuid) (arguments : Fields) (db : Db) → (skill.handler user arguments db).1 ≡ db

-- A hook that does nothing before a workflow that needs no approval.
abbrev pub IsQuiet : Hook → Type 0
IsQuiet hook =
    (user : Uuid) (steps : List WorkflowStep) (db : Db)
    → is_auto_confirmable steps ≡ true
    → hook user steps db ≡ db

continue_quiet :
    {A B : Type 0} (r : Result A) (f : A → Exec B) (db : Db)
    → ((a : A) → (f a db).1 ≡ db)
    → (continue r f db).1 ≡ db
continue_quiet (ok a) f db h = h a
continue_quiet (err e) f db h = refl

bind_quiet :
    {A B : Type 0} (m : Exec A) (f : A → Exec B) (db : Db)
    → (m db).1 ≡ db
    → ((a : A) → (f a db).1 ≡ db)
    → ((m >>= f) db).1 ≡ db
bind_quiet m f db h k = rw h (continue_quiet (m db).0 f db k)

module _ (registry : Registry) (read_only : IsReadOnly registry) (user : Uuid) where
  run_skill_quiet :
      (s : WorkflowStep)
      → IsMarked registry s
      → s.requires_approval ≡ false
      → (arguments : Fields) (db : Db) → (run_skill registry user s.skill arguments db).1 ≡ db
  unfolding run_skill
  run_skill_quiet s (skill, found, mark) free arguments db =
      rw (found, run_skill) (read_only s.skill skill found (ground arith) user arguments db)

  run_each_quiet :
      (s : WorkflowStep)
      → IsMarked registry s
      → s.requires_approval ≡ false
      → (rows : List Fields) (db : Db) → (run_each registry user s.skill rows db).1 ≡ db
  unfolding run_each
  run_each_quiet s mark free [] db = refl
  run_each_quiet s mark free (r ∷ rs) db =
      bind_quiet (run_skill registry user s.skill r) (rest_of r) db
        (run_skill_quiet s mark free r db)
        (λ output.
          bind_quiet (run_each registry user s.skill rs) (λ outputs. pure (cons output outputs)) db
            (run_each_quiet s mark free rs db) (λ outputs. refl))
    where
      rest_of : Fields → Value → Exec Values
      rest_of r output = run_each registry user s.skill rs >>= λ outputs. pure (cons output outputs)

  run_step_quiet :
      (done : List StepResult) (s : WorkflowStep)
      → IsMarked registry s
      → s.requires_approval ≡ false
      → (db : Db) → (run_step registry user done s db).1 ≡ db
  unfolding run_step
  run_step_quiet done s mark free db = elim (Bool-cases (has_fanout s.arguments)) [
    | inl e ↦ elim (Option-cases (resolve_fanout_arguments (ok_outputs done) s.arguments)) [
      | inl f ↦ rw (e, f) refl
      | inr (rows, f) ↦
          rw (e, f)
            (bind_quiet (run_each registry user s.skill rows) (λ outputs. pure (collected outputs))
              db (run_each_quiet s mark free rows db) (λ outputs. refl))
    ]
    | inr e ↦ elim (Option-cases (resolve_arguments (ok_outputs done) s.arguments)) [
      | inl f ↦ rw (e, f) refl
      | inr (arguments, f) ↦ rw (e, f) (run_skill_quiet s mark free arguments db)
    ]
  ]

  step_outcome_quiet :
      (done : List StepResult) (unavailable : List ℕ) (s : WorkflowStep)
      → IsMarked registry s
      → s.requires_approval ≡ false
      → (db : Db) → (step_outcome registry user done unavailable s db).1 ≡ db
  step_outcome_quiet done unavailable s mark free db =
      elim (step_outcome-cases registry user done unavailable s db) [
        | inl (e, run) ↦ rw e (run_step_quiet done s mark free db)
        | inr (blocked, (e, stop)) ↦ rw e refl
      ]

  run_steps_quiet :
      (ss : List WorkflowStep)
      → All (IsMarked registry) ss
      → is_auto_confirmable ss ≡ true
      → (done : List StepResult) (unavailable : List ℕ) (db : Db)
      → (run_steps registry user done unavailable ss db).1 ≡ db
  unfolding run_steps
  run_steps_quiet [] marks free done unavailable db = refl
  run_steps_quiet (s ∷ ss) marks free done unavailable db =
      let now = step_outcome registry user done unavailable s db in
      let auto = head_auto_confirmable s ss free in
      run_steps_quiet ss marks.1 auto.1 (done ++ now.0 ∷ []) (now_unavailable unavailable now.0)
        now.1
      ∙ step_outcome_quiet done unavailable s marks.0 auto.0 db

  pub execute_quiet :
      (hook : Hook)
      → IsQuiet hook
      → (steps : List WorkflowStep) → All (IsMarked registry) steps
      → is_auto_confirmable steps ≡ true
      → (db : Db) → (execute registry hook user steps db).1 ≡ db
  unfolding execute
  execute_quiet hook quiet steps marks free db =
      run_steps_quiet steps marks free [] [] (hook user steps db) ∙ quiet user steps db free
