-- ===== src/Assistant/Executor/Runs.antt =====
-- What running a workflow means, apart from the set of unavailable steps that the executor keeps: a
-- relation on the results so far, the steps, the database, the results and the final database.
use cloud_drive.Prelude.{
  ℕ, suc, ◌≡◌, refl, sym, ◌∙◌, ◌⊎◌, inl, inr, Bool, true, false, not, ◌&&◌, List, [], ◌∷◌, ◌++◌,
  arith, mem, keep, any, any-append, ◌==◌, Bool-cases, length, ap,
}
use cloud_drive.Model.{Uuid, Db}
use cloud_drive.Assistant.Value.{ℤ, pos, negsuc}
use cloud_drive.Assistant.Steps.{Registry, WorkflowStep}
use cloud_drive.Assistant.Executor.{
  StepResult, needs, is_among, blocked_dependencies, skipped_result, run_step, step_outcome,
  now_unavailable, run_steps, Hook, execute,
}

abbrev pub has_failed : ℕ → StepResult → Bool
has_failed i r = r.index == i && not r.is_ok

-- An earlier step with the number has a result and did not succeed.
unfoldable pub failed_in : List StepResult → ℤ → Bool
failed_in done (pos i) = any (has_failed i) done
failed_in done (negsuc i) = false

pub data Run (registry : Registry) (user : Uuid)
    : List StepResult → List WorkflowStep → Db → List StepResult → Db → Type 0 where
  finished : {done : List StepResult} {db : Db} → Run registry user done [] db [] db
  skips :
      {done : List StepResult} {s : WorkflowStep} {ss : List WorkflowStep} {db after : Db}
      {rs : List StepResult} (blocked : List ℤ)
      → any (failed_in done) (needs s) ≡ true
      → Run registry user (done ++ skipped_result s blocked ∷ []) ss db rs after
      → Run registry user done (s ∷ ss) db (skipped_result s blocked ∷ rs) after
  tries :
      {done : List StepResult} {s : WorkflowStep} {ss : List WorkflowStep} {db after : Db}
      {rs : List StepResult}
      → any (failed_in done) (needs s) ≡ false
      → Run registry user
          (done ++ (run_step registry user done s db).0 ∷ [])
          ss
          (run_step registry user done s db).1
          rs
          after
      → Run registry user done (s ∷ ss) db ((run_step registry user done s db).0 ∷ rs) after

-- The set of unavailable steps is that of the failed results.
abbrev IsTracked : List StepResult → List ℕ → Type 0
IsTracked done unavailable = (i : ℕ) → mem i unavailable ≡ any (has_failed i) done

now_unavailable-IsTracked :
    (done : List StepResult) (unavailable : List ℕ) (r : StepResult)
    → IsTracked done unavailable
    → IsTracked (done ++ r ∷ []) (now_unavailable unavailable r)
unfolding mem any
now_unavailable-IsTracked done unavailable r h i = elim (Bool-cases r.is_ok) [
  | inl e ↦ rw (any-append (has_failed i) done (r ∷ []), e) (ground (arith, h i))
  | inr e ↦ rw (any-append (has_failed i) done (r ∷ []), e) (ground (arith, h i))
]

is_among-failed_in :
    (done : List StepResult) (unavailable : List ℕ)
    → IsTracked done unavailable
    → (ds : List ℤ) → any (is_among unavailable) ds ≡ any (failed_in done) ds
unfolding any is_among failed_in
is_among-failed_in done unavailable h [] = refl
is_among-failed_in done unavailable h (pos d ∷ ds) =
    rw (h d, is_among-failed_in done unavailable h ds) refl
is_among-failed_in done unavailable h (negsuc d ∷ ds) = is_among-failed_in done unavailable h ds

keep-cases {ℓ} :
    {A : Type ℓ} (test : A → Bool) (xs : List A)
    → ((keep test xs ≡ []) × (any test xs ≡ false))
      ⊎ ((y : A) × (ys : List A) × ((keep test xs ≡ y ∷ ys) × (any test xs ≡ true)))
unfolding keep any
keep-cases test [] = inl (refl, refl)
keep-cases test (x ∷ xs) = elim (Bool-cases (test x)) [
  | inl e ↦ rw e (inr (x, keep test xs, (refl, refl)))
  | inr e ↦ rw e (keep-cases test xs)
]

pub step_outcome-cases :
    (registry : Registry) (user : Uuid) (done : List StepResult) (unavailable : List ℕ)
    (s : WorkflowStep) (db : Db)
    → ((step_outcome registry user done unavailable s db ≡ run_step registry user done s db)
        × (any (is_among unavailable) (needs s) ≡ false))
      ⊎ ((blocked : List ℤ) × ((step_outcome registry user done unavailable s db
              ≡ (skipped_result s blocked, db))
            × (any (is_among unavailable) (needs s) ≡ true)))
unfolding step_outcome blocked_dependencies
step_outcome-cases registry user done unavailable s db =
    elim (keep-cases (is_among unavailable) (needs s)) [
      | inl (e, free) ↦ inl (rw (e, step_outcome) refl, free)
      | inr (d, ds, (e, blocked)) ↦ inr (d ∷ ds, (rw (e, step_outcome) refl, blocked))
    ]

run_steps-Run :
    (registry : Registry) (user : Uuid) (done : List StepResult) (unavailable : List ℕ)
    → IsTracked done unavailable
    → (ss : List WorkflowStep) (db : Db)
    → let run = run_steps registry user done unavailable ss db in
      Run registry user done ss db run.0 run.1
unfolding run_steps
run_steps-Run registry user done unavailable h [] db = finished
run_steps-Run registry user done unavailable h (s ∷ ss) db =
    let next = λ (r : StepResult) (mid : Db).
      run_steps-Run registry user (done ++ r ∷ []) (now_unavailable unavailable r)
        (now_unavailable-IsTracked done unavailable r h) ss mid in
    let same = is_among-failed_in done unavailable h (needs s) in
    elim (step_outcome-cases registry user done unavailable s db) [
      | inl (e, free) ↦ rw e (tries (sym same ∙ free) (next _ _))
      | inr (blocked, (e, stop)) ↦ rw e (skips blocked (sym same ∙ stop) (next _ _))
    ]

-- Executing a workflow gives each step in turn one result: a step is skipped, and changes nothing, exactly
-- when a step that it depends on or refers to has failed or was skipped before, and every other step runs
-- on the results so far, whether or not unrelated steps failed.
pub execute-Run :
    (registry : Registry) (before_execution : Hook) (user : Uuid) (steps : List WorkflowStep)
    (db : Db)
    → let run = execute registry before_execution user steps db in
      Run registry user [] steps (before_execution user steps db) run.0 run.1
unfolding execute mem any
execute-Run registry before_execution user steps db =
    run_steps-Run registry user [] [] (λ i. refl) steps (before_execution user steps db)

length-Run :
    (registry : Registry) (user : Uuid) (done : List StepResult) (ss : List WorkflowStep) (db : Db)
    (rs : List StepResult) (after : Db)
    → Run registry user done ss db rs after
    → length rs ≡ length ss
length-Run registry user done ss db rs after finished = refl
length-Run registry user done ss db rs after (skips blocked h rest) =
    ap suc (length-Run registry user _ _ _ _ _ rest)
length-Run registry user done ss db rs after (tries h rest) =
    ap suc (length-Run registry user _ _ _ _ _ rest)

pub length-execute :
    (registry : Registry) (hook : Hook) (user : Uuid) (steps : List WorkflowStep) (db : Db)
    → length (execute registry hook user steps db).0 ≡ length steps
length-execute registry hook user steps db =
    length-Run registry user [] steps (hook user steps db) _ _
      (execute-Run registry hook user steps db)
