-- ===== src/Assistant/Chat/Gate.antt =====
-- The lemmas on what a message to the assistant does to the drive.
use cloud_drive.Prelude.{
  ℕ, ◌≡◌, refl, ◌∙◌, ◌⊎◌, inl, inr, Bool, true, false, not, ◌&&◌, ◌||◌, Option, none, some, List,
  [], ◌∷◌, ◌++◌, Text, All, mem, any, arith, Bool-cases, Option-cases,
}
use cloud_drive.Model.{Uuid, Time, Db}
use cloud_drive.Exec.{Result, ok, err, bind_result, Ensures, Ensures-ok, Result-cases}
use cloud_drive.Assistant.Value.{Fields}
use cloud_drive.Assistant.Steps.{Registry, WorkflowStep, classify_steps, is_auto_confirmable}
use cloud_drive.Assistant.Steps.Marks.{IsMarked, classify_steps-IsMarked}
use cloud_drive.Assistant.Selection.{has_selection_reference, apply_selection}
use cloud_drive.Assistant.Selection.Marks.{apply_selection-IsMarked}
use cloud_drive.Assistant.Executor.{StepResult, Hook, execute}
use cloud_drive.Assistant.Executor.Quiet.{IsReadOnly, IsQuiet, execute_quiet}
use cloud_drive.Assistant.Workflows.{
  AssistantState, AssistantWorkflow, WorkflowStatus, all_ok, record_run, snapshot_before_write_hook,
}
use cloud_drive.Assistant.Planning.{
  PlanResult, Planner, request, failed_run, is_empty, approval_steps, consumes_output_of,
  recon_steps, run_recon, maybe_plan_followup,
}
use cloud_drive.Assistant.Chat.{
  ChatResponse, auto_executed, ChatIds, resolve_selection, replan_after_failure, run_at_once,
  create_pending, or_else, with_plan, run_or_store, chat_plan, chat_items, chat,
}

pub snapshot_before_write_hook-IsQuiet :
    (new_id : Uuid) (now : Time) → IsQuiet (snapshot_before_write_hook new_id now)
unfolding snapshot_before_write_hook is_auto_confirmable
snapshot_before_write_hook-IsQuiet new_id now user steps db free = ground arith

-- The drive is as before, and at most one workflow was added, which waits for the user.
abbrev pub IsUnwritten : AssistantState → AssistantState → Type 0
IsUnwritten st after =
    (after.drive ≡ st.drive)
    × ((after.workflows ≡ st.workflows)
        ⊎ ((w : AssistantWorkflow) × (w.status ≡ WorkflowStatus.pending)
            × (after.workflows ≡ st.workflows ++ w ∷ [])))

abbrev IsQuietRun : Registry → List WorkflowStep → Type 0
IsQuietRun registry recon = All (IsMarked registry) recon × (is_auto_confirmable recon ≡ true)

IsQuietRun-cons :
    (registry : Registry) (s : WorkflowStep) (r : Result (List WorkflowStep))
    → IsMarked registry s
    → s.requires_approval ≡ false
    → Ensures (IsQuietRun registry) r
    → Ensures (IsQuietRun registry) (bind_result r (λ kept. ok (s ∷ kept)))
unfolding is_auto_confirmable any
IsQuietRun-cons registry s (err e) mark free h = tt
IsQuietRun-cons registry s (ok kept) mark free h = ((mark, h.0), ground (arith, h.1))

-- The steps that are run to look around: they are marked, and none needs approval.
recon_steps-quiet :
    (registry : Registry) (skipped : List ℕ) (ss : List WorkflowStep)
    → All (IsMarked registry) ss
    → All (λ s. s.requires_approval ≡ true → mem s.index skipped ≡ true) ss
    → Ensures (IsQuietRun registry) (recon_steps skipped ss)
unfolding recon_steps is_auto_confirmable any
recon_steps-quiet registry skipped [] marks h = (tt, refl)
recon_steps-quiet registry skipped (s ∷ ss) marks h =
    let more = recon_steps-quiet registry skipped ss marks.1 h.1 in
    let approved = h.0 in
    elim (Bool-cases (mem s.index skipped)) [
      | inl e ↦ rw (e, Ensures) more
      | inr e ↦ elim (Result-cases (consumes_output_of s.arguments skipped)) [
        | inl (bad, f) ↦ rw (e, f, Ensures) tt
        | inr (true, f) ↦ rw (e, f, Ensures) more
        | inr (false, f) ↦
            rw (e, f, Ensures)
              (IsQuietRun-cons registry s (recon_steps skipped ss) marks.0 (ground arith) more)
      ]
    ]

abbrev IsCovered : List ℕ → List WorkflowStep → Type 0
IsCovered skipped = All (λ s. s.requires_approval ≡ true → mem s.index skipped ≡ true)

IsCovered-mono :
    (a b : List ℕ)
    → ((i : ℕ) → mem i a ≡ true → mem i b ≡ true)
    → (ss : List WorkflowStep) → IsCovered a ss
    → IsCovered b ss
IsCovered-mono a b more [] h = tt
IsCovered-mono a b more (s ∷ ss) h = ((λ e. more s.index (h.0 e)), IsCovered-mono a b more ss h.1)

approval_steps-IsCovered : (ss : List WorkflowStep) → IsCovered (approval_steps ss) ss
unfolding approval_steps mem
approval_steps-IsCovered [] = tt
approval_steps-IsCovered (s ∷ ss) =
    let here : s.requires_approval ≡ true → mem s.index (approval_steps (s ∷ ss)) ≡ true =
      λ e. rw e (ground arith) in
    (
      here,
      IsCovered-mono (approval_steps ss) (approval_steps (s ∷ ss)) (λ i e. ground arith) ss
          (approval_steps-IsCovered ss),
    )

module _ (registry : Registry) (read_only : IsReadOnly registry) (hook : Hook)
    (quiet : IsQuiet hook) (planner : Planner) where
  run_recon_quiet :
      (plan : PlanResult) (user : Uuid) (message : Text) (items : List Fields)
      (recon : List WorkflowStep) (db : Db)
      → IsQuietRun registry recon
      → (run_recon registry hook planner plan user message items recon db).1 ≡ db
  unfolding run_recon
  run_recon_quiet plan user message items [] db h = refl
  run_recon_quiet plan user message items (r ∷ rs) db h =
      execute_quiet registry read_only user hook quiet (r ∷ rs) h.0 h.1 db

  maybe_plan_followup_quiet :
      (two_phase : Bool) (plan : PlanResult) (user : Uuid) (message : Text) (items : List Fields)
      (db : Db)
      → (maybe_plan_followup registry hook planner two_phase plan user message items db).1 ≡ db
  unfolding maybe_plan_followup
  maybe_plan_followup_quiet two_phase plan user message items db =
      elim (Bool-cases (two_phase && plan.needs_followup)) [
        | inr e ↦ rw e refl
        | inl e ↦ elim (Result-cases (classify_steps registry plan.steps)) [
          | inl (bad, f) ↦ rw (e, f) refl
          | inr (steps, f) ↦
              elim (Bool-cases (not (is_empty items) && has_selection_reference registry steps)) [
                | inl g ↦ rw (e, f, g) refl
                | inr g ↦
                    let quiet_recon =
                      recon_steps-quiet registry (approval_steps steps) steps
                        (classify_steps-IsMarked registry plan.steps steps f)
                        (approval_steps-IsCovered steps) in
                    elim (Result-cases (recon_steps (approval_steps steps) steps)) [
                      | inl (bad, k) ↦ rw (e, f, g, k) refl
                      | inr (recon, k) ↦
                          rw (e, f, g, k)
                            (run_recon_quiet plan user message items recon db
                              (Ensures-ok (IsQuietRun registry) _ recon k quiet_recon))
                    ]
              ]
        ]
      ]

  abbrev IsKept : AssistantState → AssistantState → Type 0
  IsKept st after = (after.drive ≡ st.drive) × (after.workflows ≡ st.workflows)

  replan_after_failure_quiet :
      (ids : ChatIds) (now : Time) (user : Uuid) (message : Text) (items : List Fields)
      (results : List StepResult) (st : AssistantState)
      → IsKept st
          (replan_after_failure registry hook planner ids now user message items results st).1
  unfolding replan_after_failure record_run
  replan_after_failure_quiet ids now user message items results st =
      elim (Result-cases (planner items (failed_run message results))) [
        | inl (bad, e) ↦ rw (e, replan_after_failure) (refl, refl)
        | inr (replan, e) ↦ elim (Bool-cases (is_empty replan.steps)) [
          | inl f ↦ rw (e, f, replan_after_failure) (refl, refl)
          | inr f ↦ elim (Result-cases (classify_steps registry replan.steps)) [
            | inl (bad, g) ↦ rw (e, f, g, replan_after_failure) (refl, refl)
            | inr (steps, g) ↦
                elim (Bool-cases
                  (has_selection_reference registry steps || not (is_auto_confirmable steps))) [
                    | inl k ↦ rw (e, f, g, k, replan_after_failure) (refl, refl)
                    | inr k ↦
                        rw (e, f, g, k, replan_after_failure)
                          (
                            execute_quiet registry read_only user hook quiet steps
                                (classify_steps-IsMarked registry replan.steps steps g)
                                (ground arith) st.drive,
                            refl,
                          )
                  ]
          ]
        ]
      ]

  or_else-IsKept :
      (st : AssistantState) (first : ChatResponse)
      (r : Result (Option ChatResponse) × AssistantState)
      → IsKept st r.1
      → IsKept st (or_else first r).1
  or_else-IsKept st first (err e, after) h = h
  or_else-IsKept st first (ok none, after) h = h
  or_else-IsKept st first (ok (some second), after) h = h

  run_at_once_quiet :
      (ids : ChatIds) (now : Time) (user : Uuid) (message : Text) (items : List Fields)
      (plan : PlanResult) (steps : List WorkflowStep) (st : AssistantState)
      → IsQuietRun registry steps
      → IsKept st (run_at_once registry hook planner ids now user message items plan steps st).1
  unfolding run_at_once record_run
  run_at_once_quiet ids now user message items plan steps st h =
      let run = execute registry hook user steps st.drive in
      let same = execute_quiet registry read_only user hook quiet steps h.0 h.1 st.drive in
      let after = record_run ids.run_id now user none message run.0 (record st { drive = run.1 }) in
      elim (Bool-cases (all_ok run.0)) [
        | inl e ↦ rw e (same, refl)
        | inr e ↦
            let again = replan_after_failure_quiet ids now user message items run.0 after in
            let kept : IsKept st
                (replan_after_failure registry hook planner ids now user message items run.0
                  after).1 =
              (again.0 ∙ same, again.1) in
            rw e (
              or_else-IsKept st (auto_executed none steps run.0)
                (replan_after_failure registry hook planner ids now user message items run.0 after)
                kept)
      ]

  run_or_store_quiet :
      (ids : ChatIds) (now : Time) (user : Uuid) (message : Text) (items : List Fields)
      (plan : PlanResult) (steps : List WorkflowStep) (st : AssistantState)
      → All (IsMarked registry) steps
      → IsUnwritten st
          (run_or_store registry hook planner ids now user message items plan steps st).1
  unfolding run_or_store create_pending
  run_or_store_quiet ids now user message items plan steps st marks =
      elim (Bool-cases (is_auto_confirmable steps)) [
        | inl e ↦
            let kept = run_at_once_quiet ids now user message items plan steps st (marks, e) in
            rw e (kept.0, inl kept.1)
        | inr e ↦ rw e (refl, inr (_, refl, refl))
      ]

  chat_plan_quiet :
      (ids : ChatIds) (now : Time) (user : Uuid) (message : Text) (items : List Fields)
      (plan : PlanResult) (st : AssistantState)
      → IsUnwritten st (chat_plan registry hook planner ids now user message items plan st).1
  unfolding chat_plan
  chat_plan_quiet ids now user message items plan st =
      elim (Result-cases (classify_steps registry plan.steps)) [
        | inl (bad, e) ↦ rw (e, chat_plan) (refl, inl refl)
        | inr (steps, e) ↦
            let marks = classify_steps-IsMarked registry plan.steps steps e in
            elim (Bool-cases (has_selection_reference registry steps)) [
              | inr f ↦
                  rw (e, f, chat_plan)
                    (run_or_store_quiet ids now user message items plan steps st marks)
              | inl f ↦ elim (Bool-cases (is_empty items)) [
                | inl g ↦ rw (e, f, g, chat_plan) (refl, inl refl)
                | inr g ↦ elim (Option-cases (apply_selection steps items registry)) [
                  | inl k ↦ rw (e, f, g, k, chat_plan) (refl, inl refl)
                  | inr (out, k) ↦
                      rw (e, f, g, k, chat_plan)
                        (run_or_store_quiet ids now user message items plan out st
                          (apply_selection-IsMarked registry items steps out k marks))
                ]
              ]
            ]
      ]

  with_plan_quiet :
      (ids : ChatIds) (now : Time) (user : Uuid) (message : Text) (items : List Fields)
      (st : AssistantState) (r : Result PlanResult × Db)
      → r.1 ≡ st.drive
      → IsUnwritten st (with_plan registry hook planner ids now user message items st r).1
  with_plan_quiet ids now user message items st (err e, db) h = (h, inl refl)
  with_plan_quiet ids now user message items st (ok plan, db) h =
      let rest = chat_plan_quiet ids now user message items plan (record st { drive = db }) in
      (rest.0 ∙ h, rest.1)

  -- When the skills of the tier `read` change nothing and the hook before a workflow does nothing for
  -- workflows without writes, a message to the assistant leaves the drive as it is, whatever the planner
  -- answers and however its runs end: it adds at most one workflow, which waits for the user's confirmation.
  pub chat-IsUnwritten :
      (authoring : Text → Result (Option Text)) (two_phase : Bool) (ids : ChatIds) (now : Time)
      (user : Uuid) (message : Text) (selected : List Uuid) (st : AssistantState)
      → IsUnwritten st
          (chat registry hook planner authoring two_phase ids now user message selected st).1
  unfolding chat chat_items
  chat-IsUnwritten authoring two_phase ids now user message selected st =
      elim (Result-cases (authoring message)) [
        | inl (bad, e) ↦ rw (e, chat) (refl, inl refl)
        | inr (some reply, e) ↦ rw (e, chat) (refl, inl refl)
        | inr (none, e) ↦ elim (Result-cases (resolve_selection user selected st.drive)) [
          | inl (bad, f) ↦ rw (e, f, chat) (refl, inl refl)
          | inr (items, f) ↦ elim (Result-cases (planner items (request message))) [
            | inl (bad, g) ↦ rw (e, f, g, chat, chat_items) (refl, inl refl)
            | inr (plan, g) ↦ elim (Bool-cases (is_empty plan.steps)) [
              | inl k ↦ rw (e, f, g, k, chat, chat_items) (refl, inl refl)
              | inr k ↦
                  rw (e, f, g, k, chat, chat_items)
                    (with_plan_quiet ids now user message items st
                      (maybe_plan_followup registry hook planner two_phase plan user message items
                        st.drive)
                      (maybe_plan_followup_quiet two_phase plan user message items st.drive))
            ]
          ]
        ]
      ]
