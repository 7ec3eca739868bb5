-- ===== src/Assistant/Workflows/Once.antt =====
-- The lemmas on the status of a stored workflow.
use cloud_drive.Prelude.{
  subst, ◌≡◌, refl, sym, ◌∙◌, ap, ◌⊎◌, inl, inr, Bool, true, false, none, some, List, [], ◌∷◌, map,
  All, IfSome, arith, keep, ◌==◌, Bool-cases,
}
use cloud_drive.Model.{Uuid, Time, Error, not_found_error}
use cloud_drive.Exec.{Result, ok, err, Ensures-ok, one_or_none, one_or_none-All, Result-cases}
use cloud_drive.Assistant.Steps.{Registry}
use cloud_drive.Assistant.Executor.{Hook}
use cloud_drive.Assistant.Workflows.{
  WorkflowStatus, same_status, AssistantWorkflow, AssistantState, is_row, get_workflow, with_status,
  set_status, record_run, ConfirmResponse, run_confirmed, confirm, cancel, response,
}

All-keep {ℓ} :
    {A : Type ℓ} (test : A → Bool) (xs : List A) → All (λ x. test x ≡ true) (keep test xs)
unfolding keep
All-keep test [] = tt
All-keep test (x ∷ xs) = elim (Bool-cases (test x)) [
  | inl e ↦ rw e (e, All-keep test xs)
  | inr e ↦ rw e (All-keep test xs)
]

get_workflow-is_row :
    (status : WorkflowStatus) (user id : Uuid) (ws : List AssistantWorkflow) (w : AssistantWorkflow)
    → get_workflow status user id ws ≡ ok (some w)
    → is_row status user id w ≡ true
unfolding get_workflow
get_workflow-is_row status user id ws w h =
    let test = is_row status user id in
    Ensures-ok (IfSome (λ x. test x ≡ true)) _ (some w) h
      (one_or_none-All (λ x. test x ≡ true) (keep test ws) (All-keep test ws))

-- No user finds the workflow among those that wait, so it can be neither confirmed nor cancelled.
abbrev pub IsSettled : Registry → Hook → Uuid → AssistantState → Type 0
IsSettled registry hook id st =
    (user run_id : Uuid) (now : Time)
    → (confirm registry hook run_id now user id st ≡ (err not_found_error, st))
      × (cancel now user id st ≡ (err not_found_error, st))

is_row-with_status :
    (id : Uuid) (status : WorkflowStatus) (now : Time) (user : Uuid) (w : AssistantWorkflow)
    → same_status status WorkflowStatus.pending ≡ false
    → is_row WorkflowStatus.pending user id (with_status id status now w) ≡ false
unfolding is_row with_status
is_row-with_status id status now user w h = elim (Bool-cases (w.id == id)) [
  | inl e ↦ rw e (ground arith)
  | inr e ↦ rw e (ground arith)
]

keep-with_status :
    (id : Uuid) (status : WorkflowStatus) (now : Time) (user : Uuid) (ws : List AssistantWorkflow)
    → same_status status WorkflowStatus.pending ≡ false
    → keep (is_row WorkflowStatus.pending user id) (map (with_status id status now) ws) ≡ []
unfolding keep
keep-with_status id status now user [] h = refl
keep-with_status id status now user (w ∷ ws) h =
    rw (is_row-with_status id status now user w h) (keep-with_status id status now user ws h)

with_status-IsSettled :
    (registry : Registry) (hook : Hook) (id : Uuid) (status : WorkflowStatus) (now : Time)
    (st after : AssistantState)
    → same_status status WorkflowStatus.pending ≡ false
    → after.workflows ≡ map (with_status id status now) st.workflows
    → IsSettled registry hook id after
unfolding confirm cancel get_workflow one_or_none
with_status-IsSettled registry hook id status now st after h same user run_id later =
    let none_waits : keep (is_row WorkflowStatus.pending user id) after.workflows ≡ [] =
      rw same (keep-with_status id status now user st.workflows h) in
    (rw (none_waits, confirm) refl, rw (none_waits, cancel) refl)

same_id :
    (status : WorkflowStatus) (user id : Uuid) (w : AssistantWorkflow)
    → is_row status user id w ≡ true
    → w.id ≡ id
unfolding is_row
same_id status user id w h = ground arith

abbrev Settles : Registry → Hook → Uuid → Result ConfirmResponse × AssistantState → Type 0
Settles registry hook id r =
    (done : ConfirmResponse) → r.0 ≡ ok done → IsSettled registry hook id r.1

refused-Settles :
    (registry : Registry) (hook : Hook) (id : Uuid) (e : Error) (st : AssistantState)
    → Settles registry hook id (err e, st)
refused-Settles registry hook id e st done h = absurd (ground arith)

-- What confirming comes to in each case of the lookup, and what cancelling comes to.
confirm-cases :
    (registry : Registry) (hook : Hook) (run_id : Uuid) (now : Time) (user id : Uuid)
    (st : AssistantState)
    → ((e : Error) × (confirm registry hook run_id now user id st ≡ (err e, st))
        × (cancel now user id st ≡ (err e, st)))
      ⊎ ((w : AssistantWorkflow) × (w.id ≡ id)
          × (confirm registry hook run_id now user id st
              ≡ run_confirmed registry hook run_id now user w st)
          × (cancel now user id st ≡ (
            ok (response w.id WorkflowStatus.cancelled []),
            set_status w.id WorkflowStatus.cancelled now st,
          )))
unfolding confirm cancel
confirm-cases registry hook run_id now user id st =
    elim (Result-cases (get_workflow WorkflowStatus.pending user id st.workflows)) [
      | inl (bad, e) ↦ inl (bad, rw (e, confirm) refl, rw (e, cancel) refl)
      | inr (none, e) ↦ inl (not_found_error, rw (e, confirm) refl, rw (e, cancel) refl)
      | inr (some w, e) ↦
          let here = get_workflow-is_row WorkflowStatus.pending user id st.workflows w e in
          inr (
            w,
            same_id WorkflowStatus.pending user id w here,
            rw (e, confirm) refl,
            rw (e, cancel) refl,
          )
    ]

marked-Settles :
    (registry : Registry) (hook : Hook) (id : Uuid) (status : WorkflowStatus) (now : Time)
    (st after : AssistantState) (w : AssistantWorkflow) (r : Result ConfirmResponse)
    → same_status status WorkflowStatus.pending ≡ false
    → w.id ≡ id
    → after.workflows ≡ map (with_status w.id status now) st.workflows
    → Settles registry hook id (r, after)
marked-Settles registry hook id status now st after w r h same rows done went =
    with_status-IsSettled registry hook id status now st after h
      (rows ∙ ap (λ i. map (with_status i status now) st.workflows) same)

confirm-Settles :
    (registry : Registry) (hook : Hook) (run_id : Uuid) (now : Time) (user id : Uuid)
    (st : AssistantState)
    → Settles registry hook id (confirm registry hook run_id now user id st)
      × Settles registry hook id (cancel now user id st)
unfolding run_confirmed record_run set_status same_status
confirm-Settles registry hook run_id now user id st =
    let S = Settles registry hook id in
    elim (confirm-cases registry hook run_id now user id st) [
      | inl (bad, e, f) ↦ (
        subst S (sym e) (refused-Settles registry hook id bad st),
        subst S (sym f) (refused-Settles registry hook id bad st),
      )
      | inr (w, same, e, f) ↦ (
        subst S (sym e)
            (marked-Settles registry hook id WorkflowStatus.executed now st _ w _ refl same refl),
        subst S (sym f)
            (marked-Settles registry hook id WorkflowStatus.cancelled now st _ w _ refl same refl),
      )
    ]

-- Once a workflow was confirmed or cancelled, every later attempt to confirm or to cancel it, by any
-- user, answers that there is no such workflow, runs nothing and changes nothing.
pub confirm-IsSettled :
    (registry : Registry) (hook : Hook) (run_id : Uuid) (now : Time) (user id : Uuid)
    (st : AssistantState) (first : Result ConfirmResponse × AssistantState) (done : ConfirmResponse)
    → (first ≡ confirm registry hook run_id now user id st) ⊎ (first ≡ cancel now user id st)
    → first.0 ≡ ok done
    → IsSettled registry hook id first.1
confirm-IsSettled registry hook run_id now user id st first done h went = elim h [
  | inl e ↦
      subst (Settles registry hook id) (sym e)
        (confirm-Settles registry hook run_id now user id st).0 done went
  | inr e ↦
      subst (Settles registry hook id) (sym e)
        (confirm-Settles registry hook run_id now user id st).1 done went
]
