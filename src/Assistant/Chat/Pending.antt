-- ===== src/Assistant/Chat/Pending.antt =====
-- A workflow that waits for confirmation, from its row to its run.
use cloud_drive.Prelude.{
  ◌≡◌, refl, true, false, none, List, [], ◌∷◌, ◌++◌, Text, arith, any, keep, length, ◌==◌,
}
use cloud_drive.Model.{Uuid, Time}
use cloud_drive.Exec.{ok, one_or_none}
use cloud_drive.Assistant.Steps.{Registry, WorkflowStep}
use cloud_drive.Assistant.Executor.{Hook, execute}
use cloud_drive.Assistant.Executor.Runs.{length-execute}
use cloud_drive.Assistant.Workflows.{
  WorkflowStatus, same_status, AssistantWorkflow, AssistantState, is_row, get_workflow,
  new_workflow, confirm, run_confirmed, record_run, set_status, response,
}
use cloud_drive.Assistant.Planning.{Planner, PlanResult}
use cloud_drive.Assistant.Chat.{ChatIds, create_pending}

keep-append_new :
    (user id : Uuid) (ws : List AssistantWorkflow) (w : AssistantWorkflow)
    → any (λ x. x.id == id) ws ≡ false
    → is_row WorkflowStatus.pending user id w ≡ true
    → keep (is_row WorkflowStatus.pending user id) (ws ++ w ∷ []) ≡ w ∷ []
unfolding any keep is_row
keep-append_new user id [] w h k = rw k refl
keep-append_new user id (x ∷ ws) w h k =
    let other : is_row WorkflowStatus.pending user id x ≡ false = ground arith in
    rw other (keep-append_new user id ws w (ground arith) k)

-- What waits for the user's confirmation goes on: under an id that no workflow had, the user who asked
-- can confirm it, at any later time, and then its steps run on the drive, each with one result, and the
-- database is the one that they leave.
pub create_pending-confirm :
    (registry : Registry) (hook : Hook) (planner : Planner) (ids : ChatIds) (now : Time)
    (user : Uuid) (message : Text) (plan : PlanResult) (steps : List WorkflowStep)
    (st : AssistantState) (run_id : Uuid) (later : Time)
    → any (λ x. x.id == ids.workflow_id) st.workflows ≡ false
    → let asked = (create_pending registry hook planner ids now user message plan steps st).1 in
      let run = execute registry hook user steps st.drive in
      let confirmed = confirm registry hook run_id later user ids.workflow_id asked in
      (confirmed.0 ≡ ok (response ids.workflow_id WorkflowStatus.executed run.0))
      × (length run.0 ≡ length steps)
      × (confirmed.1.drive ≡ run.1)
unfolding create_pending confirm get_workflow one_or_none run_confirmed record_run set_status is_row
    same_status
create_pending-confirm registry hook planner ids now user message plan steps st run_id later fresh =
    let w =
      new_workflow ids.workflow_id now user ids.session_id message steps WorkflowStatus.pending
        none in
    let found = keep-append_new user ids.workflow_id st.workflows w fresh (ground arith) in
    rw (found, confirm) (refl, length-execute registry hook user steps st.drive, refl)
