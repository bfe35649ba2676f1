-- ===== src/Store/Sprint/Close.antt =====
-- `ActivateSprint`, `CloseSprint` and `closeSprintTx` of sprint.go.
use velvet.Common.{ℕ, Option, none, some, Bool, not, ◌&&◌, ◌==◌, ◌=?◌, find, update}
use velvet.Store.Db.{Db, Sprint, SprintState, active, Verb, TargetType}
use velvet.Store.Tx.{Tx, pure, reads, modify, query_row, ◌>>=◌, ◌>>◌, record_activity}
use velvet.Store.Access.{lock_workspace_writer}
use velvet.Store.Sprint.{is_sprint, is_active, capture_snapshot}
use velvet.Store.Sprint.Roll.{roll_incomplete_issues_forward}

-- The unique index on the active sprints of a project is not modelled: an update never fails.
-- UPDATE sprint SET state = ..., completed_at = ... WHERE workspace_id = $1 AND id = $2 RETURNING
unfoldable pub set_state : ℕ → ℕ → (Db → Sprint → Sprint) → Tx Sprint
set_state workspace_id id change = do
  modify (λ db. record db { sprints = update (is_sprint workspace_id id) (change db) db.sprints })
  query_row (λ db. find (is_sprint workspace_id id) db.sprints)

abbrev pub complete : Db → Sprint → Sprint
complete db s = record s { state = SprintState.completed; completed_at = some db.now }

abbrev pub activate : Db → Sprint → Sprint
activate db s = record s { state = active; completed_at = none }

unfoldable pub close_sprint_tx : ℕ → ℕ → ℕ → Option ℕ → Tx Sprint
close_sprint_tx workspace_id id actor_id next_sprint_id = do
  out ← set_state workspace_id id complete
  capture_snapshot workspace_id id
  roll_incomplete_issues_forward workspace_id id next_sprint_id
  record_activity workspace_id actor_id Verb.closed_sprint TargetType.sprint id
  pure out

unfoldable pub close_sprint : ℕ → ℕ → ℕ → Tx Sprint
close_sprint workspace_id id actor_id = do
  lock_workspace_writer workspace_id actor_id
  close_sprint_tx workspace_id id actor_id none

abbrev pub project_of_sprint : Db → ℕ → ℕ → Option ℕ
project_of_sprint db workspace_id id = elim (find (is_sprint workspace_id id) db.sprints) [
  | none ↦ none
  | some s ↦ some s.project_id
]

abbrev pub is_previous : Db → ℕ → ℕ → Sprint → Bool
is_previous db workspace_id id s =
    s.workspace_id == workspace_id
    && (is_active s.state
        && (not (s.id == id) && (project_of_sprint db workspace_id id =? some s.project_id)))

unfoldable pub close_previous : ℕ → ℕ → ℕ → Option Sprint → Tx (Unit {0})
close_previous workspace_id id actor_id none = pure tt
close_previous workspace_id id actor_id (some previous) = do
  close_sprint_tx workspace_id previous.id actor_id (some id)
  pure tt

unfoldable pub activate_sprint : ℕ → ℕ → ℕ → Tx Sprint
activate_sprint workspace_id id actor_id = do
  lock_workspace_writer workspace_id actor_id
  previous ← reads (λ db. find (is_previous db workspace_id id) db.sprints)
  close_previous workspace_id id actor_id previous
  out ← set_state workspace_id id activate
  record_activity workspace_id actor_id Verb.activated_sprint TargetType.sprint id
  pure out
