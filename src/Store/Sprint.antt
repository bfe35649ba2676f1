-- ===== src/Store/Sprint.antt =====
-- sprint.go and snapshot.go: the life of a sprint.
pub mod Roll
pub mod Close
pub mod Frames
pub mod Shape
pub mod Single
pub mod Report
pub mod Reads
use Prim.Native.String.{String}
use text.Mathlib.Text.{◌==◌ as str_eq}
use velvet.Common.{
  ℕ, Option, none, some, Bool, true, false, not, ◌&&◌, List, [], ◌∷◌, ◌++◌, ◌==◌, ◌=?◌, get_or,
  length, any, find, select, update, if◌then◌else◌,
}
use velvet.Common.Text.{Bytes, lex_ltb}
use velvet.Store.Db.{
  Db, Sprint, SprintState, upcoming, active, Milestone, MilestoneStatus, Issue, IssueStatus,
  backlog, todo, in_progress, in_review, done, cancelled, Snapshot, Verb, TargetType,
}
use velvet.Store.Tx.{
  Tx, invalid_sprint, database, pure, require, modify, query_row, ◌>>=◌, ◌>>◌, record_activity,
  draw_uuid,
}
use velvet.Store.Access.{lock_workspace_writer}
use velvet.Store.Issue.{check_project_in_workspace}
use velvet.Store.Issue.Update.{same_status}
use velvet.Store.Milestone.{in_sprint, is_completed}

pub record CreateSprintInput : Type 0 where
  pub workspace_id : ℕ
  pub project_id : ℕ
  pub actor_id : ℕ
  pub name : String
  pub starts_on : Bytes
  pub ends_on : Bytes

pub record SprintPatch : Type 0 where
  pub name : Option String
  pub starts_on : Option Bytes
  pub ends_on : Option Bytes

abbrev pub is_sprint : ℕ → ℕ → Sprint → Bool
is_sprint workspace_id id s = s.workspace_id == workspace_id && s.id == id

abbrev pub is_active : SprintState → Bool
is_active active = true
is_active _ = false

abbrev pub is_upcoming : SprintState → Bool
is_upcoming upcoming = true
is_upcoming _ = false

-- INSERT INTO sprint: a new sprint is upcoming; the table checks the order of the dates.
unfoldable pub create_sprint : CreateSprintInput → Tx Sprint
create_sprint input = do
  lock_workspace_writer input.workspace_id input.actor_id
  check_project_in_workspace input.workspace_id input.project_id
  require (not (lex_ltb input.ends_on input.starts_on)) database
  id ← draw_uuid
  let row : Sprint = record {
    id = id;
    workspace_id = input.workspace_id;
    project_id = input.project_id;
    name = input.name;
    starts_on = input.starts_on;
    ends_on = input.ends_on;
    state = upcoming;
    completed_at = none;
  }
  modify (λ db. record db { sprints = db.sprints ++ row ∷ [] })
  record_activity input.workspace_id input.actor_id Verb.created_sprint TargetType.sprint id
  pure row

-- `valid_date` is the success of `time.Parse("2006-01-02", ...)`, and `trim` is `strings.TrimSpace`.
module _ (valid_date : Bytes → Bool) (trim : String → String) where
  unfoldable pub update_sprint : ℕ → ℕ → ℕ → SprintPatch → Tx Sprint
  update_sprint workspace_id id actor_id patch = do
    lock_workspace_writer workspace_id actor_id
    before ← query_row (λ db. find (is_sprint workspace_id id) db.sprints)
    let name = get_or patch.name before.name
    let starts = get_or patch.starts_on before.starts_on
    let ends = get_or patch.ends_on before.ends_on
    require
        (not (str_eq (trim name) "")
          && (valid_date starts && (valid_date ends && not (lex_ltb ends starts))))
        invalid_sprint
    let row : Sprint = record before { name = name; starts_on = starts; ends_on = ends }
    modify (λ db. record db { sprints = update (is_sprint workspace_id id) (λ _. row) db.sprints })
    record_activity workspace_id actor_id Verb.updated_sprint TargetType.sprint id
    pure row

-- GROUP BY status
abbrev pub statuses : List IssueStatus
statuses = backlog ∷ todo ∷ in_progress ∷ in_review ∷ done ∷ cancelled ∷ []

abbrev pub is_cancelled : MilestoneStatus → Bool
is_cancelled MilestoneStatus.cancelled = true
is_cancelled _ = false

-- JOIN milestone m ON m.id = i.milestone_id ... m.sprint_id = $2
abbrev pub issue_in_sprint : Db → ℕ → Issue → Bool
issue_in_sprint db sprint_id i =
    any (λ (m : Milestone). m.sprint_id == sprint_id && (i.milestone_id =? some m.id)) db.milestones

abbrev pub count_status : Db → ℕ → ℕ → IssueStatus → ℕ
count_status db workspace_id sprint_id s = length (
    select
      (λ (i : Issue).
        i.workspace_id == workspace_id
        && (issue_in_sprint db sprint_id i && same_status i.status s))
      db.issues)

abbrev pub counts : Db → ℕ → ℕ → List IssueStatus → List (IssueStatus × ℕ)
counts db workspace_id sprint_id [] = []
counts db workspace_id sprint_id (s ∷ ss) =
    let n = count_status db workspace_id sprint_id s in
    let rest = counts db workspace_id sprint_id ss in if n == 0 then rest else (s, n) ∷ rest

-- The row that `captureSnapshot` computes.
abbrev pub snapshot_of : Db → ℕ → ℕ → Snapshot
snapshot_of db workspace_id sprint_id = record {
  sprint_id = sprint_id;
  workspace_id = workspace_id;
  milestones_planned = length (
      select (λ m. in_sprint workspace_id sprint_id m && not (is_cancelled m.status))
        db.milestones);
  milestones_completed =
      length
        (select (λ m. in_sprint workspace_id sprint_id m && is_completed m.status) db.milestones);
  issue_counts = counts db workspace_id sprint_id statuses;
  captured_at = db.now;
}

-- ON CONFLICT (sprint_id) DO NOTHING
unfoldable pub capture_snapshot : ℕ → ℕ → Tx (Unit {0})
capture_snapshot workspace_id sprint_id = modify (λ db.
    if any (λ (s : Snapshot). s.sprint_id == sprint_id) db.snapshots
    then db
    else record db { snapshots = db.snapshots ++ snapshot_of db workspace_id sprint_id ∷ [] })
