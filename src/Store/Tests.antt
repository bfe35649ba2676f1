-- ===== src/Store/Tests.antt =====
-- A small workspace, and the definitions that a run on it opens.
mod Issues
mod Sprints
mod Members
mod Projects
mod Tokens
mod Logins
mod Comments
mod Evidence
mod Installations
mod Setups
use velvet.Common.{ℕ, ◌+◌, ◌≡◌, refl, none, some, true, [], ◌∷◌, replicate, All, select}
use velvet.Common.Text.{codes}
use velvet.Fracdex
use velvet.Store.Db.{
  Db, Sprint, Milestone, Issue, IssueStatus, admin, active, upcoming, in_progress, done, todo,
  ProjectStatus, SprintState, MilestoneStatus,
}
use velvet.Store.Tx.{Result, ok, err, not_found, ◌>>=◌, draw_uuid, draw_random, record_activity}
use velvet.Store.Access.{
  lock_workspace, lock_workspace_actor, lock_workspace_writer, check_workspace_member,
}
use velvet.Store.Issue.{
  CreateIssueInput, IssuePatch, in_list, last_position, next_issue_position, next_issue_key,
  owner_project, milestone_project, check_project_in_workspace, check_milestone_exists,
  check_issue_exists, check_issue_references, reconcile_milestone_project, issue_depth_guard,
}
use velvet.Store.Issue.Create.{insert_issue, create_issue}
use velvet.Store.Issue.Update.{
  choose_position, neighbour, reposition_issue, save_issue, update_issue,
}
use velvet.Store.Issue.Agree.{IssuesAgree, create_issue-IssuesAgree, update_issue-IssuesAgree}
use velvet.Store.Issue.Order.{SortsBefore, create_issue-SortsBefore}
use velvet.Store.Issue.Nesting.{IsFlat, create_issue-IsFlat, update_issue-IsFlat}
use velvet.Store.Milestone.{next_milestone_position, insert_milestone}
use velvet.Store.Sprint.{is_active, snapshot_of, capture_snapshot}
use velvet.Store.Sprint.Roll.{
  earliest, next_upcoming, sort_by_position, target_milestone, move_issues, carry, carry_all,
  roll_into, roll_incomplete_issues_forward,
}
use velvet.Store.Sprint.Close.{
  set_state, close_sprint_tx, close_sprint, close_previous, activate_sprint,
}
use velvet.Store.Sprint.Single.{OneActive, activate_sprint-OneActive}
use velvet.Store.Sprint.Report.{
  report, reported, OnlyMoved, close_sprint-report, activate_sprint-report,
  activate_sprint-OnlyMoved, close_sprint-OnlyMoved,
}

abbrev pub sprint : ℕ → SprintState → Sprint
sprint i s = record {
  id = i;
  workspace_id = 1;
  project_id = 3;
  name = "Sprint";
  starts_on = codes "2026-09-01";
  ends_on = codes "2026-09-30";
  state = s;
  completed_at = none;
}

abbrev pub milestone : Milestone
milestone = record {
  id = 20;
  workspace_id = 1;
  sprint_id = 10;
  name = "Billing";
  description = "";
  owner_id = none;
  target_date = none;
  status = MilestoneStatus.planned;
  position = codes "V";
  updated_at = 0;
}

abbrev pub issue : ℕ → IssueStatus → Issue
issue i s = record {
  id = i;
  workspace_id = 1;
  key = record { prefix = "ENG"; number = i };
  number = i;
  title = "Migrate";
  description = "";
  status = s;
  priority = 0;
  assignee_id = none;
  milestone_id = some 20;
  project_id = some 3;
  parent_id = none;
  position = codes "V";
  created_by = some 7;
  updated_at = 0;
}

-- One workspace, one administrator, one project with an active and an upcoming sprint, and a
-- milestone with an open and a finished issue.
abbrev pub office : Db
office = record {
  workspaces =
      (record {
        id = 1;
        name = "Acme";
        slug = "acme";
        issue_prefix = "ENG";
        issue_counter = 31;
        jev_suggestions = true;
      })
      ∷ [];
  memberships = (record { id = 5; workspace_id = 1; user_id = 7; role = admin }) ∷ [];
  projects =
      (record {
        id = 3;
        workspace_id = 1;
        key = "api";
        name = "API";
        description = "";
        status = ProjectStatus.active;
        created_by = some 7;
        updated_at = 0;
        archived_at = none;
      })
      ∷ [];
  sprints = sprint 10 active ∷ sprint 11 upcoming ∷ [];
  milestones = milestone ∷ [];
  issues = issue 30 in_progress ∷ issue 31 done ∷ [];
  activities = [];
  snapshots = [];
  users =
      (record { id = 7; email = "ada@example.com"; github_id = some 70; github_login = some "ada" })
      ∷ [];
  identities = [];
  invites = [];
  login_tokens = [];
  sessions = [];
  api_tokens = [];
  cli_sessions = [];
  comments = [];
  mentions = [];
  pull_requests = [];
  pr_links = [];
  reviews = [];
  commits = [];
  suggestions = [];
  repos = [];
  installations = [];
  sync_jobs = [];
  setup_states = [];
  authorization_states = [];
  now = 50;
  uuid_at = λ n. 1000 + n;
  drawn = 0;
  clock = 51;
  random_at = λ n size. replicate size (n + 10);
  randoms = 0;
}

abbrev pub filing : CreateIssueInput
filing = record {
  workspace_id = 1;
  actor_id = 7;
  title = "New";
  description = "";
  status = none;
  priority = 2;
  assignee_id = none;
  milestone_id = some 20;
  project_id = none;
  parent_id = none;
}

abbrev pub unchanged : IssuePatch
unchanged = record {
  title = none;
  description = none;
  status = none;
  priority = none;
  assignee_id = none;
  milestone_id = none;
  project_id = none;
  parent_id = none;
  after_id = none;
  before_id = none;
}

abbrev pub state_of : {A : Type 0} → Result (A × Db) → Db → Db
state_of (ok (a, db)) d = db
state_of (err e) d = d

abbrev pub value_of : {A : Type 0} → Result (A × Db) → A → A
value_of (ok (a, db)) d = a
value_of (err e) d = d

-- Opens every definition that a run calls.
unfoldable pub store : Unit {0}
unfolding ◌>>=◌ draw_uuid draw_random record_activity lock_workspace lock_workspace_actor
    lock_workspace_writer check_workspace_member last_position next_issue_position next_issue_key
    owner_project milestone_project check_project_in_workspace check_milestone_exists
    check_issue_exists check_issue_references reconcile_milestone_project issue_depth_guard
    insert_issue create_issue choose_position neighbour reposition_issue save_issue update_issue
    next_milestone_position insert_milestone capture_snapshot earliest next_upcoming
    sort_by_position target_milestone move_issues carry carry_all roll_into
    roll_incomplete_issues_forward set_state close_sprint_tx close_sprint close_previous
    activate_sprint Fracdex.between Fracdex.between_loop Fracdex.first Fracdex.digit Fracdex.idx
    Fracdex.digit_value Fracdex.has_invalid
store = tt
