-- ===== src/Store/Issue/Update.antt =====
-- `UpdateIssue` of issue.go.
use velvet.Common.{
  ℕ, Option, none, some, Bool, true, false, not, ◌&&◌, ◌||◌, [], ◌==◌, ◌=?◌, leb, get_or, is_some,
  find, update, if◌then◌else◌,
}
use velvet.Common.Text.{Bytes}
use velvet.Fracdex
use velvet.Store.Db.{
  Issue, IssueStatus, Verb, TargetType, backlog, todo, in_progress, in_review, done, cancelled,
}
use velvet.Store.Tx.{
  Tx, database, pure, require, reads, modify, query_row, ◌>>=◌, ◌>>◌, record_activity,
}
use velvet.Store.Access.{lock_workspace_writer}
use velvet.Store.Issue.{
  IssuePatch, order_result, in_list, next_issue_position, check_issue_references,
  reconcile_milestone_project, issue_depth_guard,
}

abbrev pub status_number : IssueStatus → ℕ
status_number backlog = 0
status_number todo = 1
status_number in_progress = 2
status_number in_review = 3
status_number done = 4
status_number cancelled = 5

abbrev pub same_status : IssueStatus → IssueStatus → Bool
same_status s t = status_number s == status_number t

-- The position of a neighbour, which must be in the same list.
unfoldable pub neighbour : ℕ → Option ℕ → Option ℕ → Tx Bytes
neighbour workspace_id milestone_id none = pure []
neighbour workspace_id milestone_id (some id) = do
  i ← query_row (λ db. find (λ i. in_list workspace_id milestone_id i && i.id == id) db.issues)
  pure i.position

unfoldable pub reposition_issue : ℕ → Option ℕ → Option ℕ → Option ℕ → Tx Bytes
reposition_issue workspace_id milestone_id after_id before_id = do
  lo ← neighbour workspace_id milestone_id after_id
  hi ← neighbour workspace_id milestone_id before_id
  order_result (Fracdex.between lo hi)

-- The `switch` that chooses the position.
unfoldable pub choose_position : ℕ → Issue → Option ℕ → IssuePatch → Tx Bytes
choose_position workspace_id before milestone_id patch =
    if is_some patch.after_id || is_some patch.before_id
    then reposition_issue workspace_id milestone_id patch.after_id patch.before_id
    else if not (before.milestone_id =? milestone_id)
    then next_issue_position workspace_id milestone_id
    else pure before.position

abbrev pub is_issue : ℕ → ℕ → Issue → Bool
is_issue workspace_id id i = i.workspace_id == workspace_id && i.id == id

-- UPDATE issue ... RETURNING: every column that the statement sets comes from `row`.
unfoldable pub save_issue : ℕ → ℕ → Issue → Tx Issue
save_issue workspace_id id row = do
  issue_depth_guard id row.parent_id
  require (leb row.priority 4) database
  modify (λ db. record db { issues = update (is_issue workspace_id id) (λ _. row) db.issues })
  pure row

abbrev pub when : Bool → Tx (Unit {0}) → Tx (Unit {0})
when true m = m
when false m = pure tt

abbrev pub changes_status : IssuePatch → Issue → Bool
changes_status patch before = elim patch.status [
  | none ↦ false
  | some s ↦ not (same_status s before.status)
]

abbrev pub changes_assignee : IssuePatch → Issue → Bool
changes_assignee patch before = elim patch.assignee_id [
  | none ↦ false
  | some a ↦ not (before.assignee_id =? a)
]

abbrev pub milestone_chosen : IssuePatch → Issue → Bool
milestone_chosen patch before = elim patch.milestone_id [
  | none ↦ false
  | some m ↦ not (before.milestone_id =? m)
]

unfoldable pub update_issue : ℕ → ℕ → ℕ → IssuePatch → Tx Issue
update_issue workspace_id id actor_id patch = do
  lock_workspace_writer workspace_id actor_id
  before ← query_row (λ db. find (is_issue workspace_id id) db.issues)
  let assignee_id = get_or patch.assignee_id before.assignee_id
  let milestone_id = get_or patch.milestone_id before.milestone_id
  let project_id = get_or patch.project_id before.project_id
  let parent_id = get_or patch.parent_id before.parent_id
  check_issue_references workspace_id assignee_id milestone_id project_id parent_id
  refs ←
      reconcile_milestone_project workspace_id milestone_id project_id
        (milestone_chosen patch before)
  position ← choose_position workspace_id before refs.0 patch
  now ← reads (λ db. db.now)
  out ← save_issue workspace_id id (record before {
    title = get_or patch.title before.title;
    description = get_or patch.description before.description;
    status = get_or patch.status before.status;
    priority = get_or patch.priority before.priority;
    assignee_id = assignee_id;
    milestone_id = refs.0;
    project_id = refs.1;
    parent_id = parent_id;
    position = position;
    updated_at = now;
  })
  when (changes_status patch before)
      (record_activity workspace_id actor_id Verb.changed_status TargetType.issue id)
  when (changes_assignee patch before)
      (record_activity workspace_id actor_id Verb.assigned TargetType.issue id)
  when (not (before.project_id =? refs.1))
      (record_activity workspace_id actor_id Verb.moved_issue_project TargetType.issue id)
  pure out
