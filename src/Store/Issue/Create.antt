-- ===== src/Store/Issue/Create.antt =====
-- `CreateIssue` of issue.go.
use velvet.Common.{some, true, not, ◌&&◌, [], ◌∷◌, ◌++◌, ◌==◌, leb, get_or, any}
use velvet.Store.Db.{Issue, backlog, Verb, TargetType}
use velvet.Store.Tx.{
  Tx, database, duplicate, pure, require, reads, modify, ◌>>=◌, ◌>>◌, record_activity, draw_uuid,
}
use velvet.Store.Access.{lock_workspace_writer}
use velvet.Store.Issue.{
  CreateIssueInput, next_issue_key, next_issue_position, check_issue_references,
  reconcile_milestone_project, issue_depth_guard,
}

-- INSERT INTO issue, with the constraints on the priority and on the key.
unfoldable pub insert_issue : Issue → Tx (Unit {0})
insert_issue row = do
  issue_depth_guard row.id row.parent_id
  require (leb row.priority 4) database
  taken ← reads (λ db.
      any (λ (i : Issue). i.workspace_id == row.workspace_id && i.key.number == row.key.number)
        db.issues)
  require (not taken) duplicate
  modify (λ db. record db { issues = db.issues ++ row ∷ [] })

unfoldable pub create_issue : CreateIssueInput → Tx Issue
create_issue input = do
  lock_workspace_writer input.workspace_id input.actor_id
  check_issue_references input.workspace_id input.assignee_id input.milestone_id input.project_id
      input.parent_id
  refs ← reconcile_milestone_project input.workspace_id input.milestone_id input.project_id true
  key ← next_issue_key input.workspace_id
  position ← next_issue_position input.workspace_id refs.0
  id ← draw_uuid
  now ← reads (λ db. db.now)
  let row : Issue = record {
    id = id;
    workspace_id = input.workspace_id;
    key = key;
    number = key.number;
    title = input.title;
    description = input.description;
    status = get_or input.status backlog;
    priority = input.priority;
    assignee_id = input.assignee_id;
    milestone_id = refs.0;
    project_id = refs.1;
    parent_id = input.parent_id;
    position = position;
    created_by = some input.actor_id;
    updated_at = now;
  }
  insert_issue row
  record_activity input.workspace_id input.actor_id Verb.created_issue TargetType.issue id
  pure row
