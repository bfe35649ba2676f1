-- ===== src/Store/Suggestion.antt =====
-- suggestion.go: suggested links between unlinked work and open issues. A person accepts a suggestion,
-- which attaches the pull request or files the note, or dismisses it. The probability is left out.
pub mod Closed
use Prim.Native.String.{String}
use velvet.Common.{
  ℕ, Option, none, some, Bool, true, false, not, ◌&&◌, ◌||◌, List, [], ◌∷◌, ◌++◌, ◌==◌, ◌=?◌, any,
  find, select, update, is_some, if◌then◌else◌,
}
use velvet.Store.Db.{
  Db, Workspace, PullRequest, Issue, IssueStatus, Comment, CommentTarget, Project, Suggestion,
  LinkSource, Verb, TargetType,
}
use velvet.Store.Tx.{
  Tx, not_found, database, suggestion_closed, panic, pure, throw, require, reads, modify, query_row,
  ◌>>=◌, ◌>>◌, draw_uuid, record_activity,
}
use velvet.Store.Access.{lock_workspace_writer, lock_workspace_admin}
use velvet.Store.Comment.{is_project_target}
use velvet.Store.Comment.Mentions.{same_id}
use velvet.Store.PullRequest.{is_issue_row, link_pr_tx, is_filed, has_workspace}

-- The work of a suggestion, which is a pull request or a note.
pub data Work : Type 0 where
  pull_request note : ℕ → Work

pub record SaveSuggestionInput : Type 0 where
  pub work : Work
  pub workspace_id : ℕ
  pub issue_id : Option ℕ
  pub model : String
  pub fingerprint : String

abbrev pub is_about : Work → Suggestion → Bool
is_about (pull_request id) s = same_id s.pull_request_id id
is_about (note id) s = same_id s.comment_id id

abbrev pub pr_of : Work → Option ℕ
pr_of (pull_request id) = some id
pr_of (note id) = none

abbrev pub comment_of : Work → Option ℕ
comment_of (pull_request id) = none
comment_of (note id) = some id

-- DO UPDATE SET ...: the CASE keeps a dismissal if the issue is the same.
abbrev pub answered : SaveSuggestionInput → ℕ → Suggestion → Suggestion
answered i now s = record s {
  issue_id = i.issue_id;
  model = i.model;
  fingerprint = i.fingerprint;
  updated_at = now;
  dismissed_at = if s.issue_id =? i.issue_id then s.dismissed_at else none;
  dismissed_by = if s.issue_id =? i.issue_id then s.dismissed_by else none;
}

-- WHERE link_suggestion.accepted_at IS NULL
abbrev pub may_answer : Work → Suggestion → Bool
may_answer work s = is_about work s && not (is_some s.accepted_at)

abbrev pub new_answer : SaveSuggestionInput → ℕ → ℕ → Suggestion
new_answer i id now = record {
  id = id;
  workspace_id = i.workspace_id;
  pull_request_id = pr_of i.work;
  comment_id = comment_of i.work;
  issue_id = i.issue_id;
  model = i.model;
  fingerprint = i.fingerprint;
  dismissed_at = none;
  dismissed_by = none;
  accepted_at = none;
  accepted_by = none;
  updated_at = now;
}

-- INSERT ... ON CONFLICT DO UPDATE ... WHERE
abbrev pub put_answer : SaveSuggestionInput → ℕ → ℕ → List Suggestion → List Suggestion
put_answer i id now rows =
    if any (is_about i.work) rows
    then update (may_answer i.work) (answered i now) rows
    else rows ++ new_answer i id now ∷ []

abbrev has_subject : Work → Db → Bool
has_subject (pull_request id) db = any (λ (p : PullRequest). p.id == id) db.pull_requests
has_subject (note id) db = any (λ (c : Comment). c.id == id) db.comments

-- The foreign keys of a row that is new, or of one that changes its issue.
abbrev pub answer_refers : SaveSuggestionInput → Db → Bool
answer_refers i db =
    if any (is_about i.work) db.suggestions
    then not (any (may_answer i.work) db.suggestions) || is_filed i.issue_id db
    else has_workspace i.workspace_id db && (has_subject i.work db && is_filed i.issue_id db)

unfoldable pub save_suggestion : SaveSuggestionInput → Tx (Unit {0})
save_suggestion i = do
  id ← draw_uuid
  stored ← reads (answer_refers i)
  require stored database
  modify (λ db. record db { suggestions = put_answer i id db.now db.suggestions })

abbrev pub is_suggestion : ℕ → ℕ → Suggestion → Bool
is_suggestion workspace_id id s = s.workspace_id == workspace_id && s.id == id

abbrev pub is_finished : IssueStatus → Bool
is_finished IssueStatus.done = true
is_finished IssueStatus.cancelled = true
is_finished _ = false

-- The note and its replies.
abbrev pub is_thread : ℕ → ℕ → Comment → Bool
is_thread workspace_id comment_id c =
    c.workspace_id == workspace_id && (c.id == comment_id || same_id c.parent_id comment_id)

abbrev pub is_project_note : ℕ → ℕ → Db → Comment → Bool
is_project_note workspace_id comment_id db c =
    c.workspace_id == workspace_id
    && (c.id == comment_id
        && (is_project_target c.target_type
            && (not (is_some c.deleted_at)
                && any (λ (p : Project). p.id == c.target_id) db.projects)))

unfoldable pub file_note_tx : ℕ → ℕ → ℕ → ℕ → Tx (Unit {0})
file_note_tx workspace_id comment_id issue_id actor_id = do
  found ← reads (λ db. any (is_project_note workspace_id comment_id db) db.comments)
  require found suggestion_closed
  modify (λ db. record db {
    comments =
        update (is_thread workspace_id comment_id)
          (λ c. record c { target_type = CommentTarget.issue; target_id = issue_id }) db.comments;
  })
  record_activity workspace_id actor_id Verb.filed_entry TargetType.issue issue_id

-- `prID != nil`, else the comment; the table has exactly one of them in every row.
abbrev pub apply_to : ℕ → ℕ → ℕ → Option ℕ → Option ℕ → Tx (Unit {0})
apply_to workspace_id issue_id actor_id (some pr) comment =
    link_pr_tx workspace_id pr issue_id LinkSource.suggested false (some actor_id) >> pure tt
apply_to workspace_id issue_id actor_id none (some comment) =
    file_note_tx workspace_id comment issue_id actor_id
apply_to workspace_id issue_id actor_id none none = throw panic

-- `issueID == nil || dismissed || accepted`
abbrev pub open_issue : Suggestion → Tx ℕ
open_issue s =
    if is_some s.dismissed_at || is_some s.accepted_at
    then throw suggestion_closed
    else elim s.issue_id [ none ↦ throw suggestion_closed | some id ↦ pure id ]

abbrev pub accepted_by_actor : ℕ → ℕ → Suggestion → Suggestion
accepted_by_actor now actor_id r = record r {
  accepted_at = some now;
  accepted_by = some actor_id;
  updated_at = now;
}

-- The key of the issue is returned.
unfoldable pub accept_suggestion : ℕ → ℕ → ℕ → Tx Issue
unfolding file_note_tx
accept_suggestion workspace_id suggestion_id actor_id = do
  lock_workspace_writer workspace_id actor_id
  s ← query_row (λ db. find (is_suggestion workspace_id suggestion_id) db.suggestions)
  issue_id ← open_issue s
  i ← query_row (λ db. find (is_issue_row workspace_id issue_id) db.issues)
  require (not (is_finished i.status)) suggestion_closed
  apply_to workspace_id issue_id actor_id s.pull_request_id s.comment_id
  modify (λ db. record db {
    suggestions =
        update (is_suggestion workspace_id suggestion_id) (accepted_by_actor db.now actor_id)
          db.suggestions;
  })
  pure i

abbrev pub may_dismiss : ℕ → ℕ → Suggestion → Bool
may_dismiss workspace_id id s =
    is_suggestion workspace_id id s
    && (is_some s.issue_id && (not (is_some s.dismissed_at) && not (is_some s.accepted_at)))

unfoldable pub dismiss_suggestion : ℕ → ℕ → ℕ → Tx (Unit {0})
dismiss_suggestion workspace_id suggestion_id actor_id = do
  lock_workspace_writer workspace_id actor_id
  changes ← reads (λ db. any (may_dismiss workspace_id suggestion_id) db.suggestions)
  exists ← reads (λ db. any (is_suggestion workspace_id suggestion_id) db.suggestions)
  modify (λ db. record db {
    suggestions =
        update (may_dismiss workspace_id suggestion_id)
          (λ r. record r {
            dismissed_at = some db.now;
            dismissed_by = some actor_id;
            updated_at = db.now;
          })
          db.suggestions;
  })
  require (changes || exists) not_found
  require changes suggestion_closed
  pure tt

-- `openSuggestion`, with the workspace and the issue joined.
abbrev pub enabled_in : Db → ℕ → Bool
enabled_in db workspace_id =
    any (λ (w : Workspace). w.id == workspace_id && w.jev_suggestions) db.workspaces

unfoldable pub is_open_suggestion : Db → Suggestion → Bool
is_open_suggestion db s =
    enabled_in db s.workspace_id
    && (not (is_some s.dismissed_at)
        && (not (is_some s.accepted_at)
            && any (λ (i : Issue). same_id s.issue_id i.id && not (is_finished i.status))
                db.issues))

abbrev pub is_wanted : List ℕ → Option ℕ → Bool
is_wanted ids none = false
is_wanted ids (some pr) = any (λ id. id == pr) ids

-- The open suggestions of the listed pull requests.
unfoldable pub pull_request_suggestions : ℕ → List ℕ → Tx (List Suggestion)
unfolding is_open_suggestion
pull_request_suggestions workspace_id pr_ids = reads (λ db.
    select
      (λ s.
        s.workspace_id == workspace_id
        && (is_wanted pr_ids s.pull_request_id && is_open_suggestion db s))
      db.suggestions)

unfoldable pub jev_suggestions_enabled : ℕ → Tx Bool
jev_suggestions_enabled workspace_id = do
  w ← query_row (λ db. find (λ (w : Workspace). w.id == workspace_id) db.workspaces)
  pure w.jev_suggestions

unfoldable pub set_jev_suggestions : ℕ → ℕ → Bool → Tx (Unit {0})
set_jev_suggestions workspace_id actor_id enabled = do
  lock_workspace_admin workspace_id actor_id
  modify (λ db. record db {
    workspaces =
        update (λ w. w.id == workspace_id) (λ w. record w { jev_suggestions = enabled })
          db.workspaces;
  })
