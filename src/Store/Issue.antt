-- ===== src/Store/Issue.antt =====
-- issue.go: creating and updating issues, and the trigger `issue_depth_guard` of 0001_init.sql.
pub mod Create
pub mod Update
pub mod Reads
pub mod Shape
pub mod Agree
pub mod Order
pub mod Nesting
pub mod References
pub mod Histories
use Prim.Native.String.{String}
use velvet.Common.{
  ℕ, ◌+◌, Option, none, some, Bool, not, ◌&&◌, List, [], ◌∷◌, ◌==◌, ◌=?◌, is_some, any, find,
  select, update, if◌then◌else◌,
}
use velvet.Common.Text.{Bytes, lex_ltb}
use velvet.Fracdex
use velvet.Store.Db.{Db, Workspace, Project, Sprint, Milestone, Issue, IssueKey, IssueStatus}
use velvet.Store.Tx.{
  Tx, not_found, invalid_nesting, database, order_key, ok, err, pure, require, reads, modify,
  query_row, ◌>>=◌, ◌>>◌,
}
use velvet.Store.Access.{check_workspace_member}

pub record CreateIssueInput : Type 0 where
  pub workspace_id : ℕ
  pub actor_id : ℕ
  pub title : String
  pub description : String
  -- `none` is the empty string
  pub status : Option IssueStatus
  pub priority : ℕ
  pub assignee_id : Option ℕ
  pub milestone_id : Option ℕ
  pub project_id : Option ℕ
  pub parent_id : Option ℕ

-- `none` leaves a field unchanged; `some none` clears a reference.
pub record IssuePatch : Type 0 where
  pub title : Option String
  pub description : Option String
  pub status : Option IssueStatus
  pub priority : Option ℕ
  pub assignee_id : Option (Option ℕ)
  pub milestone_id : Option (Option ℕ)
  pub project_id : Option (Option ℕ)
  pub parent_id : Option (Option ℕ)
  pub after_id : Option ℕ
  pub before_id : Option ℕ

-- The results of fracdex in a transaction.
abbrev pub order_result : Fracdex.Result → Tx Bytes
order_result (Fracdex.ok k) db = ok (k, db)
order_result (Fracdex.err e) db = err (order_key e)

-- ORDER BY position DESC LIMIT 1
unfoldable pub last_position : List Bytes → Option Bytes
last_position [] = none
last_position (p ∷ ps) = elim (last_position ps) [
  | none ↦ some p
  | some q ↦ some (if lex_ltb q p then p else q)
]

abbrev pub positions : List Issue → List Bytes
positions [] = []
positions (i ∷ is) = i.position ∷ positions is

-- The issues of one list: those of a milestone, or the unfiled ones.
abbrev pub in_list : ℕ → Option ℕ → Issue → Bool
in_list workspace_id milestone_id i =
    i.workspace_id == workspace_id && (i.milestone_id =? milestone_id)

abbrev pub after_last : Option Bytes → Tx Bytes
after_last none = pure Fracdex.first
after_last (some last) = order_result (Fracdex.between last [])

unfoldable pub next_issue_position : ℕ → Option ℕ → Tx Bytes
next_issue_position workspace_id milestone_id = do
  last ←
      reads (λ db. last_position (positions (select (in_list workspace_id milestone_id) db.issues)))
  after_last last

-- UPDATE workspace SET issue_counter = issue_counter + 1 ... RETURNING issue_prefix, issue_counter
unfoldable pub next_issue_key : ℕ → Tx IssueKey
next_issue_key workspace_id = do
  let is_row = λ (w : Workspace). w.id == workspace_id
  modify (λ db. record db {
    workspaces =
        update is_row (λ w. record w { issue_counter = w.issue_counter + 1 }) db.workspaces;
  })
  w ← query_row (λ db. find is_row db.workspaces)
  pure (record { prefix = w.issue_prefix; number = w.issue_counter })

-- SELECT s.project_id FROM milestone m JOIN sprint s ON s.id = m.sprint_id
unfoldable pub owner_project : Db → ℕ → ℕ → Option ℕ
owner_project db workspace_id milestone_id =
    elim (find (λ (m : Milestone). m.workspace_id == workspace_id && m.id == milestone_id)
      db.milestones) [
        | none ↦ none
        | some m ↦ elim (find (λ (s : Sprint). s.id == m.sprint_id) db.sprints) [
          | none ↦ none
          | some s ↦ some s.project_id
        ]
      ]

unfoldable pub milestone_project : ℕ → ℕ → Tx ℕ
milestone_project workspace_id milestone_id =
    query_row (λ db. owner_project db workspace_id milestone_id)

unfoldable pub check_project_in_workspace : ℕ → ℕ → Tx (Unit {0})
check_project_in_workspace workspace_id project_id = do
  exists ← reads (λ db.
      any (λ (p : Project). p.id == project_id && p.workspace_id == workspace_id) db.projects)
  require exists not_found

-- `if id != nil { ... }`
abbrev pub when_some : Option ℕ → (ℕ → Tx (Unit {0})) → Tx (Unit {0})
when_some none f = pure tt
when_some (some id) f = f id

unfoldable pub check_milestone_exists : ℕ → ℕ → Tx (Unit {0})
check_milestone_exists workspace_id milestone_id = do
  exists ← reads (λ db.
      any (λ (m : Milestone). m.id == milestone_id && m.workspace_id == workspace_id) db.milestones)
  require exists not_found

unfoldable pub check_issue_exists : ℕ → ℕ → Tx (Unit {0})
check_issue_exists workspace_id issue_id = do
  exists ←
      reads
        (λ db. any (λ (i : Issue). i.id == issue_id && i.workspace_id == workspace_id) db.issues)
  require exists not_found

unfoldable pub check_issue_references :
    ℕ → Option ℕ → Option ℕ → Option ℕ → Option ℕ → Tx (Unit {0})
check_issue_references workspace_id assignee_id milestone_id project_id parent_id = do
  when_some assignee_id (check_workspace_member workspace_id)
  when_some project_id (check_project_in_workspace workspace_id)
  when_some milestone_id (check_milestone_exists workspace_id)
  when_some parent_id (check_issue_exists workspace_id)

unfoldable pub reconcile_milestone_project :
    ℕ → Option ℕ → Option ℕ → Bool → Tx (Option ℕ × Option ℕ)
reconcile_milestone_project workspace_id none project_id milestone_chosen = pure (none, project_id)
reconcile_milestone_project workspace_id (some milestone_id) project_id milestone_chosen = do
  owner ← milestone_project workspace_id milestone_id
  if project_id =? some owner
      then pure (some milestone_id, project_id)
      else if milestone_chosen
      then pure (some milestone_id, some owner)
      else pure (none, project_id)

-- The trigger before an insert or an update of an issue. Only the second message holds the words
-- "one level", which `mapIssueErr` looks for.
unfoldable pub issue_depth_guard : ℕ → Option ℕ → Tx (Unit {0})
issue_depth_guard id none = pure tt
issue_depth_guard id (some parent_id) = do
  require (not (parent_id == id)) database
  nested ← reads (λ db. any (λ (i : Issue). i.id == parent_id && is_some i.parent_id) db.issues)
  require (not nested) invalid_nesting
  has_children ← reads (λ db. any (λ (i : Issue). i.parent_id =? some id) db.issues)
  require (not has_children) database

unfoldable pub issue_project_id : ℕ → ℕ → Tx (Option ℕ)
issue_project_id workspace_id issue_id = do
  i ←
      query_row
        (λ db. find (λ (i : Issue). i.workspace_id == workspace_id && i.id == issue_id) db.issues)
  pure i.project_id

unfoldable pub milestone_project_id : ℕ → ℕ → Tx ℕ
milestone_project_id workspace_id milestone_id =
    query_row (λ db. owner_project db workspace_id milestone_id)
