-- ===== src/Store/Sprint/Roll.antt =====
-- `rollIncompleteIssuesForward` of snapshot.go.
use text.Mathlib.Text.{◌==◌ as str_eq}
use velvet.Common.{
  ℕ, Option, none, some, Bool, true, false, not, ◌&&◌, List, [], ◌∷◌, ◌==◌, ◌=?◌, any, find, select,
  update, if◌then◌else◌,
}
use velvet.Common.Text.{lex_ltb}
use velvet.Store.Db.{Db, Sprint, Milestone, planned, Issue, IssueStatus, done, cancelled}
use velvet.Store.Tx.{Tx, pure, reads, modify, ◌>>=◌, ◌>>◌, draw_uuid}
use velvet.Store.Milestone.{in_sprint, next_milestone_position, insert_milestone}
use velvet.Store.Sprint.{is_upcoming}

-- ORDER BY next.starts_on ASC LIMIT 1
unfoldable pub earliest : List Sprint → Option Sprint
earliest [] = none
earliest (s ∷ ss) = elim (earliest ss) [
  | none ↦ some s
  | some t ↦ some (if lex_ltb t.starts_on s.starts_on then t else s)
]

-- The next upcoming sprint of the same project.
unfoldable pub next_upcoming : Db → ℕ → ℕ → Option ℕ
next_upcoming db workspace_id sprint_id =
    elim (find (λ (s : Sprint). s.id == sprint_id) db.sprints) [
      | none ↦ none
      | some closing ↦
          elim (earliest (
            select
              (λ (s : Sprint).
                s.workspace_id == workspace_id
                && (is_upcoming s.state
                    && (not (s.id == sprint_id) && s.project_id == closing.project_id)))
              db.sprints)) [ none ↦ none | some s ↦ some s.id ]
    ]

-- status NOT IN ('done', 'cancelled')
abbrev pub is_open : IssueStatus → Bool
is_open done = false
is_open cancelled = false
is_open _ = true

abbrev pub has_open_issue : List Issue → Milestone → Bool
has_open_issue is m = any (λ (i : Issue). (i.milestone_id =? some m.id) && is_open i.status) is

-- ORDER BY m.position
abbrev pub insert_by_position : Milestone → List Milestone → List Milestone
insert_by_position m [] = m ∷ []
insert_by_position m (n ∷ ns) =
    if lex_ltb n.position m.position then n ∷ insert_by_position m ns else m ∷ n ∷ ns

unfoldable pub sort_by_position : List Milestone → List Milestone
sort_by_position [] = []
sort_by_position (m ∷ ms) = insert_by_position m (sort_by_position ms)

abbrev pub carried : Db → ℕ → ℕ → List Milestone
carried db workspace_id sprint_id =
    sort_by_position
      (select (λ m. in_sprint workspace_id sprint_id m && has_open_issue db.issues m) db.milestones)

-- A milestone of the same name in the next sprint, made if there is none.
unfoldable pub target_milestone : ℕ → ℕ → Milestone → Option Milestone → Tx ℕ
target_milestone workspace_id next_sprint c (some m) = pure m.id
target_milestone workspace_id next_sprint c none = do
  position ← next_milestone_position workspace_id next_sprint
  id ← draw_uuid
  now ← reads (λ db. db.now)
  insert_milestone (record {
    id = id;
    workspace_id = workspace_id;
    sprint_id = next_sprint;
    name = c.name;
    description = c.description;
    owner_id = c.owner_id;
    target_date = none;
    status = planned;
    position = position;
    updated_at = now;
  })
  pure id

abbrev pub moves : ℕ → ℕ → Issue → Bool
moves workspace_id from i =
    i.workspace_id == workspace_id && ((i.milestone_id =? some from) && is_open i.status)

-- UPDATE issue SET milestone_id = $1, updated_at = now() WHERE ...
unfoldable pub move_issues : ℕ → ℕ → ℕ → Tx (Unit {0})
move_issues workspace_id from target = modify (λ db. record db {
  issues =
      update (moves workspace_id from)
        (λ i. record i { milestone_id = some target; updated_at = db.now }) db.issues;
})

-- One round of the loop over the carried milestones.
unfoldable pub carry : ℕ → ℕ → Milestone → Tx (Unit {0})
carry workspace_id next_sprint c = do
  found ←
      reads (λ db.
        find (λ m. in_sprint workspace_id next_sprint m && str_eq m.name c.name) db.milestones)
  target ← target_milestone workspace_id next_sprint c found
  move_issues workspace_id c.id target

unfoldable pub carry_all : ℕ → ℕ → List Milestone → Tx (Unit {0})
carry_all workspace_id next_sprint [] = pure tt
carry_all workspace_id next_sprint (c ∷ cs) = do
  carry workspace_id next_sprint c
  carry_all workspace_id next_sprint cs

-- With a destination.
unfoldable pub roll_into : ℕ → ℕ → Option ℕ → Tx (Unit {0})
roll_into workspace_id sprint_id none = pure tt
roll_into workspace_id sprint_id (some next_sprint) = do
  cs ← reads (λ db. carried db workspace_id sprint_id)
  carry_all workspace_id next_sprint cs

-- `none` is `uuid.Nil`: the destination is then the next upcoming sprint, if there is one.
unfoldable pub roll_incomplete_issues_forward : ℕ → ℕ → Option ℕ → Tx (Unit {0})
roll_incomplete_issues_forward workspace_id sprint_id (some next_sprint) =
    roll_into workspace_id sprint_id (some next_sprint)
roll_incomplete_issues_forward workspace_id sprint_id none = do
  next ← reads (λ db. next_upcoming db workspace_id sprint_id)
  roll_into workspace_id sprint_id next
