-- ===== src/Store/Milestone.antt =====
-- milestone.go: creating, updating and reordering milestones.
use Prim.Native.String.{String}
use velvet.Common.{
  ℕ, Option, none, some, Bool, true, false, not, ◌&&◌, ◌||◌, List, [], ◌∷◌, ◌++◌, ◌==◌, is_some,
  get_or, any, find, select, update, if◌then◌else◌,
}
use velvet.Common.Text.{Bytes}
use velvet.Fracdex
use velvet.Store.Db.{Sprint, Milestone, MilestoneStatus, planned, completed, Verb, TargetType}
use velvet.Store.Tx.{
  Tx, not_found, pure, require, reads, modify, query_row, ◌>>=◌, ◌>>◌, record_activity, draw_uuid,
}
use velvet.Store.Access.{lock_workspace_writer, check_workspace_member}
use velvet.Store.Issue.{order_result, after_last, last_position, when_some}
use velvet.Store.Issue.Update.{when}

pub record CreateMilestoneInput : Type 0 where
  pub workspace_id : ℕ
  pub sprint_id : ℕ
  pub actor_id : ℕ
  pub name : String
  pub description : String
  pub owner_id : Option ℕ
  pub target_date : Option Bytes

pub record MilestonePatch : Type 0 where
  pub name : Option String
  pub description : Option String
  pub status : Option MilestoneStatus
  pub target_date : Option (Option Bytes)
  pub owner_id : Option (Option ℕ)
  pub after_id : Option ℕ
  pub before_id : Option ℕ

abbrev pub in_sprint : ℕ → ℕ → Milestone → Bool
in_sprint workspace_id sprint_id m = m.workspace_id == workspace_id && m.sprint_id == sprint_id

abbrev pub milestone_positions : List Milestone → List Bytes
milestone_positions [] = []
milestone_positions (m ∷ ms) = m.position ∷ milestone_positions ms

unfoldable pub next_milestone_position : ℕ → ℕ → Tx Bytes
next_milestone_position workspace_id sprint_id = do
  last ← reads (λ db.
      last_position (milestone_positions (select (in_sprint workspace_id sprint_id) db.milestones)))
  after_last last

-- SELECT EXISTS (SELECT 1 FROM sprint WHERE id = $1 AND workspace_id = $2)
unfoldable pub check_sprint_exists : ℕ → ℕ → Tx (Unit {0})
check_sprint_exists workspace_id sprint_id = do
  exists ←
      reads
        (λ db. any (λ (s : Sprint). s.id == sprint_id && s.workspace_id == workspace_id) db.sprints)
  require exists not_found

-- INSERT INTO milestone
unfoldable pub insert_milestone : Milestone → Tx (Unit {0})
insert_milestone row = modify (λ db. record db { milestones = db.milestones ++ row ∷ [] })

unfoldable pub create_milestone : CreateMilestoneInput → Tx Milestone
create_milestone input = do
  lock_workspace_writer input.workspace_id input.actor_id
  check_sprint_exists input.workspace_id input.sprint_id
  when_some input.owner_id (check_workspace_member input.workspace_id)
  position ← next_milestone_position input.workspace_id input.sprint_id
  id ← draw_uuid
  now ← reads (λ db. db.now)
  let row : Milestone = record {
    id = id;
    workspace_id = input.workspace_id;
    sprint_id = input.sprint_id;
    name = input.name;
    description = input.description;
    owner_id = input.owner_id;
    target_date = input.target_date;
    status = planned;
    position = position;
    updated_at = now;
  }
  insert_milestone row
  record_activity input.workspace_id input.actor_id Verb.created_milestone TargetType.milestone id
  pure row

abbrev pub is_milestone : ℕ → ℕ → Milestone → Bool
is_milestone workspace_id id m = m.workspace_id == workspace_id && m.id == id

unfoldable pub milestone_neighbour : ℕ → ℕ → Option ℕ → Tx Bytes
milestone_neighbour workspace_id sprint_id none = pure []
milestone_neighbour workspace_id sprint_id (some id) = do
  m ← query_row (λ db. find (λ m. in_sprint workspace_id sprint_id m && m.id == id) db.milestones)
  pure m.position

unfoldable pub reposition : ℕ → ℕ → Option ℕ → Option ℕ → Tx Bytes
reposition workspace_id sprint_id after_id before_id = do
  lo ← milestone_neighbour workspace_id sprint_id after_id
  hi ← milestone_neighbour workspace_id sprint_id before_id
  order_result (Fracdex.between lo hi)

abbrev pub choose_milestone_position : ℕ → Milestone → MilestonePatch → Tx Bytes
choose_milestone_position workspace_id before patch =
    if is_some patch.after_id || is_some patch.before_id
    then reposition workspace_id before.sprint_id patch.after_id patch.before_id
    else pure before.position

abbrev pub is_completed : MilestoneStatus → Bool
is_completed completed = true
is_completed _ = false

abbrev pub completes : MilestonePatch → Milestone → Bool
completes patch before = elim patch.status [
  | none ↦ false
  | some s ↦ is_completed s && not (is_completed before.status)
]

unfoldable pub update_milestone : ℕ → ℕ → ℕ → MilestonePatch → Tx Milestone
update_milestone workspace_id id actor_id patch = do
  lock_workspace_writer workspace_id actor_id
  before ← query_row (λ db. find (is_milestone workspace_id id) db.milestones)
  position ← choose_milestone_position workspace_id before patch
  let owner_id = get_or patch.owner_id before.owner_id
  when_some owner_id (check_workspace_member workspace_id)
  now ← reads (λ db. db.now)
  let row : Milestone = record before {
    name = get_or patch.name before.name;
    description = get_or patch.description before.description;
    status = get_or patch.status before.status;
    target_date = get_or patch.target_date before.target_date;
    owner_id = owner_id;
    position = position;
    updated_at = now;
  }
  modify (λ db. record db {
    milestones = update (is_milestone workspace_id id) (λ _. row) db.milestones;
  })
  when (completes patch before)
      (record_activity workspace_id actor_id Verb.completed_milestone TargetType.milestone id)
  pure row

unfoldable pub get_milestone : ℕ → ℕ → Tx Milestone
get_milestone workspace_id id = query_row (λ db. find (is_milestone workspace_id id) db.milestones)
