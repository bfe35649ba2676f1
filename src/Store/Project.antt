-- ===== src/Store/Project.antt =====
-- project.go: creating and updating projects, with the constraints of the table.
pub mod Sound
pub mod Histories
use Prim.Native.String.{String}
use text.Mathlib.Text.{◌==◌ as str_eq}
use velvet.Common.{
  ℕ, Option, none, some, Bool, true, false, not, ◌&&◌, ◌||◌, List, [], ◌∷◌, ◌++◌, ◌==◌, leb, length,
  get_or, is_some, all, any, find, update, if◌then◌else◌,
}
use velvet.Common.Text.{Bytes, codes}
use velvet.Store.Db.{Project, ProjectStatus, active, archived, Verb, TargetType}
use velvet.Store.Tx.{
  Tx, database, duplicate, pure, require, reads, modify, query_row, ◌>>=◌, ◌>>◌, record_activity,
  draw_uuid,
}
use velvet.Store.Access.{lock_workspace_writer}
use velvet.Store.Issue.Update.{when}

pub record CreateProjectInput : Type 0 where
  pub workspace_id : ℕ
  pub actor_id : ℕ
  pub key : String
  pub name : String
  pub description : String

pub record ProjectPatch : Type 0 where
  pub name : Option String
  pub description : Option String
  pub status : Option ProjectStatus

abbrev is_alnum : ℕ → Bool
is_alnum c = (leb b'a' c && leb c b'z') || (leb b'0' c && leb c b'9')

abbrev last_is_alnum : Bytes → Bool
last_is_alnum [] = false
last_is_alnum (c ∷ []) = is_alnum c
last_is_alnum (c ∷ d ∷ cs) = last_is_alnum (d ∷ cs)

abbrev first_is_alnum : Bytes → Bool
first_is_alnum [] = false
first_is_alnum (c ∷ cs) = is_alnum c

-- ^[a-z0-9](?:[a-z0-9-]{0,38}[a-z0-9])?$
unfoldable pub valid_project_key : String → Bool
valid_project_key key =
    let cs = codes key in
    first_is_alnum cs
    && (last_is_alnum cs && (leb (length cs) 40 && all (λ c. is_alnum c || c == b'-') cs))

unfoldable pub create_project : CreateProjectInput → Tx Project
create_project input = do
  lock_workspace_writer input.workspace_id input.actor_id
  require (valid_project_key input.key) database
  taken ← reads (λ db.
      any (λ (p : Project). p.workspace_id == input.workspace_id && str_eq p.key input.key)
        db.projects)
  require (not taken) duplicate
  id ← draw_uuid
  now ← reads (λ db. db.now)
  let row : Project = record {
    id = id;
    workspace_id = input.workspace_id;
    key = input.key;
    name = input.name;
    description = input.description;
    status = active;
    created_by = some input.actor_id;
    updated_at = now;
    archived_at = none;
  }
  modify (λ db. record db { projects = db.projects ++ row ∷ [] })
  record_activity input.workspace_id input.actor_id Verb.created_project TargetType.project id
  pure row

abbrev pub is_archived : ProjectStatus → Bool
is_archived archived = true
is_archived active = false

-- CASE WHEN $5 = 'archived' THEN COALESCE(project.archived_at, now()) END
abbrev pub archive_time : ProjectStatus → Option ℕ → ℕ → Option ℕ
archive_time archived before now = some (get_or before now)
archive_time active before now = none

abbrev pub is_project : ℕ → ℕ → Project → Bool
is_project workspace_id id p = p.workspace_id == workspace_id && p.id == id

abbrev changes_text : Option String → String → Bool
changes_text none before = false
changes_text (some s) before = not (str_eq s before)

abbrev same_status : ProjectStatus → ProjectStatus → Bool
same_status active active = true
same_status archived archived = true
same_status _ _ = false

abbrev changes_status : Option ProjectStatus → ProjectStatus → Bool
changes_status none before = false
changes_status (some s) before = not (same_status s before)

unfoldable pub update_project : ℕ → ℕ → ℕ → ProjectPatch → Tx Project
update_project workspace_id id actor_id patch = do
  lock_workspace_writer workspace_id actor_id
  before ← query_row (λ db. find (is_project workspace_id id) db.projects)
  now ← reads (λ db. db.now)
  let status = get_or patch.status before.status
  let row : Project = record before {
    name = get_or patch.name before.name;
    description = get_or patch.description before.description;
    status = status;
    archived_at = archive_time status before.archived_at now;
    updated_at = now;
  }
  modify (λ db. record db { projects = update (is_project workspace_id id) (λ _. row) db.projects })
  when
      (changes_text patch.name before.name
        || (changes_text patch.description before.description
            || changes_status patch.status before.status))
      (record_activity workspace_id actor_id Verb.updated_project TargetType.project id)
  pure row

abbrev pub has_key : ℕ → String → Project → Bool
has_key workspace_id key p = p.workspace_id == workspace_id && str_eq p.key key

unfoldable pub get_project_by_key : ℕ → String → Tx Project
get_project_by_key workspace_id key = query_row (λ db. find (has_key workspace_id key) db.projects)

unfoldable pub project_id_by_key : ℕ → String → Tx ℕ
project_id_by_key workspace_id key = do
  p ← query_row (λ db. find (has_key workspace_id key) db.projects)
  pure p.id
