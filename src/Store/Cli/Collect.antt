-- ===== src/Store/Cli/Collect.antt =====
-- cli_session.go: what a sign-in is answered with, and the keys of projects.
use Prim.Native.String.{String, ◌++◌ as joined_with}
use text.Mathlib.Text.{◌==◌ as str_eq}
use velvet.Common.{
  any, ℕ, Option, none, some, Bool, true, false, not, ◌&&◌, ◌||◌, ◌==◌, ◌=?◌, leb, find, update,
  if◌then◌else◌,
}
use velvet.Store.Db.{
  Db, Role, Workspace, Project, ProjectStatus, ApiToken, TokenKind, CliSession, CliStatus, CliFlow,
  denied, collected,
}
use velvet.Store.Tx.{
  Tx, Result, ok, err, forbidden, panic, cli_session_pending, cli_session_denied,
  cli_session_expired, pure, require, throw, database, reads, modify, query_row, in_tx, ◌>>=◌, ◌>>◌,
  draw_random,
}
use velvet.Store.Access.{role_of, is_writer}
use velvet.Store.Library.{Library}
use velvet.Store.ApiToken.{same_kind, hash_token, api_token_prefix, create_api_token_tx}
use velvet.Store.Cli.{is_pending}

pub record CliGrant : Type 0 where
  pub kind : TokenKind
  pub token : String
  -- the workspace and the project, if the key is bound to one
  pub place : Option (Workspace × Project)
  pub role : Option Role

abbrev pub is_active_project : ProjectStatus → Bool
is_active_project ProjectStatus.active = true
is_active_project _ = false

abbrev pub with_role : Option Role → Workspace → Project → Option (Workspace × Project × Role)
with_role none w p = none
with_role (some r) w p = some (w, p, r)

-- The join of a workspace, an active project of it, and the user's membership.
abbrev pub grant_rows :
    (Workspace → Bool) → (Project → Bool) → ℕ → Db → Option (Workspace × Project × Role)
grant_rows is_w is_p user_id db = elim (find is_w db.workspaces) [
  | none ↦ none
  | some w ↦
      elim (find (λ (p : Project). is_p p && (p.workspace_id == w.id && is_active_project p.status))
        db.projects) [ none ↦ none | some p ↦ with_role (role_of db w.id user_id) w p ]
]

abbrev pub is_denied : CliStatus → Bool
is_denied denied = true
is_denied _ = false

abbrev pub is_collected : CliStatus → Bool
is_collected collected = true
is_collected _ = false

-- What is committed: a grant, or a refusal that is reported afterwards.
pub data Outcome : Type 0 where
  granted : CliGrant → Outcome
  refused : Outcome

abbrev pub answer : Result Outcome × Db → Result CliGrant × Db
answer (ok (granted g), db) = (ok g, db)
answer (ok refused, db) = (err cli_session_denied, db)
answer (err e, db) = (err e, db)

unfoldable pub set_status : ℕ → CliStatus → Option ℕ → Tx (Unit {0})
set_status id status token_id = modify (λ db. record db {
  cli_sessions =
      update (λ (s : CliSession). s.id == id)
        (λ s. record s { status = status; api_token_id = token_id }) db.cli_sessions;
})

abbrev pub kind_of_flow : CliFlow → TokenKind
kind_of_flow CliFlow.manage = TokenKind.personal
kind_of_flow CliFlow.desktop = TokenKind.desktop
kind_of_flow _ = TokenKind.setup

abbrev pub flow_name : CliFlow → String
flow_name CliFlow.init = "init"
flow_name CliFlow.login = "login"
flow_name CliFlow.manage = "manage"
flow_name CliFlow.desktop = "desktop"

abbrev pub separated : String → String → String
separated a b = joined_with a (joined_with " · " b)

abbrev pub place_name : Workspace → Project → String
place_name w p = joined_with w.slug (joined_with "/" p.key)

abbrev pub only_writer : Option (Workspace × Project × Role) → Option (Workspace × Project × Role)
only_writer none = none
only_writer (some (w, p, r)) = if is_writer r then some (w, p, r) else none

abbrev pub is_id : ℕ → Workspace → Bool
is_id id w = w.id == id

abbrev pub is_init : CliFlow → Bool
is_init CliFlow.init = true
is_init _ = false

abbrev pub named_rows : CliSession → ℕ → Db → Option (Workspace × Project × Role)
named_rows row approver db =
    only_writer (
      grant_rows (λ w. row.workspace_id =? some w.id) (λ p. row.project_id =? some p.id) approver
        db)

abbrev pub is_device : String → CliSession → Bool
is_device device_hash s = str_eq s.device_hash device_hash

abbrev pub is_setup_of : ℕ → ℕ → ApiToken → Bool
is_setup_of user_id id t = t.id == id && (t.user_id == user_id && same_kind t.kind TokenKind.setup)

abbrev pub is_child : ℕ → ℕ → ApiToken → Bool
is_child parent_id project_id t =
    (t.parent_id =? some parent_id) && (t.project_id =? some project_id)

module _ (lib : Library) where
  unfoldable pub mint_unscoped : CliSession → ℕ → Tx Outcome
  mint_unscoped row approver = do
    created ←
        create_api_token_tx lib approver
          (separated row.client_name (separated (flow_name row.flow) (lib.short_id row.id)))
          (record {
            kind = some (kind_of_flow row.flow);
            parent_id = none;
            workspace_id = none;
            project_id = none;
          })
    set_status row.id collected (some created.1)
    pure (
        granted
          (record { kind = kind_of_flow row.flow; token = created.0; place = none; role = none }))

  -- The rest of a poll for the flow `init`, with what the join found.
  unfoldable pub mint_project : CliSession → ℕ → Option (Workspace × Project × Role) → Tx Outcome
  mint_project row approver none = do set_status row.id denied row.api_token_id; pure refused
  mint_project row approver (some (w, p, r)) = do
    created ←
        create_api_token_tx lib approver
          (separated row.client_name (separated (place_name w p) (lib.short_id row.id)))
          (record {
            kind = none;
            parent_id = none;
            workspace_id = some w.id;
            project_id = some p.id;
          })
    set_status row.id collected (some created.1)
    pure (
        granted (record {
          kind = TokenKind.project;
          token = created.0;
          place = some (w, p);
          role = some r;
        }))

  unfoldable pub mint : CliSession → Option ℕ → Tx Outcome
  mint row none = throw panic
  mint row (some approver) = do
    rows ← reads (named_rows row approver)
    if is_init row.flow then mint_project row approver rows else mint_unscoped row approver

  unfoldable pub collect_found : Option CliSession → Tx Outcome
  collect_found none = throw cli_session_expired
  collect_found (some row) = do
    now ← reads (λ db. db.now)
    require (not (is_denied row.status)) cli_session_denied
    require (not (is_collected row.status || leb row.expires_at now)) cli_session_expired
    require (not (is_pending row.status)) cli_session_pending
    mint row row.approved_by

  unfoldable pub collect_tx : String → Tx Outcome
  collect_tx device = do
    found ← reads (λ db. find (is_device (hash_token lib device)) db.cli_sessions)
    collect_found found

  unfoldable pub collect_cli_session : String → Db → Result CliGrant × Db
  collect_cli_session device db = answer (in_tx (collect_tx device) db)

  -- The key's own row is used again; its name stays.
  unfoldable pub issue_token : ApiToken → ℕ → Workspace → Project → Option ApiToken → Tx String
  issue_token parent user_id w p (some child) = do
    raw ← draw_random 32
    let token = joined_with api_token_prefix (lib.hex raw)
    taken ← reads (λ db.
        any (λ (t : ApiToken). str_eq t.token_hash (hash_token lib token) && not (t.id == child.id))
          db.api_tokens)
    require (not taken) database
    modify (λ db. record db {
      api_tokens =
          update (λ (t : ApiToken). t.id == child.id)
            (λ t. record t { token_hash = hash_token lib token; last_used_at = none })
            db.api_tokens;
    })
    pure token
  issue_token parent user_id w p none = do
    created ← create_api_token_tx lib user_id (separated parent.name (place_name w p)) (record {
      kind = some TokenKind.project;
      parent_id = some parent.id;
      workspace_id = some w.id;
      project_id = some p.id;
    })
    pure created.0

  unfoldable pub issue_project_token : ℕ → ℕ → String → String → Tx CliGrant
  issue_project_token user_id parent_id slug key = do
    parent ← query_row (λ db. find (is_setup_of user_id parent_id) db.api_tokens)
    rows ← query_row (
        grant_rows (λ w. str_eq w.slug slug) (λ p. str_eq p.key (lib.to_lower (lib.trim key)))
          user_id)
    require (is_writer rows.2) forbidden
    child ← reads (λ db. find (is_child parent_id rows.1.id) db.api_tokens)
    token ← issue_token parent user_id rows.0 rows.1 child
    pure (record {
      kind = TokenKind.project;
      token = token;
      place = some (rows.0, rows.1);
      role = some rows.2;
    })
