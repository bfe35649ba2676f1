-- ===== src/Store/Members.antt =====
-- workspace.go and `UpdateWorkspaceMembershipRole` of user.go: making a workspace, renaming it, and
-- changing who belongs to it. Users are not modelled: the foreign keys of a membership make the
-- join with its user succeed.
pub mod Counts
pub mod Admins
pub mod Histories
use Prim.Native.String.{String}
use text.Mathlib.Text.{◌==◌ as str_eq}
use velvet.Common.{
  Option, none, some, get_or, ◌=?◌, ℕ, Bool, true, false, not, ◌&&◌, ◌||◌, List, [], ◌∷◌, ◌++◌,
  ◌==◌, any, find, select, update,
}
use velvet.Store.Db.{
  SetupState, LoginToken, Invite, Comment, Mention, Db, Workspace, Membership, Role, Verb,
  TargetType, admin, member, viewer,
}
use velvet.Store.Tx.{
  Tx, duplicate, pure, require, reads, modify, query_row, ◌>>=◌, ◌>>◌, record_activity, draw_uuid,
}
use velvet.Store.Access.{lock_workspace_admin, retain_admin, is_admin}
use velvet.Store.Issue.Update.{when}

-- INSERT INTO workspace, whose slug is unique, and INSERT INTO membership.
unfoldable pub create_workspace : ℕ → String → String → String → Tx Membership
create_workspace actor_id name slug prefix = do
  taken ← reads (λ db. any (λ (w : Workspace). str_eq w.slug slug) db.workspaces)
  require (not taken) duplicate
  workspace_id ← draw_uuid
  let workspace : Workspace = record {
    id = workspace_id;
    name = name;
    slug = slug;
    issue_prefix = prefix;
    issue_counter = 0;
    jev_suggestions = true;
  }
  modify (λ db. record db { workspaces = db.workspaces ++ workspace ∷ [] })
  id ← draw_uuid
  let row : Membership = record {
    id = id;
    workspace_id = workspace_id;
    user_id = actor_id;
    role = admin;
  }
  modify (λ db. record db { memberships = db.memberships ++ row ∷ [] })
  pure row

abbrev pub is_workspace : ℕ → Workspace → Bool
is_workspace workspace_id w = w.id == workspace_id

unfoldable pub update_workspace_name : ℕ → ℕ → String → Tx Workspace
update_workspace_name workspace_id actor_id name = do
  lock_workspace_admin workspace_id actor_id
  before ← query_row (λ db. find (is_workspace workspace_id) db.workspaces)
  modify (λ db. record db {
    workspaces = update (is_workspace workspace_id) (λ w. record w { name = name }) db.workspaces;
  })
  out ← query_row (λ db. find (is_workspace workspace_id) db.workspaces)
  when (not (str_eq before.name name)) (
      record_activity workspace_id actor_id Verb.renamed_organisation TargetType.workspace
        workspace_id)
  pure out

abbrev pub is_row : ℕ → ℕ → Membership → Bool
is_row workspace_id membership_id m = m.workspace_id == workspace_id && m.id == membership_id

abbrev pub same_role : Role → Role → Bool
same_role admin admin = true
same_role member member = true
same_role viewer viewer = true
same_role _ _ = false

unfoldable pub update_workspace_membership_role : ℕ → ℕ → ℕ → Role → Tx Membership
update_workspace_membership_role workspace_id membership_id actor_id role = do
  lock_workspace_admin workspace_id actor_id
  before ← query_row (λ db. find (is_row workspace_id membership_id) db.memberships)
  when (is_admin before.role && not (is_admin role)) (retain_admin workspace_id before.role)
  modify (λ db. record db {
    memberships =
        update (is_row workspace_id membership_id) (λ m. record m { role = role }) db.memberships;
  })
  out ← query_row (λ db. find (is_row workspace_id membership_id) db.memberships)
  when (not (same_role before.role role))
      (record_activity workspace_id actor_id Verb.changed_member_role TargetType.membership out.id)
  pure out

abbrev of_workspace : ℕ → Option ℕ → Bool
of_workspace workspace_id id = id =? some workspace_id

-- The trigger `invalidate_deleted_invite_tokens`, and ON DELETE SET NULL.
abbrev without_invite : ℕ → LoginToken → LoginToken
without_invite now t = record t { consumed_at = some (get_or t.consumed_at now); invite_id = none }

abbrev invited_by_workspace : List Invite → ℕ → LoginToken → Bool
invited_by_workspace is workspace_id t =
    any (λ (i : Invite). (t.invite_id =? some i.id) && i.workspace_id == workspace_id) is

abbrev setup_in : ℕ → List SetupState → Option String → Bool
setup_in workspace_id rows none = false
setup_in workspace_id rows (some hash) =
    any (λ (g : SetupState). str_eq g.token_hash hash && g.workspace_id == workspace_id) rows

abbrev has_comment : List Comment → Mention → Bool
has_comment cs m = any (λ (c : Comment). c.id == m.comment_id) cs

-- DELETE FROM workspace: its rows in every table go with it (ON DELETE CASCADE).
unfoldable pub delete_workspace : ℕ → ℕ → Tx (Unit {0})
delete_workspace workspace_id actor_id = do
  lock_workspace_admin workspace_id actor_id
  modify (λ db. record db {
    workspaces = select (λ r. not (r.id == workspace_id)) db.workspaces;
    memberships = select (λ r. not (r.workspace_id == workspace_id)) db.memberships;
    projects = select (λ r. not (r.workspace_id == workspace_id)) db.projects;
    sprints = select (λ r. not (r.workspace_id == workspace_id)) db.sprints;
    milestones = select (λ r. not (r.workspace_id == workspace_id)) db.milestones;
    issues = select (λ r. not (r.workspace_id == workspace_id)) db.issues;
    activities = select (λ r. not (r.workspace_id == workspace_id)) db.activities;
    snapshots = select (λ r. not (r.workspace_id == workspace_id)) db.snapshots;
    invites = select (λ r. not (r.workspace_id == workspace_id)) db.invites;
    identities = select (λ g. not (g.workspace_id == workspace_id)) db.identities;
    comments = select (λ r. not (r.workspace_id == workspace_id)) db.comments;
    mentions =
        select (has_comment (select (λ r. not (r.workspace_id == workspace_id)) db.comments))
          db.mentions;
    pull_requests = select (λ r. not (r.workspace_id == workspace_id)) db.pull_requests;
    pr_links = select (λ r. not (r.workspace_id == workspace_id)) db.pr_links;
    reviews = select (λ r. not (r.workspace_id == workspace_id)) db.reviews;
    commits = select (λ r. not (r.workspace_id == workspace_id)) db.commits;
    suggestions = select (λ r. not (r.workspace_id == workspace_id)) db.suggestions;
    repos = select (λ r. not (r.workspace_id == workspace_id)) db.repos;
    installations =
        update (λ r. of_workspace workspace_id r.workspace_id)
          (λ r. record r { workspace_id = none }) db.installations;
    api_tokens = select (λ r. not (of_workspace workspace_id r.workspace_id)) db.api_tokens;
    cli_sessions = select (λ r. not (of_workspace workspace_id r.workspace_id)) db.cli_sessions;
    setup_states = select (λ r. not (r.workspace_id == workspace_id)) db.setup_states;
    authorization_states =
        select
          (λ r. not (
            of_workspace workspace_id r.link_workspace_id
            || setup_in workspace_id db.setup_states r.setup_token_hash))
          db.authorization_states;
    login_tokens =
        update (invited_by_workspace db.invites workspace_id) (without_invite db.now)
          db.login_tokens;
    sessions =
        update (λ r. of_workspace workspace_id r.last_workspace_id)
          (λ r. record r { last_workspace_id = none }) db.sessions;
  })

abbrev membership_row : List Workspace → ℕ → String → Membership → Bool
membership_row ws user_id slug m =
    m.user_id == user_id && any (λ (w : Workspace). w.id == m.workspace_id && str_eq w.slug slug) ws

-- FROM membership m JOIN workspace w ... WHERE m.user_id = $1 AND w.slug = $2
unfoldable pub membership_for_slug : ℕ → String → Tx Membership
membership_for_slug user_id slug =
    query_row (λ db. find (membership_row db.workspaces user_id slug) db.memberships)
