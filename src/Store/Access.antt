-- ===== src/Store/Access.antt =====
-- workspace.go and `checkWorkspaceMember` of store.go: who may act on a workspace.
-- The row locks order the transactions of one workspace; a transaction is one step here.
pub mod Reads
use velvet.Common.{
  ℕ, Option, none, some, Bool, true, false, not, ◌&&◌, ◌||◌, List, ◌==◌, leb, length, any, find,
  select,
}
use velvet.Store.Db.{
  Db, Workspace, Membership, Identity, Role, Verb, TargetType, admin, member, viewer,
}
use velvet.Store.Tx.{
  Tx, not_found, forbidden, last_admin, ok, err, pure, require, reads, modify, query_row, ◌>>=◌,
  ◌>>◌, record_activity,
}

-- SELECT id FROM workspace WHERE id=$1 FOR UPDATE
unfoldable pub lock_workspace : ℕ → Tx (Unit {0})
lock_workspace workspace_id = do
  query_row (λ db. find (λ (w : Workspace). w.id == workspace_id) db.workspaces)
  pure tt

abbrev pub is_membership : ℕ → ℕ → Membership → Bool
is_membership workspace_id user_id m = m.workspace_id == workspace_id && m.user_id == user_id

abbrev pub role_of : Db → ℕ → ℕ → Option Role
role_of db workspace_id user_id = elim (find (is_membership workspace_id user_id) db.memberships) [
  | none ↦ none
  | some m ↦ some m.role
]

unfoldable pub lock_workspace_actor : ℕ → ℕ → Tx Role
lock_workspace_actor workspace_id actor_id = do
  lock_workspace workspace_id
  query_row (λ db. role_of db workspace_id actor_id)

abbrev pub is_writer : Role → Bool
is_writer admin = true
is_writer member = true
is_writer viewer = false

abbrev pub is_admin : Role → Bool
is_admin admin = true
is_admin _ = false

-- A missing workspace or membership reads as forbidden.
abbrev forbid_missing : {A : Type 0} → Tx A → Tx A
forbid_missing m db = elim (m db) [
  | ok r ↦ ok r
  | err e ↦ elim e [ not_found ↦ err forbidden | e' ↦ err e' ]
]

unfoldable pub lock_workspace_writer : ℕ → ℕ → Tx (Unit {0})
lock_workspace_writer workspace_id actor_id = do
  require (not (actor_id == 0)) forbidden
  role ← forbid_missing (lock_workspace_actor workspace_id actor_id)
  require (is_writer role) forbidden

unfoldable pub lock_workspace_admin : ℕ → ℕ → Tx (Unit {0})
lock_workspace_admin workspace_id actor_id = do
  role ← lock_workspace_actor workspace_id actor_id
  require (is_admin role) forbidden

unfoldable pub check_workspace_member : ℕ → ℕ → Tx (Unit {0})
check_workspace_member workspace_id user_id = do
  exists ← reads (λ db. any (is_membership workspace_id user_id) db.memberships)
  require exists not_found

abbrev pub admins : ℕ → List Membership → ℕ
admins workspace_id ms =
    length (select (λ (m : Membership). m.workspace_id == workspace_id && is_admin m.role) ms)

-- Deleting a membership deletes its identity.
abbrev pub without_members : (Membership → Bool) → Db → List Identity
without_members gone db =
    select
      (λ (g : Identity).
        not (any (λ (m : Membership). gone m && m.id == g.membership_id) db.memberships))
      db.identities

-- The last administrator cannot go.
unfoldable pub retain_admin : ℕ → Role → Tx (Unit {0})
retain_admin workspace_id previous_role = do
  count ← reads (λ db. admins workspace_id db.memberships)
  require (not (is_admin previous_role) || not (leb count 1)) last_admin

unfoldable pub leave_workspace : ℕ → ℕ → Tx (Unit {0})
leave_workspace workspace_id actor_id = do
  role ← lock_workspace_actor workspace_id actor_id
  retain_admin workspace_id role
  row ← query_row (λ db. find (is_membership workspace_id actor_id) db.memberships)
  modify (λ db. record db {
    memberships = select (λ m. not (is_membership workspace_id actor_id m)) db.memberships;
    identities = without_members (is_membership workspace_id actor_id) db;
  })
  record_activity workspace_id actor_id Verb.left_organisation TargetType.membership row.id

unfoldable pub remove_workspace_membership : ℕ → ℕ → ℕ → Tx (Unit {0})
remove_workspace_membership workspace_id membership_id actor_id = do
  lock_workspace_admin workspace_id actor_id
  let is_row = λ (m : Membership). m.workspace_id == workspace_id && m.id == membership_id
  row ← query_row (λ db. find is_row db.memberships)
  retain_admin workspace_id row.role
  modify (λ db. record db {
    memberships = select (λ m. not (is_row m)) db.memberships;
    identities = without_members is_row db;
  })
  record_activity workspace_id actor_id Verb.removed_member TargetType.membership membership_id
