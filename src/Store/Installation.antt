-- ===== src/Store/Installation.antt =====
-- installation.go: the installations of the GitHub App, their bindings to workspaces, and the syncs that
-- are asked for. `sync_generation` fences a sync that was asked for earlier; a job is a row of
-- `sync_jobs`. A transaction is one step, which is what the locks are for.
pub mod Apply
pub mod Events
pub mod Active
pub mod Held
pub mod Kept
pub mod Reported
pub mod Fenced
pub mod Deleted
use Prim.Native.String.{String}
use text.Mathlib.Text.{◌==◌ as str_eq}
use velvet.Common.{
  ℕ, ◌+◌, Option, none, some, Bool, true, false, not, ◌&&◌, ◌||◌, List, [], ◌∷◌, ◌++◌, ◌==◌, any,
  find, update, is_some, get_or, if◌then◌else◌,
}
use velvet.Store.Db.{
  Db, Installation, Repo, SyncKind, sync_installation_repos, sync_installation_state,
}
use velvet.Store.Tx.{
  Tx, not_found, stale_installation_sync, verification_required, installation_conflict,
  repository_conflict, pure, require, reads, modify, query_row, ◌>>=◌, ◌>>◌, draw_uuid,
}
use velvet.Store.Access.{lock_workspace, lock_workspace_admin}
use velvet.Store.GithubSetup.{GithubAuthorization}
use velvet.Store.GithubSetup.Authorize.{
  lock_github_installation_authorization_tx, complete_github_installation_authorization_tx,
}
use velvet.Store.Comment.Mentions.{same_id}

-- The payload of a sync.
pub record InstallationSync : Type 0 where
  pub installation_id : ℕ
  pub workspace_id : ℕ
  pub generation : ℕ

-- github.VerifiedInstallation: what GitHub answered for the user.
pub record VerifiedInstallation : Type 0 where
  pub id : ℕ
  pub account_id : ℕ
  pub account_login : String
  pub account_type : String

abbrev pub has_id : ℕ → Installation → Bool
has_id id i = i.id == id

abbrev pub is_of : ℕ → Installation → Bool
is_of workspace_id i = same_id i.workspace_id workspace_id

unfoldable pub change : (Installation → Bool) → (Db → Installation → Installation) → Tx (Unit {0})
change p f = modify (λ db. record db { installations = update p (f db) db.installations })

-- `sync_installation_state` while the installation is suspended.
abbrev pub kind_of : Option ℕ → SyncKind
kind_of none = sync_installation_repos
kind_of (some t) = sync_installation_state

unfoldable pub enqueue_sync : SyncKind → ℕ → ℕ → ℕ → Tx (Unit {0})
enqueue_sync kind id workspace_id generation = modify (λ db. record db {
  sync_jobs =
      db.sync_jobs
      ++ (record {
        kind = kind;
        installation_id = id;
        workspace_id = workspace_id;
        generation = generation;
      })
        ∷ [];
})

abbrev pub requested : Installation → Installation
requested i = record i {
  sync_generation = i.sync_generation + 1;
  repos_synced_at = none;
  sync_error = none;
}

-- 0 expects any installation.
unfoldable pub enqueue_installation_sync_tx : ℕ → ℕ → Bool → Tx (Unit {0})
unfolding enqueue_sync change
enqueue_installation_sync_tx workspace_id expected_id retry_suspended = do
  i ← query_row (λ db. find (is_of workspace_id) db.installations)
  require (expected_id == 0 || expected_id == i.id) stale_installation_sync
  require (is_some i.ownership_verified_at) verification_required
  require (not (is_some i.deleted_at) && (not (is_some i.suspended_at) || retry_suspended))
      stale_installation_sync
  change (has_id i.id) (λ db. requested)
  enqueue_sync (kind_of i.suspended_at) i.id workspace_id (i.sync_generation + 1)

unfoldable pub request_installation_sync : ℕ → ℕ → Tx (Unit {0})
unfolding enqueue_installation_sync_tx
request_installation_sync workspace_id actor_id = do
  lock_workspace_admin workspace_id actor_id
  enqueue_installation_sync_tx workspace_id 0 true

abbrev pub is_authorized : GithubAuthorization → VerifiedInstallation → Bool
is_authorized a v =
    v.id == a.candidate_installation_id
    && (not (v.id == 0)
        && (not (v.account_id == 0)
            && (not (str_eq v.account_login "")
                && (str_eq v.account_type "User" || str_eq v.account_type "Organization"))))

abbrev pub owned_elsewhere : ℕ → Option Installation → Bool
owned_elsewhere workspace_id none = false
owned_elsewhere workspace_id (some i) =
    is_some i.workspace_id && not (is_of workspace_id i) || is_some i.deleted_at

-- An other installation that the workspace is bound to: a live one is a conflict, a deleted one is let
-- go.
abbrev pub release_other : ℕ → Option Installation → Tx (Unit {0})
release_other id none = pure tt
release_other id (some other) = if other.id == id then pure tt else do
  require (is_some other.deleted_at) installation_conflict
  change (has_id other.id)
      (λ db i. record i { workspace_id = none; sync_generation = i.sync_generation + 1 })

abbrev pub bound_to : ℕ → VerifiedInstallation → ℕ → Installation → Installation
bound_to workspace_id v now i = record i {
  account_login = v.account_login;
  workspace_id = some workspace_id;
  ownership_verified_at = some now;
  repos_synced_at = none;
  sync_error = none;
  sync_generation = i.sync_generation + 1;
}

abbrev pub first_binding : ℕ → VerifiedInstallation → ℕ → Installation
first_binding workspace_id v now = record {
  id = v.id;
  account_login = v.account_login;
  workspace_id = some workspace_id;
  ownership_verified_at = some now;
  repos_synced_at = none;
  suspended_at = none;
  deleted_at = none;
  sync_error = none;
  sync_generation = 1;
}

-- INSERT ... ON CONFLICT(id) DO UPDATE ... RETURNING sync_generation, suspended_at
abbrev pub bind_row : ℕ → VerifiedInstallation → Option Installation → Tx Installation
bind_row workspace_id v none = do
  now ← reads (λ db. db.clock)
  modify (λ db. record db {
    installations = db.installations ++ first_binding workspace_id v now ∷ [];
  })
  pure (first_binding workspace_id v now)
bind_row workspace_id v (some i) = do
  now ← reads (λ db. db.clock)
  change (has_id v.id) (λ db. bound_to workspace_id v now)
  pure (bound_to workspace_id v now i)

unfoldable pub bind_installation : GithubAuthorization → VerifiedInstallation → Tx (Unit {0})
unfolding enqueue_sync change lock_github_installation_authorization_tx
    complete_github_installation_authorization_tx
bind_installation a v = do
  require (is_authorized a v) not_found
  lock_github_installation_authorization_tx a
  old ← reads (λ db. find (has_id v.id) db.installations)
  require (not (owned_elsewhere a.workspace_id old)) installation_conflict
  other ← reads (λ db. find (is_of a.workspace_id) db.installations)
  release_other v.id other
  i ← bind_row a.workspace_id v old
  enqueue_sync (kind_of i.suspended_at) v.id a.workspace_id i.sync_generation
  complete_github_installation_authorization_tx a

-- The condition of every query that looks for the binding of a sync.
abbrev pub is_current : InstallationSync → Installation → Bool
is_current job i =
    i.id == job.installation_id
    && (is_of job.workspace_id i
        && (i.sync_generation == job.generation
            && (is_some i.ownership_verified_at
                && (not (is_some i.deleted_at) && not (is_some i.suspended_at)))))

unfoldable pub installation_sync_current : InstallationSync → Tx Bool
installation_sync_current job = reads (λ db. any (is_current job) db.installations)

abbrev pub safe_installation_error : String → String
safe_installation_error code = if str_eq code "repository_conflict" then code else "sync_failed"

abbrev pub is_fenced : InstallationSync → Installation → Bool
is_fenced job i =
    i.id == job.installation_id && (is_of job.workspace_id i && i.sync_generation == job.generation)

unfoldable pub fail_installation_sync : InstallationSync → String → Tx (Unit {0})
unfolding change
fail_installation_sync job code =
    change (is_fenced job) (λ db i. record i { sync_error = some (safe_installation_error code) })
