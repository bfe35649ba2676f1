-- ===== src/Store/Installation/Events.antt =====
-- installation.go, InstallationEvent and ApplyInstallationState: what GitHub reports of an installation.
use Prim.Native.String.{String}
use velvet.Common.{
  ℕ, ◌+◌, Option, none, some, Bool, false, not, ◌&&◌, List, [], ◌∷◌, ◌++◌, ◌==◌, any, find, update,
  is_some, get_or, if◌then◌else◌,
}
use velvet.Store.Db.{Installation}
use velvet.Store.Tx.{
  Tx, throw, stale_installation_sync, pure, require, reads, modify, query_row, ◌>>=◌, ◌>>◌,
}
use velvet.Store.Access.{lock_workspace}
use velvet.Store.Installation.{InstallationSync, has_id, change, enqueue_installation_sync_tx}
use velvet.Store.Installation.Apply.{disconnected}

-- `other`: an action that is neither of the three.
pub data Action : Type 0 where
  deleted suspend unsuspend other : Action

abbrev pub seen_installation : ℕ → String → List Installation → List Installation
seen_installation id login rows =
    if any (has_id id) rows
    then rows
    else rows
      ++ (record {
        id = id;
        account_login = login;
        workspace_id = none;
        ownership_verified_at = none;
        repos_synced_at = none;
        suspended_at = none;
        deleted_at = none;
        sync_error = none;
        sync_generation = 0;
      })
        ∷ []

abbrev pub tombstone : ℕ → Installation → Installation
tombstone now i = record i {
  deleted_at = some now;
  workspace_id = none;
  ownership_verified_at = none;
  sync_generation = i.sync_generation + 1;
  sync_error = none;
}

abbrev pub suspended : ℕ → Installation → Installation
suspended now i = record i {
  suspended_at = some (get_or i.suspended_at now);
  sync_generation = i.sync_generation + 1;
}

-- The generation to reconcile with the provider, if one has to be.
unfoldable pub act : ℕ → Action → Installation → Tx (Option ℕ)
unfolding enqueue_installation_sync_tx change
act id deleted i = do
  modify (λ db. record db {
    repos = update (λ r. r.installation_id == id) (disconnected db.clock) db.repos;
  })
  change (has_id id) (λ db. tombstone db.clock)
  pure none
act id suspend i =
    change (has_id id) (λ db. suspended db.clock) >> pure (some (i.sync_generation + 1))
act id unsuspend i =
    change (has_id id) (λ db. suspended db.clock) >> pure (some (i.sync_generation + 1))
act id other i =
    if is_some i.workspace_id && (is_some i.ownership_verified_at && not (is_some i.suspended_at))
    then enqueue_installation_sync_tx (get_or i.workspace_id 0) id false >> pure none
    else pure none

abbrev pub owner_of : Option Installation → Option ℕ
owner_of none = none
owner_of (some i) = i.workspace_id

abbrev pub lock_owner : Option ℕ → Tx (Unit {0})
lock_owner none = pure tt
lock_owner (some workspace_id) = lock_workspace workspace_id

-- The owner that is read before the transaction is the one in it: no other transaction comes between.
unfoldable pub installation_event : ℕ → String → Action → Tx (Option ℕ)
unfolding act
installation_event id login action = do
  owner ← reads (λ db. owner_of (find (has_id id) db.installations))
  lock_owner owner
  modify (λ db. record db { installations = seen_installation id login db.installations })
  i ← query_row (λ db. find (has_id id) db.installations)
  if is_some i.deleted_at then pure none else act id action i

-- `uuid.Nil` is 0.
abbrev pub is_reported : InstallationSync → Installation → Bool
is_reported job i =
    i.sync_generation == job.generation
    && (get_or i.workspace_id 0 == job.workspace_id && not (is_some i.deleted_at))

-- No row: ErrStaleInstallationSync.
abbrev pub or_stale : Option Installation → Tx Installation
or_stale none = throw stale_installation_sync
or_stale (some i) = pure i

unfoldable pub apply_installation_state : InstallationSync → Bool → Tx (Unit {0})
unfolding enqueue_installation_sync_tx change
apply_installation_state job still = do
  lock_owner (if job.workspace_id == 0 then none else some job.workspace_id)
  found ← reads (λ db. find (has_id job.installation_id) db.installations)
  i ← or_stale found
  require (is_reported job i) stale_installation_sync
  change (has_id job.installation_id) (λ db i. record i {
    suspended_at = if still then i.suspended_at else none;
    sync_error = none;
  })
  if not still && (is_some i.workspace_id && is_some i.ownership_verified_at)
      then enqueue_installation_sync_tx (get_or i.workspace_id 0) job.installation_id false
      else pure tt
