-- ===== src/Store/Installation/Active.antt =====
-- installation.go: the queries on bindings, and the fence around what is written for a repository.
use Prim.Native.String.{String}
use velvet.Common.{
  ℕ, Option, none, some, Bool, true, false, not, ◌&&◌, ◌==◌, any, find, is_some, get_or,
  if◌then◌else◌,
}
use velvet.Store.Db.{Db, Installation, Repo}
use velvet.Store.Tx.{
  Tx, Error, Result, ok, err, not_found, stale_installation_sync, verification_required, pure,
  require, reads, query_row, ◌>>=◌, ◌>>◌,
}
use velvet.Store.Access.{lock_workspace}
use velvet.Store.Installation.{
  InstallationSync, safe_installation_error, has_id, is_of, enqueue_installation_sync_tx,
}

-- `InstallationStateCurrent`; `uuid.Nil` is 0, and stands for no workspace.
abbrev pub is_state_current : InstallationSync → Installation → Bool
is_state_current job i =
    i.id == job.installation_id
    && (get_or i.workspace_id 0 == job.workspace_id
        && (i.sync_generation == job.generation && not (is_some i.deleted_at)))

unfoldable pub installation_state_current : InstallationSync → Tx Bool
installation_state_current job = reads (λ db. any (is_state_current job) db.installations)

pub data Status : Type 0 where
  disconnected error suspended syncing connected : Status

pub record InstallationStatus : Type 0 where
  pub installation : Option Installation
  pub status : Status
  pub error : Option String

abbrev pub safe_error : Option String → Option String
safe_error none = none
safe_error (some code) = some (safe_installation_error code)

abbrev pub status_of : Installation → Status × Option String
status_of i =
    if is_some i.deleted_at
    then (Status.disconnected, none)
    else if not (is_some i.ownership_verified_at)
    then (Status.error, some "verification_required")
    else if is_some i.suspended_at
    then (Status.suspended, safe_error i.sync_error)
    else if is_some i.sync_error
    then (Status.error, safe_error i.sync_error)
    else if is_some i.repos_synced_at
    then (Status.connected, none)
    else (Status.syncing, none)

abbrev pub shown_status : Option Installation → InstallationStatus
shown_status none = record { installation = none; status = Status.disconnected; error = none }
shown_status (some i) = record {
  installation = some i;
  status = (status_of i).0;
  error = (status_of i).1;
}

unfoldable pub github_status : ℕ → Tx InstallationStatus
github_status workspace_id = reads (λ db. shown_status (find (is_of workspace_id) db.installations))

-- A binding that a sync may be asked for.
abbrev pub is_live : Installation → Bool
is_live i =
    is_some i.ownership_verified_at && (not (is_some i.deleted_at) && not (is_some i.suspended_at))

-- Some errors of a transaction are no errors of the call, and what it wrote is undone.
abbrev pub settle : (Error → Bool) → Db → Result (Unit {0} × Db) → Result (Unit {0} × Db)
settle expected db (ok r) = ok r
settle expected db (err e) = if expected e then ok (tt, db) else err e

abbrev pub forgive : (Error → Bool) → Tx (Unit {0}) → Tx (Unit {0})
forgive expected m db = settle expected db (m db)

abbrev pub is_stale : Error → Bool
is_stale stale_installation_sync = true
is_stale _ = false

abbrev pub is_settled : Error → Bool
is_settled not_found = true
is_settled verification_required = true
is_settled stale_installation_sync = true
is_settled _ = false

abbrev pub request_for : ℕ → Option ℕ → Tx (Unit {0})
request_for id none = pure tt
request_for id (some workspace_id) =
    forgive is_settled
      (do lock_workspace workspace_id; enqueue_installation_sync_tx workspace_id id false)

abbrev pub live_owner : ℕ → Db → Option ℕ
live_owner id db =
    elim (find (λ i. has_id id i && (is_some i.workspace_id && is_live i)) db.installations) [
      | none ↦ none
      | some i ↦ i.workspace_id
    ]

unfoldable pub request_installation_sync_for_event : ℕ → Tx (Unit {0})
unfolding enqueue_installation_sync_tx
request_installation_sync_for_event id = do owner ← reads (live_owner id); request_for id owner

-- A repository, with the generation of the binding when it was read.
pub record ActiveRepo : Type 0 where
  pub repo : Repo
  pub sync_generation : ℕ

abbrev pub is_binding : Repo → Installation → Bool
is_binding r i = r.installation_id == i.id && (is_of r.workspace_id i && is_live i)

unfoldable pub active_repo : ℕ → ℕ → Tx ActiveRepo
active_repo github_id installation_id = do
  r ← query_row (λ db. find (λ (r : Repo). r.github_id == github_id) db.repos)
  require (not (installation_id == 0) && r.installation_id == installation_id) not_found
  require (not (is_some r.disconnected_at)) not_found
  i ← query_row (λ db. find (is_binding r) db.installations)
  pure (record { repo = r; sync_generation = i.sync_generation })

abbrev pub is_fence : ActiveRepo → Installation → Bool
is_fence r i =
    i.id == r.repo.installation_id
    && (is_of r.repo.workspace_id i && (i.sync_generation == r.sync_generation && is_live i))

abbrev pub is_connected : ActiveRepo → Repo → Bool
is_connected r row =
    row.id == r.repo.id
    && (row.workspace_id == r.repo.workspace_id
        && (row.installation_id == r.repo.installation_id && not (is_some row.disconnected_at)))

-- `write` runs only while the binding is the one that was read.
unfoldable pub with_active_repo : ActiveRepo → Tx (Unit {0}) → Tx (Unit {0})
with_active_repo r write = forgive is_stale (do
  lock_workspace r.repo.workspace_id
  bound ← reads (λ db. any (is_fence r) db.installations)
  require bound stale_installation_sync
  here ← reads (λ db. any (is_connected r) db.repos)
  require here stale_installation_sync
  write)
