-- ===== src/Store/Installation/Apply.antt =====
-- installation.go, ApplyInstallationRepos: a complete listing of the repositories of an installation.
use Prim.Native.String.{String}
use text.Mathlib.Text.{◌==◌ as str_eq}
use velvet.Common.{
  ℕ, Option, none, some, Bool, not, ◌&&◌, List, [], ◌∷◌, ◌++◌, ◌==◌, any, find, update, get_or,
  if◌then◌else◌,
}
use velvet.Store.Db.{Repo}
use velvet.Store.Tx.{
  Tx, stale_installation_sync, repository_conflict, pure, require, reads, modify, ◌>>=◌, ◌>>◌,
  draw_uuid,
}
use velvet.Store.Access.{lock_workspace}
use velvet.Store.Installation.{InstallationSync, has_id, change, is_current}

-- A repository as GitHub lists it.
pub record Listed : Type 0 where
  pub id : ℕ
  pub owner : String
  pub name : String
  pub default_branch : String

abbrev pub branch_of : Listed → String
branch_of r = if str_eq r.default_branch "" then "main" else r.default_branch

abbrev pub new_repo : InstallationSync → Listed → ℕ → Repo
new_repo job r id = record {
  id = id;
  workspace_id = job.workspace_id;
  installation_id = job.installation_id;
  github_id = r.id;
  owner = r.owner;
  name = r.name;
  default_branch = branch_of r;
  disconnected_at = none;
}

abbrev pub listed_again : InstallationSync → Listed → Repo → Repo
listed_again job r old = record old {
  installation_id = job.installation_id;
  owner = r.owner;
  name = r.name;
  default_branch = branch_of r;
  disconnected_at = none;
}

abbrev pub is_repo : ℕ → Repo → Bool
is_repo github_id r = r.github_id == github_id

-- The row of another workspace is not updated, so that no row comes back.
abbrev pub put_repo : InstallationSync → Listed → ℕ → Option Repo → Tx (Unit {0})
put_repo job r id none = modify (λ db. record db { repos = db.repos ++ new_repo job r id ∷ [] })
put_repo job r id (some old) = do
  require (old.workspace_id == job.workspace_id) repository_conflict
  modify (λ db. record db { repos = update (is_repo r.id) (listed_again job r) db.repos })

unfoldable pub upsert_repo : InstallationSync → Listed → Tx (Unit {0})
upsert_repo job r = do
  id ← draw_uuid
  old ← reads (λ db. find (is_repo r.id) db.repos)
  put_repo job r id old

unfoldable pub upsert_repos : InstallationSync → List Listed → Tx (Unit {0})
unfolding upsert_repo
upsert_repos job [] = pure tt
upsert_repos job (r ∷ rs) = do upsert_repo job r; upsert_repos job rs

abbrev pub is_unlisted : InstallationSync → List Listed → Repo → Bool
is_unlisted job rs r =
    r.workspace_id == job.workspace_id
    && (r.installation_id == job.installation_id
        && not (any (λ (l : Listed). l.id == r.github_id) rs))

abbrev pub disconnected : ℕ → Repo → Repo
disconnected now r = record r { disconnected_at = some (get_or r.disconnected_at now) }

unfoldable pub apply_installation_repos : InstallationSync → List Listed → Tx (Unit {0})
unfolding upsert_repos change
apply_installation_repos job rs = do
  lock_workspace job.workspace_id
  current ← reads (λ db. any (is_current job) db.installations)
  require current stale_installation_sync
  upsert_repos job rs
  modify (λ db. record db { repos = update (is_unlisted job rs) (disconnected db.clock) db.repos })
  change (has_id job.installation_id)
      (λ db i. record i { repos_synced_at = some db.clock; sync_error = none })
