-- ===== src/Store/Tests/Installations.antt =====
-- Runs on installations and on authorizations at GitHub, and the theorems about them at these runs.
use velvet.Common.{◌≡◌, refl, arith, none, some, true, false, List, [], ◌∷◌, All, length}
use velvet.Store.Db.{Db, Installation}
use velvet.Store.Tx.{ok}
use velvet.Store.Installation
use velvet.Store.Installation.{InstallationSync, VerifiedInstallation, bind_installation}
use velvet.Store.Installation.Events.{
  apply_installation_state, installation_event, deleted, suspend,
}
use velvet.Store.Installation.Held.{is_held}
use velvet.Store.Installation.Fenced.{Call, run, history, IsOvertaken, history-IsOvertaken}
use velvet.Store.Installation.Deleted.{history-deleted}
use velvet.Store.GithubSetup.{GithubAuthorization}
use velvet.Store.Access.{lock_workspace_admin}
use velvet.Store.Tests.{office, state_of, store}

abbrev bound : Installation
bound = record {
  id = 900;
  account_login = "acme";
  workspace_id = some 1;
  ownership_verified_at = some 20;
  repos_synced_at = none;
  suspended_at = none;
  deleted_at = none;
  sync_error = none;
  sync_generation = 3;
}

abbrev connected : Db
connected = record office { installations = bound ∷ [] }

abbrev old_sync : InstallationSync
old_sync = record { installation_id = 900; workspace_id = 1; generation = 2 }

abbrev reported : List Call
reported =
    Call.event 900 "acme" suspend
    ∷ Call.apply_state (record { installation_id = 900; workspace_id = 1; generation = 4 }) false
    ∷ Call.request 1 7
    ∷ []

history-IsOvertaken_example : IsOvertaken old_sync (history reported connected)
history-IsOvertaken_example =
    history-IsOvertaken old_sync reported connected (record { there = refl; rows = (refl, tt) })

abbrev gone : Db
gone = state_of (installation_event 900 "acme" deleted connected) connected

history-deleted_example :
    All (λ i. is_held true 0 900 i ≡ true) (history (Call.request 1 7 ∷ []) gone).installations
    × ((a : GithubAuthorization) (v : VerifiedInstallation)
        → v.id ≡ 900
        → ¬ (
            (u : Unit {0}) × (last : Db) × (bind_installation a v
                (history (Call.request 1 7 ∷ []) gone)
              ≡ ok (u, last))))
unfolding store installation_event
history-deleted_example =
    history-deleted 900 "acme" connected {o = none} {db' = gone} refl (omega arith)
      (Call.request 1 7 ∷ [])

-- After the reports the generation of the binding is 6: a job for it is queued.
requested : length (history reported connected).sync_jobs ≡ 2
unfolding store history run Installation.request_installation_sync lock_workspace_admin
    apply_installation_state installation_event
requested = refl
