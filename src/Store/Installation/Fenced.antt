-- ===== src/Store/Installation/Fenced.antt =====
-- Sequences of calls on installations, and a sync that was asked for before them.
use Prim.Native.String.{String}
use velvet.Common.{
  ℕ, ◌≡◌, refl, Bool, true, false, arith, List, [], ◌∷◌, ◌==◌, any, find, All-map, Option-cases,
  inl, inr, ◌+◌,
}
use velvet.Common.In.{any-none}
use velvet.Store.Db.{Db, Installation, Workspace}
use velvet.Store.Tx.{Tx, Error, ok, err, in_tx, pure, ◌>>◌, ◌>>=◌}
use velvet.Store.Tx.Histories.{Keeps, Keeps-bind, Keeps-read, in_tx-Keeps}
use velvet.Store.Tx.Steps.{IsRead-pure}
use velvet.Store.Access.{lock_workspace}
use velvet.Store.GithubSetup.{GithubAuthorization}
use velvet.Store.Installation.{
  InstallationSync, VerifiedInstallation, bind_installation, request_installation_sync,
  fail_installation_sync, is_current, installation_sync_current,
}
use velvet.Store.Installation.Held.{is_held, IsHeld}
use velvet.Store.Installation.Kept.{bind-Stays, request-Stays, fail-Stays}
use velvet.Store.Installation.Reported.{event-Stays, state-Stays, apply-Stays, for_event-Stays}
use velvet.Store.Installation.Apply.{Listed, apply_installation_repos}
use velvet.Store.Installation.Events.{Action, installation_event, apply_installation_state}
use velvet.Store.Installation.Active.{
  request_installation_sync_for_event, ActiveRepo, is_fence, with_active_repo,
}

pub data Call : Type 0 where
  bind : GithubAuthorization → VerifiedInstallation → Call
  request : ℕ → ℕ → Call
  request_for_event : ℕ → Call
  event : ℕ → String → Action → Call
  apply_repos : InstallationSync → List Listed → Call
  fail_sync : InstallationSync → String → Call
  apply_state : InstallationSync → Bool → Call

unfoldable pub run : Call → Tx (Unit {0})
run (bind a v) = bind_installation a v
run (request w actor) = request_installation_sync w actor
run (request_for_event id) = request_installation_sync_for_event id
run (event id login a) = installation_event id login a >> pure tt
run (apply_repos job rs) = apply_installation_repos job rs
run (fail_sync job code) = fail_installation_sync job code
run (apply_state job still) = apply_installation_state job still

unfoldable pub history : List Call → Db → Db
unfolding run in_tx
history [] db = db
history (c ∷ cs) db = history cs (in_tx (run c) db).1

module _ (d : Bool) (g id : ℕ) where
  run-Keeps : (c : Call) → Keeps (IsHeld d g id) (run c)
  unfolding run
  run-Keeps (bind a v) = bind-Stays d g id a v
  run-Keeps (request w actor) = request-Stays d g id w actor
  run-Keeps (request_for_event i) = for_event-Stays d g id i
  run-Keeps (event i login a) =
      Keeps-bind _ _ _ (event-Stays d g id i login a) λ _. Keeps-read _ _ (IsRead-pure tt)
  run-Keeps (apply_repos job rs) = apply-Stays d g id job rs
  run-Keeps (fail_sync job code) = fail-Stays d g id job code
  run-Keeps (apply_state job still) = state-Stays d g id job still

  pub history-IsHeld : (cs : List Call) (db : Db) → IsHeld d g id db → IsHeld d g id (history cs db)
  unfolding history
  history-IsHeld [] db h = h
  history-IsHeld (c ∷ cs) db h = history-IsHeld cs _ (in_tx-Keeps _ (run c) (run-Keeps c) db h)

-- Whatever is asked for, the sync changes nothing: it is not current, its listing of repositories is
-- refused, and what is written for a repository of its generation is not written.
pub record IsOvertaken (job : InstallationSync) (db : Db) : Type 0 where
  pub stale : installation_sync_current job db ≡ ok (false, db)
  pub refused : (rs : List Listed) → (e : Error) × (apply_installation_repos job rs db ≡ err e)
  pub unwritten :
      (r : ActiveRepo) (write : Tx (Unit {0}))
      → r.repo.installation_id ≡ job.installation_id
      → r.sync_generation ≡ job.generation
      → (in_tx (with_active_repo r write) db).1 ≡ db

module _ (job : InstallationSync) where
  not_current :
      (i : Installation)
      → is_held false (job.generation + 1) job.installation_id i ≡ true
      → is_current job i ≡ false
  not_current i h = ground arith

  none_current :
      (db : Db)
      → IsHeld false (job.generation + 1) job.installation_id db
      → any (is_current job) db.installations ≡ false
  none_current db h = any-none _ db.installations (All-map _ _ db.installations not_current h.rows)

  not_fence :
      (r : ActiveRepo)
      → r.repo.installation_id ≡ job.installation_id
      → r.sync_generation ≡ job.generation
      → (i : Installation) → is_held false (job.generation + 1) job.installation_id i ≡ true
      → is_fence r i ≡ false
  not_fence r e f i h = ground arith

  stale_refused :
      (rs : List Listed) (db : Db)
      → any (is_current job) db.installations ≡ false
      → (e : Error) × (apply_installation_repos job rs db ≡ err e)
  unfolding apply_installation_repos lock_workspace ◌>>=◌
  stale_refused rs db h =
      elim (Option-cases (find (λ (w : Workspace). w.id == job.workspace_id) db.workspaces)) [
        | inl e ↦ rw e (_, refl)
        | inr (w, e) ↦ rw (e, h) (_, refl)
      ]

  unwritten_at :
      (r : ActiveRepo) (write : Tx (Unit {0})) (db : Db)
      → any (is_fence r) db.installations ≡ false
      → (in_tx (with_active_repo r write) db).1 ≡ db
  unfolding in_tx with_active_repo lock_workspace ◌>>=◌
  unwritten_at r write db h =
      elim (Option-cases (find (λ (w : Workspace). w.id == r.repo.workspace_id) db.workspaces)) [
        | inl e ↦ rw (in_tx, e) refl
        | inr (w, e) ↦ rw (in_tx, e, h) refl
      ]

  -- A sync whose installation has a later generation by now is without effect after any calls, failed
  -- ones included: it is not current, ApplyInstallationRepos refuses its listing, and WithActiveRepo
  -- writes nothing for a repository of its generation.
  pub history-IsOvertaken :
      (cs : List Call) (db : Db)
      → IsHeld false (job.generation + 1) job.installation_id db
      → IsOvertaken job (history cs db)
  unfolding installation_sync_current ◌>>=◌
  history-IsOvertaken cs db h =
      let held = history-IsHeld false (job.generation + 1) job.installation_id cs db h in
      let after = history cs db in
      record {
        stale = rw (none_current after held) refl;
        refused = λ rs. stale_refused rs after (none_current after held);
        unwritten = λ r write e f. unwritten_at r write after (
            any-none _ after.installations
              (All-map _ _ after.installations (not_fence r e f) held.rows));
      }
