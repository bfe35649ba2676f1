-- ===== src/Store/Cli/Answers.antt =====
-- The answers of a person to a sign-in are steps of the machine.
use Prim.Native.String.{String}
use velvet.Common.{ℕ, refl, ap, ◌∙◌, ◌==◌, arith, find_test, Option-cases, inl, inr}
use velvet.Common.In.{find-In}
use velvet.Common.Text.{Bytes}
use velvet.Store.Db.{Db, CliSession, CliFlow, approved, denied}
use velvet.Store.Tx.Ensures.{Ensures, Ensures-reads, Ensures-require, Ensures-query_row}
use velvet.Store.Library.{Library}
use velvet.Store.Cli
use velvet.Store.Cli.{is_pending}
use velvet.Store.Cli.Keys.{Keyed}
use velvet.Store.Cli.Machine.{Changed, update-Changed, from_pending, same_id-row}

module _ (lib : Library) (code : Bytes) where
  pub deny_cli_session-Changed :
      (db : Db)
      → Ensures
          (Cli.deny_cli_session lib code)
          db
          (λ _ db'. Changed db.cli_sessions db'.cli_sessions)
  unfolding Cli.deny_cli_session
  deny_cli_session-Changed db = Ensures-reads _ _ db (
      Ensures-require _ _ _ db λ _.
        update-Changed (λ d. Cli.is_open_code (Cli.normalize_user_code lib code) d.now) _ db
          (record { id = λ _. refl; device = λ _. refl; code = λ _. refl })
          (λ s _ h. from_pending s.status denied (ground arith) refl))

  approve_open-Changed :
      (approver : ℕ) (flow : CliFlow) (db : Db)
      → Ensures
          (Cli.approve_open lib code approver flow)
          db
          (λ _ db'. Changed db.cli_sessions db'.cli_sessions)
  unfolding Cli.approve_open
  approve_open-Changed approver flow db = Ensures-require _ _ _ db λ _. Ensures-reads _ _ db (
      Ensures-require _ _ _ db λ _.
        update-Changed (λ d. Cli.is_open_flow flow (Cli.normalize_user_code lib code) d.now)
          (Cli.approve_for approver) db
          (record { id = λ _. refl; device = λ _. refl; code = λ _. refl })
          (λ s _ h. from_pending s.status approved (ground arith) refl))

  pub approve_cli_unscoped-Changed :
      (approver : ℕ) (flow : String) (db : Db)
      → Ensures
          (Cli.approve_cli_unscoped lib code approver flow)
          db
          (λ _ db'. Changed db.cli_sessions db'.cli_sessions)
  unfolding Cli.approve_cli_unscoped
  approve_cli_unscoped-Changed approver flow db = elim (Option-cases (Cli.flow_of flow)) [
    | inl e ↦ rw (Cli.approve_cli_unscoped, e) (record { at = λ _ db' h. cc })
    | inr (flow', e) ↦ rw (Cli.approve_cli_unscoped, e) (approve_open-Changed approver flow' db)
  ]

  pub approve_cli_session-Changed :
      (approver workspace project : ℕ) (db : Db)
      → Keyed db.cli_sessions
      → Ensures
          (Cli.approve_cli_session lib code approver workspace project)
          db
          (λ _ db'. Changed db.cli_sessions db'.cli_sessions)
  unfolding Cli.approve_cli_session
  approve_cli_session-Changed approver workspace project db keyed =
      Ensures-query_row _ _ db λ row found. Ensures-query_row _ _ db λ _ _.
        Ensures-require _ _ _ db λ _. Ensures-reads _ _ db (
          Ensures-require _ _ _ db λ _.
            update-Changed (λ _ s. s.id == row.id) (Cli.approve approver workspace project) db
              (record { id = λ _. refl; device = λ _. refl; code = λ _. refl })
              (λ s i e.
                let same = same_id-row _ row s keyed (find-In _ db.cli_sessions found) i e in
                let open_row = find_test _ db.cli_sessions found in
                from_pending s.status approved
                  (ap (λ (r : CliSession). is_pending r.status) same ∙ (ground arith)) refl))
