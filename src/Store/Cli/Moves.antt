-- ===== src/Store/Cli/Moves.antt =====
-- Calls of the sign-ins, and that each of them takes a step of the machine for every device.
use Prim.Native.String.{String}
use text.Mathlib.Text.{◌==◌ as str_eq}
use velvet.Common.{
  ℕ, suc, ◌≡◌, refl, sym, subst, Bool, true, false, List, arith, Option-cases, inl, inr, ◌⊎◌,
}
use velvet.Common.Text.{Bytes}
use velvet.Store.Db.{Db, CliSession, CliFlow}
use velvet.Store.Tx.{Result, ok, err, in_tx}
use velvet.Store.Library.{Library}
use velvet.Store.ApiToken.{hash_token}
use velvet.Store.Cli
use velvet.Store.Cli.Collect
use velvet.Store.Cli.Collect.{Outcome, granted, refused}
use velvet.Store.Cli.Keys.{Keyed, status_of}
use velvet.Store.Cli.Machine.{
  may_step, Changed, Changed-Keyed, Changed-same, Changed-follow, in_tx-Changed,
}
use velvet.Store.Cli.Answers.{
  deny_cli_session-Changed, approve_cli_unscoped-Changed, approve_cli_session-Changed,
}
use velvet.Store.Cli.Polls.{collect_tx-Changed}
use velvet.Store.Cli.Starts.{Started, Started-Keyed, Started-step, allocate-Grew}

pub data Call : Type 0 where
  start : String → String → Call
  approve : Bytes → ℕ → ℕ → ℕ → Call
  approve_unscoped : Bytes → ℕ → String → Call
  deny : Bytes → Call
  collect : String → Call

module _ (lib : Library) where
  -- The tables after a call.
  unfoldable pub run : Call → Db → Db
  run (start client_name flow) db = (Cli.create_cli_session_for_flow lib client_name flow db).1
  run (approve code approver workspace project) db =
      (in_tx (Cli.approve_cli_session lib code approver workspace project) db).1
  run (approve_unscoped code approver flow) db =
      (in_tx (Cli.approve_cli_unscoped lib code approver flow) db).1
  run (deny code) db = (in_tx (Cli.deny_cli_session lib code) db).1
  run (collect device) db = (Collect.collect_cli_session lib device db).1

  -- Whether a call starts a sign-in for the device with this hash.
  abbrev pub starts : Call → Db → String → Bool
  starts (start client_name flow) db d = str_eq (hash_token lib (Cli.device_of lib db)) d
  starts _ db d = false

  answer-state : (r : Result Outcome × Db) → (Collect.answer r).1 ≡ r.1
  answer-state (ok (granted g), db) = refl
  answer-state (ok refused, db) = refl
  answer-state (err e, db) = refl

  with_device-state :
      (device : String) (r : Result CliSession × Db) → (Cli.with_device device r).1 ≡ r.1
  with_device-state device (ok s, db) = refl
  with_device-state device (err e, db) = refl

  begun :
      (client_name : String) (flow : CliFlow) (db : Db)
      → Started
          (hash_token lib (Cli.device_of lib db))
          db.cli_sessions
          (Cli.with_device (Cli.device_of lib db) (
            Cli.allocate 5
              (hash_token lib (Cli.device_of lib db))
              (Cli.client_name_of lib client_name)
              flow
              (Cli.purge_expired (record db { randoms = suc db.randoms })))).1.cli_sessions
  unfolding Cli.purge_expired
  begun client_name flow db =
      let grown =
        allocate-Grew (hash_token lib (Cli.device_of lib db)) (Cli.client_name_of lib client_name)
          flow 5 (Cli.purge_expired (record db { randoms = suc db.randoms })) in
      rw (with_device-state (Cli.device_of lib db)) (record { live = _; grown = grown })

  pub create-Started :
      (client_name flow : String) (db : Db)
      → ((Cli.create_cli_session_for_flow lib client_name flow db).1 ≡ db)
        ⊎ Started
            (hash_token lib (Cli.device_of lib db))
            db.cli_sessions
            (Cli.create_cli_session_for_flow lib client_name flow db).1.cli_sessions
  unfolding Cli.create_cli_session_for_flow Cli.purge_expired
  create-Started client_name flow db = elim (Option-cases (Cli.flow_of flow)) [
    | inl e ↦ inl (rw (Cli.create_cli_session_for_flow, e) refl)
    | inr (f, e) ↦ inr (rw (Cli.create_cli_session_for_flow, e) (begun client_name f db))
  ]

  abbrev pub Refines : (starting : String → Bool) → List CliSession → List CliSession → Type 0
  Refines starting rows rows' =
      Keyed rows'
      × ((d : String) → may_step (starting d) (status_of d rows) (status_of d rows') ≡ true)

  Changed-Refines :
      (starting : String → Bool) {rows rows' : List CliSession}
      → Changed rows rows'
      → Keyed rows
      → Refines starting rows rows'
  Changed-Refines starting c keyed =
      (Changed-Keyed c keyed, λ d. let f = Changed-follow c d in ground arith)

  same-Refines :
      (starting : String → Bool) (rows : List CliSession) → Keyed rows → Refines starting rows rows
  same-Refines starting rows keyed = Changed-Refines starting (Changed-same rows) keyed

  collect-state :
      (device : String) (db : Db)
      → (Collect.collect_cli_session lib device db).1 ≡ (in_tx (Collect.collect_tx lib device) db).1
  unfolding Collect.collect_cli_session
  collect-state device db = answer-state (in_tx (Collect.collect_tx lib device) db)

  pub run-Refines :
      (c : Call) (db : Db)
      → Keyed db.cli_sessions
      → Refines (starts c db) db.cli_sessions (run c db).cli_sessions
  unfolding run
  run-Refines (start client_name flow) db keyed = elim (create-Started client_name flow db) [
    | inl e ↦
        subst
          (λ (d : Db). Refines (starts (start client_name flow) db) db.cli_sessions d.cli_sessions)
          (sym e) (same-Refines _ db.cli_sessions keyed)
    | inr s ↦ (Started-Keyed s keyed, λ d. Started-step s keyed d)
  ]
  run-Refines (approve code approver workspace project) db keyed =
      Changed-Refines (λ _. false)
        (in_tx-Changed _ db
          (approve_cli_session-Changed lib code approver workspace project db keyed))
        keyed
  run-Refines (approve_unscoped code approver flow) db keyed =
      Changed-Refines (λ _. false)
        (in_tx-Changed _ db (approve_cli_unscoped-Changed lib code approver flow db)) keyed
  run-Refines (deny code) db keyed =
      Changed-Refines (λ _. false) (in_tx-Changed _ db (deny_cli_session-Changed lib code db)) keyed
  run-Refines (collect device) db keyed =
      subst (λ (d : Db). Refines (λ _. false) db.cli_sessions d.cli_sessions)
        (sym (collect-state device db))
        (Changed-Refines (λ _. false) (in_tx-Changed _ db (collect_tx-Changed lib device db keyed))
          keyed)
