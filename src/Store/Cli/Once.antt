-- ===== src/Store/Cli/Once.antt =====
-- A key is handed out once for a sign-in.
use Prim.Native.String.{String}
use velvet.Common.{
  ◌≡◌, refl, sym, ap, subst, ◌∙◌, Option, none, some, Bool, true, false, not, List, ◌==◌, find,
  select, ==_refl, inl, inr,
}
use velvet.Common.In.{find-select, find-update_kept}
use velvet.Store.Db.{Db, CliSession, CliStatus, ApiToken, pending, approved, denied, collected}
use velvet.Store.Tx.{Result, ok, err, in_tx, cli_session_expired, ◌>>=◌}
use velvet.Store.Library.{Library}
use velvet.Store.ApiToken.{hash_token, delete_tokens, with_children, child_of_gone}
use velvet.Store.Cli.Collect
use velvet.Store.Cli.Collect.{
  CliGrant, Outcome, granted, refused, is_device, is_collected, is_denied,
}
use velvet.Store.Cli.Keys.{Keyed, Keyed-at, select-Keyed, device-same_key, status_in, status_of}
use velvet.Store.Cli.Machine.{may_step}
use velvet.Store.Cli.Machine.{Result-cases}
use velvet.Store.Cli.Polls.{collect_tx-Answered, with_status}
use velvet.Store.Cli.Moves.{Call, run, starts, run-Refines}

-- The rest of the service leaves the table alone, but for revoking keys.
pub data Step (lib : Library) (d : String) : Db → Db → Type 0 where
  call : {db : Db} (c : Call) → starts lib c db d ≡ false → Step lib d db (run lib c db)
  revoke : {db : Db} (t : ApiToken → Bool) → Step lib d db (delete_tokens t db)
  elsewhere : {db db' : Db} → db'.cli_sessions ≡ db.cli_sessions → Step lib d db db'

pub data Steps (lib : Library) (d : String) (db : Db) : Db → Type 0 where
  here : Steps lib d db db
  next : {mid db' : Db} → Steps lib d db mid → Step lib d mid db' → Steps lib d db db'

-- A device that has collected, or that is not known any more.
abbrev pub is_spent : Option CliStatus → Bool
is_spent none = true
is_spent (some collected) = true
is_spent _ = false

spent-follows :
    (before after : Option CliStatus)
    → may_step false before after ≡ true
    → is_spent before ≡ true
    → is_spent after ≡ true
spent-follows none none h s = refl
spent-follows none (some t) h s = cc
spent-follows (some collected) none h s = refl
spent-follows (some collected) (some collected) h s = refl
spent-follows (some collected) (some pending) h s = cc
spent-follows (some collected) (some approved) h s = cc
spent-follows (some collected) (some denied) h s = cc
spent-follows (some pending) after h s = cc
spent-follows (some approved) after h s = cc
spent-follows (some denied) after h s = cc

select-spent :
    (d : String) (alive : CliSession → Bool) (rows : List CliSession)
    → Keyed rows
    → is_spent (status_of d rows) ≡ true
    → is_spent (status_of d (select alive rows)) ≡ true
unfolding status_of
select-spent d alive rows keyed s =
    elim (find-select (is_device d) alive rows
      λ x y i j t u. Keyed-at rows keyed x y i j (device-same_key d x y t u)) [
        | inl e ↦ ap (λ o. is_spent (status_in o)) e
        | inr e ↦ ap (λ o. is_spent (status_in o)) e ∙ s
      ]

module _ (lib : Library) (d : String) where
  record Spent (db : Db) : Type 0 where
    keyed : Keyed db.cli_sessions
    spent : is_spent (status_of d db.cli_sessions) ≡ true

  Step-Spent : {db db' : Db} → Step lib d db db' → Spent db → Spent db'
  Step-Spent (call {db} c other) s =
      let (keyed, step) = run-Refines lib c db s.keyed in
      record {
        keyed = keyed;
        spent =
            spent-follows (status_of d db.cli_sessions) (status_of d (run lib c db).cli_sessions)
              (subst
                (λ b.
                  may_step b (status_of d db.cli_sessions) (status_of d (run lib c db).cli_sessions)
                  ≡ true)
                other (step d))
              s.spent;
      }
  Step-Spent (revoke {db} t) s =
      let alive = λ (r : CliSession).
        not (child_of_gone (with_children t db.api_tokens) db.api_tokens r.api_token_id) in
      let shown : (delete_tokens t db).cli_sessions ≡ select alive db.cli_sessions =
        unfold delete_tokens in refl in
      record {
        keyed = subst Keyed (sym shown) (select-Keyed alive db.cli_sessions s.keyed);
        spent =
            ap (λ rows. is_spent (status_of d rows)) shown
            ∙ select-spent d alive db.cli_sessions s.keyed s.spent;
      }
  Step-Spent (elsewhere {db} {db'} e) s = record {
    keyed = subst Keyed (sym e) s.keyed;
    spent = ap (λ r. is_spent (status_of d r)) e ∙ s.spent;
  }

  Steps-Spent : {db db' : Db} → Steps lib d db db' → Spent db → Spent db'
  Steps-Spent here s = s
  Steps-Spent (next before step) s = Step-Spent step (Steps-Spent before s)

spent-collected :
    (s : CliStatus) → is_spent (some s) ≡ true → (is_collected s ≡ true) × (is_denied s ≡ false)
spent-collected collected h = (refl, refl)
spent-collected pending h = cc
spent-collected approved h = cc
spent-collected denied h = cc

collect_found-spent :
    (lib : Library) (found : Option CliSession) (db : Db)
    → is_spent (status_in found) ≡ true
    → Collect.collect_found lib found db ≡ err cli_session_expired
unfolding Collect.collect_found ◌>>=◌
collect_found-spent lib none db s = refl
collect_found-spent lib (some row) db s =
    let (done, other) = spent-collected row.status s in rw (done, other) refl

-- A poll for a device that is spent.
collect-expired :
    (lib : Library) (device : String) (db : Db)
    → is_spent (status_of (hash_token lib device) db.cli_sessions) ≡ true
    → Collect.collect_cli_session lib device db ≡ (err cli_session_expired, db)
unfolding Collect.collect_cli_session Collect.collect_tx in_tx ◌>>=◌ status_of
collect-expired lib device db s =
    let failed : Collect.collect_tx lib device db ≡ err cli_session_expired =
      collect_found-spent lib _ db s in
    rw (Collect.collect_cli_session, in_tx, failed) refl

granted-only :
    (out : Outcome) (after : Db) {g : CliGrant} {db' : Db}
    → Collect.answer (ok out, after) ≡ (ok g, db')
    → ◌≡◌ {A = Result (Outcome × Db)} (ok (out, after)) (ok (granted g, db'))
granted-only (granted x) after {g} {db'} h =
    let answered = ap (λ (p : Result CliGrant × Db). p.0) h in
    let same : x ≡ g = cc in
    (λ i. ok (granted (same i), ap (λ (p : Result CliGrant × Db). p.1) h i))
granted-only refused after h = let wrong = ap (λ (p : Result CliGrant × Db). p.0) h in cc

collect-granted :
    (lib : Library) (device : String) (db : Db) {g : CliGrant} {db' : Db}
    → Collect.collect_cli_session lib device db ≡ (ok g, db')
    → Collect.collect_tx lib device db ≡ ok (granted g, db')
unfolding Collect.collect_cli_session in_tx
collect-granted lib device db {g} {db'} h = elim (Result-cases (Collect.collect_tx lib device db)) [
  | inl (out, after, e) ↦
      e ∙ granted-only out after (rw (Collect.collect_cli_session, in_tx, e) at h)
  | inr (e', e) ↦
      let answered : ◌≡◌ {A = Result CliGrant × Db} (err e', db) (ok g, db') =
        rw (Collect.collect_cli_session, in_tx, e) at h in
      let wrong = ap (λ (p : Result CliGrant × Db). p.0) answered in cc
]

granted-collected :
    (lib : Library) (device : String) (db : Db) {g : CliGrant} {db' : Db}
    → Collect.collect_tx lib device db ≡ ok (granted g, db')
    → status_of (hash_token lib device) db'.cli_sessions ≡ some collected
unfolding status_of
granted-collected lib device db {g} {db'} h =
    let a = (collect_tx-Answered lib device db).at (granted g) db' h in
    elim a.settled.outcome [
      | inl done ↦
          let d = hash_token lib device in
          let after =
            find-update_kept (is_device d) (λ s. s.id == a.row.id)
              (with_status a.settled.status a.settled.token) db.cli_sessions (λ s. refl) in
          let self = ==_refl a.row.id in
          ap (λ rows. status_in (find (is_device d) rows)) a.settled.state
          ∙ ap status_in after
          ∙ (rw (a.found, self) (ap some done))
      | inr e ↦ let wrong = e in cc
    ]

-- After a poll that is answered with a key, whatever else happens short of a new start by the same
-- device, every later poll of the device is answered by `ErrCLISessionExpired` and changes nothing.
pub collect_cli_session-once :
    (lib : Library) (device : String) (db : Db) {g : CliGrant} {db' db'' : Db}
    → Keyed db.cli_sessions
    → Collect.collect_cli_session lib device db ≡ (ok g, db')
    → Steps lib (hash_token lib device) db' db''
    → Collect.collect_cli_session lib device db'' ≡ (err cli_session_expired, db'')
collect_cli_session-once lib device db {g} {db'} {db''} keyed h steps =
    let granted_now = granted-collected lib device db (collect-granted lib device db h) in
    let (keyed', _) = run-Refines lib (Call.collect device) db keyed in
    let same : run lib (Call.collect device) db ≡ db' =
      unfold run in ap (λ (p : Result CliGrant × Db). p.1) h in
    let start : Spent lib (hash_token lib device) db' = record {
      keyed = subst (λ (x : Db). Keyed x.cli_sessions) same keyed';
      spent = ap is_spent granted_now;
    } in
    collect-expired lib device db'' (Steps-Spent lib (hash_token lib device) steps start).spent
