-- ===== src/Store/Cli/Machine.antt =====
-- What one sign-in may go through, as a machine on the status of its device, and the changes of the
-- table that are such steps.
use Prim.Native.String.{String}
use text.Mathlib.Text.{◌==◌ as str_eq}
use velvet.Common.{
  ◌&&◌, ◌||◌, ◌≡◌, refl, sym, ap, subst, Option, none, some, Bool, true, false, List, [], ◌∷◌, ◌==◌,
  arith, find, update, Bool-cases, Option-cases, inl, inr, ◌⊎◌,
}
use velvet.Common.In.{In, find-In, find-update_kept}
use velvet.Store.Db.{Db, CliSession, CliStatus, pending, approved, denied, collected}
use velvet.Store.Tx.{Tx, Result, Error, ok, err, in_tx, modify}
use velvet.Store.Tx.Steps.{modify_ok}
use velvet.Store.Tx.Ensures.{Ensures, Ensures-any}
use velvet.Store.Cli.{is_pending}
use velvet.Store.Cli.Collect.{is_device, is_collected}
use velvet.Store.Cli.Keys.{Keyed, Keeps, changed, update-Keyed, Keyed-at, status_in, status_of}

-- The machine: which status may follow which; `none` is a device that is not known. A device becomes
-- known only if it starts a sign-in; a row may be deleted at any time.
abbrev pub may_follow : Option CliStatus → Option CliStatus → Bool
may_follow none none = true
may_follow (some s) none = true
may_follow none (some t) = false
may_follow (some pending) (some collected) = false
may_follow (some pending) (some t) = true
may_follow (some approved) (some pending) = false
may_follow (some approved) (some t) = true
may_follow (some denied) (some denied) = true
may_follow (some collected) (some collected) = true
may_follow (some s) (some t) = false

abbrev pub waits : Option CliStatus → Bool
waits (some pending) = true
waits _ = false

-- The same with starts: the device that starts may come to wait.
abbrev pub may_step : Bool → Option CliStatus → Option CliStatus → Bool
may_step starts before after = may_follow before after || (starts && waits after)

pub may_follow_refl : (o : Option CliStatus) → may_follow o o ≡ true
may_follow_refl none = refl
may_follow_refl (some pending) = refl
may_follow_refl (some approved) = refl
may_follow_refl (some denied) = refl
may_follow_refl (some collected) = refl

-- The table after an operation that changes some rows and keeps the rest.
pub record Changed (rows rows' : List CliSession) : Type 0 where
  pub p : CliSession → Bool
  pub f : CliSession → CliSession
  pub keeps : Keeps f
  pub step :
      (s : CliSession)
      → In s rows
      → p s ≡ true
      → may_follow (some s.status) (some (f s).status) ≡ true
  pub state : rows' ≡ update p f rows

update-never :
    (f : CliSession → CliSession) (rows : List CliSession) → rows ≡ update (λ _. false) f rows
update-never f [] = refl
update-never f (s ∷ rows) = ap (λ rest. s ∷ rest) (update-never f rows)

pub Changed-same : (rows : List CliSession) → Changed rows rows
Changed-same rows = record {
  p = λ _. false;
  f = λ s. s;
  keeps = record { id = λ _. refl; device = λ _. refl; code = λ _. refl };
  step = λ s i e. cc;
  state = update-never (λ s. s) rows;
}

module _ {rows rows' : List CliSession} (c : Changed rows rows') where
  pub Changed-Keyed : Keyed rows → Keyed rows'
  Changed-Keyed h = subst Keyed (sym c.state) (update-Keyed c.p c.f c.keeps rows h)

  row-follow :
      (s : CliSession)
      → In s rows
      → may_follow (some s.status) (some (changed c.p c.f c.keeps s).status) ≡ true
  row-follow s i = elim (Bool-cases (c.p s)) [
    | inl e ↦ rw e (c.step s i e)
    | inr e ↦ rw e (may_follow_refl (some s.status))
  ]

  pub Changed-follow : (d : String) → may_follow (status_of d rows) (status_of d rows') ≡ true
  unfolding status_of
  Changed-follow d =
      let after =
        find-update_kept (is_device d) c.p c.f rows
          (λ s. ap (λ h. str_eq h d) (c.keeps.device s)) in
      subst
        (λ r.
          may_follow (status_in (find (is_device d) rows)) (status_in (find (is_device d) r))
          ≡ true)
        (sym c.state)
        (subst (λ o. may_follow (status_in (find (is_device d) rows)) (status_in o) ≡ true)
          (sym after)
          (elim (Option-cases (find (is_device d) rows)) [
            | inl e ↦ rw e refl
            | inr (s, e) ↦ rw e (row-follow s (find-In (is_device d) rows e))
          ]))

pub Result-cases :
    {A : Type 0} (r : Result (A × Db))
    → ((a : A) × (db : Db) × (r ≡ ok (a, db))) ⊎ ((e : Error) × (r ≡ err e))
Result-cases (ok (a, db)) = inl (a, db, refl)
Result-cases (err e) = inr (e, refl)

unfoldable pub committed : {A : Type 0} → Result (A × Db) → Db → Db
committed (ok (a, db')) db = db'
committed (err e) db = db

pub in_tx-committed : {A : Type 0} (m : Tx A) (db : Db) → (in_tx m db).1 ≡ committed (m db) db
unfolding in_tx committed
in_tx-committed m db = elim (Result-cases (m db)) [
  | inl (a, db', e) ↦ rw (in_tx, e) refl
  | inr (e', e) ↦ rw (in_tx, e) refl
]

-- A transaction that changes rows if it succeeds, run to its end.
pub in_tx-Changed :
    {A : Type 0} (m : Tx A) (db : Db)
    → Ensures m db (λ _ db'. Changed db.cli_sessions db'.cli_sessions)
    → Changed db.cli_sessions (in_tx m db).1.cli_sessions
unfolding committed
in_tx-Changed m db h =
    subst (λ (d : Db). Changed db.cli_sessions d.cli_sessions) (sym (in_tx-committed m db))
      (elim (Result-cases (m db)) [
        | inl (a, db', e) ↦ rw e (h.at a db' e)
        | inr (e', e) ↦ rw e (Changed-same db.cli_sessions)
      ])

pub update-Changed :
    (p : Db → CliSession → Bool) (f : CliSession → CliSession) (db : Db)
    → Keeps f
    → ((s : CliSession)
        → In s db.cli_sessions
        → p db s ≡ true
        → may_follow (some s.status) (some (f s).status) ≡ true)
    → Ensures
        (modify (λ d. record d { cli_sessions = update (p d) f d.cli_sessions }))
        db
        (λ _ db'. Changed db.cli_sessions db'.cli_sessions)
update-Changed p f db keeps step = Ensures-any _ db λ _ db' e. record {
  p = p db;
  f = f;
  keeps = keeps;
  step = step;
  state = ap (λ (d : Db). d.cli_sessions) (modify_ok _ db e);
}

pub from_pending :
    (s t : CliStatus)
    → is_pending s ≡ true
    → is_collected t ≡ false
    → may_follow (some s) (some t) ≡ true
from_pending pending pending h k = refl
from_pending pending approved h k = refl
from_pending pending denied h k = refl
from_pending pending collected h k = cc
from_pending approved t h k = cc
from_pending denied t h k = cc
from_pending collected t h k = cc

-- A row with the identifier of a row that was found.
pub same_id-row :
    (rows : List CliSession) (row s : CliSession)
    → Keyed rows
    → In row rows
    → In s rows
    → (s.id == row.id) ≡ true
    → s ≡ row
same_id-row rows row s h i j e = Keyed-at rows h s row j i (ground arith)
