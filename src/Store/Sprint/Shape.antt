-- ===== src/Store/Sprint/Shape.antt =====
-- The tables after a sprint is closed or activated.
use velvet.Common.{
  ℕ, ◌≡◌, refl, ap, ◌∙◌, Option, none, some, Bool, true, false, ◌==◌, List, [], ◌∷◌, ◌++◌, any,
  find, select, update, if◌then◌else◌,
}
use mathlib.Core.List.{map}
use velvet.Store.Db.{Db, Sprint, Snapshot, Verb, TargetType}
use velvet.Store.Tx.{Tx, ok, pure, record_activity, ◌>>=◌, ◌>>◌}
use velvet.Store.Tx.Steps.{IsRead-pure, query_row_ok, modify_ok}
use velvet.Store.Tx.Ensures.{
  Ensures, Ensures-any, Ensures-pure, Ensures-bind, Ensures-read, Ensures-reads, Ensures-modify,
}
use velvet.Store.Access.Reads.{IsRead-lock_workspace_writer}
use velvet.Store.Issue.Shape.{SameTables-record_activity}
use velvet.Store.Sprint.{is_sprint, snapshot_of, capture_snapshot}
use velvet.Store.Sprint.Roll.{roll_incomplete_issues_forward}
use velvet.Store.Sprint.Close.{
  set_state, complete, activate, close_sprint_tx, is_previous, close_previous, activate_sprint,
}
use velvet.Store.Sprint.Frames.{
  unfiled, is_closed, Frame-roll-sprints, Frame-roll-snapshots, Frame-roll-unfiled,
  Frame-roll-closed,
}

set_state-ensures :
    (w id : ℕ) (change : Db → Sprint → Sprint) (db : Db)
    → Ensures (set_state w id change) db (λ out db'.
      (db' ≡ record db { sprints = update (is_sprint w id) (change db) db.sprints })
      × (find (is_sprint w id) (update (is_sprint w id) (change db) db.sprints) ≡ some out))
unfolding set_state
set_state-ensures w id change db =
    Ensures-modify _ _ db
      (Ensures-any _ _ λ out db' e. let (found, same) = query_row_ok _ _ e in (same, found))

abbrev pub captured : Db → ℕ → ℕ → List Snapshot
captured db w id =
    if any (λ (s : Snapshot). s.sprint_id == id) db.snapshots
    then db.snapshots
    else db.snapshots ++ snapshot_of db w id ∷ []

capture_ok :
    (w id : ℕ) (db : Db) {u : Unit {0}} {db' : Db}
    → capture_snapshot w id db ≡ ok (u, db')
    → db' ≡ record db { snapshots = captured db w id }
unfolding capture_snapshot
capture_ok w id db e =
    modify_ok _ db e ∙ split (any (λ (s : Snapshot). s.sprint_id == id) db.snapshots)
  where
    split :
        (b : Bool)
        → (if b then db else record db { snapshots = db.snapshots ++ snapshot_of db w id ∷ [] })
          ≡ record db {
            snapshots = if b then db.snapshots else db.snapshots ++ snapshot_of db w id ∷ [];
          }
    split true = refl
    split false = refl

record Rolled (db db' : Db) : Type 0 where
  same_sprints : db'.sprints ≡ db.sprints
  same_snapshots : db'.snapshots ≡ db.snapshots
  same_unfiled : map unfiled db'.issues ≡ map unfiled db.issues
  same_closed : select is_closed db'.issues ≡ select is_closed db.issues

roll-ensures :
    (w id : ℕ) (next : Option ℕ) (db : Db)
    → Ensures (roll_incomplete_issues_forward w id next) db (λ _ db'. Rolled db db')
roll-ensures w id next db = Ensures-any _ db λ u db' e. record {
  same_sprints = (Frame-roll-sprints w id next).at db u db' e;
  same_snapshots = (Frame-roll-snapshots w id next).at db u db' e;
  same_unfiled = (Frame-roll-unfiled w id next).at db u db' e;
  same_closed = (Frame-roll-closed w id next).at db u db' e;
}

-- What closing a sprint did to the tables, but for the milestones and the issues that it moved.
pub record Closed (w id : ℕ) (db : Db) (out : Sprint) (db' : Db) : Type 0 where
  pub found : find (is_sprint w id) (update (is_sprint w id) (complete db) db.sprints) ≡ some out
  pub sprints : db'.sprints ≡ update (is_sprint w id) (complete db) db.sprints
  pub snapshots : db'.snapshots ≡ captured db w id
  pub unfiled_issues : map unfiled db'.issues ≡ map unfiled db.issues
  pub closed_issues : select is_closed db'.issues ≡ select is_closed db.issues

pub close_sprint_tx-ensures :
    (w id actor : ℕ) (next : Option ℕ) (db : Db)
    → Ensures (close_sprint_tx w id actor next) db (Closed w id db)
unfolding close_sprint_tx
close_sprint_tx-ensures w id actor next db =
    Ensures-bind _ _ _ db (set_state-ensures w id complete db) λ out mid (state, found). rw state (
      Ensures-bind _ _ _ _ (Ensures-any _ _ λ _ db' e. capture_ok w id _ e) λ _ snapped q. rw q (
        Ensures-bind _ _ _ _ (roll-ensures w id next _) λ _ rolled r.
          Ensures-bind _ _ _ rolled
            (Ensures-any _ rolled (λ _ last e. SameTables-record_activity _ _ _ _ _ rolled e))
            λ _ last t. Ensures-pure out last (record {
              found = found;
              sprints = t.sprints ∙ r.same_sprints;
              snapshots = t.snapshots ∙ r.same_snapshots;
              unfiled_issues = ap (map unfiled) t.issues ∙ r.same_unfiled;
              closed_issues = ap (select is_closed) t.issues ∙ r.same_closed;
            })))

-- Activating a sprint first closes the active sprint of the project, if there is another.
pub data Activated (w id : ℕ) (db : Db) (out : Sprint) (db' : Db) : Type 0 where
  alone :
      find (is_previous db w id) db.sprints ≡ none
      → db'.sprints ≡ update (is_sprint w id) (activate db) db.sprints
      → find (is_sprint w id) db'.sprints ≡ some out
      → db'.snapshots ≡ db.snapshots
      → db'.issues ≡ db.issues
      → Activated w id db out db'
  after :
      (previous : Sprint) (mid : Db) (closed : Sprint)
      → find (is_previous db w id) db.sprints ≡ some previous
      → Closed w previous.id db closed mid
      → db'.sprints ≡ update (is_sprint w id) (activate mid) mid.sprints
      → find (is_sprint w id) db'.sprints ≡ some out
      → db'.snapshots ≡ mid.snapshots
      → db'.issues ≡ mid.issues
      → Activated w id db out db'

-- The steps behind the closing of the previous sprint.
abbrev activate_rest : ℕ → ℕ → ℕ → Tx Sprint
activate_rest w id actor = do
  out ← set_state w id activate
  record_activity w actor Verb.activated_sprint TargetType.sprint id
  pure out

activate_rest-ensures :
    (w id actor : ℕ) (db : Db)
    → Ensures (activate_rest w id actor) db (λ out db'.
      (db'.sprints ≡ update (is_sprint w id) (activate db) db.sprints)
      × (find (is_sprint w id) db'.sprints ≡ some out)
      × (db'.snapshots ≡ db.snapshots)
      × (db'.issues ≡ db.issues))
activate_rest-ensures w id actor db =
    Ensures-bind _ _ _ db (set_state-ensures w id activate db) λ out mid (state, found). rw state (
      Ensures-bind _ _ _ _ (Ensures-any _ _ (λ _ last e. SameTables-record_activity _ _ _ _ _ _ e))
        λ _ last t.
          Ensures-pure out last
            (t.sprints, ap (find (is_sprint w id)) t.sprints ∙ found, t.snapshots, t.issues))

activate_after :
    (w id actor : ℕ) (db : Db) (o : Option Sprint)
    → find (is_previous db w id) db.sprints ≡ o
    → Ensures (close_previous w id actor o >>= λ _. activate_rest w id actor) db (Activated w id db)
unfolding close_previous
activate_after w id actor db none e = Ensures-read _ _ db (IsRead-pure tt) λ _ _.
    Ensures-any _ db λ out db' h.
      let (sprints, found, snapshots, issues) =
        (activate_rest-ensures w id actor db).at out db' h in
      alone e sprints found snapshots issues
activate_after w id actor db (some previous) e =
    Ensures-bind (λ _ mid. (closed : Sprint) × Closed w previous.id db closed mid) _ _ db
      (Ensures-bind _ _ _ db (close_sprint_tx-ensures w previous.id actor (some id) db)
        λ closed mid c. Ensures-pure tt mid (closed, c))
      λ _ mid (closed, c). Ensures-any _ mid λ out db' h.
        let (sprints, found, snapshots, issues) =
          (activate_rest-ensures w id actor mid).at out db' h in
        after previous mid closed e c sprints found snapshots issues

pub activate_sprint-ensures :
    (w id actor : ℕ) (db : Db) → Ensures (activate_sprint w id actor) db (Activated w id db)
unfolding activate_sprint
activate_sprint-ensures w id actor db =
    Ensures-read _ _ db (IsRead-lock_workspace_writer w actor)
      λ _ _. Ensures-reads _ _ db (activate_after w id actor db _ refl)
