-- ===== src/Store/Sprint/Report.antt =====
-- The report of a sprint is frozen when it is first closed, and closing changes no issue's status.
use velvet.Common.{
  ℕ, ◌≡◌, refl, sym, ap, ◌∙◌, Option, none, some, Bool, true, arith, ◌==◌, List, [], ◌∷◌, ◌++◌, any,
  find, select, if◌then◌else◌, Bool-cases, inl, inr, ==_iff, ==_comm,
}
use mathlib.Core.List.{map}
use velvet.Store.Db.{Db, Sprint, Snapshot}
use velvet.Store.Tx.{ok}
use velvet.Store.Access.Reads.{IsRead-lock_workspace_writer}
use velvet.Store.Sprint.{snapshot_of}
use velvet.Store.Sprint.Close.{close_sprint, activate_sprint}
use velvet.Store.Sprint.Frames.{unfiled, is_closed}
use velvet.Store.Tx.Ensures.{Ensures, Ensures-read}
use velvet.Store.Sprint.Shape.{
  captured, Closed, Activated, alone, after, close_sprint_tx-ensures, activate_sprint-ensures,
}

abbrev pub is_report : ℕ → Snapshot → Bool
is_report k s = s.sprint_id == k

-- SELECT ... FROM sprint_snapshot WHERE sprint_id = $2
abbrev pub report : Db → ℕ → Option Snapshot
report db k = find (is_report k) db.snapshots

-- The first of two results that is there.
abbrev pub or_else : Option Snapshot → Option Snapshot → Option Snapshot
or_else (some s) o = some s
or_else none o = o

or_else-none : (o : Option Snapshot) → or_else o none ≡ o
or_else-none none = refl
or_else-none (some s) = refl

find-append :
    (p : Snapshot → Bool) (xs : List Snapshot) (y : Snapshot)
    → find p (xs ++ y ∷ []) ≡ or_else (find p xs) (if p y then some y else none)
find-append p [] y = refl
find-append p (x ∷ xs) y = elim (Bool-cases (p x)) [
  | inl e ↦ rw e
  | inr e ↦ rw e (find-append p xs y)
]

find-any :
    (p : Snapshot → Bool) (xs : List Snapshot)
    → any p xs ≡ true
    → (s : Snapshot) × (find p xs ≡ some s)
find-any p [] h = cc
find-any p (x ∷ xs) h = elim (Bool-cases (p x)) [
  | inl e ↦ (x, rw e)
  | inr e ↦ rw e (find-any p xs (ground arith))
]

-- The report of sprint `k` after the report of sprint `id` was asked for.
abbrev pub reported : Db → ℕ → ℕ → ℕ → Option Snapshot
reported db w id k = or_else (report db k) (if k == id then some (snapshot_of db w id) else none)

known :
    (db : Db) (w id k : ℕ) {s : Snapshot}
    → find (is_report id) db.snapshots ≡ some s
    → find (is_report k) db.snapshots ≡ reported db w id k
known db w id k e = elim (Bool-cases (k == id)) [
  | inl q ↦ let same : k ≡ id = (==_iff k id).0 q in rw (q, same, e)
  | inr q ↦ rw q (sym (or_else-none _))
]

captured_report :
    (db : Db) (w id k : ℕ) → find (is_report k) (captured db w id) ≡ reported db w id k
captured_report db w id k = elim (Bool-cases (any (is_report id) db.snapshots)) [
  | inl e ↦
      let (s, found) = find-any (is_report id) db.snapshots e in
      rw e (known db w id k {s = s} found)
  | inr e ↦ rw e (find-append (is_report k) db.snapshots _ ∙ rw (==_comm id k))
]

close_sprint-ensures :
    (w id actor : ℕ) (db : Db) → Ensures (close_sprint w id actor) db (Closed w id db)
unfolding close_sprint
close_sprint-ensures w id actor db =
    Ensures-read _ _ db (IsRead-lock_workspace_writer w actor)
      λ _ _. close_sprint_tx-ensures w id actor none db

-- A successful `close_sprint` of a sprint that has no report yet writes the report of the tables as they were, before any
-- issue was moved; closing it again keeps the first report. Reports of other sprints stay.
pub close_sprint-report :
    (w id actor : ℕ) (db : Db) {out : Sprint} {db' : Db}
    → close_sprint w id actor db ≡ ok (out, db')
    → (k : ℕ) → report db' k ≡ reported db w id k
close_sprint-report w id actor db {out} {db'} h k =
    let c = (close_sprint-ensures w id actor db).at out db' h in
    ap (find (is_report k)) c.snapshots ∙ captured_report db w id k

-- A successful `activate_sprint` keeps every report that exists.
pub activate_sprint-report :
    (w id actor : ℕ) (db : Db) {out : Sprint} {db' : Db} (k : ℕ) {s : Snapshot}
    → activate_sprint w id actor db ≡ ok (out, db')
    → report db k ≡ some s
    → report db' k ≡ some s
activate_sprint-report w id actor db {out} {db'} k {s} h found =
    go ((activate_sprint-ensures w id actor db).at out db' h)
  where
    go : Activated w id db out db' → report db' k ≡ some s
    go (alone _ _ _ snapshots _) = rw snapshots found
    go (after previous mid _ _ c _ _ snapshots _) =
        ap (find (is_report k)) (snapshots ∙ c.snapshots)
        ∙ captured_report db w previous.id k
        ∙ rw found

-- Every issue is as before but for its milestone and the time of its last change, and the issues that
-- are done or cancelled are as before.
abbrev pub OnlyMoved : Db → Db → Type 0
OnlyMoved db db' =
    (map unfiled db'.issues ≡ map unfiled db.issues)
    × (select is_closed db'.issues ≡ select is_closed db.issues)

-- A successful `close_sprint` changes nothing of any issue but its milestone and the time of its last
-- change, and leaves the issues that are done or cancelled as they are.
pub close_sprint-OnlyMoved :
    (w id actor : ℕ) (db : Db) {out : Sprint} {db' : Db}
    → close_sprint w id actor db ≡ ok (out, db')
    → OnlyMoved db db'
close_sprint-OnlyMoved w id actor db {out} {db'} h =
    let c = (close_sprint-ensures w id actor db).at out db' h in (c.unfiled_issues, c.closed_issues)

-- A successful `activate_sprint` changes nothing of any issue but its milestone and the time of its
-- last change, and leaves the issues that are done or cancelled as they are.
pub activate_sprint-OnlyMoved :
    (w id actor : ℕ) (db : Db) {out : Sprint} {db' : Db}
    → activate_sprint w id actor db ≡ ok (out, db')
    → OnlyMoved db db'
activate_sprint-OnlyMoved w id actor db {out} {db'} h =
    go ((activate_sprint-ensures w id actor db).at out db' h)
  where
    go : Activated w id db out db' → OnlyMoved db db'
    go (alone _ _ _ _ issues) = (ap (map unfiled) issues, ap (select is_closed) issues)
    go (after previous mid _ _ c _ _ _ issues) =
        (ap (map unfiled) issues ∙ c.unfiled_issues, ap (select is_closed) issues ∙ c.closed_issues)
