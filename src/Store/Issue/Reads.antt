-- ===== src/Store/Issue/Reads.antt =====
-- The checks and the choices of issue.go only read; what `reconcile_milestone_project` returns.
use velvet.Common.{ℕ, ◌≡◌, Option, none, some, Bool, true, false, arith, ◌=?◌}
use velvet.Common.Text.{Bytes}
use velvet.Fracdex
use velvet.Store.Db.{Db, Issue}
use velvet.Store.Tx.{Tx, ok, ◌>>=◌}
use velvet.Store.Tx.Steps.{IsRead, read_rules}
use velvet.Store.Access.Reads.{access_reads}
use velvet.Store.Issue.{
  IssuePatch, order_result, after_last, next_issue_position, owner_project, milestone_project,
  check_project_in_workspace, when_some, check_milestone_exists, check_issue_exists,
  check_issue_references, reconcile_milestone_project, issue_depth_guard,
}
use velvet.Store.Issue.Update.{neighbour, reposition_issue, choose_position}

IsRead-order_result : (r : Fracdex.Result) → IsRead (order_result r)
IsRead-order_result (Fracdex.ok k) = record { same = λ db a db' h. ground arith }
IsRead-order_result (Fracdex.err e) = record { same = λ db a db' h. cc }

pub IsRead-after_last : (p : Option Bytes) → IsRead (after_last p)
IsRead-after_last none = search read_rules
IsRead-after_last (some p) = IsRead-order_result _

pub IsRead-when_some :
    (o : Option ℕ) (f : ℕ → Tx (Unit {0})) → ((a : ℕ) → IsRead (f a)) → IsRead (when_some o f)
IsRead-when_some none f h = search read_rules
IsRead-when_some (some a) f h = h a

pub IsRead-next_issue_position : (w : ℕ) (m : Option ℕ) → IsRead (next_issue_position w m)
unfolding next_issue_position
IsRead-next_issue_position w m = search (read_rules, IsRead-after_last)

pub IsRead-check_project_in_workspace : (w p : ℕ) → IsRead (check_project_in_workspace w p)
unfolding check_project_in_workspace
IsRead-check_project_in_workspace w p = search read_rules

pub IsRead-check_milestone_exists : (w m : ℕ) → IsRead (check_milestone_exists w m)
unfolding check_milestone_exists
IsRead-check_milestone_exists w m = search read_rules

pub IsRead-check_issue_exists : (w i : ℕ) → IsRead (check_issue_exists w i)
unfolding check_issue_exists
IsRead-check_issue_exists w i = search read_rules

pub IsRead-check_issue_references :
    (w : ℕ) (a m p q : Option ℕ) → IsRead (check_issue_references w a m p q)
unfolding check_issue_references
IsRead-check_issue_references w a m p q =
    search
      (
        read_rules, access_reads, IsRead-when_some, IsRead-check_project_in_workspace,
        IsRead-check_milestone_exists, IsRead-check_issue_exists,
      )
      depth 7

IsRead-neighbour : (w : ℕ) (m i : Option ℕ) → IsRead (neighbour w m i)
unfolding neighbour
IsRead-neighbour w m none = search read_rules
IsRead-neighbour w m (some i) = search read_rules

IsRead-reposition_issue : (w : ℕ) (m a b : Option ℕ) → IsRead (reposition_issue w m a b)
unfolding reposition_issue
IsRead-reposition_issue w m a b = search (read_rules, IsRead-neighbour, IsRead-order_result)

pub IsRead-choose_position :
    (w : ℕ) (i : Issue) (m : Option ℕ) (patch : IssuePatch) → IsRead (choose_position w i m patch)
unfolding choose_position
IsRead-choose_position w i m patch =
    search (read_rules, IsRead-reposition_issue, IsRead-next_issue_position)

pub IsRead-issue_depth_guard : (i : ℕ) (p : Option ℕ) → IsRead (issue_depth_guard i p)
unfolding issue_depth_guard
IsRead-issue_depth_guard i none = search read_rules
IsRead-issue_depth_guard i (some p) = search read_rules depth 7

-- A milestone and a project agree: no milestone, or the project of the milestone's sprint.
abbrev pub agrees : Db → ℕ → Option ℕ → Option ℕ → Bool
agrees db w none project_id = true
agrees db w (some m) project_id = elim (owner_project db w m) [
  | none ↦ false
  | some owner ↦ project_id =? some owner
]

pub IsRead-reconcile_milestone_project :
    (w : ℕ) (m p : Option ℕ) (c : Bool) → IsRead (reconcile_milestone_project w m p c)
unfolding reconcile_milestone_project milestone_project
IsRead-reconcile_milestone_project w none p c = search read_rules
IsRead-reconcile_milestone_project w (some m) p c = search read_rules depth 7

-- What `reconcile_milestone_project` returns agrees; a chosen milestone stays.
pub reconcile_agrees :
    (w : ℕ) (m p : Option ℕ) (c : Bool) (db : Db) {refs : Option ℕ × Option ℕ} {db' : Db}
    → reconcile_milestone_project w m p c db ≡ ok (refs, db')
    → agrees db w refs.0 refs.1 ≡ true
unfolding reconcile_milestone_project milestone_project
reconcile_agrees w none p c db h = unfold ◌>>=◌ in ground arith
reconcile_agrees w (some m) p c db {refs} {db'} h = unfold ◌>>=◌ in ground arith
