-- ===== src/Store/Issue/References.antt =====
-- What an issue that was filed or changed refers to.
use velvet.Common.{
  ℕ, ◌≡◌, refl, sym, ◌∙◌, ap, subst, Option, none, some, Bool, true, false, ◌&&◌, ◌==◌, ◌=?◌, any,
  find_test, arith, some_injective, inl, inr, ◌⊎◌, if◌then◌else◌,
}
use velvet.Store.Db.{Db, Issue, Milestone, Project}
use velvet.Store.Tx.{Tx, ok, pure, ◌>>=◌}
use velvet.Store.Tx.Steps.{bind_ok, pure_ok, query_row_ok}
use velvet.Store.Tx.Ensures.{Ensures, Ensures-any, Ensures-read}
use velvet.Store.Access.Reads.{IsRead-check_workspace_member}
use velvet.Store.Issue.Reads.{
  IsRead-when_some, IsRead-check_project_in_workspace, IsRead-check_milestone_exists,
  IsRead-check_issue_exists,
}
use velvet.Store.Access.{check_workspace_member, is_membership}
use velvet.Store.Issue.{
  check_issue_references, check_project_in_workspace, check_milestone_exists, check_issue_exists,
  when_some, reconcile_milestone_project, milestone_project, owner_project,
}
use velvet.Store.Issue.Update.{is_issue}
use velvet.Store.Issue.Shape.{create_issue-ensures, update_issue-ensures}
use velvet.Store.Issue.Histories.{Call, create, update, run}

abbrev pub is_project_of : ℕ → ℕ → Project → Bool
is_project_of w id p = p.id == id && p.workspace_id == w

abbrev pub is_milestone_of : ℕ → ℕ → Milestone → Bool
is_milestone_of w id m = m.id == id && m.workspace_id == w

abbrev pub is_issue_of : ℕ → ℕ → Issue → Bool
is_issue_of w id i = i.id == id && i.workspace_id == w

-- The assignee is a member of the issue's workspace; its milestone and its parent are in the
-- workspace; its project is in the workspace, or is the one of the milestone's sprint.
pub record HasReferences (db : Db) (i : Issue) : Type 0 where
  pub assignee :
      (u : ℕ) → i.assignee_id ≡ some u → any (is_membership i.workspace_id u) db.memberships ≡ true
  pub milestone :
      (m : ℕ)
      → i.milestone_id ≡ some m
      → any (is_milestone_of i.workspace_id m) db.milestones ≡ true
  pub project :
      (p : ℕ)
      → i.project_id ≡ some p
      → (any (is_project_of i.workspace_id p) db.projects ≡ true)
        ⊎ ((m : ℕ) × (i.milestone_id ≡ some m) × (owner_project db i.workspace_id m ≡ some p))
  pub parent : (q : ℕ) → i.parent_id ≡ some q → any (is_issue_of i.workspace_id q) db.issues ≡ true

-- What the checks of the references found.
record Checked (w : ℕ) (a m p q : Option ℕ) (db : Db) : Type 0 where
  pub assignee : (u : ℕ) → a ≡ some u → any (is_membership w u) db.memberships ≡ true
  pub project : (u : ℕ) → p ≡ some u → any (is_project_of w u) db.projects ≡ true
  pub milestone : (u : ℕ) → m ≡ some u → any (is_milestone_of w u) db.milestones ≡ true
  pub parent : (u : ℕ) → q ≡ some u → any (is_issue_of w u) db.issues ≡ true

-- A reference that is there was looked up.
when_some_ok :
    (o : Option ℕ) (test : ℕ → Db → Bool) (f : ℕ → Tx (Unit {0})) (db : Db)
    → ((id : ℕ) → f id db ≡ ok (tt, db) → test id db ≡ true)
    → when_some o f db ≡ ok (tt, db)
    → (id : ℕ) → o ≡ some id
    → test id db ≡ true
when_some_ok none test f db k h id e = cc
when_some_ok (some x) test f db k h id e = subst (λ y. test y db ≡ true) (some_injective e) (k x h)

member_ok :
    (w id : ℕ) (db : Db)
    → check_workspace_member w id db ≡ ok (tt, db)
    → any (is_membership w id) db.memberships ≡ true
unfolding check_workspace_member
member_ok w id db h = unfold ◌>>=◌ in ground arith

project_ok :
    (w id : ℕ) (db : Db)
    → check_project_in_workspace w id db ≡ ok (tt, db)
    → any (is_project_of w id) db.projects ≡ true
unfolding check_project_in_workspace
project_ok w id db h = unfold ◌>>=◌ in ground arith

milestone_ok :
    (w id : ℕ) (db : Db)
    → check_milestone_exists w id db ≡ ok (tt, db)
    → any (is_milestone_of w id) db.milestones ≡ true
unfolding check_milestone_exists
milestone_ok w id db h = unfold ◌>>=◌ in ground arith

parent_ok :
    (w id : ℕ) (db : Db)
    → check_issue_exists w id db ≡ ok (tt, db)
    → any (is_issue_of w id) db.issues ≡ true
unfolding check_issue_exists
parent_ok w id db h = unfold ◌>>=◌ in ground arith

check-ensures :
    (w : ℕ) (a m p q : Option ℕ) (db : Db)
    → Ensures (check_issue_references w a m p q) db (λ _ _. Checked w a m p q db)
unfolding check_issue_references
check-ensures w a m p q db =
    Ensures-read _ _ db (IsRead-when_some a _ (IsRead-check_workspace_member w)) λ _ e.
      Ensures-read _ _ db (IsRead-when_some p _ (IsRead-check_project_in_workspace w)) λ _ f.
        Ensures-read _ _ db (IsRead-when_some m _ (IsRead-check_milestone_exists w)) λ _ g.
          Ensures-any _ db λ u db' h.
            let same : db' ≡ db =
              (IsRead-when_some q _ (IsRead-check_issue_exists w)).same db u db' h in
            record {
              assignee =
                  when_some_ok a (λ id d. any (is_membership w id) d.memberships) _ db
                    (λ id k. member_ok w id db k) e;
              project =
                  when_some_ok p (λ id d. any (is_project_of w id) d.projects) _ db
                    (λ id k. project_ok w id db k) f;
              milestone =
                  when_some_ok m (λ id d. any (is_milestone_of w id) d.milestones) _ db
                    (λ id k. milestone_ok w id db k) g;
              parent =
                  when_some_ok q (λ id d. any (is_issue_of w id) d.issues) _ db
                    (λ id k. parent_ok w id db k) (h ∙ ap (λ d. ok (tt, d)) same);
            }

-- What `reconcile_milestone_project` may return.
data Reconciled (w : ℕ) (m p : Option ℕ) (db : Db) (refs : Option ℕ × Option ℕ) : Type 0 where
  kept : (refs.0 ≡ m) → (refs.1 ≡ p) → Reconciled w m p db refs
  moved :
      (y owner : ℕ)
      → m ≡ some y
      → refs.0 ≡ some y
      → refs.1 ≡ some owner
      → owner_project db w y ≡ some owner
      → Reconciled w m p db refs
  dropped : (refs.0 ≡ none) → (refs.1 ≡ p) → Reconciled w m p db refs

chosen :
    (b c : Bool) (w y owner : ℕ) (p : Option ℕ) (db : Db) {refs : Option ℕ × Option ℕ} {db' : Db}
    → owner_project db w y ≡ some owner
    → (if b then pure (some y, p) else if c then pure (some y, some owner) else pure (none, p)) db
      ≡ ok (refs, db')
    → Reconciled w (some y) p db refs
chosen true c w y owner p db found h =
    let e = (pure_ok (some y, p) db h).0 in kept (ap (λ r. r.0) e) (ap (λ r. r.1) e)
chosen false true w y owner p db found h =
    let e = (pure_ok (some y, some owner) db h).0 in
    moved y owner refl (ap (λ r. r.0) e) (ap (λ r. r.1) e) found
chosen false false w y owner p db found h =
    let e = (pure_ok (none, p) db h).0 in dropped (ap (λ r. r.0) e) (ap (λ r. r.1) e)

reconciled :
    (w : ℕ) (m p : Option ℕ) (c : Bool) (db : Db) {refs : Option ℕ × Option ℕ} {db' : Db}
    → reconcile_milestone_project w m p c db ≡ ok (refs, db')
    → Reconciled w m p db refs
unfolding reconcile_milestone_project milestone_project
reconciled w none p c db h =
    let e = (pure_ok (none, p) db h).0 in kept (ap (λ r. r.0) e) (ap (λ r. r.1) e)
reconciled w (some y) p c db {refs} {db'} h =
    let (owner, mid, read, rest) = bind_ok (milestone_project w y) _ db {b = refs} {db' = db'} h in
    let (found, same) = query_row_ok (λ d. owner_project d w y) db read in
    chosen (p =? some owner) c w y owner p db found (rw same at rest)

references :
    (w : ℕ) (a m p q : Option ℕ) (db : Db) (out : Issue)
    → Checked w a m p q db
    → Reconciled w m p db (out.milestone_id, out.project_id)
    → out.workspace_id ≡ w
    → out.assignee_id ≡ a
    → out.parent_id ≡ q
    → HasReferences db out
references w a m p q db out c r here assigned nested = record {
  assignee = λ u e. rw here (c.assignee u (sym assigned ∙ e));
  milestone = λ u e. rw here (elim r [
    | kept f g ↦ c.milestone u (sym f ∙ e)
    | moved y owner f g h k ↦ c.milestone u (f ∙ sym g ∙ e)
    | dropped f g ↦ let wrong : none ≡ some u = sym f ∙ e in cc
  ]);
  project = λ u e. rw here (elim r [
    | kept f g ↦ inl (c.project u (sym g ∙ e))
    | moved y owner f g h k ↦ inr (y, g, k ∙ sym h ∙ e)
    | dropped f g ↦ inl (c.project u (sym g ∙ e))
  ]);
  parent = λ u e. rw here (c.parent u (sym nested ∙ e));
}

is_issue_workspace : (w id : ℕ) (i : Issue) → is_issue w id i ≡ true → i.workspace_id ≡ w
is_issue_workspace w id i h = ground arith

-- The issue that a successful CreateIssue or UpdateIssue returns has an assignee who is a member of its
-- workspace, a milestone and a parent of the workspace, and a project of the workspace or that of the
-- milestone's sprint, as far as it has them, whether the call names them or leaves them as they were.
pub run-HasReferences :
    (c : Call) (db : Db) {out : Issue} {db' : Db} → run c db ≡ ok (out, db') → HasReferences db out
unfolding run
run-HasReferences (create input) db {out} {db'} h =
    let c = (create_issue-ensures input db).at out db' h in
    references input.workspace_id input.assignee_id input.milestone_id input.project_id
      input.parent_id db out ((check-ensures input.workspace_id _ _ _ _ db).at tt db c.checked)
      (reconciled input.workspace_id _ _ true db c.reconciled) c.in_workspace c.assignee c.parent
run-HasReferences (update w id actor patch) db {out} {db'} h =
    let (before, u) = (update_issue-ensures w id actor patch db).at out db' h in
    references w _ _ _ _ db out ((check-ensures w _ _ _ _ db).at tt db u.checked)
      (reconciled w _ _ _ db u.reconciled)
      (u.same_workspace ∙ is_issue_workspace w id before (find_test _ db.issues u.found)) u.assignee
      u.parent
