-- ===== src/Store/Issue/Agree.antt =====
-- An issue's milestone and project always agree.
use velvet.Common.{
  ℕ, ◌≡◌, refl, ◌∙◌, Option, none, some, true, arith, All, [], ◌∷◌, All-append, All-map, All-update,
  find_test,
}
use velvet.Store.Db.{Db, Issue}
use velvet.Store.Tx.{ok}
use velvet.Store.Issue.{CreateIssueInput, IssuePatch, owner_project}
use velvet.Store.Issue.Create.{create_issue}
use velvet.Store.Issue.Update.{is_issue, update_issue}
use velvet.Store.Issue.Reads.{agrees, reconcile_agrees}
use velvet.Store.Issue.Shape.{create_issue-ensures, update_issue-ensures}

abbrev pub AgreesIn : Db → Issue → Type 0
AgreesIn db i = agrees db i.workspace_id i.milestone_id i.project_id ≡ true

-- Every issue is filed under no milestone, or under one of its own workspace whose sprint belongs
-- to the issue's project.
abbrev pub IssuesAgree : Db → Type 0
IssuesAgree db = All (AgreesIn db) db.issues

pub agrees_same :
    (a b : Db) (w : ℕ) (m p : Option ℕ)
    → a.milestones ≡ b.milestones
    → a.sprints ≡ b.sprints
    → agrees a w m p ≡ agrees b w m p
unfolding owner_project
agrees_same a b w none p e f = refl
agrees_same a b w (some m) p e f = rw (e, f)

is_issue_workspace : (w id : ℕ) (i : Issue) → is_issue w id i ≡ true → i.workspace_id ≡ w
is_issue_workspace w id i h = ground arith

-- A successful `update_issue` keeps the rule that every issue's milestone and project agree.
pub update_issue-IssuesAgree :
    (w id actor : ℕ) (patch : IssuePatch) (db : Db) {out : Issue} {db' : Db}
    → update_issue w id actor patch db ≡ ok (out, db')
    → IssuesAgree db
    → IssuesAgree db'
update_issue-IssuesAgree w id actor patch db {out} {db'} h all =
    let (before, u) = (update_issue-ensures w id actor patch db).at out db' h in
    let here : out.workspace_id ≡ w =
      u.same_workspace ∙ (is_issue_workspace w id before (find_test _ db.issues u.found)) in
    let fits : AgreesIn db out = rw here (reconcile_agrees w _ _ _ db u.reconciled) in
    simp u.issues (
      All-map (AgreesIn db) (AgreesIn db') _
        (λ i k.
          agrees_same db' db i.workspace_id i.milestone_id i.project_id u.milestones u.sprints ∙ k)
        (All-update (AgreesIn db) (is_issue w id) (λ _. out) db.issues (λ i _ _. fits) all))

-- A successful `create_issue` keeps the rule that every issue's milestone and project agree.
pub create_issue-IssuesAgree :
    (input : CreateIssueInput) (db : Db) {out : Issue} {db' : Db}
    → create_issue input db ≡ ok (out, db')
    → IssuesAgree db
    → IssuesAgree db'
create_issue-IssuesAgree input db {out} {db'} h all =
    let c = (create_issue-ensures input db).at out db' h in
    let fits : AgreesIn db out =
      rw c.in_workspace (reconcile_agrees input.workspace_id _ _ _ db c.reconciled) in
    simp c.issues (
      All-map (AgreesIn db) (AgreesIn db') _
        (λ i k.
          agrees_same db' db i.workspace_id i.milestone_id i.project_id c.milestones c.sprints ∙ k)
        (All-append (AgreesIn db) db.issues (out ∷ []) all (fits, tt)))
