-- ===== src/Store/Tests/Issues.antt =====
-- Runs of the operations on issues, and the theorems about them at these runs.
use velvet.Common.{List, ◌∷◌, [], ◌≢◌, ◌=?◌, select, ◌≡◌, refl, none, some, [], ◌∷◌, All, select}
use velvet.Store.Db.{Db, Issue, IssueStatus, in_progress, todo}
use velvet.Store.Tx.{err, not_found}
use velvet.Store.Issue.{CreateIssueInput, IssuePatch, in_list}
use velvet.Store.Issue.Create.{create_issue}
use velvet.Store.Issue.Update.{update_issue}
use velvet.Store.Issue.Agree.{IssuesAgree}
use velvet.Store.Issue.Order.{SortsBefore, create_issue-SortsBefore}
use velvet.Store.Issue.Nesting.{IsFlat}
use velvet.Store.Issue.References.{HasReferences, run-HasReferences}
use velvet.Store.Issue.Histories.{run, Call, history, history-IsFlat, history-IssuesAgree}
use velvet.Store.Tests.{state_of, value_of, issue, office, filing, unchanged, store}

created : (value_of (create_issue filing office) (issue 0 todo)).project_id ≡ some 3
unfolding store
created = refl

abbrev moving : IssuePatch
moving = record unchanged { project_id = some none; status = some IssueStatus.done }

-- A sub-issue of the finished issue.
abbrev nesting : CreateIssueInput
nesting = record filing { parent_id = some 31 }

create_issue-SortsBefore_example :
    All
      (SortsBefore (value_of (create_issue filing office) (issue 0 todo)).position)
      (select (in_list 1 (some 20)) office.issues)
unfolding store
create_issue-SortsBefore_example =
    create_issue-SortsBefore filing office
      {out = value_of (create_issue filing office) (issue 0 todo)} refl

IsFlat-office : IsFlat office
IsFlat-office =
    (((λ e. absurd cc), ((λ e. absurd cc), tt)), (((λ e. absurd cc), ((λ e. absurd cc), tt)), tt))

-- The open issue becomes a sub-issue of the finished one.
abbrev sinking : IssuePatch
sinking = record unchanged { parent_id = some (some 31) }

-- The second call fails: a sub-issue has no sub-issues.
abbrev calls : List Call
calls =
    Call.create nesting
    ∷ Call.update 1 31 7 (record unchanged { parent_id = some (some 30) })
    ∷ Call.update 1 30 7 sinking
    ∷ []

history-IsFlat_example : IsFlat (history calls office)
history-IsFlat_example = history-IsFlat calls office IsFlat-office

history-IssuesAgree_example :
    IssuesAgree (history (Call.create filing ∷ Call.update 1 30 7 moving ∷ []) office)
unfolding store
history-IssuesAgree_example =
    history-IssuesAgree (Call.create filing ∷ Call.update 1 30 7 moving ∷ []) office
      (refl, (refl, tt))

all_sunk : select (λ (i : Issue). i.parent_id =? some 31) (history calls office).issues ≢ []
unfolding store history
all_sunk = cc

-- The assignee of the only issue has left.
abbrev orphaned : Issue
orphaned = record (issue 30 in_progress) { assignee_id = some 8 }

abbrev orphaned_office : Db
orphaned_office = record office { issues = orphaned ∷ [] }

departed_stuck :
    update_issue 1 30 7 (record unchanged { status = some IssueStatus.done }) orphaned_office
    ≡ err not_found
unfolding store
departed_stuck = refl

abbrev moved : Issue
moved = value_of (update_issue 1 30 7 moving office) (issue 30 todo)

run-HasReferences_example : HasReferences office moved
unfolding store run
run-HasReferences_example =
    run-HasReferences (Call.update 1 30 7 moving) office {out = moved}
      {db' = state_of (update_issue 1 30 7 moving office) office} refl
