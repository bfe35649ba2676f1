-- ===== src/Store/Issue/Histories.antt =====
-- Sequences of calls that file and change issues. A call that fails changes nothing (`in_tx`).
use velvet.Common.{ℕ, List, [], ◌∷◌}
use velvet.Store.Db.{Db, Issue}
use velvet.Store.Tx.{Tx, in_tx}
use velvet.Store.Tx.Histories.{Keeps, in_tx-Keeps}
use velvet.Store.Issue.{CreateIssueInput, IssuePatch}
use velvet.Store.Issue.Create.{create_issue}
use velvet.Store.Issue.Update.{update_issue}
use velvet.Store.Issue.Nesting.{IsFlat, create_issue-IsFlat, update_issue-IsFlat}
use velvet.Store.Issue.Agree.{IssuesAgree, create_issue-IssuesAgree, update_issue-IssuesAgree}

pub data Call : Type 0 where
  create : CreateIssueInput → Call
  update : ℕ → ℕ → ℕ → IssuePatch → Call

unfoldable pub run : Call → Tx Issue
run (create input) = create_issue input
run (update workspace_id id actor_id patch) = update_issue workspace_id id actor_id patch

unfoldable pub history : List Call → Db → Db
unfolding run in_tx
history [] db = db
history (c ∷ cs) db = history cs (in_tx (run c) db).1

run-Keeps : (c : Call) → Keeps IsFlat (run c)
unfolding run
run-Keeps (create input) = record { at = λ db out db' h flat. create_issue-IsFlat input db h flat }
run-Keeps (update w id actor patch) = record {
  at = λ db out db' h flat. update_issue-IsFlat w id actor patch db h flat;
}

run-Agrees : (c : Call) → Keeps IssuesAgree (run c)
unfolding run
run-Agrees (create input) = record {
  at = λ db out db' h all. create_issue-IssuesAgree input db h all;
}
run-Agrees (update w id actor patch) = record {
  at = λ db out db' h all. update_issue-IssuesAgree w id actor patch db h all;
}

-- After any calls of CreateIssue and UpdateIssue, failed ones included, the parent of an issue has no
-- parent, if that was so before.
pub history-IsFlat : (cs : List Call) (db : Db) → IsFlat db → IsFlat (history cs db)
unfolding history
history-IsFlat [] db h = h
history-IsFlat (c ∷ cs) db h = history-IsFlat cs _ (in_tx-Keeps IsFlat (run c) (run-Keeps c) db h)

-- After any calls of CreateIssue and UpdateIssue, failed ones included, every issue is filed under no
-- milestone, or under one of its own workspace whose sprint belongs to the issue's project, if that was
-- so before.
pub history-IssuesAgree : (cs : List Call) (db : Db) → IssuesAgree db → IssuesAgree (history cs db)
unfolding history
history-IssuesAgree [] db h = h
history-IssuesAgree (c ∷ cs) db h =
    history-IssuesAgree cs _ (in_tx-Keeps IssuesAgree (run c) (run-Agrees c) db h)
