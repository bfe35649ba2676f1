-- ===== src/Store/Project/Histories.antt =====
-- Sequences of calls that make and change projects. A call that fails changes nothing (`in_tx`).
use velvet.Common.{ℕ, List, [], ◌∷◌, All}
use velvet.Store.Db.{Db, Project}
use velvet.Store.Tx.{Tx, in_tx}
use velvet.Store.Tx.Histories.{Keeps, in_tx-Keeps}
use velvet.Store.Project.{CreateProjectInput, ProjectPatch, create_project, update_project}
use velvet.Store.Project.Sound.{
  IsConsistent, create_project-IsConsistent, update_project-IsConsistent,
}

pub data Call : Type 0 where
  create : CreateProjectInput → Call
  update : ℕ → ℕ → ℕ → ProjectPatch → Call

unfoldable pub run : Call → Tx Project
run (create input) = create_project input
run (update workspace_id id actor_id patch) = update_project workspace_id id actor_id patch

unfoldable pub history : List Call → Db → Db
unfolding run in_tx
history [] db = db
history (c ∷ cs) db = history cs (in_tx (run c) db).1

abbrev AllConsistent : Db → Type 0
AllConsistent db = All IsConsistent db.projects

run-Keeps : (c : Call) → Keeps AllConsistent (run c)
unfolding run
run-Keeps (create input) = record {
  at = λ db out db' h all. create_project-IsConsistent input db h all;
}
run-Keeps (update w id actor patch) = record {
  at = λ db out db' h all. update_project-IsConsistent w id actor patch db h all;
}

-- After any calls of CreateProject and UpdateProject, failed ones included, every project has a time of
-- archiving exactly while it is archived, and a key of the right shape, if that was so before.
pub history-IsConsistent :
    (cs : List Call) (db : Db)
    → All IsConsistent db.projects
    → All IsConsistent (history cs db).projects
unfolding history
history-IsConsistent [] db h = h
history-IsConsistent (c ∷ cs) db h =
    history-IsConsistent cs _ (in_tx-Keeps AllConsistent (run c) (run-Keeps c) db h)
