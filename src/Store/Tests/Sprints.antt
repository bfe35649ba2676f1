-- ===== src/Store/Tests/Sprints.antt =====
-- Runs of the operations on sprints, and the theorems about them at these runs.
use Prim.Native.String.{String}
use velvet.Common.{some, ◌≡◌, refl, Bool, true, [], ◌∷◌, any}
use velvet.Store.Db.{Db, upcoming, in_progress, done}
use velvet.Store.Sprint.{is_active}
use velvet.Store.Sprint.Close.{close_sprint, activate_sprint}
use velvet.Store.Sprint.Single.{OneActive, activate_sprint-OneActive}
use velvet.Store.Sprint.Report.{report, reported, close_sprint-report}
use velvet.Store.Sprint.Reads
use velvet.Store.Sprint.Reads.{list_sprints}
use velvet.Store.Tests.{sprint, issue, office, state_of, value_of, store}

activate_sprint-OneActive_example :
    OneActive (state_of (activate_sprint 1 11 7 office) office).sprints
    × (is_active (value_of (activate_sprint 1 11 7 office) (sprint 0 upcoming)).state ≡ true)
unfolding store
activate_sprint-OneActive_example =
    activate_sprint-OneActive 1 11 7 office
      {out = value_of (activate_sprint 1 11 7 office) (sprint 0 upcoming)} refl
      ((refl, (refl, tt)), ((refl, (refl, tt)), tt))

-- The open issue is carried into a new milestone of the next sprint, and the finished one stays.
carried_over :
    (state_of (close_sprint 1 10 7 office) office).issues
    ≡ (record (issue 30 in_progress) { milestone_id = some 1000; updated_at = 50 })
      ∷ issue 31 done
      ∷ []
unfolding store
carried_over = refl

close_sprint-report_example :
    report (state_of (close_sprint 1 10 7 office) office) 10 ≡ reported office 1 10 10
unfolding store
close_sprint-report_example =
    close_sprint-report 1 10 7 office
      {out = value_of (close_sprint 1 10 7 office) (sprint 0 upcoming)} refl 10

-- The office after sprint 11 took the place of sprint 10.
abbrev office_11 : Db
office_11 = state_of (activate_sprint 1 11 7 office) office

-- Names are not compared here.

abbrev by_first : String → String → Bool
by_first s t = true

lists_the_active_one : any (λ s. is_active s.state) (list_sprints by_first 1 (some 3) office) ≡ true
unfolding list_sprints Reads.sort_sprints Reads.insert_sprint
lists_the_active_one = refl
