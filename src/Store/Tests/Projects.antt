-- ===== src/Store/Tests/Projects.antt =====
-- Runs of the operations on projects, and the theorems about them at these runs.
use velvet.Common.{◌∷◌, [], ◌≡◌, refl, none, some, true, false, All}
use velvet.Store.Db.{Project, ProjectStatus}
use velvet.Store.Tx.{err, duplicate}
use velvet.Store.Project.{CreateProjectInput, ProjectPatch, valid_project_key, create_project}
use velvet.Store.Project.Sound.{IsConsistent}
use velvet.Store.Project.Histories.{Call, history, history-IsConsistent}
use velvet.Store.Tests.{office, store}

good_key : valid_project_key "web-2" ≡ true
unfolding valid_project_key
good_key = refl

bad_key : valid_project_key "web-" ≡ false
unfolding valid_project_key
bad_key = refl

abbrev web : CreateProjectInput
web = record { workspace_id = 1; actor_id = 7; key = "web"; name = "Web"; description = "" }

abbrev unnamed : Project
unnamed = record {
  id = 0;
  workspace_id = 0;
  key = "";
  name = "";
  description = "";
  status = ProjectStatus.active;
  created_by = none;
  updated_at = 0;
  archived_at = none;
}

-- The key of the project of the office.
taken : create_project (record web { key = "api" }) office ≡ err duplicate
unfolding store create_project valid_project_key
taken = refl

abbrev archiving : ProjectPatch
archiving = record { name = none; description = none; status = some ProjectStatus.archived }

history-IsConsistent_example :
    All IsConsistent
      (history
        (Call.create web ∷ Call.create web ∷ Call.update 1 3 7 archiving ∷ [])
        office).projects
unfolding valid_project_key
history-IsConsistent_example =
    history-IsConsistent (Call.create web ∷ Call.create web ∷ Call.update 1 3 7 archiving ∷ [])
      office ((refl, refl), tt)
