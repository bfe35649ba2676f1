-- ===== src/Store/Tests/Members.antt =====
-- Runs of the operations on members, and the theorems about them at these runs.
use velvet.Common.{List, length, true, ◌≡◌, refl, arith, [], ◌∷◌}
use velvet.Store.Access
use velvet.Store.Db.{Db, Membership, admin, member, Workspace}
use velvet.Store.Tx.{err, last_admin}
use velvet.Store.Access.{lock_workspace_admin, retain_admin, leave_workspace}
use velvet.Store.Members.{create_workspace, update_workspace_name, update_workspace_membership_role}
use velvet.Store.Members.Histories.{Call, history, IsManned, history-IsManned}
use velvet.Store.Tests.{office, value_of, store}

abbrev second : Membership
second = record { id = 6; workspace_id = 1; user_id = 8; role = member }

-- The office with a second member.
abbrev team : Db
team = record office {
  memberships = (record second { id = 5; user_id = 7; role = admin }) ∷ second ∷ [];
}

stuck : leave_workspace 1 7 team ≡ err last_admin
unfolding store leave_workspace retain_admin
stuck = refl

team-IsManned : IsManned 1 team
unfolding store
team-IsManned = record {
  has_admin = omega arith;
  of_user = λ a. ground arith;
  of_id = λ id. ground arith;
}

abbrev calls : List Call
calls = Call.leave 7 ∷ Call.set_role 6 7 admin ∷ Call.leave 7 ∷ Call.remove 6 8 ∷ []

history-IsManned_example : IsManned 1 (history 1 calls team)
history-IsManned_example = history-IsManned 1 calls team team-IsManned

-- The second and the third of the calls succeed.
one_left : length (history 1 calls team).memberships ≡ 1
unfolding store history Access.remove_workspace_membership lock_workspace_admin leave_workspace
    update_workspace_membership_role retain_admin
one_left = refl

-- The founder of a workspace is its administrator.
founded : (value_of (create_workspace 9 "New" "new" "NEW" office) second).role ≡ admin
unfolding store create_workspace
founded = refl

abbrev unnamed : Workspace
unnamed = record {
  id = 0;
  name = "";
  slug = "";
  issue_prefix = "";
  issue_counter = 0;
  jev_suggestions = true;
}

renamed : (value_of (update_workspace_name 1 7 "Acme Ltd" office) unnamed).name ≡ "Acme Ltd"
unfolding store update_workspace_name lock_workspace_admin
renamed = refl
