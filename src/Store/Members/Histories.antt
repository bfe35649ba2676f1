-- ===== src/Store/Members/Histories.antt =====
-- Sequences of calls that change the members of one workspace. A call that fails changes nothing
-- (`in_tx`).
use velvet.Common.{ℕ, ◌≤◌, ◌≡◌, refl, not, Bool, arith, List, [], ◌∷◌, select, update}
use velvet.Store.Db.{Db, Membership, Role}
use velvet.Store.Tx.{Tx, in_tx, ◌>>◌, pure}
use velvet.Store.Tx.Histories.{Keeps, in_tx-Keeps}
use velvet.Store.Tx.Steps.{bind_ok, pure_ok}
use velvet.Store.Access.{is_membership, leave_workspace, remove_workspace_membership}
use velvet.Store.Members.{is_row, update_workspace_membership_role}
use velvet.Store.Members.Counts.{count}
use velvet.Store.Members.Admins.{
  HasAdmin, leave_workspace-HasAdmin, remove_workspace_membership-HasAdmin,
  update_workspace_membership_role-HasAdmin, leave_workspace-ensures, remove-ensures, role-ensures,
}

pub data Call : Type 0 where
  leave : ℕ → Call
  remove : ℕ → ℕ → Call
  set_role : ℕ → ℕ → Role → Call

unfoldable pub run : ℕ → Call → Tx (Unit {0})
run w (leave actor) = leave_workspace w actor
run w (remove id actor) = remove_workspace_membership w id actor
run w (set_role id actor role) = update_workspace_membership_role w id actor role >> pure tt

unfoldable pub history : ℕ → List Call → Db → Db
unfolding run in_tx
history w [] db = db
history w (c ∷ cs) db = history w cs (in_tx (run w c) db).1

count-select : (p t : Membership → Bool) (ms : List Membership) → count p (select t ms) ≤ count p ms
count-select p t [] = omega arith
count-select p t (m ∷ ms) = ground (arith, count-select p t ms)

count-update_same :
    (p t : Membership → Bool) (f : Membership → Membership) (ms : List Membership)
    → ((m : Membership) → p (f m) ≡ p m)
    → count p (update t f ms) ≤ count p ms
count-update_same p t f [] k = omega arith
count-update_same p t f (m ∷ ms) k = ground (arith, k m, count-update_same p t f ms k)

-- The workspace has an administrator, one membership at most for each user, and one at most for each
-- id.
pub record IsManned (w : ℕ) (db : Db) : Type 0 where
  pub has_admin : HasAdmin w db
  pub of_user : (a : ℕ) → count (is_membership w a) db.memberships ≤ 1
  pub of_id : (id : ℕ) → count (is_row w id) db.memberships ≤ 1

-- The rows are those of before, less those that `t` names.
selected-IsManned :
    (w : ℕ) (t : Membership → Bool) (db db' : Db)
    → IsManned w db
    → db'.memberships ≡ select (λ m. not (t m)) db.memberships
    → HasAdmin w db'
    → IsManned w db'
selected-IsManned w t db db' h rows some_left = record {
  has_admin = some_left;
  of_user = λ a.
      let fewer = count-select (is_membership w a) (λ m. not (t m)) db.memberships in
      let one = h.of_user a in rw rows (omega arith);
  of_id = λ id.
      let fewer = count-select (is_row w id) (λ m. not (t m)) db.memberships in
      let one = h.of_id id in rw rows (omega arith);
}

role-IsManned :
    (w id : ℕ) (role : Role) (db db' : Db)
    → IsManned w db
    → db'.memberships ≡ update (is_row w id) (λ m. record m { role = role }) db.memberships
    → HasAdmin w db'
    → IsManned w db'
role-IsManned w id role db db' h rows some_left = record {
  has_admin = some_left;
  of_user = λ a.
      let fewer =
        count-update_same (is_membership w a) (is_row w id) (λ m. record m { role = role })
          db.memberships (λ m. refl) in
      let one = h.of_user a in rw rows (omega arith);
  of_id = λ i.
      let fewer =
        count-update_same (is_row w i) (is_row w id) (λ m. record m { role = role }) db.memberships
          (λ m. refl) in
      let one = h.of_id i in rw rows (omega arith);
}

run-Keeps : (w : ℕ) (c : Call) → Keeps (IsManned w) (run w c)
unfolding run
run-Keeps w (leave a) = record {
  at = λ db u db' e h.
      let (_, _, _, rows) = (leave_workspace-ensures w a db).at u db' e in
      selected-IsManned w (is_membership w a) db db' h rows
        (leave_workspace-HasAdmin w a db {u = u} e (h.of_user a) h.has_admin);
}
run-Keeps w (remove id a) = record {
  at = λ db u db' e h.
      let (_, (_, _, _, rows)) = (remove-ensures w id a db).at u db' e in
      selected-IsManned w (is_row w id) db db' h rows
        (remove_workspace_membership-HasAdmin w id a db {u = u} e (h.of_id id));
}
run-Keeps w (set_role id a role) = record {
  at = λ db u db' e h.
      let (out, mid, changed, last) =
        bind_ok (update_workspace_membership_role w id a role) _ db {b = u} {db' = db'} e in
      let (_, same) = pure_ok tt mid last in
      let (_, (_, _, _, rows)) = (role-ensures w id a role db).at out mid changed in
      rw same (
        role-IsManned w id role db mid h rows (
          update_workspace_membership_role-HasAdmin w id a role db {out = out} changed
            (h.of_id id)));
}

-- After any calls of LeaveWorkspace, RemoveWorkspaceMembership and UpdateWorkspaceMembershipRole for a
-- workspace, failed ones included, it has an administrator, one membership at most for each user, and
-- one at most for each id, if that was so before.
pub history-IsManned :
    (w : ℕ) (cs : List Call) (db : Db) → IsManned w db → IsManned w (history w cs db)
unfolding history
history-IsManned w [] db h = h
history-IsManned w (c ∷ cs) db h =
    history-IsManned w cs _ (in_tx-Keeps (IsManned w) (run w c) (run-Keeps w c) db h)
