-- ===== src/Store/Members/Admins.antt =====
-- A workspace keeps an administrator.
use velvet.Common.{
  ℕ, ◌≤◌, ◌≡◌, ◌==◌, refl, ap, subst, Bool, true, false, not, ◌&&◌, ◌||◌, arith, length, find,
  find_test, ◌∙◌, select, update, some, none, leb, Bool-cases, Option-cases, some_injective, inl,
  inr,
}
use velvet.Store.Members.Counts.{count-remove, count-update, few, count-some, count-kept}
use velvet.Store.Db.{Db, Membership, Role, Verb, TargetType}
use velvet.Store.Members.{is_row, update_workspace_membership_role}
use velvet.Store.Issue.Update.{when}
use velvet.Store.Tx.{Tx, ok, ◌>>=◌, record_activity}
use velvet.Store.Tx.Ensures.{
  Ensures, Ensures-any, Ensures-read, Ensures-query_row, Ensures-modify, Ensures-bind, Ensures-pure,
}
use velvet.Store.Tx.Steps.{bind_ok, query_row_ok, require_ok, IsRead, read_rules}
use velvet.Store.Access.{
  is_membership, is_admin, admins, role_of, lock_workspace, lock_workspace_actor,
  lock_workspace_admin, retain_admin, leave_workspace, remove_workspace_membership,
}
use velvet.Store.Access.Reads.{
  IsRead-lock_workspace, IsRead-lock_workspace_actor, IsRead-lock_workspace_admin,
  IsRead-retain_admin,
}

abbrev pub is_admin_of : ℕ → Membership → Bool
is_admin_of w m = m.workspace_id == w && is_admin m.role

abbrev pub HasAdmin : ℕ → Db → Type 0
HasAdmin w db = 1 ≤ admins w db.memberships

role_row :
    (w a : ℕ) (db : Db) {role : Role}
    → role_of db w a ≡ some role
    → (m : Membership) × (find (is_membership w a) db.memberships ≡ some m) × (m.role ≡ role)
role_row w a db {role} h = elim (Option-cases (find (is_membership w a) db.memberships)) [
  | inl e ↦ let wrong : none ≡ some role = rw (role_of, e) at h in cc
  | inr (m, e) ↦
      let same : some m.role ≡ some role = rw (role_of, e) at h in (m, e, some_injective same)
]

actor_role :
    (w a : ℕ) (db : Db) {role : Role} {db' : Db}
    → lock_workspace_actor w a db ≡ ok (role, db')
    → role_of db w a ≡ some role
unfolding lock_workspace_actor
actor_role w a db {role} {db'} h =
    let (u, mid, locked, read) = bind_ok (lock_workspace w) _ db {b = role} {db' = db'} h in
    let (found, _) = query_row_ok (λ d. role_of d w a) mid read in
    subst (λ d. role_of d w a ≡ some role) ((IsRead-lock_workspace w).same db u mid locked) found

retained :
    (w : ℕ) (role : Role) (db : Db) {u : Unit {0}} {db' : Db}
    → retain_admin w role db ≡ ok (u, db')
    → (not (is_admin role) || not (leb (admins w db.memberships) 1)) ≡ true
unfolding retain_admin ◌>>=◌
retained w role db h = ground arith

-- What `leave_workspace` did.
abbrev Left : ℕ → ℕ → Db → Db → Type 0
Left w a db db' =
    (role : Role) × (role_of db w a ≡ some role)
    × ((not (is_admin role) || not (leb (admins w db.memberships) 1)) ≡ true)
    × (db'.memberships ≡ select (λ m. not (is_membership w a m)) db.memberships)

memberships_same :
    (w a : ℕ) (v : Verb) (t : TargetType) (i : ℕ) (db : Db) {u : Unit {0}} {db' : Db}
    → record_activity w a v t i db ≡ ok (u, db')
    → db'.memberships ≡ db.memberships
unfolding record_activity
memberships_same w a v t i db h = ground arith

pub leave_workspace-ensures :
    (w a : ℕ) (db : Db) → Ensures (leave_workspace w a) db (λ _ db'. Left w a db db')
unfolding leave_workspace
leave_workspace-ensures w a db =
    Ensures-read _ _ db (IsRead-lock_workspace_actor w a) λ role locked.
      Ensures-read _ _ db (IsRead-retain_admin w role) λ _ kept.
        Ensures-query_row _ _ db λ row found. Ensures-modify _ _ db (
          Ensures-any _ _ λ _ db' e. (
            role,
            actor_role w a db locked,
            retained w role db kept,
            memberships_same _ _ _ _ _ _ e,
          ))

-- After a successful `leave_workspace` the workspace has an administrator if it had one before and
-- the actor had one membership of it at most.
pub leave_workspace-HasAdmin :
    (w a : ℕ) (db : Db) {u : Unit {0}} {db' : Db}
    → leave_workspace w a db ≡ ok (u, db')
    → length (select (is_membership w a) db.memberships) ≤ 1
    → HasAdmin w db
    → HasAdmin w db'
leave_workspace-HasAdmin w a db {u} {db'} h one before =
    let (role, actor, kept, rows) = (leave_workspace-ensures w a db).at u db' h in
    let (m, found, same) = role_row w a db actor in
    let role_same : is_admin m.role ≡ is_admin role = ap is_admin same in
    let kept' : (not (is_admin_of w m) || not (leb (admins w db.memberships) 1)) ≡ true =
      ground arith in
    let enough = few (is_admin_of w) (is_membership w a) db.memberships found one kept' before in
    let left = count-remove (is_admin_of w) (is_membership w a) db.memberships in
    simp rows (omega arith)

admin_there :
    (w a : ℕ) (db : Db) {u : Unit {0}} {db' : Db}
    → lock_workspace_admin w a db ≡ ok (u, db')
    → HasAdmin w db
unfolding lock_workspace_admin
admin_there w a db {u} {db'} h =
    let (role, mid, locked, checked) =
      bind_ok (lock_workspace_actor w a) _ db {b = u} {db' = db'} h in
    let (positive, _) = require_ok (is_admin role) _ mid checked in
    let (m, found, same) = role_row w a db (actor_role w a db locked) in
    let test = find_test (is_membership w a) db.memberships found in
    let positive' : is_admin m.role ≡ true = ap is_admin same ∙ positive in
    count-some (is_admin_of w) (is_membership w a) db.memberships found (ground arith)

kept_of :
    (w : ℕ) (row : Membership) (n : ℕ)
    → (not (is_admin row.role) || not (leb n 1)) ≡ true
    → (not (is_admin_of w row) || not (leb n 1)) ≡ true
kept_of w row n h = ground arith

pub remove-ensures :
    (w id a : ℕ) (db : Db)
    → Ensures (remove_workspace_membership w id a) db (λ _ db'.
      HasAdmin w db
      × ((row : Membership) × (find (is_row w id) db.memberships ≡ some row)
          × ((not (is_admin row.role) || not (leb (admins w db.memberships) 1)) ≡ true)
          × (db'.memberships ≡ select (λ m. not (is_row w id m)) db.memberships)))
unfolding remove_workspace_membership
remove-ensures w id a db = Ensures-read _ _ db (IsRead-lock_workspace_admin w a) λ _ locked.
    Ensures-query_row _ _ db λ row found.
      Ensures-read _ _ db (IsRead-retain_admin w row.role) λ _ kept. Ensures-modify _ _ db (
        Ensures-any _ _ λ _ db' e. (
          admin_there w a db locked,
          (row, found, retained w row.role db kept, memberships_same _ _ _ _ _ _ e),
        ))

-- After a successful `remove_workspace_membership` the workspace has an administrator if one
-- membership at most had the id.
pub remove_workspace_membership-HasAdmin :
    (w id a : ℕ) (db : Db) {u : Unit {0}} {db' : Db}
    → remove_workspace_membership w id a db ≡ ok (u, db')
    → length (select (is_row w id) db.memberships) ≤ 1
    → HasAdmin w db'
remove_workspace_membership-HasAdmin w id a db {u} {db'} h one =
    let (before, (row, found, kept, rows)) = (remove-ensures w id a db).at u db' h in
    let enough =
      few (is_admin_of w) (is_row w id) db.memberships found one (kept_of w row _ kept) before in
    let left = count-remove (is_admin_of w) (is_row w id) db.memberships in simp rows (omega arith)

IsRead-when : (c : Bool) (m : Tx (Unit {0})) → IsRead m → IsRead (when c m)
IsRead-when true m r = r
IsRead-when false m r = search read_rules

when_retained :
    (c : Bool) (w : ℕ) (role : Role) (db : Db) {u : Unit {0}} {db' : Db}
    → when c (retain_admin w role) db ≡ ok (u, db')
    → (not c || (not (is_admin role) || not (leb (admins w db.memberships) 1))) ≡ true
when_retained true w role db h = retained w role db h
when_retained false w role db h = refl

when_same :
    (c : Bool) (w a : ℕ) (v : Verb) (t : TargetType) (i : ℕ) (db : Db) {u : Unit {0}} {db' : Db}
    → when c (record_activity w a v t i) db ≡ ok (u, db')
    → db'.memberships ≡ db.memberships
unfolding ◌>>=◌
when_same true w a v t i db h = memberships_same w a v t i db h
when_same false w a v t i db h = ground arith

pub role-ensures :
    (w id a : ℕ) (role : Role) (db : Db)
    → Ensures (update_workspace_membership_role w id a role) db (λ _ db'.
      HasAdmin w db
      × ((row : Membership) × (find (is_row w id) db.memberships ≡ some row)
          × ((is_admin role || (not (is_admin row.role) || not (leb (admins w db.memberships) 1)))
              ≡ true)
          × (db'.memberships
              ≡ update (is_row w id) (λ m. record m { role = role }) db.memberships)))
unfolding update_workspace_membership_role
role-ensures w id a role db = Ensures-read _ _ db (IsRead-lock_workspace_admin w a) λ _ locked.
    Ensures-query_row _ _ db λ row found.
      Ensures-read _ _ db (IsRead-when _ _ (IsRead-retain_admin w row.role)) λ _ kept.
        Ensures-modify _ _ db (
          Ensures-query_row _ _ _ λ out _.
            Ensures-bind (λ _ d. d.memberships ≡ _) _ _ _
              (Ensures-any _ _ λ _ db' e. when_same _ _ _ _ _ _ _ e)
              (λ _ d same. Ensures-pure _ d (
                admin_there w a db locked,
                (row, found, (let k = when_retained _ w row.role db kept in ground arith), same),
              )))

-- After a successful `update_workspace_membership_role` the workspace has an administrator if one
-- membership at most had the id.
pub update_workspace_membership_role-HasAdmin :
    (w id a : ℕ) (role : Role) (db : Db) {out : Membership} {db' : Db}
    → update_workspace_membership_role w id a role db ≡ ok (out, db')
    → length (select (is_row w id) db.memberships) ≤ 1
    → HasAdmin w db'
update_workspace_membership_role-HasAdmin w id a role db {out} {db'} h one =
    let (before, (row, found, kept, rows)) = (role-ensures w id a role db).at out db' h in
    elim (Bool-cases (is_admin role)) [
      | inl y ↦
          let more =
            count-kept (is_admin_of w) (is_row w id) (λ m. record m { role = role }) db.memberships
              (λ m k. ground arith) in
          simp rows (omega arith)
      | inr n ↦
          let kept' : (not (is_admin row.role) || not (leb (admins w db.memberships) 1)) ≡ true =
            ground arith in
          let enough =
            few (is_admin_of w) (is_row w id) db.memberships found one (kept_of w row _ kept')
              before in
          let left =
            count-update (is_admin_of w) (is_row w id) (λ m. record m { role = role })
              db.memberships in
          simp rows (omega arith)
    ]
