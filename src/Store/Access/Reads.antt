-- ===== src/Store/Access/Reads.antt =====
-- The checks of workspace.go only read.
use velvet.Common.{ℕ, ◌≡◌, arith}
use velvet.Store.Db.{Db, Role}
use velvet.Store.Tx.{Tx, ok}
use velvet.Store.Tx.Steps.{IsRead, read_rules}
use velvet.Store.Access.{
  lock_workspace, lock_workspace_actor, lock_workspace_writer, lock_workspace_admin,
  check_workspace_member, retain_admin, forbid_missing,
}

forbid_missing_ok :
    {A : Type 0} (m : Tx A) (db : Db) {a : A} {db' : Db}
    → forbid_missing m db ≡ ok (a, db')
    → m db ≡ ok (a, db')
forbid_missing_ok m db h = ground arith

IsRead-forbid_missing : {A : Type 0} (m : Tx A) → IsRead m → IsRead (forbid_missing m)
IsRead-forbid_missing m r = record {
  same = λ db a db' h. r.same db a db' (forbid_missing_ok m db h);
}

pub IsRead-lock_workspace : (w : ℕ) → IsRead (lock_workspace w)
unfolding lock_workspace
IsRead-lock_workspace w = search read_rules

pub IsRead-lock_workspace_actor : (w a : ℕ) → IsRead (lock_workspace_actor w a)
unfolding lock_workspace_actor
IsRead-lock_workspace_actor w a = search (read_rules, IsRead-lock_workspace)

pub IsRead-lock_workspace_writer : (w a : ℕ) → IsRead (lock_workspace_writer w a)
unfolding lock_workspace_writer
IsRead-lock_workspace_writer w a =
    search (read_rules, IsRead-lock_workspace_actor, IsRead-forbid_missing)

pub IsRead-lock_workspace_admin : (w a : ℕ) → IsRead (lock_workspace_admin w a)
unfolding lock_workspace_admin
IsRead-lock_workspace_admin w a = search (read_rules, IsRead-lock_workspace_actor)

pub IsRead-check_workspace_member : (w u : ℕ) → IsRead (check_workspace_member w u)
unfolding check_workspace_member
IsRead-check_workspace_member w u = search read_rules

pub IsRead-retain_admin : (w : ℕ) (r : Role) → IsRead (retain_admin w r)
unfolding retain_admin
IsRead-retain_admin w r = search read_rules

pub ruleset access_reads = (
  IsRead-lock_workspace, IsRead-lock_workspace_actor, IsRead-lock_workspace_writer,
  IsRead-lock_workspace_admin, IsRead-check_workspace_member, IsRead-retain_admin,
)
