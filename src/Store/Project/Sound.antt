-- ===== src/Store/Project/Sound.antt =====
-- Projects keep to the constraints of their table.
use velvet.Common.{
  ℕ, ◌≡◌, refl, sym, ◌∙◌, ap, some, Bool, true, false, arith, is_some, [], ◌∷◌, ◌++◌, All,
  All-append, All-update, All-find, find, update,
}
use velvet.Store.Db.{Db, Project, ProjectStatus, active, archived, Verb, TargetType}
use velvet.Store.Tx.{ok, ◌>>=◌, record_activity}
use velvet.Store.Tx.Ensures.{
  Ensures, Ensures-any, Ensures-read, Ensures-query_row, Ensures-reads, Ensures-require,
  Ensures-modify, Ensures-draw_uuid, Ensures-bind, Ensures-pure,
}
use velvet.Store.Access.Reads.{IsRead-lock_workspace_writer}
use velvet.Store.Issue.Update.{when}
use velvet.Store.Project.{
  CreateProjectInput, ProjectPatch, valid_project_key, create_project, is_archived, archive_time,
  is_project, update_project,
}

-- A project has a time of archiving exactly while it is archived, and its key has the right shape.
abbrev pub IsConsistent : Project → Type 0
IsConsistent p = (is_archived p.status ≡ is_some p.archived_at) × (valid_project_key p.key ≡ true)

projects_same :
    (w a : ℕ) (v : Verb) (t : TargetType) (i : ℕ) (db : Db) {u : Unit {0}} {db' : Db}
    → record_activity w a v t i db ≡ ok (u, db')
    → db'.projects ≡ db.projects
unfolding record_activity
projects_same w a v t i db h = ground arith

when_same :
    (c : Bool) (w a : ℕ) (v : Verb) (t : TargetType) (i : ℕ) (db : Db) {u : Unit {0}} {db' : Db}
    → when c (record_activity w a v t i) db ≡ ok (u, db')
    → db'.projects ≡ db.projects
unfolding ◌>>=◌
when_same true w a v t i db h = projects_same w a v t i db h
when_same false w a v t i db h = ground arith

create_project-ensures :
    (input : CreateProjectInput) (db : Db)
    → Ensures
        (create_project input)
        db
        (λ out db'. (db'.projects ≡ db.projects ++ out ∷ []) × IsConsistent out)
unfolding create_project
create_project-ensures input db = Ensures-read _ _ db (IsRead-lock_workspace_writer _ _) λ _ _.
    Ensures-require _ _ _ db λ valid. Ensures-reads _ _ db (
      Ensures-require _ _ _ db λ _. Ensures-draw_uuid _ db (
        Ensures-reads _ _ _ (
          Ensures-modify _ _ _ (
            Ensures-bind (λ _ d. d.projects ≡ _) _ _ _
              (Ensures-any _ _ λ _ db' e. projects_same _ _ _ _ _ _ e)
              (λ _ d same. Ensures-pure _ d (same, (refl, valid)))))))

-- A successful `create_project` keeps every project consistent.
pub create_project-IsConsistent :
    (input : CreateProjectInput) (db : Db) {out : Project} {db' : Db}
    → create_project input db ≡ ok (out, db')
    → All IsConsistent db.projects
    → All IsConsistent db'.projects
create_project-IsConsistent input db {out} {db'} h all =
    let (rows, good) = (create_project-ensures input db).at out db' h in
    simp rows (All-append IsConsistent db.projects (out ∷ []) all (good, tt))

update_project-ensures :
    (w id a : ℕ) (patch : ProjectPatch) (db : Db)
    → Ensures (update_project w id a patch) db (λ out db'.
      (before : Project) × (find (is_project w id) db.projects ≡ some before)
      × (db'.projects ≡ update (is_project w id) (λ _. out) db.projects)
      × (out.key ≡ before.key)
      × (out.archived_at ≡ archive_time out.status before.archived_at db.now))
unfolding update_project
update_project-ensures w id a patch db =
    Ensures-read _ _ db (IsRead-lock_workspace_writer _ _) λ _ _.
      Ensures-query_row _ _ db λ before found. Ensures-reads _ _ db (
        Ensures-modify _ _ db (
          Ensures-bind (λ _ d. d.projects ≡ _) _ _ _
            (Ensures-any _ _ λ _ db' e. when_same _ _ _ _ _ _ _ e)
            (λ _ d same. Ensures-pure _ d (before, found, same, refl, refl))))

is_some-archive_time :
    (s : ProjectStatus) (p : Project) (now : ℕ)
    → is_archived s ≡ is_some (archive_time s p.archived_at now)
is_some-archive_time active p now = refl
is_some-archive_time archived p now = refl

-- A successful `update_project` keeps every project consistent.
pub update_project-IsConsistent :
    (w id a : ℕ) (patch : ProjectPatch) (db : Db) {out : Project} {db' : Db}
    → update_project w id a patch db ≡ ok (out, db')
    → All IsConsistent db.projects
    → All IsConsistent db'.projects
update_project-IsConsistent w id a patch db {out} {db'} h all =
    let (before, found, rows, key, time) = (update_project-ensures w id a patch db).at out db' h in
    let good = All-find IsConsistent (is_project w id) db.projects found all in
    let good' : IsConsistent out = (
      is_some-archive_time out.status before db.now ∙ ap is_some (sym time),
      ap valid_project_key key ∙ good.1,
    ) in
    simp rows
      (All-update IsConsistent (is_project w id) (λ _. out) db.projects (λ _ _ _. good') all)
