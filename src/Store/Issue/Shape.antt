-- ===== src/Store/Issue/Shape.antt =====
-- The tables after a successful `create_issue` and a successful `update_issue`.
use velvet.Common.{
  ℕ, ◌≡◌, refl, ◌∙◌, ap, some, Bool, true, false, arith, get_or, find, update, [], ◌∷◌, ◌++◌,
}
use velvet.Store.Db.{Db, Issue, Verb, TargetType}
use velvet.Store.Tx.{Tx, ok, ◌>>=◌, record_activity}
use velvet.Store.Tx.Steps.{modify_ok}
use velvet.Store.Tx.Ensures.{
  Ensures, Ensures-any, Ensures-pure, Ensures-bind, Ensures-read, Ensures-query_row, Ensures-reads,
  Ensures-require, Ensures-modify, Ensures-draw_uuid,
}
use velvet.Store.Access.Reads.{IsRead-lock_workspace_writer}
use velvet.Store.Issue.{
  CreateIssueInput, IssuePatch, check_issue_references, reconcile_milestone_project, next_issue_key,
  next_issue_position, issue_depth_guard,
}
use velvet.Store.Issue.Create.{insert_issue, create_issue}
use velvet.Store.Issue.Update.{
  choose_position, is_issue, save_issue, when, milestone_chosen, update_issue,
}
use velvet.Store.Issue.Reads.{
  IsRead-check_issue_references, IsRead-reconcile_milestone_project, IsRead-choose_position,
  IsRead-next_issue_position, IsRead-issue_depth_guard,
}

-- Two states with the same tables but for the activities.
pub record SameTables (a b : Db) : Type 0 where
  pub issues : a.issues ≡ b.issues
  pub milestones : a.milestones ≡ b.milestones
  pub sprints : a.sprints ≡ b.sprints
  pub snapshots : a.snapshots ≡ b.snapshots

pub SameTables-record_activity :
    (w a : ℕ) (v : Verb) (t : TargetType) (i : ℕ) (db : Db) {u : Unit {0}} {db' : Db}
    → record_activity w a v t i db ≡ ok (u, db')
    → SameTables db' db
unfolding record_activity
SameTables-record_activity w a v t i db h = ground arith

SameTables-when :
    (c : Bool) (w a : ℕ) (v : Verb) (t : TargetType) (i : ℕ) (db : Db) {u : Unit {0}} {db' : Db}
    → when c (record_activity w a v t i) db ≡ ok (u, db')
    → SameTables db' db
SameTables-when true w a v t i db h = SameTables-record_activity w a v t i db h
SameTables-when false w a v t i db h = unfold ◌>>=◌ in ground arith

Ensures-when :
    {P : Issue → Db → Type 0} (c : Bool) (w a : ℕ) (v : Verb) (t : TargetType) (i : ℕ)
    (f : Unit {0} → Tx Issue) (db : Db)
    → ((mid : Db) → SameTables mid db → Ensures (f tt) mid P)
    → Ensures (when c (record_activity w a v t i) >>= f) db P
Ensures-when c w a v t i f db k =
    Ensures-bind (λ u mid. SameTables mid db) (when c (record_activity w a v t i)) f db
      (record { at = λ u mid h. SameTables-when c w a v t i db h }) (λ u mid s. k mid s)

save_issue-ensures :
    (w id : ℕ) (row : Issue) (db : Db)
    → Ensures (save_issue w id row) db (λ out db'.
      (out ≡ row)
      × (db' ≡ record db { issues = update (is_issue w id) (λ _. row) db.issues })
      × (issue_depth_guard id row.parent_id db ≡ ok (tt, db)))
unfolding save_issue
save_issue-ensures w id row db =
    Ensures-read _ _ db (IsRead-issue_depth_guard id row.parent_id) (λ _ guarded.
      Ensures-require _ _ _ db
        (λ _. Ensures-modify _ _ db (Ensures-pure row _ (refl, refl, guarded))))

-- What `update_issue` did: the row that it found is replaced, and its milestone and project are what
-- `reconcile_milestone_project` returned.
pub record Updated (w id : ℕ) (patch : IssuePatch) (db : Db) (before out : Issue) (db' : Db)
    : Type 0 where
  pub found : find (is_issue w id) db.issues ≡ some before
  pub issues : db'.issues ≡ update (is_issue w id) (λ _. out) db.issues
  pub milestones : db'.milestones ≡ db.milestones
  pub sprints : db'.sprints ≡ db.sprints
  pub snapshots : db'.snapshots ≡ db.snapshots
  pub checked :
      check_issue_references w
        (get_or patch.assignee_id before.assignee_id)
        (get_or patch.milestone_id before.milestone_id)
        (get_or patch.project_id before.project_id)
        (get_or patch.parent_id before.parent_id)
        db
      ≡ ok (tt, db)
  pub reconciled :
      reconcile_milestone_project w
        (get_or patch.milestone_id before.milestone_id)
        (get_or patch.project_id before.project_id)
        (milestone_chosen patch before)
        db
      ≡ ok ((out.milestone_id, out.project_id), db)
  pub positioned : choose_position w before out.milestone_id patch db ≡ ok (out.position, db)
  pub same_id : out.id ≡ before.id
  pub same_workspace : out.workspace_id ≡ before.workspace_id
  pub same_key : out.key ≡ before.key
  pub status : out.status ≡ get_or patch.status before.status
  pub assignee : out.assignee_id ≡ get_or patch.assignee_id before.assignee_id
  pub parent : out.parent_id ≡ get_or patch.parent_id before.parent_id
  pub guarded : issue_depth_guard id out.parent_id db ≡ ok (tt, db)

pub update_issue-ensures :
    (w id actor : ℕ) (patch : IssuePatch) (db : Db)
    → Ensures
        (update_issue w id actor patch)
        db
        (λ out db'. (before : Issue) × Updated w id patch db before out db')
unfolding update_issue
update_issue-ensures w id actor patch db =
    Ensures-read _ _ db (IsRead-lock_workspace_writer w actor) λ _ _.
      Ensures-query_row _ _ db λ before found.
        Ensures-read _ _ db (IsRead-check_issue_references w _ _ _ _) λ _ checked.
          Ensures-read _ _ db (IsRead-reconcile_milestone_project w _ _ _) λ refs reconciled.
            Ensures-read _ _ db (IsRead-choose_position w before refs.0 patch)
              λ position positioned. Ensures-reads _ _ db (
                Ensures-bind _ _ _ db (save_issue-ensures w id _ db)
                  λ out saved (same, state, guarded). rw same (
                    rw state (
                      Ensures-when _ w actor _ _ id _ _ λ s1 t1.
                        Ensures-when _ w actor _ _ id _ s1 λ s2 t2.
                          Ensures-when _ w actor _ _ id _ s2 λ s3 t3. Ensures-pure _ s3 (
                            before,
                            record {
                              found = found;
                              issues = t3.issues ∙ t2.issues ∙ t1.issues;
                              milestones = t3.milestones ∙ t2.milestones ∙ t1.milestones;
                              sprints = t3.sprints ∙ t2.sprints ∙ t1.sprints;
                              snapshots = t3.snapshots ∙ t2.snapshots ∙ t1.snapshots;
                              checked = checked;
                              reconciled = reconciled;
                              positioned = positioned;
                              same_id = refl;
                              same_workspace = refl;
                              same_key = refl;
                              status = refl;
                              assignee = refl;
                              parent = refl;
                              guarded = guarded;
                            },
                          ))))

-- What `create_issue` did: one row is added, with a drawn id and the next number of its workspace.
pub record Created (input : CreateIssueInput) (db : Db) (out : Issue) (db' : Db) : Type 0 where
  pub issues : db'.issues ≡ db.issues ++ out ∷ []
  pub milestones : db'.milestones ≡ db.milestones
  pub sprints : db'.sprints ≡ db.sprints
  pub snapshots : db'.snapshots ≡ db.snapshots
  pub reconciled :
      reconcile_milestone_project input.workspace_id input.milestone_id input.project_id true db
      ≡ ok ((out.milestone_id, out.project_id), db)
  pub positioned :
      (mid : Db) × (mid.issues ≡ db.issues)
      × (next_issue_position input.workspace_id out.milestone_id mid ≡ ok (out.position, mid))
  pub drawn_id : out.id ≡ db.uuid_at db.drawn
  pub in_workspace : out.workspace_id ≡ input.workspace_id
  pub assignee : out.assignee_id ≡ input.assignee_id
  pub parent : out.parent_id ≡ input.parent_id
  pub checked :
      check_issue_references input.workspace_id input.assignee_id input.milestone_id
        input.project_id input.parent_id db
      ≡ ok (tt, db)
  pub guarded :
      (mid : Db) × (mid.issues ≡ db.issues)
      × (issue_depth_guard out.id out.parent_id mid ≡ ok (tt, mid))

next_issue_key-ensures :
    (w : ℕ) (db : Db)
    → Ensures
        (next_issue_key w)
        db
        (λ key db'. SameTables db' db × (db'.uuid_at ≡ db.uuid_at) × (db'.drawn ≡ db.drawn))
unfolding next_issue_key
next_issue_key-ensures w db = Ensures-modify _ _ db (
    Ensures-query_row _ _ _ λ _ _.
      Ensures-pure _ _
        (record { issues = refl; milestones = refl; sprints = refl; snapshots = refl }, refl, refl))

pub insert_issue-ensures :
    (row : Issue) (db : Db)
    → Ensures (insert_issue row) db (λ _ db'.
      (db' ≡ record db { issues = db.issues ++ row ∷ [] })
      × (issue_depth_guard row.id row.parent_id db ≡ ok (tt, db)))
unfolding insert_issue
insert_issue-ensures row db =
    Ensures-read _ _ db (IsRead-issue_depth_guard row.id row.parent_id) λ _ guarded.
      Ensures-require _ _ _ db λ _.
        Ensures-reads _ _ db
          (Ensures-require _ _ _ db λ _. Ensures-any _ db λ _ db' e. (modify_ok _ db e, guarded))

pub create_issue-ensures :
    (input : CreateIssueInput) (db : Db) → Ensures (create_issue input) db (Created input db)
unfolding create_issue
create_issue-ensures input db = Ensures-read _ _ db (IsRead-lock_workspace_writer _ _) λ _ _.
    Ensures-read _ _ db (IsRead-check_issue_references _ _ _ _ _) λ _ checked.
      Ensures-read _ _ db (IsRead-reconcile_milestone_project _ _ _ _) λ refs reconciled.
        Ensures-bind _ _ _ db (next_issue_key-ensures _ db) λ key mid (same, uuids, drawn).
          Ensures-read _ _ mid (IsRead-next_issue_position _ _) λ position positioned.
            Ensures-draw_uuid _ mid (
              Ensures-reads _ _ _ (
                Ensures-bind _ _ _ _ (insert_issue-ensures _ _) λ _ saved (state, guarded).
                  Ensures-bind _ _ _ saved
                    (Ensures-any _ saved (λ _ db' e. SameTables-record_activity _ _ _ _ _ saved e))
                    λ _ after tables. Ensures-pure _ after (record {
                      issues = tables.issues ∙ ap (λ (d : Db). d.issues) state ∙ (rw same.issues);
                      milestones =
                          tables.milestones ∙ ap (λ (d : Db). d.milestones) state ∙ same.milestones;
                      sprints = tables.sprints ∙ ap (λ (d : Db). d.sprints) state ∙ same.sprints;
                      snapshots =
                          tables.snapshots ∙ ap (λ (d : Db). d.snapshots) state ∙ same.snapshots;
                      reconciled = reconciled;
                      positioned = (mid, same.issues, positioned);
                      drawn_id = rw (uuids, drawn);
                      in_workspace = refl;
                      assignee = refl;
                      parent = refl;
                      checked = checked;
                      guarded = (_, same.issues, guarded);
                    })))
