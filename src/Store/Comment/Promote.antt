-- ===== src/Store/Comment/Promote.antt =====
-- An entry of the log of a project that becomes an issue.
use Prim.Native.String.{String, ◌++◌ as joined_with}
use velvet.Common.{ℕ, ◌≡◌, refl, ap, ◌∙◌, some, true, List, [], ◌∷◌, ◌++◌, find, update}
use velvet.Store.Db.{Db, Issue, IssueKey, Comment}
use velvet.Store.Tx.{ok}
use velvet.Store.Tx.Ensures.{
  Ensures, Ensures-bind, Ensures-pure, Ensures-read, Ensures-reads, Ensures-require,
  Ensures-query_row, Ensures-modify, Ensures-draw_uuid, Ensures-record_activity,
}
use velvet.Store.Access.Reads.{IsRead-lock_workspace_writer}
use velvet.Store.Issue.{next_issue_key}
use velvet.Store.Issue.Reads.{IsRead-next_issue_position}
use velvet.Store.Issue.Shape.{insert_issue-ensures}
use velvet.Store.Library.{Library}
use velvet.Store.Comment
use velvet.Store.Comment.{is_comment, is_live_comment, is_project_target}

-- The text that is added to the entry names the issue.
abbrev pub picked_up : Library → IssueKey → Comment → Comment
picked_up lib key c = record c {
  body = joined_with c.body (joined_with "\n\nPromoted to " (Comment.key_text lib key));
}

-- What a promotion did.
pub record Promoted (lib : Library) (workspace_id comment_id : ℕ) (title : String) (db : Db)
    (out : Issue) (db' : Db) : Type 0 where
  -- the entry was live, and on a project
  pub entry : Comment
  pub found : find (is_live_comment workspace_id comment_id) db.comments ≡ some entry
  pub logged : is_project_target entry.target_type ≡ true
  -- the new issue is of the project, and carries the text
  pub issues : db'.issues ≡ db.issues ++ out ∷ []
  pub titled : out.title ≡ title
  pub carried : out.description ≡ entry.body
  pub filed : out.project_id ≡ some entry.target_id
  pub place : out.workspace_id ≡ workspace_id
  -- every comment stays, and the entry names the issue
  pub comments :
      db'.comments ≡ update (is_comment workspace_id comment_id) (picked_up lib out.key) db.comments

next_issue_key-comments :
    (w : ℕ) (db : Db)
    → Ensures
        (next_issue_key w)
        db
        (λ _ mid. (mid.comments ≡ db.comments) × (mid.issues ≡ db.issues))
unfolding next_issue_key
next_issue_key-comments w db =
    Ensures-modify _ _ db (Ensures-query_row _ _ _ λ _ _. Ensures-pure _ _ (refl, refl))

append_row : {xs ys : List Issue} (row : Issue) → xs ≡ ys → xs ++ row ∷ [] ≡ ys ++ row ∷ []
append_row row e = ap (λ is. is ++ row ∷ []) e

promotion :
    (lib : Library) (workspace_id comment_id actor_id : ℕ) (title : String) (db : Db)
    → Ensures
        (Comment.promote_comment_to_issue lib workspace_id comment_id actor_id title)
        db
        (Promoted lib workspace_id comment_id title db)
unfolding Comment.promote_comment_to_issue
promotion lib workspace_id comment_id actor_id title db =
    Ensures-read _ _ db (IsRead-lock_workspace_writer _ _) λ _ _.
      Ensures-query_row _ _ db λ entry found. Ensures-require _ _ _ db λ logged.
        Ensures-bind _ _ _ db (next_issue_key-comments workspace_id db) λ key mid same.
          Ensures-read _ _ mid (IsRead-next_issue_position _ _) λ position _.
            Ensures-draw_uuid _ mid (
              Ensures-reads _ _ _ (
                Ensures-bind _ _ _ _ (insert_issue-ensures _ _) λ _ saved written.
                  Ensures-modify _ _ saved (
                    Ensures-record_activity _ _ _ _ _ _ _ λ log. Ensures-pure _ _ (record {
                      entry = entry;
                      found = found;
                      logged = logged;
                      issues = ap (λ (d : Db). d.issues) written.0 ∙ append_row _ same.1;
                      titled = refl;
                      carried = refl;
                      filed = refl;
                      place = refl;
                      comments =
                          ap
                            (λ (d : Db).
                              update (is_comment workspace_id comment_id) (picked_up lib key)
                                d.comments)
                            written.0
                          ∙ ap (update (is_comment workspace_id comment_id) (picked_up lib key))
                              same.0;
                    }))))

-- A successful `PromoteCommentToIssue` finds an entry on a project that is not deleted, adds one issue
-- to that project with the title and the text of the entry, and keeps every comment as it is, but that
-- the text of the entry then names the issue.
pub promote_comment_to_issue-Promoted :
    (lib : Library) (workspace_id comment_id actor_id : ℕ) (title : String) (db : Db) {out : Issue}
    {db' : Db}
    → Comment.promote_comment_to_issue lib workspace_id comment_id actor_id title db ≡ ok (out, db')
    → Promoted lib workspace_id comment_id title db out db'
promote_comment_to_issue-Promoted lib workspace_id comment_id actor_id title db {out} {db'} h =
    (promotion lib workspace_id comment_id actor_id title db).at out db' h
