-- ===== src/Store/Comment/Nesting.antt =====
-- Replies are nested one level deep, under a comment on the same target.
use velvet.Common.{
  ℕ, ◌≡◌, refl, sym, ap, subst, ◌∙◌, Option, none, some, Bool, true, false, not, ◌&&◌, List, [],
  ◌∷◌, ◌++◌, ◌==◌, arith, any, is_some, All, All-map, All-append,
}
use velvet.Store.Db.{Db, Comment, CommentTarget}
use velvet.Store.Tx.{ok}
use velvet.Store.Tx.Steps.{
  IsRead, IsRead-bind, IsRead-reads, IsRead-require, IsRead-pure, modify_ok, require_ok,
}
use velvet.Store.Tx.Ensures.{
  Ensures, Ensures-any, Ensures-bind, Ensures-pure, Ensures-throw, Ensures-read, Ensures-reads,
  Ensures-require, Ensures-draw_uuid, Ensures-record_activity,
}
use velvet.Store.Access.Reads.{IsRead-lock_workspace_writer}
use velvet.Store.Library.{Library}
use velvet.Store.Comment
use velvet.Store.Comment.{CreateCommentInput, is_on, is_reply}
use velvet.Store.Comment.Mentions

-- A comment that others may answer: it is no reply, and is on the target.
abbrev pub can_be_answered : Comment → ℕ → Comment → Bool
can_be_answered c parent d =
    d.id == parent
    && (not (is_some d.parent_id) && is_on c.workspace_id c.target_type c.target_id d)

abbrev pub is_placed : Option ℕ → Comment → List Comment → Bool
is_placed none c cs = true
is_placed (some parent) c cs = any (can_be_answered c parent) cs

-- What a comment answers, if anything, is a comment on the same target that answers none.
abbrev pub IsThreaded : List Comment → Type 0
IsThreaded cs = All (λ c. is_placed c.parent_id c cs ≡ true) cs

any-append :
    (p : Comment → Bool) (cs : List Comment) (row : Comment)
    → any p cs ≡ true
    → any p (cs ++ row ∷ []) ≡ true
any-append p [] row h = cc
any-append p (c ∷ cs) row h = let rest = any-append p cs row in ground (arith, any-append p cs row)

is_placed-append :
    (parent : Option ℕ) (c : Comment) (cs : List Comment) (row : Comment)
    → is_placed parent c cs ≡ true
    → is_placed parent c (cs ++ row ∷ []) ≡ true
is_placed-append none c cs row h = refl
is_placed-append (some parent) c cs row h = any-append (can_be_answered c parent) cs row h

IsThreaded-append :
    (cs : List Comment) (row : Comment)
    → IsThreaded cs
    → is_placed row.parent_id row cs ≡ true
    → IsThreaded (cs ++ row ∷ [])
IsThreaded-append cs row h placed =
    All-append _ cs (row ∷ []) (All-map _ _ cs (λ c k. is_placed-append c.parent_id c cs row k) h)
      (is_placed-append row.parent_id row cs row placed, tt)

on_target : ℕ → CommentTarget → ℕ → Option ℕ → List Comment → Bool
on_target w t target none cs = true
on_target w t target (some parent) cs =
    any (λ (c : Comment). c.id == parent && is_on w t target c) cs

placed_by_checks :
    (parent : Option ℕ) (c : Comment) (cs : List Comment)
    → on_target c.workspace_id c.target_type c.target_id parent cs ≡ true
    → any (is_reply parent) cs ≡ false
    → is_placed parent c cs ≡ true
unfolding on_target
placed_by_checks none c cs h k = refl
placed_by_checks (some parent) c [] h k = cc
placed_by_checks (some parent) c (d ∷ ds) h k = ground (arith, placed_by_checks (some parent) c ds)

check_parent-ensures :
    (w : ℕ) (t : CommentTarget) (target : ℕ) (parent : Option ℕ) (db : Db)
    → Ensures
        (Comment.check_parent w t target parent)
        db
        (λ _ mid. (mid ≡ db) × (on_target w t target parent db.comments ≡ true))
unfolding on_target
check_parent-ensures w t target none db = Ensures-pure _ db (refl, refl)
check_parent-ensures w t target (some parent) db =
    Ensures-reads _ _ db
      (Ensures-any _ db λ u db' h. let (t, same) = require_ok _ _ db {db' = db'} h in (same, t))

IsRead-check_comment_target :
    (w : ℕ) (t : Option CommentTarget) (id : ℕ) → IsRead (Comment.check_comment_target w t id)
unfolding Comment.check_comment_target
IsRead-check_comment_target w none id = record {
  same = λ db a db' h. (Ensures-throw {P = λ _ x. x ≡ db} _ db).at a db' h;
}
IsRead-check_comment_target w (some t) id =
    IsRead-bind _ _ (IsRead-reads _) λ _. IsRead-bind _ _ (IsRead-require _ _) λ _. IsRead-pure _

insert_comment-ensures :
    (row : Comment) (db : Db)
    → Ensures (Comment.insert_comment row) db (λ _ db'.
      (any (is_reply row.parent_id) db.comments ≡ false)
      × (db' ≡ record db { comments = db.comments ++ row ∷ [] }))
unfolding Comment.insert_comment Comment.comment_depth_guard
insert_comment-ensures row db =
    Ensures-bind (λ _ mid. (any (is_reply row.parent_id) db.comments ≡ false) × (mid ≡ db)) _ _ db
      (Ensures-reads _ _ db (
        Ensures-any _ db
          λ _ db' h. let (t, same) = require_ok _ _ db {db' = db'} h in (ground arith, same)))
      λ _ mid q. rw q.1 (
        Ensures-reads _ _ db
          (Ensures-require _ _ _ db λ _. Ensures-any _ db λ _ _ h. (q.0, modify_ok _ db h)))

sync-comments :
    (lib : Library) (w id : ℕ) (body : _) (db : Db)
    → Ensures
        (Mentions.sync_comment_mentions lib w id body)
        db
        (λ _ db'. db'.comments ≡ db.comments)
unfolding Mentions.sync_comment_mentions
sync-comments lib w id body db =
    Ensures-any _ db λ _ _ h. ap (λ (d : Db). d.comments) (modify_ok _ db h)

record Written (db db' : Db) : Type 0 where
  row : Comment
  placed : is_placed row.parent_id row db.comments ≡ true
  state : db'.comments ≡ db.comments ++ row ∷ []

create_comment-Written :
    (lib : Library) (input : CreateCommentInput) (db : Db)
    → Ensures (Comment.create_comment lib input) db (λ _ db'. Written db db')
unfolding Comment.create_comment
create_comment-Written lib input db = Ensures-read _ _ db (IsRead-lock_workspace_writer _ _) λ _ _.
    Ensures-read _ _ db (IsRead-check_comment_target _ _ _) λ t _.
      Ensures-bind _ _ _ db
        (check_parent-ensures input.workspace_id t input.target_id input.parent_id db)
        λ _ checked q. rw q.0 (
          Ensures-draw_uuid _ db (
            Ensures-reads _ _ _ (
              Ensures-bind _ _ _ _ (insert_comment-ensures _ _) λ _ inserted r.
                Ensures-record_activity _ _ _ _ _ _ inserted λ log.
                  Ensures-bind _ _ _ _ (sync-comments lib _ _ _ _) λ _ after e.
                    Ensures-pure _ after (record {
                      row = _;
                      placed = placed_by_checks input.parent_id _ db.comments q.1 r.0;
                      state = e ∙ ap (λ (d : Db). d.comments) r.1;
                    }))))

-- A successful `CreateComment` keeps replies one level deep, under a comment on the same target.
pub create_comment-IsThreaded :
    (lib : Library) (input : CreateCommentInput) (db : Db) {out : Comment} {db' : Db}
    → Comment.create_comment lib input db ≡ ok (out, db')
    → IsThreaded db.comments
    → IsThreaded db'.comments
create_comment-IsThreaded lib input db {out} {db'} h threaded =
    let w = (create_comment-Written lib input db).at out db' h in
    subst IsThreaded (sym w.state) (IsThreaded-append db.comments w.row threaded w.placed)
