-- ===== src/Store/Tests/Comments.antt =====
-- Runs of the comments, and the theorems about them at these runs.
use velvet.Common.{ℕ, ◌≡◌, refl, Option, none, some, Bool, true, [], ◌∷◌, any, select}
use velvet.Store.Db.{Issue, todo, Db, CommentTarget, CommentSource, Comment as Row}
use velvet.Store.Tx.{ok, Result, err, invalid_nesting}
use velvet.Store.Comment
use velvet.Store.Comment.{CreateCommentInput}
use velvet.Store.Comment.Mentions
use velvet.Store.Comment.Mentions.{is_mention}
use velvet.Store.Comment.Inbox
use velvet.Store.Comment.Threads
use velvet.Store.Comment.Threads.{is_listed}
use velvet.Store.Comment.Complete.{count, shown, shown-list_comments}
use velvet.Store.Comment.Named.{sync_comment_mentions-named}
use velvet.Store.Comment.Promote.{Promoted, promote_comment_to_issue-Promoted}
use velvet.Store.Comment.Nesting.{IsThreaded, create_comment-IsThreaded}
use velvet.Store.Tests.{issue, office, state_of, value_of, store}
use velvet.Store.Tests.Tokens.{plain}

abbrev entry : ℕ → Option ℕ → Row
entry id parent = record {
  id = id;
  workspace_id = 1;
  target_type = CommentTarget.project;
  target_id = 3;
  parent_id = parent;
  author_id = 7;
  body = "Done";
  source = CommentSource.human;
  kind = none;
  api_token_id = none;
  created_at = id;
  edited_at = none;
  deleted_at = none;
}

-- A comment with two replies, and a reply whose comment was deleted.
abbrev discussing : Db
discussing = record office {
  comments =
      entry 80 none
      ∷ entry 81 (some 80)
      ∷ entry 82 (some 80)
      ∷ (record (entry 83 none) { deleted_at = some 45 })
      ∷ entry 84 (some 83)
      ∷ [];
}

abbrev all_of : Row → Bool
all_of c = true

shown-list_comments_example :
    shown all_of (value_of (Threads.list_comments 1 CommentTarget.project 3 discussing) [])
    ≡ count all_of (select (is_listed 1 CommentTarget.project 3) discussing.comments)
unfolding store Threads.list_comments Threads.nest Threads.roots Threads.add_reply
    Threads.sort_by_time Threads.insert_by_time
shown-list_comments_example =
    shown-list_comments all_of 1 CommentTarget.project 3 discussing
      {out = value_of (Threads.list_comments 1 CommentTarget.project 3 discussing) []}
      {db' = discussing} refl

abbrev answering : ℕ → CreateCommentInput
answering parent = record {
  workspace_id = 1;
  actor_id = 7;
  target_type = some CommentTarget.project;
  target_id = 3;
  parent_id = some parent;
  body = "Thanks";
  source = none;
  kind = none;
  api_token_id = none;
}

too_deep : Comment.create_comment plain (answering 81) discussing ≡ err invalid_nesting
unfolding store Comment.create_comment Comment.check_comment_target Comment.insert_comment
    Comment.comment_depth_guard
too_deep = refl

create_comment-IsThreaded_example :
    IsThreaded
      (state_of (Comment.create_comment plain (answering 80) discussing) discussing).comments
unfolding store Comment.create_comment Comment.check_comment_target Comment.insert_comment
    Comment.comment_depth_guard Mentions.sync_comment_mentions
create_comment-IsThreaded_example =
    create_comment-IsThreaded plain (answering 80) discussing
      {out = value_of (Comment.create_comment plain (answering 80) discussing) (entry 0 none)} refl
      (refl, (refl, (refl, (refl, (refl, tt)))))

abbrev synced : Db
synced = state_of (Mentions.sync_comment_mentions plain 1 80 "@ada" discussing) discussing

sync_comment_mentions-named_example :
    any (is_mention 80 7) synced.mentions
    ≡ Mentions.names_user plain 1 (Mentions.parse_mentions plain "@ada") discussing 7
unfolding store Mentions.sync_comment_mentions
sync_comment_mentions-named_example =
    sync_comment_mentions-named plain 1 80 7 "@ada" discussing {u = tt} refl

ada_is_named : any (is_mention 80 7) synced.mentions ≡ true
unfolding store Mentions.sync_comment_mentions Mentions.parse_mentions Mentions.is_named
    Mentions.fallback_available
ada_is_named = refl

abbrev promoted : Result (Issue × Db)
promoted = Comment.promote_comment_to_issue plain 1 80 7 "Follow up" discussing

abbrev issue_of : Result (Issue × Db) → Issue
issue_of (ok (i, db)) = i
issue_of (err e) = issue 0 todo

promote_comment_to_issue-Promoted_example :
    Promoted plain 1 80 "Follow up" discussing (issue_of promoted) (state_of promoted discussing)
unfolding store Comment.promote_comment_to_issue
promote_comment_to_issue-Promoted_example =
    promote_comment_to_issue-Promoted plain 1 80 7 "Follow up" discussing {out = issue_of promoted}
      refl

one_unread : Inbox.unread_mention_count 1 7 synced ≡ ok (1, synced)
unfolding store Mentions.sync_comment_mentions Mentions.parse_mentions Mentions.is_named
    Mentions.fallback_available Inbox.unread_mention_count Inbox.project_of
one_unread = refl

listed_once :
    Inbox.list_mentions 1 7 true (some 3) synced
    ≡ ok ((record { comment_id = 80; user_id = 7; read_at = none }) ∷ [], synced)
unfolding store Mentions.sync_comment_mentions Mentions.parse_mentions Mentions.is_named
    Mentions.fallback_available Inbox.list_mentions Inbox.project_of Inbox.newest_first
listed_once = refl

abbrev cleared : Db
cleared = state_of (Inbox.mark_mentions_read 1 7 [] none synced) synced

none_unread : Inbox.unread_mention_count 1 7 cleared ≡ ok (0, cleared)
unfolding store Inbox.mark_mentions_read Inbox.unread_mention_count Mentions.sync_comment_mentions
    Mentions.is_named Mentions.fallback_available Mentions.parse_mentions
none_unread = refl
