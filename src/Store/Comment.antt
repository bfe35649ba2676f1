-- ===== src/Store/Comment.antt =====
-- comment.go: the comments on issues, milestones and projects.
pub mod Mentions
pub mod Threads
pub mod Complete
pub mod Named
pub mod Nesting
pub mod Promote
pub mod Inbox
pub mod Badge
use Prim.Native.String.{String, ◌++◌ as joined_with}
use velvet.Common.{
  ℕ, Option, none, some, Bool, true, false, not, ◌&&◌, ◌||◌, List, [], ◌∷◌, ◌++◌, ◌==◌, is_some,
  get_or, any, find, update, if◌then◌else◌,
}
use velvet.Store.Db.{
  Db, Issue, IssueKey, IssueStatus, Milestone, Project, Comment, CommentTarget, CommentKind,
  CommentSource, human, issue, milestone, project, Verb, TargetType,
}
use velvet.Store.Tx.{
  Tx, not_found, forbidden, invalid_nesting, not_promotable, duplicate, pure, throw, require, reads,
  modify, query_row, ◌>>=◌, ◌>>◌, draw_uuid, record_activity,
}
use velvet.Store.Access.{lock_workspace_writer, lock_workspace_actor, is_admin}
use velvet.Store.Issue.{next_issue_key, next_issue_position}
use velvet.Store.Issue.Create.{insert_issue}
use velvet.Store.Library.{Library}
use velvet.Store.Comment.Mentions.{sync_comment_mentions}

-- A target of another type is `none`, as is an empty source.
pub record CreateCommentInput : Type 0 where
  pub workspace_id : ℕ
  pub actor_id : ℕ
  pub target_type : Option CommentTarget
  pub target_id : ℕ
  pub parent_id : Option ℕ
  pub body : String
  pub source : Option CommentSource
  pub kind : Option CommentKind
  pub api_token_id : Option ℕ

abbrev pub target_number : CommentTarget → ℕ
target_number issue = 0
target_number milestone = 1
target_number project = 2

abbrev pub same_target : CommentTarget → CommentTarget → Bool
same_target a b = target_number a == target_number b

abbrev pub target_exists : ℕ → ℕ → CommentTarget → Db → Bool
target_exists workspace_id id issue db =
    any (λ (r : Issue). r.id == id && r.workspace_id == workspace_id) db.issues
target_exists workspace_id id milestone db =
    any (λ (r : Milestone). r.id == id && r.workspace_id == workspace_id) db.milestones
target_exists workspace_id id project db =
    any (λ (r : Project). r.id == id && r.workspace_id == workspace_id) db.projects

unfoldable pub check_comment_target : ℕ → Option CommentTarget → ℕ → Tx CommentTarget
check_comment_target workspace_id none id = throw not_found
check_comment_target workspace_id (some t) id = do
  exists ← reads (target_exists workspace_id id t)
  require exists not_found
  pure t

-- A comment on this target, with this identifier.
abbrev pub is_on : ℕ → CommentTarget → ℕ → Comment → Bool
is_on workspace_id t target_id c =
    c.workspace_id == workspace_id && (same_target c.target_type t && c.target_id == target_id)

abbrev pub check_parent : ℕ → CommentTarget → ℕ → Option ℕ → Tx (Unit {0})
check_parent workspace_id t target_id none = pure tt
check_parent workspace_id t target_id (some parent) = do
  exists ←
      reads (λ db.
        any (λ (c : Comment). c.id == parent && is_on workspace_id t target_id c) db.comments)
  require exists not_found

-- A reply to this comment would be nested two levels deep.
abbrev pub is_reply : Option ℕ → Comment → Bool
is_reply none c = false
is_reply (some parent) c = c.id == parent && is_some c.parent_id

unfoldable pub comment_depth_guard : Option ℕ → Tx (Unit {0})
comment_depth_guard parent = do
  nested ← reads (λ db. any (is_reply parent) db.comments)
  require (not nested) invalid_nesting

unfoldable pub insert_comment : Comment → Tx (Unit {0})
insert_comment row = do
  comment_depth_guard row.parent_id
  taken ← reads (λ db. any (λ (c : Comment). c.id == row.id) db.comments)
  require (not taken) duplicate
  modify (λ db. record db { comments = db.comments ++ row ∷ [] })

abbrev pub is_comment : ℕ → ℕ → Comment → Bool
is_comment workspace_id id c = c.workspace_id == workspace_id && c.id == id

abbrev pub is_live_comment : ℕ → ℕ → Comment → Bool
is_live_comment workspace_id id c = is_comment workspace_id id c && not (is_some c.deleted_at)

abbrev pub is_project_target : CommentTarget → Bool
is_project_target project = true
is_project_target _ = false

unfoldable pub delete_comment : ℕ → ℕ → ℕ → Tx (Unit {0})
delete_comment workspace_id id actor_id = do
  lock_workspace_writer workspace_id actor_id
  role ← lock_workspace_actor workspace_id actor_id
  before ← query_row (λ db. find (is_live_comment workspace_id id) db.comments)
  require (before.author_id == actor_id || is_admin role) forbidden
  modify (λ db. record db {
    comments =
        update (is_comment workspace_id id) (λ c. record c { deleted_at = some db.now })
          db.comments;
  })

module _ (lib : Library) where
  unfoldable pub create_comment : CreateCommentInput → Tx Comment
  create_comment input = do
    lock_workspace_writer input.workspace_id input.actor_id
    t ← check_comment_target input.workspace_id input.target_type input.target_id
    check_parent input.workspace_id t input.target_id input.parent_id
    id ← draw_uuid
    now ← reads (λ db. db.now)
    let row : Comment = record {
      id = id;
      workspace_id = input.workspace_id;
      target_type = t;
      target_id = input.target_id;
      parent_id = input.parent_id;
      author_id = input.actor_id;
      body = input.body;
      source = get_or input.source human;
      kind = input.kind;
      api_token_id = input.api_token_id;
      created_at = now;
      edited_at = none;
      deleted_at = none;
    }
    insert_comment row
    record_activity input.workspace_id input.actor_id Verb.commented TargetType.comment id
    sync_comment_mentions lib input.workspace_id id input.body
    pure row

  unfoldable pub update_comment : ℕ → ℕ → ℕ → String → Tx Comment
  update_comment workspace_id id actor_id body = do
    lock_workspace_writer workspace_id actor_id
    before ← query_row (λ db. find (is_live_comment workspace_id id) db.comments)
    require (before.author_id == actor_id) forbidden
    modify (λ db. record db {
      comments =
          update (is_comment workspace_id id)
            (λ c. record c { body = body; edited_at = some db.now }) db.comments;
    })
    out ← query_row (λ db. find (is_comment workspace_id id) db.comments)
    sync_comment_mentions lib workspace_id id body
    pure out

  -- "%s-%d"
  abbrev pub key_text : IssueKey → String
  key_text key = joined_with key.prefix (joined_with "-" (lib.decimal key.number))

  unfoldable pub promote_comment_to_issue : ℕ → ℕ → ℕ → String → Tx Issue
  promote_comment_to_issue workspace_id comment_id actor_id title = do
    lock_workspace_writer workspace_id actor_id
    source ← query_row (λ db. find (is_live_comment workspace_id comment_id) db.comments)
    require (is_project_target source.target_type) not_promotable
    key ← next_issue_key workspace_id
    position ← next_issue_position workspace_id none
    id ← draw_uuid
    now ← reads (λ db. db.now)
    let row : Issue = record {
      id = id;
      workspace_id = workspace_id;
      key = key;
      number = key.number;
      title = title;
      description = source.body;
      status = IssueStatus.todo;
      priority = 0;
      assignee_id = none;
      milestone_id = none;
      project_id = some source.target_id;
      parent_id = none;
      position = position;
      created_by = some actor_id;
      updated_at = now;
    }
    insert_issue row
    modify (λ db. record db {
      comments =
          update (is_comment workspace_id comment_id)
            (λ c. record c {
              body = joined_with c.body (joined_with "\n\nPromoted to " (key_text key));
            })
            db.comments;
    })
    record_activity workspace_id actor_id Verb.promoted_entry TargetType.issue id
    pure row
