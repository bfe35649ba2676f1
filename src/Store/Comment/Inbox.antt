-- ===== src/Store/Comment/Inbox.antt =====
-- mention.go: the inbox, which shows a user the comments that name the user.
use velvet.Common.{
  ℕ, Option, none, some, Bool, true, false, not, ◌&&◌, ◌||◌, List, [], ◌∷◌, ◌==◌, ltb, any, find,
  select, update, length, is_some, if◌then◌else◌,
}
use velvet.Store.Db.{
  Db, Issue, Milestone, Sprint, Project, Comment, CommentTarget, Mention, issue, milestone, project,
}
use velvet.Store.Tx.{Tx, reads, modify, query_row}
use velvet.Store.Comment.{target_exists, is_live_comment}
use velvet.Store.Comment.Mentions.{same_id}

-- The project of a target: `none` if the target is missing, `some none` for an issue that is not filed.
unfoldable pub project_of : Db → ℕ → CommentTarget → ℕ → Option (Option ℕ)
project_of db w issue id =
    elim (find (λ (i : Issue). i.id == id && i.workspace_id == w) db.issues) [
      | none ↦ none
      | some i ↦ some i.project_id
    ]
project_of db w milestone id =
    elim (find (λ (m : Milestone). m.id == id && m.workspace_id == w) db.milestones) [
      | none ↦ none
      | some m ↦
          elim (find (λ (s : Sprint). s.id == m.sprint_id && s.workspace_id == w) db.sprints) [
            | none ↦ none
            | some s ↦ some (some s.project_id)
          ]
    ]
project_of db w project id =
    elim (find (λ (p : Project). p.id == id && p.workspace_id == w) db.projects) [
      | none ↦ none
      | some p ↦ some (some p.id)
    ]

abbrev pub project_of_comment : Db → Option Comment → Option (Option ℕ)
project_of_comment db none = none
project_of_comment db (some c) = project_of db c.workspace_id c.target_type c.target_id

unfoldable pub comment_project_id : ℕ → ℕ → Tx (Option ℕ)
comment_project_id workspace_id comment_id =
    query_row
      (λ db. project_of_comment db (find (is_live_comment workspace_id comment_id) db.comments))

-- $4::uuid IS NULL OR COALESCE(...) = $4
abbrev pub in_project : Option ℕ → Option (Option ℕ) → Bool
in_project none p = true
in_project (some id) none = false
in_project (some id) (some p) = same_id p id

-- The comment of a mention is in the workspace, not deleted, and on a target that exists.
abbrev pub is_visible : ℕ → Db → Comment → Bool
is_visible workspace_id db c =
    c.workspace_id == workspace_id
    && (not (is_some c.deleted_at) && target_exists c.workspace_id c.target_id c.target_type db)

abbrev pub comment_of : Db → Mention → Option Comment
comment_of db x = find (λ (c : Comment). c.id == x.comment_id) db.comments

abbrev pub shows : ℕ → Option ℕ → Db → Option Comment → Bool
shows workspace_id scope db none = false
shows workspace_id scope db (some c) =
    is_visible workspace_id db c && in_project scope (project_of_comment db (some c))

abbrev pub in_inbox : ℕ → ℕ → Option ℕ → Db → Mention → Bool
in_inbox workspace_id user_id scope db x =
    x.user_id == user_id && shows workspace_id scope db (comment_of db x)

-- ORDER BY c.created_at DESC
abbrev pub written_at : Db → Mention → ℕ
written_at db x = elim (comment_of db x) [ none ↦ 0 | some c ↦ c.created_at ]

unfoldable pub insert_newest : Db → Mention → List Mention → List Mention
insert_newest db x [] = x ∷ []
insert_newest db x (y ∷ ys) =
    let rest = insert_newest db x ys in
    if ltb (written_at db x) (written_at db y) then y ∷ rest else x ∷ y ∷ ys

unfoldable pub newest_first : Db → List Mention → List Mention
unfolding insert_newest
newest_first db [] = []
newest_first db (x ∷ xs) = insert_newest db x (newest_first db xs)

unfoldable pub list_mentions : ℕ → ℕ → Bool → Option ℕ → Tx (List Mention)
list_mentions workspace_id user_id unread_only scope = reads (λ db. newest_first db (
    select
      (λ x.
        in_inbox workspace_id user_id scope db x && (not unread_only || not (is_some x.read_at)))
      db.mentions))

-- What the badge counts.
abbrev pub is_unread : ℕ → ℕ → Db → Mention → Bool
is_unread workspace_id user_id db x =
    in_inbox workspace_id user_id none db x && not (is_some x.read_at)

unfoldable pub unread_mention_count : ℕ → ℕ → Tx ℕ
unread_mention_count workspace_id user_id =
    reads (λ db. length (select (is_unread workspace_id user_id db) db.mentions))

abbrev pub among_ids : List ℕ → ℕ → Bool
among_ids [] id = true
among_ids (i ∷ is) id = any (λ j. j == id) (i ∷ is)

abbrev pub of_scope : Option ℕ → Db → Comment → Bool
of_scope none db c = true
of_scope (some id) db c =
    not (is_some c.deleted_at) && in_project (some id) (project_of_comment db (some c))

abbrev pub is_marked : ℕ → Option ℕ → Db → Option Comment → Bool
is_marked workspace_id scope db none = false
is_marked workspace_id scope db (some c) = c.workspace_id == workspace_id && of_scope scope db c

abbrev pub to_mark : ℕ → ℕ → List ℕ → Option ℕ → Db → Mention → Bool
to_mark workspace_id user_id comment_ids scope db x =
    x.user_id == user_id
    && (not (is_some x.read_at)
        && (among_ids comment_ids x.comment_id
            && is_marked workspace_id scope db (comment_of db x)))

-- An empty list of comments means all of them.
unfoldable pub mark_mentions_read : ℕ → ℕ → List ℕ → Option ℕ → Tx (Unit {0})
mark_mentions_read workspace_id user_id comment_ids scope = modify (λ db. record db {
  mentions =
      update (to_mark workspace_id user_id comment_ids scope db)
        (λ x. record x { read_at = some db.now }) db.mentions;
})
