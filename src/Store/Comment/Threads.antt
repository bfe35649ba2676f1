-- ===== src/Store/Comment/Threads.antt =====
-- `ListComments` of comment.go: the thread of a target, with the replies under the comments they answer.
use velvet.Common.{
  ℕ, Option, none, some, Bool, not, ◌&&◌, ◌||◌, List, [], ◌∷◌, ◌++◌, ◌==◌, ltb, any, select,
  is_some, if◌then◌else◌,
}
use velvet.Store.Db.{Comment, CommentTarget}
use velvet.Store.Tx.{Tx, reads}
use velvet.Store.Comment.{is_on}

pub record Thread : Type 0 where
  pub comment : Comment
  pub replies : List Comment

abbrev pub is_thread : ℕ → Thread → Bool
is_thread id t = t.comment.id == id

-- `index` holds the last place of an identifier.
unfoldable pub add_reply : ℕ → Comment → List Thread → List Thread
add_reply parent c [] = []
add_reply parent c (t ∷ ts) =
    let rest = add_reply parent c ts in
    if is_thread parent t && not (any (is_thread parent) ts)
    then (record t { replies = t.replies ++ c ∷ [] }) ∷ ts
    else t ∷ rest

abbrev pub alone : Comment → Thread
alone c = record { comment = c; replies = [] }

unfoldable pub roots : List Comment → List Thread
roots [] = []
roots (c ∷ cs) = if is_some c.parent_id then roots cs else alone c ∷ roots cs

abbrev pub nested : Option ℕ → Comment → List Thread → List Thread
nested none c threads = threads
nested (some parent) c threads =
    if any (is_thread parent) threads then add_reply parent c threads else threads

abbrev pub promoted : Option ℕ → Comment → List Thread → List Thread → List Thread
promoted none c threads orphans = orphans
promoted (some parent) c threads orphans =
    if any (is_thread parent) threads then orphans else orphans ++ alone c ∷ []

-- The second loop. `orphans` are the replies whose comment is gone.
unfoldable pub nest : List Comment → List Thread → List Thread → List Thread
nest [] threads orphans = threads ++ orphans
nest (c ∷ cs) threads orphans =
    nest cs (nested c.parent_id c threads) (promoted c.parent_id c threads orphans)

-- ORDER BY created_at, id
abbrev pub is_earlier : Comment → Comment → Bool
is_earlier c d = ltb c.created_at d.created_at || (c.created_at == d.created_at && ltb c.id d.id)

unfoldable pub insert_by_time : Comment → List Comment → List Comment
insert_by_time c [] = c ∷ []
insert_by_time c (d ∷ ds) =
    let rest = insert_by_time c ds in if is_earlier d c then d ∷ rest else c ∷ d ∷ ds

unfoldable pub sort_by_time : List Comment → List Comment
unfolding insert_by_time
sort_by_time [] = []
sort_by_time (c ∷ cs) = insert_by_time c (sort_by_time cs)

-- The comments of a target that are not deleted.
abbrev pub is_listed : ℕ → CommentTarget → ℕ → Comment → Bool
is_listed workspace_id t target_id c =
    is_on workspace_id t target_id c && not (is_some c.deleted_at)

unfoldable pub list_comments : ℕ → CommentTarget → ℕ → Tx (List Thread)
list_comments workspace_id t target_id = reads (λ db.
    let flat = sort_by_time (select (is_listed workspace_id t target_id) db.comments) in
    nest flat (roots flat) [])
