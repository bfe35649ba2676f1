-- ===== src/Store/PullRequest.antt =====
-- pull_request.go and evidence.go: pull requests, reviews and commits as GitHub reported them, and the
-- issues they are attached to as proof of work.
pub mod Latest
use Prim.Native.String.{String}
use text.Mathlib.Text.{◌==◌ as str_eq}
use velvet.Common.{
  ℕ, Option, none, some, Bool, true, false, not, ◌&&◌, ◌||◌, List, [], ◌∷◌, ◌++◌, ◌==◌, ◌=?◌, leb,
  any, find, select, update, get_or, if◌then◌else◌,
}
use mathlib.Core.List.{map}
use velvet.Common.Text.{Bytes}
use velvet.Store.Db.{
  Db, Issue, User, Identity, Membership, Workspace, Repo, PullRequest, PrState, PrLink, LinkSource,
  Review, Commit, Verb, TargetType,
}
use velvet.Store.Tx.{
  Tx, not_found, database, throw, foreign_reference, pure, require, reads, modify, query_row, ◌>>=◌,
  ◌>>◌, draw_uuid, record_activity,
}
use velvet.Store.Access.{lock_workspace_writer}
use velvet.Store.Library.{Library}
use velvet.Store.Comment.Mentions.{has_identity, same_login, fallback_available}

pub record UpsertPrInput : Type 0 where
  pub workspace_id : ℕ
  pub repo_id : ℕ
  pub number : ℕ
  pub title : Bytes
  pub state : PrState
  pub draft : Bool
  pub author_login : String
  pub head_ref : Bytes
  pub body : Bytes
  pub additions : ℕ
  pub deletions : ℕ
  pub html_url : String
  pub merged_at : Option ℕ
  pub closed_at : Option ℕ
  pub gh_created_at : Option ℕ
  pub gh_updated_at : Option ℕ

-- UNIQUE (repo_id, number)
abbrev pub is_pull_request : ℕ → ℕ → PullRequest → Bool
is_pull_request repo_id number p = p.repo_id == repo_id && p.number == number

-- EXCLUDED.gh_updated_at >= pull_request.gh_updated_at, which is not true if one of them is NULL.
abbrev pub is_current : Option ℕ → Option ℕ → Bool
is_current none stored = false
is_current (some t) none = false
is_current (some t) (some s) = leb s t

abbrev pub or_else : Option ℕ → Option ℕ → Option ℕ
or_else none b = b
or_else (some a) b = some a

-- A subquery for one value fails on several rows.
unfoldable pub scalar : List ℕ → Tx (Option ℕ)
scalar [] = pure none
scalar (x ∷ []) = pure (some x)
scalar (x ∷ y ∷ rest) = throw database

-- The second subquery of the COALESCE.
abbrev pub or_known : Option ℕ → List ℕ → Tx (Option ℕ)
or_known (some user_id) known = pure (some user_id)
or_known none known = scalar known

abbrev pub has_workspace : ℕ → Db → Bool
has_workspace id db = any (λ (w : Workspace). w.id == id) db.workspaces

abbrev pub has_repo : ℕ → Db → Bool
has_repo id db = any (λ (r : Repo). r.id == id) db.repos

module _ (lib : Library) where
  abbrev pub is_identity : ℕ → String → Identity → Bool
  is_identity workspace_id login g =
      g.workspace_id == workspace_id && str_eq (lib.sql_lower g.github_login) (lib.sql_lower login)

  abbrev pub is_known : ℕ → String → Db → User → Membership → Bool
  is_known workspace_id login db u m =
      same_login lib u.github_login (lib.sql_lower login)
      && (m.user_id == u.id
          && (m.workspace_id == workspace_id
              && (not (has_identity db m) && fallback_available lib m u db)))

  -- The users of the memberships that the login fits, one for each row of the join.
  abbrev pub known_users : ℕ → String → Db → List User → List ℕ
  known_users workspace_id login db [] = []
  known_users workspace_id login db (u ∷ us) =
      map (λ (m : Membership). u.id) (select (is_known workspace_id login db u) db.memberships)
      ++ known_users workspace_id login db us

  -- The users of the identities that the login fits.
  abbrev pub identified_users : ℕ → String → Db → List ℕ
  identified_users workspace_id login db =
      map (λ (g : Identity). g.user_id) (select (is_identity workspace_id login) db.identities)

  -- COALESCE of the identity in the workspace and the global login, which is only looked for if there is
  -- no identity.
  unfoldable pub member_by_github_login : ℕ → String → Tx (Option ℕ)
  member_by_github_login workspace_id login = do
    identified ← reads (identified_users workspace_id login)
    own ← scalar identified
    known ← reads (λ db. known_users workspace_id login db db.users)
    or_known own known

  -- The row of the INSERT, and what the UPDATE makes of the row that is there.
  abbrev pub new_row : UpsertPrInput → ℕ → Option ℕ → PullRequest
  new_row i id author = record {
    id = id;
    workspace_id = i.workspace_id;
    repo_id = i.repo_id;
    number = i.number;
    title = i.title;
    state = i.state;
    draft = i.draft;
    author_login = i.author_login;
    author_id = author;
    head_ref = i.head_ref;
    body = i.body;
    additions = i.additions;
    deletions = i.deletions;
    html_url = i.html_url;
    merged_at = i.merged_at;
    closed_at = i.closed_at;
    gh_created_at = i.gh_created_at;
    gh_updated_at = i.gh_updated_at;
  }

  abbrev pub refreshed : UpsertPrInput → Option ℕ → PullRequest → PullRequest
  refreshed i author p = record p {
    title = i.title;
    state = i.state;
    draft = i.draft;
    body = i.body;
    additions = i.additions;
    deletions = i.deletions;
    merged_at = i.merged_at;
    closed_at = i.closed_at;
    head_ref = i.head_ref;
    author_login = i.author_login;
    author_id = or_else author p.author_id;
    html_url = i.html_url;
    gh_updated_at = i.gh_updated_at;
  }

  abbrev pub insert_pr : UpsertPrInput → ℕ → Option ℕ → Tx PullRequest
  insert_pr i id author = do
    stored ← reads (λ db. has_workspace i.workspace_id db && has_repo i.repo_id db)
    require stored database
    modify (λ db. record db { pull_requests = db.pull_requests ++ new_row i id author ∷ [] })
    pure (new_row i id author)

  abbrev pub refresh_pr : UpsertPrInput → Option ℕ → PullRequest → Tx PullRequest
  refresh_pr i author old = do
    modify (λ db. record db {
      pull_requests =
          update (is_pull_request i.repo_id i.number) (refreshed i author) db.pull_requests;
    })
    pure (refreshed i author old)

  -- INSERT ... ON CONFLICT (repo_id, number) DO UPDATE ... WHERE, and the row that is stored when the
  -- update was skipped. The INSERT draws an identifier in every case.
  abbrev pub resolve_pr : UpsertPrInput → ℕ → Option ℕ → Option PullRequest → Tx PullRequest
  resolve_pr i id author none = insert_pr i id author
  resolve_pr i id author (some old) =
      if is_current i.gh_updated_at old.gh_updated_at then refresh_pr i author old else pure old

  unfoldable pub upsert_pull_request : UpsertPrInput → Tx PullRequest
  unfolding member_by_github_login scalar
  upsert_pull_request i = do
    id ← draw_uuid
    author ← member_by_github_login i.workspace_id i.author_login
    old ← reads (λ db. find (is_pull_request i.repo_id i.number) db.pull_requests)
    resolve_pr i id author old

  abbrev pub is_review : ℕ → Review → Bool
  is_review github_id r = r.github_id == github_id

  -- ON CONFLICT (github_id) DO UPDATE; the row holds the reviewer that the login belongs to.
  unfoldable pub upsert_review_tx : Review → Tx (Unit {0})
  unfolding member_by_github_login scalar
  upsert_review_tx i = do
    reviewer ← member_by_github_login i.workspace_id i.reviewer_login
    known ← reads (λ db. any (is_review i.github_id) db.reviews)
    stored ← reads (λ db.
        has_workspace i.workspace_id db
        && any (λ (p : PullRequest). p.id == i.pull_request_id) db.pull_requests)
    require (known || stored) database
    modify (λ db. record db {
      reviews =
          if known
          then update (is_review i.github_id)
              (λ r. record r { state = i.state; submitted_at = i.submitted_at }) db.reviews
          else db.reviews ++ (record i { reviewer_id = reviewer }) ∷ [];
    })

abbrev pub is_commit : ℕ → String → Commit → Bool
is_commit repo_id sha c = c.repo_id == repo_id && str_eq c.sha sha

-- ON CONFLICT (repo_id, sha) DO NOTHING
abbrev pub is_filed : Option ℕ → Db → Bool
is_filed none db = true
is_filed (some id) db = any (λ (i : Issue). i.id == id) db.issues

unfoldable pub upsert_commit_tx : Commit → Tx (Unit {0})
upsert_commit_tx c = do
  known ← reads (λ db. any (is_commit c.repo_id c.sha) db.commits)
  stored ←
      reads
        (λ db. has_workspace c.workspace_id db && (has_repo c.repo_id db && is_filed c.issue_id db))
  require (known || stored) database
  modify (λ db. record db { commits = if known then db.commits else db.commits ++ c ∷ [] })

abbrev pub is_link : ℕ → ℕ → PrLink → Bool
is_link pr_id issue_id l = l.pull_request_id == pr_id && l.issue_id == issue_id

abbrev pub is_issue_row : ℕ → ℕ → Issue → Bool
is_issue_row workspace_id id i = i.id == id && i.workspace_id == workspace_id

abbrev pub add_link : ℕ → ℕ → ℕ → LinkSource → Bool → Option ℕ → Tx Bool
add_link workspace_id pr_id issue_id source closing actor_id = do
  let row : PrLink = record {
    workspace_id = workspace_id;
    pull_request_id = pr_id;
    issue_id = issue_id;
    link_source = source;
    closing = closing;
  }
  stored ← reads (λ db. any (λ (p : PullRequest). p.id == pr_id) db.pull_requests)
  filed ←
      reads (λ db. has_workspace workspace_id db && any (λ (i : Issue). i.id == issue_id) db.issues)
  require (stored && filed) database
  modify (λ db. record db { pr_links = db.pr_links ++ row ∷ [] })
  pr ← query_row (λ db. find (λ (p : PullRequest). p.id == pr_id) db.pull_requests)
  i ← query_row (λ db. find (is_issue_row workspace_id issue_id) db.issues)
  record_activity workspace_id (get_or actor_id 0) Verb.attached_pr TargetType.issue issue_id
  pure true

-- Whether the link is new; ON CONFLICT (pull_request_id, issue_id) DO NOTHING.
unfoldable pub link_pr_tx : ℕ → ℕ → ℕ → LinkSource → Bool → Option ℕ → Tx Bool
link_pr_tx workspace_id pr_id issue_id source closing actor_id = do
  linked ← reads (λ db. any (is_link pr_id issue_id) db.pr_links)
  if linked then pure false else add_link workspace_id pr_id issue_id source closing actor_id

unfoldable pub manual_link : ℕ → ℕ → ℕ → ℕ → Tx (Unit {0})
unfolding link_pr_tx
manual_link workspace_id issue_id pr_id actor_id = do
  lock_workspace_writer workspace_id actor_id
  pr ← query_row (λ db. find (λ (p : PullRequest). p.id == pr_id) db.pull_requests)
  require (pr.workspace_id == workspace_id) foreign_reference
  exists ← reads (λ db. any (is_issue_row workspace_id issue_id) db.issues)
  require exists not_found
  link_pr_tx workspace_id pr_id issue_id LinkSource.manual false (some actor_id)
  pure tt

abbrev pub is_link_in : ℕ → ℕ → ℕ → PrLink → Bool
is_link_in workspace_id issue_id pr_id l =
    l.workspace_id == workspace_id && (l.issue_id == issue_id && l.pull_request_id == pr_id)

unfoldable pub unlink : ℕ → ℕ → ℕ → ℕ → Tx (Unit {0})
unlink workspace_id issue_id pr_id actor_id = do
  lock_workspace_writer workspace_id actor_id
  exists ← reads (λ db. any (is_link_in workspace_id issue_id pr_id) db.pr_links)
  modify (λ db. record db {
    pr_links = select (λ l. not (is_link_in workspace_id issue_id pr_id l)) db.pr_links;
  })
  require exists not_found

-- A reference to a commit, as `ResolveEvidence` found it.
pub record EvidenceRef : Type 0 where
  pub sha : String
  pub repo_id : ℕ

abbrev pub is_unattached : ℕ → ℕ → EvidenceRef → Commit → Bool
is_unattached workspace_id issue_id ref c =
    c.workspace_id == workspace_id
    && (str_eq c.sha ref.sha && (c.repo_id == ref.repo_id && not (c.issue_id =? some issue_id)))

-- `AttachEvidenceToIssue` for a commit; a pull request goes to `manual_link`.
unfoldable pub attach_commit : ℕ → ℕ → ℕ → EvidenceRef → Tx (Unit {0})
attach_commit workspace_id issue_id actor_id ref = do
  lock_workspace_writer workspace_id actor_id
  i ← query_row (λ db. find (is_issue_row workspace_id issue_id) db.issues)
  changes ← reads (λ db. any (is_unattached workspace_id issue_id ref) db.commits)
  modify (λ db. record db {
    commits =
        update (is_unattached workspace_id issue_id ref)
          (λ c. record c { issue_id = some issue_id }) db.commits;
  })
  if changes
      then record_activity workspace_id actor_id Verb.attached_commit TargetType.issue issue_id
      else pure tt
