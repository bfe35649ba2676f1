-- ===== src/Store/GithubSetup/Link.antt =====
-- membership_identity.go and `CompleteGitHubLink` of github_setup.go: who is known at GitHub by which
-- account.
use Prim.Native.String.{String}
use text.Mathlib.Text.{◌==◌ as str_eq}
use velvet.Common.{
  ℕ, Option, none, some, Bool, not, ◌&&◌, ◌||◌, List, [], ◌∷◌, ◌++◌, ◌==◌, ltb, any, find, select,
  update, if◌then◌else◌,
}
use velvet.Store.Db.{
  Db, User, Membership, Identity, PullRequest, Review, AuthorizationState, Purpose, Verb,
  TargetType,
}
use velvet.Store.Tx.{
  Tx, not_found, duplicate, require, reads, modify, query_row, ◌>>=◌, ◌>>◌, record_activity,
}
use velvet.Store.Access.{is_membership}
use velvet.Store.Library.{Library}
use velvet.Store.Comment.Mentions.{same_id, same_login, fallback_available, has_identity}
use velvet.Store.GithubSetup.{
  GithubAuthorization, same_purpose, is_session, is_state, lock_github_session_tx, change_states,
  completed,
}
use velvet.Store.GithubSetup.Authorize.{lock_claimed_github_authorization_tx}

-- An account at GitHub.
pub record GithubIdentity : Type 0 where
  pub id : ℕ
  pub login : String

abbrev pub is_identity : GithubIdentity → Bool
is_identity g = not (g.id == 0) && not (str_eq g.login "")

-- gi.membership_id = m.id
abbrev pub is_own : Membership → Identity → Bool
is_own m g = g.membership_id == m.id

module _ (lib : Library) where
  -- The account that is in effect for the membership is this one: its own, or the global one.
  abbrev pub is_effective : GithubIdentity → Db → Membership → User → Option Identity → Bool
  is_effective identity db m u (some g) =
      g.github_id == identity.id
      || str_eq (lib.sql_lower g.github_login) (lib.sql_lower identity.login)
  is_effective identity db m u none =
      fallback_available lib m u db
      && (same_id u.github_id identity.id
          || same_login lib u.github_login (lib.sql_lower identity.login))

  -- An organisation of the user in which the global account is in effect.
  abbrev pub is_reached : Option ℕ → ℕ → Db → Membership → Bool
  is_reached (some workspace_id) user_id db m = m.workspace_id == workspace_id
  is_reached none user_id db m =
      any (λ own. is_membership m.workspace_id user_id own && not (has_identity db own))
        db.memberships

  abbrev pub is_collision : Option ℕ → ℕ → GithubIdentity → Db → Membership → Bool
  is_collision workspace_id user_id identity db m =
      not (m.user_id == user_id)
      && (is_reached workspace_id user_id db m
          && any
              (λ (u : User).
                u.id == m.user_id && is_effective identity db m u (find (is_own m) db.identities))
              db.users)

  unfoldable pub check_effective_github_identity_tx : Option ℕ → ℕ → GithubIdentity → Tx (Unit {0})
  check_effective_github_identity_tx workspace_id user_id identity = do
    collision ← reads (λ db. any (is_collision workspace_id user_id identity db) db.memberships)
    require (not collision) duplicate

  -- INSERT ... ON CONFLICT (membership_id) DO UPDATE
  abbrev pub put_identity : Membership → GithubIdentity → List Identity → List Identity
  put_identity m identity rows =
      if any (is_own m) rows
      then update (is_own m)
          (λ g. record g { github_id = identity.id; github_login = identity.login }) rows
      else rows
        ++ (record {
          membership_id = m.id;
          workspace_id = m.workspace_id;
          user_id = m.user_id;
          github_id = identity.id;
          github_login = identity.login;
        })
          ∷ []

  -- UNIQUE (workspace_id, github_id)
  abbrev pub is_claimed_by_other : Membership → GithubIdentity → Identity → Bool
  is_claimed_by_other m identity g =
      not (is_own m g) && (g.workspace_id == m.workspace_id && g.github_id == identity.id)

  abbrev pub is_authored : ℕ → GithubIdentity → PullRequest → Bool
  is_authored workspace_id identity p =
      p.workspace_id == workspace_id
      && str_eq (lib.sql_lower p.author_login) (lib.sql_lower identity.login)

  abbrev pub is_reviewed : ℕ → GithubIdentity → Review → Bool
  is_reviewed workspace_id identity r =
      r.workspace_id == workspace_id
      && str_eq (lib.sql_lower r.reviewer_login) (lib.sql_lower identity.login)

  unfoldable pub link_membership_identity_tx : ℕ → ℕ → GithubIdentity → Tx (Unit {0})
  unfolding check_effective_github_identity_tx
  link_membership_identity_tx workspace_id user_id identity = do
    require (is_identity identity) not_found
    m ← query_row (λ db. find (is_membership workspace_id user_id) db.memberships)
    check_effective_github_identity_tx (some workspace_id) user_id identity
    taken ← reads (λ db. any (is_claimed_by_other m identity) db.identities)
    require (not taken) duplicate
    modify (λ db. record db { identities = put_identity m identity db.identities })
    modify (λ db. record db {
      pull_requests =
          update (is_authored workspace_id identity) (λ p. record p { author_id = some user_id })
            db.pull_requests;
    })
    modify (λ db. record db {
      reviews =
          update (is_reviewed workspace_id identity) (λ r. record r { reviewer_id = some user_id })
            db.reviews;
    })
    record_activity workspace_id user_id Verb.linked_github_identity TargetType.membership m.id

  unfoldable pub link_membership_github_identity : ℕ → ℕ → GithubIdentity → Tx (Unit {0})
  unfolding link_membership_identity_tx
  link_membership_github_identity workspace_id user_id identity =
      link_membership_identity_tx workspace_id user_id identity

  abbrev pub is_identity_of : ℕ → ℕ → Identity → Bool
  is_identity_of workspace_id user_id g = g.workspace_id == workspace_id && g.user_id == user_id

  unfoldable pub unlink_membership_github_identity : ℕ → ℕ → Tx (Unit {0})
  unlink_membership_github_identity workspace_id user_id = do
    g ← query_row (λ db. find (is_identity_of workspace_id user_id) db.identities)
    modify (λ db. record db {
      identities = select (λ g. not (is_identity_of workspace_id user_id g)) db.identities;
    })
    record_activity workspace_id user_id Verb.unlinked_github_identity TargetType.membership
        g.membership_id

  -- UNIQUE (github_id) and UNIQUE (lower(github_login))
  abbrev pub is_rival : ℕ → GithubIdentity → User → Bool
  is_rival user_id identity u =
      not (u.id == user_id)
      && (same_id u.github_id identity.id
          || same_login lib u.github_login (lib.sql_lower identity.login))

  unfoldable pub link_profile : ℕ → GithubIdentity → Tx (Unit {0})
  unfolding check_effective_github_identity_tx
  link_profile user_id identity = do
    check_effective_github_identity_tx none user_id identity
    taken ← reads (λ db. any (is_rival user_id identity) db.users)
    require (not taken) duplicate
    modify (λ db. record db {
      users =
          update (λ (u : User). u.id == user_id)
            (λ u. record u { github_id = some identity.id; github_login = some identity.login })
            db.users;
    })

  abbrev pub is_link : GithubAuthorization → GithubIdentity → Bool
  is_link a identity =
      same_purpose a.purpose Purpose.link && (str_eq a.setup_hash "" && is_identity identity)

  -- token_hash=$1 AND expires_at>clock_timestamp()
  abbrev pub is_alive : GithubAuthorization → ℕ → AuthorizationState → Bool
  is_alive a clock r = is_state a.state_hash r && ltb clock r.expires_at

  unfoldable pub complete_github_link : GithubAuthorization → GithubIdentity → Tx (Unit {0})
  unfolding lock_github_session_tx lock_claimed_github_authorization_tx link_membership_identity_tx
      link_profile
  complete_github_link a identity = do
    require (is_link a identity) not_found
    lock_github_session_tx a.session_hash a.user_id
    lock_claimed_github_authorization_tx a
    if a.link_workspace_id == 0
        then link_profile a.user_id identity
        else link_membership_identity_tx a.link_workspace_id a.user_id identity
    alive ← reads (λ db. any (is_alive a db.clock) db.authorization_states)
    live ← reads (λ db. any (is_session a.session_hash a.user_id db.clock) db.sessions)
    require (alive && live) not_found
    change_states (is_state a.state_hash) completed
