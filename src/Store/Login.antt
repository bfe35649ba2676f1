-- ===== src/Store/Login.antt =====
-- login_token.go, login_confirmation.go, session.go and the sessions of user.go: signing in by a link
-- that is sent by mail.
pub mod Limits
pub mod Once
use Prim.Native.String.{String, ◌++◌ as joined_with}
use text.Mathlib.Text.{◌==◌ as str_eq}
use velvet.Common.{
  ℕ, ◌+◌, Option, none, some, Bool, not, ◌&&◌, ◌||◌, [], ◌∷◌, ◌++◌, ◌==◌, ltb, leb, is_some, length,
  take, drop, all, any, find, select, update, if◌then◌else◌,
}
use velvet.Common.Text.{Bytes, codes, same_bytes}
use velvet.Store.Db.{Workspace, User, LoginToken, Session}
use velvet.Store.Tx.{
  Tx, ok, err, not_found, forbidden, invalid_ip, invalid_return_path, rate_limited, database, pure,
  require, reads, modify, query_row, ◌>>=◌, ◌>>◌, draw_uuid, draw_random, throw,
}
use velvet.Store.Access.{is_membership}
use velvet.Store.Library.{Library}
use velvet.Store.GithubSetup.{drop_sessions}
use velvet.Store.ApiToken.{hash_token}
use velvet.Store.Cli.{in_alphabet}
use velvet.Store.Invite.{normalize_email, lock_invite_workspace, accept_invite_tx}

abbrev pub login_token_ttl : ℕ
login_token_ttl = 900

abbrev pub login_email_limit : ℕ
login_email_limit = 5

abbrev pub login_ip_limit : ℕ
login_ip_limit = 20

-- Thirty days.
abbrev pub session_ttl : ℕ
session_ttl = 2592000

abbrev pub cli_login_return : Bytes → Bool
cli_login_return path =
    length path == 27
    && (same_bytes (take 18 path) (codes "/cli/approve?code=")
        && (all in_alphabet (take 4 (drop 18 path))
            && (same_bytes (take 1 (drop 22 path)) (codes "-") && all in_alphabet (drop 23 path))))

unfoldable pub valid_login_return_to : String → Bool
valid_login_return_to path = str_eq path "" || cli_login_return (codes path)

-- created_at > now() - interval '15 minutes'
abbrev pub is_recent : ℕ → LoginToken → Bool
is_recent now t = ltb now (t.created_at + 900)

abbrev pub from_ip : String → ℕ → LoginToken → Bool
from_ip ip now t = str_eq t.request_ip ip && is_recent now t

unfoldable pub insert_login_token : LoginToken → Tx (Unit {0})
insert_login_token row = do
  taken ← reads (λ db. any (λ (t : LoginToken). str_eq t.token_hash row.token_hash) db.login_tokens)
  require (not taken) database
  modify (λ db. record db { login_tokens = db.login_tokens ++ row ∷ [] })

unfoldable pub insert_session : Session → Tx (Unit {0})
insert_session row = do
  taken ← reads (λ db. any (λ (s : Session). str_eq s.id row.id) db.sessions)
  require (not taken) database
  modify (λ db. record db { sessions = db.sessions ++ row ∷ [] })

abbrev pub not_empty : String → Bool
not_empty s = not (str_eq s "")

pub record LoginResult : Type 0 where
  pub session_token : String
  pub next : String

-- ErrForbidden becomes ErrNotFound.
abbrev pub hide_forbidden : {A : Type 0} → Tx A → Tx A
hide_forbidden m db = elim (m db) [
  | ok r ↦ ok r
  | err e ↦ elim e [ forbidden ↦ err not_found | e' ↦ err e' ]
]

abbrev pub page_of : Workspace → String
page_of w = joined_with "/w/" w.slug

module _ (lib : Library) where
  unfoldable pub normalize_ip : String → Tx String
  normalize_ip ip = elim (lib.canonical_ip (lib.trim ip)) [
    | none ↦ throw invalid_ip
    | some address ↦ pure address
  ]

  -- The tokens that count against an address.
  abbrev pub for_email : String → ℕ → LoginToken → Bool
  for_email email now t = str_eq (lib.sql_lower t.email) email && is_recent now t

  unfoldable pub issue_login_token_with_return_to : String → String → Option ℕ → String → Tx String
  issue_login_token_with_return_to email ip invite_id return_to = do
    require (valid_login_return_to return_to && not (is_some invite_id && not_empty return_to))
        invalid_return_path
    address ← normalize_email lib email
    source ← normalize_ip ip
    raw ← draw_random 32
    let token = lib.base64 raw
    now ← reads (λ db. db.now)
    email_count ← reads (λ db. length (select (for_email address now) db.login_tokens))
    require (ltb email_count login_email_limit) rate_limited
    ip_count ← reads (λ db. length (select (from_ip source now) db.login_tokens))
    require (ltb ip_count login_ip_limit) rate_limited
    insert_login_token (record {
      token_hash = hash_token lib token;
      email = address;
      invite_id = invite_id;
      request_ip = source;
      return_to = return_to;
      expires_at = now + login_token_ttl;
      consumed_at = none;
      created_at = now;
    })
    pure token

  unfoldable pub issue_login_token : String → String → Option ℕ → Tx String
  issue_login_token email ip invite_id = issue_login_token_with_return_to email ip invite_id ""

  abbrev pub has_email : String → User → Bool
  has_email email u = str_eq (lib.sql_lower u.email) (lib.sql_lower email)

  -- INSERT INTO app_user ... ON CONFLICT (lower(email)) DO UPDATE SET email=EXCLUDED.email
  unfoldable pub upsert_user : String → Tx User
  upsert_user email = do
    id ← draw_uuid
    modify (λ db. record db {
      users =
          if any (has_email email) db.users
          then update (has_email email) (λ u. record u { email = email }) db.users
          else db.users
            ++ (record { id = id; email = email; github_id = none; github_login = none }) ∷ [];
    })
    query_row (λ db. find (has_email email) db.users)

  unfoldable pub upsert_user_by_email : String → Tx User
  upsert_user_by_email email = upsert_user (lib.to_lower (lib.trim email))

  abbrev pub has_hash : String → LoginToken → Bool
  has_hash token t = str_eq t.token_hash (hash_token lib token)

  -- consumed_at IS NULL AND expires_at>clock_timestamp()
  abbrev pub is_usable : String → ℕ → LoginToken → Bool
  is_usable token clock t =
      has_hash token t && (not (is_some t.consumed_at) && ltb clock t.expires_at)

  abbrev pub lock_invite : Option ℕ → Tx (Unit {0})
  lock_invite none = pure tt
  lock_invite (some invite_id) = lock_invite_workspace invite_id

  -- The workspace to remember and the page to show.
  unfoldable pub destination : Option ℕ → ℕ → Tx (Option ℕ × String)
  destination (some invite_id) user_id = do
    m ← hide_forbidden (accept_invite_tx lib invite_id user_id)
    w ← query_row (λ db. find (λ (w : Workspace). w.id == m.workspace_id) db.workspaces)
    pure (some w.id, page_of w)
  destination none user_id = do
    w ← reads (λ db.
        find (λ (w : Workspace). any (is_membership w.id user_id) db.memberships) db.workspaces)
    pure (elim w [ none ↦ (none, "/onboarding") | some w ↦ (some w.id, page_of w) ])

  unfoldable pub start_session : ℕ → Option ℕ → ℕ → Tx String
  start_session user_id workspace_id expires_at = do
    raw ← draw_random 32
    let token = lib.base64 raw
    insert_session (record {
      id = hash_token lib token;
      user_id = user_id;
      last_workspace_id = workspace_id;
      expires_at = expires_at;
    })
    pure token

  unfoldable pub confirm_login : String → Tx LoginResult
  confirm_login token = do
    found ← query_row (λ db. find (has_hash token) db.login_tokens)
    lock_invite found.invite_id
    locked ← query_row (λ db. find (has_hash token) db.login_tokens)
    fresh ← query_row (λ db. find (is_usable token db.clock) db.login_tokens)
    modify (λ db. record db {
      login_tokens =
          update (is_usable token db.clock) (λ t. record t { consumed_at = some db.clock })
            db.login_tokens;
    })
    user ← upsert_user fresh.email
    place ← destination found.invite_id user.id
    clock ← reads (λ db. db.clock)
    session ← start_session user.id place.0 (clock + session_ttl)
    pure (record {
      session_token = session;
      next =
          if not_empty locked.return_to && valid_login_return_to locked.return_to
          then locked.return_to
          else place.1;
    })

  unfoldable pub create_session : ℕ → ℕ → Tx String
  create_session user_id ttl = do now ← reads (λ db. db.now); start_session user_id none (now + ttl)

  unfoldable pub user_by_session_token : String → Tx User
  user_by_session_token token = do
    s ← query_row (λ db.
        find (λ (s : Session). str_eq s.id (hash_token lib token) && ltb db.now s.expires_at)
          db.sessions)
    query_row (λ db. find (λ (u : User). u.id == s.user_id) db.users)

  unfoldable pub delete_session : String → Tx (Unit {0})
  delete_session token = modify (drop_sessions (λ s. str_eq s.id (hash_token lib token)))

  unfoldable pub remember_workspace : String → ℕ → Tx (Unit {0})
  remember_workspace token workspace_id = modify (λ db. record db {
    sessions =
        update
          (λ (s : Session).
            str_eq s.id (hash_token lib token)
            && any (is_membership workspace_id s.user_id) db.memberships)
          (λ s. record s { last_workspace_id = some workspace_id }) db.sessions;
  })

unfoldable pub delete_expired_sessions : Tx ℕ
delete_expired_sessions = do
  gone ← reads (λ db. length (select (λ (s : Session). leb s.expires_at db.now) db.sessions))
  modify (λ db. drop_sessions (λ s. leb s.expires_at db.now) db)
  pure gone
