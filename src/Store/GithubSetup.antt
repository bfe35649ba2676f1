-- ===== src/Store/GithubSetup.antt =====
-- github_setup.go: the states that an authorization at GitHub goes through, each bound to a session.
-- A transaction is one step, which is what the locks are for.
pub mod Authorize
pub mod Link
pub mod Once
pub mod Linked
pub mod Histories
use Prim.Native.String.{String}
use text.Mathlib.Text.{◌==◌ as str_eq}
use velvet.Common.{
  ℕ, ◌+◌, Option, none, some, Bool, true, false, not, ◌&&◌, ◌||◌, [], ◌∷◌, ◌++◌, ◌==◌, ltb, leb,
  any, find, select, update, is_some, get_or, if◌then◌else◌,
}
use velvet.Store.Db.{Db, Session, SetupState, AuthorizationState, Purpose, Phase, Workspace, User}
use velvet.Store.Tx.{
  Tx, not_found, database, pure, require, reads, modify, query_row, ◌>>=◌, ◌>>◌, draw_random,
}
use velvet.Store.Access.{lock_workspace_admin, check_workspace_member}
use velvet.Store.Library.{Library}
use velvet.Store.ApiToken.{hash_token}

-- `uuid.Nil` is 0.
pub record GithubAuthorization : Type 0 where
  pub state_hash : String
  pub session_hash : String
  pub user_id : ℕ
  pub purpose : Purpose
  pub setup_hash : String
  pub workspace_id : ℕ
  pub workspace_slug : String
  pub candidate_installation_id : ℕ
  pub verifier : String
  pub completed : Bool
  pub link_workspace_id : ℕ

abbrev pub same_purpose : Purpose → Purpose → Bool
same_purpose Purpose.link Purpose.link = true
same_purpose Purpose.installation Purpose.installation = true
same_purpose Purpose.link Purpose.installation = false
same_purpose Purpose.installation Purpose.link = false

abbrev pub in_installation : Phase → Bool
in_installation Phase.installation = true
in_installation _ = false

abbrev pub in_authorization : Phase → Bool
in_authorization Phase.authorization = true
in_authorization _ = false

abbrev pub is_completed : Phase → Bool
is_completed Phase.completed = true
is_completed _ = false

-- id=$1 AND user_id=$2 AND expires_at>clock_timestamp()
abbrev pub is_session : String → ℕ → ℕ → Session → Bool
is_session hash user_id clock s =
    str_eq s.id hash && (s.user_id == user_id && ltb clock s.expires_at)

unfoldable pub lock_github_session_tx : String → ℕ → Tx (Unit {0})
lock_github_session_tx hash user_id = do
  live ← reads (λ db. any (is_session hash user_id db.clock) db.sessions)
  require live not_found

abbrev pub is_setup : String → SetupState → Bool
is_setup hash g = str_eq g.token_hash hash

abbrev pub is_state : String → AuthorizationState → Bool
is_state hash a = str_eq a.token_hash hash

unfoldable pub insert_state : AuthorizationState → Tx (Unit {0})
insert_state row = do
  taken ← reads (λ db. any (is_state row.token_hash) db.authorization_states)
  require (not taken) database
  modify (λ db. record db { authorization_states = db.authorization_states ++ row ∷ [] })

unfoldable pub insert_setup : SetupState → Tx (Unit {0})
insert_setup row = do
  taken ← reads (λ db. any (is_setup row.token_hash) db.setup_states)
  require (not taken) database
  modify (λ db. record db { setup_states = db.setup_states ++ row ∷ [] })

abbrev pub change_states :
    (AuthorizationState → Bool) → (ℕ → AuthorizationState → AuthorizationState) → Tx (Unit {0})
change_states p f =
    modify
      (λ db. record db { authorization_states = update p (f db.clock) db.authorization_states })

abbrev pub change_setups : (SetupState → Bool) → (ℕ → SetupState → SetupState) → Tx (Unit {0})
change_setups p f =
    modify (λ db. record db { setup_states = update p (f db.clock) db.setup_states })

-- The state, the verifier, and the challenge for the verifier.
pub record Secrets : Type 0 where
  pub state : String
  pub verifier : String
  pub challenge : String

abbrev pub minimum : ℕ → ℕ → ℕ
minimum a b = if leb a b then a else b

abbrev pub claimed : ℕ → AuthorizationState → AuthorizationState
claimed clock a = record a { claimed_at = some clock; verifier = "" }

abbrev pub completed : ℕ → AuthorizationState → AuthorizationState
completed clock a = record a { completed_at = some clock; verifier = "" }

-- The setup that an authorization names, as GetGitHubAuthorization requires it.
abbrev pub fits_setup : ℕ → AuthorizationState → SetupState → Bool
fits_setup clock a g =
    str_eq g.session_id a.session_id
    && (g.user_id == a.user_id
        && (ltb clock g.expires_at
            && (ltb 0 (get_or g.candidate_installation_id 0)
                && (is_some g.claimed_at
                    && ((in_authorization g.phase
                          && (not (is_some g.completed_at) && not (is_some a.completed_at)))
                        || (is_completed g.phase
                            && (is_some g.completed_at && is_some a.completed_at)))))))

-- g.token_hash=a.setup_token_hash
abbrev pub setup_of : Db → AuthorizationState → Option SetupState
setup_of db a = elim a.setup_token_hash [
  | none ↦ none
  | some hash ↦ find (is_setup hash) db.setup_states
]

abbrev pub fits : ℕ → AuthorizationState → Option SetupState → Bool
fits clock a none = same_purpose a.purpose Purpose.link
fits clock a (some g) = same_purpose a.purpose Purpose.link || fits_setup clock a g

-- The conditions of `githubAuthorizationSelect`.
abbrev pub is_valid : Db → String → String → ℕ → AuthorizationState → Bool
is_valid db hash session_hash user_id a =
    is_state hash a
    && (str_eq a.session_id session_hash
        && (a.user_id == user_id
            && (any (is_session a.session_id a.user_id db.clock) db.sessions
                && (ltb db.clock a.expires_at && fits db.clock a (setup_of db a)))))

abbrev pub workspace_of : AuthorizationState → Option SetupState → Option ℕ
workspace_of a none = a.link_workspace_id
workspace_of a (some g) = some (get_or a.link_workspace_id g.workspace_id)

abbrev pub slug_of : Db → Option ℕ → String
slug_of db none = ""
slug_of db (some id) = elim (find (λ (w : Workspace). w.id == id) db.workspaces) [
  | none ↦ ""
  | some w ↦ w.slug
]

abbrev pub setup_workspace : Option SetupState → ℕ
setup_workspace none = 0
setup_workspace (some g) = g.workspace_id

abbrev pub setup_candidate : Option SetupState → ℕ
setup_candidate none = 0
setup_candidate (some g) = get_or g.candidate_installation_id 0

abbrev pub setup_hash_of : Option String → String
setup_hash_of none = ""
setup_hash_of (some hash) = hash

abbrev pub scan_github_authorization : Db → AuthorizationState → GithubAuthorization
scan_github_authorization db a = record {
  state_hash = a.token_hash;
  session_hash = a.session_id;
  user_id = a.user_id;
  purpose = a.purpose;
  setup_hash = setup_hash_of a.setup_token_hash;
  workspace_id = setup_workspace (setup_of db a);
  workspace_slug = slug_of db (workspace_of a (setup_of db a));
  candidate_installation_id = setup_candidate (setup_of db a);
  verifier = "";
  completed = is_some a.completed_at;
  link_workspace_id = get_or a.link_workspace_id 0;
}

abbrev pub find_authorization : String → String → ℕ → Db → Option GithubAuthorization
find_authorization hash session_hash user_id db =
    elim (find (is_valid db hash session_hash user_id) db.authorization_states) [
      | none ↦ none
      | some a ↦ some (scan_github_authorization db a)
    ]

-- ON DELETE CASCADE, from the setup states and the sessions that stay.
abbrev pub keeps_state : (String → Bool) → (String → Bool) → AuthorizationState → Bool
keeps_state session setup a =
    session a.session_id && (elim a.setup_token_hash [ none ↦ true | some hash ↦ setup hash ])

-- A session that goes takes its states along.
abbrev pub drop_sessions : (Session → Bool) → Db → Db
drop_sessions gone db =
    let is_gone =
      λ (hash : String). any (λ (s : Session). gone s && str_eq s.id hash) db.sessions in
    record db {
      sessions = select (λ s. not (gone s)) db.sessions;
      setup_states = select (λ (g : SetupState). not (is_gone g.session_id)) db.setup_states;
      authorization_states =
          select
            (keeps_state (λ hash. not (is_gone hash))
              (λ hash.
                any (λ (g : SetupState). is_setup hash g && not (is_gone g.session_id))
                  db.setup_states))
            db.authorization_states;
    }
