-- ===== src/Store/GithubSetup/Authorize.antt =====
-- github_setup.go: the steps of an authorization at GitHub.
use Prim.Native.String.{String}
use text.Mathlib.Text.{◌==◌ as str_eq}
use velvet.Common.{
  ℕ, ◌+◌, Option, none, some, Bool, not, ◌&&◌, ◌==◌, ltb, any, find, is_some, get_or, update,
  if◌then◌else◌, ◌=?◌,
}
use velvet.Store.Db.{SetupState, AuthorizationState, Purpose, Phase, User}
use velvet.Store.Tx.{
  Tx, not_found, pure, require, reads, modify, query_row, ◌>>=◌, ◌>>◌, draw_random,
}
use velvet.Store.Access.{lock_workspace_admin, check_workspace_member}
use velvet.Store.Library.{Library}
use velvet.Store.ApiToken.{hash_token}
use velvet.Store.GithubSetup.{
  GithubAuthorization, Secrets, same_purpose, in_installation, in_authorization, is_session,
  lock_github_session_tx, is_setup, is_state, insert_state, insert_setup, change_states,
  change_setups, minimum, claimed, completed, find_authorization, setup_hash_of,
}

-- UPDATE github_setup_state ... WHERE
abbrev pub is_unclaimed : String → String → ℕ → ℕ → SetupState → Bool
is_unclaimed hash session_hash user_id clock g =
    is_setup hash g
    && (str_eq g.session_id session_hash
        && (g.user_id == user_id
            && (ltb clock g.expires_at
                && (in_installation g.phase
                    && (not (is_some g.claimed_at) && not (is_some g.completed_at))))))

abbrev pub claimed_for : ℕ → ℕ → SetupState → SetupState
claimed_for candidate clock g = record g {
  phase = Phase.authorization;
  claimed_at = some clock;
  candidate_installation_id = some candidate;
}

-- The claim that an authorization is still on, in github_authorization_state and in session.
abbrev pub is_claimed : GithubAuthorization → ℕ → AuthorizationState → Bool
is_claimed a clock r =
    is_state a.state_hash r
    && (str_eq r.session_id a.session_hash
        && (r.user_id == a.user_id
            && (same_purpose r.purpose a.purpose
                && (str_eq (setup_hash_of r.setup_token_hash) a.setup_hash
                    && (is_some r.claimed_at
                        && (not (is_some r.completed_at)
                            && (ltb clock r.expires_at
                                && get_or r.link_workspace_id 0 == a.link_workspace_id)))))))

unfoldable pub lock_claimed_github_authorization_tx : GithubAuthorization → Tx (Unit {0})
lock_claimed_github_authorization_tx a = do
  row ← reads (λ db. any (is_claimed a db.clock) db.authorization_states)
  live ← reads (λ db. any (is_session a.session_hash a.user_id db.clock) db.sessions)
  require (row && live) not_found

abbrev pub is_pending : GithubAuthorization → ℕ → SetupState → Bool
is_pending a clock g =
    is_setup a.setup_hash g
    && (str_eq g.session_id a.session_hash
        && (g.user_id == a.user_id
            && (g.workspace_id == a.workspace_id
                && (g.candidate_installation_id =? some a.candidate_installation_id
                    && (in_authorization g.phase
                        && (is_some g.claimed_at
                            && (not (is_some g.completed_at) && ltb clock g.expires_at)))))))

unfoldable pub lock_github_installation_authorization_tx : GithubAuthorization → Tx (Unit {0})
unfolding lock_github_session_tx lock_claimed_github_authorization_tx
lock_github_installation_authorization_tx a = do
  require
      (same_purpose a.purpose Purpose.installation
        && (not (str_eq a.setup_hash "") && not (a.candidate_installation_id == 0)))
      not_found
  lock_workspace_admin a.workspace_id a.user_id
  lock_github_session_tx a.session_hash a.user_id
  pending ← reads (λ db. any (is_pending a db.clock) db.setup_states)
  require pending not_found
  lock_claimed_github_authorization_tx a

abbrev pub finished : ℕ → SetupState → SetupState
finished clock g = record g { phase = Phase.completed; completed_at = some clock }

unfoldable pub complete_github_installation_authorization_tx : GithubAuthorization → Tx (Unit {0})
unfolding lock_github_installation_authorization_tx
complete_github_installation_authorization_tx a = do
  lock_github_installation_authorization_tx a
  change_setups (is_setup a.setup_hash) finished
  change_states (is_state a.state_hash) completed

module _ (lib : Library) where
  unfoldable pub github_secrets : Tx Secrets
  github_secrets = do
    first ← draw_random 32
    second ← draw_random 32
    pure (record {
      state = lib.base64 first;
      verifier = lib.base64 second;
      challenge = lib.base64 (lib.sha256 (lib.base64 second));
    })

  -- Zero is no organisation.
  abbrev pub check_link_workspace : ℕ → ℕ → Tx (Unit {0})
  check_link_workspace workspace_id user_id =
      if workspace_id == 0 then pure tt else check_workspace_member workspace_id user_id

  abbrev pub link_of : ℕ → Option ℕ
  link_of workspace_id = if workspace_id == 0 then none else some workspace_id

  unfoldable pub create_github_link_authorization : String → ℕ → ℕ → Tx (String × String)
  unfolding github_secrets lock_github_session_tx insert_state
  create_github_link_authorization session user_id workspace_id = do
    s ← github_secrets
    lock_github_session_tx (hash_token lib session) user_id
    check_link_workspace workspace_id user_id
    clock ← reads (λ db. db.clock)
    insert_state (record {
      token_hash = hash_token lib s.state;
      session_id = hash_token lib session;
      user_id = user_id;
      purpose = Purpose.link;
      setup_token_hash = none;
      verifier = s.verifier;
      link_workspace_id = link_of workspace_id;
      claimed_at = none;
      completed_at = none;
      expires_at = clock + 900;
    })
    pure (s.state, s.challenge)

  unfoldable pub create_github_setup : String → ℕ → ℕ → Tx String
  unfolding lock_github_session_tx insert_setup
  create_github_setup session user_id workspace_id = do
    bytes ← draw_random 32
    let state = lib.base64 bytes
    lock_workspace_admin workspace_id user_id
    lock_github_session_tx (hash_token lib session) user_id
    clock ← reads (λ db. db.clock)
    insert_setup (record {
      token_hash = hash_token lib state;
      session_id = hash_token lib session;
      user_id = user_id;
      workspace_id = workspace_id;
      candidate_installation_id = none;
      phase = Phase.installation;
      claimed_at = none;
      completed_at = none;
      expires_at = clock + 900;
    })
    pure state

  abbrev pub is_setup_of : String → String → ℕ → SetupState → Bool
  is_setup_of setup session user_id g =
      is_setup (hash_token lib setup) g
      && (str_eq g.session_id (hash_token lib session) && g.user_id == user_id)

  unfoldable pub start_github_installation_authorization :
      String → String → ℕ → ℕ → Tx (String × String)
  unfolding github_secrets lock_github_session_tx insert_state
  start_github_installation_authorization setup session user_id candidate = do
    require (not (candidate == 0)) not_found
    s ← github_secrets
    g ← query_row (λ db. find (is_setup_of setup session user_id) db.setup_states)
    lock_workspace_admin g.workspace_id user_id
    lock_github_session_tx (hash_token lib session) user_id
    open_setup ← query_row (λ db.
        find (is_unclaimed (hash_token lib setup) (hash_token lib session) user_id db.clock)
          db.setup_states)
    change_setups (is_setup (hash_token lib setup)) (claimed_for candidate)
    clock ← reads (λ db. db.clock)
    insert_state (record {
      token_hash = hash_token lib s.state;
      session_id = hash_token lib session;
      user_id = user_id;
      purpose = Purpose.installation;
      setup_token_hash = some open_setup.token_hash;
      verifier = s.verifier;
      link_workspace_id = none;
      claimed_at = none;
      completed_at = none;
      expires_at = minimum open_setup.expires_at (clock + 900);
    })
    pure (s.state, s.challenge)

  unfoldable pub get_github_authorization : String → String → ℕ → Tx GithubAuthorization
  get_github_authorization state session user_id =
      query_row (find_authorization (hash_token lib state) (hash_token lib session) user_id)

  -- token_hash=$1 AND claimed_at IS NULL
  abbrev pub is_open_state : String → AuthorizationState → Bool
  is_open_state hash r = is_state hash r && not (is_some r.claimed_at)

  unfoldable pub claim_github_authorization : String → String → ℕ → Purpose → Tx GithubAuthorization
  unfolding lock_github_session_tx
  claim_github_authorization state session user_id purpose = do
    lock_github_session_tx (hash_token lib session) user_id
    a ← query_row (find_authorization (hash_token lib state) (hash_token lib session) user_id)
    require (same_purpose a.purpose purpose && not a.completed) not_found
    r ← query_row (λ db. find (is_open_state (hash_token lib state)) db.authorization_states)
    change_states (is_state (hash_token lib state)) claimed
    pure (record a { verifier = r.verifier })

  unfoldable pub unlink_github : String → ℕ → Tx (Unit {0})
  unfolding lock_github_session_tx
  unlink_github session user_id = do
    lock_github_session_tx (hash_token lib session) user_id
    modify (λ db. record db {
      users =
          update (λ (u : User). u.id == user_id)
            (λ u. record u { github_id = none; github_login = none }) db.users;
    })
