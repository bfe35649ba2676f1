-- ===== src/Store/Tests/Logins.antt =====
-- Runs of the invitations and of signing in by mail, and the theorems about them at these runs.
use velvet.Common.{◌≡◌, refl, none, some, [], ◌∷◌, ◌++◌, arith}
use velvet.Store.Db.{Db, Role, Invite as Row, LoginToken, Membership}
use velvet.Store.Tx.{err, not_found}
use velvet.Store.Access.{lock_workspace_admin}
use velvet.Store.ApiToken.{hash_token}
use velvet.Store.Invite
use velvet.Store.Invite.Accept.{GivesRole, accept_invite_tx-GivesRole, accept_invite_tx-once}
use velvet.Store.Login
use velvet.Store.Login.{LoginResult}
use velvet.Store.Login.Limits.{WithinLimits, issue_login_token_with_return_to-WithinLimits}
use velvet.Store.Login.Once.{confirm_login-once, revoke_invite-confirm_login}
use velvet.Store.Tests.{office, state_of, value_of, store}
use velvet.Store.Tests.Tokens.{plain}

abbrev invitation : Row
invitation = record {
  id = 60;
  workspace_id = 1;
  email = "bob@example.com";
  role = Role.member;
  token_hash = "cd";
  invited_by = 7;
  expires_at = 900;
  accepted_at = none;
  revoked_at = none;
}

abbrev link : LoginToken
link = record {
  token_hash = "ab";
  email = "bob@example.com";
  invite_id = some 60;
  request_ip = "192.0.2.1";
  return_to = "";
  expires_at = 900;
  consumed_at = none;
  created_at = 40;
}

-- Bob has an account, and an invitation with a link.
abbrev inviting : Db
inviting = record office {
  users =
      office.users
      ++ (record { id = 8; email = "bob@example.com"; github_id = none; github_login = none }) ∷ [];
  invites = invitation ∷ [];
  login_tokens = link ∷ [];
}

abbrev nobody : Membership
nobody = record { id = 0; workspace_id = 0; user_id = 0; role = Role.viewer }

accept_invite_tx-GivesRole_example :
    GivesRole plain 60 8 inviting (state_of (Invite.accept_invite_tx plain 60 8 inviting) inviting)
unfolding store Invite.accept_invite_tx Invite.lock_invite_workspace Invite.normalize_email
    Invite.add_member
accept_invite_tx-GivesRole_example =
    accept_invite_tx-GivesRole plain 60 8 inviting
      {m = value_of (Invite.accept_invite_tx plain 60 8 inviting) nobody} refl

accept_invite_tx-once_example :
    Invite.accept_invite_tx plain 60 7
      (state_of (Invite.accept_invite_tx plain 60 8 inviting) inviting)
    ≡ err not_found
unfolding store Invite.accept_invite_tx Invite.lock_invite_workspace Invite.normalize_email
    Invite.add_member
accept_invite_tx-once_example =
    accept_invite_tx-once plain 60 8 7 inviting
      (state_of (Invite.accept_invite_tx plain 60 8 inviting) inviting)
      {m = value_of (Invite.accept_invite_tx plain 60 8 inviting) nobody} refl refl

issue_login_token_with_return_to-WithinLimits_example : WithinLimits plain (
    state_of
      (Login.issue_login_token_with_return_to plain "eve@example.com" "192.0.2.1" none "" office)
      office)
unfolding store Login.issue_login_token_with_return_to Login.valid_login_return_to
    Login.normalize_ip Invite.normalize_email Login.insert_login_token hash_token
issue_login_token_with_return_to-WithinLimits_example =
    issue_login_token_with_return_to-WithinLimits plain "eve@example.com" "192.0.2.1" none "" office
      {token = value_of
        (Login.issue_login_token_with_return_to plain "eve@example.com" "192.0.2.1" none "" office)
        ""}
      refl refl (record { emails = λ email. omega arith; ips = λ ip. omega arith })

abbrev confirmed : Db
confirmed = state_of (Login.confirm_login plain "secret" inviting) inviting

confirm_login-once_example : Login.confirm_login plain "secret" confirmed ≡ err not_found
unfolding store Login.confirm_login Login.upsert_user Login.destination Login.start_session
    Login.insert_session Login.valid_login_return_to Invite.accept_invite_tx
    Invite.lock_invite_workspace Invite.normalize_email Invite.add_member hash_token
confirm_login-once_example =
    confirm_login-once plain "secret" inviting confirmed
      {r = value_of (Login.confirm_login plain "secret" inviting)
        (record { session_token = ""; next = "" })}
      refl refl (omega arith)

abbrev revoked : Db
revoked = state_of (Invite.revoke_invite 1 60 7 inviting) inviting

revoke_invite-confirm_login_example : Login.confirm_login plain "secret" revoked ≡ err not_found
unfolding store Invite.revoke_invite Invite.revoke_invite_tx lock_workspace_admin
revoke_invite-confirm_login_example =
    revoke_invite-confirm_login plain "secret" 1 60 7 inviting revoked {u = tt} refl
      ((λ _. refl), tt) refl
