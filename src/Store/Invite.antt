-- ===== src/Store/Invite.antt =====
-- invite.go: inviting a person to a workspace by mail, with the constraints of the table.
pub mod Accept
use Prim.Native.String.{String}
use text.Mathlib.Text.{◌==◌ as str_eq}
use velvet.Common.{
  ℕ, ◌+◌, Option, none, some, Bool, not, ◌&&◌, ◌||◌, List, [], ◌∷◌, ◌++◌, ◌==◌, ◌=?◌, ltb, is_some,
  get_or, any, find, select, update, if◌then◌else◌,
}
use velvet.Store.Db.{User, Membership, Role, Invite, LoginToken, Verb, TargetType}
use velvet.Store.Tx.{
  Tx, not_found, forbidden, invalid_email, duplicate, pure, require, reads, modify, query_row,
  ◌>>=◌, ◌>>◌, draw_uuid, draw_random, record_activity,
}
use velvet.Store.Access.{lock_workspace, lock_workspace_admin, is_membership}
use velvet.Store.Library.{Library}
use velvet.Store.ApiToken.{hash_token}

-- Seven days.
abbrev pub invite_ttl : ℕ
invite_ttl = 604800

-- accepted_at IS NULL AND revoked_at IS NULL
abbrev pub is_unanswered : Invite → Bool
is_unanswered i = not (is_some i.accepted_at) && not (is_some i.revoked_at)

-- `liveInvite`
abbrev pub is_live : ℕ → Invite → Bool
is_live clock i = is_unanswered i && ltb clock i.expires_at

abbrev pub has_invite_id : ℕ → Invite → Bool
has_invite_id id i = i.id == id

abbrev pub is_open_invite : ℕ → ℕ → Invite → Bool
is_open_invite workspace_id id i = i.id == id && (i.workspace_id == workspace_id && is_unanswered i)

unfoldable pub lock_invite_workspace : ℕ → Tx (Unit {0})
lock_invite_workspace invite_id = do
  i ← query_row (λ db. find (has_invite_id invite_id) db.invites)
  lock_workspace i.workspace_id

-- UPDATE login_token SET consumed_at=COALESCE(consumed_at,now()) WHERE invite_id=$1
abbrev pub consume_of : ℕ → ℕ → List LoginToken → List LoginToken
consume_of now invite_id tokens =
    update (λ (t : LoginToken). t.invite_id =? some invite_id)
      (λ t. record t { consumed_at = some (get_or t.consumed_at now) }) tokens

unfoldable pub revoke_invite_tx : ℕ → ℕ → ℕ → Tx (Unit {0})
revoke_invite_tx workspace_id invite_id actor_id = do
  exists ← reads (λ db. any (is_open_invite workspace_id invite_id) db.invites)
  require exists not_found
  modify (λ db. record db {
    invites =
        update (is_open_invite workspace_id invite_id) (λ i. record i { revoked_at = some db.now })
          db.invites;
  })
  modify (λ db. record db { login_tokens = consume_of db.now invite_id db.login_tokens })
  record_activity workspace_id actor_id Verb.revoked_invite TargetType.invite invite_id

unfoldable pub revoke_invite : ℕ → ℕ → ℕ → Tx (Unit {0})
revoke_invite workspace_id invite_id actor_id = do
  lock_workspace_admin workspace_id actor_id
  revoke_invite_tx workspace_id invite_id actor_id

abbrev pub revoke_previous : ℕ → ℕ → Option Invite → Tx (Unit {0})
revoke_previous workspace_id actor_id none = pure tt
revoke_previous workspace_id actor_id (some i) = revoke_invite_tx workspace_id i.id actor_id

-- ON CONFLICT(workspace_id,user_id) DO NOTHING
unfoldable pub add_member : ℕ → ℕ → Role → Tx (Unit {0})
add_member workspace_id user_id role = do
  id ← draw_uuid
  let row : Membership = record {
    id = id;
    workspace_id = workspace_id;
    user_id = user_id;
    role = role;
  }
  modify (λ db. record db {
    memberships =
        if any (is_membership workspace_id user_id) db.memberships
        then db.memberships
        else db.memberships ++ row ∷ [];
  })

module _ (lib : Library) where
  abbrev pub mailbox_of : String → String
  mailbox_of email = lib.to_lower (lib.trim email)

  unfoldable pub normalize_email : String → Tx String
  normalize_email email = do
    require (lib.is_mailbox (mailbox_of email)) invalid_email
    pure (mailbox_of email)

  -- The unique columns, and `invite_pending_idx`.
  abbrev pub same_invite : Invite → Invite → Bool
  same_invite i j =
      i.id == j.id
      || (str_eq i.token_hash j.token_hash
          || (i.workspace_id == j.workspace_id
              && (str_eq (lib.sql_lower i.email) (lib.sql_lower j.email)
                  && (is_unanswered i && is_unanswered j))))

  unfoldable pub insert_invite_tx : ℕ → ℕ → String → Role → Tx (Invite × String)
  insert_invite_tx workspace_id actor_id email role = do
    raw ← draw_random 32
    let token = lib.base64 raw
    id ← draw_uuid
    now ← reads (λ db. db.now)
    let row : Invite = record {
      id = id;
      workspace_id = workspace_id;
      email = email;
      role = role;
      token_hash = hash_token lib token;
      invited_by = actor_id;
      expires_at = now + invite_ttl;
      accepted_at = none;
      revoked_at = none;
    }
    taken ← reads (λ db. any (same_invite row) db.invites)
    require (not taken) duplicate
    modify (λ db. record db { invites = db.invites ++ row ∷ [] })
    record_activity workspace_id actor_id Verb.invited_member TargetType.invite id
    pure (row, token)

  abbrev pub is_invited : ℕ → String → Invite → Bool
  is_invited workspace_id email i =
      i.workspace_id == workspace_id
      && (str_eq (lib.sql_lower (lib.btrim i.email)) email && is_unanswered i)

  unfoldable pub create_invite : ℕ → ℕ → String → Role → Tx (Invite × String)
  create_invite workspace_id actor_id email role = do
    address ← normalize_email email
    lock_workspace_admin workspace_id actor_id
    previous ← reads (λ db. find (is_invited workspace_id address) db.invites)
    revoke_previous workspace_id actor_id previous
    insert_invite_tx workspace_id actor_id address role

  -- No role keeps the previous one.
  unfoldable pub replace_invite : ℕ → ℕ → ℕ → Option Role → Tx (Invite × String)
  replace_invite workspace_id invite_id actor_id role = do
    lock_workspace_admin workspace_id actor_id
    previous ← query_row (λ db. find (is_open_invite workspace_id invite_id) db.invites)
    revoke_invite_tx workspace_id invite_id actor_id
    insert_invite_tx workspace_id actor_id previous.email (get_or role previous.role)

  unfoldable pub accept_invite_tx : ℕ → ℕ → Tx Membership
  accept_invite_tx invite_id user_id = do
    lock_invite_workspace invite_id
    i ← query_row (λ db. find (λ i. i.id == invite_id && is_live db.clock i) db.invites)
    user ← query_row (λ db. find (λ (u : User). u.id == user_id) db.users)
    email ← normalize_email user.email
    invited ← normalize_email i.email
    require (str_eq email invited) forbidden
    add_member i.workspace_id user_id i.role
    m ← query_row (λ db. find (is_membership i.workspace_id user_id) db.memberships)
    modify (λ db. record db {
      invites =
          update (has_invite_id i.id) (λ i. record i { accepted_at = some db.now }) db.invites;
    })
    record_activity i.workspace_id user_id Verb.accepted_invite TargetType.invite i.id
    pure m

  unfoldable pub accept_my_invite : ℕ → ℕ → Tx Membership
  accept_my_invite invite_id user_id = accept_invite_tx invite_id user_id

  unfoldable pub accept_invite_token : String → ℕ → Tx Membership
  accept_invite_token token user_id = do
    i ←
        query_row
          (λ db. find (λ (i : Invite). str_eq i.token_hash (hash_token lib token)) db.invites)
    accept_my_invite i.id user_id

  unfoldable pub preview_invite_token : String → Tx Invite
  preview_invite_token token = query_row (λ db.
      find (λ i. str_eq i.token_hash (hash_token lib token) && is_live db.clock i) db.invites)

  unfoldable pub list_workspace_invites : ℕ → Tx (List Invite)
  list_workspace_invites workspace_id =
      reads (λ db. select (λ i. i.workspace_id == workspace_id && is_live db.clock i) db.invites)
