-- ===== src/Store/Login/Once.antt =====
-- A login link works once, and not after its invitation was revoked.
use Prim.Native.String.{String}
use velvet.Common.{
  ℕ, ◌≤◌, ◌≡◌, refl, sym, ap, ◌∙◌, Option, none, some, true, false, List, [], ◌∷◌, ◌=?◌, arith,
  get_or, =?_iff, find, update, All, Bool-cases, Option-cases, inl, inr, ◌⊎◌, ◌==◌,
}
use velvet.Store.Db.{Db, LoginToken, Workspace, Verb, TargetType}
use velvet.Store.Tx.{Tx, ok, err, not_found, ◌>>=◌, record_activity, draw_random}
use velvet.Store.Tx.Steps.{IsRead, IsRead-pure}
use velvet.Store.Tx.Frame.{
  Frame, Frame-read, Frame-pure, Frame-reads, Frame-query_row, Frame-require, Frame-modify,
  Frame-draw_uuid, Frame-bind,
}
use velvet.Store.Tx.Ensures.{
  Ensures, Ensures-any, Ensures-read, Ensures-reads, Ensures-require, Ensures-query_row,
  Ensures-modify,
}
use velvet.Store.Access.{lock_workspace}
use velvet.Store.Access.Reads.{IsRead-lock_workspace_admin}
use velvet.Store.Library.{Library}
use velvet.Store.Invite
use velvet.Store.Invite.Accept.{IsRead-lock_invite_workspace, IsRead-normalize_email}
use velvet.Store.Login
use velvet.Store.Login.{has_hash, is_usable}

tokens : Db → List LoginToken
tokens db = db.login_tokens

Frame-record_activity :
    (w a : ℕ) (v : Verb) (t : TargetType) (id : ℕ) → Frame tokens (record_activity w a v t id)
unfolding record_activity tokens
Frame-record_activity w a v t id = record { at = λ db u db' h. ground arith }

Frame-draw_random : (size : ℕ) → Frame tokens (draw_random size)
unfolding draw_random tokens
Frame-draw_random size = record { at = λ db a db' h. ground arith }

Frame-hide_forbidden :
    {A : Type 0} (m : Tx A) → Frame tokens m → Frame tokens (Login.hide_forbidden m)
Frame-hide_forbidden m f = record { at = λ db a db' h. f.at db a db' (ground arith) }

module _ (lib : Library) where
  Frame-accept_invite_tx :
      (invite user : ℕ) → Frame tokens (Invite.accept_invite_tx lib invite user)
  unfolding Invite.accept_invite_tx Invite.add_member tokens
  Frame-accept_invite_tx invite user =
      Frame-bind _ _ _ (Frame-read _ _ (IsRead-lock_invite_workspace invite)) λ _.
        Frame-bind _ _ _ (Frame-query_row _ _) λ i. Frame-bind _ _ _ (Frame-query_row _ _) λ u.
          Frame-bind _ _ _ (Frame-read _ _ (IsRead-normalize_email lib u.email)) λ _.
            Frame-bind _ _ _ (Frame-read _ _ (IsRead-normalize_email lib i.email)) λ _.
              Frame-bind _ _ _ (Frame-require _ _ _) λ _.
                Frame-bind _ _ _
                  (Frame-bind _ _ _ (Frame-draw_uuid _ (λ _ _. refl))
                    λ _. Frame-modify _ _ (λ _. refl))
                  λ _. Frame-bind _ _ _ (Frame-query_row _ _) λ _.
                    Frame-bind _ _ _ (Frame-modify _ _ (λ _. refl))
                      λ _. Frame-bind _ _ _ (Frame-record_activity _ _ _ _ _) λ _. Frame-pure _ _

  Frame-upsert_user : (email : String) → Frame tokens (Login.upsert_user lib email)
  unfolding Login.upsert_user tokens
  Frame-upsert_user email =
      Frame-bind _ _ _ (Frame-draw_uuid _ (λ _ _. refl))
        λ _. Frame-bind _ _ _ (Frame-modify _ _ (λ _. refl)) λ _. Frame-query_row _ _

  Frame-destination :
      (invite : Option ℕ) (user : ℕ) → Frame tokens (Login.destination lib invite user)
  unfolding Login.destination tokens
  Frame-destination none user = Frame-bind _ _ _ (Frame-reads _ _) λ _. Frame-pure _ _
  Frame-destination (some invite) user =
      Frame-bind _ _ _ (Frame-hide_forbidden _ (Frame-accept_invite_tx invite user))
        λ _. Frame-bind _ _ _ (Frame-query_row _ _) λ _. Frame-pure _ _

  Frame-start_session :
      (user : ℕ) (w : Option ℕ) (expires : ℕ)
      → Frame tokens (Login.start_session lib user w expires)
  unfolding Login.start_session Login.insert_session tokens
  Frame-start_session user w expires = Frame-bind _ _ _ (Frame-draw_random _) λ _.
      Frame-bind _ _ _
        (Frame-bind _ _ _ (Frame-reads _ _)
          λ _. Frame-bind _ _ _ (Frame-require _ _ _) λ _. Frame-modify _ _ (λ _. refl))
        λ _. Frame-pure _ _

  IsRead-lock_invite : (invite : Option ℕ) → IsRead (Login.lock_invite lib invite)
  IsRead-lock_invite none = IsRead-pure tt
  IsRead-lock_invite (some id) = IsRead-lock_invite_workspace id

  abbrev consumed : String → ℕ → List LoginToken → List LoginToken
  consumed token clock ts =
      update (is_usable lib token clock) (λ t. record t { consumed_at = some clock }) ts

  confirm_login-consumes :
      (token : String) (db : Db)
      → Ensures
          (Login.confirm_login lib token)
          db
          (λ _ db'. db'.login_tokens ≡ consumed token db.clock db.login_tokens)
  unfolding Login.confirm_login tokens
  confirm_login-consumes token db = Ensures-query_row _ _ db λ found _.
      Ensures-read _ _ db (IsRead-lock_invite found.invite_id) λ _ _.
        Ensures-query_row _ _ db λ _ _. Ensures-query_row _ _ db λ fresh _. Ensures-modify _ _ db (
          Ensures-any _ _ λ out db' h.
            (Frame-bind tokens _ _ (Frame-upsert_user fresh.email) λ user.
                Frame-bind tokens _ _ (Frame-destination found.invite_id user.id) λ place.
                  Frame-bind tokens _ _ (Frame-reads tokens _) λ clock.
                    Frame-bind tokens _ _ (Frame-start_session user.id place.0 _)
                      λ _. Frame-pure tokens _).at
              _ out db' h)

-- No link with this secret can be used.
abbrev IsDead : Library → String → ℕ → List LoginToken → Type 0
IsDead lib token clock ts = find (is_usable lib token clock) ts ≡ none

lock_invite_workspace-result :
    (id : ℕ) (db : Db)
    → (Invite.lock_invite_workspace id db ≡ ok (tt, db))
      ⊎ (Invite.lock_invite_workspace id db ≡ err not_found)
unfolding Invite.lock_invite_workspace lock_workspace ◌>>=◌
lock_invite_workspace-result id db =
    elim (Option-cases (find (Invite.has_invite_id id) db.invites)) [
      | inl n ↦ inr (rw (Invite.lock_invite_workspace, n) refl)
      | inr (i, y) ↦
          elim (Option-cases (find (λ (w : Workspace). w.id == i.workspace_id) db.workspaces)) [
            | inl n ↦ inr (rw (Invite.lock_invite_workspace, y, n) refl)
            | inr (w, y') ↦ inl (rw (Invite.lock_invite_workspace, y, y') refl)
          ]
    ]

lock_invite-result :
    (lib : Library) (invite : Option ℕ) (db : Db)
    → (Login.lock_invite lib invite db ≡ ok (tt, db))
      ⊎ (Login.lock_invite lib invite db ≡ err not_found)
unfolding ◌>>=◌
lock_invite-result lib none db = inl refl
lock_invite-result lib (some id) db = lock_invite_workspace-result id db

dead-confirm_login :
    (lib : Library) (token : String) (db : Db)
    → IsDead lib token db.clock db.login_tokens
    → Login.confirm_login lib token db ≡ err not_found
unfolding Login.confirm_login ◌>>=◌
dead-confirm_login lib token db dead =
    elim (Option-cases (find (has_hash lib token) db.login_tokens)) [
      | inl n ↦ rw (Login.confirm_login, n) refl
      | inr (t, y) ↦ elim (lock_invite-result lib t.invite_id db) [
        | inl locked ↦ rw (Login.confirm_login, y) (rw locked (rw (y, dead) refl))
        | inr failed ↦ rw (Login.confirm_login, y) (rw failed refl)
      ]
    ]

consumed-IsDead :
    (lib : Library) (token : String) (clock later : ℕ) (ts : List LoginToken)
    → clock ≤ later
    → IsDead lib token later (consumed lib token clock ts)
consumed-IsDead lib token clock later [] h = refl
consumed-IsDead lib token clock later (t ∷ ts) h =
    let rest = consumed-IsDead lib token clock later ts h in
    elim (Bool-cases (is_usable lib token clock t)) [
      | inl y ↦ rw y (ground arith)
      | inr n ↦ let still : is_usable lib token later t ≡ false = ground arith in rw (n, still) rest
    ]

-- After a successful `ConfirmLogin`, the same link is answered by `ErrNotFound` at any later time,
-- while the tokens stay as they are.
pub confirm_login-once :
    (lib : Library) (token : String) (db db'' : Db) {r : Login.LoginResult} {db' : Db}
    → Login.confirm_login lib token db ≡ ok (r, db')
    → db''.login_tokens ≡ db'.login_tokens
    → db.clock ≤ db''.clock
    → Login.confirm_login lib token db'' ≡ err not_found
confirm_login-once lib token db db'' {r} {db'} h same later =
    let rows = same ∙ (confirm_login-consumes lib token db).at r db' h in
    dead-confirm_login lib token db'' (
      ap (find (is_usable lib token db''.clock)) rows
      ∙ consumed-IsDead lib token db.clock db''.clock db.login_tokens later)

-- The links of an invitation.
abbrev pub OfInvite : Library → String → ℕ → LoginToken → Type 0
OfInvite lib token invite_id t = has_hash lib token t ≡ true → t.invite_id ≡ some invite_id

revoked-IsDead :
    (lib : Library) (token : String) (invite_id now clock : ℕ) (ts : List LoginToken)
    → All (OfInvite lib token invite_id) ts
    → IsDead lib token clock (Invite.consume_of now invite_id ts)
revoked-IsDead lib token invite_id now clock [] h = refl
revoked-IsDead lib token invite_id now clock (t ∷ ts) h =
    let rest = revoked-IsDead lib token invite_id now clock ts h.1 in
    elim (Bool-cases (t.invite_id =? some invite_id)) [
      | inl y ↦
          let used : is_usable lib token clock
                (record t { consumed_at = some (get_or t.consumed_at now) })
              ≡ false =
            ground arith in
          rw y (rw used rest)
      | inr n ↦
          let other : has_hash lib token t ≡ false = elim (Bool-cases (has_hash lib token t)) [
            | inl e ↦ let wrong = sym n ∙ (=?_iff t.invite_id (some invite_id)).1 (h.0 e) in cc
            | inr e ↦ e
          ] in
          let unusable : is_usable lib token clock t ≡ false = ground arith in
          rw n (rw unusable rest)
    ]

revoke_invite-consumes :
    (workspace_id invite_id actor_id : ℕ) (db : Db)
    → Ensures
        (Invite.revoke_invite workspace_id invite_id actor_id)
        db
        (λ _ db'. db'.login_tokens ≡ Invite.consume_of db.now invite_id db.login_tokens)
unfolding Invite.revoke_invite Invite.revoke_invite_tx tokens
revoke_invite-consumes workspace_id invite_id actor_id db =
    Ensures-read _ _ db (IsRead-lock_workspace_admin workspace_id actor_id) λ _ _.
      Ensures-reads _ _ db (
        Ensures-require _ _ _ db λ _. Ensures-modify _ _ db (
          Ensures-modify _ _ _
            (Ensures-any _ _ λ u db' h. (Frame-record_activity _ _ _ _ _).at _ u db' h)))

-- After `RevokeInvite`, every link that was sent for the invitation is answered by `ErrNotFound`,
-- while the tokens stay as they are.
pub revoke_invite-confirm_login :
    (lib : Library) (token : String) (workspace_id invite_id actor_id : ℕ) (db db'' : Db)
    {u : Unit {0}} {db' : Db}
    → Invite.revoke_invite workspace_id invite_id actor_id db ≡ ok (u, db')
    → All (OfInvite lib token invite_id) db.login_tokens
    → db''.login_tokens ≡ db'.login_tokens
    → Login.confirm_login lib token db'' ≡ err not_found
revoke_invite-confirm_login lib token workspace_id invite_id actor_id db db'' {u} {db'} h of same =
    let rows = same ∙ (revoke_invite-consumes workspace_id invite_id actor_id db).at u db' h in
    dead-confirm_login lib token db'' (
      ap (find (is_usable lib token db''.clock)) rows
      ∙ revoked-IsDead lib token invite_id db.now db''.clock db.login_tokens of)
