-- ===== src/Store/Invite/Accept.antt =====
-- Accepting an invitation: what it gives, to whom, and only once.
use Prim.Native.String.{String}
use text.Mathlib.TextEquality.{eq_iff}
use velvet.Common.{
  ℕ, suc, ◌≡◌, refl, sym, ap, ◌∙◌, Option, none, some, Bool, true, false, ◌&&◌, List, [], ◌∷◌, ◌++◌,
  ◌==◌, arith, is_some, any, find, find_test, update, if◌then◌else◌, Bool-cases, Option-cases, inl,
  inr, get_or,
}
use velvet.Common.In.{find-append}
use velvet.Store.Db.{Db, User, Membership, Role, Invite as Row, Workspace}
use velvet.Store.Tx.{ok, err, not_found, ◌>>=◌}
use velvet.Store.Tx.Steps.{
  IsRead, IsRead-bind, IsRead-require, IsRead-pure, IsRead-query_row, modify_ok,
}
use velvet.Store.Tx.Ensures.{
  Ensures, Ensures-any, Ensures-bind, Ensures-pure, Ensures-read, Ensures-require,
  Ensures-query_row, Ensures-modify, Ensures-draw_uuid, Ensures-record_activity,
}
use velvet.Store.Access.{lock_workspace, is_membership, role_of}
use velvet.Store.Access.Reads.{IsRead-lock_workspace}
use velvet.Store.Library.{Library}
use velvet.Store.Invite

pub IsRead-lock_invite_workspace : (id : ℕ) → IsRead (Invite.lock_invite_workspace id)
unfolding Invite.lock_invite_workspace
IsRead-lock_invite_workspace id =
    IsRead-bind _ _ (IsRead-query_row _) (λ i. IsRead-lock_workspace _)

pub IsRead-normalize_email :
    (lib : Library) (email : String) → IsRead (Invite.normalize_email lib email)
unfolding Invite.normalize_email
IsRead-normalize_email lib email = IsRead-bind _ _ (IsRead-require _ _) (λ _. IsRead-pure _)

pub normalize_email-mailbox :
    (lib : Library) (email : String) (db : Db)
    → Ensures
        (Invite.normalize_email lib email)
        db
        (λ address _. address ≡ Invite.mailbox_of lib email)
unfolding Invite.normalize_email
normalize_email-mailbox lib email db = Ensures-require _ _ _ db λ _. Ensures-pure _ db refl

abbrev pub with_member : ℕ → ℕ → Membership → List Membership → List Membership
with_member w user row ms = if any (is_membership w user) ms then ms else ms ++ row ∷ []

abbrev pub accept_row : ℕ → Row → Row
accept_row now i = record i { accepted_at = some now }

-- What a successful acceptance did: the invitation was live, it was made out to the user's address,
-- the user is a member, and the invitation is answered.
pub record Accepted (lib : Library) (invite_id user_id : ℕ) (db db' : Db) : Type 0 where
  pub invite : Row
  pub user : User
  pub member : Membership
  pub found : find (λ i. i.id == invite_id && Invite.is_live db.clock i) db.invites ≡ some invite
  pub account : find (λ (u : User). u.id == user_id) db.users ≡ some user
  pub addressed : Invite.mailbox_of lib user.email ≡ Invite.mailbox_of lib invite.email
  pub joins :
      (member.workspace_id ≡ invite.workspace_id)
      × (member.user_id ≡ user_id)
      × (member.role ≡ invite.role)
  pub members : db'.memberships ≡ with_member invite.workspace_id user_id member db.memberships
  pub invites : db'.invites ≡ update (Invite.has_invite_id invite.id) (accept_row db.now) db.invites

record Joined (w user_id : ℕ) (role : Role) (db mid : Db) : Type 0 where
  member : Membership
  joins : (member.workspace_id ≡ w) × (member.user_id ≡ user_id) × (member.role ≡ role)
  members : mid.memberships ≡ with_member w user_id member db.memberships
  invites : mid.invites ≡ db.invites
  time : mid.now ≡ db.now

add_member-Joined :
    (w user_id : ℕ) (role : Role) (db : Db)
    → Ensures (Invite.add_member w user_id role) db (λ _ mid. Joined w user_id role db mid)
unfolding Invite.add_member
add_member-Joined w user_id role db = Ensures-draw_uuid _ db (
    Ensures-any _ _ λ _ mid e.
      let same = modify_ok _ (record db { drawn = suc db.drawn }) e in
      record {
        member = record {
          id = db.uuid_at db.drawn;
          workspace_id = w;
          user_id = user_id;
          role = role;
        };
        joins = (refl, refl, refl);
        members = ap (λ (d : Db). d.memberships) same;
        invites = ap (λ (d : Db). d.invites) same;
        time = ap (λ (d : Db). d.now) same;
      })

module _ (lib : Library) (invite_id user_id : ℕ) where
  pub accept_invite_tx-Accepted :
      (db : Db)
      → Ensures
          (Invite.accept_invite_tx lib invite_id user_id)
          db
          (λ _ db'. Accepted lib invite_id user_id db db')
  unfolding Invite.accept_invite_tx
  accept_invite_tx-Accepted db = Ensures-read _ _ db (IsRead-lock_invite_workspace invite_id) λ _ _.
      Ensures-query_row _ _ db λ i found. Ensures-query_row _ _ db λ u account.
        Ensures-read _ _ db (IsRead-normalize_email lib u.email) λ email e.
          Ensures-read _ _ db (IsRead-normalize_email lib i.email) λ invited e'.
            Ensures-require _ _ _ db λ same.
              Ensures-bind _ _ _ db (add_member-Joined i.workspace_id user_id i.role db) λ _ mid j.
                Ensures-query_row _ _ mid λ m _. Ensures-modify _ _ mid (
                  Ensures-record_activity _ _ _ _ _ _ _ λ log. Ensures-pure _ _ (record {
                    invite = i;
                    user = u;
                    member = j.member;
                    found = found;
                    account = account;
                    addressed =
                        sym ((normalize_email-mailbox lib u.email db).at email db e)
                        ∙ (eq_iff email invited).0 same
                        ∙ (normalize_email-mailbox lib i.email db).at invited db e';
                    joins = j.joins;
                    members = j.members;
                    invites = (λ k.
                        update (Invite.has_invite_id i.id) (accept_row (j.time k)) (j.invites k));
                  }))

is_membership_iff :
    (w u : ℕ) (m : Membership) → m.workspace_id ≡ w → m.user_id ≡ u → is_membership w u m ≡ true
is_membership_iff w u m h k = ground (arith, h, k)

abbrev member_role : Option Membership → Option Role
member_role o = elim o [ none ↦ none | some m ↦ some m.role ]

abbrev role_in : List Membership → ℕ → ℕ → Option Role
role_in ms v u = member_role (find (is_membership v u) ms)

any-find : (p : Membership → Bool) (ms : List Membership) → any p ms ≡ is_some (find p ms)
any-find p [] = refl
any-find p (m ∷ ms) = let rest = any-find p ms in ground arith

module _ (w user_id : ℕ) (row : Membership) (h : row.workspace_id ≡ w) (k : row.user_id ≡ user_id)
    (ms : List Membership) where
  role_in_self :
      role_in (with_member w user_id row ms) w user_id
      ≡ some (get_or (role_in ms w user_id) row.role)
  role_in_self = elim (Option-cases (find (is_membership w user_id) ms)) [
    | inl e ↦
        let free = any-find (is_membership w user_id) ms ∙ ap is_some e in
        let mine = is_membership_iff w user_id row h k in
        let shape : with_member w user_id row ms ≡ ms ++ row ∷ [] = rw (with_member, free) refl in
        ap (λ x. role_in x w user_id) shape
        ∙ ap member_role (find-append (is_membership w user_id) ms row)
        ∙ (rw (e, mine) refl)
    | inr (m, e) ↦
        let taken = any-find (is_membership w user_id) ms ∙ ap is_some e in rw (taken, e) refl
  ]

  role_in_other :
      (v u : ℕ)
      → (v == w && u == user_id) ≡ false
      → role_in (with_member w user_id row ms) v u ≡ role_in ms v u
  role_in_other v u n =
      let apart : is_membership v u row ≡ false = ground (arith, h, k) in
      elim (Bool-cases (any (is_membership w user_id) ms)) [
        | inl taken ↦ rw taken refl
        | inr free ↦
            let shape : with_member w user_id row ms ≡ ms ++ row ∷ [] =
              rw (with_member, free) refl in
            let last : find (is_membership v u) (ms ++ row ∷ []) ≡ find (is_membership v u) ms =
              find-append (is_membership v u) ms row
              ∙ elim (Option-cases (find (is_membership v u) ms)) [
                | inl e ↦ rw (e, apart) refl
                | inr (m, e) ↦ rw e refl
              ] in
            ap (λ x. role_in x v u) shape ∙ ap member_role last
      ]

-- The roles after a member is added.
role_of-with_member :
    (db db' : Db) (w user_id : ℕ) (row : Membership)
    → row.workspace_id ≡ w
    → row.user_id ≡ user_id
    → db'.memberships ≡ with_member w user_id row db.memberships
    → (v u : ℕ)
    → role_of db' v u ≡ (
        if v == w && u == user_id
        then some (get_or (role_of db w user_id) row.role)
        else role_of db v u)
role_of-with_member db db' w user_id row h k e v u = elim (Bool-cases (v == w && u == user_id)) [
  | inl y ↦
      let ev : v ≡ w = ground arith in
      let eu : u ≡ user_id = ground arith in
      rw y (
        (λ t. role_of db' (ev t) (eu t))
        ∙ ap (λ ms. role_in ms w user_id) e
        ∙ role_in_self w user_id row h k db.memberships)
  | inr n ↦
      rw n (ap (λ ms. role_in ms v u) e ∙ role_in_other w user_id row h k db.memberships v u n)
]

-- The invitation was live, and made out to the user's address. The user has the role of the invitation
-- in its workspace, or the role that the user had; nobody else's role changed.
abbrev pub GivesRole : Library → ℕ → ℕ → Db → Db → Type 0
GivesRole lib invite_id user_id db db' =
    (i : Row) × (user : User) × (find (λ j. j.id == invite_id && Invite.is_live db.clock j)
        db.invites
      ≡ some i)
    × (find (λ (x : User). x.id == user_id) db.users ≡ some user)
    × (Invite.mailbox_of lib user.email ≡ Invite.mailbox_of lib i.email)
    × ((w u : ℕ)
        → role_of db' w u ≡ (
            if w == i.workspace_id && u == user_id
            then some (get_or (role_of db i.workspace_id user_id) i.role)
            else role_of db w u))

-- A successful acceptance gives the user the role of the invitation in its workspace, unless the user
-- was a member, whose role stays; nobody else's role changes. The invitation was live, and made out to
-- the user's address.
pub accept_invite_tx-GivesRole :
    (lib : Library) (invite_id user_id : ℕ) (db : Db) {m : Membership} {db' : Db}
    → Invite.accept_invite_tx lib invite_id user_id db ≡ ok (m, db')
    → GivesRole lib invite_id user_id db db'
accept_invite_tx-GivesRole lib invite_id user_id db {m} {db'} h =
    let a = (accept_invite_tx-Accepted lib invite_id user_id db).at m db' h in
    let roles =
      role_of-with_member db db' a.invite.workspace_id user_id a.member a.joins.0 a.joins.1
        a.members in
    (
      a.invite,
      a.user,
      a.found,
      a.account,
      a.addressed,
      λ w u.
          roles w u
          ∙ ap
              (λ r.
                if w == a.invite.workspace_id && u == user_id
                then some (get_or (role_of db a.invite.workspace_id user_id) r)
                else role_of db w u)
              a.joins.2,
    )

-- No row with the identifier is live after the rows with it were accepted.
answered :
    (id now clock : ℕ) (rows : List Row)
    → find
        (λ i. i.id == id && Invite.is_live clock i)
        (update (Invite.has_invite_id id) (accept_row now) rows)
      ≡ none
answered id now clock [] = refl
answered id now clock (i ∷ rows) =
    let rest = answered id now clock rows in
    elim (Bool-cases (i.id == id)) [ inl y ↦ rw (y, y) rest | inr n ↦ rw (n, n) rest ]

not_live-not_found :
    (lib : Library) (invite_id other : ℕ) (db : Db)
    → find (λ i. i.id == invite_id && Invite.is_live db.clock i) db.invites ≡ none
    → Invite.accept_invite_tx lib invite_id other db ≡ err not_found
unfolding Invite.accept_invite_tx Invite.lock_invite_workspace lock_workspace ◌>>=◌
not_live-not_found lib invite_id other db e =
    elim (Option-cases (find (Invite.has_invite_id invite_id) db.invites)) [
      | inl n ↦ rw (Invite.accept_invite_tx, Invite.lock_invite_workspace, n) refl
      | inr (i, y) ↦
          elim (Option-cases (find (λ (w : Workspace). w.id == i.workspace_id) db.workspaces)) [
            | inl n ↦ rw (y, n) refl
            | inr (w, y') ↦ rw (y, y', e) refl
          ]
    ]

-- An invitation that was accepted cannot be accepted again, by anybody.
pub accept_invite_tx-once :
    (lib : Library) (invite_id user_id other : ℕ) (db db'' : Db) {m : Membership} {db' : Db}
    → Invite.accept_invite_tx lib invite_id user_id db ≡ ok (m, db')
    → db''.invites ≡ db'.invites
    → Invite.accept_invite_tx lib invite_id other db'' ≡ err not_found
accept_invite_tx-once lib invite_id user_id other db db'' {m} {db'} h same =
    let a = (accept_invite_tx-Accepted lib invite_id user_id db).at m db' h in
    let shown : a.invite.id ≡ invite_id =
      let t = find_test (λ i. i.id == invite_id && Invite.is_live db.clock i) db.invites a.found in
      ground arith in
    let rows =
      same
      ∙ a.invites
      ∙ ap (λ id. update (Invite.has_invite_id id) (accept_row db.now) db.invites) shown in
    not_live-not_found lib invite_id other db'' (
      ap (find (λ i. i.id == invite_id && Invite.is_live db''.clock i)) rows
      ∙ answered invite_id db.now db''.clock db.invites)
