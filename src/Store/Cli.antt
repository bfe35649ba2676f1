-- ===== src/Store/Cli.antt =====
-- cli_session.go: signing in from the command line by a short code. The client polls with a device
-- secret; a person approves or denies the code in a browser.
pub mod Collect
pub mod Keys
pub mod Machine
pub mod Answers
pub mod Polls
pub mod Starts
pub mod Moves
pub mod Once
pub mod Code
use Prim.Native.String.{String, ◌++◌ as joined_with}
use text.Mathlib.Text.{◌==◌ as str_eq}
use mathlib.Core.List.{map}
use velvet.Common.{
  ℕ, zero, suc, ◌+◌, ◌%◌, Option, none, some, Bool, true, false, not, ◌&&◌, ◌||◌, [], ◌∷◌, ◌++◌,
  ◌==◌, ltb, length, get_elem?, get_or, take, drop, any, find, select, update, if◌then◌else◌,
}
use velvet.Common.Text.{Bytes, codes, same_bytes}
use velvet.Store.Db.{Db, CliSession, CliStatus, CliFlow, pending, approved, denied}
use velvet.Store.Tx.{
  Tx, Result, ok, err, not_found, forbidden, foreign_reference, duplicate, no_user_code, require,
  reads, modify, query_row, ◌>>=◌, ◌>>◌,
}
use velvet.Store.Access.{role_of, is_writer}
use velvet.Store.Project.{is_project}
use velvet.Store.Library.{Library}
use velvet.Store.ApiToken.{hash_token}

abbrev pub cli_session_ttl : ℕ
cli_session_ttl = 600

abbrev pub cli_user_code_length : ℕ
cli_user_code_length = 8

abbrev pub cli_user_code_alphabet : Bytes
cli_user_code_alphabet = codes "ABCDEFGHJKMNPQRSTUVWXYZ23456789"

-- strings.ContainsRune
abbrev pub in_alphabet : ℕ → Bool
in_alphabet c = any (λ a. a == c) cli_user_code_alphabet

unfoldable pub format_user_code : Bytes → Bytes
format_user_code code =
    if length code == cli_user_code_length then take 4 code ++ b'-' ∷ drop 4 code else code

abbrev pub letter : ℕ → ℕ
letter b = get_or (get_elem? cli_user_code_alphabet (b % 31)) 0

unfoldable pub new_user_code : Db → Bytes × Db
new_user_code db = (
  map letter (db.random_at db.randoms cli_user_code_length),
  record db { randoms = suc db.randoms },
)

abbrev pub is_pending : CliStatus → Bool
is_pending pending = true
is_pending _ = false

abbrev pub flow_number : CliFlow → ℕ
flow_number CliFlow.init = 0
flow_number CliFlow.login = 1
flow_number CliFlow.manage = 2
flow_number CliFlow.desktop = 3

abbrev pub same_flow : CliFlow → CliFlow → Bool
same_flow a b = flow_number a == flow_number b

abbrev pub flow_of : String → Option CliFlow
flow_of name =
    if str_eq name "init"
    then some CliFlow.init
    else if str_eq name "login"
    then some CliFlow.login
    else if str_eq name "manage"
    then some CliFlow.manage
    else if str_eq name "desktop"
    then some CliFlow.desktop
    else none

-- WHERE user_code = $1 AND status = 'pending' AND expires_at > now()
abbrev pub is_open_code : Bytes → ℕ → CliSession → Bool
is_open_code code now s =
    same_bytes s.user_code code && (is_pending s.status && ltb now s.expires_at)

-- The primary key, and the unique columns.
abbrev pub same_key : CliSession → CliSession → Bool
same_key s t =
    s.id == t.id || (str_eq s.device_hash t.device_hash || same_bytes s.user_code t.user_code)

-- INSERT INTO cli_session
unfoldable pub insert_cli_session : CliSession → Tx (Unit {0})
insert_cli_session row = do
  taken ← reads (λ db. any (same_key row) db.cli_sessions)
  require (not taken) duplicate
  modify (λ db. record db { cli_sessions = db.cli_sessions ++ row ∷ [] })

-- DELETE FROM cli_session WHERE expires_at < now() - interval '1 hour'
unfoldable pub purge_expired : Db → Db
purge_expired db = record db {
  cli_sessions = select (λ s. not (ltb (s.expires_at + 3600) db.now)) db.cli_sessions;
}

unfoldable pub new_session : String → String → CliFlow → Bytes → Db → CliSession
new_session device_hash client_name flow code db = record {
  id = db.uuid_at db.drawn;
  device_hash = device_hash;
  user_code = code;
  client_name = client_name;
  status = pending;
  flow = flow;
  approved_by = none;
  workspace_id = none;
  project_id = none;
  api_token_id = none;
  expires_at = db.now + cli_session_ttl;
}

-- The result of an attempt; the next attempts are made if a key was taken.
abbrev pub attempted :
    CliSession → Db → Result (Unit {0} × Db) → Result CliSession × Db → Result CliSession × Db
attempted row mid (ok (u, db)) rest = (ok row, db)
attempted row mid (err duplicate) rest = rest
attempted row mid (err e) rest = (err e, mid)

-- The loop, with the attempts that are left. Each insertion is a transaction of its own.
unfoldable pub allocate : ℕ → String → String → CliFlow → Db → Result CliSession × Db
allocate zero device_hash client_name flow db = (err no_user_code, db)
allocate (suc left) device_hash client_name flow db =
    let drawn = new_user_code db in
    let row = new_session device_hash client_name flow drawn.0 drawn.1 in
    let mid : Db = record drawn.1 { drawn = suc drawn.1.drawn } in
    let rest = allocate left device_hash client_name flow mid in
    attempted row mid (insert_cli_session row mid) rest

abbrev pub is_open_init : Bytes → ℕ → CliSession → Bool
is_open_init code now s = is_open_code code now s && same_flow s.flow CliFlow.init

abbrev pub approve : ℕ → ℕ → ℕ → CliSession → CliSession
approve approver_id workspace_id project_id s = record s {
  status = approved;
  approved_by = some approver_id;
  workspace_id = some workspace_id;
  project_id = some project_id;
}

abbrev pub is_open_flow : CliFlow → Bytes → ℕ → CliSession → Bool
is_open_flow flow code now s = is_open_code code now s && same_flow s.flow flow

abbrev pub approve_for : ℕ → CliSession → CliSession
approve_for approver_id s = record s { status = approved; approved_by = some approver_id }

abbrev pub is_unscoped : CliFlow → Bool
is_unscoped CliFlow.init = false
is_unscoped _ = true

abbrev pub with_device : String → Result CliSession × Db → Result (String × CliSession) × Db
with_device device (ok s, db) = (ok (device, s), db)
with_device device (err e, db) = (err e, db)

module _ (lib : Library) where
  unfoldable pub normalize_user_code : Bytes → Bytes
  normalize_user_code code = select in_alphabet (map lib.upper_rune code)

  abbrev pub client_name_of : String → String
  client_name_of name =
      let trimmed = lib.trim name in
      if str_eq trimmed "" || ltb 100 (lib.byte_length trimmed) then "velvet CLI" else trimmed

  abbrev pub device_of : Db → String
  device_of db = joined_with "velvetdev_" (lib.hex (db.random_at db.randoms 32))

  unfoldable pub create_cli_session_for_flow :
      String → String → Db → Result (String × CliSession) × Db
  create_cli_session_for_flow client_name flow_name db = elim (flow_of flow_name) [
    | none ↦ (err forbidden, db)
    | some flow ↦
        let device = device_of db in
        with_device device (
          allocate 5 (hash_token lib device) (client_name_of client_name) flow
            (purge_expired (record db { randoms = suc db.randoms })))
  ]

  unfoldable pub create_cli_session : String → Db → Result (String × CliSession) × Db
  create_cli_session client_name db = create_cli_session_for_flow client_name "init" db

  unfoldable pub cli_session_by_code : Bytes → Tx CliSession
  cli_session_by_code code =
      query_row (λ db. find (is_open_code (normalize_user_code code) db.now) db.cli_sessions)

  unfoldable pub approve_cli_session : Bytes → ℕ → ℕ → ℕ → Tx (Unit {0})
  approve_cli_session code approver_id workspace_id project_id = do
    row ← query_row (λ db. find (is_open_init (normalize_user_code code) db.now) db.cli_sessions)
    role ← query_row (λ db. role_of db workspace_id approver_id)
    require (is_writer role) forbidden
    exists ← reads (λ db. any (is_project workspace_id project_id) db.projects)
    require exists foreign_reference
    modify (λ db. record db {
      cli_sessions =
          update (λ (s : CliSession). s.id == row.id) (approve approver_id workspace_id project_id)
            db.cli_sessions;
    })

  unfoldable pub deny_cli_session : Bytes → Tx (Unit {0})
  deny_cli_session code = do
    exists ← reads (λ db. any (is_open_code (normalize_user_code code) db.now) db.cli_sessions)
    require exists not_found
    modify (λ db. record db {
      cli_sessions =
          update (is_open_code (normalize_user_code code) db.now)
            (λ s. record s { status = denied }) db.cli_sessions;
    })

  unfoldable pub approve_open : Bytes → ℕ → CliFlow → Tx (Unit {0})
  approve_open code approver_id flow = do
    require (is_unscoped flow) forbidden
    exists ← reads (λ db. any (is_open_flow flow (normalize_user_code code) db.now) db.cli_sessions)
    require exists not_found
    modify (λ db. record db {
      cli_sessions =
          update (is_open_flow flow (normalize_user_code code) db.now) (approve_for approver_id)
            db.cli_sessions;
    })

  unfoldable pub approve_cli_unscoped : Bytes → ℕ → String → Tx (Unit {0})
  unfolding approve_open
  approve_cli_unscoped code approver_id flow_name = elim (flow_of flow_name) [
    | none ↦ λ db. err forbidden
    | some flow ↦ approve_open code approver_id flow
  ]
