-- ===== src/Store/ApiToken.antt =====
-- api_token.go: the tokens of the interface, with the constraints of the table.
pub mod Limit
use Prim.Native.String.{String, ◌++◌ as joined_with}
use text.Mathlib.Text.{◌==◌ as str_eq, starts_with}
use velvet.Common.{
  ℕ, ◌+◌, Option, none, some, Bool, true, false, not, ◌&&◌, ◌||◌, List, [], ◌∷◌, ◌++◌, ◌==◌, ◌=?◌,
  ltb, is_some, get_or, length, any, find, select, update, if◌then◌else◌,
}
use velvet.Store.Db.{Db, User, ApiToken, TokenKind, personal, setup, desktop, project}
use velvet.Store.Tx.{
  Tx, not_found, invalid_api_token_name, api_token_limit, database, duplicate, pure, require, reads,
  modify, query_row, ◌>>=◌, ◌>>◌, draw_uuid, draw_random,
}
use velvet.Store.Library.{Library}

abbrev pub api_token_limit_count : ℕ
api_token_limit_count = 20

abbrev pub api_token_prefix : String
api_token_prefix = "velvet_"

abbrev pub setup_token_prefix : String
setup_token_prefix = "velvetsetup_"

-- `none` is the empty kind.
pub record TokenScope : Type 0 where
  pub kind : Option TokenKind
  pub parent_id : Option ℕ
  pub workspace_id : Option ℕ
  pub project_id : Option ℕ

abbrev pub is_scoped : TokenScope → Bool
is_scoped s = is_some s.project_id

abbrev pub kind_number : TokenKind → ℕ
kind_number personal = 0
kind_number setup = 1
kind_number desktop = 2
kind_number project = 3

abbrev pub same_kind : TokenKind → TokenKind → Bool
same_kind a b = kind_number a == kind_number b

-- The kind that is stored.
unfoldable pub stored_kind : TokenScope → TokenKind
stored_kind s = get_or s.kind (if is_scoped s then project else personal)

abbrev pub is_setup : Option TokenKind → Bool
is_setup none = false
is_setup (some k) = same_kind k setup

-- The constraints `api_token_scope_check` and `api_token_kind_check`.
abbrev pub allowed_row : ApiToken → Bool
allowed_row t =
    ((is_some t.workspace_id && is_some t.project_id)
      || (not (is_some t.workspace_id) && not (is_some t.project_id)))
    && (if same_kind t.kind project
        then is_some t.project_id
        else not (is_some t.project_id) && not (is_some t.parent_id))

-- The unique indexes.
abbrev pub clashes : ApiToken → ApiToken → Bool
clashes t u =
    t.id == u.id
    || (str_eq t.token_hash u.token_hash
        || ((t.user_id == u.user_id && str_eq t.name u.name)
            || (is_some t.parent_id
                && ((t.parent_id =? u.parent_id)
                    && (is_some t.project_id && (t.project_id =? u.project_id))))))

abbrev pub tokens_of : ℕ → List ApiToken → ℕ
tokens_of user_id ts = length (select (λ (t : ApiToken). t.user_id == user_id) ts)

-- INSERT INTO api_token
unfoldable pub insert_api_token : ApiToken → Tx (Unit {0})
insert_api_token row = do
  require (allowed_row row) database
  taken ← reads (λ db. any (clashes row) db.api_tokens)
  require (not taken) duplicate
  modify (λ db. record db { api_tokens = db.api_tokens ++ row ∷ [] })

abbrev pub no_scope : TokenScope
no_scope = record { kind = none; parent_id = none; workspace_id = none; project_id = none }

abbrev recently_used : ℕ → Option ℕ → Bool
recently_used now none = false
recently_used now (some used) = not (ltb (used + 60) now)

module _ (lib : Library) where
  unfoldable pub hash_token : String → String
  hash_token token = lib.hex (lib.sha256 token)

  unfoldable pub api_token_hash : String → String
  unfolding hash_token
  api_token_hash raw =
      if starts_with raw setup_token_prefix
      then hash_token (joined_with "cli-setup:" raw)
      else hash_token raw

  unfoldable pub create_api_token_tx : ℕ → String → TokenScope → Tx (String × ℕ)
  create_api_token_tx user_id name scope = do
    let trimmed = lib.trim name
    require (not (str_eq trimmed "")) invalid_api_token_name
    raw ← draw_random 32
    let prefix = if is_setup scope.kind then setup_token_prefix else api_token_prefix
    let token = joined_with prefix (lib.hex raw)
    count ← reads (λ db. tokens_of user_id db.api_tokens)
    require (ltb count api_token_limit_count) api_token_limit
    id ← draw_uuid
    insert_api_token (record {
      id = id;
      user_id = user_id;
      name = trimmed;
      token_hash = api_token_hash token;
      workspace_id = scope.workspace_id;
      project_id = scope.project_id;
      kind = stored_kind scope;
      parent_id = scope.parent_id;
      last_used_at = none;
    })
    pure (token, id)

  unfoldable pub create_api_token : ℕ → String → Tx String
  create_api_token user_id name = do
    created ← create_api_token_tx user_id name no_scope
    pure created.0

  -- The touch of `last_used_at` rides along; the row that is returned does not show it.
  unfoldable pub lookup_api_token : String → Tx (User × ℕ × TokenScope)
  lookup_api_token raw_token = do
    let hash = api_token_hash raw_token
    found ← query_row (λ db. find (λ (t : ApiToken). str_eq t.token_hash hash) db.api_tokens)
    modify (λ db. record db {
      api_tokens =
          update (λ t. str_eq t.token_hash hash && not (recently_used db.now t.last_used_at))
            (λ t. record t { last_used_at = some db.now }) db.api_tokens;
    })
    user ← query_row (λ db. find (λ (u : User). u.id == found.user_id) db.users)
    pure (
      user,
      found.id,
      record {
        kind = some found.kind;
        parent_id = found.parent_id;
        workspace_id = found.workspace_id;
        project_id = found.project_id;
      },
    )

-- Deleting a token deletes its children, and the sign-ins that it was minted for.
abbrev pub gone : (ApiToken → Bool) → List ApiToken → ℕ → Bool
gone t ts id = any (λ (r : ApiToken). r.id == id && t r) ts

abbrev pub child_of_gone : (ApiToken → Bool) → List ApiToken → Option ℕ → Bool
child_of_gone t ts none = false
child_of_gone t ts (some id) = gone t ts id

-- `t` also holds of the children of the tokens that it holds of.
abbrev pub with_children : (ApiToken → Bool) → List ApiToken → ApiToken → Bool
with_children t ts r = t r || child_of_gone t ts r.parent_id

unfoldable pub delete_tokens : (ApiToken → Bool) → Db → Db
delete_tokens t db =
    let removed = with_children t db.api_tokens in
    record db {
      api_tokens = select (λ r. not (removed r)) db.api_tokens;
      cli_sessions =
          select (λ s. not (child_of_gone removed db.api_tokens s.api_token_id)) db.cli_sessions;
      comments =
          update (λ c. child_of_gone removed db.api_tokens c.api_token_id)
            (λ c. record c { api_token_id = none }) db.comments;
    }

unfoldable pub delete_api_token : ℕ → ℕ → Tx (Unit {0})
delete_api_token user_id id = do
  let is_row = λ (t : ApiToken). t.user_id == user_id && t.id == id
  exists ← reads (λ db. any is_row db.api_tokens)
  require exists not_found
  modify (delete_tokens is_row)

unfoldable pub revoke_api_token_by_id : ℕ → Tx (Unit {0})
revoke_api_token_by_id id = modify (delete_tokens (λ t. t.id == id))
