-- ===== src/Store/Comment/Mentions.antt =====
-- mention.go: who is named in a comment. `@login` names the member whose GitHub login it is.
use Prim.Native.String.{String}
use text.Mathlib.Text.{◌==◌ as str_eq}
use mathlib.Core.List.{map}
use velvet.Common.{
  ℕ, Option, none, some, Bool, false, not, ◌&&◌, ◌||◌, List, [], ◌∷◌, ◌++◌, ◌==◌, any, find, select,
  if◌then◌else◌,
}
use velvet.Store.Db.{Db, User, Membership, Identity, Mention}
use velvet.Store.Tx.{Tx, modify}
use velvet.Store.Library.{Library}

abbrev pub same_id : Option ℕ → ℕ → Bool
same_id none id = false
same_id (some i) id = i == id

abbrev pub is_mention : ℕ → ℕ → Mention → Bool
is_mention comment_id user_id x = x.comment_id == comment_id && x.user_id == user_id

abbrev pub new_mention : ℕ → User → Mention
new_mention comment_id u = record { comment_id = comment_id; user_id = u.id; read_at = none }

-- own.membership_id = m.id
abbrev pub has_identity : Db → Membership → Bool
has_identity db m = any (λ (g : Identity). g.membership_id == m.id) db.identities

module _ (lib : Library) where
  -- The logins, in lower case, each once.
  abbrev pub distinct : List String → List String → List String
  distinct seen [] = []
  distinct seen (s ∷ rest) =
      let login = lib.to_lower s in
      let after = distinct (login ∷ seen) rest in
      if any (str_eq login) seen then after else login ∷ after

  unfoldable pub parse_mentions : String → List String
  parse_mentions body = distinct [] (lib.logins_in body)

  abbrev pub same_login : Option String → String → Bool
  same_login none login = false
  same_login (some s) login = str_eq (lib.sql_lower s) login

  abbrev pub claims : Membership → User → Identity → Bool
  claims m u g =
      g.workspace_id == m.workspace_id
      && (not (g.user_id == m.user_id)
          && (same_id u.github_id g.github_id
              || same_login u.github_login (lib.sql_lower g.github_login)))

  -- `globalGitHubFallbackAvailable`, but for its first condition (`has_identity`).
  unfoldable pub fallback_available : Membership → User → Db → Bool
  fallback_available m u db = not (any (claims m u) db.identities)

  -- The login under which a member is known in the workspace.
  abbrev pub known_as : Membership → User → Db → Option String
  known_as m u db = elim (find (λ (g : Identity). g.membership_id == m.id) db.identities) [
    | some g ↦ some g.github_login
    | none ↦ if fallback_available m u db then u.github_login else none
  ]

  abbrev pub among : Option String → List String → Bool
  among none logins = false
  among (some s) logins = any (str_eq (lib.sql_lower s)) logins

  unfoldable pub is_named : ℕ → List String → Db → User → Bool
  is_named workspace_id logins db u =
      any
        (λ m.
          m.workspace_id == workspace_id && (m.user_id == u.id && among (known_as m u db) logins))
        db.memberships

  -- Who is named, by identifier.
  abbrev pub names_user : ℕ → List String → Db → ℕ → Bool
  names_user workspace_id logins db user_id =
      any (λ (u : User). u.id == user_id && is_named workspace_id logins db u) db.users

  abbrev pub kept_mentions : ℕ → ℕ → List String → Db → List Mention
  kept_mentions workspace_id comment_id logins db =
      select (λ x. not (x.comment_id == comment_id) || names_user workspace_id logins db x.user_id)
        db.mentions

  abbrev pub added_mentions : ℕ → ℕ → List String → Db → List Mention
  added_mentions workspace_id comment_id logins db = map (new_mention comment_id) (
      select
        (λ u.
          is_named workspace_id logins db u && not (any (is_mention comment_id u.id) db.mentions))
        db.users)

  unfoldable pub sync_comment_mentions : ℕ → ℕ → String → Tx (Unit {0})
  sync_comment_mentions workspace_id comment_id body = modify (λ db. record db {
    mentions =
        kept_mentions workspace_id comment_id (parse_mentions body) db
        ++ added_mentions workspace_id comment_id (parse_mentions body) db;
  })
