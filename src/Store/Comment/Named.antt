-- ===== src/Store/Comment/Named.antt =====
-- The mentions of a comment are those whom its text names.
use Prim.Native.String.{String}
use mathlib.Core.List.{map}
use velvet.Common.{
  ℕ, ◌≡◌, refl, ap, ◌∙◌, Bool, true, false, not, ◌&&◌, ◌||◌, List, [], ◌∷◌, ◌++◌, ◌==◌, arith, any,
  select, Bool-cases, ==_iff, inl, inr,
}
use velvet.Store.Db.{Db, User, Mention}
use velvet.Store.Tx.{ok}
use velvet.Store.Tx.Steps.{modify_ok}
use velvet.Store.Library.{Library}
use velvet.Store.Comment.Mentions
use velvet.Store.Comment.Mentions.{is_mention, new_mention}

any-append : (p : Mention → Bool) (xs ys : List Mention) → any p (xs ++ ys) ≡ (any p xs || any p ys)
any-append p [] ys = refl
any-append p (x ∷ xs) ys = let rest = any-append p xs ys in ground arith

-- Selecting rows by a test that depends on what is asked for.
any-select_mention :
    (comment user : ℕ) (keep : ℕ → Bool) (xs : List Mention)
    → any
        (is_mention comment user)
        (select (λ x. not (x.comment_id == comment) || keep x.user_id) xs)
      ≡ (any (is_mention comment user) xs && keep user)
any-select_mention comment user keep [] = refl
any-select_mention comment user keep (x ∷ xs) =
    let rest = any-select_mention comment user keep xs in
    elim (Bool-cases (x.user_id == user)) [
      | inl y ↦
          let who : x.user_id ≡ user = (==_iff x.user_id user).0 y in
          let same : keep x.user_id ≡ keep user = ap keep who in ground (arith, rest, same)
      | inr n ↦ ground (arith, rest)
    ]

any-map_mention :
    (comment user : ℕ) (p : User → Bool) (us : List User)
    → any (is_mention comment user) (map (new_mention comment) (select p us))
      ≡ any (λ (u : User). u.id == user && p u) us
any-map_mention comment user p [] = refl
any-map_mention comment user p (u ∷ us) =
    let rest = any-map_mention comment user p us in
    elim (Bool-cases (p u)) [
      | inl e ↦ rw (e, rest) (ground arith)
      | inr e ↦ rw (e, rest) (ground arith)
    ]

any-fresh :
    (comment user : ℕ) (named : User → Bool) (xs : List Mention) (us : List User)
    → any (λ (u : User). u.id == user && (named u && not (any (is_mention comment u.id) xs))) us
      ≡ (any (λ (u : User). u.id == user && named u) us && not (any (is_mention comment user) xs))
any-fresh comment user named xs [] = refl
any-fresh comment user named xs (u ∷ us) =
    let rest = any-fresh comment user named xs us in
    elim (Bool-cases (u.id == user)) [
      | inl y ↦
          let who : u.id ≡ user = (==_iff u.id user).0 y in
          let same : any (is_mention comment u.id) xs ≡ any (is_mention comment user) xs =
            ap (λ i. any (is_mention comment i) xs) who in
          ground (arith, rest, same)
      | inr n ↦ ground (arith, rest)
    ]

either_way : (a k : Bool) → ((a && k) || (k && not a)) ≡ k
either_way true k = ground arith
either_way false k = ground arith

-- After `syncCommentMentions` a user is mentioned in the comment exactly if the text names a member
-- with the user's identifier.
pub sync_comment_mentions-named :
    (lib : Library) (workspace_id comment_id user_id : ℕ) (body : String) (db : Db) {u : Unit {0}}
    {db' : Db}
    → Mentions.sync_comment_mentions lib workspace_id comment_id body db ≡ ok (u, db')
    → any (is_mention comment_id user_id) db'.mentions
      ≡ Mentions.names_user lib workspace_id (Mentions.parse_mentions lib body) db user_id
unfolding Mentions.sync_comment_mentions
sync_comment_mentions-named lib workspace_id comment_id user_id body db {u} {db'} h =
    let logins = Mentions.parse_mentions lib body in
    let named = Mentions.is_named lib workspace_id logins db in
    let old = any (is_mention comment_id user_id) db.mentions in
    let keep = Mentions.names_user lib workspace_id logins db in
    let state =
      ap (λ (d : Db). any (is_mention comment_id user_id) d.mentions) (modify_ok _ db h) in
    let parts =
      any-append (is_mention comment_id user_id)
        (Mentions.kept_mentions lib workspace_id comment_id logins db)
        (Mentions.added_mentions lib workspace_id comment_id logins db) in
    let kept = any-select_mention comment_id user_id keep db.mentions in
    let added =
      any-map_mention comment_id user_id
        (λ u. named u && not (any (is_mention comment_id u.id) db.mentions)) db.users
      ∙ any-fresh comment_id user_id named db.mentions db.users in
    state ∙ parts ∙ (rw (kept, added) (either_way old (keep user_id)))
