-- ===== src/Store/Comment/Badge.antt =====
-- Reading the inbox empties the badge.
use velvet.Common.{
  ℕ, ◌≡◌, refl, ap, sym, subst, none, some, false, List, [], ◌∷◌, arith, length, select, update,
  Option-cases, inl, inr, Bool-cases,
}
use velvet.Store.Db.{Db, Mention}
use velvet.Store.Tx.{ok, ◌>>=◌}
use velvet.Store.Tx.Steps.{modify_ok}
use velvet.Store.Comment.Inbox
use velvet.Store.Comment.Inbox.{is_unread, to_mark, comment_of}

abbrev read_now : Db → Mention → Mention
read_now db x = record x { read_at = some db.now }

-- A mention that is not marked was not unread.
unmarked-read :
    (w user : ℕ) (db : Db) (ms : List Mention) (x : Mention)
    → to_mark w user [] none db x ≡ false
    → is_unread w user (record db { mentions = ms }) x ≡ false
unmarked-read w user db ms x h =
    let d : Db = record db { mentions = ms } in
    elim (Option-cases (comment_of db x)) [
      | inl e ↦
          let shut : Inbox.shows w none d (comment_of db x) ≡ false = rw e refl in ground arith
      | inr (c, e) ↦
          let seen : Inbox.shows w none d (comment_of db x) ≡ Inbox.shows w none d (some c) =
            ap (Inbox.shows w none d) e in
          let mark : Inbox.is_marked w none db (comment_of db x)
              ≡ Inbox.is_marked w none db (some c) =
            ap (Inbox.is_marked w none db) e in
          ground arith
    ]

none_unread :
    (w user : ℕ) (db : Db) (ms xs : List Mention)
    → length (
        select
          (is_unread w user (record db { mentions = ms }))
          (update (to_mark w user [] none db) (read_now db) xs))
      ≡ 0
none_unread w user db ms [] = refl
none_unread w user db ms (x ∷ xs) =
    let rest = none_unread w user db ms xs in
    elim (Bool-cases (to_mark w user [] none db x)) [
      | inl y ↦
          let done : is_unread w user (record db { mentions = ms }) (read_now db x) ≡ false =
            ground arith in
          rw y (rw done rest)
      | inr n ↦ let old = unmarked-read w user db ms x n in rw n (rw old rest)
    ]

-- After `MarkMentionsRead` with no list of comments and no project, `UnreadMentionCount` is 0.
pub unread_mention_count-mark_mentions_read :
    (w user : ℕ) (db : Db) {u : Unit {0}} {db' : Db}
    → Inbox.mark_mentions_read w user [] none db ≡ ok (u, db')
    → Inbox.unread_mention_count w user db' ≡ ok (0, db')
unfolding Inbox.mark_mentions_read Inbox.unread_mention_count ◌>>=◌
unread_mention_count-mark_mentions_read w user db {u} {db'} h =
    let marked : Db = record db {
      mentions = update (to_mark w user [] none db) (read_now db) db.mentions;
    } in
    let same : db' ≡ marked =
      modify_ok
        (λ x. record x { mentions = update (to_mark w user [] none x) (read_now x) x.mentions }) db
        h in
    subst (λ (d : Db). Inbox.unread_mention_count w user d ≡ ok (0, d)) (sym same)
      (λ i. ok (none_unread w user db marked.mentions db.mentions i, marked))
