-- ===== src/Store/Installation/Deleted.antt =====
-- An installation that GitHub reported as deleted.
use Prim.Native.String.{String}
use velvet.Common.{
  ℕ, suc, ◌≤◌, ◌≡◌, refl, Option, some, true, false, arith, List, [], ◌∷◌, ◌++◌, ◌==◌, any, find,
  select, update, length, is_some, All, Bool-cases, inl, inr, ◌+◌,
}
use velvet.Store.Db.{Db, Installation}
use velvet.Store.Tx.{ok}
use velvet.Store.Tx.Ensures.{
  Ensures, Ensures-read, Ensures-reads, Ensures-modify, Ensures-query_row, Ensures-if, Ensures-pure,
  Ensures-require,
}
use velvet.Store.GithubSetup.{GithubAuthorization}
use velvet.Store.Installation.{
  VerifiedInstallation, bind_installation, has_id, change, owned_elsewhere,
}
use velvet.Store.Installation.Held.{is_held, IsHeld}
use velvet.Store.Installation.Kept.{IsRead-lock_authorization}
use velvet.Store.Installation.Reported.{IsRead-lock_owner}
use velvet.Store.Installation.Events.{
  deleted, act, tombstone, seen_installation, installation_event,
}
use velvet.Store.Installation.Fenced.{Call, history, history-IsHeld}

abbrev rows_of : ℕ → List Installation → ℕ
rows_of id rows = length (select (has_id id) rows)

rows-none : (id : ℕ) (rows : List Installation) → any (has_id id) rows ≡ false → rows_of id rows ≡ 0
rows-none id [] h = refl
rows-none id (i ∷ rows) h = ground (arith, rows-none id rows)

rows-append :
    (id : ℕ) (rows : List Installation) (r : Installation)
    → rows_of id (rows ++ r ∷ []) ≤ rows_of id rows + 1
rows-append id [] r = ground arith
rows-append id (i ∷ rows) r = ground (arith, rows-append id rows r)

few_seen :
    (id : ℕ) (rows : List Installation) (r : Installation)
    → rows_of id rows ≡ 0
    → rows_of id (rows ++ r ∷ []) ≤ 1
few_seen id rows r h = let more = rows-append id rows r in omega arith

rows-seen :
    (id : ℕ) (login : String) (rows : List Installation)
    → rows_of id rows ≤ 1
    → rows_of id (seen_installation id login rows) ≤ 1
rows-seen id login rows h = elim (Bool-cases (any (has_id id) rows)) [
  | inl y ↦ rw y h
  | inr n ↦ let empty = rows-none id rows n in rw n (few_seen id rows _ empty)
]

none_left :
    (id : ℕ) (rows : List Installation)
    → rows_of id rows ≤ 0
    → All (λ i. is_held true 0 id i ≡ true) rows
none_left id [] h = tt
none_left id (i ∷ rows) h = elim (Bool-cases (i.id == id)) [
  | inl y ↦ let wrong : suc (rows_of id rows) ≤ 0 = rw y at h in ground arith
  | inr n ↦ (ground arith, none_left id rows (rw n at h))
]

-- The one row of the id is deleted.
one_deleted :
    (id : ℕ) (rows : List Installation) {r : Installation}
    → rows_of id rows ≤ 1
    → find (has_id id) rows ≡ some r
    → is_some r.deleted_at ≡ true
    → All (λ i. is_held true 0 id i ≡ true) rows
one_deleted id [] one e h = tt
one_deleted id (i ∷ rows) {r} one e h = elim (Bool-cases (i.id == id)) [
  | inl y ↦ let same : i ≡ r = ground arith in (ground arith, none_left id rows (ground arith))
  | inr n ↦ (ground arith, one_deleted id rows {r = r} (rw n at one) (rw n at e) h)
]

any-found :
    (id : ℕ) (rows : List Installation) {r : Installation}
    → find (has_id id) rows ≡ some r
    → any (has_id id) rows ≡ true
any-found id [] e = cc
any-found id (i ∷ rows) {r} e = elim (Bool-cases (i.id == id)) [
  | inl y ↦ rw y refl
  | inr n ↦ rw n (any-found id rows {r = r} (rw n at e))
]

any-tombstone :
    (id now : ℕ) (rows : List Installation)
    → any (has_id id) (update (has_id id) (tombstone now) rows) ≡ any (has_id id) rows
any-tombstone id now [] = refl
any-tombstone id now (i ∷ rows) = ground (arith, any-tombstone id now rows)

all_deleted :
    (id now : ℕ) (rows : List Installation)
    → All (λ i. is_held true 0 id i ≡ true) (update (has_id id) (tombstone now) rows)
all_deleted id now [] = tt
all_deleted id now (i ∷ rows) = (ground arith, all_deleted id now rows)

event-IsHeld :
    (id : ℕ) (login : String) (db : Db)
    → rows_of id db.installations ≤ 1
    → Ensures (installation_event id login deleted) db (λ _. IsHeld true 0 id)
unfolding installation_event act change
event-IsHeld id login db one = Ensures-reads _ _ db (
    Ensures-read _ _ db (IsRead-lock_owner _) λ _ _. Ensures-modify _ _ db (
      Ensures-query_row _ _ _ λ row found.
        Ensures-if _ _ _ _
          (λ gone. Ensures-pure _ _ (record {
            there = any-found id _ found;
            rows = one_deleted id _ (rows-seen id login db.installations one) found gone;
          }))
          (λ live. Ensures-modify _ _ _ (
            Ensures-modify _ _ _ (
              Ensures-pure _ _ (record {
                there =
                    rw (any-tombstone id db.clock (seen_installation id login db.installations))
                      (any-found id _ found);
                rows = all_deleted id db.clock _;
              }))))))

deleted_row :
    (id : ℕ) (rows : List Installation)
    → any (has_id id) rows ≡ true
    → All (λ i. is_held true 0 id i ≡ true) rows
    → (w : ℕ) → owned_elsewhere w (find (has_id id) rows) ≡ true
deleted_row id [] t h w = cc
deleted_row id (i ∷ rows) t h w = elim (Bool-cases (i.id == id)) [
  | inl y ↦ let gone = h.0 in rw y (ground arith)
  | inr n ↦ rw n (deleted_row id rows (rw n at t) h.1 w)
]

refused :
    (a : GithubAuthorization) (v : VerifiedInstallation) (db : Db)
    → IsHeld true 0 v.id db
    → Ensures (bind_installation a v) db (λ _ _. true ≡ false)
unfolding bind_installation
refused a v db h = Ensures-require _ _ _ db λ _.
    Ensures-read _ _ db (IsRead-lock_authorization a) λ _ _. Ensures-reads _ _ db (
      Ensures-require _ _ _ db λ free.
        let taken = deleted_row v.id db.installations h.there h.rows a.workspace_id in ground arith)

-- After an installation's deletion was recorded, and any calls that follow, failed ones included, each
-- row of it is deleted, and BindInstallation of it does not succeed. The id is the key of its table.
pub history-deleted :
    (id : ℕ) (login : String) (db : Db) {o : Option ℕ} {db' : Db}
    → installation_event id login deleted db ≡ ok (o, db')
    → length (select (has_id id) db.installations) ≤ 1
    → (cs : List Call)
    → All (λ i. is_held true 0 id i ≡ true) (history cs db').installations
      × ((a : GithubAuthorization) (v : VerifiedInstallation)
          → v.id ≡ id
          → ¬ (
              (u : Unit {0}) × (last : Db) × (bind_installation a v (history cs db')
                ≡ ok (u, last))))
history-deleted id login db {o} {db'} e one cs =
    let held = history-IsHeld true 0 id cs db' ((event-IsHeld id login db one).at o db' e) in
    let after = history cs db' in
    (
      held.rows,
      λ a v same. λ (u, last, f).
          let held' : IsHeld true 0 v.id after = rw same held in
          let wrong = (refused a v after held').at u last f in cc,
    )
