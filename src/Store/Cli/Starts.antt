-- ===== src/Store/Cli/Starts.antt =====
-- Starting a sign-in: the table loses rows that expired, and gains at most the new row.
use Prim.Native.String.{String}
use text.Mathlib.Text.{◌==◌ as str_eq}
use velvet.Common.{
  ℕ, zero, suc, ◌≡◌, refl, sym, ap, subst, ◌∙◌, Option, none, some, Bool, true, false, List, [],
  ◌∷◌, ◌++◌, arith, any, find, select, Bool-cases, Option-cases, inl, inr, ◌⊎◌,
}
use velvet.Common.In.{find-select, find-append}
use velvet.Store.Db.{Db, CliSession, CliStatus, CliFlow, pending}
use velvet.Store.Tx.{Result, ok, err, duplicate}
use velvet.Store.Tx.Steps.{modify_ok}
use velvet.Store.Tx.Ensures.{Ensures, Ensures-any, Ensures-reads, Ensures-require}
use velvet.Store.Cli
use velvet.Store.Cli.Collect.{is_device}
use velvet.Store.Cli.Keys.{
  Keyed, select-Keyed, append-Keyed, Keyed-at, device-same_key, status_in, status_of,
}
use velvet.Store.Cli.Machine.{may_follow_refl, may_step}

-- One new row that waits, for the device, and whose keys are free.
pub record Began (device_hash : String) (rows rows' : List CliSession) : Type 0 where
  pub row : CliSession
  pub waits : row.status ≡ pending
  pub device : row.device_hash ≡ device_hash
  pub free : any (Cli.same_key row) rows ≡ false
  pub state : rows' ≡ rows ++ row ∷ []

pub insert_cli_session-ensures :
    (row : CliSession) (db : Db)
    → Ensures (Cli.insert_cli_session row) db (λ _ db'.
      (any (Cli.same_key row) db.cli_sessions ≡ false)
      × (db' ≡ record db { cli_sessions = db.cli_sessions ++ row ∷ [] }))
unfolding Cli.insert_cli_session
insert_cli_session-ensures row db =
    Ensures-reads _ _ db (
      Ensures-require _ _ _ db λ free. Ensures-any _ db λ _ db' e. (ground arith, modify_ok _ db e))

module _ (device_hash client_name : String) (flow : CliFlow) where
  abbrev pub mid_of : Db → Db
  mid_of db = let drawn = Cli.new_user_code db in record drawn.1 { drawn = suc drawn.1.drawn }

  abbrev pub row_of : Db → CliSession
  row_of db =
      let drawn = Cli.new_user_code db in
      Cli.new_session device_hash client_name flow drawn.0 drawn.1

  abbrev Grew : Db → Db → Type 0
  Grew db db' =
      (db'.cli_sessions ≡ db.cli_sessions) ⊎ Began device_hash db.cli_sessions db'.cli_sessions

  attempted-Grew :
      (db : Db) (r : Result (Unit {0} × Db)) (rest : Result CliSession × Db)
      → Cli.insert_cli_session (row_of db) (mid_of db) ≡ r
      → Grew db rest.1
      → Grew db (Cli.attempted (row_of db) (mid_of db) r rest).1
  unfolding Cli.new_user_code Cli.new_session
  attempted-Grew db (ok (u, db')) rest e g =
      let (free, same) = (insert_cli_session-ensures (row_of db) (mid_of db)).at u db' e in
      inr (record {
        row = row_of db;
        waits = refl;
        device = refl;
        free = free;
        state = ap (λ (d : Db). d.cli_sessions) same;
      })
  attempted-Grew db (err duplicate) rest e g = g
  attempted-Grew db (err e') rest e g = inl refl

  pub allocate-Grew :
      (left : ℕ) (db : Db) → Grew db (Cli.allocate left device_hash client_name flow db).1
  unfolding Cli.allocate Cli.new_user_code
  allocate-Grew zero db = inl refl
  allocate-Grew (suc left) db = attempted-Grew db _ _ refl (allocate-Grew left (mid_of db))

-- The table after a start.
pub record Started (device_hash : String) (rows rows' : List CliSession) : Type 0 where
  pub live : CliSession → Bool
  pub grown : (rows' ≡ select live rows) ⊎ Began device_hash (select live rows) rows'

status_of-append :
    (d : String) (rows : List CliSession) (row : CliSession)
    → (status_of d (rows ++ row ∷ []) ≡ status_of d rows)
      ⊎ ((is_device d row ≡ true) × (status_of d (rows ++ row ∷ []) ≡ some row.status))
unfolding status_of
status_of-append d rows row = elim (Option-cases (find (is_device d) rows)) [
  | inr (s, e) ↦ inl (rw (find-append (is_device d) rows row) (rw e refl))
  | inl e ↦ elim (Bool-cases (is_device d row)) [
    | inl y ↦ inr (y, rw (find-append (is_device d) rows row) (rw (e, y) refl))
    | inr n ↦ inl (rw (find-append (is_device d) rows row) (rw (e, n) refl))
  ]
]

starts_waiting : (before : Option CliStatus) → may_step true before (some pending) ≡ true
starts_waiting none = refl
starts_waiting (some s) = ground arith

pub purged-step :
    (starts : Bool) (before after : Option CliStatus)
    → (after ≡ none) ⊎ (after ≡ before)
    → may_step starts before after ≡ true
purged-step starts none after (inl e) = rw e refl
purged-step starts (some s) after (inl e) = rw e refl
purged-step starts before after (inr e) = rw e (ground (arith, may_follow_refl before))

module _ {d₀ : String} {rows rows' : List CliSession} (s : Started d₀ rows rows')
    (keyed : Keyed rows) where
  pub Started-Keyed : Keyed rows'
  Started-Keyed =
      let kept = select-Keyed s.live rows keyed in
      elim s.grown [
        | inl e ↦ subst Keyed (sym e) kept
        | inr b ↦ subst Keyed (sym b.state) (append-Keyed (select s.live rows) b.row b.free kept)
      ]

  purge-follow :
      (d : String)
      → (status_of d (select s.live rows) ≡ none)
        ⊎ (status_of d (select s.live rows) ≡ status_of d rows)
  unfolding status_of
  purge-follow d =
      elim (find-select (is_device d) s.live rows
        λ x y i j t u. Keyed-at rows keyed x y i j (device-same_key d x y t u)) [
          | inl e ↦ inl (ap status_in e)
          | inr e ↦ inr (ap status_in e)
        ]

  Began-step :
      (d : String)
      → Began d₀ (select s.live rows) rows'
      → may_step (str_eq d₀ d) (status_of d rows) (status_of d rows') ≡ true
  Began-step d b = elim (status_of-append d (select s.live rows) b.row) [
    | inl e ↦ purged-step _ _ _ (elim (purge-follow d) [
      | inl p ↦ inl (ap (status_of d) b.state ∙ e ∙ p)
      | inr p ↦ inr (ap (status_of d) b.state ∙ e ∙ p)
    ])
    | inr (y, e) ↦
        let now_waits : status_of d rows' ≡ some pending =
          ap (status_of d) b.state ∙ e ∙ ap some b.waits in
        let is_d : str_eq d₀ d ≡ true = ap (λ h. str_eq h d) (sym b.device) ∙ y in
        rw (now_waits, is_d) (starts_waiting (status_of d rows))
  ]

  pub Started-step :
      (d : String) → may_step (str_eq d₀ d) (status_of d rows) (status_of d rows') ≡ true
  Started-step d = elim s.grown [
    | inl e ↦ purged-step _ _ _ (elim (purge-follow d) [
      | inl p ↦ inl (ap (status_of d) e ∙ p)
      | inr p ↦ inr (ap (status_of d) e ∙ p)
    ])
    | inr b ↦ Began-step d b
  ]
