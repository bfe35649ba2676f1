-- ===== src/Store/Tx.antt =====
-- store.go: transactions and their errors. A transaction reads and writes the tables, or stops with
-- an error; `in_tx` then commits or rolls back. Go's `error` values are the constructors of `Error`.
pub mod Steps
pub mod Frame
pub mod Ensures
pub mod Histories
use velvet.Common.{
  ℕ, suc, Option, none, some, ◌∷◌, [], ◌++◌, Bool, true, false, ◌==◌, if◌then◌else◌,
}
use velvet.Fracdex
use velvet.Common.Text.{Bytes}
use velvet.Store.Db.{Db, Activity, Verb, TargetType}

pub data Error : Type 0 where
  not_found forbidden invalid_nesting last_admin invalid_sprint duplicate : Error
  foreign_reference rate_limited invalid_email invalid_ip not_promotable : Error
  invalid_api_token_name api_token_limit suggestion_closed : Error
  stale_installation_sync verification_required installation_conflict repository_conflict : Error
  cli_session_pending cli_session_denied cli_session_expired : Error
  -- "invalid sign-in return path" and "could not allocate a user code"
  invalid_return_path no_user_code : Error
  -- a nil pointer is followed
  panic : Error
  -- an exception of the database that no sentinel stands for
  database : Error
  order_key : Fracdex.Error → Error

pub data Result {ℓ} (A : Type ℓ) : Type ℓ where
  ok : A → Result A
  err : Error → Result A

abbrev pub Tx : Type 0 → Type 0
Tx A = Db → Result (A × Db)

unfoldable pub pure : {A : Type 0} → A → Tx A
pure a db = ok (a, db)

unfoldable pub throw : {A : Type 0} → Error → Tx A
throw e db = err e

-- `if !test { return e }`
unfoldable pub require : Bool → Error → Tx (Unit {0})
require true e db = ok (tt, db)
require false e db = err e

unfoldable pub reads : {A : Type 0} → (Db → A) → Tx A
reads f db = ok (f db, db)

unfoldable pub modify : (Db → Db) → Tx (Unit {0})
modify f db = ok (tt, f db)

abbrev pub or_missing : {A : Type 0} → Option A → Tx A
or_missing none db = err not_found
or_missing (some a) db = ok (a, db)

-- A query for one row; `mapErr` turns `pgx.ErrNoRows` into `ErrNotFound`.
unfoldable pub query_row : {A : Type 0} → (Db → Option A) → Tx A
query_row f db = or_missing (f db) db

abbrev pub continue : {A B : Type 0} → Result (A × Db) → (A → Tx B) → Result (B × Db)
continue (ok (a, db)) f = f a db
continue (err e) f = err e

infixl 5 ◌>>=◌ ◌>>◌
-- To open this is to open the actions above.
unfoldable pub ◌>>=◌ : {A B : Type 0} → Tx A → (A → Tx B) → Tx B
unfolding pure throw require reads modify query_row
◌>>=◌ m f db = continue (m db) f

abbrev pub ◌>>◌ : {A B : Type 0} → Tx A → Tx B → Tx B
m >> k = m >>= λ _. k

-- `InTx`: the changes of a transaction that fails are undone.
unfoldable pub in_tx : {A : Type 0} → Tx A → Db → Result A × Db
in_tx tx db = elim (tx db) [ ok (a, db') ↦ (ok a, db') | err e ↦ (err e, db) ]

-- `RecordActivity`: the zero uuid stands for no actor.
unfoldable pub record_activity : ℕ → ℕ → Verb → TargetType → ℕ → Tx (Unit {0})
record_activity workspace_id actor_id verb target_type target_id db =
    let row : Activity = record {
      workspace_id = workspace_id;
      actor_id = if actor_id == 0 then none else some actor_id;
      verb = verb;
      target_type = target_type;
      target_id = target_id;
    } in
    ok (tt, record db { activities = db.activities ++ row ∷ [] })

-- `rand.Read`
unfoldable pub draw_random : ℕ → Tx Bytes
draw_random size db = ok (db.random_at db.randoms size, record db { randoms = suc db.randoms })

-- `gen_random_uuid()`
unfoldable pub draw_uuid : Tx ℕ
draw_uuid db = ok (db.uuid_at db.drawn, record db { drawn = suc db.drawn })
