-- ===== src/Store/Tx/Steps.antt =====
-- What a successful transaction says of its steps.
use velvet.Common.{◌≡◌, refl, Option, none, some, Bool, true, false, arith, if◌then◌else◌, ◌∙◌}
use velvet.Store.Db.{Db}
use velvet.Store.Tx.{
  Tx, Error, Result, ok, err, pure, require, reads, modify, query_row, or_missing, ◌>>=◌, continue,
}

continue_ok :
    {A B : Type 0} (r : Result (A × Db)) (f : A → Tx B) {b : B} {db' : Db}
    → continue r f ≡ ok (b, db')
    → (a : A) × (mid : Db) × (r ≡ ok (a, mid)) × (f a mid ≡ ok (b, db'))
continue_ok (ok (a, mid)) f h = (a, mid, refl, h)
continue_ok (err e) f h = cc

pub bind_ok :
    {A B : Type 0} (m : Tx A) (f : A → Tx B) (db : Db) {b : B} {db' : Db}
    → (m >>= f) db ≡ ok (b, db')
    → (a : A) × (mid : Db) × (m db ≡ ok (a, mid)) × (f a mid ≡ ok (b, db'))
unfolding ◌>>=◌
bind_ok m f db h = continue_ok (m db) f h

pub pure_ok :
    {A : Type 0} (a : A) (db : Db) {b : A} {db' : Db}
    → pure a db ≡ ok (b, db')
    → (b ≡ a) × (db' ≡ db)
unfolding ◌>>=◌
pure_ok a db h = ground arith

pub require_ok :
    (t : Bool) (e : Error) (db : Db) {u : Unit {0}} {db' : Db}
    → require t e db ≡ ok (u, db')
    → (t ≡ true) × (db' ≡ db)
unfolding ◌>>=◌
require_ok true e db h = ground arith
require_ok false e db h = cc

pub reads_ok :
    {A : Type 0} (f : Db → A) (db : Db) {a : A} {db' : Db}
    → reads f db ≡ ok (a, db')
    → (a ≡ f db) × (db' ≡ db)
unfolding ◌>>=◌
reads_ok f db h = ground arith

pub modify_ok :
    (f : Db → Db) (db : Db) {u : Unit {0}} {db' : Db} → modify f db ≡ ok (u, db') → db' ≡ f db
unfolding ◌>>=◌
modify_ok f db h = ground arith

query_row_result :
    {A : Type 0} (o : Option A) (db : Db) {a : A} {db' : Db}
    → or_missing o db ≡ ok (a, db')
    → (o ≡ some a) × (db' ≡ db)
query_row_result none db h = cc
query_row_result (some a) db h = ground arith

pub query_row_ok :
    {A : Type 0} (f : Db → Option A) (db : Db) {a : A} {db' : Db}
    → query_row f db ≡ ok (a, db')
    → (f db ≡ some a) × (db' ≡ db)
unfolding ◌>>=◌
query_row_ok f db h = query_row_result (f db) db h

-- An action that only reads: it leaves the tables as they are.
pub record IsRead {A : Type 0} (m : Tx A) : Type 0 where
  pub same : (db : Db) (a : A) (db' : Db) → m db ≡ ok (a, db') → db' ≡ db

module _ {A : Type 0} where
  pub IsRead-pure : (a : A) → IsRead (pure a)
  IsRead-pure a = record { same = λ db b db' h. (pure_ok a db h).1 }

  pub IsRead-query_row : (f : Db → Option A) → IsRead (query_row f)
  IsRead-query_row f = record { same = λ db b db' h. (query_row_ok f db h).1 }

  pub IsRead-reads : (f : Db → A) → IsRead (reads f)
  IsRead-reads f = record { same = λ db b db' h. (reads_ok f db h).1 }

  pub IsRead-if : (t : Bool) (m n : Tx A) → IsRead m → IsRead n → IsRead (if t then m else n)
  IsRead-if true m n h k = h
  IsRead-if false m n h k = k

pub IsRead-require : (t : Bool) (e : Error) → IsRead (require t e)
IsRead-require t e = record { same = λ db b db' h. (require_ok t e db h).1 }

pub IsRead-bind :
    {A B : Type 0} (m : Tx A) (f : A → Tx B)
    → IsRead m
    → ((a : A) → IsRead (f a))
    → IsRead (m >>= f)
IsRead-bind m f hm hf = record {
  same = λ db b db' h.
      let (a, mid, e, k) = bind_ok m f db h in (hf a).same mid b db' k ∙ hm.same db a mid e;
}

pub ruleset read_rules =
    (IsRead-pure, IsRead-query_row, IsRead-reads, IsRead-if, IsRead-require, IsRead-bind)
