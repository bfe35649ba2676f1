-- ===== src/Store/Tx/Histories.antt =====
-- A rule that a transaction keeps when it succeeds holds after it in every case: the changes of a
-- transaction that fails are undone.
use velvet.Common.{◌≡◌, refl, sym, subst, Bool, true, false, if◌then◌else◌}
use velvet.Store.Db.{Db}
use velvet.Store.Tx.{Tx, Result, ok, err, modify, in_tx, ◌>>=◌}
use velvet.Store.Tx.Steps.{IsRead, bind_ok, modify_ok}
use velvet.Store.Tx.Ensures.{Ensures, Ensures-bind}

pub record Keeps {A : Type 0} (P : Db → Type 0) (m : Tx A) : Type 0 where
  pub at : (db : Db) (a : A) (db' : Db) → m db ≡ ok (a, db') → P db → P db'

module _ {A : Type 0} (P : Db → Type 0) where
  settled :
      (r : Result (A × Db)) (db : Db)
      → ((a : A) (db' : Db) → r ≡ ok (a, db') → P db')
      → P db
      → P (elim r as (λ _. Result A × Db) [ ok (a, db') ↦ (ok a, db') | err e ↦ (err e, db) ]).1
  settled (ok (a, db')) db k h = k a db' refl
  settled (err e) db k h = h

  pub in_tx-Keeps : (m : Tx A) → Keeps P m → (db : Db) → P db → P (in_tx m db).1
  unfolding in_tx
  in_tx-Keeps m keeps db h = settled (m db) db (λ a db' e. keeps.at db a db' e h) h

  pub Keeps-read : (m : Tx A) → IsRead m → Keeps P m
  Keeps-read m r = record { at = λ db a db' e h. subst P (sym (r.same db a db' e)) h }

  pub Keeps-ensures : (m : Tx A) → ((db : Db) → P db → Ensures m db (λ _. P)) → Keeps P m
  Keeps-ensures m k = record { at = λ db a db' e h. (k db h).at a db' e }

  pub Ensures-keeps : (m : Tx A) (db : Db) → Keeps P m → P db → Ensures m db (λ _. P)
  Ensures-keeps m db k h = record { at = λ a db' e. k.at db a db' e h }

module _ (P : Db → Type 0) where
  pub Keeps-modify : (g : Db → Db) → ((db : Db) → P db → P (g db)) → Keeps P (modify g)
  Keeps-modify g k = record {
    at = λ db u db' e h. subst P (sym (modify_ok g db {u = u} e)) (k db h);
  }

module _ {A B : Type 0} (P : Db → Type 0) where
  pub Keeps-bind :
      (m : Tx A) (f : A → Tx B) → Keeps P m → ((a : A) → Keeps P (f a)) → Keeps P (m >>= f)
  Keeps-bind m f km kf = record {
    at = λ db b db' e h.
        let (a, mid, e', e'') = bind_ok m f db {b = b} {db' = db'} e in
        (kf a).at mid b db' e'' (km.at db a mid e' h);
  }

  -- A step that keeps the rule, and a rest that needs it.
  pub Ensures-after :
      (m : Tx A) (f : A → Tx B) (db : Db)
      → Keeps P m
      → P db
      → ((a : A) (mid : Db) → P mid → Ensures (f a) mid (λ _. P))
      → Ensures (m >>= f) db (λ _. P)
  Ensures-after m f db km h k =
      Ensures-bind (λ _. P) m f db (Ensures-keeps P m db km h) (λ a mid q. k a mid q)

module _ {A : Type 0} (P : Db → Type 0) where
  pub Keeps-if : (t : Bool) (m n : Tx A) → Keeps P m → Keeps P n → Keeps P (if t then m else n)
  Keeps-if true m n h k = h
  Keeps-if false m n h k = k
