-- ===== src/Store/Tx/Ensures.antt =====
-- Rules for what a transaction ensures when it succeeds, one for each form of a `do` block.
use velvet.Common.{
  ℕ, suc, ◌≡◌, refl, Option, none, some, List, [], ◌∷◌, ◌++◌, ◌==◌, Bool, true, false,
  if◌then◌else◌,
}
use velvet.Common.Text.{Bytes}
use velvet.Store.Db.{Db, Activity, Verb, TargetType}
use velvet.Store.Tx.{
  Tx, Error, ok, pure, throw, require, reads, modify, query_row, record_activity, draw_uuid,
  draw_random, ◌>>=◌,
}
use velvet.Store.Tx.Steps.{IsRead, bind_ok, pure_ok, require_ok, reads_ok, modify_ok, query_row_ok}

-- If `m` succeeds from `db`, its result and the tables that it leaves satisfy `P`.
pub record Ensures {A : Type 0} (m : Tx A) (db : Db) (P : A → Db → Type 0) : Type 0 where
  pub at : (a : A) (db' : Db) → m db ≡ ok (a, db') → P a db'

module _ {A : Type 0} {P : A → Db → Type 0} where
  pub Ensures-pure : (a : A) (db : Db) → P a db → Ensures (pure a) db P
  Ensures-pure a db h = record { at = λ b db' e. rw (pure_ok a db e).0 (rw (pure_ok a db e).1 h) }

  pub Ensures-throw : (e : Error) (db : Db) → Ensures (throw e) db P
  unfolding ◌>>=◌
  Ensures-throw e db = record { at = λ b db' h. cc }

  pub Ensures-any :
      (m : Tx A) (db : Db) → ((a : A) (db' : Db) → m db ≡ ok (a, db') → P a db') → Ensures m db P
  Ensures-any m db h = record { at = h }

  pub Ensures-if :
      (t : Bool) (m n : Tx A) (db : Db)
      → (t ≡ true → Ensures m db P)
      → (t ≡ false → Ensures n db P)
      → Ensures (if t then m else n) db P
  Ensures-if true m n db h k = h refl
  Ensures-if false m n db h k = k refl

module _ {A B : Type 0} {P : B → Db → Type 0} where
  pub Ensures-bind :
      (Q : A → Db → Type 0) (m : Tx A) (f : A → Tx B) (db : Db)
      → Ensures m db Q
      → ((a : A) (mid : Db) → Q a mid → Ensures (f a) mid P)
      → Ensures (m >>= f) db P
  Ensures-bind Q m f db h k = record {
    at = λ b db' e.
        let (a, mid, e', e'') = bind_ok m f db {b = b} {db' = db'} e in
        (k a mid (h.at a mid e')).at b db' e'';
  }

  -- A step that only reads; the rest may use what it returned.
  pub Ensures-read :
      (m : Tx A) (f : A → Tx B) (db : Db)
      → IsRead m
      → ((a : A) → m db ≡ ok (a, db) → Ensures (f a) db P)
      → Ensures (m >>= f) db P
  Ensures-read m f db r k =
      Ensures-bind (λ a mid. (mid ≡ db) × (m db ≡ ok (a, db))) m f db
        (record { at = λ a mid e. (r.same db a mid e, rw (r.same db a mid e) at e) })
        (λ a mid q. rw q.0 (k a q.1))

  pub Ensures-query_row :
      (q : Db → Option A) (f : A → Tx B) (db : Db)
      → ((a : A) → q db ≡ some a → Ensures (f a) db P)
      → Ensures (query_row q >>= f) db P
  Ensures-query_row q f db k =
      Ensures-bind (λ a mid. (mid ≡ db) × (q db ≡ some a)) (query_row q) f db
        (record { at = λ a mid e. let (found, same) = query_row_ok q db e in (same, found) })
        (λ a mid r. rw r.0 (k a r.1))

  pub Ensures-reads :
      (q : Db → A) (f : A → Tx B) (db : Db) → Ensures (f (q db)) db P → Ensures (reads q >>= f) db P
  Ensures-reads q f db k =
      Ensures-bind (λ a mid. (a ≡ q db) × (mid ≡ db)) (reads q) f db
        (record { at = λ a mid e. reads_ok q db e }) (λ a mid r. rw r.0 (rw r.1 k))

module _ {B : Type 0} {P : B → Db → Type 0} where
  pub Ensures-require :
      (t : Bool) (e : Error) (f : Unit {0} → Tx B) (db : Db)
      → (t ≡ true → Ensures (f tt) db P)
      → Ensures (require t e >>= f) db P
  Ensures-require t e f db k =
      Ensures-bind (λ u mid. (t ≡ true) × (mid ≡ db)) (require t e) f db
        (record { at = λ u mid h. require_ok t e db h }) (λ u mid r. rw r.1 (k r.0))

  pub Ensures-modify :
      (g : Db → Db) (f : Unit {0} → Tx B) (db : Db)
      → Ensures (f tt) (g db) P
      → Ensures (modify g >>= f) db P
  Ensures-modify g f db k =
      Ensures-bind (λ u mid. mid ≡ g db) (modify g) f db
        (record { at = λ u mid h. modify_ok g db h }) (λ u mid r. rw r k)

  pub Ensures-draw_uuid :
      (f : ℕ → Tx B) (db : Db)
      → Ensures (f (db.uuid_at db.drawn)) (record db { drawn = suc db.drawn }) P
      → Ensures (draw_uuid >>= f) db P
  Ensures-draw_uuid f db k = record { at = λ b db' e. k.at b db' (unfold ◌>>=◌ draw_uuid in e) }

  pub Ensures-draw_random :
      (size : ℕ) (f : Bytes → Tx B) (db : Db)
      → Ensures (f (db.random_at db.randoms size)) (record db { randoms = suc db.randoms }) P
      → Ensures (draw_random size >>= f) db P
  Ensures-draw_random size f db k = record {
    at = λ b db' e. k.at b db' (unfold ◌>>=◌ draw_random in e);
  }

  pub Ensures-record_activity :
      (w actor : ℕ) (verb : Verb) (kind : TargetType) (id : ℕ) (f : Unit {0} → Tx B) (db : Db)
      → ((log : List Activity) → Ensures (f tt) (record db { activities = log }) P)
      → Ensures (record_activity w actor verb kind id >>= f) db P
  Ensures-record_activity w actor verb kind id f db k = record {
    at = λ b db' e.
        let row : Activity = record {
          workspace_id = w;
          actor_id = if actor == 0 then none else some actor;
          verb = verb;
          target_type = kind;
          target_id = id;
        } in
        (k (db.activities ++ row ∷ [])).at b db' (unfold ◌>>=◌ record_activity in e);
  }
