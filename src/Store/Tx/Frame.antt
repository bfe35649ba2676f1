-- ===== src/Store/Tx/Frame.antt =====
-- What a transaction leaves as it was: a view of the tables that each of its steps keeps.
use velvet.Common.{ℕ, suc, ◌≡◌, ap, ◌∙◌, Option, Bool, arith}
use velvet.Store.Db.{Db}
use velvet.Store.Tx.{Tx, Error, ok, pure, require, reads, modify, query_row, draw_uuid, ◌>>=◌}
use velvet.Store.Tx.Steps.{
  IsRead, IsRead-pure, IsRead-query_row, IsRead-reads, IsRead-require, bind_ok, modify_ok,
}

-- If `m` succeeds, the view `f` of the tables is unchanged.
pub record Frame {X A : Type 0} (f : Db → X) (m : Tx A) : Type 0 where
  pub at : (db : Db) (a : A) (db' : Db) → m db ≡ ok (a, db') → f db' ≡ f db

module _ {X A : Type 0} (f : Db → X) where
  pub Frame-read : (m : Tx A) → IsRead m → Frame f m
  Frame-read m r = record { at = λ db a db' h. ap f (r.same db a db' h) }

  pub Frame-pure : (a : A) → Frame f (pure a)
  Frame-pure a = Frame-read (pure a) (IsRead-pure a)

  pub Frame-reads : (q : Db → A) → Frame f (reads q)
  Frame-reads q = Frame-read (reads q) (IsRead-reads q)

  pub Frame-query_row : (q : Db → Option A) → Frame f (query_row q)
  Frame-query_row q = Frame-read (query_row q) (IsRead-query_row q)

module _ {X : Type 0} (f : Db → X) where
  pub Frame-require : (t : Bool) (e : Error) → Frame f (require t e)
  Frame-require t e = Frame-read f (require t e) (IsRead-require t e)

  pub Frame-modify : (g : Db → Db) → ((db : Db) → f (g db) ≡ f db) → Frame f (modify g)
  Frame-modify g k = record { at = λ db a db' h. ap f (modify_ok g db h) ∙ k db }

  pub Frame-draw_uuid : ((db : Db) (n : ℕ) → f (record db { drawn = n }) ≡ f db) → Frame f draw_uuid
  unfolding draw_uuid
  Frame-draw_uuid k = record {
    at = λ db a db' h.
        ap f (let e : db' ≡ record db { drawn = suc db.drawn } = ground arith in e)
        ∙ k db (suc db.drawn);
  }

  pub Frame-bind :
      {A B : Type 0} (m : Tx A) (k : A → Tx B)
      → Frame f m
      → ((a : A) → Frame f (k a))
      → Frame f (m >>= k)
  Frame-bind m k hm hk = record {
    at = λ db b db' h.
        let (a, mid, e, e') = bind_ok m k db {b = b} {db' = db'} h in
        (hk a).at mid b db' e' ∙ hm.at db a mid e;
  }

pub ruleset frame_rules =
    (Frame-pure, Frame-reads, Frame-query_row, Frame-require, Frame-bind, Frame-read)
