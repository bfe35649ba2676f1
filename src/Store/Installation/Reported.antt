-- ===== src/Store/Installation/Reported.antt =====
-- The reports of GitHub on installations, and the rule of Held.
use Prim.Native.String.{String}
use velvet.Common.{
  ℕ, ◌≡◌, refl, sym, subst, Option, none, some, Bool, false, arith, List, [], ◌∷◌, ◌==◌, any,
  Bool-cases, inl, inr,
}
use velvet.Store.Db.{Db, Installation}
use velvet.Store.Tx.{Tx, Error, Result, ok, err, draw_uuid, ◌>>=◌}
use velvet.Store.Tx.Steps.{IsRead, IsRead-pure, IsRead-reads, IsRead-query_row, IsRead-require}
use velvet.Store.Tx.Histories.{Keeps, Keeps-read, Keeps-modify, Keeps-bind, Keeps-if}
use velvet.Store.Access.Reads.{IsRead-lock_workspace}
use velvet.Store.Db.{Repo}
use velvet.Store.Installation.{InstallationSync, has_id}
use velvet.Store.Installation.Held.{IsHeld, Keeps-change, Keeps-others, IsHeld-append}
use velvet.Store.Installation.Kept.{enqueue-Stays}
use velvet.Store.Installation.Apply.{
  Listed, upsert_repo, upsert_repos, put_repo, apply_installation_repos,
}
use velvet.Store.Installation.Events.{
  Action, deleted, suspend, unsuspend, other, act, lock_owner, installation_event,
  seen_installation, or_stale, apply_installation_state,
}
use velvet.Store.Installation.Active.{settle, request_for, request_installation_sync_for_event}

pub IsRead-lock_owner : (o : Option ℕ) → IsRead (lock_owner o)
IsRead-lock_owner none = IsRead-pure tt
IsRead-lock_owner (some w) = IsRead-lock_workspace w

IsRead-or_stale : (o : Option Installation) → IsRead (or_stale o)
unfolding ◌>>=◌
IsRead-or_stale none = record { same = λ db a db' h. cc }
IsRead-or_stale (some i) = IsRead-pure i

module _ (d : Bool) (g id : ℕ) where
  abbrev Stays : {A : Type 0} → Tx A → Type 0
  Stays m = Keeps (IsHeld d g id) m

  read : {A : Type 0} (m : Tx A) → IsRead m → Stays m
  read m r = Keeps-read (IsHeld d g id) m r

  seen-IsHeld :
      (i : ℕ) (login : String) (db : Db)
      → IsHeld d g id db
      → IsHeld d g id (record db { installations = seen_installation i login db.installations })
  seen-IsHeld i login db h = elim (Bool-cases (any (has_id i) db.installations)) [
    | inl y ↦ rw y (record { there = h.there; rows = h.rows })
    | inr n ↦
        let differs : (i == id) ≡ false = elim (Bool-cases (i == id)) [
          | inl y ↦ let same : i ≡ id = ground arith in let t = h.there in cc
          | inr m ↦ m
        ] in
        rw n (IsHeld-append d g id db _ _ h differs refl)
  ]

  act-Stays : (i : ℕ) (a : Action) (row : Installation) → Stays (act i a row)
  unfolding act
  act-Stays i deleted row = Keeps-bind _ _ _ (Keeps-others d g id _ (λ db. refl)) λ _.
      Keeps-bind _ _ _ (Keeps-change d g id _ _ (λ _ _. refl) (λ db j y h. ground arith))
        λ _. read _ (IsRead-pure _)
  act-Stays i suspend row =
      Keeps-bind _ _ _ (Keeps-change d g id _ _ (λ _ _. refl) (λ db j y h. ground arith))
        λ _. read _ (IsRead-pure _)
  act-Stays i unsuspend row =
      Keeps-bind _ _ _ (Keeps-change d g id _ _ (λ _ _. refl) (λ db j y h. ground arith))
        λ _. read _ (IsRead-pure _)
  act-Stays i other row =
      Keeps-if _ _ _ _
        (Keeps-bind _ _ _ (enqueue-Stays d g id _ i false) λ _. read _ (IsRead-pure _))
        (read _ (IsRead-pure _))

  pub event-Stays : (i : ℕ) (login : String) (a : Action) → Stays (installation_event i login a)
  unfolding installation_event
  event-Stays i login a = Keeps-bind _ _ _ (read _ (IsRead-reads _)) λ owner.
      Keeps-bind _ _ _ (read _ (IsRead-lock_owner owner)) λ _.
        Keeps-bind _ _ _ (Keeps-modify _ _ λ db h. seen-IsHeld i login db h) λ _.
          Keeps-bind _ _ _ (read _ (IsRead-query_row _))
            λ row. Keeps-if _ _ _ _ (read _ (IsRead-pure _)) (act-Stays i a row)

  pub state-Stays :
      (job : InstallationSync) (still : Bool) → Stays (apply_installation_state job still)
  unfolding apply_installation_state
  state-Stays job still = Keeps-bind _ _ _ (read _ (IsRead-lock_owner _)) λ _.
      Keeps-bind _ _ _ (read _ (IsRead-reads _)) λ found.
        Keeps-bind _ _ _ (read _ (IsRead-or_stale found)) λ i.
          Keeps-bind _ _ _ (read _ (IsRead-require _ _)) λ _.
            Keeps-bind _ _ _ (Keeps-change d g id _ _ (λ _ _. refl) (λ db j y h. ground arith))
              λ _. Keeps-if _ _ _ _ (enqueue-Stays d g id _ _ false) (read _ (IsRead-pure _))

  put_repo-Stays :
      (job : InstallationSync) (r : Listed) (n : ℕ) (o : Option Repo) → Stays (put_repo job r n o)
  put_repo-Stays job r n none = Keeps-others d g id _ (λ db. refl)
  put_repo-Stays job r n (some old) =
      Keeps-bind _ _ _ (read _ (IsRead-require _ _)) λ _. Keeps-others d g id _ (λ db. refl)

  draw_uuid-Stays : Stays draw_uuid
  unfolding draw_uuid
  draw_uuid-Stays = record {
    at = λ db a db' e h.
        let same : db'.installations ≡ db.installations = ground arith in
        record { there = rw same h.there; rows = rw same h.rows };
  }

  upsert_repos-Stays : (job : InstallationSync) (rs : List Listed) → Stays (upsert_repos job rs)
  unfolding upsert_repos upsert_repo
  upsert_repos-Stays job [] = read _ (IsRead-pure tt)
  upsert_repos-Stays job (r ∷ rs) =
      Keeps-bind _ _ _
        (Keeps-bind _ _ _ draw_uuid-Stays
          λ n. Keeps-bind _ _ _ (read _ (IsRead-reads _)) λ old. put_repo-Stays job r n old)
        λ _. upsert_repos-Stays job rs

  pub apply-Stays :
      (job : InstallationSync) (rs : List Listed) → Stays (apply_installation_repos job rs)
  unfolding apply_installation_repos
  apply-Stays job rs = Keeps-bind _ _ _ (read _ (IsRead-lock_workspace _)) λ _.
      Keeps-bind _ _ _ (read _ (IsRead-reads _)) λ _.
        Keeps-bind _ _ _ (read _ (IsRead-require _ _)) λ _.
          Keeps-bind _ _ _ (upsert_repos-Stays job rs) λ _.
            Keeps-bind _ _ _ (Keeps-others d g id _ (λ db. refl))
              λ _. Keeps-change d g id _ _ (λ _ _. refl) (λ db j y h. ground arith)

  settled :
      (expected : Error → Bool) (db : Db) (r : Result (Unit {0} × Db))
      → ((u : Unit {0}) (db' : Db) → r ≡ ok (u, db') → IsHeld d g id db')
      → IsHeld d g id db
      → (u : Unit {0}) (db' : Db) → settle expected db r ≡ ok (u, db')
      → IsHeld d g id db'
  settled expected db (ok (v, mid)) k h u db' e = k u db' e
  settled expected db (err w) k h u db' e = elim (Bool-cases (expected w)) [
    | inl y ↦ let same : db' ≡ db = ground arith in subst (IsHeld d g id) (sym same) h
    | inr n ↦ ground arith
  ]

  request_for-Stays : (i : ℕ) (o : Option ℕ) → Stays (request_for i o)
  request_for-Stays i none = read _ (IsRead-pure tt)
  request_for-Stays i (some w) =
      let inner =
        Keeps-bind (IsHeld d g id) _ _ (read _ (IsRead-lock_workspace w))
          (λ _. enqueue-Stays d g id w i false) in
      record { at = λ db u db' e h. settled _ db _ (λ v m f. inner.at db v m f h) h u db' e }

  pub for_event-Stays : (i : ℕ) → Stays (request_installation_sync_for_event i)
  unfolding request_installation_sync_for_event
  for_event-Stays i = Keeps-bind _ _ _ (read _ (IsRead-reads _)) λ o. request_for-Stays i o
