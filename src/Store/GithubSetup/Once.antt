-- ===== src/Store/GithubSetup/Once.antt =====
-- A rule on the rows of an authorization that was claimed, and the steps of authorizations.
use Prim.Native.String.{String}
use text.Mathlib.Text.{◌==◌ as str_eq}
use text.Mathlib.TextEquality.{eq_iff}
use velvet.Common.{
  ℕ, ◌≡◌, refl, ap, ◌∙◌, Bool, true, false, not, ◌||◌, arith, List, [], ◌∷◌, ◌++◌, any, update,
  is_some, All, All-append, All-update, Bool-cases, inl, inr,
}
use velvet.Store.Db.{Db, AuthorizationState, Purpose}
use velvet.Store.Tx.{Tx, modify, draw_random}
use velvet.Store.Tx.Steps.{
  IsRead, modify_ok, IsRead-pure, IsRead-reads, IsRead-query_row, IsRead-require, IsRead-if,
}
use velvet.Store.Tx.Histories.{Keeps, Keeps-read, Keeps-modify, Keeps-bind, Keeps-ensures}
use velvet.Store.Tx.Ensures.{Ensures-any, Ensures-reads, Ensures-require}
use velvet.Store.Access.Reads.{IsRead-lock_workspace_admin, IsRead-check_workspace_member}
use velvet.Store.Library.{Library}
use velvet.Store.GithubSetup.{
  GithubAuthorization, is_state, insert_state, insert_setup, change_states, claimed, completed,
  lock_github_session_tx,
}
use velvet.Store.GithubSetup.Authorize.{
  complete_github_installation_authorization_tx, github_secrets, create_github_link_authorization,
  create_github_setup, start_github_installation_authorization, claim_github_authorization,
  unlink_github,
}
use velvet.Store.Installation.Kept.{IsRead-lock_authorization, IsRead-lock_github_session_tx}

-- The rows of the hash are claimed, and there is one.
pub record IsClaimed (hash : String) (db : Db) : Type 0 where
  pub there : any (is_state hash) db.authorization_states ≡ true
  pub rows :
      All (λ r. (not (is_state hash r) || is_some r.claimed_at) ≡ true) db.authorization_states

pub any-update :
    (hash : String) (p : AuthorizationState → Bool) (f : AuthorizationState → AuthorizationState)
    (rows : List AuthorizationState)
    → ((r : AuthorizationState) → is_state hash (f r) ≡ is_state hash r)
    → any (is_state hash) (update p f rows) ≡ any (is_state hash) rows
any-update hash p f [] k = refl
any-update hash p f (r ∷ rows) k = ground (arith, k r, any-update hash p f rows k)

any-append :
    (hash : String) (rows : List AuthorizationState) (r : AuthorizationState)
    → any (is_state hash) rows ≡ true
    → any (is_state hash) (rows ++ r ∷ []) ≡ true
any-append hash [] r h = cc
any-append hash (s ∷ rows) r h = elim (Bool-cases (is_state hash s)) [
  | inl e ↦ rw e refl
  | inr e ↦ rw e (any-append hash rows r (rw e at h))
]

-- A new row has another hash.
another :
    (hash other : String) (db : Db)
    → any (is_state hash) db.authorization_states ≡ true
    → not (any (is_state other) db.authorization_states) ≡ true
    → str_eq other hash ≡ false
another hash other db h n = elim (Bool-cases (str_eq other hash)) [
  | inl y ↦
      let same : other ≡ hash = (eq_iff other hash).0 y in
      let wrong : not (any (is_state hash) db.authorization_states) ≡ true = rw same at n in
      let no : false ≡ true = rw h at wrong in cc
  | inr m ↦ m
]

module _ (hash : String) where
  abbrev Stays : {A : Type 0} → Tx A → Type 0
  Stays m = Keeps (IsClaimed hash) m

  pub read : {A : Type 0} (m : Tx A) → IsRead m → Stays m
  read m r = Keeps-read (IsClaimed hash) m r

  pub others :
      (g : Db → Db)
      → ((db : Db) → (g db).authorization_states ≡ db.authorization_states)
      → Stays (modify g)
  others g same =
      Keeps-modify (IsClaimed hash) g
        λ db h. record { there = rw (same db) h.there; rows = rw (same db) h.rows }

  pub change-Stays :
      (p : AuthorizationState → Bool) (f : ℕ → AuthorizationState → AuthorizationState)
      → ((t : ℕ) (r : AuthorizationState) → (f t r).token_hash ≡ r.token_hash)
      → ((t : ℕ) (r : AuthorizationState)
          → is_some r.claimed_at ≡ true
          → is_some (f t r).claimed_at ≡ true)
      → Stays (change_states p f)
  change-Stays p f same keep = Keeps-modify (IsClaimed hash) _ λ db h. record {
    there =
        any-update hash p (f db.clock) db.authorization_states (λ r. rw (same db.clock r) refl)
        ∙ h.there;
    rows =
        All-update _ p (f db.clock) db.authorization_states
          (λ r y k. elim (Bool-cases (is_state hash r)) [
            | inl e ↦
                let old : is_some r.claimed_at ≡ true = rw e at k in
                rw (same db.clock r, e) (keep db.clock r old)
            | inr e ↦ rw (same db.clock r, e) refl
          ])
          h.rows;
  }

  inserted :
      (row : AuthorizationState) (db db' : Db)
      → IsClaimed hash db
      → not (any (is_state row.token_hash) db.authorization_states) ≡ true
      → db'.authorization_states ≡ db.authorization_states ++ row ∷ []
      → IsClaimed hash db'
  inserted row db db' h free grown =
      let differs = another hash row.token_hash db h.there free in
      record {
        there = rw grown (any-append hash db.authorization_states row h.there);
        rows =
            rw grown (All-append _ db.authorization_states (row ∷ []) h.rows (rw differs refl, tt));
      }

  insert_state-Stays : (row : AuthorizationState) → Stays (insert_state row)
  unfolding insert_state
  insert_state-Stays row = Keeps-ensures (IsClaimed hash) _ λ db h. Ensures-reads _ _ db (
      Ensures-require _ _ _ db λ free. Ensures-any _ db λ u db' e.
        inserted row db db' h free (ap (λ d. d.authorization_states) (modify_ok _ db {u = u} e)))

  draw-Stays : (n : ℕ) → Stays (draw_random n)
  unfolding draw_random
  draw-Stays n = record {
    at = λ db a db' e h.
        let same : db'.authorization_states ≡ db.authorization_states = ground arith in
        record { there = rw same h.there; rows = rw same h.rows };
  }

  pub lock_session : (s : String) (u : ℕ) → Stays (lock_github_session_tx s u)
  lock_session s u = read _ (IsRead-lock_github_session_tx s u)

  pub complete-Stays :
      (a : GithubAuthorization) → Stays (complete_github_installation_authorization_tx a)
  unfolding complete_github_installation_authorization_tx
  complete-Stays a = Keeps-bind _ _ _ (read _ (IsRead-lock_authorization a)) λ _.
      Keeps-bind _ _ _ (others _ (λ db. refl))
        λ _. change-Stays _ completed (λ t r. refl) (λ t r k. k)

  module _ (lib : Library) where
    secrets-Stays : Stays (github_secrets lib)
    unfolding github_secrets
    secrets-Stays =
        Keeps-bind _ _ _ (draw-Stays 32)
          λ _. Keeps-bind _ _ _ (draw-Stays 32) λ _. read _ (IsRead-pure _)

    pub link-Stays : (s : String) (u w : ℕ) → Stays (create_github_link_authorization lib s u w)
    unfolding create_github_link_authorization
    link-Stays s u w = Keeps-bind _ _ _ secrets-Stays λ _. Keeps-bind _ _ _ (lock_session _ u) λ _.
        Keeps-bind _ _ _
          (read _ (IsRead-if _ _ _ (IsRead-pure tt) (IsRead-check_workspace_member w u)))
          λ _.
            Keeps-bind _ _ _ (read _ (IsRead-reads _))
              λ _. Keeps-bind _ _ _ (insert_state-Stays _) λ _. read _ (IsRead-pure _)

    pub setup-Stays : (s : String) (u w : ℕ) → Stays (create_github_setup lib s u w)
    unfolding create_github_setup insert_setup
    setup-Stays s u w = Keeps-bind _ _ _ (draw-Stays 32) λ _.
        Keeps-bind _ _ _ (read _ (IsRead-lock_workspace_admin w u)) λ _.
          Keeps-bind _ _ _ (lock_session _ u) λ _. Keeps-bind _ _ _ (read _ (IsRead-reads _)) λ _.
            Keeps-bind _ _ _
              (Keeps-bind _ _ _ (read _ (IsRead-reads _))
                λ _. Keeps-bind _ _ _ (read _ (IsRead-require _ _)) λ _. others _ (λ db. refl))
              λ _. read _ (IsRead-pure _)

    pub start-Stays :
        (setup s : String) (u c : ℕ)
        → Stays (start_github_installation_authorization lib setup s u c)
    unfolding start_github_installation_authorization
    start-Stays setup s u c = Keeps-bind _ _ _ (read _ (IsRead-require _ _)) λ _.
        Keeps-bind _ _ _ secrets-Stays λ _. Keeps-bind _ _ _ (read _ (IsRead-query_row _)) λ g.
          Keeps-bind _ _ _ (read _ (IsRead-lock_workspace_admin g.workspace_id u)) λ _.
            Keeps-bind _ _ _ (lock_session _ u) λ _.
              Keeps-bind _ _ _ (read _ (IsRead-query_row _)) λ _.
                Keeps-bind _ _ _ (others _ (λ db. refl)) λ _.
                  Keeps-bind _ _ _ (read _ (IsRead-reads _))
                    λ _. Keeps-bind _ _ _ (insert_state-Stays _) λ _. read _ (IsRead-pure _)

    pub claim-Stays :
        (state s : String) (u : ℕ) (p : Purpose)
        → Stays (claim_github_authorization lib state s u p)
    unfolding claim_github_authorization
    claim-Stays state s u p = Keeps-bind _ _ _ (lock_session _ u) λ _.
        Keeps-bind _ _ _ (read _ (IsRead-query_row _)) λ a.
          Keeps-bind _ _ _ (read _ (IsRead-require _ _)) λ _.
            Keeps-bind _ _ _ (read _ (IsRead-query_row _)) λ r.
              Keeps-bind _ _ _ (change-Stays _ claimed (λ t r. refl) (λ t r k. refl))
                λ _. read _ (IsRead-pure _)

    pub unlink-Stays : (s : String) (u : ℕ) → Stays (unlink_github lib s u)
    unfolding unlink_github
    unlink-Stays s u = Keeps-bind _ _ _ (lock_session _ u) λ _. others _ (λ db. refl)
