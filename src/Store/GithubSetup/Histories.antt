-- ===== src/Store/GithubSetup/Histories.antt =====
-- Sequences of the steps of github_setup.go that change the states of authorizations. A step that fails changes nothing (`in_tx`).
use Prim.Native.String.{String}
use velvet.Common.{
  ℕ, ◌≡◌, refl, ◌∙◌, some, Bool, true, false, not, ◌&&◌, ◌||◌, List, [], ◌∷◌, any, find, find_test,
  update, is_some, All, All-find, Bool-cases, inl, inr,
}
use velvet.Store.Db.{Db, AuthorizationState, Purpose}
use velvet.Store.Tx.{Tx, ok, in_tx, pure, ◌>>◌}
use velvet.Store.Tx.Steps.{IsRead-pure}
use velvet.Store.Tx.Histories.{Keeps, Keeps-bind, in_tx-Keeps}
use velvet.Store.Tx.Ensures.{
  Ensures, Ensures-read, Ensures-require, Ensures-modify, Ensures-query_row, Ensures-pure,
}
use velvet.Store.Library.{Library}
use velvet.Store.ApiToken.{hash_token}
use velvet.Store.GithubSetup.{GithubAuthorization, is_state, claimed}
use velvet.Store.GithubSetup.Authorize.{
  complete_github_installation_authorization_tx, create_github_link_authorization,
  create_github_setup, start_github_installation_authorization, claim_github_authorization,
  unlink_github, is_open_state,
}
use velvet.Store.GithubSetup.Link.{GithubIdentity, complete_github_link}
use velvet.Store.GithubSetup.Linked.{complete_link-Stays}
use velvet.Store.GithubSetup.Once.{
  IsClaimed, any-update, read, complete-Stays, link-Stays, setup-Stays, start-Stays, claim-Stays,
  unlink-Stays,
}
use velvet.Store.Installation.Kept.{IsRead-lock_github_session_tx}

pub data Call : Type 0 where
  link : String → ℕ → ℕ → Call
  setup : String → ℕ → ℕ → Call
  start : String → String → ℕ → ℕ → Call
  claim : String → String → ℕ → Purpose → Call
  complete : GithubAuthorization → Call
  complete_link : GithubAuthorization → GithubIdentity → Call
  unlink : String → ℕ → Call

clash : (x y : Bool) → (x && not y) ≡ true → (not x || y) ≡ true → true ≡ false
clash true true h k = cc
clash true false h k = cc
clash false y h k = cc

module _ (lib : Library) where
  unfoldable pub run : Call → Tx (Unit {0})
  run (link s u w) = create_github_link_authorization lib s u w >> pure tt
  run (setup s u w) = create_github_setup lib s u w >> pure tt
  run (start g s u c) = start_github_installation_authorization lib g s u c >> pure tt
  run (claim state s u p) = claim_github_authorization lib state s u p >> pure tt
  run (complete a) = complete_github_installation_authorization_tx a
  run (complete_link a g) = complete_github_link lib a g
  run (unlink s u) = unlink_github lib s u

  unfoldable pub history : List Call → Db → Db
  unfolding run in_tx
  history [] db = db
  history (c ∷ cs) db = history cs (in_tx (run c) db).1

  then_done :
      {A : Type 0} (hash : String) (m : Tx A)
      → Keeps (IsClaimed hash) m
      → Keeps (IsClaimed hash) (m >> pure tt)
  then_done hash m k = Keeps-bind _ m _ k λ _. read hash _ (IsRead-pure tt)

  run-Keeps : (hash : String) (c : Call) → Keeps (IsClaimed hash) (run c)
  unfolding run
  run-Keeps hash (link s u w) = then_done hash _ (link-Stays hash lib s u w)
  run-Keeps hash (setup s u w) = then_done hash _ (setup-Stays hash lib s u w)
  run-Keeps hash (start g s u c) = then_done hash _ (start-Stays hash lib g s u c)
  run-Keeps hash (claim state s u p) = then_done hash _ (claim-Stays hash lib state s u p)
  run-Keeps hash (complete a) = complete-Stays hash a
  run-Keeps hash (complete_link a g) = complete_link-Stays hash lib a g
  run-Keeps hash (unlink s u) = unlink-Stays hash lib s u

  history-IsClaimed :
      (hash : String) (cs : List Call) (db : Db)
      → IsClaimed hash db
      → IsClaimed hash (history cs db)
  unfolding history
  history-IsClaimed hash [] db h = h
  history-IsClaimed hash (c ∷ cs) db h =
      history-IsClaimed hash cs _ (in_tx-Keeps _ (run c) (run-Keeps hash c) db h)

  any-open :
      (hash : String) (rows : List AuthorizationState) {r : AuthorizationState}
      → find (is_open_state lib hash) rows ≡ some r
      → any (is_state hash) rows ≡ true
  any-open hash [] e = cc
  any-open hash (s ∷ rows) {r} e = elim (Bool-cases (is_state hash s)) [
    | inl y ↦ rw y refl
    | inr n ↦ rw n (any-open hash rows {r = r} (rw n at e))
  ]

  all_claimed :
      (hash : String) (clock : ℕ) (rows : List AuthorizationState)
      → All
          (λ r. (not (is_state hash r) || is_some r.claimed_at) ≡ true)
          (update (is_state hash) (claimed clock) rows)
  all_claimed hash clock [] = tt
  all_claimed hash clock (r ∷ rows) = (
    elim (Bool-cases (is_state hash r)) [ inl y ↦ rw (y, y) refl | inr n ↦ rw (n, n) refl ],
    all_claimed hash clock rows,
  )

  claim-IsClaimed :
      (state s : String) (u : ℕ) (p : Purpose) (db : Db)
      → Ensures
          (claim_github_authorization lib state s u p)
          db
          (λ _. IsClaimed (hash_token lib state))
  unfolding claim_github_authorization
  claim-IsClaimed state s u p db = Ensures-read _ _ db (IsRead-lock_github_session_tx _ u) λ _ _.
      Ensures-query_row _ _ db λ a _. Ensures-require _ _ _ db λ _.
        Ensures-query_row _ _ db λ r found. Ensures-modify _ _ db (
          Ensures-pure _ _ (record {
            there =
                any-update (hash_token lib state) (is_state (hash_token lib state))
                  (claimed db.clock) db.authorization_states (λ x. refl)
                ∙ any-open (hash_token lib state) db.authorization_states found;
            rows = all_claimed (hash_token lib state) db.clock db.authorization_states;
          }))

  refused :
      (state s : String) (u : ℕ) (p : Purpose) (db : Db)
      → IsClaimed (hash_token lib state) db
      → Ensures (claim_github_authorization lib state s u p) db (λ _ _. true ≡ false)
  unfolding claim_github_authorization
  refused state s u p db h = Ensures-read _ _ db (IsRead-lock_github_session_tx _ u) λ _ _.
      Ensures-query_row _ _ db λ a _. Ensures-require _ _ _ db λ _.
        Ensures-query_row _ _ db λ r found.
          let unclaimed =
            find_test (is_open_state lib (hash_token lib state)) db.authorization_states found in
          let row = All-find _ _ db.authorization_states found h.rows in
          let wrong : true ≡ false =
            clash (is_state (hash_token lib state) r) (is_some r.claimed_at) unclaimed row in
          cc

  -- Once ClaimGitHubAuthorization succeeded for a state, and any of the calls that start, claim or
  -- complete a setup or an authorization, or unlink a profile, followed, failed ones included, no claim of
  -- that state succeeds, whoever makes it. The deletion of states is not among these calls.
  pub claim_github_authorization-once :
      (state s : String) (u : ℕ) (p : Purpose) (db : Db) {a : GithubAuthorization} {db' : Db}
      → claim_github_authorization lib state s u p db ≡ ok (a, db')
      → (cs : List Call) (s' : String) (u' : ℕ) (p' : Purpose)
      → ¬ (
          (b : GithubAuthorization) × (last : Db) × (claim_github_authorization lib state s' u' p'
              (history cs db')
            ≡ ok (b, last)))
  claim_github_authorization-once state s u p db {a} {db'} e cs s' u' p' (b, last, f) =
      let held =
        history-IsClaimed (hash_token lib state) cs db'
          ((claim-IsClaimed state s u p db).at a db' e) in
      let wrong = (refused state s' u' p' (history cs db') held).at b last f in cc
