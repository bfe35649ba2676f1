-- ===== src/Store/Installation/Kept.antt =====
-- The calls of the store on installations, and the rule of Held.
use Prim.Native.String.{String}
use velvet.Common.{
  ℕ, ◌≡◌, refl, Option, none, some, Bool, true, false, arith, ◌==◌, Bool-cases, inl, inr,
}
use velvet.Store.Db.{Installation, SyncKind}
use velvet.Store.Tx.{Tx}
use velvet.Store.Tx.Steps.{
  IsRead, IsRead-pure, IsRead-reads, IsRead-query_row, IsRead-require, IsRead-bind,
}
use velvet.Store.Tx.Histories.{
  Keeps, Keeps-read, Keeps-modify, Keeps-bind, Keeps-ensures, Ensures-keeps, Ensures-after,
}
use velvet.Store.Tx.Ensures.{Ensures-reads, Ensures-require}
use velvet.Store.Access.Reads.{IsRead-lock_workspace_admin}
use velvet.Store.GithubSetup.{GithubAuthorization, lock_github_session_tx}
use velvet.Store.GithubSetup.Authorize.{
  lock_github_installation_authorization_tx, complete_github_installation_authorization_tx,
  lock_claimed_github_authorization_tx,
}
use velvet.Store.Installation.{
  InstallationSync, VerifiedInstallation, has_id, enqueue_sync, requested,
  enqueue_installation_sync_tx, bound_to, first_binding, release_other, bind_row, bind_installation,
  request_installation_sync, fail_installation_sync,
}
use velvet.Store.Installation.Held.{IsHeld, Keeps-change, Keeps-others, IsHeld-append, any-found}

pub IsRead-lock_github_session_tx : (h : String) (u : ℕ) → IsRead (lock_github_session_tx h u)
unfolding lock_github_session_tx
IsRead-lock_github_session_tx h u = IsRead-bind _ _ (IsRead-reads _) λ _. IsRead-require _ _

pub IsRead-lock_claimed :
    (a : GithubAuthorization) → IsRead (lock_claimed_github_authorization_tx a)
unfolding lock_claimed_github_authorization_tx
IsRead-lock_claimed a =
    IsRead-bind _ _ (IsRead-reads _) λ _. IsRead-bind _ _ (IsRead-reads _) λ _. IsRead-require _ _

pub IsRead-lock_authorization :
    (a : GithubAuthorization) → IsRead (lock_github_installation_authorization_tx a)
unfolding lock_github_installation_authorization_tx
IsRead-lock_authorization a = IsRead-bind _ _ (IsRead-require _ _) λ _.
    IsRead-bind _ _ (IsRead-lock_workspace_admin _ _) λ _.
      IsRead-bind _ _ (IsRead-lock_github_session_tx _ _) λ _.
        IsRead-bind _ _ (IsRead-reads _)
          λ _. IsRead-bind _ _ (IsRead-require _ _) λ _. IsRead-lock_claimed a

module _ (d : Bool) (g id : ℕ) where
  abbrev Stays : {A : Type 0} → Tx A → Type 0
  Stays m = Keeps (IsHeld d g id) m

  read : {A : Type 0} (m : Tx A) → IsRead m → Stays m
  read m r = Keeps-read (IsHeld d g id) m r

  enqueue_sync-Stays : (k : SyncKind) (i w n : ℕ) → Stays (enqueue_sync k i w n)
  unfolding enqueue_sync
  enqueue_sync-Stays k i w n = Keeps-others d g id _ (λ db. refl)

  complete-Stays :
      (a : GithubAuthorization) → Stays (complete_github_installation_authorization_tx a)
  unfolding complete_github_installation_authorization_tx
  complete-Stays a = Keeps-bind _ _ _ (read _ (IsRead-lock_authorization a)) λ _.
      Keeps-bind _ _ _ (Keeps-others d g id _ (λ db. refl)) λ _. Keeps-others d g id _ (λ db. refl)

  pub enqueue-Stays :
      (w expected : ℕ) (retry : Bool) → Stays (enqueue_installation_sync_tx w expected retry)
  unfolding enqueue_installation_sync_tx
  enqueue-Stays w expected retry = Keeps-bind _ _ _ (read _ (IsRead-query_row _)) λ i.
      Keeps-bind _ _ _ (read _ (IsRead-require _ _)) λ _.
        Keeps-bind _ _ _ (read _ (IsRead-require _ _)) λ _.
          Keeps-bind _ _ _ (read _ (IsRead-require _ _)) λ _.
            Keeps-bind _ _ _
              (Keeps-change d g id (has_id i.id) (λ db. requested) (λ _ _. refl)
                (λ db j y h. ground arith))
              λ _. enqueue_sync-Stays _ _ _ _

  pub request-Stays : (w actor : ℕ) → Stays (request_installation_sync w actor)
  unfolding request_installation_sync
  request-Stays w actor =
      Keeps-bind _ _ _ (read _ (IsRead-lock_workspace_admin w actor)) λ _. enqueue-Stays w 0 true

  pub fail-Stays :
      (job : InstallationSync) (code : String) → Stays (fail_installation_sync job code)
  unfolding fail_installation_sync
  fail-Stays job code = Keeps-change d g id _ _ (λ _ _. refl) (λ db j y h. ground arith)

  release_other-Stays : (i : ℕ) (o : Option Installation) → Stays (release_other i o)
  release_other-Stays i none = read _ (IsRead-pure tt)
  release_other-Stays i (some other) = elim (Bool-cases (other.id == i)) [
    | inl y ↦ rw y (read _ (IsRead-pure tt))
    | inr n ↦ rw n (
        Keeps-bind _ _ _ (read _ (IsRead-require _ _))
          λ _. Keeps-change d g id _ _ (λ _ _. refl) (λ db j y h. ground arith))
  ]

  bind_row-Stays :
      (w : ℕ) (v : VerifiedInstallation) (o : Option Installation)
      → (o ≡ none → (v.id == id) ≡ false)
      → Stays (bind_row w v o)
  bind_row-Stays w v none other = Keeps-bind _ _ _ (read _ (IsRead-reads _)) λ now.
      Keeps-bind _ _ _
        (Keeps-modify _ _
          λ db h. IsHeld-append d g id db _ (first_binding w v now) h (other refl) refl)
        λ _. read _ (IsRead-pure _)
  bind_row-Stays w v (some i) other = Keeps-bind _ _ _ (read _ (IsRead-reads _)) λ now.
      Keeps-bind _ _ _
        (Keeps-change d g id (has_id v.id) (λ db. bound_to w v now) (λ _ _. refl)
          (λ db j y h. ground arith))
        λ _. read _ (IsRead-pure _)

  pub bind-Stays :
      (a : GithubAuthorization) (v : VerifiedInstallation) → Stays (bind_installation a v)
  unfolding bind_installation
  bind-Stays a v = Keeps-ensures (IsHeld d g id) _ λ db h. Ensures-require _ _ _ db λ _.
      Ensures-after _ _ _ db (read _ (IsRead-lock_authorization a)) h λ _ mid held.
        Ensures-reads _ _ mid (
          Ensures-require _ _ _ mid λ _. Ensures-reads _ _ mid (
            Ensures-keeps _ _ mid
              (Keeps-bind _ _ _ (release_other-Stays v.id _) λ _.
                Keeps-bind _ _ _
                  (bind_row-Stays a.workspace_id v _
                    (any-found id v.id mid.installations held.there))
                  λ _. Keeps-bind _ _ _ (enqueue_sync-Stays _ _ _ _) λ _. complete-Stays a)
              held))
