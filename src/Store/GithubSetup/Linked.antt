-- ===== src/Store/GithubSetup/Linked.antt =====
-- The rule of Once, and the completion of a profile link.
use Prim.Native.String.{String}
use velvet.Common.{ℕ, ◌≡◌, refl, Option, none, some, arith}
use velvet.Store.Db.{Verb, TargetType}
use velvet.Store.Tx.{record_activity}
use velvet.Store.Tx.Steps.{IsRead-reads, IsRead-query_row, IsRead-require}
use velvet.Store.Tx.Histories.{Keeps, Keeps-bind, Keeps-if}
use velvet.Store.Library.{Library}
use velvet.Store.GithubSetup.{GithubAuthorization, completed}
use velvet.Store.GithubSetup.Link.{
  GithubIdentity, check_effective_github_identity_tx, link_membership_identity_tx, link_profile,
  complete_github_link,
}
use velvet.Store.Installation.Kept.{IsRead-lock_claimed}
use velvet.Store.GithubSetup.Once.{IsClaimed, read, others, change-Stays, lock_session}

module _ (hash : String) (lib : Library) where
  activity-Stays :
      (w a : ℕ) (v : Verb) (t : TargetType) (i : ℕ)
      → Keeps (IsClaimed hash) (record_activity w a v t i)
  unfolding record_activity
  activity-Stays w a v t i = record {
    at = λ db u db' e h.
        let same : db'.authorization_states ≡ db.authorization_states = ground arith in
        record { there = rw same h.there; rows = rw same h.rows };
  }

  check-Stays :
      (o : Option ℕ) (u : ℕ) (g : GithubIdentity)
      → Keeps (IsClaimed hash) (check_effective_github_identity_tx lib o u g)
  unfolding check_effective_github_identity_tx
  check-Stays o u g =
      Keeps-bind _ _ _ (read hash _ (IsRead-reads _)) λ _. read hash _ (IsRead-require _ _)

  member-Stays :
      (w u : ℕ) (g : GithubIdentity)
      → Keeps (IsClaimed hash) (link_membership_identity_tx lib w u g)
  unfolding link_membership_identity_tx
  member-Stays w u g = Keeps-bind _ _ _ (read hash _ (IsRead-require _ _)) λ _.
      Keeps-bind _ _ _ (read hash _ (IsRead-query_row _)) λ m.
        Keeps-bind _ _ _ (check-Stays (some w) u g) λ _.
          Keeps-bind _ _ _ (read hash _ (IsRead-reads _)) λ _.
            Keeps-bind _ _ _ (read hash _ (IsRead-require _ _)) λ _.
              Keeps-bind _ _ _ (others hash _ (λ db. refl)) λ _.
                Keeps-bind _ _ _ (others hash _ (λ db. refl))
                  λ _. Keeps-bind _ _ _ (others hash _ (λ db. refl)) λ _. activity-Stays _ _ _ _ _

  profile-Stays : (u : ℕ) (g : GithubIdentity) → Keeps (IsClaimed hash) (link_profile lib u g)
  unfolding link_profile
  profile-Stays u g = Keeps-bind _ _ _ (check-Stays none u g) λ _.
      Keeps-bind _ _ _ (read hash _ (IsRead-reads _))
        λ _. Keeps-bind _ _ _ (read hash _ (IsRead-require _ _)) λ _. others hash _ (λ db. refl)

  pub complete_link-Stays :
      (a : GithubAuthorization) (g : GithubIdentity)
      → Keeps (IsClaimed hash) (complete_github_link lib a g)
  unfolding complete_github_link
  complete_link-Stays a g = Keeps-bind _ _ _ (read hash _ (IsRead-require _ _)) λ _.
      Keeps-bind _ _ _ (lock_session hash _ _) λ _.
        Keeps-bind _ _ _ (read hash _ (IsRead-lock_claimed a)) λ _.
          Keeps-bind _ _ _
            (Keeps-if _ _ _ _ (profile-Stays a.user_id g)
              (member-Stays a.link_workspace_id a.user_id g))
            λ _. Keeps-bind _ _ _ (read hash _ (IsRead-reads _)) λ _.
              Keeps-bind _ _ _ (read hash _ (IsRead-reads _)) λ _.
                Keeps-bind _ _ _ (read hash _ (IsRead-require _ _))
                  λ _. change-Stays hash _ completed (λ t r. refl) (λ t r k. k)
