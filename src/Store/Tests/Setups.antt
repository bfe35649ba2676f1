-- ===== src/Store/Tests/Setups.antt =====
-- A run through an authorization at GitHub, and the theorem about it at this run.
use Prim.Native.String.{String}
use velvet.Common.{◌≡◌, length, refl, none, [], ◌∷◌, false}
use velvet.Store.Db.{Db, Purpose}
use velvet.Store.Tx.{ok}
use velvet.Store.Access.{check_workspace_member}
use velvet.Store.GithubSetup.{GithubAuthorization}
use velvet.Store.GithubSetup.Authorize.{
  create_github_link_authorization, claim_github_authorization,
}
use velvet.Store.GithubSetup.Link.{GithubIdentity, complete_github_link}
use velvet.Store.GithubSetup.Histories.{Call, history, claim_github_authorization-once}
use velvet.Store.ApiToken.{hash_token}
use velvet.Store.Tests.{office, state_of, value_of, store}
use velvet.Store.Tests.Tokens.{plain}

abbrev signed_in : Db
signed_in = record office {
  sessions =
      (record {
        id = hash_token plain "browser";
        user_id = 7;
        last_workspace_id = none;
        expires_at = 1000;
      })
      ∷ [];
}

abbrev started : Db
started = state_of (create_github_link_authorization plain "browser" 7 1 signed_in) signed_in

abbrev state : String
state = (value_of (create_github_link_authorization plain "browser" 7 1 signed_in) ("", "")).0

abbrev nobody : GithubAuthorization
nobody = record {
  state_hash = "";
  session_hash = "";
  user_id = 0;
  purpose = Purpose.link;
  setup_hash = "";
  workspace_id = 0;
  workspace_slug = "";
  candidate_installation_id = 0;
  verifier = "";
  completed = false;
  link_workspace_id = 0;
}

abbrev claim : GithubAuthorization
claim = value_of (claim_github_authorization plain state "browser" 7 Purpose.link started) nobody

abbrev ada : GithubIdentity
ada = record { id = 70; login = "ada" }

abbrev answered : Db
answered =
    state_of (claim_github_authorization plain state "browser" 7 Purpose.link started) started

claim_github_authorization-once_example : ¬ (
    (b : GithubAuthorization) × (last : Db) × (claim_github_authorization plain state "browser" 7
        Purpose.link
        (history plain (Call.complete_link claim ada ∷ Call.link "browser" 7 1 ∷ []) answered)
      ≡ ok (b, last)))
unfolding store hash_token create_github_link_authorization claim_github_authorization
    check_workspace_member
claim_github_authorization-once_example =
    claim_github_authorization-once plain state "browser" 7 Purpose.link started
      {a = value_of (claim_github_authorization plain state "browser" 7 Purpose.link started)
        nobody}
      {db' = answered} refl (Call.complete_link claim ada ∷ Call.link "browser" 7 1 ∷ []) "browser"
      7 Purpose.link

abbrev linked : Db
linked = state_of (complete_github_link plain claim ada answered) answered

known_here : length linked.identities ≡ 1
unfolding store hash_token create_github_link_authorization claim_github_authorization
    check_workspace_member complete_github_link
known_here = refl
