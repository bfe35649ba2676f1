-- ===== src/Store/Tests/Evidence.antt =====
-- Runs on pull requests and suggestions, and the theorems about them at these runs.
use velvet.Common.{
  ℕ, is_some, arith, ◌≡◌, refl, sym, ◌∙◌, none, some, true, false, [], ◌∷◌, inl, inr, any,
}
use velvet.Common.Text.{codes}
use velvet.Common.In.{In}
use velvet.Store.Db.{Db, PullRequest, PrState, open_pr, merged, Suggestion}
use velvet.Store.Tx.{ok, err, suggestion_closed, database}
use velvet.Store.PullRequest
use velvet.Store.PullRequest.{UpsertPrInput}
use velvet.Store.Comment.Mentions.{fallback_available}
use velvet.Store.PullRequest.Latest.{IsLatest, Resolves, deliver_all, row_of, deliver_all-IsLatest}
use velvet.Store.Suggestion
use velvet.Store.Suggestion.{SaveSuggestionInput, Work}
use velvet.Store.Suggestion.Closed.{Call, run, run-accepted}
use velvet.Store.Tests.{office, state_of, store}
use velvet.Store.Tests.Tokens.{plain}

abbrev report : PrState → ℕ → UpsertPrInput
report s t = record {
  workspace_id = 1;
  repo_id = 60;
  number = 42;
  title = codes "Migrate";
  state = s;
  draft = false;
  author_login = "ada";
  head_ref = codes "eng-30";
  body = [];
  additions = 3;
  deletions = 1;
  html_url = "https://example.com";
  merged_at = none;
  closed_at = none;
  gh_created_at = some 5;
  gh_updated_at = some t;
}

abbrev equipped : Db
equipped = record office {
  repos =
      (record {
        id = 60;
        workspace_id = 1;
        installation_id = 900;
        github_id = 6;
        owner = "acme";
        name = "api";
        default_branch = "main";
        disconnected_at = none;
      })
      ∷ [];
}

resolves : (s : PrState) (t : ℕ) → Resolves plain 60 equipped (report s t)
unfolding store fallback_available
resolves s t = record { workspace = refl; repo = refl; identity = omega arith; known = omega arith }

-- The report of the merge comes in before an older one.
deliver_all-IsLatest_example :
    (u : Unit {0}) × (db' : Db) × (deliver_all plain
        (report merged 9 ∷ report open_pr 8 ∷ [])
        equipped
      ≡ ok (u, db'))
    × (p : PullRequest) × (row_of plain 60 42 db' ≡ some p)
    × IsLatest plain 60 42 (report merged 9 ∷ report open_pr 8 ∷ []) p
deliver_all-IsLatest_example =
    deliver_all-IsLatest plain 60 42 (report merged 9) (report open_pr 8 ∷ []) equipped
      (
        record { repo = refl; numbered = refl; time = 9; timed = refl },
        (record { repo = refl; numbered = refl; time = 8; timed = refl }, tt),
      )
      (resolves merged 9, (resolves open_pr 8, tt)) refl

-- Without the repository nothing is stored.
unknown_repo : PullRequest.upsert_pull_request plain (report merged 9) office ≡ err database
unfolding store PullRequest.upsert_pull_request PullRequest.member_by_github_login
    PullRequest.scalar fallback_available
unknown_repo = refl

abbrev delivered : Db
delivered = state_of (deliver_all plain (report merged 9 ∷ report open_pr 8 ∷ []) equipped) equipped

abbrev guess : SaveSuggestionInput
guess = record {
  work = Work.pull_request 1000;
  workspace_id = 1;
  issue_id = some 30;
  model = "jev";
  fingerprint = "f";
}

abbrev guessed : Db
guessed = state_of (Suggestion.save_suggestion guess delivered) delivered

abbrev accepted : Db
accepted = state_of (run (Call.accept 1 1002 7) guessed) guessed

is_merged :
    any (λ (p : PullRequest). Suggestion.is_wanted (1000 ∷ []) (some p.id)) delivered.pull_requests
    ≡ true
unfolding store deliver_all PullRequest.upsert_pull_request PullRequest.member_by_github_login
    PullRequest.scalar fallback_available
is_merged = refl

is_linked : any (PullRequest.is_link 1000 30) accepted.pr_links ≡ true
unfolding store deliver_all PullRequest.upsert_pull_request PullRequest.member_by_github_login
    PullRequest.scalar fallback_available Suggestion.save_suggestion run PullRequest.link_pr_tx
is_linked = refl

accepted_once : run (Call.accept 1 1002 7) accepted ≡ err suggestion_closed
unfolding store deliver_all PullRequest.upsert_pull_request PullRequest.member_by_github_login
    PullRequest.scalar fallback_available Suggestion.save_suggestion run PullRequest.link_pr_tx
accepted_once = refl

abbrev linked : Suggestion
linked = record {
  id = 90;
  workspace_id = 1;
  pull_request_id = some 1000;
  comment_id = none;
  issue_id = some 30;
  model = "jev";
  fingerprint = "old";
  dismissed_at = none;
  dismissed_by = none;
  accepted_at = some 40;
  accepted_by = some 7;
  updated_at = 40;
}

abbrev settled : Db
settled = record office { suggestions = linked ∷ [] }

one_row : (s t : Suggestion) → In s (linked ∷ []) → In t (linked ∷ []) → s.id ≡ t.id → s ≡ t
one_row s t (inl e) (inl f) same = e ∙ sym f
one_row s t (inl e) (inr i) same = absurd i
one_row s t (inr i) j same = absurd i

abbrev asked_again : Db
asked_again = state_of (run (Call.save guess) settled) settled

run-accepted_example :
    (asked_again.issues ≡ office.issues)
    × ((row : Suggestion)
        → In row settled.suggestions
        → is_some row.accepted_at ≡ true
        → In row asked_again.suggestions)
unfolding store run Suggestion.save_suggestion
run-accepted_example =
    run-accepted (Call.save guess) settled {u = tt} (record { same = one_row }) refl
