-- ===== src/Store/PullRequest/Latest.antt =====
-- The row of a pull request after GitHub's reports of it have come in, in any order.

use velvet.Common.{
  ℕ, ◌≤◌, ◌≡◌, refl, sym, ◌∙◌, Option, none, some, true, false, List, [], ◌∷◌, ◌++◌, arith, find,
  find_test, update, All, All-map, Bool-cases, inl, inr,
}
use velvet.Common.In.{In, In-append, In-after, find-append, find-update_kept}
use velvet.Common.{subst, suc, All-append, append_assoc, append-nil}
use velvet.Store.Db.{Db, PullRequest}
use velvet.Store.Tx.{Tx, ok, pure, draw_uuid, ◌>>=◌, ◌>>◌}
use velvet.Store.Tx.Ensures.{
  Ensures, Ensures-read, Ensures-require, Ensures-bind, Ensures-pure, Ensures-reads, Ensures-modify,
  Ensures-draw_uuid,
}
use Prim.Native.String.{String}
use velvet.Store.Tx.Steps.{IsRead, IsRead-pure, IsRead-reads, IsRead-bind}
use velvet.Store.Comment.Mentions.{fallback_available}
use velvet.Common.{length}
use velvet.Store.Library.{Library}
use velvet.Store.PullRequest.{
  UpsertPrInput, is_pull_request, is_current, new_row, refreshed, insert_pr, refresh_pr, resolve_pr,
  upsert_pull_request, member_by_github_login, scalar, or_known, known_users, identified_users,
  has_workspace, has_repo,
}

-- The reports, in the order in which they come in.
unfoldable pub deliver_all : Library → List UpsertPrInput → Tx (Unit {0})
unfolding upsert_pull_request
deliver_all lib [] = pure tt
deliver_all lib (i ∷ is) = do upsert_pull_request lib i; deliver_all lib is

-- The row is as the report says, its author and the time of its creation aside.
pub record Mirrors (i : UpsertPrInput) (p : PullRequest) : Type 0 where
  pub title : p.title ≡ i.title
  pub state : p.state ≡ i.state
  pub draft : p.draft ≡ i.draft
  pub author_login : p.author_login ≡ i.author_login
  pub head_ref : p.head_ref ≡ i.head_ref
  pub body : p.body ≡ i.body
  pub additions : p.additions ≡ i.additions
  pub deletions : p.deletions ≡ i.deletions
  pub html_url : p.html_url ≡ i.html_url
  pub merged_at : p.merged_at ≡ i.merged_at
  pub closed_at : p.closed_at ≡ i.closed_at
  pub gh_updated_at : p.gh_updated_at ≡ i.gh_updated_at

-- What the tables hold for a report: its repository and its workspace, one identity at most that its
-- login fits, and one member at most.
pub record Resolves (lib : Library) (repo_id : ℕ) (db : Db) (i : UpsertPrInput) : Type 0 where
  pub workspace : has_workspace i.workspace_id db ≡ true
  pub repo : has_repo repo_id db ≡ true
  pub identity : length (identified_users lib i.workspace_id i.author_login db) ≤ 1
  pub known : length (known_users lib i.workspace_id i.author_login db db.users) ≤ 1

IsRead-scalar : (xs : List ℕ) → IsRead (scalar xs)
unfolding scalar ◌>>=◌
IsRead-scalar [] = IsRead-pure none
IsRead-scalar (x ∷ []) = IsRead-pure (some x)
IsRead-scalar (x ∷ y ∷ rest) = record { same = λ db a db' h. cc }

IsRead-or_known : (o : Option ℕ) (xs : List ℕ) → IsRead (or_known o xs)
IsRead-or_known none xs = IsRead-scalar xs
IsRead-or_known (some x) xs = IsRead-pure (some x)

IsRead-member :
    (lib : Library) (w : ℕ) (login : String) → IsRead (member_by_github_login lib w login)
unfolding member_by_github_login
IsRead-member lib w login = IsRead-bind _ _ (IsRead-reads _) λ identified.
    IsRead-bind _ _ (IsRead-scalar identified)
      λ own. IsRead-bind _ _ (IsRead-reads _) λ known. IsRead-or_known own known

scalar-Succeeds :
    (xs : List ℕ) (db : Db) → length xs ≤ 1 → (o : Option ℕ) × (scalar xs db ≡ ok (o, db))
unfolding scalar ◌>>=◌
scalar-Succeeds [] db h = (none, refl)
scalar-Succeeds (x ∷ []) db h = (some x, refl)
scalar-Succeeds (x ∷ y ∷ rest) db h = absurd (omega arith)

or_known-Succeeds :
    (own : Option ℕ) (xs : List ℕ) (db : Db)
    → length xs ≤ 1
    → (o : Option ℕ) × (or_known own xs db ≡ ok (o, db))
unfolding ◌>>=◌
or_known-Succeeds none xs db h = scalar-Succeeds xs db h
or_known-Succeeds (some x) xs db h = (some x, refl)

member-Succeeds :
    (lib : Library) (w : ℕ) (login : String) (db : Db)
    → length (identified_users lib w login db) ≤ 1
    → length (known_users lib w login db db.users) ≤ 1
    → (o : Option ℕ) × (member_by_github_login lib w login db ≡ ok (o, db))
unfolding member_by_github_login ◌>>=◌
member-Succeeds lib w login db h k =
    let (own, e) = scalar-Succeeds (identified_users lib w login db) db h in
    let (o, f) = or_known-Succeeds own (known_users lib w login db db.users) db k in
    (o, rw (e, f) refl)

module _ (lib : Library) (repo_id number : ℕ) where
  -- A report of this pull request, with a time.
  pub record IsReport (i : UpsertPrInput) : Type 0 where
    pub repo : i.repo_id ≡ repo_id
    pub numbered : i.number ≡ number
    pub time : ℕ
    pub timed : i.gh_updated_at ≡ some time

  abbrev pub row_of : Db → Option PullRequest
  row_of db = find (is_pull_request repo_id number) db.pull_requests

  -- A report with a time that is not after `t`.
  abbrev pub IsBy : ℕ → UpsertPrInput → Type 0
  IsBy t i = (s : ℕ) × (i.gh_updated_at ≡ some s) × (s ≤ t)

  -- The row is as one of the latest of these reports says.
  pub record IsLatest (reports : List UpsertPrInput) (p : PullRequest) : Type 0 where
    pub report : UpsertPrInput
    pub among : In report reports
    pub mirrors : Mirrors report p
    pub last : ℕ
    pub dated : p.gh_updated_at ≡ some last
    pub latest : All (IsBy last) reports

  -- What is stored once some reports have come in.
  abbrev Stored : List UpsertPrInput → Db → Type 0
  Stored [] db = row_of db ≡ none
  Stored (i ∷ is) db = (p : PullRequest) × (row_of db ≡ some p) × IsLatest (i ∷ is) p

  stored :
      (seen : List UpsertPrInput) (i : UpsertPrInput) (db : Db) (p : PullRequest)
      → row_of db ≡ some p
      → IsLatest (seen ++ i ∷ []) p
      → Stored (seen ++ i ∷ []) db
  stored [] i db p e h = (p, e, h)
  stored (j ∷ js) i db p e h = (p, e, h)

  key_of :
      (i : UpsertPrInput)
      → IsReport i
      → (id : ℕ) (author : Option ℕ)
      → is_pull_request repo_id number (new_row lib i id author) ≡ true
  key_of i r id author = ground (arith, r.repo, r.numbered)

  IsBy-self : (i : UpsertPrInput) → (r : IsReport i) → IsBy r.time i
  IsBy-self i r = (r.time, r.timed, omega arith)

  insert_pr-Stored :
      (i : UpsertPrInput) (id : ℕ) (author : Option ℕ) (db : Db)
      → IsReport i
      → row_of db ≡ none
      → Ensures (insert_pr lib i id author) db (λ _. Stored (i ∷ []))
  insert_pr-Stored i id author db r e = Ensures-reads _ _ _ (
      Ensures-require _ _ _ _ λ _. Ensures-modify _ _ _ (
        Ensures-pure _ _ (
          new_row lib i id author,
          find-append (is_pull_request repo_id number) db.pull_requests (new_row lib i id author)
              ∙ rw e (rw (key_of i r id author) refl),
          record {
            report = i;
            among = inl refl;
            mirrors = record {
              title = refl;
              state = refl;
              draft = refl;
              author_login = refl;
              head_ref = refl;
              body = refl;
              additions = refl;
              deletions = refl;
              html_url = refl;
              merged_at = refl;
              closed_at = refl;
              gh_updated_at = refl;
            };
            last = r.time;
            dated = r.timed;
            latest = (IsBy-self i r, tt);
          },
        )))

  later : (s t : ℕ) → is_current (some s) (some t) ≡ true → t ≤ s
  later s t h = ground arith

  earlier : (s t : ℕ) → is_current (some s) (some t) ≡ false → s ≤ t
  earlier s t h = ground arith

  IsBy-trans : (s t : ℕ) → s ≤ t → (i : UpsertPrInput) → IsBy s i → IsBy t i
  IsBy-trans s t h i (u, e, k) = (u, e, omega arith)

  module _ (i : UpsertPrInput) (r : IsReport i) (j : UpsertPrInput) (js : List UpsertPrInput) where
    refresh_pr-Stored :
        (author : Option ℕ) (db : Db) (old : PullRequest)
        → row_of db ≡ some old
        → IsLatest (j ∷ js) old
        → is_current i.gh_updated_at old.gh_updated_at ≡ true
        → Ensures (refresh_pr lib i author old) db (λ _. Stored ((j ∷ js) ++ i ∷ []))
    refresh_pr-Stored author db old e h newer =
        let old_key : is_pull_request repo_id number old ≡ true = find_test _ db.pull_requests e in
        let found : find (is_pull_request repo_id number)
              (update (is_pull_request repo_id number) (refreshed lib i author) db.pull_requests)
            ≡ some (refreshed lib i author old) =
          find-update_kept (is_pull_request repo_id number) (is_pull_request repo_id number)
            (refreshed lib i author) db.pull_requests (λ x. refl)
          ∙ rw e (rw old_key refl) in
        let found' : find (is_pull_request repo_id number) (
              update (is_pull_request i.repo_id i.number) (refreshed lib i author) db.pull_requests)
            ≡ some (refreshed lib i author old) =
          rw (r.repo, r.numbered) found in
        Ensures-modify _ _ _ (
          Ensures-pure _ _ (
            refreshed lib i author old,
            found',
            record {
              report = i;
              among = In-after (j ∷ js) i [];
              mirrors = record {
                title = refl;
                state = refl;
                draft = refl;
                author_login = refl;
                head_ref = refl;
                body = refl;
                additions = refl;
                deletions = refl;
                html_url = refl;
                merged_at = refl;
                closed_at = refl;
                gh_updated_at = refl;
              };
              last = r.time;
              dated = r.timed;
              latest =
                  All-append _ (j ∷ js) (i ∷ [])
                    (All-map _ _ (j ∷ js)
                      (IsBy-trans h.last r.time
                        (later r.time h.last (rw (r.timed, h.dated) at newer)))
                      h.latest)
                    (IsBy-self i r, tt);
            },
          ))

    keep_pr-Stored :
        (db : Db) (old : PullRequest)
        → row_of db ≡ some old
        → IsLatest (j ∷ js) old
        → is_current i.gh_updated_at old.gh_updated_at ≡ false
        → Stored ((j ∷ js) ++ i ∷ []) db
    keep_pr-Stored db old e h older = (
      old,
      e,
      record {
        report = h.report;
        among = In-append (j ∷ js) (i ∷ []) h.report h.among;
        mirrors = h.mirrors;
        last = h.last;
        dated = h.dated;
        latest = All-append _ (j ∷ js) (i ∷ []) h.latest (
          IsBy-trans r.time h.last (earlier r.time h.last (rw (r.timed, h.dated) at older)) i
              (IsBy-self i r),
          tt,
        );
      },
    )

  resolve_pr-Stored :
      (i : UpsertPrInput) (seen : List UpsertPrInput) (id : ℕ) (author : Option ℕ) (db : Db)
      → IsReport i
      → Stored seen db
      → Ensures (resolve_pr lib i id author (row_of db)) db (λ _. Stored (seen ++ i ∷ []))
  resolve_pr-Stored i [] id author db r e = rw e (insert_pr-Stored i id author db r e)
  resolve_pr-Stored i (j ∷ js) id author db r (old, e, h) =
      rw e (elim (Bool-cases (is_current i.gh_updated_at old.gh_updated_at)) [
        | inl newer ↦ rw newer (refresh_pr-Stored i r j js author db old e h newer)
        | inr older ↦ rw older (Ensures-pure old db (keep_pr-Stored i r j js db old e h older))
      ])

  Stored-drawn :
      (seen : List UpsertPrInput) (db : Db) (n : ℕ)
      → Stored seen db
      → Stored seen (record db { drawn = n })
  Stored-drawn [] db n h = h
  Stored-drawn (j ∷ js) db n h = h

  upsert_pull_request-Stored :
      (i : UpsertPrInput) (seen : List UpsertPrInput) (db : Db)
      → IsReport i
      → Stored seen db
      → Ensures (upsert_pull_request lib i) db (λ _. Stored (seen ++ i ∷ []))
  unfolding upsert_pull_request
  upsert_pull_request-Stored i seen db r h =
      let drawn : Db = record db { drawn = suc db.drawn } in
      let id : ℕ = db.uuid_at db.drawn in
      let query : find (is_pull_request i.repo_id i.number) db.pull_requests ≡ row_of db =
        rw (r.repo, r.numbered) refl in
      Ensures-draw_uuid _ _ (
        Ensures-read _ _ drawn (IsRead-member lib i.workspace_id i.author_login) λ author _.
          Ensures-reads _ _ _ (
            subst (λ o. Ensures (resolve_pr lib i id author o) drawn (λ _. Stored (seen ++ i ∷ [])))
              (sym query)
              (resolve_pr-Stored i seen id author drawn r (Stored-drawn seen db (suc db.drawn) h))))

  deliver_all-Stored :
      (is : List UpsertPrInput) (seen : List UpsertPrInput) (db : Db)
      → All IsReport is
      → Stored seen db
      → Ensures (deliver_all lib is) db (λ _. Stored (seen ++ is))
  unfolding deliver_all
  deliver_all-Stored [] seen db r h =
      Ensures-pure tt db (subst (λ l. Stored l db) (sym (append-nil seen)) h)
  deliver_all-Stored (i ∷ is) seen db r h =
      Ensures-bind _ _ _ _ (upsert_pull_request-Stored i seen db r.0 h) (λ p mid k.
        subst (λ l. Ensures (deliver_all lib is) mid (λ _. Stored l))
          (append_assoc seen (i ∷ []) is) (deliver_all-Stored is (seen ++ i ∷ []) mid r.1 k))

  -- The pull requests and the number of drawn identifiers after a run.
  abbrev Ends : {A : Type 0} → Tx A → Db → Type 0
  Ends {A} m db =
      (a : A) × (n : ℕ) × (ps : List PullRequest) × (m db
        ≡ ok (a, record db { drawn = n; pull_requests = ps }))

  Resolves-same :
      (db : Db) (n : ℕ) (ps : List PullRequest) (i : UpsertPrInput)
      → Resolves lib repo_id db i
      → Resolves lib repo_id (record db { drawn = n; pull_requests = ps }) i
  unfolding fallback_available
  Resolves-same db n ps i h = record {
    workspace = h.workspace;
    repo = h.repo;
    identity = h.identity;
    known = h.known;
  }

  resolve_pr-Ends :
      (i : UpsertPrInput) (id : ℕ) (author : Option ℕ) (o : Option PullRequest) (db : Db)
      → IsReport i
      → Resolves lib repo_id db i
      → Ends (resolve_pr lib i id author o) db
  unfolding ◌>>=◌
  resolve_pr-Ends i id author none db r h = rw (r.repo, h.workspace, h.repo) (_, _, _, refl)
  resolve_pr-Ends i id author (some old) db r h =
      elim (Bool-cases (is_current i.gh_updated_at old.gh_updated_at)) [
        | inl newer ↦ rw newer (_, _, _, refl)
        | inr older ↦ rw older (_, _, _, refl)
      ]

  upsert-Ends :
      (i : UpsertPrInput) (db : Db)
      → IsReport i
      → Resolves lib repo_id db i
      → Ends (upsert_pull_request lib i) db
  unfolding upsert_pull_request ◌>>=◌ draw_uuid
  upsert-Ends i db r h =
      let drawn : Db = record db { drawn = suc db.drawn } in
      let h' = Resolves-same db (suc db.drawn) db.pull_requests i h in
      let (author, e) =
        member-Succeeds lib i.workspace_id i.author_login drawn h'.identity h'.known in
      let (p, n, ps, f) =
        resolve_pr-Ends i (db.uuid_at db.drawn) author
          (find (is_pull_request i.repo_id i.number) db.pull_requests) drawn r h' in
      (p, n, ps, rw (e, f) refl)

  deliver_all-Ends :
      (is : List UpsertPrInput) (db : Db)
      → All IsReport is
      → All (Resolves lib repo_id db) is
      → Ends (deliver_all lib is) db
  unfolding deliver_all ◌>>=◌
  deliver_all-Ends [] db r h = (_, _, _, refl)
  deliver_all-Ends (i ∷ is) db r h =
      let (p, n, ps, e) = upsert-Ends i db r.0 h.0 in
      let (u, n', ps', f) =
        deliver_all-Ends is (record db { drawn = n; pull_requests = ps }) r.1
          (All-map _ _ is (λ j. Resolves-same db n ps j) h.1) in
      (u, n', ps', rw (e, f) refl)

  -- Reports of one pull request of which nothing was stored, each with a time, are all taken, in
  -- whatever order they come in: there is then a row, and it is as one of the latest of them says, its
  -- author and the time of its creation aside. The repository and the workspaces are stored, and the
  -- login of each report fits one identity of its workspace at most, and one member at most.
  pub deliver_all-IsLatest :
      (first : UpsertPrInput) (others : List UpsertPrInput) (db : Db)
      → All IsReport (first ∷ others)
      → All (Resolves lib repo_id db) (first ∷ others)
      → row_of db ≡ none
      → (u : Unit {0}) × (db' : Db) × (deliver_all lib (first ∷ others) db ≡ ok (u, db'))
        × (p : PullRequest) × (row_of db' ≡ some p)
        × IsLatest (first ∷ others) p
  deliver_all-IsLatest first others db r k h =
      let (u, n, ps, e) = deliver_all-Ends (first ∷ others) db r k in
      let (p, found, latest) = (deliver_all-Stored (first ∷ others) [] db r h).at u _ e in
      (u, _, e, p, found, latest)
