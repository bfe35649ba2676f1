-- ===== src/Store/Suggestion/Closed.antt =====
-- What the calls on suggestions leave alone.
use velvet.Common.{
  ℕ, suc, ◌≡◌, refl, sym, ap, subst, Option, none, some, Bool, true, false, List, [], ◌∷◌, arith,
  is_some, any, find, find_test, update, Bool-cases, inl, inr, if◌then◌else◌,
}
use velvet.Common.In.{In, In-append, In-update, find-In}
use velvet.Store.Db.{Db, Issue, Suggestion, Verb, TargetType, LinkSource}
use velvet.Store.Tx.{Tx, ok, pure, throw, panic, Error, ◌>>=◌, ◌>>◌, record_activity}
use velvet.Store.Tx.Steps.{modify_ok}
use velvet.Store.Tx.Frame.{
  Frame, Frame-read, Frame-draw_uuid, Frame-pure, Frame-reads, Frame-query_row, Frame-require,
  Frame-modify, Frame-bind,
}
use velvet.Store.Tx.Ensures.{
  Ensures, Ensures-any, Ensures-bind, Ensures-pure, Ensures-read, Ensures-reads, Ensures-require,
  Ensures-query_row, Ensures-modify, Ensures-draw_uuid,
}
use velvet.Store.Access.Reads.{IsRead-lock_workspace_writer}
use velvet.Store.PullRequest.{link_pr_tx, add_link}
use velvet.Store.Suggestion.{
  SaveSuggestionInput, save_suggestion, accept_suggestion, dismiss_suggestion, is_suggestion,
  is_about, put_answer, new_answer, answered, may_dismiss, may_answer, open_issue, apply_to,
  file_note_tx, accepted_by_actor,
}

-- The calls, each with its arguments.
pub data Call : Type 0 where
  save : SaveSuggestionInput → Call
  accept : ℕ → ℕ → ℕ → Call
  dismiss : ℕ → ℕ → ℕ → Call

unfoldable pub run : Call → Tx (Unit {0})
unfolding save_suggestion accept_suggestion dismiss_suggestion
run (save i) = save_suggestion i
run (accept workspace_id id actor_id) = accept_suggestion workspace_id id actor_id >> pure tt
run (dismiss workspace_id id actor_id) = dismiss_suggestion workspace_id id actor_id

-- The issues and the suggestions.
abbrev kept : Db → List Issue × List Suggestion
kept db = (db.issues, db.suggestions)

Frame-record_activity :
    (w a : ℕ) (v : Verb) (t : TargetType) (id : ℕ) → Frame kept (record_activity w a v t id)
unfolding record_activity
Frame-record_activity w a v t id = record { at = λ db u db' h. ground arith }

Frame-if :
    {A : Type 0} (t : Bool) (m n : Tx A)
    → Frame kept m
    → Frame kept n
    → Frame kept (if t then m else n)
Frame-if true m n h k = h
Frame-if false m n h k = k

Frame-throw : {A : Type 0} (e : Error) → Frame kept (throw {A = A} e)
unfolding ◌>>=◌
Frame-throw e = record { at = λ db a db' h. cc }

Frame-add_link :
    (w pr issue_id : ℕ) (source : LinkSource) (closing : Bool) (actor : Option ℕ)
    → Frame kept (add_link w pr issue_id source closing actor)
Frame-add_link w pr issue_id source closing actor = Frame-bind _ _ _ (Frame-reads _ _) λ _.
    Frame-bind _ _ _ (Frame-reads _ _) λ _. Frame-bind _ _ _ (Frame-require _ _ _) λ _.
      Frame-bind _ _ _ (Frame-modify _ _ (λ _. refl)) λ _.
        Frame-bind _ _ _ (Frame-query_row _ _) λ _.
          Frame-bind _ _ _ (Frame-query_row _ _)
            λ _. Frame-bind _ _ _ (Frame-record_activity _ _ _ _ _) λ _. Frame-pure _ _

Frame-link_pr_tx :
    (w pr issue_id : ℕ) (source : LinkSource) (closing : Bool) (actor : Option ℕ)
    → Frame kept (link_pr_tx w pr issue_id source closing actor)
unfolding link_pr_tx
Frame-link_pr_tx w pr issue_id source closing actor = Frame-bind _ _ _ (Frame-reads _ _) λ linked.
    Frame-if linked (pure false) (add_link w pr issue_id source closing actor) (Frame-pure _ _)
      (Frame-add_link w pr issue_id source closing actor)

Frame-file_note_tx :
    (w comment issue_id actor : ℕ) → Frame kept (file_note_tx w comment issue_id actor)
unfolding file_note_tx
Frame-file_note_tx w comment issue_id actor = Frame-bind _ _ _ (Frame-reads _ _) λ _.
    Frame-bind _ _ _ (Frame-require _ _ _)
      λ _. Frame-bind _ _ _ (Frame-modify _ _ (λ _. refl)) λ _. Frame-record_activity _ _ _ _ _

Frame-apply_to :
    (w issue_id actor : ℕ) (pr comment : Option ℕ)
    → Frame kept (apply_to w issue_id actor pr comment)
Frame-apply_to w issue_id actor (some pr) comment =
    Frame-bind _ _ _ (Frame-link_pr_tx _ _ _ _ _ _) λ _. Frame-pure _ _
Frame-apply_to w issue_id actor none (some comment) = Frame-file_note_tx w comment issue_id actor
Frame-apply_to w issue_id actor none none = Frame-throw panic

open_issue-IsOpen :
    (s : Suggestion) (db : Db) {id : ℕ} {mid : Db}
    → open_issue s db ≡ ok (id, mid)
    → (mid ≡ db) × (is_some s.accepted_at ≡ false)
unfolding ◌>>=◌
open_issue-IsOpen s db h = ground arith

-- Two rows with one identifier are the same row.
pub record HasDistinctIds (db : Db) : Type 0 where
  pub same : (s t : Suggestion) → In s db.suggestions → In t db.suggestions → s.id ≡ t.id → s ≡ t

module _ (db : Db) (row : Suggestion) (stored : In row db.suggestions)
    (accepted : is_some row.accepted_at ≡ true) where
  -- The issues are as they were, and the row is.
  abbrev Keeps : Db → Type 0
  Keeps db' = (db'.issues ≡ db.issues) × In row db'.suggestions

  In-put_answer :
      (i : SaveSuggestionInput) (id now : ℕ) → In row (put_answer i id now db.suggestions)
  In-put_answer i id now = elim (Bool-cases (any (is_about i.work) db.suggestions)) [
    | inl e ↦
        rw e (In-update (may_answer i.work) (answered i now) db.suggestions stored (ground arith))
    | inr e ↦ rw e (In-append db.suggestions (new_answer i id now ∷ []) row stored)
  ]

  save_suggestion-Keeps : (i : SaveSuggestionInput) → Ensures (save_suggestion i) db (λ _. Keeps)
  unfolding save_suggestion
  save_suggestion-Keeps i = Ensures-draw_uuid _ _ (
      Ensures-reads _ _ _ (
        Ensures-require _ _ _ _ λ _. Ensures-any _ _ (λ u db' e.
          let drawn : Db = record db { drawn = suc db.drawn } in
          let id : ℕ = db.uuid_at db.drawn in
          subst Keeps
            (sym (
              modify_ok (λ d. record d { suggestions = put_answer i id d.now d.suggestions }) drawn
                e))
            (refl, In-put_answer i id db.now))))

  dismiss_suggestion-Keeps :
      (w id actor : ℕ) → Ensures (dismiss_suggestion w id actor) db (λ _. Keeps)
  unfolding dismiss_suggestion
  dismiss_suggestion-Keeps w id actor =
      Ensures-read _ _ _ (IsRead-lock_workspace_writer w actor) (λ _ _. Ensures-reads _ _ _ (
        Ensures-reads _ _ _ (
          Ensures-modify _ _ _ (
            Ensures-require _ _ _ _ (λ _. Ensures-require _ _ _ _ (λ _.
              Ensures-pure _ _
                (refl, In-update (may_dismiss w id) _ db.suggestions stored (ground arith))))))))

  accept_suggestion-Keeps :
      (w id actor : ℕ) → HasDistinctIds db → Ensures (accept_suggestion w id actor) db (λ _. Keeps)
  unfolding accept_suggestion
  accept_suggestion-Keeps w id actor distinct =
      let other : (s : Suggestion)
          → find (is_suggestion w id) db.suggestions ≡ some s
          → is_some s.accepted_at ≡ false
          → is_suggestion w id row ≡ false =
        λ s found closed. elim (Bool-cases (is_suggestion w id row)) [
          | inl e ↦
              let key : is_suggestion w id s ≡ true = find_test _ db.suggestions found in
              let same : s ≡ row =
                distinct.same s row (find-In _ db.suggestions found) stored (ground arith) in
              let closed' : is_some row.accepted_at ≡ false =
                subst (λ r. is_some r.accepted_at ≡ false) same closed in
              cc
          | inr e ↦ e
        ] in
      Ensures-read _ _ _ (IsRead-lock_workspace_writer w actor) (λ _ _.
        Ensures-query_row _ _ _ (λ s found.
          Ensures-bind (λ _ mid. (mid ≡ db) × (is_some s.accepted_at ≡ false)) _ _ _
            (Ensures-any _ _ (λ a mid e. open_issue-IsOpen s db e))
            (λ issue_id mid q. rw q.0 (
              Ensures-query_row _ _ _ (λ i _. Ensures-require _ _ _ _ (λ _.
                Ensures-bind (λ _ end. kept end ≡ kept db) _ _ _
                  (Ensures-any _ _ (λ u end e.
                    (Frame-apply_to w issue_id actor s.pull_request_id s.comment_id).at db u end e))
                  (λ _ end same. Ensures-modify _ _ _ (
                    Ensures-pure _ _ (
                      ap (λ k. k.0) same,
                      subst
                          (λ l.
                            In row
                              (update (is_suggestion w id) (accepted_by_actor end.now actor) l))
                          (sym (ap (λ k. k.1) same))
                          (In-update (is_suggestion w id) (accepted_by_actor end.now actor)
                            db.suggestions stored (other s found q.1)),
                    )))))))))

  run-Keeps : (c : Call) → HasDistinctIds db → Ensures (run c) db (λ _. Keeps)
  unfolding run
  run-Keeps (save i) distinct = save_suggestion-Keeps i
  run-Keeps (accept w id actor) distinct =
      Ensures-bind (λ _. Keeps) _ _ _ (accept_suggestion-Keeps w id actor distinct)
        (λ i end k. Ensures-pure tt end k)
  run-Keeps (dismiss w id actor) distinct = dismiss_suggestion-Keeps w id actor

issues_of : Db → List Issue
issues_of db = db.issues

kept_issues : {A : Type 0} (m : Tx A) → Frame kept m → Frame issues_of m
unfolding issues_of
kept_issues m f = record { at = λ db a db' e. ap (λ k. k.0) (f.at db a db' e) }

Frame-open_issue : (s : Suggestion) → Frame issues_of (open_issue s)
unfolding issues_of
Frame-open_issue s = record { at = λ db id mid e. ap (λ d. d.issues) (open_issue-IsOpen s db e).0 }

Frame-accept_suggestion : (w id actor : ℕ) → Frame issues_of (accept_suggestion w id actor)
unfolding accept_suggestion issues_of
Frame-accept_suggestion w id actor =
    Frame-bind _ _ _ (Frame-read _ _ (IsRead-lock_workspace_writer w actor)) λ _.
      Frame-bind _ _ _ (Frame-query_row _ _) λ s. Frame-bind _ _ _ (Frame-open_issue s) λ issue_id.
        Frame-bind _ _ _ (Frame-query_row _ _) λ i. Frame-bind _ _ _ (Frame-require _ _ _) λ _.
          Frame-bind _ _ _
            (kept_issues _ (Frame-apply_to w issue_id actor s.pull_request_id s.comment_id))
            λ _. Frame-bind _ _ _ (Frame-modify _ _ (λ _. refl)) λ _. Frame-pure _ _

Frame-run : (c : Call) → Frame issues_of (run c)
unfolding run save_suggestion dismiss_suggestion issues_of
Frame-run (save i) = Frame-bind _ _ _ (Frame-draw_uuid _ (λ _ _. refl)) λ _.
    Frame-bind _ _ _ (Frame-reads _ _)
      λ _. Frame-bind _ _ _ (Frame-require _ _ _) λ _. Frame-modify _ _ (λ _. refl)
Frame-run (accept w id actor) =
    Frame-bind _ _ _ (Frame-accept_suggestion w id actor) λ _. Frame-pure _ _
Frame-run (dismiss w id actor) =
    Frame-bind _ _ _ (Frame-read _ _ (IsRead-lock_workspace_writer w actor)) λ _.
      Frame-bind _ _ _ (Frame-reads _ _) λ _. Frame-bind _ _ _ (Frame-reads _ _) λ _.
        Frame-bind _ _ _ (Frame-modify _ _ (λ _. refl)) λ _.
          Frame-bind _ _ _ (Frame-require _ _ _)
            λ _. Frame-bind _ _ _ (Frame-require _ _ _) λ _. Frame-pure _ _

-- A successful `SaveSuggestion`, `AcceptSuggestion` or `DismissSuggestion`, whoever calls it, leaves
-- every issue as it is, and every suggestion that was accepted before, if the suggestions differ in
-- identifier.
pub run-accepted :
    (c : Call) (db : Db) {u : Unit {0}} {db' : Db}
    → HasDistinctIds db
    → run c db ≡ ok (u, db')
    → (db'.issues ≡ db.issues)
      × ((row : Suggestion)
          → In row db.suggestions
          → is_some row.accepted_at ≡ true
          → In row db'.suggestions)
unfolding issues_of
run-accepted c db {u} {db'} distinct e = (
  (Frame-run c).at db u db' e,
  λ row stored accepted. ((run-Keeps db row stored accepted c distinct).at u db' e).1,
)
