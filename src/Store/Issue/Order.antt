-- ===== src/Store/Issue/Order.antt =====
-- Where `next_issue_position` puts an issue.
use velvet.Common.{
  ℕ, ◌≡◌, refl, sym, Option, none, some, true, arith, List, [], ◌∷◌, All, select, if◌then◌else◌,
  Bool-cases, Option-cases, inl, inr, some_injective, subst,
}
use velvet.Common.Text.{Bytes, lex_ltb, lex_ltb_trans, lex_ltb_cotrans}
use velvet.Fracdex
use velvet.Fracdex.Strict.{between_strict}
use velvet.Store.Db.{Db, Issue}
use velvet.Store.Tx.{ok, ◌>>=◌}
use velvet.Store.Issue.{
  CreateIssueInput, last_position, positions, in_list, after_last, order_result,
  next_issue_position,
}
use velvet.Store.Issue.Create.{create_issue}
use velvet.Store.Issue.Shape.{create_issue-ensures}

abbrev pub SortsBefore : Bytes → Issue → Type 0
SortsBefore p i = lex_ltb i.position p ≡ true

none_last : (ps : List Bytes) → last_position ps ≡ none → ps ≡ []
unfolding last_position
none_last [] h = refl
none_last (p ∷ ps) h = elim (Option-cases (last_position ps)) [
  | inl e ↦ let wrong : some p ≡ none = rw e at h in cc
  | inr (q, e) ↦ let wrong : some (if lex_ltb q p then p else q) ≡ none = rw e at h in cc
]

-- A key after the last position is after every position.
last_position-bound :
    (t : Bytes) (ps : List Bytes) {q : Bytes}
    → last_position ps ≡ some q
    → lex_ltb q t ≡ true
    → All (λ p. lex_ltb p t ≡ true) ps
unfolding last_position
last_position-bound t [] h k = tt
last_position-bound t (p ∷ ps) {q} h k = elim (Option-cases (last_position ps)) [
  | inl e ↦
      let same : p ≡ q = some_injective (rw e at h) in
      rw (none_last ps e) (subst (λ z. lex_ltb z t ≡ true) (sym same) k, tt)
  | inr (r, e) ↦
      let same : (if lex_ltb r p then p else r) ≡ q = some_injective (rw e at h) in
      let chosen : lex_ltb (if lex_ltb r p then p else r) t ≡ true = rw same k in
      elim (Bool-cases (lex_ltb r p)) [
        | inl l ↦
            let here : lex_ltb p t ≡ true = rw l at chosen in
            (here, last_position-bound t ps e (lex_ltb_trans r p t l here))
        | inr l ↦
            let there : lex_ltb r t ≡ true = rw l at chosen in
            (lex_ltb_cotrans r p t l there, last_position-bound t ps e there)
      ]
]

All-positions :
    (t : Bytes) (is : List Issue)
    → All (λ p. lex_ltb p t ≡ true) (positions is)
    → All (SortsBefore t) is
All-positions t [] h = tt
All-positions t (i ∷ is) h = (h.0, All-positions t is h.1)

order_result_ok :
    (r : Fracdex.Result) (db : Db) {p : Bytes} {db' : Db}
    → order_result r db ≡ ok (p, db')
    → r ≡ Fracdex.ok p
order_result_ok (Fracdex.ok k) db h = ground arith
order_result_ok (Fracdex.err e) db h = cc

after_last-bound :
    (is : List Issue) (o : Option Bytes) (db : Db) {p : Bytes} {db' : Db}
    → last_position (positions is) ≡ o
    → after_last o db ≡ ok (p, db')
    → All (SortsBefore p) is
after_last-bound [] o db e h = tt
after_last-bound (i ∷ is) none db e h = let wrong = none_last (positions (i ∷ is)) e in cc
after_last-bound is (some last) db {p} e h = All-positions p is (
    last_position-bound p (positions is) e
      (between_strict last [] (order_result_ok (Fracdex.between last []) db h)).0)

next_issue_position-bound :
    (w : ℕ) (m : Option ℕ) (db : Db) {p : Bytes} {db' : Db}
    → next_issue_position w m db ≡ ok (p, db')
    → All (SortsBefore p) (select (in_list w m) db.issues)
unfolding next_issue_position
next_issue_position-bound w m db {p} {db'} h =
    let is = select (in_list w m) db.issues in
    let run : after_last (last_position (positions is)) db ≡ ok (p, db') = unfold ◌>>=◌ in h in
    after_last-bound is _ db refl run

-- The row that a successful `create_issue` adds sorts after every issue that was in its list, in the
-- order of the bytes of their positions.
pub create_issue-SortsBefore :
    (input : CreateIssueInput) (db : Db) {out : Issue} {db' : Db}
    → create_issue input db ≡ ok (out, db')
    → All
        (SortsBefore out.position)
        (select (in_list input.workspace_id out.milestone_id) db.issues)
create_issue-SortsBefore input db {out} {db'} h =
    let c = (create_issue-ensures input db).at out db' h in
    let (mid, same, run) = c.positioned in
    let sorted = next_issue_position-bound input.workspace_id out.milestone_id mid run in
    subst
      (λ is.
        All (SortsBefore out.position) (select (in_list input.workspace_id out.milestone_id) is))
      same sorted
