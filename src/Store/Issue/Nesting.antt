-- ===== src/Store/Issue/Nesting.antt =====
-- Sub-issues have no sub-issues.
use velvet.Common.{
  ℕ, ◌≡◌, refl, sym, subst, ◌∙◌, Option, none, some, is_some, Bool, true, false, ◌&&◌, ◌⊎◌, inl,
  inr, arith, ◌==◌, ◌=?◌, ==_iff, =?_iff, any, All, All-map, if◌then◌else◌, find_test,
  some_injective,
}
use velvet.Common.Pairs.{Pairs, Pairs-change, Pairs-append, All-any, All-both}
use velvet.Common.In.{All-each}
use velvet.Store.Db.{Db, Issue}
use velvet.Store.Tx.{ok, ◌>>=◌}
use velvet.Store.Issue.{CreateIssueInput, IssuePatch, issue_depth_guard}
use velvet.Store.Issue.Create.{create_issue}
use velvet.Store.Issue.Update.{is_issue, update_issue}
use velvet.Store.Issue.Shape.{create_issue-ensures, update_issue-ensures}

abbrev pub Flat : Issue → Issue → Type 0
Flat child parent = child.parent_id ≡ some parent.id → parent.parent_id ≡ none

-- The parent of an issue has no parent.
abbrev pub IsFlat : Db → Type 0
IsFlat db = Pairs Flat db.issues

-- What the trigger lets through: no parent, or a parent without a parent for an issue without
-- sub-issues.
abbrev Allowed : ℕ → Option ℕ → Db → Type 0
Allowed id parent_id db =
    (parent_id ≡ none)
    ⊎ ((p : ℕ) × (parent_id ≡ some p)
        × ((p == id) ≡ false)
        × (any (λ (i : Issue). i.id == p && is_some i.parent_id) db.issues ≡ false)
        × (any (λ (i : Issue). i.parent_id =? some id) db.issues ≡ false))

allowed :
    (id : ℕ) (parent_id : Option ℕ) (db : Db) {u : Unit {0}} {db' : Db}
    → issue_depth_guard id parent_id db ≡ ok (u, db')
    → Allowed id parent_id db
unfolding issue_depth_guard
allowed id none db h = inl refl
allowed id (some p) db h =
    let own : (p == id) ≡ false = unfold ◌>>=◌ in ground arith in
    let nested : any (λ (i : Issue). i.id == p && is_some i.parent_id) db.issues ≡ false =
      unfold ◌>>=◌ in ground arith in
    let children : any (λ (i : Issue). i.parent_id =? some id) db.issues ≡ false =
      unfold ◌>>=◌ in ground arith in
    inr (p, refl, own, nested, children)

-- What the rows of a flat table must satisfy for an issue to be stored among them.
abbrev Beside : Issue → Issue → Type 0
Beside new i = Flat i new × Flat new i

clash : {o : Option ℕ} {n : ℕ} → o ≡ none → o ≡ some n → ⊥
clash e h = cc

is_some-none : (o : Option ℕ) → is_some o ≡ false → o ≡ none
is_some-none none h = refl
is_some-none (some n) h = cc

Allowed-Beside :
    (new : Issue) (db : Db)
    → Allowed new.id new.parent_id db
    → All (Beside new) db.issues × Flat new new
Allowed-Beside new db (inl none_above) = (
  All-each (Beside new) db.issues (λ i _. (λ e. none_above, λ e. absurd (clash none_above e))),
  λ e. none_above,
)
Allowed-Beside new db (inr (p, e, own, nested, children)) = (
  All-map _ (Beside new) db.issues
      (λ i k. (λ q. absurd (no_child i k.1 q), λ q. top i k.0 (sym (some_injective (sym e ∙ q)))))
      (All-both _ _ db.issues (All-any _ db.issues nested) (All-any _ db.issues children)),
  λ q. absurd (loops (some_injective (sym e ∙ q))),
)
  where
    no_child : (i : Issue) → (i.parent_id =? some new.id) ≡ false → i.parent_id ≡ some new.id → ⊥
    no_child i k q = let yes = (=?_iff i.parent_id (some new.id)).1 q in cc

    top : (i : Issue) → (i.id == p && is_some i.parent_id) ≡ false → i.id ≡ p → i.parent_id ≡ none
    top i k q = is_some-none i.parent_id (let yes = (==_iff i.id p).1 q in ground arith)

    loops : p ≡ new.id → ⊥
    loops q = let yes = (==_iff p new.id).1 q in cc

has_id : (w id : ℕ) (i : Issue) → is_issue w id i ≡ true → i.id ≡ id
has_id w id i h = ground arith

placed :
    (new : Issue) (b c : Bool) (x y : Issue)
    → Beside new x
    → Beside new y
    → Flat new new
    → Flat x y
    → Flat (if b then new else x) (if c then new else y)
placed new true true x y kx ky alone k = alone
placed new true false x y kx ky alone k = ky.1
placed new false true x y kx ky alone k = kx.0
placed new false false x y kx ky alone k = k

-- A successful `create_issue` keeps the rule that the parent of an issue has no parent.
pub create_issue-IsFlat :
    (input : CreateIssueInput) (db : Db) {out : Issue} {db' : Db}
    → create_issue input db ≡ ok (out, db')
    → IsFlat db
    → IsFlat db'
create_issue-IsFlat input db {out} {db'} h flat =
    let c = (create_issue-ensures input db).at out db' h in
    let (mid, same, run) = c.guarded in
    let (beside, alone) = Allowed-Beside out mid (allowed out.id out.parent_id mid run) in
    let beside' : All (Beside out) db.issues = subst (All (Beside out)) same beside in
    simp c.issues (
      Pairs-append Flat db.issues out flat (All-map (Beside out) _ db.issues (λ i k. k.0) beside')
        (All-map (Beside out) _ db.issues (λ i k. k.1) beside') alone)

-- A successful `update_issue` keeps the rule that the parent of an issue has no parent.
pub update_issue-IsFlat :
    (w id actor : ℕ) (patch : IssuePatch) (db : Db) {out : Issue} {db' : Db}
    → update_issue w id actor patch db ≡ ok (out, db')
    → IsFlat db
    → IsFlat db'
update_issue-IsFlat w id actor patch db {out} {db'} h flat =
    let (before, u) = (update_issue-ensures w id actor patch db).at out db' h in
    let found = find_test (is_issue w id) db.issues u.found in
    let same : out.id ≡ id = u.same_id ∙ has_id w id before found in
    let guarded : Allowed out.id out.parent_id db =
      subst (λ k. Allowed k out.parent_id db) (sym same) (allowed id out.parent_id db u.guarded) in
    let (beside, alone) = Allowed-Beside out db guarded in
    simp u.issues (
      Pairs-change Flat (Beside out) (is_issue w id) (λ _. out) db.issues
        (λ x y kx ky k. placed out (is_issue w id x) (is_issue w id y) x y kx ky alone k) beside
        flat)
