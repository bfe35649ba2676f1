-- ===== src/Store/Sprint/Single.antt =====
-- Each project has at most one active sprint.
use velvet.Common.{
  ℕ, ◌≡◌, refl, none, some, Bool, true, false, not, ◌&&◌, ◌||◌, arith, ◌==◌, List, [], ◌∷◌, find,
  update, if◌then◌else◌, All, All-find, All-map, find_test, update-none, find-update, Option-cases,
  inl, inr,
}
use velvet.Common.Pairs.{Pairs, Pairs-change, All-find-none, All-change, All-both}
use velvet.Store.Db.{Db, Sprint}
use velvet.Store.Tx.{ok}
use velvet.Store.Sprint.{is_sprint, is_active}
use velvet.Store.Sprint.Close.{complete, activate, is_previous, activate_sprint}
use velvet.Store.Sprint.Shape.{Activated, alone, after, activate_sprint-ensures}

-- Two active sprints of one project are the same sprint; a project lies in one workspace, and an id
-- names one sprint.
abbrev pub fits : Sprint → Sprint → Bool
fits s t =
    (not (s.project_id == t.project_id)
      || (s.workspace_id == t.workspace_id
          && (not (is_active s.state && is_active t.state) || s.id == t.id)))
    && (not (s.id == t.id) || s.project_id == t.project_id)

abbrev Fits : Sprint → Sprint → Type 0
Fits s t = fits s t ≡ true

abbrev pub OneActive : List Sprint → Type 0
OneActive = Pairs Fits

complete_pair :
    (db : Db) (b c : Bool) (s t : Sprint)
    → Fits s t
    → Fits (if b then complete db s else s) (if c then complete db t else t)
complete_pair db true true s t r = ground arith
complete_pair db true false s t r = ground arith
complete_pair db false true s t r = ground arith
complete_pair db false false s t r = r

All-tt : (ss : List Sprint) → All (λ _. Unit {0}) ss
All-tt [] = tt
All-tt (s ∷ ss) = (tt, All-tt ss)

pub complete-OneActive :
    (w id : ℕ) (db : Db) (ss : List Sprint)
    → OneActive ss
    → OneActive (update (is_sprint w id) (complete db) ss)
complete-OneActive w id db ss h =
    Pairs-change Fits (λ _. Unit) (is_sprint w id) (complete db) ss
      (λ s t _ _ r. complete_pair db (is_sprint w id s) (is_sprint w id t) s t r) (All-tt ss) h

-- What is known of a row when the sprint `id` of project `p` is activated: the row of that sprint is
-- in the project, and no other row of the project is active.
abbrev is_ready : ℕ → ℕ → ℕ → Sprint → Bool
is_ready w id p s =
    (not (is_sprint w id s) || s.project_id == p)
    && not (s.workspace_id == w && (is_active s.state && (not (s.id == id) && s.project_id == p)))

abbrev Ready : ℕ → ℕ → ℕ → Sprint → Type 0
Ready w id p s = is_ready w id p s ≡ true

activate_pair :
    (w id p : ℕ) (db : Db) (b c : Bool) (s t : Sprint)
    → is_sprint w id s ≡ b
    → is_sprint w id t ≡ c
    → Ready w id p s
    → Ready w id p t
    → Fits s t
    → Fits (if b then activate db s else s) (if c then activate db t else t)
activate_pair w id p db true true s t e f x y r = ground arith
activate_pair w id p db true false s t e f x y r = ground arith
activate_pair w id p db false true s t e f x y r = ground arith
activate_pair w id p db false false s t e f x y r = r

activate-OneActive :
    (w id p : ℕ) (db : Db) (ss : List Sprint)
    → All (Ready w id p) ss
    → OneActive ss
    → OneActive (update (is_sprint w id) (activate db) ss)
activate-OneActive w id p db ss g h =
    Pairs-change Fits (Ready w id p) (is_sprint w id) (activate db) ss
      (λ s t x y r.
        activate_pair w id p db (is_sprint w id s) (is_sprint w id t) s t refl refl x y r)
      g h

-- A row of the workspace and id of `f` is in the project of `f`.
same_row :
    (w id : ℕ) (f s : Sprint)
    → is_sprint w id f ≡ true
    → Fits f s
    → is_sprint w id s ≡ true
    → s.project_id ≡ f.project_id
same_row w id f s e r k = ground arith

Ready-alone :
    (w id : ℕ) (db : Db) (f s : Sprint)
    → find (is_sprint w id) db.sprints ≡ some f
    → is_sprint w id f ≡ true
    → Fits f s
    → is_previous db w id s ≡ false
    → Ready w id f.project_id s
Ready-alone w id db f s e self r k = ground (arith, same_row w id f s self r)

-- After the previous sprint is closed, no other row of the project is active.
Ready-after :
    (w id : ℕ) (db : Db) (f previous s : Sprint) (b : Bool)
    → find (is_sprint w id) db.sprints ≡ some f
    → is_sprint w id f ≡ true
    → is_previous db w id previous ≡ true
    → Fits f s
    → Fits previous s
    → is_sprint w previous.id s ≡ b
    → Ready w id f.project_id (if b then complete db s else s)
Ready-after w id db f previous s true e self k r q t = ground (arith, same_row w id f s self r)
Ready-after w id db f previous s false e self k r q t = ground (arith, same_row w id f s self r)

-- A previous sprint shows that the sprint to activate exists.
previous_needs_sprint :
    (w id : ℕ) (db : Db) (s : Sprint)
    → find (is_sprint w id) db.sprints ≡ none
    → is_previous db w id s ≡ true
    → ⊥
previous_needs_sprint w id db s e k = ground arith

alone-OneActive :
    (w id : ℕ) (db : Db) (f : Sprint)
    → find (is_sprint w id) db.sprints ≡ some f
    → find (is_previous db w id) db.sprints ≡ none
    → OneActive db.sprints
    → OneActive (update (is_sprint w id) (activate db) db.sprints)
alone-OneActive w id db f e h fit =
    let self : is_sprint w id f ≡ true = find_test (is_sprint w id) db.sprints e in
    let others : All (Fits f) db.sprints =
      All-find (λ s. All (Fits s) db.sprints) (is_sprint w id) db.sprints e fit in
    activate-OneActive w id f.project_id db db.sprints
      (All-map _ _ db.sprints (λ s k. Ready-alone w id db f s e self k.0 k.1)
        (All-both _ _ db.sprints others (All-find-none (is_previous db w id) db.sprints h)))
      fit

after-OneActive :
    (w id : ℕ) (db mid : Db) (f previous : Sprint)
    → find (is_sprint w id) db.sprints ≡ some f
    → find (is_previous db w id) db.sprints ≡ some previous
    → OneActive db.sprints
    → OneActive (
        update
          (is_sprint w id)
          (activate mid)
          (update (is_sprint w previous.id) (complete db) db.sprints))
after-OneActive w id db mid f previous e h fit =
    let self : is_sprint w id f ≡ true = find_test (is_sprint w id) db.sprints e in
    let test = find_test (is_previous db w id) db.sprints h in
    let others : All (Fits f) db.sprints =
      All-find (λ s. All (Fits s) db.sprints) (is_sprint w id) db.sprints e fit in
    let rivals : All (Fits previous) db.sprints =
      All-find (λ s. All (Fits s) db.sprints) (is_previous db w id) db.sprints h fit in
    activate-OneActive w id f.project_id mid _
      (All-change (λ s. Fits f s × Fits previous s) (Ready w id f.project_id)
        (is_sprint w previous.id) (complete db) db.sprints
        (λ s k.
          Ready-after w id db f previous s (is_sprint w previous.id s) e self test k.0 k.1 refl)
        (All-both _ _ db.sprints others rivals))
      (complete-OneActive w previous.id db db.sprints fit)

missing :
    (w id : ℕ) (db : Db) (ss : List Sprint) {out : Sprint}
    → find (is_sprint w id) ss ≡ none
    → find (is_sprint w id) (update (is_sprint w id) (activate db) ss) ≡ some out
    → ⊥
missing w id db ss {out} e h =
    let h' : find (is_sprint w id) ss ≡ some out =
      rw (update-none (is_sprint w id) (activate db) ss e) at h in
    cc

Activated-OneActive :
    (w id : ℕ) (db : Db) {out : Sprint} {db' : Db}
    → Activated w id db out db'
    → OneActive db.sprints
    → OneActive db'.sprints
Activated-OneActive w id db (alone none_before sprints found _ _) fit =
    elim (Option-cases (find (is_sprint w id) db.sprints)) [
      | inl e ↦ absurd (missing w id db db.sprints e (rw sprints at found))
      | inr (f, e) ↦ simp sprints (alone-OneActive w id db f e none_before fit)
    ]
Activated-OneActive w id db (after previous mid closed before c sprints found _ _) fit =
    elim (Option-cases (find (is_sprint w id) db.sprints)) [
      | inl e ↦ absurd (previous_needs_sprint w id db previous e (find_test _ db.sprints before))
      | inr (f, e) ↦ simp (sprints, c.sprints) (after-OneActive w id db mid f previous e before fit)
    ]

active_row :
    (w id : ℕ) (db : Db) (ss : List Sprint) {out : Sprint}
    → find (is_sprint w id) (update (is_sprint w id) (activate db) ss) ≡ some out
    → is_active out.state ≡ true
active_row w id db ss h =
    find-update (λ s. is_active s.state ≡ true) (is_sprint w id) (activate db) ss (λ s e. (e, refl))
      h

Activated-state :
    (w id : ℕ) (db : Db) {out : Sprint} {db' : Db}
    → Activated w id db out db'
    → is_active out.state ≡ true
Activated-state w id db (alone _ sprints found _ _) = active_row w id db _ (rw sprints at found)
Activated-state w id db (after _ mid _ _ _ sprints found _ _) =
    active_row w id mid _ (rw sprints at found)

-- A successful `activate_sprint` keeps the rule that each project has at most one active sprint, and
-- the sprint that it returns is active.
pub activate_sprint-OneActive :
    (w id actor : ℕ) (db : Db) {out : Sprint} {db' : Db}
    → activate_sprint w id actor db ≡ ok (out, db')
    → OneActive db.sprints
    → OneActive db'.sprints × (is_active out.state ≡ true)
activate_sprint-OneActive w id actor db {out} {db'} h fit =
    let a = (activate_sprint-ensures w id actor db).at out db' h in
    (Activated-OneActive w id db a fit, Activated-state w id db a)
