-- ===== src/Store/Sprint/Frames.antt =====
-- What rolling issues forward leaves alone: sprints, snapshots, closed issues, and of every issue all
-- columns but its milestone and the time of its last change.
use velvet.Common.{
  ℕ, ◌≡◌, refl, Option, none, some, Bool, not, arith, List, [], ◌∷◌, select, update, Bool-cases,
  inl, inr,
}
use mathlib.Core.List.{map}
use velvet.Store.Db.{Db, Milestone, Issue}
use velvet.Store.Tx.Steps.{IsRead, read_rules}
use velvet.Store.Tx.Frame.{
  Frame, Frame-read, Frame-pure, Frame-reads, Frame-modify, Frame-draw_uuid, Frame-bind,
}
use velvet.Store.Issue.Reads.{IsRead-after_last}
use velvet.Store.Milestone.{next_milestone_position, insert_milestone}
use velvet.Store.Sprint.Roll.{
  is_open, target_milestone, moves, move_issues, carry, carry_all, roll_into,
  roll_incomplete_issues_forward,
}

pub IsRead-next_milestone_position : (w s : ℕ) → IsRead (next_milestone_position w s)
unfolding next_milestone_position
IsRead-next_milestone_position w s = search (read_rules, IsRead-after_last)

-- The issues after a move.
abbrev pub moved : ℕ → ℕ → ℕ → ℕ → List Issue → List Issue
moved w from target now =
    update (moves w from) (λ i. record i { milestone_id = some target; updated_at = now })

module _ {X : Type 0} (f : Db → X)
    (on_milestones : (db : Db) (ms : List Milestone) → f (record db { milestones = ms }) ≡ f db)
    (on_drawn : (db : Db) (n : ℕ) → f (record db { drawn = n }) ≡ f db)
    (on_move : (db : Db) (w from target : ℕ)
      → f (record db { issues = moved w from target db.now db.issues }) ≡ f db) where
  Frame-insert_milestone : (row : Milestone) → Frame f (insert_milestone row)
  unfolding insert_milestone
  Frame-insert_milestone row = Frame-modify f _ (λ db. on_milestones db _)

  Frame-move_issues : (w from target : ℕ) → Frame f (move_issues w from target)
  unfolding move_issues
  Frame-move_issues w from target = Frame-modify f _ (λ db. on_move db w from target)

  Frame-target_milestone :
      (w n : ℕ) (c : Milestone) (o : Option Milestone) → Frame f (target_milestone w n c o)
  unfolding target_milestone
  Frame-target_milestone w n c (some m) = Frame-pure f m.id
  Frame-target_milestone w n c none =
      Frame-bind f _ _ (Frame-read f _ (IsRead-next_milestone_position w n)) λ p.
        Frame-bind f _ _ (Frame-draw_uuid f on_drawn) λ id.
          Frame-bind f _ _ (Frame-reads f _)
            λ now. Frame-bind f _ _ (Frame-insert_milestone _) λ _. Frame-pure f id

  Frame-carry : (w n : ℕ) (c : Milestone) → Frame f (carry w n c)
  unfolding carry
  Frame-carry w n c = Frame-bind f _ _ (Frame-reads f _) λ found.
      Frame-bind f _ _ (Frame-target_milestone w n c found)
        λ target. Frame-move_issues w c.id target

  Frame-carry_all : (w n : ℕ) (cs : List Milestone) → Frame f (carry_all w n cs)
  unfolding carry_all
  Frame-carry_all w n [] = Frame-pure f tt
  Frame-carry_all w n (c ∷ cs) = Frame-bind f _ _ (Frame-carry w n c) λ _. Frame-carry_all w n cs

  Frame-roll_into : (w s : ℕ) (n : Option ℕ) → Frame f (roll_into w s n)
  unfolding roll_into
  Frame-roll_into w s none = Frame-pure f tt
  Frame-roll_into w s (some n) = Frame-bind f _ _ (Frame-reads f _) λ cs. Frame-carry_all w n cs

  pub Frame-roll : (w s : ℕ) (n : Option ℕ) → Frame f (roll_incomplete_issues_forward w s n)
  unfolding roll_incomplete_issues_forward
  Frame-roll w s (some n) = Frame-roll_into w s (some n)
  Frame-roll w s none = Frame-bind f _ _ (Frame-reads f _) λ n. Frame-roll_into w s n

pub Frame-roll-sprints :
    (w s : ℕ) (n : Option ℕ) → Frame (λ db. db.sprints) (roll_incomplete_issues_forward w s n)
Frame-roll-sprints w s n =
    Frame-roll _ (λ db ms. refl) (λ db n. refl) (λ db w from target. refl) w s n

pub Frame-roll-snapshots :
    (w s : ℕ) (n : Option ℕ) → Frame (λ db. db.snapshots) (roll_incomplete_issues_forward w s n)
Frame-roll-snapshots w s n =
    Frame-roll _ (λ db ms. refl) (λ db n. refl) (λ db w from target. refl) w s n

-- An issue without its milestone and the time of its last change.
abbrev pub unfiled : Issue → Issue
unfiled i = record i { milestone_id = none; updated_at = 0 }

map-unfiled-moved :
    (w from target now : ℕ) (is : List Issue)
    → map unfiled (moved w from target now is) ≡ map unfiled is
map-unfiled-moved w from target now [] = refl
map-unfiled-moved w from target now (i ∷ is) = elim (Bool-cases (moves w from i)) [
  | inl e ↦ rw (e, map-unfiled-moved w from target now is)
  | inr e ↦ rw (e, map-unfiled-moved w from target now is)
]

abbrev pub is_closed : Issue → Bool
is_closed i = not (is_open i.status)

select-closed-moved :
    (w from target now : ℕ) (is : List Issue)
    → select is_closed (moved w from target now is) ≡ select is_closed is
select-closed-moved w from target now [] = refl
select-closed-moved w from target now (i ∷ is) =
    ground (arith, select-closed-moved w from target now is)

pub Frame-roll-unfiled :
    (w s : ℕ) (n : Option ℕ)
    → Frame (λ db. map unfiled db.issues) (roll_incomplete_issues_forward w s n)
Frame-roll-unfiled w s n =
    Frame-roll _ (λ db ms. refl) (λ db n. refl)
      (λ db w from target. map-unfiled-moved w from target db.now db.issues) w s n

pub Frame-roll-closed :
    (w s : ℕ) (n : Option ℕ)
    → Frame (λ db. select is_closed db.issues) (roll_incomplete_issues_forward w s n)
Frame-roll-closed w s n =
    Frame-roll _ (λ db ms. refl) (λ db n. refl)
      (λ db w from target. select-closed-moved w from target db.now db.issues) w s n
