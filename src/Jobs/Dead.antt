-- ===== src/Jobs/Dead.antt =====
-- Jobs that are dead.
use velvet.Common.{ℕ, ◌≡◌, ◌<◌, false, any, ◌⊎◌}
use velvet.Common.In.{In}
use velvet.Jobs.{Row, Job, has_id}
use velvet.Jobs.History.{State}

-- The row is as it was, or the cleanup has removed it, and its identifier is not given again.
abbrev pub Rests : Row → State → Type 0
Rests r s =
    In r s.queue.rows ⊎ ((any (has_id r.id) s.queue.rows ≡ false) × (r.id < s.queue.next_id))

-- Which claims of the identifier there are.
abbrev pub SameClaims : ℕ → State → State → Type 0
SameClaims id s t = (job : Job) → In job t.claims → job.id ≡ id → In job s.claims
