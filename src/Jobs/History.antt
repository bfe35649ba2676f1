-- ===== src/Jobs/History.antt =====
-- Histories of the queue: workers claim, complete and fail jobs in any order, and hold their claims
-- for as long as they like, and the cleanup removes dead jobs.
use velvet.Common.{ℕ, Bool, ◌≡◌, ◌<◌, ◌≤◌, List, [], ◌∷◌, All}
use velvet.Common.Pairs.{Pairs}
use velvet.Common.In.{In}
use velvet.Common.Text.{Bytes}
use velvet.Jobs.{Row, Job, Queue, ok, enqueue_job, claim_job, complete_job, fail_job, purge_jobs}

-- The queue and the claims that were ever handed out, the latest first.
pub record State : Type 0 where
  pub queue : Queue
  pub claims : List Job

-- Nothing is known of the clocks of the workers: each step has its own time.
pub data Step : State → State → Type 0 where
  enqueue :
      {s : State} (kind payload : Bytes) (now : ℕ)
      → Step s (record s { queue = enqueue_job kind payload now s.queue })
  claim :
      {s : State} {job : Job} {q : Queue} (now : ℕ)
      → claim_job now s.queue ≡ ok (job, q)
      → Step s (record { queue = q; claims = job ∷ s.claims })
  complete :
      {s : State} {q : Queue} (job : Job)
      → In job s.claims
      → complete_job job s.queue ≡ ok q
      → Step s (record s { queue = q })
  fail :
      {s : State} {q : Queue} (job : Job) (reason : Bytes) (now : ℕ)
      → In job s.claims
      → fail_job job reason now s.queue ≡ ok q
      → Step s (record s { queue = q })
  purge :
      {s : State} (now : ℕ) (locked : Row → Bool)
      → Step s (record s { queue = purge_jobs now locked s.queue })

pub data Steps : State → State → Type 0 where
  done : {s : State} → Steps s s
  more : {s t u : State} → Steps s t → Step t u → Steps s u

abbrev pub start : State
start = record { queue = record { rows = []; next_id = 1 }; claims = [] }

-- `id` is a key.
abbrev pub SameId : Row → Row → Type 0
SameId r s = r.id ≡ s.id → r ≡ s

abbrev pub NotAhead : Row → Job → Type 0
NotAhead r job = job.id ≡ r.id → job.attempts ≤ r.attempts

abbrev pub Behind : Job → Job → Type 0
Behind new old = old.id ≡ new.id → old.attempts < new.attempts

abbrev pub Latest : List Job → Type 0
Latest [] = Unit
Latest (job ∷ jobs) = All (Behind job) jobs × Latest jobs

pub record IsSound (s : State) : Type 0 where
  pub unique : Pairs SameId s.queue.rows
  pub numbered : All (λ r. r.id < s.queue.next_id) s.queue.rows
  pub issued : All (λ j. j.id < s.queue.next_id) s.claims
  pub fenced : All (λ r. All (NotAhead r) s.claims) s.queue.rows
  pub latest : Latest s.claims
