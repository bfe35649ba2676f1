-- ===== src/Jobs.antt =====
-- api/internal/store/job.go and `ProcessOnce` of api/internal/worker/worker.go: the queue of background
-- jobs in the table `job`, with the part of session.go that cleans it up. Times are in seconds. A query whose order leaves a choice takes the
-- first of the rows in the order of insertion.
pub mod Claim
pub mod History
pub mod Sound
pub mod Fence
pub mod Dead
pub mod Process
mod Tests
use velvet.Common.{
  ℕ, suc, ◌+◌, ◌^◌, Option, none, some, Bool, true, false, not, ◌&&◌, List, [], ◌∷◌, ◌++◌, ◌==◌,
  ltb, leb, any, select, take, update, if◌then◌else◌,
}
use velvet.Common.Text.{Bytes}

abbrev pub max_job_attempts : ℕ
max_job_attempts = 5

-- A row of the table.
pub record Row : Type 0 where
  pub id : ℕ
  pub kind : Bytes
  pub payload : Bytes
  pub attempts : ℕ
  pub run_after : ℕ
  pub dead : Bool
  pub last_error : Option Bytes

-- A claim that a worker holds.
pub record Job : Type 0 where
  pub id : ℕ
  pub kind : Bytes
  pub payload : Bytes
  pub attempts : ℕ

-- `next_id` is the next value of the sequence behind `id`.
pub record Queue : Type 0 where
  pub rows : List Row
  pub next_id : ℕ

pub data Error : Type 0 where
  not_found stale_job : Error

pub data Result {ℓ} (A : Type ℓ) : Type ℓ where
  ok : A → Result A
  err : Error → Result A

-- INSERT INTO job: `payload` is the encoded payload.
unfoldable pub enqueue_job : Bytes → Bytes → ℕ → Queue → Queue
enqueue_job kind payload now q =
    let row : Row = record {
      id = q.next_id;
      kind = kind;
      payload = payload;
      attempts = 0;
      run_after = now;
      dead = false;
      last_error = none;
    } in
    record { rows = q.rows ++ row ∷ []; next_id = suc q.next_id }

-- NOT dead AND run_after <= now()
abbrev pub is_ready : ℕ → Row → Bool
is_ready now r = not r.dead && leb r.run_after now

-- ORDER BY run_after LIMIT 1
unfoldable pub oldest : List Row → Option Row
oldest [] = none
oldest (r ∷ rs) = elim (oldest rs) [
  | none ↦ some r
  | some s ↦ some (if ltb s.run_after r.run_after then s else r)
]

-- The claim pushes the row five minutes out and starts a new generation.
abbrev pub claimed : ℕ → Row → Row
claimed now r = record r { run_after = now + 300; attempts = suc r.attempts }

abbrev pub has_id : ℕ → Row → Bool
has_id id r = r.id == id

abbrev pub claim_of : Row → Job
claim_of r = record { id = r.id; kind = r.kind; payload = r.payload; attempts = r.attempts }

unfoldable pub claim_job : ℕ → Queue → Result (Job × Queue)
claim_job now q = elim (oldest (select (is_ready now) q.rows)) [
  | none ↦ err not_found
  | some r ↦
      ok (claim_of (claimed now r), record q { rows = update (has_id r.id) (claimed now) q.rows })
]

-- id = $1 AND attempts = $2 AND NOT dead
abbrev pub is_current : Job → Row → Bool
is_current job r = r.id == job.id && (r.attempts == job.attempts && not r.dead)

unfoldable pub complete_job : Job → Queue → Result Queue
complete_job job q =
    if any (is_current job) q.rows
    then ok (record q { rows = select (λ r. not (is_current job r)) q.rows })
    else err stale_job

-- least(power(2, attempts) * interval '1 second', interval '1 hour')
abbrev pub backoff : ℕ → ℕ
backoff attempts = if leb (2 ^ attempts) 3600 then 2 ^ attempts else 3600

abbrev pub failed : ℕ → Bytes → Row → Row
failed now reason r = record r {
  last_error = some reason;
  dead = leb max_job_attempts r.attempts;
  run_after = now + backoff r.attempts;
}

unfoldable pub fail_job : Job → Bytes → ℕ → Queue → Result Queue
fail_job job reason now q =
    if any (is_current job) q.rows
    then ok (record q { rows = update (is_current job) (failed now reason) q.rows })
    else err stale_job

-- dead AND run_after <= now() - interval '30 days'
abbrev pub is_old : ℕ → Row → Bool
is_old now r = r.dead && leb (r.run_after + 2592000) now

-- LIMIT 1000 FOR UPDATE SKIP LOCKED: `locked` are the rows that others hold.
abbrev pub purged : ℕ → (Row → Bool) → List Row → List Row
purged now locked rows = take 1000 (select (λ r. is_old now r && not (locked r)) rows)

-- The jobs that `CleanupExpiredAuthentication` deletes.
unfoldable pub purge_jobs : ℕ → (Row → Bool) → Queue → Queue
purge_jobs now locked q = record q {
  rows = select (λ r. not (any (has_id r.id) (purged now locked q.rows))) q.rows;
}

-- What `ProcessOnce` returns: whether there was a job, and the error, if any. The text of an error
-- that a handler returned is kept.
pub data Failure : Type 0 where
  handler : Bytes → Failure
  -- "fail job %d: %w"
  fail_job_failed : ℕ → Error → Failure
  store : Error → Failure

pub record Outcome : Type 0 where
  pub did : Bool
  pub error : Option Failure
  pub queue : Queue

abbrev pub settled : Queue → Result Queue → (Error → Failure) → Option Failure → Outcome
settled q (ok q') f e = record { did = true; error = e; queue = q' }
settled q (err e') f e = record { did = true; error = some (f e'); queue = q }

-- `run_job` is `runJob`: the error that the handler returned, if any, and the queue after it, with
-- all that others did to the queue in the meantime. `later` is the time when the handler is done.
module _ (run_job : Job → Queue → Option Bytes × Queue) where
  abbrev pub finish_job : ℕ → Job → Option Bytes → Queue → Outcome
  finish_job later job none q = settled q (complete_job job q) store none
  finish_job later job (some reason) q =
      settled q (fail_job job reason later q) (fail_job_failed job.id) (some (handler reason))

  unfoldable pub process_once : ℕ → ℕ → Queue → Outcome
  process_once now later q = elim (claim_job now q) [
    | err not_found ↦ record { did = false; error = none; queue = q }
    | err stale_job ↦ record { did = false; error = some (store stale_job); queue = q }
    | ok (job, q') ↦ let (e, q'') = run_job job q' in finish_job later job e q''
  ]
