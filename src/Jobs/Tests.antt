-- ===== src/Jobs/Tests.antt =====
-- A queue with two jobs and two workers, runs on it, and the theorems about it at these runs.
use velvet.Common.{ℕ, ◌≡◌, refl, true, false, none, some, Option, List, [], ◌∷◌, inl, any, Bool}
use velvet.Common.Text.{Bytes, codes}
use velvet.Common.In.{In}
use velvet.Jobs.{
  Row, Job, Queue, ok, err, stale_job, enqueue_job, oldest, claim_job, complete_job, fail_job,
  process_once, purge_jobs, has_id,
}
use velvet.Jobs.Claim.{Claimed, claim_job-Claimed}
use velvet.Jobs.History.{State, enqueue, claim, Steps, done, more, start}
use velvet.Jobs.Fence.{overtaken_stale}
use velvet.Jobs.Process.{process_once_did}

abbrev row : ℕ → ℕ → ℕ → Row
row id attempts run_after = record {
  id = id;
  kind = codes "process_delivery";
  payload = codes "{}";
  attempts = attempts;
  run_after = run_after;
  dead = false;
  last_error = none;
}

abbrev job : ℕ → ℕ → Job
job id attempts = record {
  id = id;
  kind = codes "process_delivery";
  payload = codes "{}";
  attempts = attempts;
}

abbrev two_jobs : Queue
two_jobs = record { rows = row 1 0 9 ∷ row 2 4 5 ∷ []; next_id = 3 }

-- The older of two jobs that are due goes first, in its fifth attempt.
abbrev after_claim : Queue
after_claim = record { rows = row 1 0 9 ∷ row 2 5 310 ∷ []; next_id = 3 }

claim_example : claim_job 10 two_jobs ≡ ok (job 2 5, after_claim)
unfolding claim_job oldest
claim_example = refl

claim_job-Claimed_example : Claimed 10 two_jobs (job 2 5) after_claim
claim_job-Claimed_example = claim_job-Claimed 10 two_jobs claim_example

-- A handler that always fails.
abbrev refuses : Job → Queue → Option Bytes × Queue
refuses j q = (some (codes "no"), q)

process_once_did_example : (process_once refuses 10 20 two_jobs).did ≡ true
process_once_did_example = process_once_did refuses 10 20 two_jobs

-- One job whose first worker is too slow: a second one claims it at 400, and fails it, five times
-- in all.
abbrev kind : Bytes
kind = codes "process_delivery"

abbrev queued : State
queued = record start { queue = enqueue_job kind (codes "{}") 0 start.queue }

abbrev held : ℕ → ℕ → List Job → State
held attempts run_after claims = record {
  queue = record { rows = row 1 attempts run_after ∷ []; next_id = 2 };
  claims = claims;
}

reclaimed : Steps start (held 2 700 (job 1 2 ∷ job 1 1 ∷ []))
unfolding enqueue_job claim_job oldest
reclaimed = more (more (more done (enqueue kind (codes "{}") 0)) (claim 0 refl)) (claim 400 refl)

overtaken_stale_example :
    (complete_job (job 1 1) (held 2 700 (job 1 2 ∷ job 1 1 ∷ [])).queue ≡ err stale_job)
    × ((reason : Bytes) (now : ℕ)
        → fail_job (job 1 1) reason now (held 2 700 (job 1 2 ∷ job 1 1 ∷ [])).queue ≡ err stale_job)
overtaken_stale_example =
    overtaken_stale (held 2 700 (job 1 2 ∷ job 1 1 ∷ [])) [] (job 1 1 ∷ []) (job 1 1) (job 1 2)
      reclaimed refl (inl refl) refl

abbrev five : List Job
five = job 1 5 ∷ job 1 4 ∷ job 1 3 ∷ job 1 2 ∷ job 1 1 ∷ []

abbrev dead_row : Row
dead_row = record (row 1 5 1632) { dead = true; last_error = some (codes "no") }

abbrev buried : State
buried = record { queue = record { rows = dead_row ∷ []; next_id = 2 }; claims = five }

abbrev free : Row → Bool
free r = false

-- Another job is queued, and the cleanup runs when thirty days have passed.
abbrev later : State
later = record {
  queue = purge_jobs 3000000 free (enqueue_job kind (codes "{}") 2000 buried.queue);
  claims = five;
}

cleaned : any (has_id 1) later.queue.rows ≡ false
unfolding purge_jobs enqueue_job
cleaned = refl
