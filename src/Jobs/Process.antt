-- ===== src/Jobs/Process.antt =====
-- `ProcessOnce` of worker.go.
use velvet.Common.{
  ℕ, ◌≡◌, refl, sym, ◌∙◌, true, Option, some, none, select, any, Option-cases, inl, inr,
}
use velvet.Common.In.{In, All-each, In-select, any-In, any-select}
use velvet.Common.Text.{Bytes}
use velvet.Jobs.{
  Job, Queue, ok, err, handler, store, fail_job_failed, is_ready, oldest, claim_job, complete_job,
  fail_job, settled, finish_job, process_once,
}
use velvet.Jobs.Claim.{oldest-none, oldest-in}

finish_did :
    (run_job : Job → Queue → Option Bytes × Queue) (later : ℕ) (job : Job) (e : Option Bytes)
    (q : Queue)
    → (finish_job run_job later job e q).did ≡ true
finish_did run_job later job none q =
    elim (complete_job job q) as (λ r. (settled q r store none).did ≡ true) [
      | ok _ ↦ refl
      | err _ ↦ refl
    ]
finish_did run_job later job (some reason) q =
    elim (fail_job job reason later q)
      as (λ r. (settled q r (fail_job_failed job.id) (some (handler reason))).did ≡ true) [
        | ok _ ↦ refl
        | err _ ↦ refl
      ]

-- `process_once` works on a job exactly if one is alive and due, whatever its handler does.
pub process_once_did :
    (run_job : Job → Queue → Option Bytes × Queue) (now later : ℕ) (q : Queue)
    → (process_once run_job now later q).did ≡ any (is_ready now) q.rows
unfolding process_once claim_job
process_once_did run_job now later q = elim (Option-cases (oldest (select (is_ready now) q.rows))) [
  | inl e ↦
      rw (process_once, claim_job, e) (sym (any-select (is_ready now) q.rows (oldest-none _ e)))
  | inr (row, e) ↦
      let (i, ready) =
        oldest-in (λ r. In r q.rows × (is_ready now r ≡ true)) _ e
          (All-each _ _ (λ x i. In-select (is_ready now) q.rows x i)) in
      rw (process_once, claim_job, e)
        (finish_did run_job later _ _ _ ∙ sym (any-In (is_ready now) q.rows i ready))
]
