-- ===== src/Jobs/Sound.antt =====
-- Every operation of the queue keeps its state sound.
use velvet.Common.{
  ℕ, ◌≡◌, refl, sym, ap, ◌∙◌, ◌<◌, Bool, true, false, List, [], ◌∷◌, arith, ==_iff, update, select,
  any, All, All-map, All-append, All-update, All-select, if◌then◌else◌, Bool-cases, inl, inr, not,
}
use velvet.Common.Pairs.{Pairs, Pairs-change, Pairs-append, Pairs-select, All-both, All-change}
use velvet.Common.In.{All-at, All-each}
use velvet.Common.Text.{Bytes}
use velvet.Jobs.{
  Row, Job, Queue, ok, enqueue_job, claim_job, complete_job, fail_job, claimed, has_id, is_current,
  failed, claim_of, purge_jobs,
}
use velvet.Jobs.Claim.{claim_job-Claimed}
use velvet.Jobs.History.{
  State, Step, enqueue, claim, complete, fail, purge, Steps, done, more, start, SameId, NotAhead,
  IsSound,
}

pub complete_job_ok :
    (job : Job) (q : Queue) {q' : Queue}
    → complete_job job q ≡ ok q'
    → (q'.rows ≡ select (λ r. not (is_current job r)) q.rows) × (q'.next_id ≡ q.next_id)
unfolding complete_job
complete_job_ok job q {q'} h = elim (Bool-cases (any (is_current job) q.rows)) [
  | inl e ↦ ground arith
  | inr e ↦ ground arith
]

pub fail_job_ok :
    (job : Job) (reason : Bytes) (now : ℕ) (q : Queue) {q' : Queue}
    → fail_job job reason now q ≡ ok q'
    → (q'.rows ≡ update (is_current job) (failed now reason) q.rows) × (q'.next_id ≡ q.next_id)
unfolding fail_job
fail_job_ok job reason now q {q'} h = elim (Bool-cases (any (is_current job) q.rows)) [
  | inl e ↦ ground arith
  | inr e ↦ ground arith
]

-- An update that keeps ids keeps them unique.
SameId-update :
    (p : Row → Bool) (f : Row → Row) (rows : List Row)
    → ((r : Row) → (f r).id ≡ r.id)
    → Pairs SameId rows
    → Pairs SameId (update p f rows)
SameId-update p f rows k h =
    Pairs-change SameId (λ _. Unit) p f rows
      (λ x y _ _ same e. ap (λ z. if p z then f z else z) (same (sym (kept x) ∙ e ∙ kept y)))
      (All-each (λ _. Unit) rows (λ _ _. tt)) h
  where
    kept : (r : Row) → (if p r then f r else r).id ≡ r.id
    kept r = elim (Bool-cases (p r)) [ inl e ↦ rw e (k r) | inr e ↦ rw e refl ]

IsSound-enqueue :
    (s : State) (kind payload : Bytes) (now : ℕ)
    → IsSound s
    → IsSound (record s { queue = enqueue_job kind payload now s.queue })
unfolding enqueue_job
IsSound-enqueue s kind payload now h = record {
  unique =
      Pairs-append SameId s.queue.rows _ h.unique
        (All-map _ _ _ (λ r lt e. absurd (omega arith)) h.numbered)
        (All-map _ _ _ (λ r lt e. absurd (omega arith)) h.numbered) (λ e. refl);
  numbered =
      All-append _ s.queue.rows (_ ∷ []) (All-map _ _ _ (λ r lt. omega arith) h.numbered)
        (omega arith, tt);
  issued = All-map _ _ s.claims (λ j lt. omega arith) h.issued;
  fenced =
      All-append _ s.queue.rows (_ ∷ []) h.fenced
        (All-map _ _ s.claims (λ j lt e. absurd (omega arith)) h.issued, tt);
  latest = h.latest;
}

-- The rows after a claim of `r` are not behind the claims.
claimed-NotAhead :
    (now : ℕ) (r x : Row) (jobs : List Job)
    → SameId r x
    → All (NotAhead x) jobs
    → All (NotAhead (if has_id r.id x then claimed now x else x)) (claim_of (claimed now r) ∷ jobs)
claimed-NotAhead now r x jobs same h = go (has_id r.id x) refl
  where
    go :
        (b : Bool)
        → has_id r.id x ≡ b
        → All (NotAhead (if b then claimed now x else x)) (claim_of (claimed now r) ∷ jobs)
    go true e =
        let q : r.attempts ≡ x.attempts =
          ap (λ z. z.attempts) (same (sym ((==_iff x.id r.id).0 e))) in
        (λ _. omega arith, All-map (NotAhead x) _ jobs (λ j k i. omega (arith, k i)) h)
    go false e = (λ q. absurd (ground arith), h)

-- A claim of a sound state is ahead of those before it, and no row is behind it.
IsSound-claim :
    (s : State) (now : ℕ) {job : Job} {q : Queue}
    → claim_job now s.queue ≡ ok (job, q)
    → IsSound s
    → IsSound (record { queue = q; claims = job ∷ s.claims })
IsSound-claim s now {job} {q} run h =
    let c = claim_job-Claimed now s.queue run in
    let others : All (SameId c.row) s.queue.rows =
      All-at (λ r. All (SameId r) s.queue.rows) s.queue.rows h.unique c.stored in
    let held : All (NotAhead c.row) s.claims =
      All-at (λ r. All (NotAhead r) s.claims) s.queue.rows h.fenced c.stored in
    let numbered : c.row.id < s.queue.next_id =
      All-at (λ r. r.id < s.queue.next_id) s.queue.rows h.numbered c.stored in
    record {
      unique =
          simp c.rows
            (SameId-update (has_id c.row.id) (claimed now) s.queue.rows (λ r. refl) h.unique);
      numbered =
          simp (c.rows, c.next_id)
            (All-update _ (has_id c.row.id) (claimed now) s.queue.rows (λ r _ k. k) h.numbered);
      issued =
          let same : job.id ≡ c.row.id = ap (λ z. z.id) c.handed in
          (
            omega (arith, c.next_id, same, numbered),
            All-map _ _ s.claims (λ j k. omega (arith, c.next_id)) h.issued,
          );
      fenced =
          simp (c.rows, c.handed)
            (All-change (λ x. SameId c.row x × All (NotAhead x) s.claims) _ (has_id c.row.id)
              (claimed now) s.queue.rows (λ x k. claimed-NotAhead now c.row x s.claims k.0 k.1)
              (All-both _ _ s.queue.rows others h.fenced));
      latest =
          simp c.handed
            (All-map (NotAhead c.row) _ s.claims (λ j k e. omega (arith, k e)) held, h.latest);
    }

IsSound-complete :
    (s : State) (job : Job) {q : Queue}
    → complete_job job s.queue ≡ ok q
    → IsSound s
    → IsSound (record s { queue = q })
IsSound-complete s job {q} run h =
    let (rows, next_id) = complete_job_ok job s.queue run in
    record {
      unique = simp rows (Pairs-select SameId _ s.queue.rows h.unique);
      numbered = simp (rows, next_id) (All-select _ _ s.queue.rows h.numbered);
      issued = simp next_id h.issued;
      fenced = simp rows (All-select _ _ s.queue.rows h.fenced);
      latest = h.latest;
    }

IsSound-fail :
    (s : State) (job : Job) (reason : Bytes) (now : ℕ) {q : Queue}
    → fail_job job reason now s.queue ≡ ok q
    → IsSound s
    → IsSound (record s { queue = q })
IsSound-fail s job reason now {q} run h =
    let (rows, next_id) = fail_job_ok job reason now s.queue run in
    record {
      unique =
          simp rows
            (SameId-update (is_current job) (failed now reason) s.queue.rows (λ r. refl) h.unique);
      numbered = simp (rows, next_id) (All-update _ _ _ s.queue.rows (λ r _ k. k) h.numbered);
      issued = simp next_id h.issued;
      fenced = simp rows (All-update _ _ _ s.queue.rows (λ r _ k. k) h.fenced);
      latest = h.latest;
    }

IsSound-purge :
    (s : State) (now : ℕ) (locked : Row → Bool)
    → IsSound s
    → IsSound (record s { queue = purge_jobs now locked s.queue })
unfolding purge_jobs
IsSound-purge s now locked h = record {
  unique = Pairs-select SameId _ s.queue.rows h.unique;
  numbered = All-select _ _ s.queue.rows h.numbered;
  issued = h.issued;
  fenced = All-select _ _ s.queue.rows h.fenced;
  latest = h.latest;
}

pub IsSound-Step : {s t : State} → Step s t → IsSound s → IsSound t
IsSound-Step (enqueue {s} kind payload now) h = IsSound-enqueue s kind payload now h
IsSound-Step (claim {s} now run) h = IsSound-claim s now run h
IsSound-Step (complete {s} job i run) h = IsSound-complete s job run h
IsSound-Step (fail {s} job reason now i run) h = IsSound-fail s job reason now run h
IsSound-Step (purge {s} now locked) h = IsSound-purge s now locked h

pub IsSound-Steps : {s t : State} → Steps s t → IsSound s → IsSound t
IsSound-Steps done h = h
IsSound-Steps (more before step) h = IsSound-Step step (IsSound-Steps before h)

pub IsSound-start : IsSound start
IsSound-start = record { unique = tt; numbered = tt; issued = tt; fenced = tt; latest = tt }
