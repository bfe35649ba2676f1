-- ===== src/Jobs/Fence.antt =====
-- Claims of a job that a later claim overtook.
use velvet.Common.{ℕ, ◌≡◌, refl, subst, ◌<◌, false, List, [], ◌∷◌, ◌++◌, arith, any, All-map}
use velvet.Common.In.{In, All-at, In-after, any-none}
use velvet.Common.Text.{Bytes}
use velvet.Jobs.{Job, err, stale_job, complete_job, fail_job, is_current}
use velvet.Jobs.History.{State, Steps, start, NotAhead, Behind, Latest, IsSound}
use velvet.Jobs.Sound.{IsSound-Steps, IsSound-start}

Latest-older :
    (newer older : List Job) (c d : Job)
    → Latest (newer ++ d ∷ older)
    → In c older
    → c.id ≡ d.id
    → c.attempts < d.attempts
Latest-older [] older c d l i e = All-at (Behind d) older l.0 i e
Latest-older (j ∷ newer) older c d l i e = Latest-older newer older c d l.1 i e

-- No row is current for a claim that a later claim of the same job overtook.
overtaken :
    (s : State) (newer older : List Job) (c d : Job)
    → IsSound s
    → s.claims ≡ newer ++ d ∷ older
    → In c older
    → c.id ≡ d.id
    → any (is_current c) s.queue.rows ≡ false
overtaken s newer older c d h e i same =
    let lt : c.attempts < d.attempts =
      Latest-older newer older c d (subst Latest e h.latest) i same in
    let there : In d s.claims = rw e (In-after newer d older) in
    any-none (is_current c) s.queue.rows (
      All-map _ _ s.queue.rows
        (λ r k. let ahead = All-at (NotAhead r) s.claims k there in ground (arith, ahead)) h.fenced)

-- In every history: once a later claim of the same job was handed out, completing or failing the job
-- with the earlier claim is refused as stale.
pub overtaken_stale :
    (s : State) (newer older : List Job) (c d : Job)
    → Steps start s
    → s.claims ≡ newer ++ d ∷ older
    → In c older
    → c.id ≡ d.id
    → (complete_job c s.queue ≡ err stale_job)
      × ((reason : Bytes) (now : ℕ) → fail_job c reason now s.queue ≡ err stale_job)
unfolding complete_job fail_job
overtaken_stale s newer older c d steps e i same =
    let no = overtaken s newer older c d (IsSound-Steps steps IsSound-start) e i same in
    (rw no refl, λ reason now. rw no refl)
