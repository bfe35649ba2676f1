-- ===== src/Jobs/Claim.antt =====
-- Which row a claim takes.
use velvet.Common.{
  ℕ, ◌≡◌, refl, ◌≤◌, subst, some_injective, if◌then◌else◌, none, some, true, List, [], ◌∷◌, arith,
  ltb, select, update, All, All-map, Option-cases, Bool-cases, inl, inr,
}
use velvet.Common.In.{In, All-each, In-select}
use velvet.Jobs.{
  Row, Job, Queue, ok, err, not_found, is_ready, oldest, claimed, has_id, claim_of, claim_job,
}

-- Nothing is ready before the row.
abbrev pub NotAfter : Row → Row → Type 0
NotAfter r x = r.run_after ≤ x.run_after

pub oldest-none : (rs : List Row) → oldest rs ≡ none → rs ≡ []
unfolding oldest
oldest-none [] h = refl
oldest-none (x ∷ rs) h = elim (Option-cases (oldest rs)) [
  | inl e ↦ let wrong : some x ≡ none = rw e at h in cc
  | inr (s, e) ↦
      let wrong : some (if ltb s.run_after x.run_after then s else x) ≡ none = rw e at h in cc
]

-- The choice between a row and the oldest of the others.
choose_least :
    (x s : Row) (rs : List Row) {r : Row}
    → (if ltb s.run_after x.run_after then s else x) ≡ r
    → All (NotAfter s) rs
    → All (NotAfter r) (x ∷ rs)
choose_least x s rs {r} h least = elim (Bool-cases (ltb s.run_after x.run_after)) [
  | inl e ↦
      let q : s ≡ r = rw e at h in subst (λ z. All (NotAfter z) (x ∷ rs)) q (ground arith, least)
  | inr e ↦
      let q : x ≡ r = rw e at h in
      subst (λ z. All (NotAfter z) (x ∷ rs)) q
        (omega arith, All-map (NotAfter s) (NotAfter x) rs (λ y k. ground arith) least)
]

oldest-least : (rs : List Row) {r : Row} → oldest rs ≡ some r → All (NotAfter r) rs
unfolding oldest
oldest-least [] h = tt
oldest-least (x ∷ rs) {r} h = elim (Option-cases (oldest rs)) [
  | inl e ↦
      let q : x ≡ r = some_injective (rw e at h) in
      rw (oldest-none rs e) (subst (λ z. NotAfter z x) q (omega arith), tt)
  | inr (s, e) ↦ choose_least x s rs (some_injective (rw e at h)) (oldest-least rs e)
]

pub oldest-in : (P : Row → Type 0) (rs : List Row) {r : Row} → oldest rs ≡ some r → All P rs → P r
unfolding oldest
oldest-in P [] h all = cc
oldest-in P (x ∷ rs) {r} h all = elim (Option-cases (oldest rs)) [
  | inl e ↦ subst P (some_injective (rw e at h)) all.0
  | inr (s, e) ↦
      let q : (if ltb s.run_after x.run_after then s else x) ≡ r = some_injective (rw e at h) in
      subst P q (elim (Bool-cases (ltb s.run_after x.run_after)) [
        | inl l ↦ rw l (oldest-in P rs e all.1)
        | inr l ↦ rw l all.0
      ])
]

-- What a successful claim did.
pub record Claimed (now : ℕ) (q : Queue) (job : Job) (q' : Queue) : Type 0 where
  pub row : Row
  pub stored : In row q.rows
  pub ready : is_ready now row ≡ true
  pub first : All (NotAfter row) (select (is_ready now) q.rows)
  pub handed : job ≡ claim_of (claimed now row)
  pub rows : q'.rows ≡ update (has_id row.id) (claimed now) q.rows
  pub next_id : q'.next_id ≡ q.next_id

taken :
    (now : ℕ) (q : Queue) (row : Row) {job : Job} {q' : Queue}
    → oldest (select (is_ready now) q.rows) ≡ some row
    → claim_job now q ≡ ok (job, q')
    → Claimed now q job q'
unfolding claim_job
taken now q row {job} {q'} e h =
    let run : ok (
      claim_of (claimed now row),
      record q { rows = update (has_id row.id) (claimed now) q.rows },
    )
        ≡ ok (job, q') =
      rw (claim_job, e) at h in
    let (stored, ready) =
      oldest-in (λ r. In r q.rows × (is_ready now r ≡ true)) _ e
        (All-each _ _ (λ x i. In-select (is_ready now) q.rows x i)) in
    record {
      row = row;
      stored = stored;
      ready = ready;
      first = oldest-least _ e;
      handed = ground arith;
      rows = ground arith;
      next_id = ground arith;
    }

-- A claim that succeeds hands out a row that is alive and due, and no such row is due earlier; the
-- row is pushed five minutes out with one attempt more, and no row of another id changes.
pub claim_job-Claimed :
    (now : ℕ) (q : Queue) {job : Job} {q' : Queue}
    → claim_job now q ≡ ok (job, q')
    → Claimed now q job q'
unfolding claim_job
claim_job-Claimed now q {job} {q'} h = elim (Option-cases (oldest (select (is_ready now) q.rows))) [
  | inl e ↦ let wrong : err not_found ≡ ok (job, q') = rw (claim_job, e) at h in cc
  | inr (row, e) ↦ taken now q row e h
]
