-- ===== src/Store/Comment/Complete.antt =====
-- The thread of a target shows every comment once.
use velvet.Common.{
  ℕ, ◌+◌, ◌≡◌, refl, ap, ◌∙◌, Option, none, some, Bool, true, ◌&&◌, List, [], ◌∷◌, ◌++◌, arith, any,
  select, length, length-select-append, is_some, if◌then◌else◌, Bool-cases, inl, inr,
}
use velvet.Store.Db.{Db, Comment, CommentTarget}
use velvet.Store.Tx.{ok, ◌>>=◌}
use velvet.Store.Comment.Threads
use velvet.Store.Comment.Threads.{Thread, is_thread, is_listed}

module _ (p : Comment → Bool) where
  abbrev pub count : List Comment → ℕ
  count cs = length (select p cs)

  abbrev one : Comment → ℕ
  one c = if p c then 1 else 0

  -- How often comments with the property are shown.
  abbrev pub shown : List Thread → ℕ
  shown [] = 0
  shown (t ∷ ts) = count (t.comment ∷ t.replies) + shown ts

  shown-append : (ts us : List Thread) → shown (ts ++ us) ≡ shown ts + shown us
  shown-append [] us = omega arith
  shown-append (t ∷ ts) us = omega (arith, shown-append ts us)

  count-cons : (c : Comment) (cs : List Comment) → count (c ∷ cs) ≡ one c + count cs
  count-cons c cs = ground arith

  shown-add_reply :
      (parent : ℕ) (c : Comment) (ts : List Thread)
      → any (is_thread parent) ts ≡ true
      → shown (Threads.add_reply parent c ts) ≡ shown ts + one c
  unfolding Threads.add_reply
  shown-add_reply parent c [] h = cc
  shown-add_reply parent c (t ∷ ts) h = elim (Bool-cases (any (is_thread parent) ts)) [
    | inl later ↦
        let rest = shown-add_reply parent c ts later in
        let shape : Threads.add_reply parent c (t ∷ ts) ≡ t ∷ Threads.add_reply parent c ts =
          ground arith in
        ap shown shape ∙ omega (arith, rest)
    | inr last ↦
        let more = length-select-append p t.replies c in
        let this : is_thread parent t ≡ true = ground arith in
        let shape : Threads.add_reply parent c (t ∷ ts)
            ≡ (record t { replies = t.replies ++ c ∷ [] }) ∷ ts =
          rw (Threads.add_reply, this, last) refl in
        ap shown shape ∙ ground (arith, more)
  ]

  abbrev replies_of : List Comment → ℕ
  replies_of cs = length (select (λ c. p c && is_some c.parent_id) cs)

  replies_of-cons :
      (c : Comment) (cs : List Comment)
      → replies_of (c ∷ cs) ≡ (if is_some c.parent_id then one c else 0) + replies_of cs
  replies_of-cons c cs = ground arith

  shown-placed :
      (parent : Option ℕ) (c : Comment) (ts os : List Thread)
      → shown (Threads.nested parent c ts) + shown (Threads.promoted parent c ts os)
        ≡ shown ts + shown os + (if is_some parent then one c else 0)
  shown-placed none c ts os = omega arith
  shown-placed (some parent) c ts os = elim (Bool-cases (any (is_thread parent) ts)) [
    | inl y ↦ rw y (omega (arith, shown-add_reply parent c ts y))
    | inr n ↦ rw n (let a = shown-append os (Threads.alone c ∷ []) in ground (arith, a))
  ]

  shown-nest :
      (cs : List Comment) (ts os : List Thread)
      → shown (Threads.nest cs ts os) ≡ shown ts + shown os + replies_of cs
  unfolding Threads.nest
  shown-nest [] ts os = omega (arith, shown-append ts os)
  shown-nest (c ∷ cs) ts os =
      let rest =
        shown-nest cs (Threads.nested c.parent_id c ts) (Threads.promoted c.parent_id c ts os) in
      let here = shown-placed c.parent_id c ts os in omega (arith, rest, here, replies_of-cons c cs)

  shown-roots : (cs : List Comment) → shown (Threads.roots cs) + replies_of cs ≡ count cs
  unfolding Threads.roots
  shown-roots [] = refl
  shown-roots (c ∷ cs) = let rest = shown-roots cs in ground arith

  count-insert_by_time :
      (c : Comment) (cs : List Comment) → count (Threads.insert_by_time c cs) ≡ count (c ∷ cs)
  unfolding Threads.insert_by_time
  count-insert_by_time c [] = refl
  count-insert_by_time c (d ∷ ds) = let rest = count-insert_by_time c ds in ground arith

  count-sort_by_time : (cs : List Comment) → count (Threads.sort_by_time cs) ≡ count cs
  unfolding Threads.sort_by_time
  count-sort_by_time [] = refl
  count-sort_by_time (c ∷ cs) =
      let rest = count-sort_by_time cs in
      let a = count-insert_by_time c (Threads.sort_by_time cs) in ground arith

  -- `ListComments` shows every comment of the target that is not deleted, and nothing else, once: as a
  -- comment of its own or as a reply.
  pub shown-list_comments :
      (workspace_id : ℕ) (t : CommentTarget) (target_id : ℕ) (db : Db) {out : List Thread}
      {db' : Db}
      → Threads.list_comments workspace_id t target_id db ≡ ok (out, db')
      → shown out ≡ count (select (is_listed workspace_id t target_id) db.comments)
  unfolding Threads.list_comments ◌>>=◌
  shown-list_comments workspace_id t target_id db {out} {db'} h =
      let flat = Threads.sort_by_time (select (is_listed workspace_id t target_id) db.comments) in
      let same : out ≡ Threads.nest flat (Threads.roots flat) [] = ground arith in
      ap shown same
      ∙ omega (
        arith,
        shown-nest flat (Threads.roots flat) [],
        shown-roots flat,
        count-sort_by_time (select (is_listed workspace_id t target_id) db.comments),
      )
