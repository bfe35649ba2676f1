-- ===== src/Store/Installation/Held.antt =====
-- A rule on the rows of an installation: their generation, and whether they are deleted.
use velvet.Common.{
  ℕ, ◌≡◌, refl, ◌∙◌, none, some, Bool, true, false, not, ◌&&◌, ◌||◌, arith, List, [], ◌∷◌, ◌++◌,
  ◌==◌, leb, any, find, update, is_some, All, All-append, All-update, Bool-cases, inl, inr,
}
use velvet.Store.Db.{Db, Installation}
use velvet.Store.Tx.{modify}
use velvet.Store.Tx.Histories.{Keeps, Keeps-modify}
use velvet.Store.Installation.{has_id, change}

-- The row has another id, or a generation of `g` or later, and is deleted if `d` says so.
abbrev pub is_held : Bool → ℕ → ℕ → Installation → Bool
is_held d g id i = not (i.id == id) || (leb g i.sync_generation && (not d || is_some i.deleted_at))

pub record IsHeld (d : Bool) (g id : ℕ) (db : Db) : Type 0 where
  pub there : any (has_id id) db.installations ≡ true
  pub rows : All (λ i. is_held d g id i ≡ true) db.installations

any-update :
    (id : ℕ) (p : Installation → Bool) (f : Installation → Installation) (rows : List Installation)
    → ((i : Installation) → (f i).id ≡ i.id)
    → any (has_id id) (update p f rows) ≡ any (has_id id) rows
any-update id p f [] k = refl
any-update id p f (i ∷ rows) k = ground (arith, k i, any-update id p f rows k)

any-append :
    (id : ℕ) (rows : List Installation) (r : Installation)
    → any (has_id id) rows ≡ true
    → any (has_id id) (rows ++ r ∷ []) ≡ true
any-append id [] r h = cc
any-append id (i ∷ rows) r h = elim (Bool-cases (i.id == id)) [
  | inl e ↦ rw e refl
  | inr e ↦ rw e (any-append id rows r (rw e at h))
]

pub any-found :
    (id : ℕ) (v : ℕ) (rows : List Installation)
    → any (has_id id) rows ≡ true
    → find (has_id v) rows ≡ none
    → (v == id) ≡ false
any-found id v [] h e = cc
any-found id v (i ∷ rows) h e = elim (Bool-cases (i.id == v)) [
  | inl y ↦ let wrong : some i ≡ none = rw y at e in cc
  | inr n ↦ elim (Bool-cases (i.id == id)) [
    | inl y ↦ ground arith
    | inr m ↦ any-found id v rows (rw m at h) (rw n at e)
  ]
]

module _ (d : Bool) (g id : ℕ) where
  pub Keeps-change :
      (p : Installation → Bool) (f : Db → Installation → Installation)
      → ((db : Db) (i : Installation) → (f db i).id ≡ i.id)
      → ((db : Db) (i : Installation)
          → p i ≡ true
          → is_held d g id i ≡ true
          → is_held d g id (f db i) ≡ true)
      → Keeps (IsHeld d g id) (change p f)
  unfolding change
  Keeps-change p f same keep = Keeps-modify (IsHeld d g id) _ λ db h. record {
    there = any-update id p (f db) db.installations (same db) ∙ h.there;
    rows = All-update _ p (f db) db.installations (keep db) h.rows;
  }

  pub Keeps-others :
      (m : Db → Db)
      → ((db : Db) → (m db).installations ≡ db.installations)
      → Keeps (IsHeld d g id) (modify m)
  Keeps-others m same =
      Keeps-modify (IsHeld d g id) m
        λ db h. record { there = rw (same db) h.there; rows = rw (same db) h.rows }

  pub IsHeld-append :
      (db db' : Db) (r : Installation)
      → IsHeld d g id db
      → (r.id == id) ≡ false
      → db'.installations ≡ db.installations ++ r ∷ []
      → IsHeld d g id db'
  IsHeld-append db db' r h n e = record {
    there = rw e (any-append id db.installations r h.there);
    rows = rw e (All-append _ db.installations (r ∷ []) h.rows (ground arith, tt));
  }
