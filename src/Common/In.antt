-- ===== src/Common/In.antt =====
-- Membership in a list, and its use with predicates that hold of every element.
use mathlib.Core.Path.{◌≡◌, subst, sym, refl, ap, ◌∙◌}
use mathlib.Core.Option
use mathlib.Core.Option.{none, some}
use mathlib.Core.Logic.{◌⊎◌, inl, inr}
use mathlib.Core.Bool.{Bool, true, false}
use mathlib.Core.List.{List, [], ◌∷◌, ◌++◌}
use native.Mathlib.Omega.{arith}
use velvet.Common.Tests.{if◌then◌else◌, Bool-cases, Option-cases}
use velvet.Common.Lists.{All, All-find, select, update, any, find, find_test}

module _ {A : Type 0} where
  abbrev pub In : A → List A → Type 0
  In x [] = ⊥
  In x (y ∷ ys) = (x ≡ y) ⊎ In x ys

  pub All-at : (P : A → Type 0) (xs : List A) {x : A} → All P xs → In x xs → P x
  All-at P [] h i = absurd i
  All-at P (y ∷ ys) h (inl e) = subst P (sym e) h.0
  All-at P (y ∷ ys) h (inr i) = All-at P ys h.1 i

  pub All-each : (P : A → Type 0) (xs : List A) → ((x : A) → In x xs → P x) → All P xs
  All-each P [] h = tt
  All-each P (y ∷ ys) h = (h y (inl refl), All-each P ys (λ x i. h x (inr i)))

  pub In-select : (t : A → Bool) (xs : List A) (x : A) → In x (select t xs) → In x xs × (t x ≡ true)
  In-select t [] x i = absurd i
  In-select t (y ∷ ys) x i = elim (Bool-cases (t y)) [
    | inl e ↦ elim (rw e at i) as (λ _. In x (y ∷ ys) × (t x ≡ true)) [
      | inl q ↦ (inl q, rw q e)
      | inr j ↦ let (k, h) = In-select t ys x j in (inr k, h)
    ]
    | inr e ↦ let (k, h) = In-select t ys x (rw e at i) in (inr k, h)
  ]

  pub In-append : (xs ys : List A) (x : A) → In x xs → In x (xs ++ ys)
  In-append [] ys x i = absurd i
  In-append (y ∷ xs) ys x (inl e) = inl e
  In-append (y ∷ xs) ys x (inr i) = inr (In-append xs ys x i)

  pub In-after : (xs : List A) (y : A) (ys : List A) → In y (xs ++ y ∷ ys)
  In-after [] y ys = inl refl
  In-after (x ∷ xs) y ys = inr (In-after xs y ys)

  -- A row that an update does not change.
  pub In-update :
      (p : A → Bool) (f : A → A) (xs : List A) {x : A}
      → In x xs
      → p x ≡ false
      → In x (update p f xs)
  In-update p f [] i h = absurd i
  In-update p f (y ∷ ys) (inl e) h =
      let h' : p y ≡ false = subst (λ z. p z ≡ false) e h in rw h' (inl e)
  In-update p f (y ∷ ys) (inr i) h = inr (In-update p f ys i h)

  pub In-kept : (t : A → Bool) (xs : List A) {x : A} → In x xs → t x ≡ true → In x (select t xs)
  In-kept t [] i h = absurd i
  In-kept t (y ∷ ys) (inl e) h = let h' : t y ≡ true = subst (λ z. t z ≡ true) e h in rw h' (inl e)
  In-kept t (y ∷ ys) (inr i) h = elim (Bool-cases (t y)) [
    | inl e ↦ rw e (inr (In-kept t ys i h))
    | inr e ↦ rw e (In-kept t ys i h)
  ]

  pub any-none : (p : A → Bool) (xs : List A) → All (λ x. p x ≡ false) xs → any p xs ≡ false
  any-none p [] h = refl
  any-none p (x ∷ xs) h = ground (arith, h.0, any-none p xs h.1)

  pub any-In : (p : A → Bool) (xs : List A) {x : A} → In x xs → p x ≡ true → any p xs ≡ true
  any-In p [] i h = absurd i
  any-In p (y ∷ ys) (inl e) h = let h' : p y ≡ true = subst (λ z. p z ≡ true) e h in rw h' refl
  any-In p (y ∷ ys) (inr i) h = let rest = any-In p ys i h in ground arith

  -- A row that an update changes.
  pub In-changed :
      (p : A → Bool) (f : A → A) (xs : List A) {x : A}
      → In x xs
      → p x ≡ true
      → In (f x) (update p f xs)
  In-changed p f [] i h = absurd i
  In-changed p f (y ∷ ys) {x} (inl e) h =
      let h' : p y ≡ true = subst (λ z. p z ≡ true) e h in
      let same : f x ≡ f y = ap f e in rw h' (inl same)
  In-changed p f (y ∷ ys) (inr i) h = inr (In-changed p f ys i h)

  pub any-select : (p : A → Bool) (xs : List A) → select p xs ≡ [] → any p xs ≡ false
  any-select p [] h = refl
  any-select p (x ∷ xs) h = elim (Bool-cases (p x)) [
    | inl e ↦ let wrong : (x ∷ select p xs) ≡ [] = rw e at h in cc
    | inr e ↦ rw e (any-select p xs (rw e at h))
  ]

  pub find-In : (t : A → Bool) (xs : List A) {x : A} → find t xs ≡ some x → In x xs
  find-In t xs e = All-find (λ x. In x xs) t xs e (All-each _ xs (λ x i. i))

  -- A query after an update that keeps what the query asks for.
  pub find-update_kept :
      (t p : A → Bool) (f : A → A) (xs : List A)
      → ((x : A) → t (f x) ≡ t x)
      → find t (update p f xs) ≡ Option.map (λ x. if p x then f x else x) (find t xs)
  find-update_kept t p f [] k = refl
  find-update_kept t p f (x ∷ xs) k = elim (Bool-cases (p x)) [
    | inl e ↦ elim (Bool-cases (t x)) [
      | inl y ↦ let y' : t (f x) ≡ true = k x ∙ y in rw (e, y, y', e) refl
      | inr n ↦ let n' : t (f x) ≡ false = k x ∙ n in rw (e, n, n') (find-update_kept t p f xs k)
    ]
    | inr e ↦ elim (Bool-cases (t x)) [
      | inl y ↦ rw (e, y, e) refl
      | inr n ↦ rw (e, n) (find-update_kept t p f xs k)
    ]
  ]

  -- A query by a key after some rows are deleted: it finds the same row, or none.
  pub find-select :
      (t q : A → Bool) (xs : List A)
      → ((x y : A) → In x xs → In y xs → t x ≡ true → t y ≡ true → x ≡ y)
      → (find t (select q xs) ≡ none) ⊎ (find t (select q xs) ≡ find t xs)
  find-select t q [] k = inl refl
  find-select t q (x ∷ xs) k =
      let rest = find-select t q xs (λ a b i j. k a b (inr i) (inr j)) in
      elim (Bool-cases (q x)) [
        | inl e ↦ elim (Bool-cases (t x)) [ inl y ↦ rw (e, y) (inr refl) | inr n ↦ rw (e, n) rest ]
        | inr e ↦ elim (Bool-cases (t x)) [
          | inl y ↦ elim (Option-cases (find t (select q xs))) [
            | inl gone ↦ rw e (inl gone)
            | inr (r, found) ↦
                let i = (In-select q xs r (find-In t (select q xs) found)).0 in
                let same : r ≡ x = k r x (inr i) (inl refl) (find_test t (select q xs) found) y in
                rw (e, y) (inr (found ∙ ap some same))
          ]
          | inr n ↦ rw (e, n) rest
        ]
      ]

  pub find-append :
      (t : A → Bool) (xs : List A) (y : A)
      → find t (xs ++ y ∷ [])
        ≡ elim (find t xs) [ some x ↦ some x | none ↦ (if t y then some y else none) ]
  find-append t [] y = refl
  find-append t (x ∷ xs) y = elim (Bool-cases (t x)) [
    | inl e ↦ rw e refl
    | inr e ↦ rw e (find-append t xs y)
  ]
