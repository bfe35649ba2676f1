-- ===== src/Common/Lists.antt =====
-- Lists measured and indexed by native numbers, predicates on lists, and filters by a Boolean test.
use Prim.Native.Nat.{ℕ, zero, suc, ◌+◌}
use mathlib.Core.Path.{◌≡◌, subst, refl}
use mathlib.Core.Logic.{inl, inr}
use mathlib.Core.Bool.{Bool, true, false, ◌||◌, ◌&&◌}
use mathlib.Core.List.{List, [], ◌∷◌, ◌++◌}
use mathlib.Core.Option.{Option, none, some}
use native.Mathlib.Omega.{arith}
use velvet.Common.Tests.{if◌then◌else◌, Bool-cases}

module _ {ℓ} {A : Type ℓ} where
  abbrev pub length : List A → ℕ
  length [] = 0
  length (x ∷ xs) = suc (length xs)

  abbrev pub get_elem? : List A → ℕ → Option A
  get_elem? [] i = none
  get_elem? (x ∷ xs) zero = some x
  get_elem? (x ∷ xs) (suc i) = get_elem? xs i

  abbrev pub take : ℕ → List A → List A
  take zero xs = []
  take (suc n) [] = []
  take (suc n) (x ∷ xs) = x ∷ take n xs

  abbrev pub replicate : ℕ → A → List A
  replicate zero x = []
  replicate (suc n) x = x ∷ replicate n x

  abbrev pub drop : ℕ → List A → List A
  drop zero xs = xs
  drop (suc n) [] = []
  drop (suc n) (x ∷ xs) = drop n xs

  pub length-append : (xs ys : List A) → length (xs ++ ys) ≡ length xs + length ys
  length-append [] ys = omega arith
  length-append (x ∷ xs) ys = omega (arith, length-append xs ys)

  abbrev pub any : (A → Bool) → List A → Bool
  any p [] = false
  any p (x ∷ xs) = p x || any p xs

  abbrev pub all : (A → Bool) → List A → Bool
  all p [] = true
  all p (x ∷ xs) = p x && all p xs

  -- The first row that meets a condition, as a query for one row returns it.
  abbrev pub find : (A → Bool) → List A → Option A
  find p [] = none
  find p (x ∷ xs) = if p x then some x else find p xs

  -- `WHERE`: the rows that meet a condition.
  abbrev pub select : (A → Bool) → List A → List A
  select p [] = []
  select p (x ∷ xs) = if p x then x ∷ select p xs else select p xs

  -- `UPDATE ... WHERE`: the rows that meet a condition are changed.
  abbrev pub update : (A → Bool) → (A → A) → List A → List A
  update p f [] = []
  update p f (x ∷ xs) = (if p x then f x else x) ∷ update p f xs

  abbrev pub All {κ} : (A → Type κ) → List A → Type κ
  All P [] = Unit
  All P (x ∷ xs) = P x × All P xs

module _ {ℓ κ} {A : Type ℓ} where
  pub All-append :
      (P : A → Type κ) (front rest : List A) → All P front → All P rest → All P (front ++ rest)
  All-append P [] rest none_here those = those
  All-append P (a ∷ front) rest (this, these) those = (this, All-append P front rest these those)

  pub All-map : (P Q : A → Type κ) (xs : List A) → ((x : A) → P x → Q x) → All P xs → All Q xs
  All-map P Q [] f h = tt
  All-map P Q (x ∷ xs) f h = (f x h.0, All-map P Q xs f h.1)

  pub All-update :
      (P : A → Type κ) (t : A → Bool) (f : A → A) (xs : List A)
      → ((x : A) → t x ≡ true → P x → P (f x))
      → All P xs
      → All P (update t f xs)
  All-update P t f [] k h = tt
  All-update P t f (x ∷ xs) k h = (
    elim (Bool-cases (t x)) [ inl e ↦ rw e (k x e h.0) | inr e ↦ rw e h.0 ],
    All-update P t f xs k h.1,
  )

  pub All-find :
      (P : A → Type κ) (t : A → Bool) (xs : List A) {x : A} → find t xs ≡ some x → All P xs → P x
  All-find P t [] e h = cc
  All-find P t (y ∷ ys) {x} e h = elim (Bool-cases (t y)) [
    | inl s ↦ let q : y ≡ x = ground arith in subst P q h.0
    | inr s ↦ All-find P t ys (ground arith) h.1
  ]

  pub All-select : (P : A → Type κ) (t : A → Bool) (xs : List A) → All P xs → All P (select t xs)
  All-select P t [] h = tt
  All-select P t (x ∷ xs) h = elim (Bool-cases (t x)) [
    | inl e ↦ rw e (h.0, All-select P t xs h.1)
    | inr e ↦ rw e (All-select P t xs h.1)
  ]

module _ {ℓ} {A : Type ℓ} where
  pub find_test : (t : A → Bool) (xs : List A) {x : A} → find t xs ≡ some x → t x ≡ true
  find_test t [] e = cc
  find_test t (y ∷ ys) {x} e = elim (Bool-cases (t y)) [
    | inl s ↦ let q : y ≡ x = ground arith in subst (λ z. t z ≡ true) q s
    | inr s ↦ find_test t ys (ground arith)
  ]

  pub update-none : (p : A → Bool) (f : A → A) (xs : List A) → find p xs ≡ none → update p f xs ≡ xs
  update-none p f [] h = refl
  update-none p f (x ∷ xs) h = ground (arith, update-none p f xs)

  -- The row that a query finds after an update of the rows that it looks for.
  pub find-update :
      (Q : A → Type 0) (p : A → Bool) (f : A → A) (xs : List A) {y : A}
      → ((x : A) → p x ≡ true → (p (f x) ≡ true) × Q (f x))
      → find p (update p f xs) ≡ some y
      → Q y
  find-update Q p f [] k h = cc
  find-update Q p f (x ∷ xs) {y} k h = elim (Bool-cases (p x)) [
    | inl e ↦ let same : f x ≡ y = ground (arith, (k x e).0) in subst Q same (k x e).1
    | inr e ↦ find-update Q p f xs k (ground arith)
  ]

  pub length-select-append :
      (p : A → Bool) (xs : List A) (y : A)
      → length (select p (xs ++ y ∷ [])) ≡ length (select p xs) + (if p y then 1 else 0)
  length-select-append p [] y = ground arith
  length-select-append p (x ∷ xs) y = let rest = length-select-append p xs y in ground arith
