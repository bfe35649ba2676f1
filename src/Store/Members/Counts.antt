-- ===== src/Store/Members/Counts.antt =====
-- How many rows meet a condition, before and after rows are removed or changed.
use velvet.Common.{
  ℕ, ◌+◌, ◌≤◌, ◌≡◌, sym, subst, Bool, true, false, not, ◌&&◌, ◌||◌, arith, List, [], ◌∷◌, length,
  find, select, update, some, leb, Bool-cases, inl, inr,
}

module _ {A : Type 0} where
  abbrev pub count : (A → Bool) → List A → ℕ
  count p xs = length (select p xs)

  -- Removing the rows that meet `t` loses those of `p` that meet `t`.
  pub count-remove :
      (p t : A → Bool) (xs : List A)
      → count p xs ≤ count p (select (λ x. not (t x)) xs) + count (λ x. p x && t x) xs
  count-remove p t [] = omega arith
  count-remove p t (x ∷ xs) = ground (arith, count-remove p t xs)

  pub count-update :
      (p t : A → Bool) (f : A → A) (xs : List A)
      → count p xs ≤ count p (update t f xs) + count (λ x. p x && t x) xs
  count-update p t f [] = omega arith
  count-update p t f (x ∷ xs) = ground (arith, count-update p t f xs)

  count-both : (p t : A → Bool) (xs : List A) → count (λ x. p x && t x) xs ≤ count t xs
  count-both p t [] = omega arith
  count-both p t (x ∷ xs) = ground (arith, count-both p t xs)

  -- The one row that meets `t` does not meet `p`.
  count-other :
      (p t : A → Bool) (xs : List A) {r : A}
      → find t xs ≡ some r
      → p r ≡ false
      → count (λ x. p x && t x) xs + 1 ≤ count t xs
  count-other p t [] e h = cc
  count-other p t (x ∷ xs) {r} e h = elim (Bool-cases (t x)) [
    | inl y ↦
        let q : x ≡ r = ground arith in
        let no : p x ≡ false = subst (λ z. p z ≡ false) (sym q) h in
        let rest = count-both p t xs in rw (y, no) (omega arith)
    | inr n ↦ let rest = count-other p t xs {r = r} (rw n at e) h in ground (arith, rest)
  ]

  -- The rows of `p` that an operation on the one row of `t` may lose.
  pub few :
      (p t : A → Bool) (xs : List A) {r : A}
      → find t xs ≡ some r
      → count t xs ≤ 1
      → (not (p r) || not (leb (count p xs) 1)) ≡ true
      → 1 ≤ count p xs
      → count (λ x. p x && t x) xs + 1 ≤ count p xs
  few p t xs {r} e one kept some_left = elim (Bool-cases (p r)) [
    | inl y ↦ let all = count-both p t xs in ground arith
    | inr n ↦ let none_lost = count-other p t xs e n in omega arith
  ]

  pub count-some :
      (p t : A → Bool) (xs : List A) {r : A} → find t xs ≡ some r → p r ≡ true → 1 ≤ count p xs
  count-some p t [] e h = cc
  count-some p t (x ∷ xs) {r} e h = elim (Bool-cases (t x)) [
    | inl y ↦
        let q : x ≡ r = ground arith in
        let positive : p x ≡ true = subst (λ z. p z ≡ true) (sym q) h in ground arith
    | inr n ↦ let rest = count-some p t xs {r = r} (rw n at e) h in ground arith
  ]

  pub count-kept :
      (p t : A → Bool) (f : A → A) (xs : List A)
      → ((x : A) → p x ≡ true → p (f x) ≡ true)
      → count p xs ≤ count p (update t f xs)
  count-kept p t f [] k = omega arith
  count-kept p t f (x ∷ xs) k = ground (arith, k x, count-kept p t f xs k)
