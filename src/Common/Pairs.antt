-- ===== src/Common/Pairs.antt =====
-- Predicates that hold of every row of a table, or of every two rows, across an update.
use mathlib.Core.Path.{◌≡◌}
use mathlib.Core.Bool.{Bool, false}
use mathlib.Core.List.{List, [], ◌∷◌, ◌++◌}
use mathlib.Core.Option.{none}
use native.Mathlib.Omega.{arith}
use velvet.Common.Tests.{if◌then◌else◌}
use velvet.Common.Lists.{All, All-map, All-append, All-select, select, update, any, find}

module _ {A : Type 0} where
  pub All-both : (P Q : A → Type 0) (xs : List A) → All P xs → All Q xs → All (λ x. P x × Q x) xs
  All-both P Q [] h k = tt
  All-both P Q (x ∷ xs) h k = ((h.0, k.0), All-both P Q xs h.1 k.1)

  pub All-change :
      (P Q : A → Type 0) (p : A → Bool) (f : A → A) (xs : List A)
      → ((x : A) → P x → Q (if p x then f x else x))
      → All P xs
      → All Q (update p f xs)
  All-change P Q p f [] k h = tt
  All-change P Q p f (x ∷ xs) k h = (k x h.0, All-change P Q p f xs k h.1)

  pub All-any : (p : A → Bool) (xs : List A) → any p xs ≡ false → All (λ x. p x ≡ false) xs
  All-any p [] h = tt
  All-any p (x ∷ xs) h = (ground arith, All-any p xs (ground arith))

  pub All-find-none : (p : A → Bool) (xs : List A) → find p xs ≡ none → All (λ x. p x ≡ false) xs
  All-find-none p [] h = tt
  All-find-none p (x ∷ xs) h = (ground arith, All-find-none p xs (ground arith))

  -- `R` holds of every two rows.
  abbrev pub Pairs : (A → A → Type 0) → List A → Type 0
  Pairs R xs = All (λ x. All (R x) xs) xs

  -- An update keeps `R` if it keeps it for two rows that both satisfy `G`.
  pub Pairs-change :
      (R : A → A → Type 0) (G : A → Type 0) (p : A → Bool) (f : A → A) (xs : List A)
      → ((x y : A) → G x → G y → R x y → R (if p x then f x else x) (if p y then f y else y))
      → All G xs
      → Pairs R xs
      → Pairs R (update p f xs)
  Pairs-change R G p f xs k g h =
      All-change (λ x. G x × All (R x) xs) (λ x. All (R x) (update p f xs)) p f xs
        (λ x hx.
          All-change (λ y. G y × R x y) _ p f xs (λ y hy. k x y hx.0 hy.0 hy.1)
            (All-both G (R x) xs g hx.1))
        (All-both G (λ x. All (R x) xs) xs g h)

  -- A new row keeps `R` if `R` holds between it and every row, both ways, and of it and itself.
  pub Pairs-append :
      (R : A → A → Type 0) (xs : List A) (y : A)
      → Pairs R xs
      → All (λ x. R x y) xs
      → All (R y) xs
      → R y y
      → Pairs R (xs ++ y ∷ [])
  Pairs-append R xs y h l r s =
      All-append _ xs (y ∷ [])
        (All-map (λ x. All (R x) xs × R x y) _ xs
          (λ x k. All-append (R x) xs (y ∷ []) k.0 (k.1, tt)) (All-both _ _ xs h l))
        (All-append (R y) xs (y ∷ []) r (s, tt), tt)

  pub Pairs-select :
      (R : A → A → Type 0) (t : A → Bool) (xs : List A) → Pairs R xs → Pairs R (select t xs)
  Pairs-select R t xs h = All-select _ t xs (All-map _ _ xs (λ x k. All-select (R x) t xs k) h)
