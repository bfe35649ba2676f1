-- ===== src/Image/Returns.antt =====
-- Rules for what a routine returns: it comes to an answer, and a result that is no error satisfies `P`.
use velvet.Common.{◌≡◌, ◌≢◌, refl, subst, Bool, true, false, if◌then◌else◌}
use velvet.Image.{Result, ok, err, unfinished, Error, require, ◌>>=◌}

pub data Returns {A : Type 0} (P : A → Type 0) : Result A → Type 0 where
  gives : (a : A) → P a → Returns P (ok a)
  fails : (e : Error) → Returns P (err e)

module _ {A : Type 0} (P : A → Type 0) where
  pub Returns-ok : {r : Result A} → Returns P r → {a : A} → r ≡ ok a → P a
  Returns-ok (gives b p) {a} e = let same : b ≡ a = cc in subst P same p
  Returns-ok (fails x) e = cc

  pub Returns-finished : {r : Result A} → Returns P r → r ≢ unfinished
  Returns-finished (gives b p) = cc
  Returns-finished (fails x) = cc

  pub Returns-if :
      (t : Bool) (m n : Result A)
      → (t ≡ true → Returns P m)
      → (t ≡ false → Returns P n)
      → Returns P (if t then m else n)
  Returns-if true m n h k = h refl
  Returns-if false m n h k = k refl

  pub Returns-require :
      (t : Bool) (e : Error) (f : Unit {0} → Result A)
      → (t ≡ true → Returns P (f tt))
      → Returns P (require t e >>= f)
  unfolding ◌>>=◌
  Returns-require true e f h = h refl
  Returns-require false e f h = fails e

module _ {A B : Type 0} (P : B → Type 0) where
  pub Returns-bind :
      (Q : A → Type 0) (m : Result A) (f : A → Result B)
      → Returns Q m
      → ((a : A) → Q a → m ≡ ok a → Returns P (f a))
      → Returns P (m >>= f)
  unfolding ◌>>=◌
  Returns-bind Q (ok b) f (gives a q) k = k b q refl
  Returns-bind Q (err e) f (fails x) k = fails e
  Returns-bind Q unfinished f r k = elim r [ ]

pub Returns-map :
    {A : Type 0} (P Q : A → Type 0) {r : Result A}
    → ((a : A) → P a → Q a)
    → Returns P r
    → Returns Q r
Returns-map P Q f (gives a p) = gives a (f a p)
Returns-map P Q f (fails e) = fails e
