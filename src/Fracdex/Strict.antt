-- ===== src/Fracdex/Strict.antt =====
-- A key that `between` returns lies strictly between its bounds, in byte order.
use velvet.Common.{
  ℕ, zero, suc, ◌+◌, ◌/◌, ◌<◌, ◌≡◌, refl, Bool, true, false, not, ◌&&◌, some, [], ◌∷◌, ◌++◌,
  append_assoc, arith, ltb, get_or, Bool-cases, ◌⊎◌, inl, inr, ◌||◌, if◌then◌else◌,
}
use velvet.Common.Text.{Bytes, lex_ltb, lex_ltb_asymm}
use velvet.Fracdex.{
  ok, idx, digit, digit_value, has_invalid, between_loop, between, max_len, base, tail, is_empty,
}
use velvet.Fracdex.Digits.{idx-digit, idx-lt, idx_mono, idx_injective}

-- Every byte of a key is a digit.
abbrev pub IsKey : Bytes → Type 0
IsKey a = has_invalid a ≡ false

pub IsKey-tail : (a : Bytes) → IsKey a → IsKey (tail a)
unfolding has_invalid
IsKey-tail [] h = refl
IsKey-tail (c ∷ cs) h = ground arith

pub digit_value-lt : (a : Bytes) → digit_value a < 62
unfolding digit_value
digit_value-lt [] = omega arith
digit_value-lt (c ∷ cs) = ground (arith, idx-lt c (get_or (idx c) 0))

pub idx-digit_value : (c : ℕ) (cs : Bytes) → IsKey (c ∷ cs) → idx c ≡ some (digit_value (c ∷ cs))
unfolding has_invalid digit_value
idx-digit_value c cs h = ground arith

-- A digit above the first digit of `a` starts a key above `a`.
lt-digit :
    (a : Bytes) (n : ℕ) (r : Bytes)
    → IsKey a
    → n < 62
    → digit_value a < n
    → lex_ltb a (digit n ∷ r) ≡ true
lt-digit [] n r k h lt = refl
lt-digit (c ∷ cs) n r k h lt = ground (
  arith,
  idx_mono c (digit n) (digit_value (c ∷ cs)) n (idx-digit_value c cs k) (idx-digit n h) lt,
)

digit-lt :
    (b : Bytes) (n : ℕ) (r : Bytes)
    → IsKey b
    → n < 62
    → n < digit_value b
    → lex_ltb (digit n ∷ r) b ≡ true
digit-lt [] n r k h lt = absurd (unfold digit_value in omega arith)
digit-lt (c ∷ cs) n r k h lt = ground (
  arith,
  idx_mono (digit n) c n (digit_value (c ∷ cs)) (idx-digit n h) (idx-digit_value c cs k) lt,
)

-- Copying the first digit of `a` keeps the order of what follows.
lt-digit_same :
    (a r : Bytes)
    → IsKey a
    → lex_ltb (tail a) r ≡ true
    → lex_ltb a (digit (digit_value a) ∷ r) ≡ true
lt-digit_same [] r k h = refl
lt-digit_same (c ∷ cs) r k h = ground (
  arith,
  idx_injective c (digit (digit_value (c ∷ cs))) (digit_value (c ∷ cs)) (idx-digit_value c cs k)
      (idx-digit _ (digit_value-lt (c ∷ cs))),
)

digit-lt_same :
    (b r : Bytes)
    → IsKey b
    → lex_ltb r (tail b) ≡ true
    → lex_ltb (digit (digit_value b) ∷ r) b ≡ true
digit-lt_same [] [] k h = cc
digit-lt_same [] (x ∷ r) k h = cc
digit-lt_same (c ∷ cs) r k h = ground (
  arith,
  idx_injective c (digit (digit_value (c ∷ cs))) (digit_value (c ∷ cs)) (idx-digit_value c cs k)
      (idx-digit _ (digit_value-lt (c ∷ cs))),
)

-- If `b` is not below `a`, its first digit is not, and if they are equal, neither is the rest.
not_below_step :
    (a b : Bytes)
    → IsKey a
    → IsKey b
    → lex_ltb b a ≡ false
    → (digit_value a < digit_value b)
      ⊎ ((digit_value a ≡ digit_value b) × (lex_ltb (tail b) (tail a) ≡ false))
not_below_step [] [] k l h = inr (refl, refl)
not_below_step (x ∷ xs) [] k l h = cc
not_below_step [] (y ∷ []) k l h = unfold digit_value in ground arith
not_below_step [] (y ∷ z ∷ ys) k l h = unfold digit_value in ground arith
not_below_step (x ∷ xs) (y ∷ ys) k l h = ground (
  arith,
  idx-digit_value x xs k,
  idx-digit_value y ys l,
  idx_mono y x (digit_value (y ∷ ys)) (digit_value (x ∷ xs)),
  idx_injective x y (digit_value (x ∷ xs)),
)

abbrev pub next_free : Bytes → Bytes → Bool → Bool
next_free a b f =
    if not f && ltb (digit_value a) (if f then base else digit_value b) then true else f

free_step :
    (a b : Bytes) (f : Bool)
    → IsKey a
    → IsKey b
    → (f || not (lex_ltb b a)) ≡ true
    → (next_free a b f || not (lex_ltb (tail b) (tail a))) ≡ true
free_step a b true k l h = refl
free_step a b false k l h = ground (arith, not_below_step a b k l)

below_step :
    (a b r : Bytes) (f : Bool)
    → IsKey a
    → IsKey b
    → (f || not (lex_ltb b a)) ≡ true
    → (next_free a b f || lex_ltb r (tail b)) ≡ true
    → (f || lex_ltb (digit (digit_value a) ∷ r) b) ≡ true
below_step a b r true k l h i = refl
below_step a b r false k l h i = ground (
  arith,
  not_below_step a b k l,
  digit-lt b (digit_value a) r l (digit_value-lt a),
  digit-lt_same b r l,
)

pub between_loop-strict :
    (rounds : ℕ) (a b : Bytes) (f : Bool) (out : Bytes) {k : Bytes}
    → IsKey a
    → IsKey b
    → (f || not (lex_ltb b a)) ≡ true
    → between_loop rounds a b f out ≡ ok k
    → (r : Bytes) × (k ≡ out ++ r) × (lex_ltb a r ≡ true) × ((f || lex_ltb r b) ≡ true)
unfolding between_loop
between_loop-strict zero a b f out ka kb h e = cc
between_loop-strict (suc rounds) a b f out {k} ka kb h e =
    elim (Bool-cases (ltb (digit_value a + 1) (if f then base else digit_value b))) [
      | inl wide ↦
          let mid : ℕ = (digit_value a + (if f then base else digit_value b)) / 2 in
          let fits : mid < 62 = ground (arith, digit_value-lt b) in
          (
            digit mid ∷ [],
            ground arith,
            lt-digit a mid [] ka fits (ground arith),
            ground (arith, digit-lt b mid [] kb fits),
          )
      | inr narrow ↦
          let (r, e', lo, hi) =
            between_loop-strict rounds (tail a) (tail b) (next_free a b f)
              (out ++ digit (digit_value a) ∷ []) {k = k} (IsKey-tail a ka) (IsKey-tail b kb)
              (free_step a b f ka kb h) (ground arith) in
          (
            digit (digit_value a) ∷ r,
            ground (arith, append_assoc out (digit (digit_value a) ∷ []) r),
            lt-digit_same a r ka lo,
            below_step a b r f ka kb h hi,
          )
    ]

-- The guards of `between`: what holds once the loop runs.
pub between_guards :
    (a b : Bytes) {k : Bytes}
    → between a b ≡ ok k
    → IsKey a
      × IsKey b
      × ((is_empty b || not (lex_ltb b a)) ≡ true)
      × (between_loop max_len a b (is_empty b) [] ≡ ok k)
unfolding between
between_guards a [] h = ground arith
between_guards [] (y ∷ ys) h = ground arith
between_guards (x ∷ xs) (y ∷ ys) h = ground (arith, lex_ltb_asymm (x ∷ xs) (y ∷ ys))

-- A key that `between` returns sorts strictly after `a`, and strictly before `b` unless `b` is
-- empty, in the order of the bytes.
pub between_strict :
    (a b : Bytes) {k : Bytes}
    → between a b ≡ ok k
    → (lex_ltb a k ≡ true) × ((is_empty b || lex_ltb k b) ≡ true)
between_strict a b {k} h =
    let (ka, kb, order, run) = between_guards a b {k = k} h in
    let (r, e, lo, hi) = between_loop-strict max_len a b (is_empty b) [] {k = k} ka kb order run in
    rw e (lo, hi)
