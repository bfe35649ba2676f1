-- ===== src/Fracdex/Shape.antt =====
-- The form of the keys that `between` returns: digits only, no last "0", at most 64 long.
use velvet.Common.{
  ℕ, zero, suc, ◌+◌, ◌/◌, ◌<◌, ◌≤◌, ◌≡◌, refl, Bool, false, [], ◌∷◌, ◌++◌, append_assoc, arith, ltb,
  ◌==◌, length, Bool-cases, inl, inr, if◌then◌else◌,
}
use velvet.Common.Text.{Bytes}
use velvet.Fracdex.{
  ok, idx, digit, digit_value, has_invalid, between_loop, between, max_len, base, tail, is_empty,
}
use velvet.Fracdex.Digits.{idx-digit}
use velvet.Fracdex.Strict.{IsKey, digit_value-lt, between_guards, next_free}

-- The last byte is the digit "0".
abbrev pub ends_zero : Bytes → Bool
ends_zero [] = false
ends_zero (c ∷ []) = c == b'0'
ends_zero (_ ∷ c ∷ cs) = ends_zero (c ∷ cs)

pub IsKey-cons_digit : (n : ℕ) (r : Bytes) → n < 62 → IsKey r → IsKey (digit n ∷ r)
unfolding has_invalid
IsKey-cons_digit n r h k = ground (arith, idx-digit n h)

digit-ne-zero : (n : ℕ) → 0 < n → n < 62 → (digit n == b'0') ≡ false
unfolding idx
digit-ne-zero n p h = ground (arith, idx-digit n h)

-- What one run of the loop appends to `out`.
record IsSuffix (rounds : ℕ) (r : Bytes) : Type 0 where
  key : IsKey r
  proper : ends_zero r ≡ false
  some_digit : is_empty r ≡ false
  short : length r ≤ rounds

IsSuffix-cons :
    (rounds n : ℕ) (r : Bytes) → n < 62 → IsSuffix rounds r → IsSuffix (suc rounds) (digit n ∷ r)
IsSuffix-cons rounds n [] h s = absurd (ground (arith, s.some_digit))
IsSuffix-cons rounds n (c ∷ cs) h s = record {
  key = IsKey-cons_digit n (c ∷ cs) h s.key;
  proper = s.proper;
  some_digit = refl;
  short = omega (arith, s.short);
}

IsSuffix-one : (rounds n : ℕ) → 0 < n → n < 62 → IsSuffix (suc rounds) (digit n ∷ [])
IsSuffix-one rounds n p h = record {
  key = IsKey-cons_digit n [] h (unfold has_invalid in refl);
  proper = digit-ne-zero n p h;
  some_digit = refl;
  short = omega arith;
}

between_loop-suffix :
    (rounds : ℕ) (a b : Bytes) (f : Bool) (out : Bytes) {k : Bytes}
    → between_loop rounds a b f out ≡ ok k
    → (r : Bytes) × (k ≡ out ++ r) × IsSuffix rounds r
unfolding between_loop
between_loop-suffix zero a b f out e = cc
between_loop-suffix (suc rounds) a b f out {k} e =
    elim (Bool-cases (ltb (digit_value a + 1) (if f then base else digit_value b))) [
      | inl wide ↦
          let mid : ℕ = (digit_value a + (if f then base else digit_value b)) / 2 in
          (
            digit mid ∷ [],
            ground arith,
            IsSuffix-one rounds mid (ground arith) (ground (arith, digit_value-lt b)),
          )
      | inr narrow ↦
          let (r, e', s) =
            between_loop-suffix rounds (tail a) (tail b) (next_free a b f)
              (out ++ digit (digit_value a) ∷ []) {k = k} (ground arith) in
          (
            digit (digit_value a) ∷ r,
            ground (arith, append_assoc out (digit (digit_value a) ∷ []) r),
            IsSuffix-cons rounds (digit_value a) r (digit_value-lt a) s,
          )
    ]

-- A key that `between` returns consists of digits, is not empty, does not end in "0" and has at most
-- 64 digits.
pub between_shape :
    (a b : Bytes) {k : Bytes}
    → between a b ≡ ok k
    → IsKey k × (is_empty k ≡ false) × (ends_zero k ≡ false) × (length k ≤ max_len)
between_shape a b {k} h =
    let (ka, kb, order, run) = between_guards a b {k = k} h in
    let (r, e, s) = between_loop-suffix max_len a b (is_empty b) [] {k = k} run in
    rw e (s.key, s.some_digit, s.proper, s.short)
