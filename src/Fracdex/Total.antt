-- ===== src/Fracdex/Total.antt =====
-- `between` finds a key whenever there is room, and when appending runs out of room.
use velvet.Common.{
  ℕ, zero, suc, ◌+◌, ◌/◌, ◌<◌, ◌≤◌, ◌≡◌, ◌⊎◌, refl, true, false, ◌||◌, [], ◌∷◌, ◌++◌, arith, ltb,
  length, Bool-cases, inl, inr,
}
use velvet.Common.Text.{Bytes, lex_ltb}
use velvet.Fracdex.{
  ok, idx, digit, digit_value, has_invalid, between_loop, between, max_len, base, tail, is_empty,
}
use velvet.Fracdex.Digits.{idx_injective, idx_mono}
use velvet.Fracdex.Strict.{IsKey, IsKey-tail, idx-digit_value, between_strict}
use velvet.Fracdex.Shape.{ends_zero, between_shape}

-- Once `b` no longer constrains the digits, one round behind the end of `a` is enough.
free_total :
    (rounds : ℕ) (a b out : Bytes)
    → length a < rounds
    → (k : Bytes) × (between_loop rounds a b true out ≡ ok k)
unfolding between_loop digit_value
free_total zero a b out h = absurd (omega arith)
free_total (suc rounds) [] b out h = (out ++ digit 31 ∷ [], ground arith)
free_total (suc rounds) (c ∷ cs) b out h = elim (Bool-cases (ltb (digit_value (c ∷ cs) + 1) base)) [
  | inl wide ↦ (out ++ digit ((digit_value (c ∷ cs) + base) / 2) ∷ [], ground arith)
  | inr narrow ↦
      let (k, e) =
        free_total rounds cs (tail b) (out ++ digit (digit_value (c ∷ cs)) ∷ []) (omega arith) in
      (k, ground arith)
]

-- A step down two ordered keys: the first digits differ, or agree and the rests are ordered.
below_digits :
    (a b : Bytes)
    → IsKey a
    → IsKey b
    → lex_ltb a b ≡ true
    → ends_zero b ≡ false
    → (digit_value a < digit_value b)
      ⊎ ((digit_value a ≡ digit_value b) × (lex_ltb (tail a) (tail b) ≡ true))
below_digits [] [] ka kb h z = cc
below_digits (x ∷ xs) [] ka kb h z = cc
below_digits [] (y ∷ []) ka kb h z = unfold digit_value idx has_invalid in ground arith
below_digits [] (y ∷ y' ∷ ys) ka kb h z = unfold digit_value in ground arith
below_digits (x ∷ xs) (y ∷ ys) ka kb h z = ground (
  arith,
  idx-digit_value x xs ka,
  idx-digit_value y ys kb,
  idx_mono y x (digit_value (y ∷ ys)) (digit_value (x ∷ xs)),
  idx_injective x y (digit_value (x ∷ xs)),
)

ends_zero-tail : (b : Bytes) → ends_zero b ≡ false → ends_zero (tail b) ≡ false
ends_zero-tail [] h = refl
ends_zero-tail (c ∷ []) h = refl
ends_zero-tail (c ∷ d ∷ cs) h = h

length-tail : (b : Bytes) (n : ℕ) → length b < suc n → 0 < n → length (tail b) < n
length-tail [] n h p = p
length-tail (c ∷ cs) n h p = omega arith

below-pos : (a b : Bytes) → lex_ltb a b ≡ true → 0 < length b
below-pos [] [] h = cc
below-pos (x ∷ xs) [] h = cc
below-pos a (y ∷ ys) h = omega arith

bounded_total :
    (rounds : ℕ) (a b out : Bytes)
    → IsKey a
    → IsKey b
    → lex_ltb a b ≡ true
    → ends_zero b ≡ false
    → length a < rounds
    → length b < rounds
    → (k : Bytes) × (between_loop rounds a b false out ≡ ok k)
unfolding between_loop
bounded_total zero a b out ka kb h z la lb = absurd (omega arith)
bounded_total (suc rounds) a b out ka kb h z la lb =
    let more : 0 < rounds = omega (arith, below-pos a b h) in
    let out' : Bytes = out ++ digit (digit_value a) ∷ [] in
    elim (Bool-cases (ltb (digit_value a + 1) (digit_value b))) [
      | inl wide ↦ (out ++ digit ((digit_value a + digit_value b) / 2) ∷ [], ground arith)
      | inr narrow ↦ elim (below_digits a b ka kb h z) [
        | inl lt ↦
            let (k, e) = free_total rounds (tail a) (tail b) out' (length-tail a rounds la more) in
            (k, ground arith)
        | inr (same, rest) ↦
            let (k, e) =
              bounded_total rounds (tail a) (tail b) out' (IsKey-tail a ka) (IsKey-tail b kb) rest
                (ends_zero-tail b z) (length-tail a rounds la more)
                (length-tail b rounds lb more) in
            (k, ground arith)
      ]
    ]

between_ok :
    (a b : Bytes)
    → IsKey a
    → IsKey b
    → (is_empty b || lex_ltb a b) ≡ true
    → ends_zero b ≡ false
    → length a < max_len
    → length b < max_len
    → (k : Bytes) × (between a b ≡ ok k)
unfolding between
between_ok a [] ka kb h z la lb = let (k, e) = free_total max_len a [] [] la in (k, ground arith)
between_ok [] (y ∷ ys) ka kb h z la lb =
    let (k, e) = bounded_total max_len [] (y ∷ ys) [] ka kb h z la lb in (k, ground arith)
between_ok (x ∷ xs) (y ∷ ys) ka kb h z la lb =
    let (k, e) = bounded_total max_len (x ∷ xs) (y ∷ ys) [] ka kb h z la lb in (k, ground arith)

-- For two keys of fewer than 64 digits, the first before the second (or the second empty), and the
-- second without a last "0", `between` returns a key. That key sorts between them, has digits only
-- and at most 64 of them, and does not end in "0" itself.
pub between_total :
    (a b : Bytes)
    → IsKey a
    → IsKey b
    → (is_empty b || lex_ltb a b) ≡ true
    → ends_zero b ≡ false
    → length a < max_len
    → length b < max_len
    → (k : Bytes) × (between a b ≡ ok k)
      × (lex_ltb a k ≡ true)
      × ((is_empty b || lex_ltb k b) ≡ true)
      × IsKey k
      × (ends_zero k ≡ false)
      × (length k ≤ max_len)
between_total a b ka kb h z la lb =
    let (k, e) = between_ok a b ka kb h z la lb in
    let (lo, hi) = between_strict a b {k = k} e in
    let (key, full, proper, short) = between_shape a b {k = k} e in
    (k, e, lo, hi, key, proper, short)
