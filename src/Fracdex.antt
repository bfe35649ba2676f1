-- ===== src/Fracdex.antt =====
-- api/internal/fracdex/fracdex.go: order keys strictly between two given keys.
-- Strings are lists of bytes; the `(string, error)` results are `Result`.
pub mod Digits
pub mod Strict
pub mod Shape
pub mod Total
pub mod Append
mod Tests
use velvet.Common.{
  ℕ, zero, suc, ◌+◌, ◌-◌, ◌/◌, ◌≡◌, refl, Bool, true, false, not, ◌&&◌, ◌||◌, Option, none, some,
  List, [], ◌∷◌, ◌++◌, ltb, leb, if◌then◌else◌, get_or, is_some, get_elem?, any,
}
use velvet.Common.Text.{Bytes, codes, lex_ltb}

pub data Error : Type 0 where
  out_of_order too_deep : Error

pub data Result : Type 0 where
  ok : Bytes → Result
  err : Error → Result

abbrev pub digits : Bytes
digits = codes "0123456789ABCDEFGHIJKLMNOPQRSTUVWXYZabcdefghijklmnopqrstuvwxyz"

abbrev pub base : ℕ
base = 62

abbrev pub max_len : ℕ
max_len = 64

-- `-1` is `none`.
unfoldable pub idx : ℕ → Option ℕ
idx c =
    if leb b'0' c && leb c b'9'
    then some (c - b'0')
    else if leb b'A' c && leb c b'Z'
    then some (c - b'A' + 10)
    else if leb b'a' c && leb c b'z'
    then some (c - b'a' + 36)
    else none

-- `digits[n]`
unfoldable pub digit : ℕ → ℕ
digit n = get_or (get_elem? digits n) 0

-- The digit at the current position, 0 behind the end of the key. The keys are validated before.
unfoldable pub digit_value : Bytes → ℕ
unfolding idx
digit_value [] = 0
digit_value (c ∷ _) = get_or (idx c) 0

abbrev pub tail : Bytes → Bytes
tail [] = []
tail (_ ∷ cs) = cs

-- The loop of `Between` with the rounds that are left; `a` and `b` are what remains of the two keys
-- from the current position on.
unfoldable pub between_loop : ℕ → Bytes → Bytes → Bool → Bytes → Result
between_loop zero a b b_free out = err too_deep
between_loop (suc rounds) a b b_free out =
    let da = digit_value a in
    let db = if b_free then base else digit_value b in
    let rest =
      between_loop rounds (tail a) (tail b) (if not b_free && ltb da db then true else b_free)
        (out ++ digit da ∷ []) in
    if ltb (da + 1) db then ok (out ++ digit ((da + db) / 2) ∷ []) else rest

abbrev pub is_empty : Bytes → Bool
is_empty [] = true
is_empty (_ ∷ _) = false

unfoldable pub has_invalid : Bytes → Bool
has_invalid = any (λ c. not (is_some (idx c)))

unfoldable pub between : Bytes → Bytes → Result
between a b =
    if not (is_empty a) && (not (is_empty b) && not (lex_ltb a b))
    then err out_of_order
    else if has_invalid a
    then err out_of_order
    else if has_invalid b
    then err out_of_order
    else between_loop max_len a b (is_empty b) []

unfoldable pub first : Bytes
first = codes "V"
