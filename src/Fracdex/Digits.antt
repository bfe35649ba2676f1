-- ===== src/Fracdex/Digits.antt =====
-- The alphabet of the keys: reading and writing a digit are inverse, and the order of the bytes is
-- the order of the digits.
use velvet.Common.{ℕ, zero, suc, ◌<◌, ◌≡◌, refl, Bool, true, ◌&&◌, some, arith, =?_iff, ◌=?◌}
use velvet.Fracdex.{idx, digit}

-- The test passes at 0, ..., n - 1.
every : (ℕ → Bool) → ℕ → Bool
every test zero = true
every test (suc k) = every test k && test k

every-at : (test : ℕ → Bool) (bound k : ℕ) → k < bound → every test bound ≡ true → test k ≡ true
unfolding every
every-at test zero k room passed = absurd (omega arith)
every-at test (suc bound) k room passed = ground (arith, every-at test bound k)

digit_table : every (λ k. idx (digit k) =? some k) 62 ≡ true
unfolding every idx digit
digit_table = refl

pub idx-digit : (n : ℕ) → n < 62 → idx (digit n) ≡ some n
idx-digit n h = (=?_iff _ _).0 (every-at _ 62 n h digit_table)

pub idx-lt : (c n : ℕ) → idx c ≡ some n → n < 62
unfolding idx
idx-lt c n h = ground arith

pub idx_mono : (c d m n : ℕ) → idx c ≡ some m → idx d ≡ some n → m < n → c < d
unfolding idx
idx_mono c d m n h k lt = ground arith

pub idx_injective : (c d n : ℕ) → idx c ≡ some n → idx d ≡ some n → c ≡ d
unfolding idx
idx_injective c d n h k = ground arith
