-- ===== src/Fracdex/Tests.antt =====
-- Runs of `between`, and the theorems about it at concrete keys.
use velvet.Common.{ℕ, zero, suc, ◌≡◌, refl, true, false, ◌||◌, [], arith, length, ◌≤◌, ◌↔◌}
use velvet.Common.Text.{Bytes, codes, lex_ltb}
use velvet.Fracdex.{
  Result, ok, err, out_of_order, too_deep, first, between, idx, digit, max_len, is_empty,
  has_invalid, digit_value, between_loop,
}
use velvet.Fracdex.Strict.{IsKey, between_strict}
use velvet.Fracdex.Shape.{ends_zero, between_shape}
use velvet.Fracdex.Total.{between_total}
use velvet.Fracdex.Append.{IsFull, append_too_deep}

middle : between (codes "V") (codes "W") ≡ ok (codes "VV")
unfolding between has_invalid idx digit digit_value between_loop
middle = refl

reversed : between (codes "W") (codes "V") ≡ err out_of_order
unfolding between has_invalid idx digit digit_value between_loop
reversed = refl

no_room : between (codes "V") (codes "V0") ≡ err too_deep
unfolding between has_invalid idx digit digit_value between_loop
no_room = refl

-- Appending `n` times, as `nextIssuePosition` does.
append_times : ℕ → Result → Result
append_times zero r = r
append_times (suc n) (err e) = err e
append_times (suc n) (ok k) = append_times n (between k [])

-- After the first key, 383 more can be appended, and the next one is refused.
append_383 :
    append_times 383 (ok first)
    ≡ ok (codes "zzzzzzzzzzzzzzzzzzzzzzzzzzzzzzzzzzzzzzzzzzzzzzzzzzzzzzzzzzzzzzzz")
unfolding append_times first between has_invalid idx digit digit_value between_loop
append_383 = refl

append_384 : append_times 384 (ok first) ≡ err too_deep
unfolding append_times first between has_invalid idx digit digit_value between_loop
append_384 = refl

IsKey-V : IsKey (codes "V")
unfolding has_invalid idx
IsKey-V = refl

IsKey-W : IsKey (codes "W")
unfolding has_invalid idx
IsKey-W = refl

between_strict_example :
    (lex_ltb (codes "V") (codes "VV") ≡ true) × ((false || lex_ltb (codes "VV") (codes "W")) ≡ true)
between_strict_example = between_strict (codes "V") (codes "W") middle

between_shape_example :
    IsKey (codes "VV")
    × (is_empty (codes "VV") ≡ false)
    × (ends_zero (codes "VV") ≡ false)
    × (length (codes "VV") ≤ max_len)
between_shape_example = between_shape (codes "V") (codes "W") middle

between_total_example :
    (k : Bytes) × (between (codes "V") (codes "W") ≡ ok k)
    × (lex_ltb (codes "V") k ≡ true)
    × ((false || lex_ltb k (codes "W")) ≡ true)
    × IsKey k
    × (ends_zero k ≡ false)
    × (length k ≤ max_len)
between_total_example =
    between_total (codes "V") (codes "W") IsKey-V IsKey-W refl refl (omega arith) (omega arith)

append_too_deep_example :
    ((between (codes "V") [] ≡ err too_deep) ↔ IsFull max_len (codes "V"))
    × (¬ IsFull max_len (codes "V") → (k : Bytes) × (between (codes "V") [] ≡ ok k))
append_too_deep_example = append_too_deep (codes "V") IsKey-V
