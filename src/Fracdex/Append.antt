-- ===== src/Fracdex/Append.antt =====
-- Appending, which calls `between` with an empty upper bound: it fails exactly at a full key.
use velvet.Common.{
  ℕ, zero, suc, ◌+◌, ◌/◌, ◌≡◌, ◌⊎◌, ◌↔◌, refl, Bool, true, false, [], ◌∷◌, ◌++◌, arith, ltb,
  Bool-cases, inl, inr, if◌then◌else◌,
}
use velvet.Common.Text.{Bytes}
use velvet.Fracdex.{
  ok, err, too_deep, idx, digit, digit_value, has_invalid, between_loop, between, max_len, base,
  tail,
}
use velvet.Fracdex.Strict.{IsKey, IsKey-tail, next_free}

-- The key begins with `n` digits "z", the last of the alphabet.
abbrev pub IsFull : ℕ → Bytes → Type 0
IsFull zero a = Unit
IsFull (suc n) [] = ⊥
IsFull (suc n) (c ∷ cs) = (c ≡ b'z') × IsFull n cs

last_digit :
    (c : ℕ) (cs : Bytes) → IsKey (c ∷ cs) → ltb (digit_value (c ∷ cs) + 1) base ≡ false → c ≡ b'z'
unfolding digit_value idx has_invalid
last_digit c cs k h = ground arith

last_digit_full : (c : ℕ) (cs : Bytes) → c ≡ b'z' → ltb (digit_value (c ∷ cs) + 1) base ≡ false
unfolding digit_value idx
last_digit_full c cs e = rw e

free_too_deep :
    (rounds : ℕ) (a b out : Bytes)
    → IsKey a
    → (between_loop rounds a b true out ≡ err too_deep) ↔ IsFull rounds a
unfolding between_loop
free_too_deep zero a b out k = (λ _. tt, λ _. refl)
free_too_deep (suc rounds) [] b out k = unfold digit_value in (λ h. cc, λ h. absurd h)
free_too_deep (suc rounds) (c ∷ cs) b out k =
    let (to, from) =
      free_too_deep rounds cs (tail b) (out ++ digit (digit_value (c ∷ cs)) ∷ [])
        (IsKey-tail (c ∷ cs) k) in
    elim (Bool-cases (ltb (digit_value (c ∷ cs) + 1) base)) [
      | inl wide ↦ (λ h. ground arith, λ h. ground (arith, last_digit_full c cs h.0))
      | inr narrow ↦ (λ h. (last_digit c cs k narrow, to (ground arith)), λ h. rw narrow (from h.1))
    ]

between-nil : (a : Bytes) → IsKey a → between a [] ≡ between_loop max_len a [] true []
unfolding between has_invalid
between-nil [] k = ground arith
between-nil (c ∷ cs) k = ground arith

-- The loop has no other error.
loop_result :
    (rounds : ℕ) (a b : Bytes) (f : Bool) (out : Bytes)
    → (between_loop rounds a b f out ≡ err too_deep)
      ⊎ ((k : Bytes) × (between_loop rounds a b f out ≡ ok k))
unfolding between_loop
loop_result zero a b f out = inl refl
loop_result (suc rounds) a b f out =
    elim (Bool-cases (ltb (digit_value a + 1) (if f then base else digit_value b))) [
      | inl wide ↦
          inr
            (out ++ digit ((digit_value a + (if f then base else digit_value b)) / 2) ∷ [], rw wide)
      | inr narrow ↦ rw narrow (
          loop_result rounds (tail a) (tail b) (next_free a b f)
            (out ++ digit (digit_value a) ∷ []))
    ]

-- Appending after a key fails with `too_deep` exactly if the key begins with 64 digits "z", and in
-- every other case it returns a key.
pub append_too_deep :
    (a : Bytes)
    → IsKey a
    → ((between a [] ≡ err too_deep) ↔ IsFull max_len a)
      × (¬ IsFull max_len a → (k : Bytes) × (between a [] ≡ ok k))
append_too_deep a k = rw (between-nil a k) (
  free_too_deep max_len a [] [] k,
  λ room. elim (loop_result max_len a [] true []) [
    | inl deep ↦ absurd (room ((free_too_deep max_len a [] [] k).0 deep))
    | inr found ↦ found
  ],
)
