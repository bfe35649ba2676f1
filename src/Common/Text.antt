-- ===== src/Common/Text.antt =====
-- Byte strings: their literals, and Go's `<`, which compares bytes.
use Prim.Native.Nat.{ℕ}
use Prim.Native.Char.{code}
use Prim.Native.String.{String}
use mathlib.Core.Path.{◌≡◌, refl}
use mathlib.Core.Bool.{Bool, true, false, ◌&&◌}
use mathlib.Core.List.{List, [], ◌∷◌}
use native.Mathlib.Omega.{arith}
use velvet.Common.Tests.{ltb, ◌==◌, if◌then◌else◌}

abbrev pub Bytes : Type 0
Bytes = List ℕ

-- The code points of a literal; these are its bytes when the text is ASCII.
abbrev pub codes : String → Bytes
codes String.[] = []
codes (String.◌∷◌ c s) = code c ∷ codes s

abbrev pub same_bytes : Bytes → Bytes → Bool
same_bytes [] [] = true
same_bytes [] (y ∷ ys) = false
same_bytes (x ∷ xs) [] = false
same_bytes (x ∷ xs) (y ∷ ys) = x == y && same_bytes xs ys

pub same_bytes_refl : (a : Bytes) → same_bytes a a ≡ true
same_bytes_refl [] = refl
same_bytes_refl (x ∷ xs) = ground (arith, same_bytes_refl xs)

pub same_bytes_comm : (a b : Bytes) → same_bytes a b ≡ same_bytes b a
same_bytes_comm [] [] = refl
same_bytes_comm [] (y ∷ ys) = refl
same_bytes_comm (x ∷ xs) [] = refl
same_bytes_comm (x ∷ xs) (y ∷ ys) = let rest = same_bytes_comm xs ys in ground arith

abbrev pub lex_ltb : Bytes → Bytes → Bool
lex_ltb [] [] = false
lex_ltb [] (y ∷ ys) = true
lex_ltb (x ∷ xs) [] = false
lex_ltb (x ∷ xs) (y ∷ ys) = if ltb x y then true else if x == y then lex_ltb xs ys else false

pub lex_ltb_irrefl : (a : Bytes) → lex_ltb a a ≡ false
lex_ltb_irrefl [] = refl
lex_ltb_irrefl (x ∷ xs) = ground (arith, lex_ltb_irrefl xs)

pub lex_ltb_trans : (a b c : Bytes) → lex_ltb a b ≡ true → lex_ltb b c ≡ true → lex_ltb a c ≡ true
lex_ltb_trans [] b [] h k = ground arith
lex_ltb_trans [] b (z ∷ zs) h k = refl
lex_ltb_trans (x ∷ xs) [] c h k = ground arith
lex_ltb_trans (x ∷ xs) (y ∷ ys) [] h k = ground arith
lex_ltb_trans (x ∷ xs) (y ∷ ys) (z ∷ zs) h k = ground (arith, lex_ltb_trans xs ys zs)

pub lex_ltb_asymm : (a b : Bytes) → lex_ltb a b ≡ true → lex_ltb b a ≡ false
lex_ltb_asymm [] [] h = refl
lex_ltb_asymm [] (y ∷ ys) h = refl
lex_ltb_asymm (x ∷ xs) [] h = cc
lex_ltb_asymm (x ∷ xs) (y ∷ ys) h = ground (arith, lex_ltb_asymm xs ys)

pub lex_ltb_cotrans :
    (a b c : Bytes) → lex_ltb a b ≡ false → lex_ltb a c ≡ true → lex_ltb b c ≡ true
lex_ltb_cotrans [] b [] h k = cc
lex_ltb_cotrans [] [] (z ∷ zs) h k = refl
lex_ltb_cotrans [] (y ∷ ys) (z ∷ zs) h k = cc
lex_ltb_cotrans (x ∷ xs) b [] h k = cc
lex_ltb_cotrans (x ∷ xs) [] (z ∷ zs) h k = refl
lex_ltb_cotrans (x ∷ xs) (y ∷ ys) (z ∷ zs) h k = ground (arith, lex_ltb_cotrans xs ys zs)
