-- ===== src/Linker/Lookup.antt =====
-- What `find_matches` says of one key.
use velvet.Common.{
  ℕ, ◌≡◌, refl, sym, ap, ◌∙◌, Option, none, some, Bool, true, false, ◌||◌, ◌&&◌, arith, List, [],
  ◌∷◌, any, find, if◌then◌else◌, Bool-cases, inl, inr,
}
use velvet.Common.Text.{Bytes, same_bytes, same_bytes_comm}
use velvet.Linker.{Match, add, add_all, occurrences, find_matches}

same_bytes_trans : (a b c : Bytes) → same_bytes a b ≡ true → same_bytes b c ≡ same_bytes a c
same_bytes_trans [] [] c h = refl
same_bytes_trans [] (y ∷ ys) c h = cc
same_bytes_trans (x ∷ xs) [] c h = cc
same_bytes_trans (x ∷ xs) (y ∷ ys) [] h = refl
same_bytes_trans (x ∷ xs) (y ∷ ys) (z ∷ zs) h = let rest = same_bytes_trans xs ys zs in ground arith

abbrev pub is_key : Bytes → Match → Bool
is_key k m = same_bytes m.key k

abbrev pub with_closing : Option Match → Bool → Option Match
with_closing none c = none
with_closing (some m) c = some (record m { closing = c })

-- The first occurrence of a key, closing if any occurrence is.
abbrev pub merged : Bytes → List Match → Option Match
merged k ms = with_closing (find (is_key k) ms) (any (λ n. is_key k n && n.closing) ms)

abbrev joined : Bytes → Option Match → Match → Option Match
joined k none m = if is_key k m then some m else none
joined k (some o) m = some (if is_key k m then record o { closing = o.closing || m.closing } else o)

joined_other : (k : Bytes) (o : Option Match) (m : Match) → is_key k m ≡ false → joined k o m ≡ o
joined_other k none m h = rw h refl
joined_other k (some o) m h = rw h refl

find-add :
    (k : Bytes) (out : List Match) (m : Match)
    → find (is_key k) (add out m) ≡ joined k (find (is_key k) out) m
unfolding add
find-add k [] m = refl
find-add k (o ∷ out) m = elim (Bool-cases (same_bytes o.key m.key)) [
  | inl e ↦
      let same = same_bytes_trans o.key m.key k e in
      elim (Bool-cases (same_bytes o.key k)) [
        | inl y ↦ let y' : same_bytes m.key k ≡ true = same ∙ y in rw (e, y, y') refl
        | inr n ↦
            let n' : same_bytes m.key k ≡ false = same ∙ n in
            rw (e, n) (sym (joined_other k (find (is_key k) out) m n'))
      ]
  | inr e ↦ elim (Bool-cases (same_bytes o.key k)) [
    | inl y ↦
        let apart : same_bytes m.key k ≡ false =
          same_bytes_comm m.key k ∙ same_bytes_trans o.key k m.key y ∙ e in
        rw (e, y, apart) refl
    | inr n ↦ rw (e, n) (find-add k out m)
  ]
]

abbrev joined_all : Bytes → Option Match → List Match → Option Match
joined_all k o [] = o
joined_all k o (m ∷ ms) = joined_all k (joined k o m) ms

find-add_all :
    (k : Bytes) (out ms : List Match)
    → find (is_key k) (add_all out ms) ≡ joined_all k (find (is_key k) out) ms
unfolding add_all
find-add_all k out [] = refl
find-add_all k out (m ∷ ms) =
    find-add_all k (add out m) ms ∙ ap (λ o. joined_all k o ms) (find-add k out m)

or_assoc : (a b c : Bool) → ((a || b) || c) ≡ (a || (b || c))
or_assoc true b c = refl
or_assoc false b c = refl

joined_some :
    (k : Bytes) (o : Match) (ms : List Match)
    → joined_all k (some o) ms
      ≡ some (record o { closing = o.closing || any (λ n. is_key k n && n.closing) ms })
joined_some k o [] = ground arith
joined_some k o (m ∷ ms) = elim (Bool-cases (same_bytes m.key k)) [
  | inl y ↦ rw y (
      joined_some k (record o { closing = o.closing || m.closing }) ms
      ∙ ap (λ c. some (record o { closing = c })) (or_assoc o.closing m.closing _))
  | inr n ↦ rw n (joined_some k o ms)
]

joined_none : (k : Bytes) (ms : List Match) → joined_all k none ms ≡ merged k ms
joined_none k [] = refl
joined_none k (m ∷ ms) = elim (Bool-cases (same_bytes m.key k)) [
  | inl y ↦ rw (merged, y) (joined_some k m ms)
  | inr n ↦ rw (merged, n) (joined_none k ms)
]

-- For each key, `find_matches` returns the first place where the key occurs, marked as closing exactly if
-- one of its occurrences is, and returns nothing for a key that does not occur.
pub find_matches-merged :
    (key_matches : Bytes → List (ℕ × ℕ)) (is_closing : Bytes → Bool) (to_upper : Bytes → Bytes)
    (branch_name title text k : Bytes)
    → find (is_key k) (find_matches key_matches is_closing to_upper branch_name title text)
      ≡ merged k (occurrences key_matches is_closing to_upper branch_name title text)
unfolding find_matches
find_matches-merged key_matches is_closing to_upper branch_name title text k =
    let all = occurrences key_matches is_closing to_upper branch_name title text in
    find-add_all k [] all ∙ joined_none k all
