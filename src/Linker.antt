-- ===== src/Linker.antt =====
-- api/internal/linker/linker.go: the issue keys that a pull request refers to.
-- The regular expressions and `strings.ToUpper` are parameters: `key_matches` is
-- `keyRe.FindAllStringIndex`, and `is_closing` is `closingWords.MatchString`.
pub mod Lookup
mod Tests
use velvet.Common.{
  ℕ, ◌-◌, Bool, true, false, ◌||◌, ◌&&◌, List, [], ◌∷◌, ◌++◌, ◌==◌, take, drop, if◌then◌else◌,
}
use velvet.Common.Text.{Bytes, same_bytes}

pub data Source : Type 0 where
  branch body : Source

pub record Match : Type 0 where
  pub key : Bytes
  pub source : Source
  pub closing : Bool

-- `add`: `index` holds the place of each key in `out`. A closing keyword anywhere wins, but the
-- first source stands.
unfoldable pub add : List Match → Match → List Match
add [] m = m ∷ []
add (o ∷ out) m =
    let rest = add out m in
    if same_bytes o.key m.key
    then (record o { closing = o.closing || m.closing }) ∷ out
    else o ∷ rest

unfoldable pub add_all : List Match → List Match → List Match
add_all out [] = out
add_all out (m ∷ ms) = add_all (add out m) ms

-- `text[from:to]`
abbrev pub slice : Bytes → ℕ → ℕ → Bytes
slice text from to = take (to - from) (drop from text)

module _ (key_matches : Bytes → List (ℕ × ℕ)) (is_closing : Bytes → Bool)
    (to_upper : Bytes → Bytes) where
  abbrev in_branch : Bytes → List (ℕ × ℕ) → List Match
  in_branch text [] = []
  in_branch text (m ∷ ms) =
      (record { key = to_upper (slice text m.0 m.1); source = Source.branch; closing = false })
      ∷ in_branch text ms

  abbrev in_text : Bytes → List (ℕ × ℕ) → List Match
  in_text text [] = []
  in_text text (m ∷ ms) =
      (record {
        key = to_upper (slice text m.0 m.1);
        source = Source.body;
        closing = is_closing (take m.0 text);
      })
      ∷ in_text text ms

  -- The calls of `add` that the loops make, in their order.
  abbrev pub occurrences : Bytes → Bytes → Bytes → List Match
  occurrences branch_name title text =
      in_branch branch_name (key_matches branch_name)
      ++ (in_text title (key_matches title) ++ in_text text (key_matches text))

  unfoldable pub find_matches : Bytes → Bytes → Bytes → List Match
  find_matches branch_name title text = add_all [] (occurrences branch_name title text)
