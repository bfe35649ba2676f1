-- ===== src/Linker/Tests.antt =====
-- A pull request that names two issues, and the theorem about it.
use velvet.Common.{ℕ, Bool, ◌≡◌, refl, true, false, List, [], ◌∷◌, find}
use velvet.Common.Text.{Bytes, codes, same_bytes}
use velvet.Linker.{Source, add, add_all, occurrences, find_matches}
use velvet.Linker.Lookup.{is_key, merged, find_matches-merged}

-- The places of the keys in the three texts below.
abbrev places : Bytes → List (ℕ × ℕ)
places text = elim (same_bytes text (codes "eng-1-login")) [
  | true ↦ (0, 5) ∷ []
  | false ↦ elim (same_bytes text (codes "Fixes ENG-1 and ENG-2")) [
    | true ↦ (6, 11) ∷ (16, 21) ∷ []
    | false ↦ []
  ]
]

abbrev fixes : Bytes → Bool
fixes text = same_bytes text (codes "Fixes ")

-- Enough of `strings.ToUpper` for these texts.
abbrev upper : Bytes → Bytes
upper text = elim (same_bytes text (codes "eng-1")) [ true ↦ codes "ENG-1" | false ↦ text ]

-- The branch is the source of the first key, and the title closes it.
found :
    find_matches places fixes upper (codes "eng-1-login") (codes "Fixes ENG-1 and ENG-2") []
    ≡ (record { key = codes "ENG-1"; source = Source.branch; closing = true })
      ∷ (record { key = codes "ENG-2"; source = Source.body; closing = false })
      ∷ []
unfolding find_matches add add_all
found = refl

find_matches-merged_example :
    find
      (is_key (codes "ENG-1"))
      (find_matches places fixes upper (codes "eng-1-login") (codes "Fixes ENG-1 and ENG-2") [])
    ≡ merged
        (codes "ENG-1")
        (occurrences places fixes upper (codes "eng-1-login") (codes "Fixes ENG-1 and ENG-2") [])
find_matches-merged_example =
    find_matches-merged places fixes upper (codes "eng-1-login") (codes "Fixes ENG-1 and ENG-2") []
      (codes "ENG-1")
