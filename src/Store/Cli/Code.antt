-- ===== src/Store/Cli/Code.antt =====
-- The code that a person reads off the terminal finds the sign-in that it was made for.
use Prim.Native.String.{String}
use mathlib.Core.List.{map}
use velvet.Common.{
  ℕ, zero, suc, ◌+◌, ◌%◌, ◌<◌, ◌≡◌, refl, sym, ap, subst, ◌∙◌, none, some, Bool, true, false, List,
  [], ◌∷◌, ◌++◌, ◌==◌, arith, any, find, select, take, drop, length, get_elem?, get_or, Bool-cases,
  Option-cases, inl, inr, All, ==_refl,
}
use velvet.Common.In.{All-each, any-In, find-append}
use velvet.Common.Text.{Bytes, same_bytes_refl, same_bytes_comm}
use velvet.Store.Db.{Db, CliSession, CliFlow, pending}
use velvet.Store.Tx.{Result, ok, err, duplicate, ◌>>=◌}
use velvet.Store.Library.{Library}
use velvet.Store.Cli
use velvet.Store.Cli.{in_alphabet, letter, cli_user_code_alphabet}
use velvet.Store.Cli.Starts.{insert_cli_session-ensures, row_of, mid_of}

get_or-All :
    (P : ℕ → Type 0) (xs : Bytes) (i d : ℕ)
    → All P xs
    → i < length xs
    → P (get_or (get_elem? xs i) d)
get_or-All P [] i d h lt = absurd (omega arith)
get_or-All P (x ∷ xs) zero d h lt = h.0
get_or-All P (x ∷ xs) (suc i) d h lt = get_or-All P xs i d h.1 (omega arith)

take-drop : (n : ℕ) (xs : Bytes) → take n xs ++ drop n xs ≡ xs
take-drop zero xs = refl
take-drop (suc n) [] = refl
take-drop (suc n) (x ∷ xs) = ap (λ rest. x ∷ rest) (take-drop n xs)

All-take : (P : ℕ → Type 0) (n : ℕ) (xs : Bytes) → All P xs → All P (take n xs)
All-take P zero xs h = tt
All-take P (suc n) [] h = tt
All-take P (suc n) (x ∷ xs) h = (h.0, All-take P n xs h.1)

All-drop : (P : ℕ → Type 0) (n : ℕ) (xs : Bytes) → All P xs → All P (drop n xs)
All-drop P zero xs h = h
All-drop P (suc n) [] h = tt
All-drop P (suc n) (x ∷ xs) h = All-drop P n xs h.1

-- What the codes need of `unicode.ToUpper`: the letters of the alphabet are upper case, and the
-- hyphen is not made a letter.
pub record KeepsLetters (lib : Library) : Type 0 where
  pub letters : All (λ c. lib.upper_rune c ≡ c) cli_user_code_alphabet
  pub hyphen : in_alphabet (lib.upper_rune b'-') ≡ false

module _ (lib : Library) (k : KeepsLetters lib) where
  abbrev IsLetter : ℕ → Type 0
  IsLetter c = (lib.upper_rune c ≡ c) × (in_alphabet c ≡ true)

  letter-IsLetter : (b : ℕ) → IsLetter (letter b)
  letter-IsLetter b = (
    get_or-All (λ c. lib.upper_rune c ≡ c) cli_user_code_alphabet (b % 31) 0 k.letters
        (omega arith),
    get_or-All (λ c. in_alphabet c ≡ true) cli_user_code_alphabet (b % 31) 0
        (All-each _ cli_user_code_alphabet
          λ c i. any-In (λ a. a == c) cli_user_code_alphabet i (==_refl c))
        (omega arith),
  )

  map-letter : (raw : Bytes) → All IsLetter (map letter raw)
  map-letter [] = tt
  map-letter (b ∷ raw) = (letter-IsLetter b, map-letter raw)

  normalized : (xs : Bytes) → All IsLetter xs → select in_alphabet (map lib.upper_rune xs) ≡ xs
  normalized [] h = refl
  normalized (x ∷ xs) h = rw (h.0.0, h.0.1) (ap (λ rest. x ∷ rest) (normalized xs h.1))

  normalized_hyphen :
      (xs ys : Bytes)
      → All IsLetter xs
      → All IsLetter ys
      → select in_alphabet (map lib.upper_rune (xs ++ b'-' ∷ ys)) ≡ xs ++ ys
  normalized_hyphen [] ys h g = rw k.hyphen (normalized ys g)
  normalized_hyphen (x ∷ xs) ys h g =
      rw (h.0.0, h.0.1) (ap (λ rest. x ∷ rest) (normalized_hyphen xs ys h.1 g))

  -- A code, as it is displayed, reads back as the code.
  normalize_user_code-format_user_code :
      (code : Bytes)
      → All IsLetter code
      → Cli.normalize_user_code lib (Cli.format_user_code code) ≡ code
  unfolding Cli.normalize_user_code Cli.format_user_code
  normalize_user_code-format_user_code code h = elim (Bool-cases (length code == 8)) [
    | inl e ↦
        rw (Cli.format_user_code, e)
          (normalized_hyphen (take 4 code) (drop 4 code) (All-take _ 4 code h) (All-drop _ 4 code h)
            ∙ take-drop 4 code)
    | inr e ↦ rw (Cli.format_user_code, e) (normalized code h)
  ]

-- A sign-in that was just allocated.
record Made (row : CliSession) (db db' : Db) : Type 0 where
  raw : Bytes
  code : row.user_code ≡ map letter raw
  waits : row.status ≡ pending
  expires : row.expires_at ≡ db.now + 600
  free : any (Cli.same_key row) db.cli_sessions ≡ false
  rows : db'.cli_sessions ≡ db.cli_sessions ++ row ∷ []
  time : db'.now ≡ db.now

module _ (device_hash client_name : String) (flow : CliFlow) where
  attempted-Made :
      (db : Db) (r : Result (Unit {0} × Db)) (rest : Result CliSession × Db) {row : CliSession}
      {db' : Db}
      → Cli.insert_cli_session
          (row_of device_hash client_name flow db)
          (mid_of device_hash client_name flow db)
        ≡ r
      → (rest ≡ (ok row, db') → Made row db db')
      → Cli.attempted
          (row_of device_hash client_name flow db)
          (mid_of device_hash client_name flow db)
          r
          rest
        ≡ (ok row, db')
      → Made row db db'
  unfolding Cli.new_user_code Cli.new_session
  attempted-Made db (ok (u, after)) rest {row} {db'} e g h =
      let (free, same) =
        (insert_cli_session-ensures (row_of device_hash client_name flow db)
            (mid_of device_hash client_name flow db)).at
          u after e in
      let made : Made (row_of device_hash client_name flow db) db after = record {
        raw = db.random_at db.randoms 8;
        code = refl;
        waits = refl;
        expires = refl;
        free = free;
        rows = ap (λ (d : Db). d.cli_sessions) same;
        time = ap (λ (d : Db). d.now) same;
      } in
      let answered = ap (λ (p : Result CliSession × Db). p.0) h in
      let same_row : row_of device_hash client_name flow db ≡ row = cc in
      subst (λ (d : Db). Made row db d) (ap (λ (p : Result CliSession × Db). p.1) h)
        (subst (λ r. Made r db after) same_row made)
  attempted-Made db (err duplicate) rest e g h = g h
  attempted-Made db (err e') rest e g h =
      let wrong = ap (λ (p : Result CliSession × Db). p.0) h in cc

  allocate-Made :
      (left : ℕ) (db : Db) {row : CliSession} {db' : Db}
      → Cli.allocate left device_hash client_name flow db ≡ (ok row, db')
      → Made row db db'
  unfolding Cli.allocate Cli.new_user_code
  allocate-Made zero db h = let wrong = ap (λ (p : Result CliSession × Db). p.0) h in cc
  allocate-Made (suc left) db h =
      attempted-Made db _ _ refl
        (λ e.
          let m = allocate-Made left (mid_of device_hash client_name flow db) e in
          record {
            raw = m.raw;
            code = m.code;
            waits = m.waits;
            expires = m.expires;
            free = m.free;
            rows = m.rows;
            time = m.time;
          })
        h

find-free :
    (p q : CliSession → Bool) (rows : List CliSession)
    → any q rows ≡ false
    → ((s : CliSession) → q s ≡ false → p s ≡ false)
    → find p rows ≡ none
find-free p q [] h k = refl
find-free p q (s ∷ rows) h k =
    let rest = find-free p q rows (ground arith) k in let this = k s (ground arith) in ground arith

-- A code of a new row is found in the table.
find-Made :
    (row : CliSession) (db db' : Db)
    → Made row db db'
    → find (Cli.is_open_code row.user_code db'.now) db'.cli_sessions ≡ some row
find-Made row db db' m =
    let opens : Cli.is_open_code row.user_code db'.now row ≡ true =
      ground (arith, same_bytes_refl row.user_code, m.waits, m.expires, m.time) in
    let older : find (Cli.is_open_code row.user_code db'.now) db.cli_sessions ≡ none =
      find-free _ (Cli.same_key row) db.cli_sessions m.free
        (λ s apart. let swap = same_bytes_comm row.user_code s.user_code in ground arith) in
    rw m.rows (
      find-append (Cli.is_open_code row.user_code db'.now) db.cli_sessions row
      ∙ (rw (older, opens) refl))

with_device_ok :
    (device : String) (r : Result CliSession × Db) {out : String × CliSession} {db' : Db}
    → Cli.with_device device r ≡ (ok out, db')
    → (out.0 ≡ device) × (r ≡ (ok out.1, db'))
with_device_ok device (ok s, db) {out} {db'} h =
    let answered = ap (λ (p : Result (String × CliSession) × Db). p.0) h in
    let pair : (device, s) ≡ out = cc in
    (
      ap (λ (p : String × CliSession). p.0) (sym pair),
      (λ i. (
        ok (ap (λ (p : String × CliSession). p.1) pair i),
        ap (λ (p : Result (String × CliSession) × Db). p.1) h i,
      )),
    )
with_device_ok device (err e, db) h =
    let wrong = ap (λ (p : Result (String × CliSession) × Db). p.0) h in cc

-- The code that a start displays opens the sign-in it started.
pub create_cli_session_for_flow-cli_session_by_code :
    (lib : Library)
    → KeepsLetters lib
    → (client_name flow : String) (db : Db) {out : String × CliSession} {db' : Db}
    → Cli.create_cli_session_for_flow lib client_name flow db ≡ (ok out, db')
    → Cli.cli_session_by_code lib (Cli.format_user_code out.1.user_code) db' ≡ ok (out.1, db')
unfolding Cli.create_cli_session_for_flow Cli.cli_session_by_code ◌>>=◌
create_cli_session_for_flow-cli_session_by_code lib k client_name flow db {out} {db'} h =
    elim (Option-cases (Cli.flow_of flow)) [
      | inl e ↦
          let wrong =
            ap (λ (p : Result (String × CliSession) × Db). p.0)
              (rw (Cli.create_cli_session_for_flow, e) at h) in
          cc
      | inr (f, e) ↦
          let (_, made) =
            with_device_ok _ _ {out = out} {db' = db'}
              (rw (Cli.create_cli_session_for_flow, e) at h) in
          let m = allocate-Made _ _ f 5 _ made in
          let back : Cli.normalize_user_code lib (Cli.format_user_code out.1.user_code)
              ≡ out.1.user_code =
            normalize_user_code-format_user_code lib k out.1.user_code
              (subst (All (IsLetter lib k)) (sym m.code) (map-letter lib k m.raw)) in
          rw back (rw (find-Made out.1 _ db' m) refl)
    ]
