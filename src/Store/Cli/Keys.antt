-- ===== src/Store/Cli/Keys.antt =====
-- The keys of the table of sign-ins, and what the operations do to the status of a device.
use Prim.Native.String.{String}
use text.Mathlib.TextEquality.{eq_iff}
use velvet.Common.{
  ◌≡◌, refl, sym, ap, ◌∙◌, Option, none, some, Bool, true, false, List, [], ◌∷◌, ◌++◌, arith, any,
  find, select, update, if◌then◌else◌, Bool-cases, inl, inr, All-map,
}
use velvet.Common.In.{In, All-at, All-each}
use velvet.Common.Pairs.{Pairs, Pairs-change, Pairs-append, Pairs-select, All-any}
use velvet.Common.Text.{same_bytes_comm}
use velvet.Store.Db.{CliSession, CliStatus}
use velvet.Store.Cli.{same_key}
use velvet.Store.Cli.Collect.{is_device}

-- Rows that share a key are the same row.
abbrev pub Keyed : List CliSession → Type 0
Keyed rows = Pairs (λ s t. same_key s t ≡ true → s ≡ t) rows

-- A change of a row that is not a change of its keys.
pub record Keeps (f : CliSession → CliSession) : Type 0 where
  pub id : (s : CliSession) → (f s).id ≡ s.id
  pub device : (s : CliSession) → (f s).device_hash ≡ s.device_hash
  pub code : (s : CliSession) → (f s).user_code ≡ s.user_code

module _ (p : CliSession → Bool) (f : CliSession → CliSession) (k : Keeps f) where
  abbrev pub changed : CliSession → CliSession
  changed s = if p s then f s else s

  changed-Keeps : Keeps changed
  changed-Keeps = record {
    id = λ s. elim (Bool-cases (p s)) [ inl e ↦ rw e (k.id s) | inr e ↦ rw e refl ];
    device = λ s. elim (Bool-cases (p s)) [ inl e ↦ rw e (k.device s) | inr e ↦ rw e refl ];
    code = λ s. elim (Bool-cases (p s)) [ inl e ↦ rw e (k.code s) | inr e ↦ rw e refl ];
  }

  same_key-changed : (s t : CliSession) → same_key (changed s) (changed t) ≡ same_key s t
  same_key-changed s t =
      let c = changed-Keeps in simp (c.id s, c.id t, c.device s, c.device t, c.code s, c.code t)

  pub update-Keyed : (rows : List CliSession) → Keyed rows → Keyed (update p f rows)
  update-Keyed rows h =
      Pairs-change (λ s t. same_key s t ≡ true → s ≡ t) (λ _. Unit {0}) p f rows
        (λ s t _ _ same e. ap changed (same (sym (same_key-changed s t) ∙ e)))
        (All-each _ rows (λ _ _. tt)) h

pub select-Keyed :
    (q : CliSession → Bool) (rows : List CliSession) → Keyed rows → Keyed (select q rows)
select-Keyed q rows h = Pairs-select _ q rows h

same_key_comm : (s t : CliSession) → same_key s t ≡ same_key t s
same_key_comm s t = ground (
  arith,
  eq_iff s.device_hash t.device_hash,
  eq_iff t.device_hash s.device_hash,
  same_bytes_comm s.user_code t.user_code,
)

pub append-Keyed :
    (rows : List CliSession) (row : CliSession)
    → any (same_key row) rows ≡ false
    → Keyed rows
    → Keyed (rows ++ row ∷ [])
append-Keyed rows row free h =
    Pairs-append _ rows row h
      (All-map _ _ rows
        (λ s apart same. let wrong = sym apart ∙ same_key_comm row s ∙ same in cc wrong)
        (All-any (same_key row) rows free))
      (All-map _ _ rows (λ s apart same. let wrong = sym apart ∙ same in cc wrong)
        (All-any (same_key row) rows free))
      (λ _. refl)

pub Keyed-at :
    (rows : List CliSession)
    → Keyed rows
    → (s t : CliSession) → In s rows
    → In t rows
    → same_key s t ≡ true
    → s ≡ t
Keyed-at rows h s t i j = All-at _ rows (All-at _ rows h i) j

pub device-same_key :
    (d : String) (s t : CliSession)
    → is_device d s ≡ true
    → is_device d t ≡ true
    → same_key s t ≡ true
device-same_key d s t y z =
    ground
      (arith, eq_iff s.device_hash d, eq_iff t.device_hash d, eq_iff s.device_hash t.device_hash)

-- What the tables say of a device.
abbrev pub status_in : Option CliSession → Option CliStatus
status_in none = none
status_in (some s) = some s.status

unfoldable pub status_of : String → List CliSession → Option CliStatus
status_of d rows = status_in (find (is_device d) rows)
