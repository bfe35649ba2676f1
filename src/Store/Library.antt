-- ===== src/Store/Library.antt =====
-- The functions of Go's standard library, and of the database, that the store calls.
use Prim.Native.String.{String}
use velvet.Common.{ℕ, Bool, Option, List}
use velvet.Common.Text.{Bytes}

pub record Library : Type 0 where
  -- sha256.Sum256
  pub sha256 : String → Bytes
  -- hex.EncodeToString and base64.RawURLEncoding.EncodeToString
  pub hex : Bytes → String
  pub base64 : Bytes → String
  -- strings.TrimSpace and strings.ToLower
  pub trim : String → String
  pub to_lower : String → String
  -- unicode.ToUpper
  pub upper_rune : ℕ → ℕ
  -- mail.ParseAddress gives back the same address
  pub is_mailbox : String → Bool
  -- netip.ParseAddr, Unmap and String
  pub canonical_ip : String → Option String
  -- `len` of a text, and the first eight characters of `uuid.String`
  pub byte_length : String → ℕ
  pub short_id : ℕ → String
  -- the functions lower and btrim of the database
  pub sql_lower : String → String
  pub btrim : String → String
  -- "%d", and the logins that `mentionRe` finds after `codeSpanRe` has cut the code out
  pub decimal : ℕ → String
  pub logins_in : String → List String
