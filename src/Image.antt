-- ===== src/Image.antt =====
-- api/internal/imageupload/image.go: bytes and numbers in them, and the orientation of a picture.
-- A slice `data[a:b]` is `slice data a b`; a loop over `data[p:]` has that rest as its argument.
pub mod Png
pub mod Jpeg
pub mod Webp
pub mod Sanitize
pub mod Returns
pub mod Oriented
pub mod Slices
pub mod Chunks
pub mod Kept
pub mod Resume
pub mod Again
pub mod Ends
pub mod Sound
mod Tests
use velvet.Common.{
  ℕ, zero, suc, ◌+◌, ◌-◌, ◌*◌, ◌/◌, ◌%◌, ◌^◌, Bool, true, false, not, ◌||◌, [], ◌∷◌, ◌++◌, ◌==◌,
  ltb, length, take, drop, if◌then◌else◌,
}
use velvet.Common.Text.{Bytes, codes, same_bytes}

-- `cancelled` is the error of a context that was cancelled.
pub data Error : Type 0 where
  invalid limit busy cancelled : Error

-- `unfinished`: the rounds that a loop was given are used up.
pub data Result (A : Type 0) : Type 0 where
  ok : A → Result A
  err : Error → Result A
  unfinished : Result A

-- `if !test { return e }`
unfoldable pub require : Bool → Error → Result (Unit {0})
require true e = ok tt
require false e = err e

infixl 5 ◌>>=◌ ◌>>◌
-- To open this is to open `require`.
unfoldable pub ◌>>=◌ : {A B : Type 0} → Result A → (A → Result B) → Result B
unfolding require
ok a >>= f = f a
err e >>= f = err e
unfinished >>= f = unfinished

abbrev pub ◌>>◌ : {A B : Type 0} → Result A → Result B → Result B
m >> k = m >>= λ _. k

abbrev pub max_bytes : ℕ
max_bytes = 10 * 2 ^ 20

abbrev pub max_pixels : ℕ
max_pixels = 20000000

abbrev pub slice : Bytes → ℕ → ℕ → Bytes
slice data' a b = take (b - a) (drop a data')

abbrev pub has_prefix : Bytes → Bytes → Bool
has_prefix data' prefix = same_bytes (take (length prefix) data') prefix

pub data ByteOrder : Type 0 where
  little big : ByteOrder

abbrev pub little_endian : Bytes → ℕ
little_endian [] = 0
little_endian (b ∷ bs) = b + 256 * little_endian bs

abbrev pub big_endian : ℕ → Bytes → ℕ
big_endian acc [] = acc
big_endian acc (b ∷ bs) = big_endian (acc * 256 + b) bs

-- `order.Uint16` and `order.Uint32`
abbrev pub uint : ByteOrder → Bytes → ℕ
uint little bs = little_endian bs
uint big bs = big_endian 0 bs

abbrev pub put_uint32_little : ℕ → Bytes
put_uint32_little n = (n % 256) ∷ (n / 256 % 256) ∷ (n / 65536 % 256) ∷ (n / 16777216 % 256) ∷ []

abbrev pub put_uint32_big : ℕ → Bytes
put_uint32_big n = (n / 16777216 % 256) ∷ (n / 65536 % 256) ∷ (n / 256 % 256) ∷ (n % 256) ∷ []

-- The entry with tag 0x112, the only one that is read.
unfoldable pub take_orientation : ByteOrder → Bytes → ℕ → Result ℕ
take_orientation order tag result = do
  require
      (not (
        not (result == 0)
        || (not (uint order (slice tag 2 4) == 3) || not (uint order (slice tag 4 8) == 1))))
      invalid
  let value = uint order (slice tag 8 10)
  require (not (ltb value 1 || ltb 8 value)) invalid
  ok value

abbrev pub is_orientation : ByteOrder → Bytes → Bool
is_orientation order tag = uint order (slice tag 0 2) == 0x112

-- One round of the loop of `orientation`, at the 12 bytes of an entry.
unfoldable pub read_entry : ByteOrder → Bytes → ℕ → Result ℕ
unfolding take_orientation
read_entry order tag result =
    if is_orientation order tag then take_orientation order tag result else ok result

-- The rounds that are left, the place of the next entry, and the result so far.
unfoldable pub read_entries : ByteOrder → Bytes → ℕ → ℕ → ℕ → Result ℕ
unfolding read_entry
read_entries order exif zero p result = ok result
read_entries order exif (suc rounds) p result =
    read_entry order (slice exif p (p + 12)) result >>= λ next.
    read_entries order exif rounds (p + 12) next

abbrev pub exif_header : Bytes
exif_header = codes "Exif" ++ 0 ∷ 0 ∷ []

abbrev pub order_of : Bool → Bool → Result ByteOrder
order_of true b = ok little
order_of false true = ok big
order_of false false = err invalid

unfoldable pub byte_order : Bytes → Result ByteOrder
byte_order mark = order_of (same_bytes mark (codes "II")) (same_bytes mark (codes "MM"))

-- After `exif = exif[6:]`.
unfoldable pub read_tiff : Bytes → Result ℕ
unfolding read_entries byte_order
read_tiff exif = do
  require (not (ltb (length exif) 8)) invalid
  order ← byte_order (slice exif 0 2)
  require (uint order (slice exif 2 4) == 42) invalid
  let offset = uint order (slice exif 4 8)
  require (not (ltb (length exif) (offset + 2))) invalid
  let n = uint order (slice exif offset (offset + 2))
  require (not (ltb (length exif) (offset + 2 + n * 12 + 4))) invalid
  read_entries order exif n (offset + 2) 0

unfoldable pub orientation : Bytes → Result ℕ
unfolding read_tiff
orientation exif = read_tiff (if has_prefix exif exif_header then drop 6 exif else exif)

unfoldable pub orientation_exif : ℕ → Bytes
orientation_exif o =
    b'I'
    ∷ b'I'
    ∷ 42
    ∷ 0
    ∷ 8
    ∷ 0
    ∷ 0
    ∷ 0
    ∷ 1
    ∷ 0
    ∷ 0x12
    ∷ 1
    ∷ 3
    ∷ 0
    ∷ 1
    ∷ 0
    ∷ 0
    ∷ 0
    ∷ (o % 256)
    ∷ (o / 256 % 256)
    ∷ 0
    ∷ 0
    ∷ 0
    ∷ 0
    ∷ 0
    ∷ 0
    ∷ []
