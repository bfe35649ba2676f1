-- ===== src/Image/Png.antt =====
-- `pngChunk` and `stripPNG`. `checksum` is `crc32.ChecksumIEEE`.
use velvet.Common.{
  ℕ, zero, suc, ◌+◌, ◌-◌, ◌/◌, ◌%◌, Bool, true, false, not, ◌||◌, List, [], ◌∷◌, ◌++◌, ◌==◌, ltb,
  any, length, take, drop, if◌then◌else◌,
}
use velvet.Common.Text.{Bytes, codes, same_bytes}
use velvet.Image.{
  Result, ok, err, unfinished, invalid, ◌>>=◌, ◌>>◌, require, slice, uint, big, put_uint32_big,
  orientation, orientation_exif,
}

-- A chunk of the file: its kind, `chunk` and `payload` of the source, and what comes after it.
pub record Chunk : Type 0 where
  pub kind : Bytes
  pub whole : Bytes
  pub payload : Bytes
  pub rest : Bytes

abbrev pub is_in : List Bytes → Bytes → Bool
is_in kinds kind = any (same_bytes kind) kinds

abbrev pub kept_kinds : List Bytes
kept_kinds =
    codes "IHDR"
    ∷ codes "PLTE"
    ∷ codes "IDAT"
    ∷ codes "IEND"
    ∷ codes "tRNS"
    ∷ codes "cHRM"
    ∷ codes "gAMA"
    ∷ codes "iCCP"
    ∷ codes "sRGB"
    ∷ codes "sBIT"
    ∷ []

abbrev pub animated_kinds : List Bytes
animated_kinds = codes "acTL" ∷ codes "fcTL" ∷ codes "fdAT" ∷ []

-- kind[0]&32 == 0
abbrev pub is_critical : Bytes → Bool
is_critical [] = true
is_critical (b ∷ bs) = b / 32 % 2 == 0

module _ (checksum : Bytes → ℕ) where
  unfoldable pub png_chunk : Bytes → Bytes → Bytes
  png_chunk kind payload =
      put_uint32_big (length payload)
      ++ (kind ++ payload)
      ++ put_uint32_big (checksum (kind ++ payload))

  -- The chunk at `data[p:]` with `n` bytes of payload.
  unfoldable pub read_sized : Bytes → ℕ → Result Chunk
  read_sized rest n = do
    require (not (ltb (length rest - 12) n)) invalid
    let chunk = take (n + 12) rest
    require (checksum (slice chunk 4 (n + 8)) == uint big (drop (n + 8) chunk)) invalid
    ok (record {
      kind = slice rest 4 8;
      whole = chunk;
      payload = slice rest 8 (8 + n);
      rest = drop (n + 12) rest;
    })

  -- The checks at the head of the loop.
  unfoldable pub read_chunk : Bytes → Result Chunk
  unfolding read_sized
  read_chunk rest = do
    require (not (ltb (length rest) 12)) invalid
    read_sized rest (uint big (slice rest 0 4))

  unfoldable pub keep_orientation : Bool → Bytes → Result (Bytes × Bool)
  unfolding png_chunk
  keep_orientation seen payload = do
    require (not seen) invalid
    o ← orientation payload
    ok (if o == 0 then [] else png_chunk (codes "eXIf") (orientation_exif o), true)

  -- The `switch` on the kind: what is appended to `out`, and `seenOrientation` after it.
  unfoldable pub keep_chunk : Bool → Chunk → Result (Bytes × Bool)
  unfolding keep_orientation
  keep_chunk seen c =
      if is_in kept_kinds c.kind
      then ok (c.whole, seen)
      else if same_bytes c.kind (codes "eXIf")
      then keep_orientation seen c.payload
      else if is_in animated_kinds c.kind || is_critical c.kind
      then err invalid
      else ok ([], seen)

  abbrev pub is_empty : Bytes → Bool
  is_empty [] = true
  is_empty (b ∷ bs) = false

  abbrev pub is_last : Chunk → Bool
  is_last c = same_bytes c.kind (codes "IEND")

  abbrev pub finish : Bytes → Bytes → Result Bytes
  finish rest out = require (is_empty rest) invalid >> ok out

  -- The rounds that are left, `data[p:]`, `seenOrientation` and `out`.
  unfoldable pub png_loop : ℕ → Bytes → Bool → Bytes → Result Bytes
  unfolding read_chunk keep_chunk
  png_loop zero rest seen out = unfinished
  png_loop (suc rounds) [] seen out = err invalid
  png_loop (suc rounds) (b ∷ bs) seen out = do
    c ← read_chunk (b ∷ bs)
    r ← keep_chunk seen c
    if is_last c then finish c.rest (out ++ r.0) else png_loop rounds c.rest r.1 (out ++ r.0)

  -- A round takes 12 bytes at least, so that one round for each byte is enough.
  unfoldable pub strip_png : Bytes → Result Bytes
  unfolding png_loop
  strip_png content = do
    require (not (ltb (length content) 8)) invalid
    png_loop (suc (length content)) (drop 8 content) false (take 8 content)
