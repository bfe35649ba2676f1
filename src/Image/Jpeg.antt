-- ===== src/Image/Jpeg.antt =====
-- `stripJPEG`.
use velvet.Common.{
  ℕ, zero, suc, ◌+◌, ◌-◌, Option, none, some, Bool, true, false, not, ◌||◌, ◌&&◌, [], ◌∷◌, ◌++◌,
  ◌==◌, ltb, leb, length, take, drop, if◌then◌else◌,
}
use velvet.Common.Text.{Bytes, codes}
use velvet.Image.{
  Result, ok, err, unfinished, invalid, ◌>>=◌, ◌>>◌, require, slice, has_prefix, uint, big,
  exif_header, orientation, orientation_exif,
}

-- What stands at `data[p:]`: the end of the picture with what comes after it, or a segment with its
-- marker, its payload, its bytes `data[start:end]`, and what comes after it.
pub data Part : Type 0 where
  end_of_image : Bytes → Part
  segment : ℕ → Bytes → Bytes → Bytes → Part

-- `for p < len(data) && data[p] == 255 { p++ }`
abbrev pub skip_fill : Bytes → Bytes
skip_fill [] = []
skip_fill (b ∷ bs) = if b == 255 then skip_fill bs else b ∷ bs

abbrev pub is_restart : ℕ → Bool
is_restart marker = leb 208 marker && leb marker 215

-- `rest` is `data[start:]`, and `after` what comes after the marker.
unfoldable pub read_segment : Bytes → ℕ → Bytes → Result Part
read_segment rest marker after = if marker == 217 then ok (end_of_image after) else do
  require (not (marker == 0 || (marker == 216 || is_restart marker))) invalid
  require (not (ltb (length after) 2)) invalid
  let n = uint big (slice after 0 2)
  require (not (ltb n 2 || ltb (length after) n)) invalid
  ok (segment marker (slice after 2 n) (take (length rest - length after + n) rest) (drop n after))

abbrev pub read_marker : Bytes → Bytes → Result Part
read_marker rest [] = err invalid
read_marker rest (marker ∷ after) = read_segment rest marker after

unfoldable pub read_part : Bytes → Result Part
unfolding read_segment
read_part [] = err invalid
read_part (b ∷ bs) = require (b == 255) invalid >> read_marker (b ∷ bs) (skip_fill (b ∷ bs))

abbrev pub is_jfif : ℕ → Bytes → Bool
is_jfif marker payload = marker == 224 && has_prefix payload (codes "JFIF" ++ 0 ∷ [])

-- The density of JFIF, without its thumbnail.
unfoldable pub keep_density : Bytes → Result Bytes
keep_density payload = do
  require (not (ltb (length payload) 14)) invalid
  ok ((255 ∷ 224 ∷ 0 ∷ 16 ∷ []) ++ (take 12 payload ++ 0 ∷ 0 ∷ []))

unfoldable pub jfif_part : ℕ → Bytes → Result Bytes
unfolding keep_density
jfif_part marker payload = if is_jfif marker payload then keep_density payload else ok []

abbrev pub is_kept : ℕ → Bytes → Bool
is_kept marker payload =
    (ltb marker 224 || ltb 239 marker) && not (marker == 254)
    || (marker == 238 && has_prefix payload (codes "Adobe") && length payload == 12
        || marker == 226 && has_prefix payload (codes "ICC_PROFILE" ++ 0 ∷ []))

abbrev pub oriented_segment : ℕ → Bytes
oriented_segment o =
    (255 ∷ 225 ∷ 0 ∷ (length (exif_header ++ orientation_exif o) + 2) ∷ [])
    ++ (exif_header ++ orientation_exif o)

abbrev pub is_exif : ℕ → Bytes → Bool
is_exif marker payload = marker == 225 && has_prefix payload exif_header

unfoldable pub keep_exif : Bytes → Bool → Result (Bytes × Bool)
keep_exif payload seen = do
  require (not seen) invalid
  o ← orientation payload
  ok (if o == 0 then [] else oriented_segment o, true)

-- What is appended for the orientation, and `seenOrientation` after it.
unfoldable pub exif_part : ℕ → Bytes → Bool → Result (Bytes × Bool)
unfolding keep_exif
exif_part marker payload seen =
    if is_exif marker payload then keep_exif payload seen else ok ([], seen)

-- At a byte 255 of the scan; `after` is what follows the fill bytes. `none` ends the scan.
abbrev pub scan_marker : ℕ → Bytes → Bytes → Result (Option (Bytes × Bytes))
scan_marker b bs [] = err invalid
scan_marker b bs (q ∷ qs) =
    ok (
      if q == 0 || is_restart q then some (take (length bs - length qs + 1) (b ∷ bs), qs) else none)

-- One round: the bytes of the scan that it passes, and the rest.
unfoldable pub scan_step : ℕ → Bytes → Result (Option (Bytes × Bytes))
scan_step b bs = if b == 255 then scan_marker b bs (skip_fill bs) else ok (some (b ∷ [], bs))

abbrev pub scan_on :
    (Bytes → Bytes → Result (Bytes × Bytes))
    → Bytes
    → Bytes
    → Option (Bytes × Bytes)
    → Result (Bytes × Bytes)
scan_on loop scan rest none = ok (scan, rest)
scan_on loop scan rest (some (taken, after)) = loop (scan ++ taken) after

-- The scan after the marker 218: the bytes that belong to it, and the rest. The loop over fill bytes
-- is `skip_fill`. The first argument is the number of rounds that are left.
unfoldable pub scan_loop : ℕ → Bytes → Bytes → Result (Bytes × Bytes)
unfolding scan_step
scan_loop zero scan rest = unfinished
scan_loop (suc rounds) scan [] = ok (scan, [])
scan_loop (suc rounds) scan (b ∷ bs) =
    scan_step b bs >>= λ next. scan_on (scan_loop rounds) scan (b ∷ bs) next

abbrev pub scan_of : ℕ → Bytes → Result (Bytes × Bytes)
scan_of marker rest = if marker == 218 then scan_loop (suc (length rest)) [] rest else ok ([], rest)

abbrev pub is_empty : Bytes → Bool
is_empty [] = true
is_empty (b ∷ bs) = false

-- `data[p:]`, `seenOrientation` and `out` go on to the next round.
abbrev pub jpeg_on : (Bytes → Bool → Bytes → Result Bytes) → Bool → Bytes → Part → Result Bytes
jpeg_on loop seen out (end_of_image after) =
    require (is_empty after) invalid >> ok (out ++ 255 ∷ 217 ∷ [])
jpeg_on loop seen out (segment marker payload whole after) = do
  jfif ← jfif_part marker payload
  exif ← exif_part marker payload seen
  scan ← scan_of marker after
  let kept = if is_kept marker payload then whole else []
  loop scan.1 exif.1 (out ++ (jfif ++ (exif.0 ++ (kept ++ scan.0))))

-- The rounds that are left, `data[p:]`, `seenOrientation` and `out`.
unfoldable pub jpeg_loop : ℕ → Bytes → Bool → Bytes → Result Bytes
unfolding read_part jfif_part exif_part scan_loop
jpeg_loop zero rest seen out = unfinished
jpeg_loop (suc rounds) rest seen out =
    read_part rest >>= λ part. jpeg_on (jpeg_loop rounds) seen out part

abbrev pub starts_picture : Bytes → Bool
starts_picture content = not (ltb (length content) 4) && has_prefix content (255 ∷ 216 ∷ [])

unfoldable pub strip_jpeg : Bytes → Result Bytes
unfolding jpeg_loop
strip_jpeg content = do
  require (starts_picture content) invalid
  jpeg_loop (suc (length content)) (drop 2 content) false (255 ∷ 216 ∷ [])
