-- ===== src/Image/Webp.antt =====
-- `riffChunk` and `stripWebP`. `config` is `image.DecodeConfig`, of which `stripWebP` uses the size.
use velvet.Common.{
  ℕ, zero, suc, ◌+◌, ◌-◌, ◌*◌, ◌/◌, ◌%◌, Bool, true, false, not, ◌||◌, ◌&&◌, Option, none, some,
  is_some, [], ◌∷◌, ◌++◌, ◌==◌, ltb, length, take, drop, if◌then◌else◌,
}
use velvet.Common.Text.{Bytes, codes, same_bytes}
use velvet.Image.{
  Result, ok, err, unfinished, invalid, limit, ◌>>=◌, ◌>>◌, require, max_pixels, slice, uint,
  little, put_uint32_little, orientation, orientation_exif,
}
use velvet.Image.Png.{is_in}

-- The variables of the loop; the place of `VP8X` in `out` is `none` for -1.
pub record State : Type 0 where
  pub out : Bytes
  pub vp8x : Option ℕ
  pub has_exif : Bool
  pub seen_exif : Bool
  pub frames : ℕ
  pub canvas : ℕ × ℕ
  pub frame : ℕ × ℕ

abbrev pub byte_at : Bytes → ℕ → ℕ
byte_at [] i = 0
byte_at (b ∷ bs) zero = b
byte_at (b ∷ bs) (suc i) = byte_at bs i

abbrev pub change_at : ℕ → (ℕ → ℕ) → Bytes → Bytes
change_at i f [] = []
change_at zero f (b ∷ bs) = f b ∷ bs
change_at (suc i) f (b ∷ bs) = b ∷ change_at i f bs

-- b & ^(8|4), and b | 8
abbrev pub clear_flags : ℕ → ℕ
clear_flags b = b - b / 4 % 4 * 4

abbrev pub set_exif_flag : ℕ → ℕ
set_exif_flag b = if b / 8 % 2 == 0 then b + 8 else b

-- binary.LittleEndian.PutUint32(out[4:8], uint32(len(out)-8))
abbrev pub put_size : Bytes → Bytes
put_size out = take 4 out ++ (put_uint32_little (length out - 8) ++ drop 8 out)

unfoldable pub riff_chunk : Bytes → Bytes → Bytes
riff_chunk kind payload =
    kind
    ++ (put_uint32_little (length payload)
        ++ (payload ++ (if length payload % 2 == 0 then [] else 0 ∷ [])))

abbrev pub uint24 : Bytes → ℕ → ℕ
uint24 payload i =
    byte_at payload i + byte_at payload (i + 1) * 256 + byte_at payload (i + 2) * 65536

-- payload[0]&0xc3 == 0 and the next three bytes are 0
abbrev pub has_plain_flags : Bytes → Bool
has_plain_flags payload =
    byte_at payload 0 % 4 == 0
    && byte_at payload 0 / 64 % 4 == 0
    && (byte_at payload 1 == 0 && (byte_at payload 2 == 0 && byte_at payload 3 == 0))

abbrev pub fits : ℕ × ℕ → Bool
fits (width, height) = not (ltb max_pixels (width * height))

abbrev pub size_of : Option (ℕ × ℕ) → Result (ℕ × ℕ)
size_of none = err invalid
size_of (some size) = ok size

unfoldable pub take_canvas : ℕ → Bytes → Bytes → State → Result State
take_canvas p payload whole s = do
  require (length payload == 10 && (not (is_some s.vp8x) && (p == 12 && has_plain_flags payload)))
      invalid
  let canvas : ℕ × ℕ = (1 + uint24 payload 4, 1 + uint24 payload 7)
  require (fits canvas) limit
  ok (record s {
    vp8x = some (length s.out + 8);
    canvas = canvas;
    out = change_at (length s.out + 8) clear_flags (s.out ++ whole);
  })

unfoldable pub take_exif : Bytes → State → Result State
unfolding riff_chunk
take_exif payload s = do
  require (not s.seen_exif) invalid
  o ← orientation payload
  ok (
      if o == 0 then record s { seen_exif = true } else record s {
        seen_exif = true;
        has_exif = true;
        out = s.out ++ riff_chunk (codes "EXIF") (orientation_exif o);
      })

abbrev pub same_size : ℕ × ℕ → ℕ × ℕ → Bool
same_size (w, h) (w', h') = w == w' && h == h'

-- `if hasEXIF { ... }`
abbrev pub flagged : Bool → Option ℕ → Bytes → Result Bytes
flagged false place out = ok out
flagged true none out = err invalid
flagged true (some i) out = ok (change_at i set_exif_flag out)

abbrev pub starts_riff : Bytes → Bool
starts_riff content =
    not (ltb (length content) 12)
    && (same_bytes (take 4 content) (codes "RIFF")
        && (same_bytes (slice content 8 12) (codes "WEBP")
            && uint little (slice content 4 8) + 8 == length content))

module _ (config : Bytes → Option (ℕ × ℕ)) where
  -- `header` is `data[:12]`.
  unfoldable pub take_frame : Bytes → Bytes → State → Result State
  take_frame header whole s = do
    require (s.frames + 1 == 1) invalid
    size ← size_of (config (put_size (header ++ whole)))
    require (fits size) limit
    ok (record s { frames = s.frames + 1; frame = size; out = s.out ++ whole })

  -- The `switch` on the kind.
  unfoldable pub take_chunk : Bytes → ℕ → Bytes → Bytes → Bytes → State → Result State
  unfolding take_canvas take_frame take_exif
  take_chunk header p kind payload whole s =
      if same_bytes kind (codes "VP8X")
      then take_canvas p payload whole s
      else if is_in (codes "VP8 " ∷ codes "VP8L" ∷ []) kind
      then take_frame header whole s
      else if is_in (codes "ALPH" ∷ codes "ICCP" ∷ []) kind
      then ok (record s { out = s.out ++ whole })
      else if same_bytes kind (codes "EXIF")
      then take_exif payload s
      else if is_in (codes "ANIM" ∷ codes "ANMF" ∷ []) kind
      then err invalid
      else ok s

  -- The rounds that are left, `p` and `data[p:]`.
  unfoldable pub webp_loop : Bytes → ℕ → ℕ → Bytes → State → Result State
  unfolding take_chunk
  webp_loop header zero p rest s = unfinished
  webp_loop header (suc rounds) p [] s = ok s
  webp_loop header (suc rounds) p (b ∷ bs) s = do
    require (not (ltb (length (b ∷ bs)) 8)) invalid
    let n = uint little (slice (b ∷ bs) 4 8)
    require (not (ltb (length (b ∷ bs) - 8) n)) invalid
    let size = 8 + n + n % 2
    require (not (ltb (length (b ∷ bs)) size)) invalid
    s' ← take_chunk header p (take 4 (b ∷ bs)) (slice (b ∷ bs) 8 (8 + n)) (take size (b ∷ bs)) s
    webp_loop header rounds (p + size) (drop size (b ∷ bs)) s'

  unfoldable pub strip_webp : Bytes → Result Bytes
  unfolding webp_loop
  strip_webp content = do
    require (starts_riff content) invalid
    s ← webp_loop (take 12 content) (suc (length content)) 12 (drop 12 content) (record {
      out = take 12 content;
      vp8x = none;
      has_exif = false;
      seen_exif = false;
      frames = 0;
      canvas = (0, 0);
      frame = (0, 0);
    })
    require (s.frames == 1 && (not (is_some s.vp8x) || same_size s.canvas s.frame)) invalid
    out ← flagged s.has_exif s.vp8x s.out
    ok (put_size out)
