-- ===== src/Image/Sanitize.antt =====
-- `SanitizeContext`. `Decoder` holds `image.DecodeConfig` and `image.Decode` of Go's library, with
-- the decoders that the file registers, and the checksum of crc32.
use velvet.Common.{
  ℕ, ◌*◌, Bool, not, ◌||◌, ◌&&◌, Option, none, some, ◌==◌, ltb, leb, length, if◌then◌else◌,
}
use velvet.Common.Text.{Bytes}
use velvet.Image.{
  Result, ok, err, invalid, limit, busy, cancelled, ◌>>=◌, ◌>>◌, require, max_bytes, max_pixels,
}
use velvet.Image.Png.{strip_png}
use velvet.Image.Jpeg.{strip_jpeg}
use velvet.Image.Webp.{strip_webp}

-- `other`: a format that another package registers.
pub data Format : Type 0 where
  png jpeg webp other : Format

pub record Config : Type 0 where
  pub width : ℕ
  pub height : ℕ
  pub format : Format

pub record Decoder : Type 0 where
  pub decode_config : Bytes → Option Config
  pub decode : Bytes → Option (ℕ × ℕ)
  pub checksum : Bytes → ℕ

-- The content type is "image/" and the format.
pub record Picture : Type 0 where
  pub content : Bytes
  pub format : Format
  pub width : ℕ
  pub height : ℕ

abbrev pub decoded : {A : Type 0} → Option A → Result A
decoded none = err invalid
decoded (some a) = ok a

module _ (d : Decoder) where
  abbrev pub frame_size : Bytes → Option (ℕ × ℕ)
  frame_size frame = elim (d.decode_config frame) [
    | none ↦ none
    | some c ↦ some (c.width, c.height)
  ]

  unfoldable pub strip : Format → Bytes → Result Bytes
  strip png content = strip_png d.checksum content
  strip jpeg content = strip_jpeg content
  strip webp content = strip_webp frame_size content
  strip other content = err invalid

  -- After the slot was taken. The sizes that Go's decoder reports are not negative.
  unfoldable pub sanitize : Bytes → Result Picture
  sanitize content = do
    require (not (ltb max_bytes (length content))) limit
    cfg ← decoded (d.decode_config content)
    require (not (cfg.width == 0 || (cfg.height == 0 || ltb max_pixels (cfg.width * cfg.height))))
        limit
    out ← strip cfg.format content
    require (not (ltb max_bytes (length out))) limit
    (width, height) ← decoded (d.decode out)
    require (width == cfg.width && height == cfg.height) invalid
    ok (record { content = out; format = cfg.format; width = cfg.width; height = cfg.height })

  -- `taken` counts the slots of `decodeSlots` that others hold, and `stopped` says whether the context
  -- was cancelled. The slot is given back when the call ends.
  unfoldable pub sanitize_context : Bool → ℕ → Bytes → Result Picture
  unfolding sanitize
  sanitize_context stopped taken content =
      if stopped then err cancelled else if leb 2 taken then err busy else sanitize content
