-- ===== src/Image/Tests.antt =====
-- Small uploads, and the theorems about them.
use velvet.Common.{
  ℕ, ◌^◌, ◌<◌, ◌%◌, ◌≡◌, ◌≢◌, refl, false, some, [], ◌∷◌, ◌++◌, arith, take, length,
}
use velvet.Common.Text.{Bytes, codes}
use velvet.Image.{
  ok, err, unfinished, invalid, busy, ◌>>=◌, put_uint32_big, orientation, orientation_exif,
  exif_header,
}
use velvet.Image.Png.{strip_png}
use velvet.Image.Jpeg.{strip_jpeg, oriented_segment}
use velvet.Image.Webp.{strip_webp, riff_chunk, put_size}
use velvet.Image.Sanitize.{png, Decoder, Picture, sanitize_context, strip}
use velvet.Image.Resume.{IsClean}
use velvet.Image.Again.{strip_png-IsClean, strip_png-strip_png}
use velvet.Image.Sound.{IsSound, sanitize_context-IsSound, sanitize_context-ne-unfinished}

-- Not the checksum of Go's library, but a number of 32 bits as well.
abbrev length_of : Bytes → ℕ
length_of content = length content % 2 ^ 32

length_of-lt : (content : Bytes) → length_of content < 2 ^ 32
length_of-lt content = omega arith

abbrev chunk : Bytes → Bytes → Bytes
chunk kind payload =
    put_uint32_big (length payload)
    ++ (kind ++ payload)
    ++ put_uint32_big (length_of (kind ++ payload))

abbrev signature : Bytes
signature = 137 ∷ b'P' ∷ b'N' ∷ b'G' ∷ 13 ∷ 10 ∷ 26 ∷ 10 ∷ []

abbrev upload : Bytes
upload =
    signature
    ++ (chunk (codes "IHDR") (7 ∷ [])
        ++ (chunk (codes "tEXt") (codes "me")
            ++ (chunk (codes "eXIf") (orientation_exif 6 ++ codes "where I live")
                ++ chunk (codes "IEND") [])))

abbrev clean : Bytes
clean =
    signature
    ++ (chunk (codes "IHDR") (7 ∷ [])
        ++ (chunk (codes "eXIf") (orientation_exif 6) ++ chunk (codes "IEND") []))

upload_stripped : strip_png length_of upload ≡ ok clean
unfolding strip_png ◌>>=◌ orientation orientation_exif
upload_stripped = refl

twice_oriented :
    strip_png length_of (signature ++ (chunk (codes "eXIf") (orientation_exif 6) ++ upload))
    ≡ err invalid
unfolding strip_png ◌>>=◌ orientation orientation_exif
twice_oriented = refl

strip_png-IsClean_example :
    (tail : Bytes) × (clean ≡ take 8 upload ++ tail) × IsClean length_of length_of-lt tail
strip_png-IsClean_example = strip_png-IsClean length_of length_of-lt upload upload_stripped

strip_png-strip_png_example : strip_png length_of clean ≡ ok clean
strip_png-strip_png_example = strip_png-strip_png length_of length_of-lt upload upload_stripped

abbrev decoder : Decoder
decoder = record {
  decode_config = λ _. some (record { width = 3; height = 2; format = png });
  decode = λ _. some (3, 2);
  checksum = length_of;
}

abbrev picture : Picture
picture = record { content = clean; format = png; width = 3; height = 2 }

upload_sanitized : sanitize_context decoder false 1 upload ≡ ok picture
unfolding sanitize_context strip strip_png ◌>>=◌ orientation orientation_exif
upload_sanitized = refl

sanitize_context-IsSound_example : IsSound decoder length_of-lt upload picture
sanitize_context-IsSound_example =
    sanitize_context-IsSound decoder length_of-lt false 1 upload upload_sanitized

sanitize_context-ne-unfinished_example : sanitize_context decoder false 0 upload ≢ unfinished
sanitize_context-ne-unfinished_example =
    sanitize_context-ne-unfinished decoder length_of-lt false 0 upload

third_upload : sanitize_context decoder false 2 upload ≡ err busy
unfolding sanitize_context
third_upload = refl

-- A segment of EXIF data with a comment after it, and a scan with a stuffed and a restart marker.
abbrev photo : Bytes
photo =
    (255 ∷ 216 ∷ [])
    ++ ((255 ∷ 254 ∷ 0 ∷ 4 ∷ 1 ∷ 2 ∷ [])
        ++ ((255 ∷ 255 ∷ 218 ∷ 0 ∷ 3 ∷ 9 ∷ [])
            ++ ((5 ∷ 255 ∷ 0 ∷ 255 ∷ 208 ∷ 6 ∷ []) ++ (255 ∷ 217 ∷ []))))

photo_stripped :
    strip_jpeg photo
    ≡ ok (
        (255 ∷ 216 ∷ [])
        ++ ((255 ∷ 255 ∷ 218 ∷ 0 ∷ 3 ∷ 9 ∷ [])
            ++ ((5 ∷ 255 ∷ 0 ∷ 255 ∷ 208 ∷ 6 ∷ []) ++ (255 ∷ 217 ∷ []))))
unfolding strip_jpeg ◌>>=◌
photo_stripped = refl

abbrev oriented_photo : Bytes
oriented_photo =
    (255 ∷ 216 ∷ [])
    ++ ((255 ∷ 225 ∷ 0 ∷ 40 ∷ [])
        ++ (exif_header ++ (orientation_exif 3 ++ (codes "home" ++ 1 ∷ 2 ∷ 255 ∷ 217 ∷ []))))

oriented_photo_stripped :
    strip_jpeg oriented_photo ≡ ok ((255 ∷ 216 ∷ []) ++ (oriented_segment 3 ++ (255 ∷ 217 ∷ [])))
unfolding strip_jpeg ◌>>=◌ orientation orientation_exif
oriented_photo_stripped = refl

abbrev web_picture : Bytes
web_picture = put_size (
    (codes "RIFF" ++ ((0 ∷ 0 ∷ 0 ∷ 0 ∷ []) ++ codes "WEBP"))
    ++ (riff_chunk (codes "VP8X") (12 ∷ 0 ∷ 0 ∷ 0 ∷ 2 ∷ 0 ∷ 0 ∷ 1 ∷ 0 ∷ 0 ∷ [])
        ++ (riff_chunk (codes "VP8L") (1 ∷ []) ++ riff_chunk (codes "XMP ") (codes "who"))))

web_picture_stripped :
    strip_webp (λ _. some (3, 2)) web_picture
    ≡ ok (
        put_size (
          (codes "RIFF" ++ ((0 ∷ 0 ∷ 0 ∷ 0 ∷ []) ++ codes "WEBP"))
          ++ (riff_chunk (codes "VP8X") (0 ∷ 0 ∷ 0 ∷ 0 ∷ 2 ∷ 0 ∷ 0 ∷ 1 ∷ 0 ∷ 0 ∷ [])
              ++ riff_chunk (codes "VP8L") (1 ∷ []))))
unfolding strip_webp ◌>>=◌ riff_chunk
web_picture_stripped = refl
