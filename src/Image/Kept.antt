-- ===== src/Image/Kept.antt =====
-- What the `switch` of `stripPNG` appends for a chunk.
use velvet.Common.{
  ℕ, ◌≤◌, ◌<◌, ◌^◌, ◌≡◌, refl, Bool, true, false, ◌||◌, [], ◌++◌, ◌==◌, arith, Bool-cases, inl, inr,
}
use velvet.Common.Text.{Bytes, codes, same_bytes}
use velvet.Image.{ok, err, invalid, orientation_exif}
use velvet.Image.Png.{
  Chunk, keep_chunk, png_chunk, is_in, kept_kinds, animated_kinds, is_critical, is_last,
  keep_orientation,
}
use velvet.Image.Returns.{Returns, gives, fails, Returns-if, Returns-require, Returns-bind}
use velvet.Image.Chunks.{IsChunk}
use velvet.Image.Oriented.{orientation-Returns, Le8}

abbrev pub exif_kind : Bytes
exif_kind = codes "eXIf"

module _ (checksum : Bytes → ℕ) (checksum_lt : (content : Bytes) → checksum content < 2 ^ 32) where
  pub orientation-IsChunk :
      (o : ℕ)
      → IsChunk checksum
          (png_chunk checksum exif_kind (orientation_exif o))
          exif_kind
          (orientation_exif o)
  unfolding png_chunk orientation_exif
  orientation-IsChunk o = record {
    sized = refl;
    named = refl;
    carries = refl;
    summed = let small = checksum_lt (exif_kind ++ orientation_exif o) in ground arith;
  }

  -- What `keepChunk` appends for a chunk.
  pub data Kept (seen : Bool) (c : Chunk) (added : Bytes) (seen' : Bool) : Type 0 where
    dropped :
        added ≡ []
        → (seen' ≡ false → seen ≡ false)
        → is_last checksum c ≡ false
        → Kept seen c added seen'
    whole :
        added ≡ c.whole → seen' ≡ seen → is_in kept_kinds c.kind ≡ true → Kept seen c added seen'
    oriented :
        (o : ℕ)
        → 1 ≤ o
        → o ≤ 8
        → added ≡ png_chunk checksum exif_kind (orientation_exif o)
        → seen ≡ false
        → seen' ≡ true
        → is_last checksum c ≡ false
        → Kept seen c added seen'

  keep_orientation-Kept :
      (seen : Bool) (c : Chunk)
      → is_last checksum c ≡ false
      → Returns (λ r. Kept seen c r.0 r.1) (keep_orientation checksum seen c.payload)
  unfolding keep_orientation
  keep_orientation-Kept seen c more = Returns-require _ _ _ _ (λ new.
      Returns-bind _ Le8 _ _ (orientation-Returns c.payload) (λ o le _.
        gives _ (elim (Bool-cases (o == 0)) [
          | inl e ↦ dropped (rw e refl) (λ wrong. cc) more
          | inr e ↦ oriented o (ground arith) le (rw e refl) (ground arith) refl more
        ])))

  pub keep_chunk-Kept :
      (seen : Bool) (c : Chunk) → Returns (λ r. Kept seen c r.0 r.1) (keep_chunk checksum seen c)
  unfolding keep_chunk
  keep_chunk-Kept seen c =
      Returns-if _ (is_in kept_kinds c.kind) (ok (c.whole, seen)) _
        (λ e. gives _ (whole refl refl e))
        (λ e.
          let more : is_last checksum c ≡ false = ground arith in
          Returns-if _ (same_bytes c.kind exif_kind) (keep_orientation checksum seen c.payload) _
            (λ _. keep_orientation-Kept seen c more)
            (λ _.
              Returns-if _ (is_in animated_kinds c.kind || is_critical c.kind) (err invalid)
                (ok ([], seen)) (λ _. fails invalid)
                (λ _. gives _ (dropped refl (λ same. same) more))))
