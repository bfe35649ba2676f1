-- ===== src/Image/Sound.antt =====
-- `stripWebP` comes to an end, and with it `SanitizeContext`; what a picture is that it returns.
use velvet.Common.{
  ℕ, zero, suc, ◌+◌, ◌*◌, ◌%◌, ◌≤◌, ◌<◌, ◌≡◌, ◌≢◌, ◌^◌, refl, ap, ◌∙◌, Bool, true, false, ◌&&◌,
  Option, none, some, [], ◌∷◌, ◌++◌, ◌==◌, leb, arith, length, take, drop,
}
use velvet.Common.Text.{Bytes, codes, same_bytes}
use velvet.Image.{
  ok, err, unfinished, invalid, busy, cancelled, slice, uint, little, max_bytes, max_pixels,
}
use velvet.Image.Png.{is_in}
use velvet.Image.Webp.{
  State, size_of, take_canvas, take_frame, take_exif, take_chunk, webp_loop, flagged, strip_webp,
}
use velvet.Image.Sanitize.{
  Format, png, jpeg, webp, other, Decoder, Picture, decoded, frame_size, strip, sanitize,
  sanitize_context,
}
use velvet.Image.Oriented.{orientation-Returns, Le8}
use velvet.Image.Slices.{length-drop}
use velvet.Image.Ends.{Any, strip_jpeg-Returns}
use velvet.Image.Again.{strip_png-Stripped}
use velvet.Image.Returns.{
  Returns, gives, fails, Returns-if, Returns-require, Returns-bind, Returns-map, Returns-ok,
  Returns-finished,
}

take_canvas-Returns :
    (p : ℕ) (payload kept : Bytes) (s : State) → Returns Any (take_canvas p payload kept s)
unfolding take_canvas
take_canvas-Returns p payload kept s =
    Returns-require _ _ _ _ (λ _. Returns-require _ _ _ _ (λ _. gives _ tt))

size_of-Returns : (size : Option (ℕ × ℕ)) → Returns Any (size_of size)
size_of-Returns none = fails invalid
size_of-Returns (some size) = gives size tt

flagged-Returns :
    (flag : Bool) (place : Option ℕ) (out : Bytes) → Returns Any (flagged flag place out)
flagged-Returns false place out = gives out tt
flagged-Returns true none out = fails invalid
flagged-Returns true (some i) out = gives _ tt

take_exif-Returns : (payload : Bytes) (s : State) → Returns Any (take_exif payload s)
unfolding take_exif
take_exif-Returns payload s =
    Returns-require _ _ _ _
      (λ _. Returns-bind _ Le8 _ _ (orientation-Returns payload) (λ o _ _. gives _ tt))

module _ (config : Bytes → Option (ℕ × ℕ)) where
  take_frame-Returns :
      (header kept : Bytes) (s : State) → Returns Any (take_frame config header kept s)
  unfolding take_frame
  take_frame-Returns header kept s = Returns-require _ _ _ _ (λ _.
      Returns-bind _ Any _ _ (size_of-Returns _)
        (λ size _ _. Returns-require _ _ _ _ (λ _. gives _ tt)))

  take_chunk-Returns :
      (header : Bytes) (p : ℕ) (kind payload kept : Bytes) (s : State)
      → Returns Any (take_chunk config header p kind payload kept s)
  unfolding take_chunk
  take_chunk-Returns header p kind payload kept s =
      Returns-if _ (same_bytes kind (codes "VP8X")) (take_canvas p payload kept s) _
        (λ _. take_canvas-Returns p payload kept s)
        (λ _.
          Returns-if _ (is_in (codes "VP8 " ∷ codes "VP8L" ∷ []) kind)
            (take_frame config header kept s) _ (λ _. take_frame-Returns header kept s)
            (λ _.
              Returns-if _ (is_in (codes "ALPH" ∷ codes "ICCP" ∷ []) kind)
                (ok (record s { out = s.out ++ kept })) _ (λ _. gives _ tt)
                (λ _.
                  Returns-if _ (same_bytes kind (codes "EXIF")) (take_exif payload s) _
                    (λ _. take_exif-Returns payload s)
                    (λ _.
                      Returns-if _ (is_in (codes "ANIM" ∷ codes "ANMF" ∷ []) kind) (err invalid)
                        (ok s) (λ _. fails invalid) (λ _. gives s tt)))))

  webp_loop-Returns :
      (header : Bytes) (rounds p : ℕ) (rest : Bytes) (s : State)
      → length rest < rounds
      → Returns Any (webp_loop config header rounds p rest s)
  unfolding webp_loop
  webp_loop-Returns header zero p rest s f = absurd (omega arith)
  webp_loop-Returns header (suc rounds) p [] s f = gives s tt
  webp_loop-Returns header (suc rounds) p (b ∷ bs) s f =
      let n : ℕ = uint little (slice (b ∷ bs) 4 8) in
      let size : ℕ = 8 + n + n % 2 in
      let shorter : length (drop size (b ∷ bs)) < rounds =
        omega (arith, length-drop size (b ∷ bs)) in
      Returns-require _ _ _ _ (λ _. Returns-require _ _ _ _ (λ _. Returns-require _ _ _ _ (λ _.
        Returns-bind _ Any _ _
          (take_chunk-Returns header p (take 4 (b ∷ bs)) (slice (b ∷ bs) 8 (8 + n))
            (take size (b ∷ bs)) s)
          (λ s' _ _. webp_loop-Returns header rounds (p + size) (drop size (b ∷ bs)) s' shorter))))

  strip_webp-Returns : (content : Bytes) → Returns Any (strip_webp config content)
  unfolding strip_webp
  strip_webp-Returns content = Returns-require _ _ _ _ (λ _.
      Returns-bind _ Any _ _
        (webp_loop-Returns (take 12 content) (suc (length content)) 12 (drop 12 content) _
          (omega (arith, length-drop 12 content)))
        (λ s _ _. Returns-require _ _ _ _ (λ _.
          Returns-bind _ Any _ _ (flagged-Returns s.has_exif s.vp8x s.out)
            (λ out _ _. gives _ tt))))

decoded-Returns : {A : Type 0} (o : Option A) → Returns (λ a. o ≡ some a) (decoded o)
decoded-Returns none = fails invalid
decoded-Returns (some a) = gives a refl

found_is : (found : ℕ × ℕ) (w h : ℕ) → (found.0 == w && found.1 == h) ≡ true → found ≡ (w, h)
found_is found w h e = ground arith

module _ (d : Decoder) (checksum_lt : (content : Bytes) → d.checksum content < 2 ^ 32) where
  strip-Returns :
      (format : Format) (content : Bytes) → Returns (λ _. format ≢ other) (strip d format content)
  unfolding strip
  strip-Returns png content =
      Returns-map _ _ (λ _ _. cc) (strip_png-Stripped d.checksum checksum_lt content)
  strip-Returns jpeg content = Returns-map Any _ (λ _ _. cc) (strip_jpeg-Returns content)
  strip-Returns webp content =
      Returns-map Any _ (λ _ _. cc) (strip_webp-Returns (frame_size d) content)
  strip-Returns other content = fails invalid

  -- A picture of one of the three formats that is small enough, and that the decoder reads with the size
  -- that the upload announced.
  pub record IsSound (content : Bytes) (p : Picture) : Type 0 where
    pub announced :
        d.decode_config content
        ≡ some (record { width = p.width; height = p.height; format = p.format })
    pub format : p.format ≢ other
    pub small : length p.content ≤ max_bytes
    pub width : 0 < p.width
    pub height : 0 < p.height
    pub pixels : p.width * p.height ≤ max_pixels
    pub reads : d.decode p.content ≡ some (p.width, p.height)

  sanitize-Returns : (content : Bytes) → Returns (IsSound content) (sanitize d content)
  unfolding sanitize
  sanitize-Returns content = Returns-require _ _ _ _ (λ _.
      Returns-bind _ _ _ _ (decoded-Returns (d.decode_config content)) (λ cfg announced _.
        Returns-require _ _ _ _ (λ size.
          Returns-bind _ _ _ _ (strip-Returns cfg.format content) (λ out format _.
            Returns-require _ _ _ _ (λ small.
              Returns-bind _ _ _ _ (decoded-Returns (d.decode out)) (λ found reads _.
                Returns-require _ _ _ _ (λ same. gives _ (record {
                  announced = announced;
                  format = format;
                  small = ground arith;
                  width = ground arith;
                  height = ground arith;
                  pixels = ground arith;
                  reads = reads ∙ ap some (found_is found cfg.width cfg.height same);
                }))))))))

  sanitize_context-Returns :
      (stopped : Bool) (taken : ℕ) (content : Bytes)
      → Returns (IsSound content) (sanitize_context d stopped taken content)
  unfolding sanitize_context
  sanitize_context-Returns stopped taken content =
      Returns-if _ stopped (err cancelled) _ (λ _. fails cancelled)
        (λ _.
          Returns-if _ (leb 2 taken) (err busy) (sanitize d content) (λ _. fails busy)
            (λ _. sanitize-Returns content))

  -- A picture that `SanitizeContext` returns has at most 10 MiB and 20 million pixels, and at least one;
  -- its format is PNG, JPEG or WebP, and both the format and the size are those that the decoder read
  -- from the head of the upload; the decoder reads the picture with that size. The checksum is taken to be
  -- a number of 32 bits.
  pub sanitize_context-IsSound :
      (stopped : Bool) (taken : ℕ) (content : Bytes) {p : Picture}
      → sanitize_context d stopped taken content ≡ ok p
      → IsSound content p
  sanitize_context-IsSound stopped taken content e =
      Returns-ok _ (sanitize_context-Returns stopped taken content) e

  -- `SanitizeContext` comes to an answer for every upload: one round for each byte is enough for the
  -- loops over PNG, JPEG and WebP. The checksum is taken to be a number of 32 bits.
  pub sanitize_context-ne-unfinished :
      (stopped : Bool) (taken : ℕ) (content : Bytes)
      → sanitize_context d stopped taken content ≢ unfinished
  sanitize_context-ne-unfinished stopped taken content =
      Returns-finished _ (sanitize_context-Returns stopped taken content)
