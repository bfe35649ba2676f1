-- ===== src/Image/Again.antt =====
-- `stripPNG` on the picture that it returned.
use velvet.Common.{
  ℕ, suc, ◌≤◌, ◌<◌, ◌^◌, ◌≡◌, subst, false, ◌++◌, arith, length, length-append, ltb, take, drop,
}
use velvet.Common.Text.{Bytes}
use velvet.Image.{ok, ◌>>=◌}
use velvet.Image.Png.{png_loop, strip_png}
use velvet.Image.Returns.{Returns, Returns-require, Returns-ok, Returns-map}
use velvet.Image.Slices.{length-take, length-drop, take-append_all, drop-append_all}
use velvet.Image.Resume.{IsClean, png_loop-Resumes}

module _ (checksum : Bytes → ℕ) (checksum_lt : (content : Bytes) → checksum content < 2 ^ 32) where
  pub record Stripped (content out : Bytes) : Type 0 where
    pub tail : Bytes
    pub made : out ≡ take 8 content ++ tail
    pub long : 8 ≤ length content
    pub clean : IsClean checksum checksum_lt tail
    pub again : strip_png checksum out ≡ ok out

  strip_png-again :
      (head tail : Bytes)
      → length head ≡ 8
      → png_loop checksum (suc (length (head ++ tail))) tail false head ≡ ok (head ++ tail)
      → strip_png checksum (head ++ tail) ≡ ok (head ++ tail)
  unfolding strip_png ◌>>=◌
  strip_png-again head tail e h =
      let long : ltb (length (head ++ tail)) 8 ≡ false = ground (arith, length-append head tail) in
      let first : take 8 (head ++ tail) ≡ head =
        subst (λ n. take n (head ++ tail) ≡ head) e (take-append_all head tail) in
      let second : drop 8 (head ++ tail) ≡ tail =
        subst (λ n. drop n (head ++ tail) ≡ tail) e (drop-append_all head tail) in
      rw long (rw (first, second) h)

  -- `stripPNG` comes to an answer, and a result of it is the 8 bytes at the head and a clean rest.
  pub strip_png-Stripped :
      (content : Bytes) → Returns (Stripped content) (strip_png checksum content)
  unfolding strip_png
  strip_png-Stripped content = Returns-require _ _ _ _ (λ long.
      let enough : length (drop 8 content) < suc (length content) =
        omega (arith, length-drop 8 content) in
      let head : length (take 8 content) ≡ 8 = length-take 8 content (ground arith) in
      Returns-map _ _
        (λ out r. record {
          tail = r.added;
          made = r.made;
          long = ground arith;
          clean = r.clean;
          again = rw r.made (
              strip_png-again (take 8 content) r.added head (
                r.again (suc (length (take 8 content ++ r.added))) false (take 8 content)
                  (omega (arith, length-append (take 8 content) r.added)) (λ e. e)));
        })
        (png_loop-Resumes checksum checksum_lt (suc (length content)) (drop 8 content) false
          (take 8 content) enough))

  -- The picture that `stripPNG` returns begins with the 8 bytes of the upload, and the rest of it is a
  -- sequence of chunks, each of a kind that is kept or an orientation and nothing else, if the checksum
  -- is a number of 32 bits.
  pub strip_png-IsClean :
      (content : Bytes) {out : Bytes}
      → strip_png checksum content ≡ ok out
      → (tail : Bytes) × (out ≡ take 8 content ++ tail) × IsClean checksum checksum_lt tail
  strip_png-IsClean content e =
      let r = Returns-ok _ (strip_png-Stripped content) e in (r.tail, r.made, r.clean)

  -- `stripPNG` keeps the picture that it returned as it is, if the checksum is a number of 32 bits.
  pub strip_png-strip_png :
      (content : Bytes) {out : Bytes}
      → strip_png checksum content ≡ ok out
      → strip_png checksum out ≡ ok out
  strip_png-strip_png content e = (Returns-ok _ (strip_png-Stripped content) e).again
