-- ===== src/Image/Resume.antt =====
-- What the loop of `stripPNG` keeps, and the loop on what it kept.
use velvet.Common.{
  ℕ, zero, suc, ◌≤◌, ◌<◌, ◌^◌, ◌≡◌, refl, sym, ap, ◌∙◌, subst, Bool, true, false, [], ◌∷◌, ◌++◌,
  append_assoc, append-nil, ◌==◌, arith, length, length-append, if◌then◌else◌,
}
use velvet.Common.Text.{Bytes, codes, same_bytes}
use velvet.Image.{ok, invalid, ◌>>=◌, orientation_exif}
use velvet.Image.Png.{
  Chunk, read_chunk, keep_chunk, png_chunk, png_loop, is_in, kept_kinds, is_last, finish,
  keep_orientation,
}
use velvet.Image.Returns.{
  Returns, gives, fails, Returns-if, Returns-require, Returns-bind, Returns-map,
}
use velvet.Image.Kept.{
  exif_kind, orientation-IsChunk, Kept, dropped, whole, oriented, keep_chunk-Kept,
}
use velvet.Image.Chunks.{IsChunk, WasRead, read_chunk-whole, read_chunk-WasRead}
use velvet.Image.Oriented.{orientation-orientation_exif}

module _ (checksum : Bytes → ℕ) (checksum_lt : (content : Bytes) → checksum content < 2 ^ 32) where
  png_loop-round :
      (rounds : ℕ) (rest : Bytes) (seen : Bool) (out : Bytes) (c : Chunk) (r : Bytes × Bool)
      → 0 < length rest
      → read_chunk checksum rest ≡ ok c
      → keep_chunk checksum seen c ≡ ok r
      → png_loop checksum (suc rounds) rest seen out ≡ (
          if is_last checksum c
          then finish checksum c.rest (out ++ r.0)
          else png_loop checksum rounds c.rest r.1 (out ++ r.0))
  unfolding png_loop ◌>>=◌
  png_loop-round rounds [] seen out c r h e k = absurd (omega arith)
  png_loop-round rounds (b ∷ bs) seen out c r h e k = rw e (rw k refl)

  -- A sequence of chunks, each of a kind that is kept, or an orientation and nothing else.
  pub data IsClean : Bytes → Type 0 where
    nothing : IsClean []
    keeps :
        (w kind payload more : Bytes)
        → IsChunk checksum w kind payload
        → is_in kept_kinds kind ≡ true
        → IsClean more
        → IsClean (w ++ more)
    orients :
        (o : ℕ) (more : Bytes)
        → 1 ≤ o
        → o ≤ 8
        → IsClean more
        → IsClean (png_chunk checksum exif_kind (orientation_exif o) ++ more)

  -- What the loop appends is clean, and the loop keeps all of it.
  pub record Resumes (seen : Bool) (out res : Bytes) : Type 0 where
    pub added : Bytes
    pub made : res ≡ out ++ added
    pub clean : IsClean added
    pub again :
        (rounds : ℕ) (seen' : Bool) (out' : Bytes)
        → length added < rounds
        → (seen ≡ false → seen' ≡ false)
        → png_loop checksum rounds added seen' out' ≡ ok (out' ++ added)

  Resumes-dropped :
      (seen seen' : Bool) (out res : Bytes) (empty : Bytes)
      → empty ≡ []
      → (seen' ≡ false → seen ≡ false)
      → Resumes seen' (out ++ empty) res
      → Resumes seen out res
  Resumes-dropped seen seen' out res empty e k h = record {
    added = h.added;
    made = h.made ∙ ap (λ front. front ++ h.added) (ap (λ t. out ++ t) e ∙ append-nil out);
    clean = h.clean;
    again = λ rounds s o f g. h.again rounds s o f (λ q. g (k q));
  }

  -- A chunk in front that the loop keeps as it is.
  module _ (w kind payload : Bytes) (is : IsChunk checksum w kind payload) where
    abbrev front : Bytes → Chunk
    front more = record { kind = kind; whole = w; payload = payload; rest = more }

    w_long : 12 ≤ length w
    w_long = omega (arith, is.sized)

    Resumes-front :
        (seen seen2 : Bool) (out res : Bytes)
        → same_bytes kind (codes "IEND") ≡ false
        → ((seen' : Bool) (more : Bytes)
            → (seen ≡ false → seen' ≡ false)
            → (s : Bool) × (keep_chunk checksum seen' (front more) ≡ ok (w, s))
              × (seen2 ≡ false → s ≡ false))
        → ((more : Bytes) → IsClean more → IsClean (w ++ more))
        → Resumes seen2 (out ++ w) res
        → Resumes seen out res
    Resumes-front seen seen2 out res last keep clean h = record {
      added = w ++ h.added;
      made = h.made ∙ append_assoc out w h.added;
      clean = clean h.added h.clean;
      again = λ rounds s o f g. go rounds s o f (keep s h.added g);
    }
      where
        go :
            (rounds : ℕ) (s : Bool) (o : Bytes)
            → length (w ++ h.added) < rounds
            → ((s2 : Bool) × (keep_chunk checksum s (front h.added) ≡ ok (w, s2))
                × (seen2 ≡ false → s2 ≡ false))
            → png_loop checksum rounds (w ++ h.added) s o ≡ ok (o ++ (w ++ h.added))
        go zero s o f k = absurd (omega arith)
        go (suc rounds) s o f (s2, k, g) =
            png_loop-round rounds (w ++ h.added) s o (front h.added) (w, s2)
              (omega (arith, w_long, length-append w h.added))
              (read_chunk-whole checksum w kind payload h.added is) k
            ∙ rw last
                (h.again rounds s2 (o ++ w) (omega (arith, w_long, length-append w h.added)) g)
            ∙ ap ok (append_assoc o w h.added)

  Resumes-whole :
      (seen seen' : Bool) (out res added : Bytes) (c : Chunk)
      → IsChunk checksum c.whole c.kind c.payload
      → added ≡ c.whole
      → seen' ≡ seen
      → is_in kept_kinds c.kind ≡ true
      → is_last checksum c ≡ false
      → Resumes seen' (out ++ added) res
      → Resumes seen out res
  unfolding keep_chunk
  Resumes-whole seen seen' out res added c is same stays kept more h =
      Resumes-front c.whole c.kind c.payload is seen seen' out res more
        (λ s rest g. (s, rw kept refl, λ e. g (sym stays ∙ e)))
        (λ rest clean. keeps c.whole c.kind c.payload rest is kept clean)
        (subst (λ t. Resumes seen' (out ++ t) res) same h)

  Resumes-oriented :
      (seen seen' : Bool) (out res added : Bytes) (o : ℕ)
      → 1 ≤ o
      → o ≤ 8
      → added ≡ png_chunk checksum exif_kind (orientation_exif o)
      → seen ≡ false
      → seen' ≡ true
      → Resumes seen' (out ++ added) res
      → Resumes seen out res
  unfolding keep_chunk keep_orientation ◌>>=◌
  Resumes-oriented seen seen' out res added o low high same new done h =
      let written : Bytes = png_chunk checksum exif_kind (orientation_exif o) in
      let nonzero : (o == 0) ≡ false = ground arith in
      Resumes-front written exif_kind (orientation_exif o)
        (orientation-IsChunk checksum checksum_lt o) seen seen' out res refl
        (λ s rest g. (
          true,
          rw (g new) (rw (orientation-orientation_exif o low high) (rw nonzero refl)),
          λ e. sym done ∙ e,
        ))
        (λ rest clean. orients o rest low high clean)
        (subst (λ t. Resumes seen' (out ++ t) res) same h)

  Resumes-next :
      (seen seen' : Bool) (out res added : Bytes) (c : Chunk)
      → IsChunk checksum c.whole c.kind c.payload
      → is_last checksum c ≡ false
      → Kept checksum checksum_lt seen c added seen'
      → Resumes seen' (out ++ added) res
      → Resumes seen out res
  Resumes-next seen seen' out res added c is more (dropped e k _) h =
      Resumes-dropped seen seen' out res added e k h
  Resumes-next seen seen' out res added c is more (whole same stays kept) h =
      Resumes-whole seen seen' out res added c is same stays kept more h
  Resumes-next seen seen' out res added c is more (oriented o low high same new done _) h =
      Resumes-oriented seen seen' out res added o low high same new done h

  png_loop-last :
      (c : Chunk)
      → IsChunk checksum c.whole c.kind c.payload
      → is_last checksum c ≡ true
      → is_in kept_kinds c.kind ≡ true
      → (rounds : ℕ) (s : Bool) (o : Bytes) → length c.whole < rounds
      → png_loop checksum rounds c.whole s o ≡ ok (o ++ c.whole)
  unfolding keep_chunk ◌>>=◌
  png_loop-last c is last kept zero s o f = absurd (omega arith)
  png_loop-last c is last kept (suc rounds) s o f =
      let c' : Chunk = front c.whole c.kind c.payload is [] in
      let kept_again : keep_chunk checksum s c' ≡ ok (c.whole, s) = rw kept refl in
      let long : 0 < length (c.whole ++ []) = omega (arith, is.sized, length-append c.whole []) in
      subst (λ t. png_loop checksum (suc rounds) t s o ≡ ok (o ++ c.whole)) (append-nil c.whole)
        (png_loop-round rounds (c.whole ++ []) s o c' (c.whole, s) long
            (read_chunk-whole checksum c.whole c.kind c.payload [] is) kept_again
          ∙ rw last refl)

  finish-Resumes :
      (seen seen' : Bool) (out added : Bytes) (c : Chunk)
      → IsChunk checksum c.whole c.kind c.payload
      → is_last checksum c ≡ true
      → Kept checksum checksum_lt seen c added seen'
      → Returns (Resumes seen out) (finish checksum c.rest (out ++ added))
  finish-Resumes seen seen' out added c is last (dropped _ _ more) = cc
  finish-Resumes seen seen' out added c is last (oriented _ _ _ _ _ _ more) = cc
  finish-Resumes seen seen' out added c is last (whole same stays kept) =
      Returns-require _ _ _ _ (λ _. gives _ (record {
        added = c.whole;
        made = ap (λ t. out ++ t) same;
        clean =
            subst IsClean (append-nil c.whole) (keeps c.whole c.kind c.payload [] is kept nothing);
        again = λ rounds s o f g. png_loop-last c is last kept rounds s o f;
      }))

  pub png_loop-Resumes :
      (rounds : ℕ) (rest : Bytes) (seen : Bool) (out : Bytes)
      → length rest < rounds
      → Returns (Resumes seen out) (png_loop checksum rounds rest seen out)
  unfolding png_loop
  png_loop-Resumes zero rest seen out f = absurd (omega arith)
  png_loop-Resumes (suc rounds) [] seen out f = fails invalid
  png_loop-Resumes (suc rounds) (b ∷ bs) seen out f =
      Returns-bind _ (WasRead checksum (b ∷ bs)) _ _ (read_chunk-WasRead checksum (b ∷ bs))
        (λ c was _.
          Returns-bind _ (λ r. Kept checksum checksum_lt seen c r.0 r.1) _ _
            (keep_chunk-Kept checksum checksum_lt seen c)
            (λ r k _.
              let rest =
                png_loop-Resumes rounds c.rest r.1 (out ++ r.0) (omega (arith, was.shorter)) in
              Returns-if _ (is_last checksum c) (finish checksum c.rest (out ++ r.0))
                (png_loop checksum rounds c.rest r.1 (out ++ r.0))
                (λ last. finish-Resumes seen r.1 out r.0 c was.is last k)
                (λ more.
                  Returns-map _ _ (λ res. Resumes-next seen r.1 out res r.0 c was.is more k) rest)))
