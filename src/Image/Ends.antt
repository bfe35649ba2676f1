-- ===== src/Image/Ends.antt =====
-- The loops of `stripJPEG` come to an end: one round for each byte is enough.
use velvet.Common.{
  ℕ, zero, suc, ◌≤◌, ◌<◌, Bool, false, ◌||◌, Option, none, some, [], ◌∷◌, ◌++◌, ◌==◌, arith, length,
  drop, Bool-cases, inl, inr,
}
use velvet.Common.Text.{Bytes}
use velvet.Image.{Result, ok, invalid, slice, uint, big}
use velvet.Image.Jpeg.{
  Part, end_of_image, segment, skip_fill, read_segment, read_marker, read_part, jfif_part,
  exif_part, is_jfif, keep_density, is_exif, keep_exif, scan_marker, scan_step, scan_on, jpeg_on,
  scan_loop, scan_of, jpeg_loop, strip_jpeg, is_restart,
}
use velvet.Image.Oriented.{orientation-Returns, Le8}
use velvet.Image.Slices.{length-drop}
use velvet.Image.Returns.{Returns, gives, fails, Returns-if, Returns-require, Returns-bind}

abbrev pub Any : {A : Type 0} → A → Type 0
Any a = Unit

length-skip_fill : (bs : Bytes) → length (skip_fill bs) ≤ length bs
length-skip_fill [] = omega arith
length-skip_fill (b ∷ bs) = let rest = length-skip_fill bs in ground arith

-- What comes after the part at the head of `rest` is shorter.
abbrev IsShorter : ℕ → Part → Type 0
IsShorter n (end_of_image after) = Unit
IsShorter n (segment marker payload whole after) = length after < n

read_segment-Returns :
    (rest : Bytes) (marker : ℕ) (after : Bytes)
    → length after < length rest
    → Returns (IsShorter (length rest)) (read_segment rest marker after)
unfolding read_segment
read_segment-Returns rest marker after h =
    Returns-if _ (marker == 217) (ok (end_of_image after)) _ (λ _. gives (end_of_image after) tt)
      (λ _. Returns-require _ _ _ _ (λ _. Returns-require _ _ _ _ (λ _.
        Returns-require _ _ _ _
          (λ _. gives _ (omega (arith, length-drop (uint big (slice after 0 2)) after))))))

read_marker-Returns :
    (rest tail : Bytes)
    → length tail ≤ length rest
    → Returns (IsShorter (length rest)) (read_marker rest tail)
read_marker-Returns rest [] h = fails invalid
read_marker-Returns rest (marker ∷ after) h = read_segment-Returns rest marker after (omega arith)

read_part-Returns : (rest : Bytes) → Returns (IsShorter (length rest)) (read_part rest)
unfolding read_part
read_part-Returns [] = fails invalid
read_part-Returns (b ∷ bs) =
    Returns-require _ _ _ _
      (λ _. read_marker-Returns (b ∷ bs) (skip_fill (b ∷ bs)) (length-skip_fill (b ∷ bs)))

keep_density-Returns : (payload : Bytes) → Returns Any (keep_density payload)
unfolding keep_density
keep_density-Returns payload = Returns-require _ _ _ _ (λ _. gives _ tt)

jfif_part-Returns : (marker : ℕ) (payload : Bytes) → Returns Any (jfif_part marker payload)
unfolding jfif_part
jfif_part-Returns marker payload =
    Returns-if _ (is_jfif marker payload) (keep_density payload) (ok [])
      (λ _. keep_density-Returns payload) (λ _. gives [] tt)

keep_exif-Returns : (payload : Bytes) (seen : Bool) → Returns Any (keep_exif payload seen)
unfolding keep_exif
keep_exif-Returns payload seen =
    Returns-require _ _ _ _
      (λ _. Returns-bind _ Le8 _ _ (orientation-Returns payload) (λ o _ _. gives _ tt))

exif_part-Returns :
    (marker : ℕ) (payload : Bytes) (seen : Bool) → Returns Any (exif_part marker payload seen)
unfolding exif_part
exif_part-Returns marker payload seen =
    Returns-if _ (is_exif marker payload) (keep_exif payload seen) (ok ([], seen))
      (λ _. keep_exif-Returns payload seen) (λ _. gives ([], seen) tt)

-- The rest of the scan after a round that passed some of it.
abbrev Passes : ℕ → Option (Bytes × Bytes) → Type 0
Passes n none = Unit
Passes n (some (taken, after)) = length after ≤ n

scan_marker-Returns :
    (b : ℕ) (bs after : Bytes)
    → length after ≤ length bs
    → Returns (Passes (length bs)) (scan_marker b bs after)
scan_marker-Returns b bs [] h = fails invalid
scan_marker-Returns b bs (q ∷ qs) h = elim (Bool-cases (q == 0 || is_restart q)) [
  | inl e ↦ rw e (gives _ (omega arith))
  | inr e ↦ rw e (gives none tt)
]

scan_step-Returns : (b : ℕ) (bs : Bytes) → Returns (Passes (length bs)) (scan_step b bs)
unfolding scan_step
scan_step-Returns b bs =
    Returns-if _ (b == 255) (scan_marker b bs (skip_fill bs)) (ok (some (b ∷ [], bs)))
      (λ _. scan_marker-Returns b bs (skip_fill bs) (length-skip_fill bs))
      (λ _. gives (some (b ∷ [], bs)) (omega arith))

abbrev Within : ℕ → Bytes × Bytes → Type 0
Within n (scan, rest) = length rest ≤ n

scan_on-Returns :
    (loop : Bytes → Bytes → Result (Bytes × Bytes)) (n m : ℕ) (scan rest : Bytes)
    → length rest ≤ n
    → ((scan' after : Bytes) → length after ≤ m → Returns (Within n) (loop scan' after))
    → (next : Option (Bytes × Bytes)) → Passes m next
    → Returns (Within n) (scan_on loop scan rest next)
scan_on-Returns loop n m scan rest h go none p = gives (scan, rest) h
scan_on-Returns loop n m scan rest h go (some (taken, after)) p = go (scan ++ taken) after p

scan_loop-Returns :
    (rounds : ℕ) (scan rest : Bytes) (n : ℕ)
    → length rest < rounds
    → length rest ≤ n
    → Returns (Within n) (scan_loop rounds scan rest)
unfolding scan_loop
scan_loop-Returns zero scan rest n f h = absurd (omega arith)
scan_loop-Returns (suc rounds) scan [] n f h = gives (scan, []) h
scan_loop-Returns (suc rounds) scan (b ∷ bs) n f h =
    Returns-bind _ (Passes (length bs)) _ _ (scan_step-Returns b bs) (λ next p _.
      scan_on-Returns (scan_loop rounds) n (length bs) scan (b ∷ bs) h
        (λ scan' after k. scan_loop-Returns rounds scan' after n (omega arith) (omega arith)) next
        p)

scan_of-Returns : (marker : ℕ) (rest : Bytes) → Returns (Within (length rest)) (scan_of marker rest)
scan_of-Returns marker rest =
    Returns-if _ (marker == 218) (scan_loop (suc (length rest)) [] rest) (ok ([], rest))
      (λ _. scan_loop-Returns (suc (length rest)) [] rest (length rest) (omega arith) (omega arith))
      (λ _. gives ([], rest) (omega arith))

jpeg_on-Returns :
    (loop : Bytes → Bool → Bytes → Result Bytes) (seen : Bool) (out : Bytes) (n : ℕ)
    → ((after : Bytes) (seen' : Bool) (out' : Bytes)
        → length after < n
        → Returns Any (loop after seen' out'))
    → (part : Part) → IsShorter n part
    → Returns Any (jpeg_on loop seen out part)
jpeg_on-Returns loop seen out n go (end_of_image after) h =
    Returns-require _ _ _ _ (λ _. gives _ tt)
jpeg_on-Returns loop seen out n go (segment marker payload kept after) h =
    Returns-bind _ Any _ _ (jfif_part-Returns marker payload) (λ jfif _ _.
      Returns-bind _ Any _ _ (exif_part-Returns marker payload seen) (λ exif _ _.
        Returns-bind _ (Within (length after)) _ _ (scan_of-Returns marker after)
          (λ scan le _. go scan.1 exif.1 _ (omega arith))))

jpeg_loop-Returns :
    (rounds : ℕ) (rest : Bytes) (seen : Bool) (out : Bytes)
    → length rest < rounds
    → Returns Any (jpeg_loop rounds rest seen out)
unfolding jpeg_loop
jpeg_loop-Returns zero rest seen out f = absurd (omega arith)
jpeg_loop-Returns (suc rounds) rest seen out f =
    Returns-bind _ (IsShorter (length rest)) _ _ (read_part-Returns rest) (λ part h _.
      jpeg_on-Returns (jpeg_loop rounds) seen out (length rest)
        (λ after seen' out' k. jpeg_loop-Returns rounds after seen' out' (omega arith)) part h)

pub strip_jpeg-Returns : (content : Bytes) → Returns Any (strip_jpeg content)
unfolding strip_jpeg
strip_jpeg-Returns content = Returns-require _ _ _ _ (λ _.
    jpeg_loop-Returns (suc (length content)) (drop 2 content) false (255 ∷ 216 ∷ [])
      (omega (arith, length-drop 2 content)))
