-- ===== src/Image/Oriented.antt =====
-- The orientation that is read from EXIF data, and the EXIF data that is written for it.
use velvet.Common.{Bool, true, false, ℕ, zero, suc, ◌+◌, ◌≤◌, ◌≡◌, refl, arith, drop, if◌then◌else◌}
use velvet.Common.Text.{Bytes, codes, same_bytes}
use velvet.Image.{
  ok, ◌>>=◌, slice, ByteOrder, byte_order, read_entry, read_entries, read_tiff, orientation,
  orientation_exif, exif_header, has_prefix, take_orientation, is_orientation, order_of, little,
  big, invalid, uint,
}
use velvet.Image.Returns.{Returns, gives, fails, Returns-if, Returns-require, Returns-bind}

-- `orientation` reads back each of the eight orientations that `orientationEXIF` can be asked for.
pub orientation-orientation_exif : (o : ℕ) → 1 ≤ o → o ≤ 8 → orientation (orientation_exif o) ≡ ok o
unfolding orientation orientation_exif ◌>>=◌
orientation-orientation_exif (suc zero) h k = refl
orientation-orientation_exif (suc (suc zero)) h k = refl
orientation-orientation_exif (suc (suc (suc zero))) h k = refl
orientation-orientation_exif (suc (suc (suc (suc zero)))) h k = refl
orientation-orientation_exif (suc (suc (suc (suc (suc zero))))) h k = refl
orientation-orientation_exif (suc (suc (suc (suc (suc (suc zero)))))) h k = refl
orientation-orientation_exif (suc (suc (suc (suc (suc (suc (suc zero))))))) h k = refl
orientation-orientation_exif (suc (suc (suc (suc (suc (suc (suc (suc zero)))))))) h k = refl
orientation-orientation_exif (suc (suc (suc (suc (suc (suc (suc (suc (suc o))))))))) h k =
    absurd (omega arith)
orientation-orientation_exif zero h k = absurd (omega arith)

abbrev pub Le8 : ℕ → Type 0
Le8 o = o ≤ 8

take_orientation-Returns :
    (order : ByteOrder) (tag : Bytes) (result : ℕ) → Returns Le8 (take_orientation order tag result)
unfolding take_orientation
take_orientation-Returns order tag result =
    Returns-require _ _ _ _
      (λ _. Returns-require _ _ _ _ (λ e. gives (uint order (slice tag 8 10)) (ground arith)))

read_entry-Returns :
    (order : ByteOrder) (tag : Bytes) (result : ℕ)
    → result ≤ 8
    → Returns Le8 (read_entry order tag result)
unfolding read_entry
read_entry-Returns order tag result h =
    Returns-if _ (is_orientation order tag) (take_orientation order tag result) (ok result)
      (λ _. take_orientation-Returns order tag result) (λ _. gives result h)

read_entries-Returns :
    (order : ByteOrder) (exif : Bytes) (rounds p result : ℕ)
    → result ≤ 8
    → Returns Le8 (read_entries order exif rounds p result)
unfolding read_entries
read_entries-Returns order exif zero p result h = gives result h
read_entries-Returns order exif (suc rounds) p result h =
    Returns-bind Le8 Le8 _ _ (read_entry-Returns order _ result h)
      (λ next le _. read_entries-Returns order exif rounds (p + 12) next le)

order_of-Returns : (a b : Bool) → Returns (λ _. Unit {0}) (order_of a b)
order_of-Returns true b = gives little tt
order_of-Returns false true = gives big tt
order_of-Returns false false = fails invalid

byte_order-Returns : (mark : Bytes) → Returns (λ _. Unit {0}) (byte_order mark)
unfolding byte_order
byte_order-Returns mark =
    order_of-Returns (same_bytes mark (codes "II")) (same_bytes mark (codes "MM"))

read_tiff-Returns : (exif : Bytes) → Returns Le8 (read_tiff exif)
unfolding read_tiff
read_tiff-Returns exif = Returns-require _ _ _ _ (λ _.
    Returns-bind Le8 _ _ _ (byte_order-Returns (slice exif 0 2)) (λ order _ _.
      Returns-require _ _ _ _ (λ _.
        Returns-require _ _ _ _ (λ _.
          Returns-require _ _ _ _ (λ _. read_entries-Returns order exif _ _ 0 (omega arith))))))

-- What `orientation` reads is 0 or one of the eight orientations.
pub orientation-Returns : (exif : Bytes) → Returns Le8 (orientation exif)
unfolding orientation
orientation-Returns exif =
    read_tiff-Returns (if has_prefix exif exif_header then drop 6 exif else exif)
