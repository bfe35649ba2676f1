-- ===== src/Image/Chunks.antt =====
-- What the chunks of a PNG file are, and that the loop of `stripPNG` reads them back.
use velvet.Common.{
  ℕ, ◌+◌, ◌-◌, ◌≤◌, ◌≡◌, refl, sym, ap, ◌∙◌, true, false, ◌++◌, ◌==◌, ltb, arith, length,
  length-append, take, drop,
}
use velvet.Common.Text.{Bytes}
use velvet.Image.{ok, ◌>>=◌, slice, uint, big}
use velvet.Image.Png.{Chunk, read_chunk, read_sized}
use velvet.Image.Returns.{Returns, gives, Returns-require}
use velvet.Image.Slices.{
  take-append-drop, length-take, length-drop, take-append_all, drop-append_all, slice-append,
}

module _ (checksum : Bytes → ℕ) where
  -- The bytes are one chunk of this kind with this payload.
  pub record IsChunk (whole kind payload : Bytes) : Type 0 where
    pub sized : length whole ≡ uint big (slice whole 0 4) + 12
    pub named : slice whole 4 8 ≡ kind
    pub carries : slice whole 8 (8 + uint big (slice whole 0 4)) ≡ payload
    pub summed :
        (checksum (slice whole 4 (uint big (slice whole 0 4) + 8))
          == uint big (drop (uint big (slice whole 0 4) + 8) whole))
        ≡ true

  -- A chunk is read from the head of any bytes.
  pub read_chunk-whole :
      (whole kind payload more : Bytes)
      → IsChunk whole kind payload
      → read_chunk checksum (whole ++ more)
        ≡ ok (record { kind = kind; whole = whole; payload = payload; rest = more })
  unfolding read_chunk read_sized ◌>>=◌
  read_chunk-whole whole kind payload more c =
      let n : ℕ = uint big (slice whole 0 4) in
      let all : length whole ≡ n + 12 = c.sized in
      let total : length (whole ++ more) ≡ n + 12 + length more =
        omega (arith, length-append whole more) in
      let long : ltb (length (whole ++ more)) 12 ≡ false = ground arith in
      let size : uint big (slice (whole ++ more) 0 4) ≡ n =
        ap (uint big) (slice-append whole more 0 4 (omega arith) (omega arith)) in
      let fits : ltb (length (whole ++ more) - 12) n ≡ false = ground arith in
      let front : take (n + 12) (whole ++ more) ≡ whole = rw (← all) (take-append_all whole more) in
      let back : drop (n + 12) (whole ++ more) ≡ more = rw (← all) (drop-append_all whole more) in
      let name : slice (whole ++ more) 4 8 ≡ kind =
        slice-append whole more 4 8 (omega arith) (omega arith) ∙ c.named in
      let load : slice (whole ++ more) 8 (8 + n) ≡ payload =
        slice-append whole more 8 (8 + n) (omega arith) (omega arith) ∙ c.carries in
      rw long (rw size (rw fits (rw front (rw c.summed (rw (name, load, back) refl)))))

  pub record WasRead (rest : Bytes) (c : Chunk) : Type 0 where
    pub is : IsChunk c.whole c.kind c.payload
    pub split : rest ≡ c.whole ++ c.rest
    pub shorter : length c.rest + 12 ≤ length rest

  read_sized-WasRead :
      (rest : Bytes) (n : ℕ)
      → n ≡ uint big (slice rest 0 4)
      → 12 ≤ length rest
      → Returns (WasRead rest) (read_sized checksum rest n)
  unfolding read_sized
  read_sized-WasRead rest n e long = Returns-require _ _ _ _ (λ fits.
      Returns-require _ _ _ _ (λ sum.
        let w : Bytes = take (n + 12) rest in
        let enough : n + 12 ≤ length rest = ground arith in
        let all : length w ≡ n + 12 = length-take (n + 12) rest enough in
        let split : w ++ drop (n + 12) rest ≡ rest = take-append-drop (n + 12) rest in
        let same : (a b : ℕ) → a ≤ b → b ≤ n + 12 → slice w a b ≡ slice rest a b = λ a b h k.
          sym (slice-append w (drop (n + 12) rest) a b h (omega arith))
          ∙ ap (λ r. slice r a b) split in
        let size : uint big (slice w 0 4) ≡ n =
          ap (uint big) (same 0 4 (omega arith) (omega arith)) ∙ sym e in
        gives _ (record {
          is = record {
            sized = omega arith;
            named = same 4 8 (omega arith) (omega arith);
            carries = rw size (same 8 (8 + n) (omega arith) (omega arith));
            summed = rw size sum;
          };
          split = sym split;
          shorter = omega (arith, length-drop (n + 12) rest);
        })))

  pub read_chunk-WasRead : (rest : Bytes) → Returns (WasRead rest) (read_chunk checksum rest)
  unfolding read_chunk
  read_chunk-WasRead rest =
      Returns-require _ _ _ _ (λ long. read_sized-WasRead rest _ refl (ground arith))
