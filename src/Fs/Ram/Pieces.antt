-- ===== src/Fs/Ram/Pieces.antt =====
-- Writes and reads of a RAM file in pieces (kernel/src/drivers/fs/ram.rs): two in a row, the second
-- where the first ended, and one of both lengths.
use riptide.Prelude.{
  ℕ, zero, suc, ◌+◌, ◌-◌, ◌≡◌, sym, ap, ◌∙◌, [], ◌∷◌, ◌++◌, Bytes, arith, length, take, drop, min,
  length-append, length-take, length-drop, take-length_append, take-all,
}
use riptide.Fs.Ram.{read_at, write_at}
use riptide.Fs.Ram.ByteAt.{byte_at, byte_at-append_left, byte_at-append_right, same_bytes, drop-all}
use riptide.Fs.Ram.ReadWrite.{byte_at-write_at, length-write_at, read_at-count}

-- A write behind a write is one write of both texts.
pub write_at-append :
    (content left right : Bytes) (offset : ℕ)
    → write_at (write_at content offset left) (offset + length left) right
      ≡ write_at content offset (left ++ right)
write_at-append content left right offset =
    same_bytes _ _
      (omega (
        arith,
        length-write_at (write_at content offset left) (offset + length left) right,
        length-write_at content offset left,
        length-write_at content offset (left ++ right),
        length-append left right,
      ))
      λ i.
        let e : i - (offset + length left) ≡ i - offset - length left = omega arith in
        ground (
          arith,
          byte_at-write_at (write_at content offset left) (offset + length left) right i,
          byte_at-write_at content offset left i,
          byte_at-write_at content offset (left ++ right) i,
          length-append left right,
          byte_at-append_left left right (i - offset),
          byte_at-append_right left right (i - offset),
          ap (byte_at right) e,
        )

drop-drop : (n k : ℕ) (xs : Bytes) → drop n (drop k xs) ≡ drop (k + n) xs
drop-drop n zero xs = ap (λ k. drop k xs) (omega arith)
drop-drop zero (suc k) [] = sym (drop-all (suc k + 0) [] (omega arith))
drop-drop (suc n) (suc k) [] = sym (drop-all (suc k + suc n) [] (omega arith))
drop-drop n (suc k) (x ∷ xs) =
    let e : suc (k + n) ≡ suc k + n = omega arith in drop-drop n k xs ∙ ap (λ j. drop j (x ∷ xs)) e

take_add : (n k : ℕ) (xs : Bytes) → take n xs ++ take k (drop n xs) ≡ take (n + k) xs
take_add zero k xs = ap (λ j. take j xs) (omega arith)
take_add (suc n) zero [] = sym (take-all (suc n + 0) [] (omega arith))
take_add (suc n) (suc k) [] = sym (take-all (suc n + suc k) [] (omega arith))
take_add (suc n) k (x ∷ xs) =
    let e : suc (n + k) ≡ suc n + k = omega arith in
    ap (λ t. x ∷ t) (take_add n k xs) ∙ ap (λ j. take j (x ∷ xs)) e

-- What a read has put into the buffer.
take_read_lem :
    (content buffer : Bytes) (offset : ℕ)
    → take (read_at content offset buffer).0 (read_at content offset buffer).1
      ≡ take (read_at content offset buffer).0 (drop offset content)
unfolding read_at
take_read_lem content buffer offset =
    let size = min (length buffer) (length content - offset) in
    let front = take size (drop offset content) in
    let len : length front ≡ size =
      omega (arith, length-take size (drop offset content), length-drop offset content) in
    let taken : take size (front ++ drop size buffer) ≡ front =
      ap (λ n. take n (front ++ drop size buffer)) (sym len)
      ∙ take-length_append front (drop size buffer) in
    ground (arith, taken)

module _ (content left right : Bytes) (offset : ℕ) where
  abbrev first : ℕ
  first = (read_at content offset left).0

  abbrev second : ℕ
  second = (read_at content (offset + first) right).0

  pub read_at-count_append : (read_at content offset (left ++ right)).0 ≡ first + second
  read_at-count_append = omega (
    arith,
    (read_at-count content offset left).0,
    (read_at-count content (offset + first) right).0,
    (read_at-count content offset (left ++ right)).0,
    length-append left right,
  )

  -- What two reads give, one behind the other, is what one read with both buffers gives.
  pub read_at-append :
      take first (read_at content offset left).1
        ++ take second (read_at content (offset + first) right).1
      ≡ take (first + second) (read_at content offset (left ++ right)).1
  read_at-append =
      ap (λ t. t ++ take second (read_at content (offset + first) right).1)
        (take_read_lem content left offset)
      ∙ ap (λ t. take first (drop offset content) ++ t)
          (take_read_lem content right (offset + first)
            ∙ ap (take second) (sym (drop-drop first offset content)))
      ∙ take_add first second (drop offset content)
      ∙ ap (λ n. take n (drop offset content)) (sym read_at-count_append)
      ∙ sym (take_read_lem content (left ++ right) offset)
      ∙ ap (λ n. take n (read_at content offset (left ++ right)).1) read_at-count_append
