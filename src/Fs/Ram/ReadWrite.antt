-- ===== src/Fs/Ram/ReadWrite.antt =====
-- The bytes of a RAM file (`FileOperations for RamFileSystem`): what `write` leaves in it, and what
-- `read` gives back.
use riptide.Prelude.{append-nil}
use riptide.Prelude.{
  ℕ, ◌+◌, ◌-◌, ◌≤◌, ◌<◌, ◌≡◌, refl, ap, ◌∙◌, [], ◌++◌, Bytes, arith, length, take, drop, replicate,
  ltb, if◌then◌else◌, min, max, length-append, length-take, length-drop, length-replicate,
  take-length_append, take-all,
}
use riptide.Fs.Ram.{read_at, resize, copy_over, write_at}
use riptide.Fs.Ram.ByteAt.{
  byte_at, byte_at-append_left, byte_at-append_right, byte_at-take, byte_at-drop, byte_at_beyond,
  byte_at-replicate, drop-take_append, drop-all,
}

-- Growing with zeros changes no byte.
byte_at-resize :
    (content : Bytes) (n i : ℕ)
    → length content ≤ n
    → byte_at (resize content n) i ≡ byte_at content i
byte_at-resize content n i h = ground (
  arith,
  take-all n content h,
  byte_at-append_right content (replicate (n - length content) 0) i,
  byte_at-replicate (n - length content) (i - length content),
  byte_at_beyond content i,
  byte_at-append_left content (replicate (n - length content) 0) i,
)

length-resize : (content : Bytes) (n : ℕ) → length content ≤ n → length (resize content n) ≡ n
length-resize content n h = omega (
  arith,
  length-append (take n content) (replicate (n - length content) 0),
  length-take n content,
  length-replicate {A = ℕ} (n - length content) 0,
)

length-copy_over :
    (content : Bytes) (offset : ℕ) (buffer : Bytes)
    → offset + length buffer ≤ length content
    → length (copy_over content offset buffer) ≡ length content
length-copy_over content offset buffer h = omega (
  arith,
  length-append (take offset content) (buffer ++ drop (offset + length buffer) content),
  length-append buffer (drop (offset + length buffer) content),
  length-take offset content,
  length-drop (offset + length buffer) content,
)

-- The copy, byte by byte: before, inside and behind what is copied.
module _ (content : Bytes) (offset : ℕ) (buffer : Bytes) (i : ℕ) where
  copy_over_before :
      i < offset
      → offset ≤ length content
      → byte_at (copy_over content offset buffer) i ≡ byte_at content i
  copy_over_before h fit =
      byte_at-append_left (take offset content) _ i (omega (arith, length-take offset content))
      ∙ byte_at-take offset content i h

  copy_over_from :
      offset ≤ i
      → offset ≤ length content
      → byte_at (copy_over content offset buffer) i
        ≡ byte_at (buffer ++ drop (offset + length buffer) content) (i - offset)
  copy_over_from h fit =
      let len : length (take offset content) ≡ offset = omega (arith, length-take offset content) in
      byte_at-append_right (take offset content) _ i (omega (arith, len))
      ∙ ap (λ k. byte_at (buffer ++ drop (offset + length buffer) content) (i - k)) len

  copy_over_inside :
      offset ≤ i
      → i < offset + length buffer
      → offset ≤ length content
      → byte_at (copy_over content offset buffer) i ≡ byte_at buffer (i - offset)
  copy_over_inside h g fit =
      copy_over_from h fit ∙ byte_at-append_left buffer _ (i - offset) (omega arith)

  copy_over_behind :
      offset + length buffer ≤ i
      → offset ≤ length content
      → byte_at (copy_over content offset buffer) i ≡ byte_at content i
  copy_over_behind h fit =
      let e : offset + length buffer + (i - offset - length buffer) ≡ i = omega arith in
      copy_over_from (omega arith) fit
      ∙ byte_at-append_right buffer _ (i - offset) (omega arith)
      ∙ byte_at-drop (offset + length buffer) content (i - offset - length buffer)
      ∙ ap (byte_at content) e

  copy_over_write :
      offset + length buffer ≤ length content
      → byte_at (copy_over content offset buffer) i ≡ (
          if ltb i offset
          then byte_at content i
          else if ltb i (offset + length buffer)
          then byte_at buffer (i - offset)
          else byte_at content i)
  copy_over_write fit = ground (arith, copy_over_before, copy_over_inside, copy_over_behind)

module _ (content : Bytes) (offset : ℕ) (buffer : Bytes) (i : ℕ) where
  pub byte_at-write_at : byte_at (write_at content offset buffer) i ≡ (
      if ltb i offset
      then byte_at content i
      else if ltb i (offset + length buffer)
      then byte_at buffer (i - offset)
      else byte_at content i)
  unfolding write_at
  byte_at-write_at = ground (
    arith,
    copy_over_write (resize content (offset + length buffer)) offset buffer i,
    copy_over_write content offset buffer i,
    byte_at-resize content (offset + length buffer) i,
    length-resize content (offset + length buffer),
  )

-- A write makes the file as long as it must be for the write to fit, and never shorter.
pub length-write_at :
    (content : Bytes) (offset : ℕ) (buffer : Bytes)
    → length (write_at content offset buffer) ≡ max (length content) (offset + length buffer)
unfolding write_at
length-write_at content offset buffer =
    let end = offset + length buffer in
    ground (
      arith,
      length-resize content end,
      length-copy_over content offset buffer,
      length-copy_over (resize content end) offset buffer,
    )

-- A write changes the bytes from its offset on to those of its buffer, and no other; the file keeps
-- its length, or becomes as long as it must be for the write. Where the write starts behind the file,
-- the gap before it is filled with zeros: `byte_at` is zero behind the end of `content`.
pub write_at_lem :
    (content : Bytes) (offset : ℕ) (buffer : Bytes)
    → (length (write_at content offset buffer) ≡ max (length content) (offset + length buffer))
      × ((i : ℕ)
          → byte_at (write_at content offset buffer) i ≡ (
              if ltb i offset
              then byte_at content i
              else if ltb i (offset + length buffer)
              then byte_at buffer (i - offset)
              else byte_at content i))
write_at_lem content offset buffer =
    (length-write_at content offset buffer, byte_at-write_at content offset buffer)

-- A read behind the end gives nothing; any other gives what is there, up to the buffer's length. The
-- buffer keeps its length.
pub read_at-count :
    (content : Bytes) (offset : ℕ) (buffer : Bytes)
    → ((read_at content offset buffer).0 ≡ min (length buffer) (length content - offset))
      × (length (read_at content offset buffer).1 ≡ length buffer)
unfolding read_at
read_at-count content offset buffer =
    let size = min (length buffer) (length content - offset) in
    ground (
      arith,
      length-append (take size (drop offset content)) (drop size buffer),
      length-take size (drop offset content),
      length-drop offset content,
      length-drop size buffer,
    )

byte_at-filled :
    (content : Bytes) (offset : ℕ) (buffer : Bytes) (i size : ℕ)
    → size ≤ length content - offset
    → byte_at (take size (drop offset content) ++ drop size buffer) i
      ≡ (if ltb i size then byte_at content (offset + i) else byte_at buffer i)
byte_at-filled content offset buffer i size h =
    let len : length (take size (drop offset content)) ≡ size =
      omega (arith, length-take size (drop offset content), length-drop offset content) in
    ground (
      arith,
      len,
      byte_at-append_left (take size (drop offset content)) (drop size buffer) i,
      byte_at-append_right (take size (drop offset content)) (drop size buffer) i,
      byte_at-take size (drop offset content) i,
      byte_at-drop offset content i,
      byte_at-drop size buffer (i - size),
    )

-- A read fills the buffer's front, as far as it says, with the bytes from its offset on, and leaves
-- the rest of the buffer as it was.
pub byte_at-read_at :
    (content : Bytes) (offset : ℕ) (buffer : Bytes) (i : ℕ)
    → byte_at (read_at content offset buffer).1 i ≡ (
        if ltb i (read_at content offset buffer).0
        then byte_at content (offset + i)
        else byte_at buffer i)
unfolding read_at
byte_at-read_at content offset buffer i =
    let size = min (length buffer) (length content - offset) in
    ground (arith, byte_at-filled content offset buffer i size (omega arith))

read_at-copy_over :
    (content : Bytes) (offset : ℕ) (data_in buffer : Bytes)
    → length buffer ≡ length data_in
    → offset + length data_in ≤ length content
    → read_at (copy_over content offset data_in) offset buffer ≡ (length data_in, data_in)
unfolding read_at
read_at-copy_over content offset data_in buffer h fit =
    let rest = drop (offset + length data_in) content in
    let nil_right : data_in ++ [] ≡ data_in = rw append-nil refl in
    ground (
      arith,
      length-copy_over content offset data_in fit,
      drop-take_append offset content (data_in ++ rest),
      take-length_append data_in rest,
      drop-all (length data_in) buffer,
      nil_right,
    )

-- What a write put into a file is what a read at the same offset, with a buffer of its length, gives.
pub read_at-write_at :
    (content : Bytes) (offset : ℕ) (data_in buffer : Bytes)
    → length buffer ≡ length data_in
    → read_at (write_at content offset data_in) offset buffer ≡ (length data_in, data_in)
unfolding read_at write_at
read_at-write_at content offset data_in buffer h = ground (
  arith,
  read_at-copy_over content offset data_in buffer h,
  read_at-copy_over (resize content (offset + length data_in)) offset data_in buffer h,
  length-resize content (offset + length data_in),
)
