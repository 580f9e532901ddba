-- ===== src/Fs/Files/Pieces.antt =====
-- `read` and `write` of kernel/src/fs/vfs.rs in pieces, on a file of the RAM file system: two calls in a
-- row, and one call with both buffers.
use riptide.Prelude.{
  ℕ, ◌+◌, ◌≤◌, ◌≡◌, refl, ap, ◌∙◌, ◌++◌, Bytes, arith, length, take, length-append,
}
use riptide.BTreeMap.{insert, lookup-insert_self, insert-insert}
use riptide.BTreeMap.Keys.{nat_key}
use riptide.Fs.Types.{File, read, write, NodeCell, ram_file, VfsMount, word_max}
use riptide.Fs.State.{Vfs, ok}
use riptide.Fs.Node.{set_cell}
use riptide.Fs.Ram.{read_at, write_at}
use riptide.Fs.Ram.ReadWrite.{read_at-count}
use riptide.Fs.Ram.Pieces.{write_at-append, read_at-count_append, read_at-append}
use riptide.Fs.Files.{read_fd, write_fd}
use riptide.Fs.Files.RamFiles.{IsRamFile, moved, write_fd-ram, read_fd-ram}

-- A position that moves on twice.
moved-moved :
    (fd : ℕ) (f : File) (n k : ℕ) (s : Vfs)
    → moved fd (record f { position = f.position + n }) k (moved fd f n s) ≡ moved fd f (n + k) s
moved-moved fd f n k s =
    let e : f.position + n + k ≡ f.position + (n + k) = omega arith in
    ap (λ m. record s { files = m })
      (insert-insert fd (record f { position = f.position + n + k })
        (record f { position = f.position + n }) s.files)
    ∙ ap (λ (p : ℕ). record s { files = insert fd (record f { position = p }) s.files }) e

module _ (fd : ℕ) (f : File) (m : VfsMount) (c : NodeCell) (content : Bytes) (s : Vfs)
    (h : IsRamFile fd f m c content s) where
  -- The file after a transfer, at its new position.
  moved-IsRamFile :
      (n : ℕ) → IsRamFile fd (record f { position = f.position + n }) m c content (moved fd f n s)
  moved-IsRamFile n = record {
    is_open = lookup-insert_self fd (record f { position = f.position + n }) s.files;
    is_file = h.is_file;
    mounted = h.mounted;
    in_ram = h.in_ram;
    cell = h.cell;
    bytes = h.bytes;
  }

  -- The file with other bytes.
  abbrev pub filled : Bytes → NodeCell
  filled bytes = record c { private_data = ram_file bytes }

  pub filled-IsRamFile :
      (bytes : Bytes)
      → IsRamFile fd f m (filled bytes) bytes (set_cell f.node.address (filled bytes) s)
  filled-IsRamFile bytes = record {
    is_open = h.is_open;
    is_file = h.is_file;
    mounted = h.mounted;
    in_ram = h.in_ram;
    cell = lookup-insert_self f.node.address (filled bytes) s.cells;
    bytes = refl;
  }

-- Two writes in a row are one write of both texts: each returns the length of its text, and the state
-- behind them is the one behind the single write. On a file of the RAM file system that is open for
-- writing, where the position behind both fits into a `usize`.
pub write_fd-append :
    (fd : ℕ) (f : File) (m : VfsMount) (c : NodeCell) (content left right : Bytes) (s : Vfs)
    → IsRamFile fd f m c content s
    → f.mode ≡ write
    → f.position + (length left + length right) ≤ word_max
    → (s2 s3 : Vfs) × (write_fd fd left s ≡ (ok (length left), s2))
      × (write_fd fd right s2 ≡ (ok (length right), s3))
      × (write_fd fd (left ++ right) s ≡ (ok (length left + length right), s3))
write_fd-append fd f m c content left right s h w fit =
    let n = length left in
    let a = f.node.address in
    let both = write_at content f.position (left ++ right) in
    let one = write_at content f.position left in
    let c1 = filled fd f m c content s h one in
    let s1 = set_cell a c1 s in
    let f2 : File = record f { position = f.position + n } in
    let s2 = moved fd f n s1 in
    let h2 : IsRamFile fd f2 m c1 one s2 =
      moved-IsRamFile fd f m c1 one s1 (filled-IsRamFile fd f m c content s h one) n in
    let s3 = moved fd f (n + length right) (set_cell a (filled fd f m c content s h both) s) in
    let twice : moved fd f2 (length right) (
          set_cell a (record c1 { private_data = ram_file (write_at one (f.position + n) right) })
            s2)
        ≡ s3 =
      moved-moved fd f n (length right)
        (set_cell a (filled fd f m c content s h (write_at one (f.position + n) right)) s1)
      ∙ ap (λ cells. moved fd f (n + length right) (record s { cells = cells }))
          (insert-insert a (filled fd f m c content s h (write_at one (f.position + n) right)) c1
            s.cells)
      ∙ ap
          (λ bytes.
            moved fd f (n + length right) (set_cell a (filled fd f m c content s h bytes) s))
          (write_at-append content left right f.position) in
    let len = length-append left right in
    (
      s2,
      s3,
      write_fd-ram fd f m c content left s h w (omega (arith, fit)),
      write_fd-ram fd f2 m c1 one right s2 h2 w (omega (arith, fit))
          ∙ ap (λ (t : Vfs). (ok (length right), t)) twice,
      write_fd-ram fd f m c content (left ++ right) s h w (omega (arith, fit, len))
          ∙ ap (λ (k : ℕ). (ok k, moved fd f k (set_cell a (filled fd f m c content s h both) s)))
              len,
    )

-- Two reads in a row give, one behind the other, what one read with a buffer as long as both gives,
-- and leave the same state. On a file of the RAM file system that is open for reading, where the
-- position behind both fits into a `usize`.
pub read_fd-append :
    (fd : ℕ) (f : File) (m : VfsMount) (c : NodeCell) (content left right : Bytes) (s : Vfs)
    → IsRamFile fd f m c content s
    → f.mode ≡ read
    → f.position + (length left + length right) ≤ word_max
    → (n k : ℕ) × (first second both : Bytes) × (s2 s3 : Vfs) × (read_fd fd left s
        ≡ (ok (n, first), s2))
      × (read_fd fd right s2 ≡ (ok (k, second), s3))
      × (read_fd fd (left ++ right) s ≡ (ok (n + k, both), s3))
      × (take n first ++ take k second ≡ take (n + k) both)
read_fd-append fd f m c content left right s h r fit =
    let n = (read_at content f.position left).0 in
    let k = (read_at content (f.position + n) right).0 in
    let f2 : File = record f { position = f.position + n } in
    let s2 = moved fd f n s in
    let count = read_at-count_append content left right f.position in
    let below = read_at-count content f.position left in
    let below2 = read_at-count content (f.position + n) right in
    let both = (read_at content f.position (left ++ right)).1 in
    (
      n,
      k,
      (read_at content f.position left).1,
      (read_at content (f.position + n) right).1,
      both,
      s2,
      moved fd f (n + k) s,
      read_fd-ram fd f m c content left s h r (omega (arith, fit, below.0)),
      read_fd-ram fd f2 m c content right s2 (moved-IsRamFile fd f m c content s h n) r
            (omega (arith, fit, below.0, below2.0))
          ∙ ap (λ (t : Vfs). (ok (read_at content (f.position + n) right), t))
              (moved-moved fd f n k s),
      read_fd-ram fd f m c content (left ++ right) s h r
            (omega (arith, fit, count, below.0, below2.0))
          ∙ ap (λ (j : ℕ). (ok (j, both), moved fd f j s)) count,
      read_at-append content left right f.position,
    )
