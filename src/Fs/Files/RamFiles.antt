-- ===== src/Fs/Files/RamFiles.antt =====
-- `read` and `write` of kernel/src/fs/vfs.rs on a file of the RAM file system: the whole call, from
-- the descriptor to the bytes.
use riptide.Prelude.{
  ℕ, ◌+◌, ◌≤◌, ◌≡◌, ◌≢◌, refl, sym, ap, ◌∙◌, true, false, some, Bytes, arith, length, leb,
}
use riptide.BTreeMap.{lookup, insert, lookup-insert_self, lookup-insert_ne}
use riptide.BTreeMap.Keys.{nat_key}
use riptide.Fs.Types.{
  File, read, write, FsNode, NodeCell, ram_file, VfsMount, ram, word_max, is_directory,
}
use riptide.Fs.State.{Vfs, ok, ◌>>=◌}
use riptide.Fs.Node.{data_as, set_data, get_cell, set_cell}
use riptide.Fs.Ram.{read_at, write_at, ram_read, ram_write}
use riptide.Fs.Ram.ReadWrite.{read_at-write_at}
use riptide.Fs.Drivers.{file_system, read_file, write_file, type_of}
use riptide.Fs.Files.{read_fd, write_fd}

-- A descriptor of a file of the RAM file system, and the bytes of the file.
pub record IsRamFile (fd : ℕ) (f : File) (m : VfsMount) (c : NodeCell) (content : Bytes) (s : Vfs)
    : Type 0 where
  pub is_open : lookup fd s.files ≡ some f
  pub is_file : is_directory f.node ≡ false
  pub mounted : lookup f.node.mount_id s.mount_table ≡ some m
  pub in_ram : type_of m ≡ ram
  pub cell : lookup f.node.address s.cells ≡ some c
  pub bytes : c.private_data ≡ ram_file content

abbrev pub moved : ℕ → File → ℕ → Vfs → Vfs
moved fd f n s = record s { files = insert fd (record f { position = f.position + n }) s.files }

pub leb-true : (a b : ℕ) → a ≤ b → leb a b ≡ true
leb-true a b h = ground arith

module _ (fd : ℕ) (f : File) (m : VfsMount) (c : NodeCell) (content buffer : Bytes) (s : Vfs)
    (h : IsRamFile fd f m c content s) where
  pub write_fd-ram :
      f.mode ≡ write
      → f.position + length buffer ≤ word_max
      → write_fd fd buffer s ≡ (
        ok (length buffer),
        moved fd f (length buffer) (
            set_cell f.node.address
              (record c { private_data = ram_file (write_at content f.position buffer) })
              s),
      )
  unfolding write_fd file_system write_file ram_write data_as set_data get_cell ◌>>=◌
  write_fd-ram w fit =
      rw (h.is_open, h.is_file, w, h.mounted, h.in_ram, h.cell, h.bytes, leb-true _ _ fit)
        (rw (h.cell, leb-true _ _ fit) refl)

  pub read_fd-ram :
      f.mode ≡ read
      → f.position + (read_at content f.position buffer).0 ≤ word_max
      → read_fd fd buffer s ≡ (
        ok (read_at content f.position buffer),
        moved fd f (read_at content f.position buffer).0 s,
      )
  unfolding read_fd file_system read_file ram_read data_as get_cell ◌>>=◌
  read_fd-ram w fit =
      rw (h.is_open, h.is_file, w, h.mounted, h.in_ram, h.cell, h.bytes, leb-true _ _ fit) refl

-- What is written through a descriptor of a file of the RAM file system that is open for writing is
-- read back through another one that is open for reading and stands at the same position of the same
-- file, by a read with a buffer of the same length, as long as the position behind it fits into a
-- `usize`; the position of each moves on by that length.
pub read_fd-write_fd :
    (out_fd in_fd : ℕ) (f g : File) (m : VfsMount) (c : NodeCell) (content data_out buffer : Bytes)
    (s : Vfs)
    → IsRamFile out_fd f m c content s
    → lookup in_fd s.files ≡ some g
    → in_fd ≢ out_fd
    → g.node ≡ f.node
    → g.position ≡ f.position
    → f.mode ≡ write
    → g.mode ≡ read
    → length buffer ≡ length data_out
    → f.position + length data_out ≤ word_max
    → (s2 s3 : Vfs) × (write_fd out_fd data_out s ≡ (ok (length data_out), s2))
      × (read_fd in_fd buffer s2 ≡ (ok (length data_out, data_out), s3))
      × (lookup out_fd s3.files ≡ some (record f { position = f.position + length data_out }))
      × (lookup in_fd s3.files ≡ some (record g { position = g.position + length data_out }))
read_fd-write_fd out_fd in_fd f g m c content data_out buffer s h g_open ne node at fm gm len fit =
    let n = length data_out in
    let kept = write_at content f.position data_out in
    let c2 : NodeCell = record c { private_data = ram_file kept } in
    let s2 = moved out_fd f n (set_cell f.node.address c2 s) in
    let back : read_at kept g.position buffer ≡ (n, data_out) =
      ap (λ p. read_at kept p buffer) at
      ∙ read_at-write_at content f.position data_out buffer len in
    let other : IsRamFile in_fd g m c2 kept s2 = record {
      is_open = lookup-insert_ne in_fd out_fd _ s.files ne ∙ g_open;
      is_file = ap is_directory node ∙ h.is_file;
      mounted = ap (λ (x : FsNode). lookup x.mount_id s.mount_table) node ∙ h.mounted;
      in_ram = h.in_ram;
      cell =
          ap (λ (x : FsNode). lookup x.address s2.cells) node
          ∙ lookup-insert_self f.node.address c2 s.cells;
      bytes = refl;
    } in
    let fits : g.position + (read_at kept g.position buffer).0 ≤ word_max = rw (back, at) fit in
    (
      s2,
      moved in_fd g n s2,
      write_fd-ram out_fd f m c content data_out s h fm fit,
      read_fd-ram in_fd g m c2 kept buffer s2 other gm fits
          ∙ ap (λ (r : ℕ × Bytes). (ok r, moved in_fd g r.0 s2)) back,
      lookup-insert_ne out_fd in_fd _ s2.files (λ e. ne (sym e))
          ∙ lookup-insert_self out_fd _ s.files,
      lookup-insert_self in_fd _ s2.files,
    )
