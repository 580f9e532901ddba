-- ===== src/Fs/Files/Devices.antt =====
-- `read` and `write` of kernel/src/fs/vfs.rs on the devices of kernel/src/drivers/char.
use riptide.Prelude.{ℕ, ◌+◌, ◌≤◌, ◌≡◌, refl, some, Bytes, length, replicate}
use riptide.BTreeMap.{lookup}
use riptide.BTreeMap.Keys.{nat_key}
use riptide.Fs.Types.{
  File, read, write, NodeCell, device, CharDevice, null_device, zero_device, char_device, VfsMount,
  dev, word_max, is_directory, operation_not_supported,
}
use riptide.Fs.State.{Vfs, ok, err, ◌>>=◌}
use riptide.Fs.Node.{data_as, get_cell}
use riptide.Fs.Dev.{dev_read, dev_write, device_read, device_write}
use riptide.Fs.Drivers.{file_system, read_file, write_file, type_of}
use riptide.Fs.Files.{read_fd, write_fd}
use riptide.Fs.Files.RamFiles.{moved, leb-true}

-- A descriptor of a device.
pub record IsDevice (fd : ℕ) (f : File) (m : VfsMount) (c : NodeCell) (d : CharDevice) (s : Vfs)
    : Type 0 where
  pub is_open : lookup fd s.files ≡ some f
  pub is_char_device : f.node.kind ≡ char_device
  pub mounted : lookup f.node.mount_id s.mount_table ≡ some m
  pub in_dev : type_of m ≡ dev
  pub cell : lookup f.node.address s.cells ≡ some c
  pub behind : c.private_data ≡ device d

module _ (fd : ℕ) (f : File) (m : VfsMount) (c : NodeCell) (buffer : Bytes) (s : Vfs) where
  -- A read of the zero device through a descriptor that is open for reading fills the whole buffer
  -- with zeros and moves the position by its length, if it still fits into a `usize` then.
  pub read_fd-zero :
      IsDevice fd f m c zero_device s
      → f.mode ≡ read
      → f.position + length buffer ≤ word_max
      → read_fd fd buffer s
        ≡ (ok (length buffer, replicate (length buffer) 0), moved fd f (length buffer) s)
  unfolding read_fd is_directory file_system read_file dev_read device_read data_as get_cell ◌>>=◌
  read_fd-zero h w fit =
      rw (h.is_open, h.is_char_device, w, h.mounted, h.in_dev, h.cell, h.behind, leb-true _ _ fit)
        refl

  -- A write to the null device takes the whole buffer, and changes nothing but the position.
  pub write_fd-null :
      IsDevice fd f m c null_device s
      → f.mode ≡ write
      → f.position + length buffer ≤ word_max
      → write_fd fd buffer s ≡ (ok (length buffer), moved fd f (length buffer) s)
  unfolding write_fd is_directory file_system write_file dev_write device_write data_as get_cell
      ◌>>=◌
  write_fd-null h w fit =
      rw (h.is_open, h.is_char_device, w, h.mounted, h.in_dev, h.cell, h.behind, leb-true _ _ fit)
        refl

  -- A read of the null device is refused.
  pub read_fd-null :
      IsDevice fd f m c null_device s
      → f.mode ≡ read
      → read_fd fd buffer s ≡ (err operation_not_supported, s)
  unfolding read_fd is_directory file_system read_file dev_read device_read data_as get_cell ◌>>=◌
  read_fd-null h w = rw (h.is_open, h.is_char_device, w, h.mounted, h.in_dev, h.cell, h.behind) refl
