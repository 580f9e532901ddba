-- ===== src/Fs/Dev.antt =====
-- The device file system (kernel/src/drivers/fs/dev.rs) and its character devices
-- (kernel/src/drivers/char).
use riptide.Prelude.{◌=s=◌}
use riptide.Fs.Types.{FileSystem, MountFlags, directory, no_data, node_id_zero, word_max, dev}
use riptide.Prelude.{Bool, true, false, if◌then◌else◌}
use riptide.Fs.State.{match_option}
use riptide.Fs.Types.{VfsMount}
use riptide.Prelude.{ℕ, Option, none, some, Bytes, length, replicate, List, [], ◌∷◌}
use riptide.Fs.Types.{
  FsNode, FsNodeKind, char_device, CharDevice, null_device, zero_device, device, File,
  IterationContext, operation_not_supported,
}
use riptide.Fs.State.{Io, pure, raise, panics, gets, ◌>>=◌, ◌>>◌, assert}
use riptide.Fs.Registry.{device_name, list_char_devices, get_char_device}
use riptide.Fs.Node.{new_node, data_as, as_device}
use riptide.Fs.Ram.{next_node_id, list_entry}

-- `FileOperations` of a device: `read`. `ZeroDevice` fills the buffer, `NullDevice` has the default.
unfoldable pub device_read : CharDevice → Bytes → Io (ℕ × Bytes)
device_read null_device buffer = raise operation_not_supported
device_read zero_device buffer = pure (length buffer, replicate (length buffer) 0)

-- `write`: `NullDevice` drops the bytes, `ZeroDevice` has the default.
unfoldable pub device_write : CharDevice → Bytes → Io ℕ
device_write null_device buffer = pure (length buffer)
device_write zero_device buffer = raise operation_not_supported

-- `DevFileSystemType::mount`; the root has no private data
unfoldable pub dev_mount : ℕ → Bytes → MountFlags → Io FileSystem
dev_mount mount_id source flags = do
  assert (source =s= [])
  root ← new_node node_id_zero mount_id directory no_data
  pure (record {
    metadata = record {
      device = none;
      mount_flags = flags;
      block_size = 512;
      max_file_size = word_max;
      file_system_type = dev;
    };
    next_node_id = 1;
    root = root;
  })

-- `FsNodeOperations for DevFileSystem`: `write_node` and `evict_node`, which nothing calls
unfoldable pub dev_write_node : FsNode → Io (Unit {0})
dev_write_node n = pure tt

unfoldable pub dev_evict_node : FsNode → Io (Unit {0})
dev_evict_node n = pure tt

abbrev is_char_device : FsNodeKind → Bool
is_char_device char_device = true
is_char_device _ = false

-- `FileOperations for DevFileSystem`: `read`
unfoldable pub dev_read : File → Bytes → Io (ℕ × Bytes)
unfolding device_read
dev_read f buffer =
    if is_char_device f.node.kind
    then (data_as as_device f.node >>= λ d. device_read d buffer)
    else panics

-- `write`
unfoldable pub dev_write : File → Bytes → Io ℕ
unfolding device_write
dev_write f buffer =
    if is_char_device f.node.kind
    then (data_as as_device f.node >>= λ d. device_write d buffer)
    else panics

-- `DevFileSystem::next_node_id`, with the code of `RamFileSystem::next_node_id`
abbrev pub dev_next_node_id : VfsMount → Io ℕ
dev_next_node_id = next_node_id

-- `DirectoryOperations for DevFileSystem`: `lookup`, which makes a new node for each call
unfoldable pub dev_lookup : VfsMount → Bytes → Io (Option FsNode)
dev_lookup m name = do
  found ← gets (get_char_device name)
  match_option found (pure none) λ d. do
    id ← dev_next_node_id m
    node ← new_node id m.file_system.root.mount_id char_device (device d)
    pure (some node)

-- The loop of `read_directory`.
unfoldable pub list_devices : VfsMount → List CharDevice → IterationContext → Io IterationContext
list_devices m [] ctx = pure ctx
list_devices m (d ∷ ds) ctx = do
  id ← dev_next_node_id m
  list_devices m ds (list_entry (device_name d) id char_device ctx)

-- `read_directory`
unfoldable pub dev_read_directory : VfsMount → IterationContext → Io IterationContext
unfolding list_devices
dev_read_directory m ctx = do devices ← gets list_char_devices; list_devices m devices ctx
