-- ===== src/Fs/Drivers.antt =====
-- The trait objects of kernel/src/fs/mod.rs: each operation goes to the driver of the file system
-- that a node is mounted in. A driver that has no method of its own gets the trait's default.
pub mod Keeps
use riptide.Fs.Dev.{dev_mount}
use riptide.Fs.Ram.{ram_remove_file, ram_remove_directory, ram_mount}
use riptide.Prelude.{ℕ, ◌^◌, ◌-◌, Option, none, some, Bytes, ◌=s=◌, codes, []}
use riptide.BTreeMap.{lookup}
use riptide.BTreeMap.Keys.{nat_key}
use riptide.Fs.Types.{
  FsNode, directory, ram_directory, no_data, node_id_zero, word_max, FileMode, File, new_file,
  FileSystem, FileSystemType, ram, dev, MountFlags, VfsMount, IterationContext,
  operation_not_supported, DirectoryEntry, fields,
}
use riptide.Fs.State.{Vfs, Io, pure, raise, panics, gets, ◌>>=◌, ◌>>◌, expect, assert}
use riptide.Fs.Node.{new_node}
use riptide.Fs.Ram.{
  ram_read, ram_write, ram_create_file, ram_create_directory, ram_lookup, ram_read_directory,
}
use riptide.Fs.Dev.{dev_read, dev_write, dev_lookup, dev_read_directory}

-- `VirtualFileSystem::get_mount`
unfoldable pub get_mount : ℕ → Io (Option VfsMount)
get_mount id = gets (λ s. lookup id s.mount_table)

abbrev pub type_of : VfsMount → FileSystemType
type_of m = m.file_system.metadata.file_system_type

-- Dynamic dispatch on the driver.
abbrev pub by_type : {A : Type 0} → FileSystemType → Io A → Io A → Io A
by_type ram m n = m
by_type dev m n = n

-- `FsNode::file_system` and `File::file_system`: the mount of the node, which stands for its driver
unfoldable pub file_system : FsNode → Io VfsMount
unfolding get_mount
file_system n = do found ← get_mount n.mount_id; expect found

-- `FileSystemType::mount`
unfoldable pub mount_type : FileSystemType → ℕ → Bytes → MountFlags → Io FileSystem
mount_type ty id source flags = by_type ty (ram_mount id source flags) (dev_mount id source flags)

-- `FileOperations::open`: the default
unfoldable pub open_file : VfsMount → FsNode → FileMode → Io File
open_file m n mode = pure (new_file n mode)

-- `FileOperations::flush`: the default
unfoldable pub flush : VfsMount → File → Io (Unit {0})
flush m f = pure tt

-- `FileOperations::seek`: the default; the VFS has no call of it
unfoldable pub seek : VfsMount → File → ℕ → Io ℕ
seek m f offset = raise operation_not_supported

-- `FileOperations::read`
unfoldable pub read_file : VfsMount → File → ℕ → Bytes → Io (ℕ × Bytes)
read_file m f offset buffer = by_type (type_of m) (ram_read f offset buffer) (dev_read f buffer)

-- `FileOperations::write`
unfoldable pub write_file : VfsMount → File → ℕ → Bytes → Io ℕ
write_file m f offset buffer = by_type (type_of m) (ram_write f offset buffer) (dev_write f buffer)

-- `DirectoryOperations::create_file`
unfoldable pub create_file : VfsMount → DirectoryEntry → Bytes → Io FsNode
create_file m d name =
    by_type (type_of m) (ram_create_file m (fields d).node name) (raise operation_not_supported)

-- `DirectoryOperations::create_directory`
unfoldable pub make_directory : VfsMount → DirectoryEntry → Bytes → Io FsNode
make_directory m d name =
    by_type (type_of m) (ram_create_directory m (fields d).node name)
      (raise operation_not_supported)

-- `DirectoryOperations::remove_file`; the VFS has no call of it
unfoldable pub remove_file : VfsMount → DirectoryEntry → Bytes → Io (Unit {0})
remove_file m d name =
    by_type (type_of m) (ram_remove_file (fields d).node name) (raise operation_not_supported)

-- `DirectoryOperations::remove_directory`; the VFS has no call of it
unfoldable pub remove_directory : VfsMount → DirectoryEntry → Bytes → Io (Unit {0})
remove_directory m d name =
    by_type (type_of m) (ram_remove_directory (fields d).node name) (raise operation_not_supported)

-- `DirectoryOperations::lookup`
unfoldable pub lookup_node : VfsMount → DirectoryEntry → Bytes → Io (Option FsNode)
lookup_node m d name = by_type (type_of m) (ram_lookup (fields d).node name) (dev_lookup m name)

-- `DirectoryOperations::read_directory`
unfoldable pub list_directory : VfsMount → DirectoryEntry → IterationContext → Io IterationContext
list_directory m d ctx =
    by_type (type_of m) (ram_read_directory (fields d).node ctx) (dev_read_directory m ctx)
