-- ===== src/Fs/Types.antt =====
-- The types of kernel/src/fs/mod.rs and kernel/src/fs/vfs.rs.
use riptide.Prelude.{ℕ, ◌^◌, ◌-◌, Bool, true, false, Option, none, some, Bytes, ◌==◌, ◌&&◌, ◌||◌}
use riptide.BTreeMap.{Map}

-- `usize::MAX`, `u64::MAX`
abbrev pub word_max : ℕ
word_max = 2 ^ 64 - 1

-- `enum IoError`
pub data IoError : Type 0 where
  operation_not_supported entry_not_found already_exists not_a_directory not_a_file : IoError
  invalid_path invalid_file invalid_mode file_system_type_not_found no_root_directory : IoError

-- `enum FsNodeKind`
pub data FsNodeKind : Type 0 where
  directory file char_device block_device : FsNodeKind

-- `enum FileMode`
pub data FileMode : Type 0 where
  read write append : FileMode

-- `FileMode::is_mutating`
unfoldable pub is_mutating : FileMode → Bool
is_mutating read = false
is_mutating write = true
is_mutating append = true

-- The implementations of `trait CharDevice`: `NullDevice` and `ZeroDevice`.
pub data CharDevice : Type 0 where
  null_device zero_device : CharDevice

-- The implementations of `trait FileSystemType`: `RamFileSystemType` and `DevFileSystemType`.
pub data FileSystemType : Type 0 where
  ram dev : FileSystemType

-- `bitflags MountFlags`
pub record MountFlags : Type 0 where
  pub readable : Bool
  pub writable : Bool

-- `Arc<FsNode>`: the address of the shared object, and the fields that never change.
pub record FsNode : Type 0 where
  pub address : ℕ
  pub id : ℕ
  pub mount_id : ℕ
  pub kind : FsNodeKind

-- `FsNodeId::ZERO`
abbrev pub node_id_zero : ℕ
node_id_zero = 0

-- `struct FsNodeMetadata`
pub record FsNodeMetadata : Type 0 where
  pub dirty : Bool
  pub link_count : ℕ
  pub size : ℕ
  pub accessed_at : ℕ
  pub created_at : ℕ
  pub modified_at : ℕ

-- `FsNode::private_data`: what the two file systems put there.
pub data PrivateData : Type 0 where
  no_data : PrivateData
  ram_directory : Map Bytes FsNode → PrivateData
  ram_file : Bytes → PrivateData
  device : CharDevice → PrivateData

-- The fields of `FsNode` that change behind a lock.
pub record NodeCell : Type 0 where
  pub metadata : FsNodeMetadata
  pub private_data : PrivateData

-- `PartialEq for FsNode`
unfoldable pub same_node : FsNode → FsNode → Bool
same_node a b = a.id == b.id && a.mount_id == b.mount_id

-- `FsNode::is_directory`
unfoldable pub is_directory : FsNode → Bool
is_directory n = elim n.kind [ directory ↦ true | _ ↦ false ]

-- `struct File`, behind an `Arc` that the table of files holds. No driver sets `private_data`.
pub record File : Type 0 where
  pub node : FsNode
  pub mode : FileMode
  pub position : ℕ

-- `File::new`
abbrev pub new_file : FsNode → FileMode → File
new_file n m = record { node = n; mode = m; position = 0 }

-- The fields of `DirectoryEntry` but its parent; `address` is the identity of the `Arc`.
pub record EntryFields : Type 0 where
  pub address : ℕ
  pub id : ℕ
  pub name : Bytes
  pub node : FsNode

-- `Arc<DirectoryEntry>`. An entry holds its parent strongly, so it is a chain up to the root.
pub data DirectoryEntry : Type 0 where
  orphan : EntryFields → DirectoryEntry
  child : EntryFields → DirectoryEntry → DirectoryEntry

abbrev pub fields : DirectoryEntry → EntryFields
fields (orphan f) = f
fields (child f p) = f

-- `DirectoryEntry::parent`
abbrev pub parent : DirectoryEntry → Option DirectoryEntry
parent (orphan f) = none
parent (child f p) = some p

-- `PartialEq for DirectoryEntry`
unfoldable pub same_entry : DirectoryEntry → DirectoryEntry → Bool
same_entry a b = (fields a).id == (fields b).id

-- Whether the object at an address is the entry or one of its ancestors.
unfoldable pub keeps_alive : DirectoryEntry → ℕ → Bool
keeps_alive (orphan f) a = f.address == a
keeps_alive (child f p) a = f.address == a || keeps_alive p a

-- `struct FileSystemMetadata`
pub record FileSystemMetadata : Type 0 where
  pub device : Option ℕ
  pub mount_flags : MountFlags
  pub block_size : ℕ
  pub max_file_size : ℕ
  pub file_system_type : FileSystemType

-- `RamFileSystem` and `DevFileSystem`, which have the same fields.
pub record FileSystem : Type 0 where
  pub metadata : FileSystemMetadata
  pub next_node_id : ℕ
  pub root : FsNode

-- `struct VfsMount`
pub record VfsMount : Type 0 where
  pub id : ℕ
  pub root : DirectoryEntry
  pub file_system : FileSystem

-- `struct DirectoryIterationEntry`
pub record DirectoryIterationEntry : Type 0 where
  pub name : Bytes
  pub id : ℕ
  pub kind : FsNodeKind

-- `DirectoryIterationContext`
abbrev pub IterationContext : Type 0
IterationContext = Map Bytes DirectoryIterationEntry
