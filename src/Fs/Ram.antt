-- ===== src/Fs/Ram.antt =====
-- The RAM file system (kernel/src/drivers/fs/ram.rs): what its operations do to the bytes of a file
-- and to the children of a directory, and the operations on the nodes that hold them.
pub mod ByteAt
pub mod ReadWrite
pub mod Children
pub mod Listing
pub mod Pieces
mod Tests
use riptide.Fs.State.{match_option}
use riptide.Prelude.{
  ℕ, ◌+◌, ◌-◌, ◌≡◌, Bool, true, false, Option, none, some, Bytes, ltb, if◌then◌else◌, min, ◌++◌,
  ◌=s=◌, take, drop, length, replicate, List, [], ◌∷◌,
}
use riptide.BTreeMap.{Map, lookup, insert, remove}
use riptide.BTreeMap.Keys.{bytes_key, nat_key}
use riptide.Fs.Types.{
  FsNode, FsNodeKind, directory, file, PrivateData, ram_directory, ram_file, File, FileSystem,
  MountFlags, node_id_zero, word_max, ram, VfsMount, IterationContext, DirectoryIterationEntry,
  entry_not_found,
}
use riptide.Fs.State.{
  Vfs, Io, pure, raise, panics, gets, modify, ◌>>=◌, ◌>>◌, assert, expect, add_usize, ok,
}
use riptide.Fs.Node.{new_node, data_as, set_data, as_ram_directory, as_ram_file}

-- `FileOperations::read` on the file's bytes: the count, and the buffer with the bytes copied in.
unfoldable pub read_at : Bytes → ℕ → Bytes → ℕ × Bytes
read_at content offset buffer =
    if ltb (length content) offset
    then (0, buffer)
    else let bytes_remaining = length content - offset in
      let read_size = min (length buffer) bytes_remaining in
      (read_size, take read_size (drop offset content) ++ drop read_size buffer)

-- `Vec::resize(n, 0)`
abbrev pub resize : Bytes → ℕ → Bytes
resize content n = take n content ++ replicate (n - length content) 0

-- `data[offset..offset + buffer.len()].copy_from_slice(buffer)`
abbrev pub copy_over : Bytes → ℕ → Bytes → Bytes
copy_over content offset buffer =
    take offset content ++ (buffer ++ drop (offset + length buffer) content)

-- `FileOperations::write` on the file's bytes.
unfoldable pub write_at : Bytes → ℕ → Bytes → Bytes
write_at content offset buffer =
    let min_new_len = offset + length buffer in
    let grown = if ltb (length content) min_new_len then resize content min_new_len else content in
    copy_over grown offset buffer

-- `FileOperations for RamFileSystem`: `read`
unfoldable pub ram_read : File → ℕ → Bytes → Io (ℕ × Bytes)
ram_read f offset buffer = do
  content ← data_as as_ram_file f.node
  pure (read_at content offset buffer)

-- `write`; the sum `offset + buffer.len()` may overflow
unfoldable pub ram_write : File → ℕ → Bytes → Io ℕ
ram_write f offset buffer = do
  content ← data_as as_ram_file f.node
  min_new_len ← add_usize offset (length buffer)
  set_data f.node (ram_file (write_at content offset buffer))
  pure (length buffer)

-- `RamFileSystemType::mount`
unfoldable pub ram_mount : ℕ → Bytes → MountFlags → Io FileSystem
ram_mount mount_id source flags = do
  assert (source =s= [])
  root ← new_node node_id_zero mount_id directory (ram_directory [])
  pure (record {
    metadata = record {
      device = none;
      mount_flags = flags;
      block_size = 512;
      max_file_size = word_max;
      file_system_type = ram;
    };
    next_node_id = 1;
    root = root;
  })

-- `FsNodeOperations for RamFileSystem`: `write_node` and `evict_node`, which nothing calls
unfoldable pub ram_write_node : FsNode → Io (Unit {0})
ram_write_node n = pure tt

unfoldable pub ram_evict_node : FsNode → Io (Unit {0})
ram_evict_node n = pure tt

-- `RamFileSystem::next_node_id`: the counter of the file system of
-- a mount, whatever it is by now; id + 1 may overflow.
unfoldable pub next_node_id : VfsMount → Io ℕ
next_node_id mnt = do
  found ← gets (λ s. lookup mnt.id s.mount_table)
  m ← expect found
  next ← add_usize m.file_system.next_node_id 1
  modify λ s. record s {
    mount_table =
        insert mnt.id (record m { file_system = record m.file_system { next_node_id = next } })
          s.mount_table;
  }
  pure m.file_system.next_node_id

-- `children.write().insert(name, node)` in the parent's directory node
unfoldable pub add_child : FsNode → Bytes → FsNode → Io (Unit {0})
add_child parent name node = do
  children ← data_as as_ram_directory parent
  set_data parent (ram_directory (insert name node children))

-- `DirectoryOperations for RamFileSystem`: `create_file`
unfoldable pub ram_create_file : VfsMount → FsNode → Bytes → Io FsNode
unfolding add_child
ram_create_file m parent name = do
  id ← next_node_id m
  node ← new_node id m.file_system.root.mount_id file (ram_file [])
  add_child parent name node
  pure node

-- `create_directory`
unfoldable pub ram_create_directory : VfsMount → FsNode → Bytes → Io FsNode
unfolding add_child
ram_create_directory m parent name = do
  id ← next_node_id m
  node ← new_node id m.file_system.root.mount_id directory (ram_directory [])
  add_child parent name node
  pure node

-- `remove_file`; the VFS has no call of it
unfoldable pub ram_remove_file : FsNode → Bytes → Io (Unit {0})
ram_remove_file parent name = do
  children ← data_as as_ram_directory parent
  match_option (lookup name children) (raise entry_not_found)
      λ node. set_data parent (ram_directory (remove name children))

-- `remove_directory`, which is unfinished: a child that is there ends in a failed `assert!` or in
-- `todo!()`; the VFS has no call of it
unfoldable pub ram_remove_directory : FsNode → Bytes → Io (Unit {0})
ram_remove_directory parent name = do
  children ← data_as as_ram_directory parent
  match_option (lookup name children) (raise entry_not_found) λ node. panics

-- `lookup`
unfoldable pub ram_lookup : FsNode → Bytes → Io (Option FsNode)
ram_lookup parent name = do children ← data_as as_ram_directory parent; pure (lookup name children)

-- `DirectoryIterationContext::insert`
unfoldable pub list_entry : Bytes → ℕ → FsNodeKind → IterationContext → IterationContext
list_entry name id kind ctx = insert name (record { name = name; id = id; kind = kind }) ctx

-- The loop of `read_directory`.
unfoldable pub list_children : Map Bytes FsNode → IterationContext → IterationContext
unfolding list_entry
list_children [] ctx = ctx
list_children ((name, node) ∷ rest) ctx = list_children rest (list_entry name node.id node.kind ctx)

-- `read_directory`
unfoldable pub ram_read_directory : FsNode → IterationContext → Io IterationContext
unfolding list_children
ram_read_directory parent ctx = do
  children ← data_as as_ram_directory parent
  pure (list_children children ctx)
