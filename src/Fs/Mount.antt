-- ===== src/Fs/Mount.antt =====
-- Mounting (kernel/src/fs/vfs.rs, `mount` and `create_root`).
use riptide.Prelude.{
  ℕ, true, ◌||◌, not, Option, none, some, [], ◌∷◌, Bytes, codes, ◌=s=◌, if◌then◌else◌,
}
use riptide.BTreeMap.{insert}
use riptide.BTreeMap.Keys.{nat_key}
use riptide.Fs.Types.{
  DirectoryEntry, MountFlags, FileSystem, FileSystemType, VfsMount, already_exists,
  file_system_type_not_found,
}
use riptide.Fs.State.{
  Io, ok, pure, raise, panics, gets, modify, ◌>>=◌, ◌>>◌, ok_or, expect, assert, bump,
}
use riptide.Fs.Registry.{find_file_system_type, type_name, is_some}
use riptide.Fs.Drivers.{mount_type, get_mount}
use riptide.Fs.Cache.{get_root, cache_insert, root_name}
use riptide.Fs.Resolve.{resolve_path, resolve_path_parent_directory}

-- `MountId::new`
unfoldable pub new_mount_id : Io ℕ
new_mount_id s = (ok s.next_mount_id, record s { next_mount_id = bump s.next_mount_id })

abbrev mount_at : ℕ → DirectoryEntry → FileSystem → VfsMount
mount_at id root fs = record { id = id; root = root; file_system = fs }

-- The special case of `target == "/"`.
unfoldable pub mount_root : FileSystemType → Bytes → MountFlags → Io VfsMount
unfolding new_mount_id
mount_root ty source flags = do
  root_directory ← gets (get_root [])
  if is_some root_directory then raise already_exists else do
    id ← new_mount_id
    fs ← mount_type ty id source flags
    root ← cache_insert [] none fs.root root_name
    pure (mount_at id root fs)

-- Mounting into a directory that does not exist. The parent's `structure_lock` is free: nothing else
-- runs.
unfoldable pub mount_into : FileSystemType → Bytes → Bytes → MountFlags → Io VfsMount
unfolding new_mount_id
mount_into ty source target flags = do
  found ← resolve_path_parent_directory target
  id ← new_mount_id
  fs ← mount_type ty id source flags
  root ← cache_insert (found.0 ∷ []) (some found.0) fs.root found.1
  pure (mount_at id root fs)

-- Mounting over a directory that exists is not implemented.
unfoldable pub mount_elsewhere : FileSystemType → Bytes → Bytes → MountFlags → Io VfsMount
unfolding mount_into
mount_elsewhere ty source target flags = do
  there ← resolve_path target
  if is_some there then panics else mount_into ty source target flags

-- `mount`; a type that is not given would be guessed, which is not implemented.
unfoldable pub mount : Bytes → Bytes → Option Bytes → MountFlags → Io ℕ
unfolding mount_root mount_elsewhere
mount source target none flags = panics
mount source target (some kind) flags = do
  found ← gets (find_file_system_type kind)
  ty ← ok_or found file_system_type_not_found
  assert (type_name ty =s= codes "ramfs" || type_name ty =s= codes "devfs")
  m ←
      if target =s= root_name
      then mount_root ty source flags
      else mount_elsewhere ty source target flags
  modify λ s. record s { mount_table = insert m.id m s.mount_table }
  pure m.id

abbrev pub read_write : MountFlags
read_write = record { readable = true; writable = true }

-- `create_root`
unfoldable pub create_root : Io DirectoryEntry
unfolding mount
create_root = do
  root_directory ← gets (get_root [])
  assert (not (is_some root_directory))
  id ← mount [] root_name (some (codes "ramfs")) read_write
  found ← get_mount id
  m ← expect found
  pure m.root
