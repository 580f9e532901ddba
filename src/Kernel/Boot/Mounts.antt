-- ===== src/Kernel/Boot/Mounts.antt =====
-- What the start of the file layer leaves mounted, as `kernel_main` runs it (kernel/src/main.rs).
use riptide.Prelude.{◌≡◌, refl, List, [], ◌∷◌, map, Bytes, codes, ◌=s=◌}
use riptide.BTreeMap.{lookup, insert, remove, retain, values}
use riptide.BTreeMap.Keys.{nat_key, bytes_key, pair_key}
use riptide.Fs.State.{Vfs, boot, ok}
use riptide.Fs.Path.{is_ascii, split, segments_of, from_str, is_absolute}
use riptide.Fs.Types.{is_mutating, is_directory, same_entry, keeps_alive}
use riptide.Fs.State.{◌>>=◌}
use riptide.Fs.Registry.{
  register, register_file_system, find_file_system_type, register_char_device, list_char_devices,
  get_char_device, init_char_devices, init_file_systems,
}
use riptide.Fs.Node.{
  new_node, get_cell, data_as, set_data, set_link_count, increment_link_count, decrement_link_count,
}
use riptide.Fs.Ram.{
  read_at, write_at, ram_read, ram_write, next_node_id, add_child, ram_create_file,
  ram_create_directory, ram_lookup, list_entry, list_children, ram_read_directory,
}
use riptide.Fs.Dev.{
  device_read, device_write, dev_read, dev_write, dev_lookup, list_devices, dev_read_directory,
}
use riptide.Fs.Ram.{ram_mount}
use riptide.Fs.Dev.{dev_mount}
use riptide.Fs.Drivers.{
  get_mount, file_system, mount_type, open_file, flush, read_file, write_file, create_file,
  make_directory, lookup_node, list_directory,
}
use riptide.Fs.Cache.{
  is_live, upgrade, get_root, lookup_cached, new_entry_id, allocate, link_child, set_table,
  may_insert, cache_insert, prune_children, prune_entries, prune,
}
use riptide.Fs.Resolve.{
  get_cached_or_lookup, find_mount, pop, resolve_name, resolve_segment, resolve_segments,
  check_parsed, parse_absolute, resolve_path, resolve_parents, resolve_from_root,
  resolve_path_parent_directory,
}
use riptide.Fs.Mount.{new_mount_id, mount_root, mount_into, mount_elsewhere, mount, create_root}
use riptide.Fs.Files.{
  new_fd, get_file, create_entry, open_mutating, open_existing, with_cleanup, open_path, close,
  advance, read_fd, write_fd,
}
use riptide.Fs.Directories.{
  list_mounts, read_directory, create_directory, stat, prune_directory_cache, hold, release,
}
use riptide.Fs.Init.{expect_ok, expect_registered, init_vfs, init_fs, start}
use riptide.Fs.State.{◌>>=◌}
use riptide.Fs.Types.{VfsMount, DirectoryEntry, orphan, child, FileSystemType, ram, dev}
use riptide.Fs.Drivers.{type_of}

-- The names from an entry up to the root.
abbrev pub names : DirectoryEntry → List Bytes
names (orphan f) = f.name ∷ []
names (child f p) = f.name ∷ names p

-- Where each mount is, by the names up to the root, and its kind, in the order of the mount ids.
abbrev pub mounted : Vfs → List (List Bytes × FileSystemType)
mounted s = map (λ (m : VfsMount). (names m.root, type_of m)) (values s.mount_table)

-- The RAM file system at the root, and the device file system at `/dev`.
abbrev pub two_mounts : List (List Bytes × FileSystemType)
two_mounts = (codes "/" ∷ [], ram) ∷ (codes "dev" ∷ codes "/" ∷ [], dev) ∷ []

pub start_runs :
    ((start boot).0 ≡ ok tt) × (mounted (start boot).1 ≡ two_mounts) × ((start boot).1.files ≡ [])
unfolding lookup insert retain values is_ascii split segments_of from_str is_absolute is_mutating
    is_directory same_entry keeps_alive ◌>>=◌ register register_file_system find_file_system_type
    register_char_device list_char_devices get_char_device init_char_devices init_file_systems
    new_node get_cell data_as set_data set_link_count increment_link_count decrement_link_count
    read_at write_at ram_read ram_write next_node_id add_child ram_create_file ram_create_directory
    ram_lookup list_entry list_children ram_read_directory device_read device_write dev_read
    dev_write dev_lookup list_devices dev_read_directory get_mount file_system mount_type ram_mount
    dev_mount open_file flush read_file write_file create_file make_directory lookup_node
    list_directory is_live upgrade get_root lookup_cached new_entry_id allocate link_child set_table
    may_insert cache_insert prune_children prune_entries prune get_cached_or_lookup find_mount pop
    resolve_name resolve_segment resolve_segments check_parsed parse_absolute resolve_path
    resolve_parents resolve_from_root resolve_path_parent_directory new_mount_id mount_root
    mount_into mount_elsewhere mount create_root new_fd get_file create_entry open_mutating
    open_existing with_cleanup open_path close advance read_fd write_fd list_mounts read_directory
    create_directory stat prune_directory_cache hold release expect_ok expect_registered init_vfs
    init_fs start ◌=s=◌ remove
start_runs = (refl, refl, refl)
