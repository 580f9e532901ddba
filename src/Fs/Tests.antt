-- ===== src/Fs/Tests.antt =====
-- Runs of the file layer from its start on, and what they return.
mod States
mod Children
mod Pieces
mod Descriptors
mod Dots
use riptide.Fs.Resolve.{Stack}
use riptide.Fs.Types.{char_device, dev, device, zero_device, CharDevice}
use riptide.Prelude.{
  ℕ, ◌≡◌, ◌≢◌, refl, Bool, true, false, Option, some, none, List, [], ◌∷◌, Bytes, codes, arith, sym,
  ap, ◌∙◌, ◌+◌, ◌≤◌,
}
use riptide.BTreeMap.{Map}
use riptide.BTreeMap.Keys.{nat_key, pair_key}
use riptide.Fs.Types.{
  VfsMount, DirectoryEntry, File, FileMode, NodeCell, write, read, append, fields, new_file,
  invalid_file, orphan, FsNode, FsNodeKind, no_data, ram, ram_file, word_max,
}
use riptide.Fs.State.{Vfs, Outcome, boot, ok, err, panic}
use riptide.Fs.Node.{fresh_metadata}
use riptide.Fs.Calls.{Call}
use riptide.Fs.Cache.{key_of}
use riptide.Fs.Registry.{is_some}
use riptide.Fs.Reachable.{serve_from_boot}
use riptide.Fs.Ram.{ram_mount}
use riptide.Fs.Dev.{dev_mount}
use riptide.Fs.Drivers.{type_of}
use riptide.BTreeMap.{lookup, insert, remove, retain, values}
use riptide.Fs.Path.{is_ascii, split, segments_of, from_str, is_absolute}
use riptide.Fs.Types.{is_mutating, same_node, is_directory, same_entry, keeps_alive}
use riptide.Fs.State.{◌>>=◌}
use riptide.Fs.Registry.{
  register, register_file_system, find_file_system_type, register_char_device, list_char_devices,
  get_char_device, init_char_devices, init_file_systems,
}
use riptide.Fs.Node.{
  new_node, get_cell, data_as, set_data, set_link_count, increment_link_count, decrement_link_count,
}
use riptide.Fs.Ram.{
  read_at, write_at, ram_read, ram_write, next_node_id, add_child, ram_create_file,
  ram_create_directory, ram_remove_file, ram_remove_directory, ram_lookup, list_entry,
  list_children, ram_read_directory,
}
use riptide.Fs.Dev.{
  device_read, device_write, dev_read, dev_write, dev_lookup, list_devices, dev_read_directory,
}
use riptide.Fs.Drivers.{
  get_mount, file_system, mount_type, open_file, flush, seek, read_file, write_file, create_file,
  make_directory, lookup_node, list_directory,
}
use riptide.Fs.Cache.{
  is_live, upgrade, get_root, lookup_cached, new_entry_id, allocate, link_child, set_table,
  may_insert, cache_insert, prune_children, prune_entries, prune,
}
use riptide.Fs.Resolve.{
  get_cached_or_lookup, find_mount, pop, resolve_name, resolve_segment, resolve_segments,
  check_parsed, parse_absolute, resolve_path, resolve_parents, resolve_from_root,
  resolve_path_parent_directory,
}
use riptide.Fs.Mount.{new_mount_id, mount_root, mount_into, mount_elsewhere, mount, create_root}
use riptide.Fs.Files.{
  new_fd, get_file, create_entry, open_mutating, open_existing, with_cleanup, open_path, close,
  advance, read_fd, write_fd,
}
use riptide.Fs.Directories.{
  list_mounts, read_directory, create_directory, stat, prune_directory_cache, hold, release,
}
use riptide.Fs.Init.{expect_ok, expect_registered, init_vfs, init_fs, start}
use riptide.Fs.Calls.{run, serve}
use riptide.Prelude.{◌=s=◌}

-- A directory with a file in it that stays open, a device that is read, and a prune.
abbrev calls : List Call
calls =
    Call.create_directory (codes "/a")
    ∷ Call.open_file (codes "/a/b.txt") write
    ∷ Call.write 2 (codes "abc")
    ∷ Call.open_file (codes "/dev/zero") read
    ∷ Call.prune
    ∷ []

abbrev reached : Vfs
reached = (serve_from_boot calls boot).1

abbrev unwrap : {A : Type 0} → A → Option A → A
unwrap d none = d
unwrap d (some a) = a

abbrev blank_node : FsNode
blank_node = record { address = 0; id = 0; mount_id = 0; kind = FsNodeKind.file }

abbrev blank_entry : DirectoryEntry
blank_entry = orphan (record { address = 0; id = 0; name = []; node = blank_node })

abbrev blank_mount : VfsMount
blank_mount = record {
  id = 0;
  root = blank_entry;
  file_system = record {
    metadata = record {
      device = none;
      mount_flags = record { readable = false; writable = false };
      block_size = 0;
      max_file_size = 0;
      file_system_type = ram;
    };
    next_node_id = 0;
    root = blank_node;
  };
}

-- The mount at `/dev`, the file that is open as 2, and the root directory.
abbrev devices : VfsMount
devices = unwrap blank_mount (lookup 1 reached.mount_table)

abbrev open_2 : File
open_2 = unwrap (new_file blank_node read) (lookup 2 reached.files)

abbrev root_entry : DirectoryEntry
root_entry = unwrap blank_entry (get_root [] reached)

unwrap-is_some : {A : Type 0} (d : A) (o : Option A) → is_some o ≡ true → o ≡ some (unwrap d o)
unwrap-is_some d none h = absurd (ground arith)
unwrap-is_some d (some a) h = refl

abbrev is_ok : {A : Type 0} → Outcome A → Bool
is_ok (ok a) = true
is_ok (err e) = false
is_ok panic = false

abbrev value : {A : Type 0} → A → Outcome A → A
value d (ok a) = a
value d (err e) = d
value d panic = d

returned :
    {A : Type 0} (d : A) (r : Outcome A × Vfs) → is_ok r.0 ≡ true → r ≡ (ok (value d r.0), r.1)
returned d (ok a, s) h = refl
returned d (err e, s) h = absurd (ground arith)
returned d (panic, s) h = absurd (ground arith)

-- The file opened twice, once for each direction.
abbrev two_calls : List Call
two_calls = Call.open_file (codes "/f") write ∷ Call.open_file (codes "/f") read ∷ []

abbrev two : Vfs
two = (serve_from_boot two_calls boot).1

abbrev out_file : File
out_file = unwrap (new_file blank_node read) (lookup 2 two.files)

abbrev in_file : File
in_file = unwrap (new_file blank_node read) (lookup 3 two.files)

abbrev blank_cell : NodeCell
blank_cell = record { metadata = fresh_metadata; private_data = no_data }

abbrev cell_of : FsNode → NodeCell
cell_of n = unwrap blank_cell (lookup n.address two.cells)

abbrev mount_of : FsNode → VfsMount
mount_of n = unwrap blank_mount (lookup n.mount_id two.mount_table)

abbrev opening : FileMode → Outcome ℕ × Vfs
opening mode = open_path (codes "/a/b.txt") mode reached

abbrev looking : Outcome (Option DirectoryEntry) × Vfs
looking = get_cached_or_lookup [] root_entry (codes "a") reached

abbrev naming : Outcome (Option DirectoryEntry) × Vfs
naming = get_cached_or_lookup (root_entry ∷ []) root_entry (codes "a") reached

abbrev named : DirectoryEntry
named = unwrap blank_entry (value none naming.0)

-- The open device.
abbrev open_3 : File
open_3 = unwrap (new_file blank_node read) (lookup 3 reached.files)

abbrev mount_3 : VfsMount
mount_3 = unwrap blank_mount (lookup open_3.node.mount_id reached.mount_table)

abbrev cell_3 : NodeCell
cell_3 = unwrap blank_cell (lookup open_3.node.address reached.cells)

-- The runs end and find what the tests name.
runs :
    (is_ok (serve_from_boot calls boot).0 ≡ true)
    × (is_some (lookup 1 reached.mount_table) ≡ true)
    × (is_some (lookup 2 reached.files) ≡ true)
    × (open_2.mode ≡ write)
    × (is_ok (opening read).0 ≡ true)
    × (is_ok (opening append).0 ≡ true)
    × (is_ok (close 2 reached).0 ≡ true)
    × (is_ok looking.0 ≡ true)
    × (is_some (value none looking.0) ≡ true)
    × (is_some (lookup 3 reached.files) ≡ true)
    × (open_3.node.kind ≡ char_device)
    × (open_3.mode ≡ read)
    × (open_3.position ≡ 0)
    × (is_some (lookup open_3.node.mount_id reached.mount_table) ≡ true)
    × (type_of mount_3 ≡ dev)
    × (is_some (lookup open_3.node.address reached.cells) ≡ true)
    × (cell_3.private_data ≡ device zero_device)
    × (is_ok naming.0 ≡ true)
    × (is_some (value none naming.0) ≡ true)
    × (is_directory (fields root_entry).node ≡ true)
    × (is_directory (fields named).node ≡ true)
    × (find_mount (values reached.mount_table) root_entry (codes "a") ≡ none)
unfolding lookup insert retain values is_ascii split segments_of from_str is_absolute is_mutating
    is_directory same_entry keeps_alive ◌>>=◌ register register_file_system find_file_system_type
    register_char_device list_char_devices get_char_device init_char_devices init_file_systems
    new_node get_cell data_as set_data set_link_count increment_link_count decrement_link_count
    read_at write_at ram_read ram_write next_node_id add_child ram_create_file ram_create_directory
    ram_lookup list_entry list_children ram_read_directory device_read device_write dev_read
    dev_write dev_lookup list_devices dev_read_directory get_mount file_system mount_type ram_mount
    dev_mount open_file flush read_file write_file create_file make_directory lookup_node
    list_directory is_live upgrade get_root lookup_cached new_entry_id allocate link_child set_table
    may_insert cache_insert prune_children prune_entries prune get_cached_or_lookup find_mount pop
    resolve_name resolve_segment resolve_segments check_parsed parse_absolute resolve_path
    resolve_parents resolve_from_root resolve_path_parent_directory new_mount_id mount_root
    mount_into mount_elsewhere mount create_root new_fd get_file create_entry open_mutating
    open_existing with_cleanup open_path close advance read_fd write_fd list_mounts read_directory
    create_directory stat prune_directory_cache hold release expect_ok expect_registered init_vfs
    init_fs start run serve ◌=s=◌ remove serve_from_boot
runs = (
  refl, refl, refl, refl, refl, refl, refl, refl, refl, refl, refl, refl, refl, refl, refl, refl,
  refl, refl, refl, refl, refl, refl,
)

two_runs :
    (is_some (lookup 2 two.files) ≡ true)
    × (is_some (lookup 3 two.files) ≡ true)
    × (is_directory out_file.node ≡ false)
    × (is_some (lookup out_file.node.mount_id two.mount_table) ≡ true)
    × (type_of (mount_of out_file.node) ≡ ram)
    × (is_some (lookup out_file.node.address two.cells) ≡ true)
    × ((cell_of out_file.node).private_data ≡ ram_file [])
    × (out_file.mode ≡ write)
    × (in_file.mode ≡ read)
    × (out_file.position ≡ 0)
    × (in_file.position ≡ 0)
    × (in_file.node ≡ out_file.node)
unfolding lookup insert retain values is_ascii split segments_of from_str is_absolute is_mutating
    is_directory same_entry keeps_alive ◌>>=◌ register register_file_system find_file_system_type
    register_char_device list_char_devices get_char_device init_char_devices init_file_systems
    new_node get_cell data_as set_data set_link_count increment_link_count decrement_link_count
    read_at write_at ram_read ram_write next_node_id add_child ram_create_file ram_create_directory
    ram_lookup list_entry list_children ram_read_directory device_read device_write dev_read
    dev_write dev_lookup list_devices dev_read_directory get_mount file_system mount_type ram_mount
    dev_mount open_file flush read_file write_file create_file make_directory lookup_node
    list_directory is_live upgrade get_root lookup_cached new_entry_id allocate link_child set_table
    may_insert cache_insert prune_children prune_entries prune get_cached_or_lookup find_mount pop
    resolve_name resolve_segment resolve_segments check_parsed parse_absolute resolve_path
    resolve_parents resolve_from_root resolve_path_parent_directory new_mount_id mount_root
    mount_into mount_elsewhere mount create_root new_fd get_file create_entry open_mutating
    open_existing with_cleanup open_path close advance read_fd write_fd list_mounts read_directory
    create_directory stat prune_directory_cache hold release expect_ok expect_registered init_vfs
    init_fs start run serve ◌=s=◌ remove serve_from_boot
two_runs = (refl, refl, refl, refl, refl, refl, refl, refl, refl, refl, refl, refl)

served : serve_from_boot calls boot ≡ (ok tt, reached)
served = returned tt (serve_from_boot calls boot) runs.0

dev_mounted : lookup 1 reached.mount_table ≡ some devices
dev_mounted = unwrap-is_some blank_mount (lookup 1 reached.mount_table) runs.1

is_open_2 : lookup 2 reached.files ≡ some open_2
is_open_2 = unwrap-is_some (new_file blank_node read) (lookup 2 reached.files) runs.2
