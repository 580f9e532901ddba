-- ===== src/Shell/Commands/Tests.antt =====
-- The theorems on the commands and their descriptors, on a console behind the start.
use riptide.Prelude.{ℕ, ◌≡◌, ◌≢◌, refl, true, none, [], codes, ◌=s=◌}
use riptide.Fs.State.{Outcome}
use riptide.Fs.Path.{is_ascii, split, segments_of, from_str, is_absolute}
use riptide.Fs.Types.{is_mutating, is_directory, same_entry, keeps_alive}
use riptide.Fs.State.{◌>>=◌}
use riptide.Fs.Registry.{
  register, register_file_system, find_file_system_type, register_char_device, list_char_devices,
  get_char_device, init_char_devices, init_file_systems,
}
use riptide.Fs.Node.{
  new_node, get_cell, data_as, set_data, set_link_count, increment_link_count, decrement_link_count,
}
use riptide.Fs.Ram.{
  read_at, write_at, ram_read, ram_write, next_node_id, add_child, ram_create_file,
  ram_create_directory, ram_lookup, list_entry, list_children, ram_read_directory,
}
use riptide.Fs.Dev.{
  device_read, device_write, dev_read, dev_write, dev_lookup, list_devices, dev_read_directory,
}
use riptide.Fs.Ram.{ram_mount}
use riptide.Fs.Dev.{dev_mount}
use riptide.Fs.Drivers.{
  get_mount, file_system, mount_type, open_file, flush, read_file, write_file, create_file,
  make_directory, lookup_node, list_directory,
}
use riptide.Fs.Cache.{
  is_live, upgrade, get_root, lookup_cached, new_entry_id, allocate, link_child, set_table,
  may_insert, cache_insert, prune_children, prune_entries, prune,
}
use riptide.Fs.Resolve.{
  get_cached_or_lookup, find_mount, pop, resolve_name, resolve_segment, resolve_segments,
  check_parsed, parse_absolute, resolve_path, resolve_parents, resolve_from_root,
  resolve_path_parent_directory,
}
use riptide.Fs.Mount.{new_mount_id, mount_root, mount_into, mount_elsewhere, mount, create_root}
use riptide.Fs.Files.{
  new_fd, get_file, create_entry, open_mutating, open_existing, with_cleanup, open_path, close,
  advance, read_fd, write_fd,
}
use riptide.Fs.Directories.{
  list_mounts, read_directory, create_directory, stat, prune_directory_cache, hold, release,
}
use riptide.Fs.Init.{expect_ok, expect_registered, init_vfs, init_fs, start}
use riptide.Fs.State.{◌>>=◌}
use riptide.Vga
use riptide.Vga.{
  read_cell, write_cell, copy_row, copy_rows, clear_cells, clear_row, new_line, write_byte,
  write_string,
}
use riptide.Shell.Console.{Console, unwrapped, on_writer, print, println}
use riptide.BTreeMap.{lookup, insert, remove, retain, values}
use riptide.BTreeMap.Keys.{nat_key, bytes_key, pair_key}
use riptide.Shell.Commands.{touch_path, cat_path}
use riptide.Shell.Commands.Descriptors.{touch_path-closes, cat_path-leaves_open}
use riptide.Fs.Files.Descriptors.{FdsBelow}
use riptide.Shell.Tests.{console, plain, returned, is_ok}

abbrev touched : Outcome (Unit {0}) × Console
touched = touch_path (codes "/test.txt") console

abbrev printed : Outcome (Unit {0}) × Console
printed = cat_path plain (codes "/test.txt") console

command_runs : (is_ok touched.0 ≡ true) × (is_ok printed.0 ≡ true) × (console.vfs.files ≡ [])
unfolding lookup insert retain values is_ascii split segments_of from_str is_absolute is_mutating
    is_directory same_entry keeps_alive ◌>>=◌ register register_file_system find_file_system_type
    register_char_device list_char_devices get_char_device init_char_devices init_file_systems
    new_node get_cell data_as set_data set_link_count increment_link_count decrement_link_count
    read_at write_at ram_read ram_write next_node_id add_child ram_create_file ram_create_directory
    ram_lookup list_entry list_children ram_read_directory device_read device_write dev_read
    dev_write dev_lookup list_devices dev_read_directory get_mount file_system mount_type ram_mount
    dev_mount open_file flush read_file write_file create_file make_directory lookup_node
    list_directory is_live upgrade get_root lookup_cached new_entry_id allocate link_child set_table
    may_insert cache_insert prune_children prune_entries prune get_cached_or_lookup find_mount pop
    resolve_name resolve_segment resolve_segments check_parsed parse_absolute resolve_path
    resolve_parents resolve_from_root resolve_path_parent_directory new_mount_id mount_root
    mount_into mount_elsewhere mount create_root new_fd get_file create_entry open_mutating
    open_existing with_cleanup open_path close advance read_fd write_fd list_mounts read_directory
    create_directory stat prune_directory_cache hold release expect_ok expect_registered init_vfs
    init_fs start ◌=s=◌ remove unwrapped on_writer print println touch_path cat_path read_cell
    write_cell copy_row copy_rows clear_cells clear_row new_line write_byte Vga.shown write_string
command_runs = (refl, refl, refl)

console-FdsBelow : FdsBelow console.vfs
unfolding lookup
console-FdsBelow fd above = rw command_runs.2 refl

touch_path-closes_example :
    lookup console.vfs.next_fd touched.1.vfs.files ≡ lookup console.vfs.next_fd console.vfs.files
touch_path-closes_example =
    touch_path-closes (codes "/test.txt") console touched.1 console-FdsBelow
      (returned tt touched command_runs.0) console.vfs.next_fd

cat_path-leaves_open_example :
    (lookup console.vfs.next_fd printed.1.vfs.files ≢ none)
    × ((fd : ℕ)
        → fd ≢ console.vfs.next_fd
        → lookup fd printed.1.vfs.files ≡ lookup fd console.vfs.files)
cat_path-leaves_open_example =
    cat_path-leaves_open plain (codes "/test.txt") console printed.1
      (returned tt printed command_runs.1)
