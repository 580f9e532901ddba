-- ===== src/Shell/Tests.antt =====
-- The shell on small inputs: a console behind the start of the file layer, and the theorems on it.
use riptide.Shell.Line.{prompt}
use riptide.Shell.Line.Typing.{handle_character-LineShown}
use riptide.Shell.Line.Shown.{LineShown, cell_at}
use riptide.Fs.Types.{DirectoryIterationEntry, IterationContext, fields}
use riptide.Vga.Screen.{Sheet, Shows}
use riptide.Prelude.{List, ◌∷◌}
use riptide.BTreeMap.Keys.{nat_key, pair_key}
use riptide.Fs.Types.{DirectoryEntry, orphan, FsNodeKind}
use riptide.Fs.State.{Vfs, Outcome, boot, ok, err, panic}
use riptide.BTreeMap.{lookup, insert, remove, retain, values}
use riptide.Fs.Path.{is_ascii, split, segments_of, from_str, is_absolute}
use riptide.Fs.Types.{is_mutating, is_directory, same_entry, keeps_alive}
use riptide.Fs.State.{◌>>=◌}
use riptide.Fs.Registry.{
  register, register_file_system, find_file_system_type, register_char_device, list_char_devices,
  get_char_device, init_char_devices, init_file_systems,
}
use riptide.Fs.Node.{
  new_node, get_cell, data_as, set_data, set_link_count, increment_link_count, decrement_link_count,
}
use riptide.Fs.Ram.{
  read_at, write_at, ram_read, ram_write, next_node_id, add_child, ram_create_file,
  ram_create_directory, ram_lookup, list_entry, list_children, ram_read_directory,
}
use riptide.Fs.Dev.{
  device_read, device_write, dev_read, dev_write, dev_lookup, list_devices, dev_read_directory,
}
use riptide.Fs.Ram.{ram_mount}
use riptide.Fs.Dev.{dev_mount}
use riptide.Fs.Drivers.{
  get_mount, file_system, mount_type, open_file, flush, read_file, write_file, create_file,
  make_directory, lookup_node, list_directory,
}
use riptide.Fs.Cache.{
  is_live, upgrade, get_root, lookup_cached, new_entry_id, allocate, link_child, set_table,
  may_insert, cache_insert, prune_children, prune_entries, prune,
}
use riptide.Fs.Resolve.{
  get_cached_or_lookup, find_mount, pop, resolve_name, resolve_segment, resolve_segments,
  check_parsed, parse_absolute, resolve_path, resolve_parents, resolve_from_root,
  resolve_path_parent_directory,
}
use riptide.Fs.Mount.{new_mount_id, mount_root, mount_into, mount_elsewhere, mount, create_root}
use riptide.Fs.Files.{
  new_fd, get_file, create_entry, open_mutating, open_existing, with_cleanup, open_path, close,
  advance, read_fd, write_fd,
}
use riptide.Fs.Directories.{
  list_mounts, read_directory, create_directory, stat, prune_directory_cache, hold, release,
}
use riptide.Fs.Init.{expect_ok, expect_registered, init_vfs, init_fs, start}
use riptide.Prelude.{◌≡◌, refl, Bool, true, false, [], ◌++◌, codes, arith, ◌=s=◌}
use riptide.Fs.State.{◌>>=◌}
use riptide.Vga.{Writer, blank_cell}
use riptide.Shell.Parser.Modes.{lex, outside}
use riptide.Shell.Console.{Console}
use riptide.Shell.Console.Format.{Texts}
use riptide.Shell.Commands.{ls, execute_args, parse_and_execute}
use riptide.Shell.Commands.Crashes.{long_listing, ls_long-panics}
use riptide.Shell.Commands.Parsing.{gray_lines, parse_and_execute-lex}
use riptide.Shell.Line.{Shell, text_of, utf8, handle_character}
use riptide.Shell.Line.Keeps.{WellFormed}
use riptide.Shell.Line.Editing.{Typed, edited, handle_character-edits}

abbrev pub value : {A : Type 0} → A → Outcome A → A
value d (ok a) = a
value d (err e) = d
value d panic = d

abbrev pub is_ok : {A : Type 0} → Outcome A → Bool
is_ok (ok a) = true
is_ok (err e) = false
is_ok panic = false

pub returned :
    {S A : Type 0} (d : A) (r : Outcome A × S) → is_ok r.0 ≡ true → r ≡ (ok (value d r.0), r.1)
returned d (ok a, s) h = refl
returned d (err e, s) h = absurd (ground arith)
returned d (panic, s) h = absurd (ground arith)

abbrev blank_entry : DirectoryEntry
blank_entry = orphan (record {
  address = 0;
  id = 0;
  name = [];
  node = record { address = 0; id = 0; mount_id = 0; kind = FsNodeKind.file };
})

-- The file layer behind `kernel_main`'s start of it.
abbrev started : Vfs
started = (start boot).1

abbrev pub console : Console
console = record {
  vfs = started;
  writer = record { column_position = 0; color_code = 15; buffer = λ r c. blank_cell 15 };
  ports = [];
}

-- Texts are shown as they are.
abbrev pub plain : Texts
plain = record { debug_str = λ s. s; from_utf8_lossy = λ s. s }

-- What `ls` asks the file layer for, on the directory of the devices.
abbrev found : Outcome DirectoryEntry × Vfs
found = stat (codes "/dev") started

abbrev dev_entry : DirectoryEntry
dev_entry = value blank_entry found.0

abbrev listed : Outcome IterationContext × Vfs
listed = read_directory (codes "/dev") (hold dev_entry found.1)

abbrev entries : IterationContext
entries = value [] listed.0

abbrev tail : {A : Type 0} → List A → List A
tail [] = []
tail (x ∷ xs) = xs

abbrev null_child : DirectoryIterationEntry
null_child = record { name = codes "null"; id = 1; kind = FsNodeKind.char_device }

listing_runs :
    (is_ok found.0 ≡ true)
    × (is_ok listed.0 ≡ true)
    × (is_directory (fields dev_entry).node ≡ true)
    × ((fields dev_entry).name ≡ codes "dev")
    × (values entries ≡ null_child ∷ tail (values entries))
unfolding lookup insert retain values is_ascii split segments_of from_str is_absolute is_mutating
    is_directory same_entry keeps_alive ◌>>=◌ register register_file_system find_file_system_type
    register_char_device list_char_devices get_char_device init_char_devices init_file_systems
    new_node get_cell data_as set_data set_link_count increment_link_count decrement_link_count
    read_at write_at ram_read ram_write next_node_id add_child ram_create_file ram_create_directory
    ram_lookup list_entry list_children ram_read_directory device_read device_write dev_read
    dev_write dev_lookup list_devices dev_read_directory get_mount file_system mount_type ram_mount
    dev_mount open_file flush read_file write_file create_file make_directory lookup_node
    list_directory is_live upgrade get_root lookup_cached new_entry_id allocate link_child set_table
    may_insert cache_insert prune_children prune_entries prune get_cached_or_lookup find_mount pop
    resolve_name resolve_segment resolve_segments check_parsed parse_absolute resolve_path
    resolve_parents resolve_from_root resolve_path_parent_directory new_mount_id mount_root
    mount_into mount_elsewhere mount create_root new_fd get_file create_entry open_mutating
    open_existing with_cleanup open_path close advance read_fd write_fd list_mounts read_directory
    create_directory stat prune_directory_cache hold release expect_ok expect_registered init_vfs
    init_fs start ◌=s=◌ remove
listing_runs = (refl, refl, refl, refl, refl)

ls_long-panics_example :
    ls (long_listing (codes "/dev")) console ≡ (panic, record console { vfs = listed.1 })
unfolding is_ascii
ls_long-panics_example =
    ls_long-panics (codes "/dev") dev_entry null_child (tail (values entries)) entries b'd'
      (codes "ev") console found.1 listed.1 refl (returned blank_entry found listing_runs.0)
      listing_runs.2 (returned [] listed listing_runs.1) listing_runs.4 listing_runs.3 refl refl
      (omega arith)

-- The sheet of the console's screen.
abbrev blank_sheet : Sheet
blank_sheet = record { rows = λ k c. blank_cell 15; column = 0; color = 15 }

console-Shows : Shows console.writer blank_sheet
console-Shows = record {
  cells = λ k c i j. refl;
  columns = refl;
  colors = refl;
  within = omega arith;
}

parse_and_execute-lex_example :
    (w : Writer) × Shows w
      (gray_lines plain (codes "echo hi") (lex (codes "echo hi") outside) blank_sheet)
    × (parse_and_execute plain (codes "echo hi") console
        ≡ execute_args plain (lex (codes "echo hi") outside) (record console { writer = w }))
unfolding is_ascii
parse_and_execute-lex_example =
    parse_and_execute-lex plain (codes "echo hi") console blank_sheet console-Shows refl

-- Two characters are typed.
abbrev two_typed : Shell
two_typed = record {
  console = console;
  input_buffer = codes "ls";
  cursor_position = 2;
  history = [];
}

two_typed-WellFormed : WellFormed two_typed
unfolding text_of utf8
two_typed-WellFormed = record { cursor = refl; fits = omega arith; remembered = omega arith }

handle_character-edits_example :
    (s2 : Shell) × (handle_character plain false 8 two_typed ≡ (ok false, s2))
    × Typed (edited false 8 (codes "ls")) two_typed s2
    × WellFormed s2
handle_character-edits_example =
    handle_character-edits plain false 8 two_typed two_typed-WellFormed (omega arith) refl

-- The bottom row shows them behind the prompt.
abbrev on_the_row : Shell
on_the_row = record two_typed {
  console = record console {
    writer = record {
      column_position = 16;
      color_code = 15;
      buffer =
          λ r c. record { ascii_character = cell_at c (prompt ++ codes "ls"); color_code = 15 };
    };
  };
}

on_the_row-LineShown : LineShown on_the_row
on_the_row-LineShown = record { cells = λ i inside. refl; column = refl }

on_the_row-WellFormed : WellFormed on_the_row
unfolding text_of utf8
on_the_row-WellFormed = record { cursor = refl; fits = omega arith; remembered = omega arith }

handle_character-LineShown_example :
    (s2 : Shell) × (handle_character plain false b'a' on_the_row ≡ (ok false, s2)) × LineShown s2
handle_character-LineShown_example =
    handle_character-LineShown plain false b'a' on_the_row on_the_row-WellFormed
      on_the_row-LineShown refl
