-- ===== src/Fs/Tests/Descriptors.antt =====
-- The theorems on file descriptors, on the runs.
use riptide.Prelude.{ℕ, ◌≡◌, ◌≢◌, refl, some, [], ◌∷◌, codes, arith, sym, ◌∙◌, ◌+◌, ◌≤◌}
use riptide.BTreeMap.Keys.{nat_key, pair_key}
use riptide.Fs.Types.{write, read, append, new_file, word_max}
use riptide.Fs.State.{Vfs, ok, err}
use riptide.Fs.Files.Opening.{open_path-IsOpened, append_is_useless, IsOpened}
use riptide.Fs.Types.{invalid_mode}
use riptide.Fs.Files.Descriptors.{Undisturbed, descriptors_apart}
use riptide.Fs.Reachable.Descriptors.{open_path-unused}
use riptide.Prelude.{none}
use riptide.Fs.Tests.{calls, served}
use riptide.Fs.Files.RamFiles.{IsRamFile, read_fd-write_fd}
use riptide.BTreeMap.{lookup}
use riptide.Fs.Files.{close, read_fd, write_fd}
use riptide.Fs.Tests.{
  reached, blank_node, blank_mount, unwrap-is_some, value, returned, two, out_file, in_file,
  blank_cell, cell_of, mount_of, opening, runs, two_runs,
}

open_path-IsOpened_example : IsOpened read (value 0 (opening read).0) (opening read).1
open_path-IsOpened_example =
    open_path-IsOpened (codes "/a/b.txt") read (value 0 (opening read).0) reached (opening read).1
      (returned 0 (opening read) runs.4)

append_is_useless_example :
    (read_fd (value 0 (opening append).0) [] (opening append).1
      ≡ (err invalid_mode, (opening append).1))
    × (write_fd (value 0 (opening append).0) [] (opening append).1
        ≡ (err invalid_mode, (opening append).1))
append_is_useless_example =
    append_is_useless (codes "/a/b.txt") [] (value 0 (opening append).0) reached (opening append).1
      (returned 0 (opening append) runs.5)

write_ne_read : write ≢ read
write_ne_read e = ground arith

pub out_file-IsRamFile :
    IsRamFile 2 out_file (mount_of out_file.node) (cell_of out_file.node) [] two
out_file-IsRamFile = record {
  is_open = unwrap-is_some (new_file blank_node read) (lookup 2 two.files) two_runs.0;
  is_file = two_runs.2;
  mounted = unwrap-is_some blank_mount (lookup out_file.node.mount_id two.mount_table) two_runs.3;
  in_ram = two_runs.4;
  cell = unwrap-is_some blank_cell (lookup out_file.node.address two.cells) two_runs.5;
  bytes = two_runs.6;
}

abbrev out_fd : ℕ
out_fd = 2

abbrev in_fd : ℕ
in_fd = 3

other_descriptor : in_fd ≢ out_fd
other_descriptor e = ground arith

fits_in_word : out_file.position + 2 ≤ word_max
fits_in_word = omega (arith, two_runs.9)

read_fd-write_fd_example :
    (s2 s3 : Vfs) × (write_fd 2 (codes "ok") two ≡ (ok 2, s2))
    × (read_fd 3 (0 ∷ 0 ∷ []) s2 ≡ (ok (2, codes "ok"), s3))
    × (lookup 2 s3.files ≡ some (record out_file { position = out_file.position + 2 }))
    × (lookup 3 s3.files ≡ some (record in_file { position = in_file.position + 2 }))
read_fd-write_fd_example =
    read_fd-write_fd 2 3 out_file in_file (mount_of out_file.node) (cell_of out_file.node) []
      (codes "ok") (0 ∷ 0 ∷ []) two out_file-IsRamFile
      (unwrap-is_some (new_file blank_node read) (lookup 3 two.files) two_runs.1) other_descriptor
      two_runs.11 (two_runs.10 ∙ sym two_runs.9) two_runs.7 two_runs.8 refl fits_in_word

open_path-unused_example :
    (lookup (value 0 (opening read).0) reached.files ≡ none)
    × ((other : ℕ)
        → other ≢ value 0 (opening read).0
        → lookup other (opening read).1.files ≡ lookup other reached.files)
open_path-unused_example =
    open_path-unused calls (codes "/a/b.txt") read (value 0 (opening read).0) reached
      (opening read).1 (omega arith) served (returned 0 (opening read) runs.4)

descriptors_apart_example :
    Undisturbed in_fd two (read_fd out_fd (0 ∷ []) two)
    × Undisturbed in_fd two (write_fd out_fd (codes "ok") two)
    × Undisturbed in_fd two (close out_fd two)
descriptors_apart_example =
    descriptors_apart out_fd in_fd (0 ∷ []) (codes "ok") two other_descriptor
