-- ===== src/Fs/Tests/Pieces.antt =====
-- The theorems on transfers in pieces, on a file with two descriptors.
use riptide.Prelude.{ℕ, ◌≡◌, ap, ◌∙◌, [], ◌∷◌, ◌++◌, codes, arith, Bytes, take, ◌+◌}
use riptide.BTreeMap.{lookup}
use riptide.BTreeMap.Keys.{nat_key}
use riptide.Fs.Types.{read, new_file, FsNode, is_directory}
use riptide.Fs.State.{Vfs, ok}
use riptide.Fs.Node.{set_cell}
use riptide.Fs.Files.{read_fd, write_fd}
use riptide.Fs.Files.RamFiles.{IsRamFile}
use riptide.Fs.Files.Pieces.{filled, filled-IsRamFile, write_fd-append, read_fd-append}
use riptide.Fs.Tests.{
  blank_node, unwrap-is_some, two, out_file, in_file, cell_of, mount_of, two_runs,
}
use riptide.Fs.Tests.Descriptors.{out_file-IsRamFile}

write_fd-append_example :
    (s2 s3 : Vfs) × (write_fd 2 (codes "ok") two ≡ (ok 2, s2))
    × (write_fd 2 (codes "!") s2 ≡ (ok 1, s3))
    × (write_fd 2 (codes "ok!") two ≡ (ok 3, s3))
write_fd-append_example =
    write_fd-append 2 out_file (mount_of out_file.node) (cell_of out_file.node) [] (codes "ok")
      (codes "!") two out_file-IsRamFile two_runs.7 (omega (arith, two_runs.9))

in_file-IsRamFile : IsRamFile 3 in_file (mount_of out_file.node) (cell_of out_file.node) [] two
in_file-IsRamFile = record {
  is_open = unwrap-is_some (new_file blank_node read) (lookup 3 two.files) two_runs.1;
  is_file = ap is_directory two_runs.11 ∙ two_runs.2;
  mounted =
      ap (λ (n : FsNode). lookup n.mount_id two.mount_table) two_runs.11
      ∙ out_file-IsRamFile.mounted;
  in_ram = two_runs.4;
  cell = ap (λ (n : FsNode). lookup n.address two.cells) two_runs.11 ∙ out_file-IsRamFile.cell;
  bytes = two_runs.6;
}

-- The file with three bytes in it.
abbrev full : Vfs
full =
    set_cell in_file.node.address
      (filled 3 in_file (mount_of out_file.node) (cell_of out_file.node) [] two in_file-IsRamFile
        (codes "ok!"))
      two

read_fd-append_example :
    (n k : ℕ) × (first second both : Bytes) × (s2 s3 : Vfs) × (read_fd 3 (0 ∷ 0 ∷ []) full
      ≡ (ok (n, first), s2))
    × (read_fd 3 (0 ∷ 0 ∷ []) s2 ≡ (ok (k, second), s3))
    × (read_fd 3 (0 ∷ 0 ∷ 0 ∷ 0 ∷ []) full ≡ (ok (n + k, both), s3))
    × (take n first ++ take k second ≡ take (n + k) both)
read_fd-append_example =
    read_fd-append 3 in_file (mount_of out_file.node)
      (filled 3 in_file (mount_of out_file.node) (cell_of out_file.node) [] two in_file-IsRamFile
        (codes "ok!"))
      (codes "ok!") (0 ∷ 0 ∷ []) (0 ∷ 0 ∷ []) full
      (filled-IsRamFile 3 in_file (mount_of out_file.node) (cell_of out_file.node) [] two
        in_file-IsRamFile (codes "ok!"))
      two_runs.8 (omega (arith, two_runs.10))
