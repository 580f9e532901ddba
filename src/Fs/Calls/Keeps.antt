-- ===== src/Fs/Calls/Keeps.antt =====
-- Every call, and every sequence of calls, keeps what the writes keep.
use riptide.Fs.Calls.{resume}
use riptide.Prelude.{ℕ, Bytes, List, [], ◌∷◌}
use riptide.Fs.State.{Vfs, Outcome, ok, err, panic}
use riptide.Fs.State.Keeps.{Keeps, Holds, keeps_rules}
use riptide.Fs.Calls.{
  Call, run, serve, mount, open_file, close_file, read, write, read_directory, create_directory,
  stat, prune, release,
}
use riptide.Fs.Calls.FileKeeps.{Keeps-open_path, Keeps-close, Keeps-read_fd, Keeps-write_fd}
use riptide.Fs.Calls.DirectoryKeeps.{
  Keeps-read_directory, Keeps-create_directory, Keeps-stat, Keeps-hold, Keeps-release, Keeps-prune,
}
use riptide.Fs.Calls.MountKeeps.{KeepsCalls, KeepsMounts, Keeps-mount}
use riptide.Fs.Calls.Writes.{KeepsDirectories}
use riptide.Fs.Files.{open_path, close, read_fd, write_fd}
use riptide.BTreeMap.{Map}
use riptide.BTreeMap.Keys.{bytes_key}
use riptide.Fs.Types.{FileMode, FileSystemType, CharDevice}

-- What the calls keep, and the two tables of names.
pub record CallsKept (P : Vfs → Type 0) : Type 0 where
  pub opening : (path : Bytes) (mode : FileMode) → Keeps P (open_path path mode)
  pub closing : (fd : ℕ) → Keeps P (close fd)
  pub reading : (fd : ℕ) (buffer : Bytes) → Keeps P (read_fd fd buffer)
  pub writing : (fd : ℕ) (buffer : Bytes) → Keeps P (write_fd fd buffer)
  pub directories : KeepsDirectories P
  pub mounts : KeepsMounts P
  pub registries :
      (fs : Map Bytes FileSystemType) (ds : Map Bytes CharDevice) (s : Vfs)
      → P s
      → P (record s { file_system_registry = fs; char_device_registry = ds })

-- From what each single write keeps.
pub writes_kept : {P : Vfs → Type 0} → KeepsCalls P → CallsKept P
writes_kept k = record {
  opening = Keeps-open_path k.files;
  closing = Keeps-close k.files;
  reading = Keeps-read_fd k.files;
  writing = Keeps-write_fd k.files;
  directories = k.files.directories;
  mounts = k.mounts;
  registries = k.registries;
}

module _ {P : Vfs → Type 0} (k : CallsKept P) where
  pub Keeps-run : (c : Call) → Keeps P (run c)
  unfolding run
  Keeps-run (mount source target kind flags) = search (keeps_rules, Keeps-mount k.mounts)
  Keeps-run (open_file path mode) = search (keeps_rules, k.opening)
  Keeps-run (close_file fd) = k.closing fd
  Keeps-run (read fd buffer) = search (keeps_rules, k.reading)
  Keeps-run (write fd buffer) = search (keeps_rules, k.writing)
  Keeps-run (read_directory path) = search (keeps_rules, Keeps-read_directory k.directories)
  Keeps-run (create_directory path) =
      search (keeps_rules, Keeps-create_directory k.directories, Keeps-hold k.directories)
  Keeps-run (stat path) = search (keeps_rules, Keeps-stat k.directories, Keeps-hold k.directories)
  Keeps-run prune = Keeps-prune k.directories
  Keeps-run (release e) = Keeps-release k.directories e

  pub Keeps-serve : (cs : List Call) → Keeps P (serve cs)
  unfolding serve
  Keeps-serve [] = record { at = λ s h. h }
  Keeps-serve (c ∷ cs) = record { at = λ s h. go (run c s) ((Keeps-run c).at s h) (Keeps-serve cs) }
    where
      go :
          (r : Outcome (Unit {0}) × Vfs)
          → Holds P (λ _. P) r
          → Keeps P (serve cs)
          → Holds P (λ _. P) (resume r (serve cs))
      go (ok a, s) h t = t.at s h
      go (err e, s) h t = t.at s h
      go (panic, s) h t = tt
