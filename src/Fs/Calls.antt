-- ===== src/Fs/Calls.antt =====
-- The calls that the rest of the kernel makes of the VFS, and sequences of them. The kernel runs one
-- task at a time and no interrupt handler uses the VFS, so that calls do not overlap.
pub mod Writes
pub mod FileKeeps
pub mod DirectoryKeeps
pub mod MountKeeps
pub mod Keeps
pub mod MountsCached
pub mod FilesMounted
pub mod Ascending
pub mod TableAscending
pub mod Descriptors
pub mod Reserved
use riptide.Prelude.{ℕ, Option, List, [], ◌∷◌, Bytes}
use riptide.Fs.Types.{DirectoryEntry, FileMode, MountFlags}
use riptide.Fs.State.{Vfs, Outcome, ok, err, panic, Io, pure, modify, ◌>>=◌, ◌>>◌}
use riptide.Fs.Mount
use riptide.Fs.Files.{open_path, close, read_fd, write_fd}
use riptide.Fs.Directories

-- A call; what `stat` and `create_directory` return is kept until it is released.
pub data Call : Type 0 where
  mount : Bytes → Bytes → Option Bytes → MountFlags → Call
  open_file : Bytes → FileMode → Call
  close_file : ℕ → Call
  read write : ℕ → Bytes → Call
  read_directory create_directory stat : Bytes → Call
  prune : Call
  release : DirectoryEntry → Call

unfoldable pub run : Call → Io (Unit {0})
run (mount source target kind flags) = do id ← Mount.mount source target kind flags; pure tt
run (open_file path mode) = do fd ← open_path path mode; pure tt
run (close_file fd) = close fd
run (read fd buffer) = do r ← read_fd fd buffer; pure tt
run (write fd buffer) = do n ← write_fd fd buffer; pure tt
run (read_directory path) = do ctx ← Directories.read_directory path; pure tt
run (create_directory path) = do e ← Directories.create_directory path; modify (Directories.hold e)
run (stat path) = do e ← Directories.stat path; modify (Directories.hold e)
run prune = Directories.prune_directory_cache
run (release e) = modify (Directories.release e)

-- The next call is made from the state that the last one left, unless that panicked.
abbrev pub resume : Outcome (Unit {0}) × Vfs → Io (Unit {0}) → Outcome (Unit {0}) × Vfs
resume (ok a, s) rest = rest s
resume (err e, s) rest = rest s
resume (panic, s) rest = (panic, s)

unfoldable pub serve : List Call → Io (Unit {0})
unfolding run
serve [] s = (ok tt, s)
serve (c ∷ cs) s = resume (run c s) (serve cs)
