-- ===== src/Fs/Files.antt =====
-- Open files (kernel/src/fs/vfs.rs): `open`, `close`, `read` and `write` by descriptor.
pub mod Handles
pub mod Opening
pub mod Table
pub mod Moves
pub mod Pieces
pub mod Descriptors
pub mod RamFiles
pub mod Devices
use riptide.Fs.State.{match_option}
use riptide.Prelude.{not}
use riptide.Prelude.{ℕ, ◌+◌, Bool, true, false, Option, none, some, [], ◌∷◌, Bytes, if◌then◌else◌}
use riptide.BTreeMap.{lookup, insert, remove}
use riptide.BTreeMap.Keys.{nat_key}
use riptide.Fs.Types.{
  FsNode, FileMode, read, write, append, is_mutating, is_directory, DirectoryEntry, fields, File,
  IoError, not_a_file, entry_not_found, invalid_file, invalid_mode,
}
use riptide.Fs.State.{
  Vfs, Outcome, ok, err, panic, Io, pure, raise, panics, gets, modify, ◌>>=◌, ◌>>◌, ok_or, expect,
  assert, add_usize, bump,
}
use riptide.Fs.Node.{increment_link_count, decrement_link_count}
use riptide.Fs.Drivers.{file_system, open_file, flush, read_file, write_file, create_file}
use riptide.Fs.Cache.{cache_insert}
use riptide.Fs.Resolve.{resolve_path, resolve_path_parent_directory}

-- `FileDescriptor::new`
unfoldable pub new_fd : Io ℕ
new_fd s = (ok s.next_fd, record s { next_fd = bump s.next_fd })

-- `get_file`
unfoldable pub get_file : ℕ → Io File
get_file fd = do found ← gets (λ s. lookup fd s.files); ok_or found invalid_file

-- The entry to open for writing where the path does not resolve.
unfoldable pub create_entry : Bytes → Io DirectoryEntry
create_entry path = do
  found ← resolve_path_parent_directory path
  fs ← file_system (fields found.0).node
  node ← create_file fs found.0 found.1
  cache_insert (found.0 ∷ []) (some found.0) node found.1

unfoldable pub open_mutating : Bytes → Io DirectoryEntry
unfolding create_entry
open_mutating path = do
  found ← resolve_path path
  match_option found (create_entry path)
      λ e. if is_directory (fields e).node then raise not_a_file else pure e

unfoldable pub open_existing : Bytes → Io DirectoryEntry
open_existing path = do found ← resolve_path path; ok_or found entry_not_found

-- `defer_handle!`, with its `cancel` behind the last step: the cleanup runs if a step fails.
abbrev pub cleaned : {A : Type 0} → Io (Unit {0}) → Outcome A × Vfs → Outcome A × Vfs
cleaned cleanup (ok a, s) = (ok a, s)
cleaned cleanup (err e, s) = (cleanup >>= λ _. raise e) s
cleaned cleanup (panic, s) = (panic, s)

unfoldable pub with_cleanup : {A : Type 0} → Io (Unit {0}) → Io A → Io A
with_cleanup cleanup m s = cleaned cleanup (m s)

-- `open`
unfoldable pub open_path : Bytes → FileMode → Io ℕ
unfolding new_fd open_mutating open_existing with_cleanup
open_path path mode = do
  entry ← if is_mutating mode then open_mutating path else open_existing path
  increment_link_count (fields entry).node
  with_cleanup (decrement_link_count (fields entry).node) (do
    fs ← file_system (fields entry).node
    file ← open_file fs (fields entry).node mode
    fd ← new_fd
    modify λ s. record s { files = insert fd file s.files }
    pure fd)

-- `close`
unfoldable pub close : ℕ → Io (Unit {0})
unfolding get_file
close fd = do
  file ← get_file fd
  fs ← file_system file.node
  flush fs file
  modify λ s. record s { files = remove fd s.files }
  decrement_link_count file.node

abbrev is_read_mode : FileMode → Bool
is_read_mode read = true
is_read_mode _ = false

abbrev is_write_mode : FileMode → Bool
is_write_mode write = true
is_write_mode _ = false

-- `*offset += n`
unfoldable pub advance : ℕ → File → ℕ → Io (Unit {0})
advance fd file n = do
  position ← add_usize file.position n
  modify λ s. record s { files = insert fd (record file { position = position }) s.files }

-- `read`: the count, and the caller's buffer afterwards
unfoldable pub read_fd : ℕ → Bytes → Io (ℕ × Bytes)
unfolding get_file advance
read_fd fd buffer = do
  file ← get_file fd
  assert (not (is_directory file.node))
  if not (is_read_mode file.mode) then raise invalid_mode else do
    fs ← file_system file.node
    result ← read_file fs file file.position buffer
    advance fd file result.0
    pure result

-- `write`
unfoldable pub write_fd : ℕ → Bytes → Io ℕ
unfolding get_file advance
write_fd fd buffer = do
  file ← get_file fd
  assert (not (is_directory file.node))
  if not (is_write_mode file.mode) then raise invalid_mode else do
    fs ← file_system file.node
    n ← write_file fs file file.position buffer
    advance fd file n
    pure n
