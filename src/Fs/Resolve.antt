-- ===== src/Fs/Resolve.antt =====
-- Path resolution (kernel/src/fs/vfs.rs): from the root down, one segment at a time, on a stack of
-- the entries that have been passed.
pub mod Keeps
pub mod MountSearch
pub mod Hits
pub mod Dots
use riptide.Fs.Path.{Parsed}
use riptide.Fs.State.{match_option}
use riptide.Prelude.{
  ℕ, ◌+◌, Bool, true, false, ◌&&◌, ◌||◌, Option, none, some, List, [], ◌∷◌, Bytes, codes, ◌=s=◌,
  if◌then◌else◌,
}
use riptide.BTreeMap.{values}
use riptide.Fs.Path
use riptide.Fs.Path.{FilePath, from_str, is_absolute}
use riptide.Fs.Types.{
  FsNode, DirectoryEntry, fields, parent, same_entry, is_directory, VfsMount, invalid_path,
  no_root_directory, not_a_directory, entry_not_found,
}
use riptide.Fs.State.{Vfs, Io, pure, raise, panics, gets, modify, ◌>>=◌, ◌>>◌, ok_or, expect}
use riptide.Fs.Drivers.{file_system, lookup_node}
use riptide.Fs.Cache.{get_root, lookup_cached, cache_insert}

-- `get_cached_or_lookup`
unfoldable pub get_cached_or_lookup :
    List DirectoryEntry → DirectoryEntry → Bytes → Io (Option DirectoryEntry)
get_cached_or_lookup locals top name = do
  cached ← gets (lookup_cached locals top name)
  match_option cached
      (do
        fs ← file_system (fields top).node
        found ← lookup_node fs top name
        match_option found (pure none)
            λ node. do e ← cache_insert locals (some top) node name; pure (some e))
      λ e. pure (some e)

-- `mnt.root.parent.as_ref().is_some_and(|p| p == top)`
abbrev pub is_mounted_in : DirectoryEntry → VfsMount → Bool
is_mounted_in top m = elim (parent m.root) [ none ↦ false | some p ↦ same_entry p top ]

-- The search of the mount table for a mount of this name in this directory.
unfoldable pub find_mount : List VfsMount → DirectoryEntry → Bytes → Option DirectoryEntry
unfolding same_entry
find_mount [] top name = none
find_mount (m ∷ ms) top name =
    if is_mounted_in top m && (fields m.root).name =s= name
    then some m.root
    else find_mount ms top name

-- The top of the stack, and the entries below it.
abbrev pub Stack : Type 0
Stack = DirectoryEntry × List DirectoryEntry

-- `..`: at the root it is ignored
unfoldable pub pop : DirectoryEntry → List DirectoryEntry → Stack
pop top [] = (top, [])
pop top (e ∷ below) = (e, below)

unfoldable pub resolve_name : Bytes → DirectoryEntry → List DirectoryEntry → Io (Option Stack)
unfolding find_mount
resolve_name name top below = do
  mounted ← gets (λ s. find_mount (values s.mount_table) top name)
  match_option mounted
      (do
        found ← get_cached_or_lookup (top ∷ below) top name
        match_option found (pure none) λ e. pure (some (e, top ∷ below)))
      λ root. pure (some (root, top ∷ below))

-- One round of the loop of `resolve_path`; `none` if the name is not found.
unfoldable pub resolve_segment : Bytes → DirectoryEntry → List DirectoryEntry → Io (Option Stack)
unfolding pop resolve_name
resolve_segment segment top below =
    if is_directory (fields top).node
    then if segment =s= codes "."
      then pure (some (top, below))
      else if segment =s= codes ".."
      then pure (some (pop top below))
      else resolve_name segment top below
    else raise not_a_directory

-- The loop.
unfoldable pub resolve_segments :
    List Bytes → DirectoryEntry → List DirectoryEntry → Io (Option DirectoryEntry)
unfolding resolve_segment
resolve_segments [] top below = pure (some top)
resolve_segments (segment ∷ segments) top below = do
  stack ← resolve_segment segment top below
  match_option stack (pure none) λ next. resolve_segments segments next.0 next.1

-- `Path::from_str(path).map_err(|_| InvalidPath)?`, then the check for a relative path, which is not
-- implemented. A path that is not ASCII is not implemented either. The result is the segments
-- behind the root's.
abbrev pub behind_root : List Bytes → List Bytes
behind_root [] = []
behind_root (root ∷ segments) = segments

unfoldable pub check_parsed : Parsed → Io (List Bytes)
check_parsed (Path.ok p) = if is_absolute p then pure (behind_root p.segments) else panics
check_parsed Path.empty = raise invalid_path
check_parsed Path.max_length_exceeded = raise invalid_path
check_parsed Path.non_ascii = panics

unfoldable pub parse_absolute : Bytes → Io (List Bytes)
unfolding check_parsed
parse_absolute path = check_parsed (from_str path)

-- `resolve_path`
unfoldable pub resolve_path : Bytes → Io (Option DirectoryEntry)
unfolding resolve_segments parse_absolute
resolve_path path = do
  segments ← parse_absolute path
  found ← gets (get_root [])
  root_directory ← ok_or found no_root_directory
  resolve_segments segments root_directory []

abbrev pub is_dots : Bytes → Bool
is_dots segment = segment =s= codes "." || segment =s= codes ".."

-- The loop of `resolve_path_parent_directory`. It ends at the last segment; the code below the loop
-- is `unreachable!()`. A `.` or `..` is not implemented.
unfoldable pub resolve_parents :
    List Bytes → DirectoryEntry → List DirectoryEntry → Io (DirectoryEntry × Bytes)
resolve_parents [] top below = panics
resolve_parents (segment ∷ []) top below = if is_dots segment then panics else pure (top, segment)
resolve_parents (segment ∷ next ∷ segments) top below = if is_dots segment then panics else do
  found ← get_cached_or_lookup (top ∷ below) top segment
  e ← ok_or found entry_not_found
  let deeper = resolve_parents (next ∷ segments) e (top ∷ below)
  if is_directory (fields e).node then deeper else raise not_a_directory

-- A path without a segment behind the root's has no parent directory.
unfoldable pub resolve_from_root : List Bytes → DirectoryEntry → Io (DirectoryEntry × Bytes)
unfolding resolve_parents
resolve_from_root [] root_directory = raise invalid_path
resolve_from_root (segment ∷ segments) root_directory =
    resolve_parents (segment ∷ segments) root_directory []

-- `resolve_path_parent_directory`
unfoldable pub resolve_path_parent_directory : Bytes → Io (DirectoryEntry × Bytes)
unfolding resolve_from_root parse_absolute
resolve_path_parent_directory path = do
  segments ← parse_absolute path
  found ← gets (get_root [])
  root_directory ← ok_or found no_root_directory
  resolve_from_root segments root_directory
