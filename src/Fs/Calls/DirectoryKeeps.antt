-- ===== src/Fs/Calls/DirectoryKeeps.antt =====
-- The calls on directories keep what their writes keep.
use riptide.Prelude.{some, List, [], ◌∷◌, Bytes}
use riptide.BTreeMap.Keys.{nat_key, pair_key}
use riptide.Fs.Types.{DirectoryEntry, FsNode}
use riptide.Fs.State.{Vfs, modify}
use riptide.Fs.State.Keeps.{Keeps, keeps_rules, Keeps-modify}
use riptide.Fs.Drivers.Keeps.{
  KeepsWrites, Keeps-file_system, Keeps-make_directory, Keeps-list_directory,
}
use riptide.Fs.Cache.{cache_insert, prune}
use riptide.Fs.Resolve.Keeps.{Keeps-resolve_path, Keeps-resolve_path_parent_directory}
use riptide.Fs.Directories
use riptide.Fs.Calls.Writes.{KeepsDirectories}

module _ {P : Vfs → Type 0} (k : KeepsDirectories P) where
  abbrev writes : KeepsWrites P
  writes = k.entries.writes

  entry_kept :
      (locals : List DirectoryEntry) (p : DirectoryEntry) (node : FsNode) (name : Bytes)
      → Keeps P (cache_insert locals (some p) node name)
  entry_kept = k.entries.entry

  pub Keeps-stat : (path : Bytes) → Keeps P (Directories.stat path)
  unfolding Directories.stat
  Keeps-stat path = search (keeps_rules, Keeps-resolve_path k.entries)

  pub Keeps-create_directory : (path : Bytes) → Keeps P (Directories.create_directory path)
  unfolding Directories.create_directory
  Keeps-create_directory path =
      search
        (
          keeps_rules,
          entry_kept,
          Keeps-file_system writes,
          Keeps-make_directory writes,
          Keeps-resolve_path k.entries,
          Keeps-resolve_path_parent_directory k.entries,
        )
        depth 14

  pub Keeps-read_directory : (path : Bytes) → Keeps P (Directories.read_directory path)
  unfolding Directories.read_directory
  Keeps-read_directory path =
      search
        (
          keeps_rules,
          Keeps-file_system writes,
          Keeps-list_directory writes,
          Keeps-resolve_path k.entries,
        )
        depth 14

  pub Keeps-prune : Keeps P Directories.prune_directory_cache
  unfolding Directories.prune_directory_cache
  Keeps-prune = Keeps-modify (prune []) k.pruned

  pub Keeps-hold : (e : DirectoryEntry) → Keeps P (modify (Directories.hold e))
  unfolding Directories.hold
  Keeps-hold e = Keeps-modify _ λ s. k.callers (e ∷ s.held) s

  pub Keeps-release : (e : DirectoryEntry) → Keeps P (modify (Directories.release e))
  unfolding Directories.release
  Keeps-release e = Keeps-modify _ λ s. k.callers _ s
