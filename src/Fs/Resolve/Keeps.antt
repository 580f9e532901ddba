-- ===== src/Fs/Resolve/Keeps.antt =====
-- Resolution keeps whatever the cache and the drivers keep.
use riptide.Fs.Types.{is_directory, entry_not_found, not_a_directory}
use riptide.Fs.Resolve.{check_parsed}
use riptide.Fs.State.Keeps.{Keeps-ok_or}
use riptide.Fs.State.{pure, panics}
use riptide.Fs.State.Keeps.{
  Keeps-bind, Keeps-option, Keeps-pure, Keeps-if, Keeps-panics, Keeps-raise,
}
use riptide.Prelude.{List, Bytes, ◌∷◌, [], some, none}
use riptide.Fs.Path
use riptide.Fs.Path.{Parsed, from_str}
use riptide.Fs.Types.{DirectoryEntry, FsNode, VfsMount, fields}
use riptide.Fs.State.{Vfs}
use riptide.Fs.State.Keeps.{Keeps, keeps_rules}
use riptide.Fs.Drivers.{lookup_node, file_system}
use riptide.Fs.Drivers.Keeps.{KeepsWrites, Keeps-file_system, Keeps-lookup_node}
use riptide.Fs.Cache.{cache_insert}
use riptide.Fs.Resolve.{
  get_cached_or_lookup, resolve_name, resolve_segment, resolve_segments, parse_absolute,
  resolve_path, resolve_parents, resolve_from_root, resolve_path_parent_directory, is_dots,
}

-- What the drivers write, and a new entry below another.
pub record KeepsCached (P : Vfs → Type 0) : Type 0 where
  pub writes : KeepsWrites P
  pub entry :
      (locals : List DirectoryEntry) (p : DirectoryEntry) (node : FsNode) (name : Bytes)
      → Keeps P (cache_insert locals (some p) node name)

module _ {P : Vfs → Type 0} (k : KeepsCached P) where
  file_system_kept : (n : FsNode) → Keeps P (file_system n)
  file_system_kept = Keeps-file_system k.writes

  lookup_node_kept :
      (m : VfsMount) (d : DirectoryEntry) (name : Bytes) → Keeps P (lookup_node m d name)
  lookup_node_kept = Keeps-lookup_node k.writes

  entry_kept :
      (locals : List DirectoryEntry) (p : DirectoryEntry) (node : FsNode) (name : Bytes)
      → Keeps P (cache_insert locals (some p) node name)
  entry_kept = k.entry

  Keeps-get_cached_or_lookup :
      (locals : List DirectoryEntry) (top : DirectoryEntry) (name : Bytes)
      → Keeps P (get_cached_or_lookup locals top name)
  unfolding get_cached_or_lookup
  Keeps-get_cached_or_lookup locals top name =
      search (keeps_rules, file_system_kept, lookup_node_kept, entry_kept) depth 12

  Keeps-resolve_name :
      (name : Bytes) (top : DirectoryEntry) (below : List DirectoryEntry)
      → Keeps P (resolve_name name top below)
  unfolding resolve_name
  Keeps-resolve_name name top below = search (keeps_rules, Keeps-get_cached_or_lookup) depth 10

  Keeps-resolve_segment :
      (segment : Bytes) (top : DirectoryEntry) (below : List DirectoryEntry)
      → Keeps P (resolve_segment segment top below)
  unfolding resolve_segment
  Keeps-resolve_segment segment top below = search (keeps_rules, Keeps-resolve_name) depth 10

  Keeps-resolve_segments :
      (segments : List Bytes) (top : DirectoryEntry) (below : List DirectoryEntry)
      → Keeps P (resolve_segments segments top below)
  unfolding resolve_segments
  Keeps-resolve_segments [] top below = search keeps_rules
  Keeps-resolve_segments (segment ∷ segments) top below =
      Keeps-bind (resolve_segment segment top below) _ (Keeps-resolve_segment segment top below)
        λ stack.
          Keeps-option stack (pure none) _ (Keeps-pure none)
            λ next. Keeps-resolve_segments segments next.0 next.1

  Keeps-check_parsed : (r : Parsed) → Keeps P (check_parsed r)
  unfolding check_parsed
  Keeps-check_parsed (Path.ok p) = search keeps_rules
  Keeps-check_parsed Path.empty = search keeps_rules
  Keeps-check_parsed Path.max_length_exceeded = search keeps_rules
  Keeps-check_parsed Path.non_ascii = search keeps_rules

  Keeps-parse_absolute : (path : Bytes) → Keeps P (parse_absolute path)
  unfolding parse_absolute
  Keeps-parse_absolute path = Keeps-check_parsed (from_str path)

  pub Keeps-resolve_path : (path : Bytes) → Keeps P (resolve_path path)
  unfolding resolve_path
  Keeps-resolve_path path =
      search (keeps_rules, Keeps-parse_absolute, Keeps-resolve_segments) depth 10

  Keeps-resolve_parents :
      (segments : List Bytes) (top : DirectoryEntry) (below : List DirectoryEntry)
      → Keeps P (resolve_parents segments top below)
  unfolding resolve_parents
  Keeps-resolve_parents [] top below = search keeps_rules
  Keeps-resolve_parents (segment ∷ []) top below = search keeps_rules
  Keeps-resolve_parents (segment ∷ next ∷ segments) top below =
      Keeps-if (is_dots segment) panics _ Keeps-panics (
        Keeps-bind _ _ (Keeps-get_cached_or_lookup (top ∷ below) top segment) λ found.
          Keeps-bind _ _ (Keeps-ok_or found entry_not_found) λ e.
            Keeps-if (is_directory (fields e).node) _ _
              (Keeps-resolve_parents (next ∷ segments) e (top ∷ below))
              (Keeps-raise not_a_directory))

  Keeps-resolve_from_root :
      (segments : List Bytes) (root : DirectoryEntry) → Keeps P (resolve_from_root segments root)
  unfolding resolve_from_root
  Keeps-resolve_from_root [] root = search keeps_rules
  Keeps-resolve_from_root (segment ∷ segments) root =
      Keeps-resolve_parents (segment ∷ segments) root []

  pub Keeps-resolve_path_parent_directory :
      (path : Bytes) → Keeps P (resolve_path_parent_directory path)
  unfolding resolve_path_parent_directory
  Keeps-resolve_path_parent_directory path =
      search (keeps_rules, Keeps-parse_absolute, Keeps-resolve_from_root) depth 10
