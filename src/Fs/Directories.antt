-- ===== src/Fs/Directories.antt =====
-- Directories (kernel/src/fs/vfs.rs): `read_directory`, `create_directory`, `stat` and
-- `prune_directory_cache`; and the references that callers keep. The `structure_lock`s are free:
-- nothing else runs.
use riptide.Prelude.{not}
use riptide.Prelude.{ℕ, none, some, List, [], ◌∷◌, Bytes, if◌then◌else◌, ◌==◌}
use riptide.BTreeMap.{values}
use riptide.Fs.Types.{
  DirectoryEntry, fields, parent, same_entry, is_directory, VfsMount, IterationContext,
  already_exists, entry_not_found, not_a_directory,
}
use riptide.Fs.State.{Vfs, Io, raise, gets, modify, ◌>>=◌, ok_or}
use riptide.Fs.Registry.{is_some}
use riptide.Fs.Ram.{list_entry}
use riptide.Fs.Drivers.{file_system, make_directory, list_directory}
use riptide.Fs.Cache.{cache_insert, prune}
use riptide.Fs.Resolve.{resolve_path, resolve_path_parent_directory}

-- The loop over the mount table: the mounts whose root has this directory for its parent.
unfoldable pub list_mounts : List VfsMount → DirectoryEntry → IterationContext → IterationContext
unfolding list_entry same_entry
list_mounts [] d ctx = ctx
list_mounts (m ∷ ms) d ctx = list_mounts ms d (elim (parent m.root) [
  | none ↦ ctx
  | some p ↦
      if same_entry p d
      then list_entry (fields m.root).name (fields m.root).node.id (fields m.root).node.kind ctx
      else ctx
])

-- `read_directory`
unfoldable pub read_directory : Bytes → Io IterationContext
unfolding list_mounts
read_directory path = do
  found ← resolve_path path
  d ← ok_or found entry_not_found
  if not (is_directory (fields d).node) then raise not_a_directory else do
    fs ← file_system (fields d).node
    ctx ← list_directory fs d []
    gets (λ s. list_mounts (values s.mount_table) d ctx)

-- `create_directory`
unfoldable pub create_directory : Bytes → Io DirectoryEntry
create_directory path = do
  there ← resolve_path path
  if is_some there then raise already_exists else do
    found ← resolve_path_parent_directory path
    fs ← file_system (fields found.0).node
    node ← make_directory fs found.0 found.1
    cache_insert (found.0 ∷ []) (some found.0) node found.1

-- `stat`
unfoldable pub stat : Bytes → Io DirectoryEntry
stat path = do found ← resolve_path path; ok_or found entry_not_found

-- `prune_directory_cache`
unfoldable pub prune_directory_cache : Io (Unit {0})
unfolding prune
prune_directory_cache = modify (prune [])

-- A caller keeps the `Arc` that a call returned.
unfoldable pub hold : DirectoryEntry → Vfs → Vfs
hold e s = record s { held = e ∷ s.held }

abbrev forget : ℕ → List DirectoryEntry → List DirectoryEntry
forget address [] = []
forget address (e ∷ es) = if (fields e).address == address then es else e ∷ forget address es

-- A caller drops one of its references.
unfoldable pub release : DirectoryEntry → Vfs → Vfs
release e s = record s { held = forget (fields e).address s.held }
