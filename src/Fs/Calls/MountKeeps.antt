-- ===== src/Fs/Calls/MountKeeps.antt =====
-- Mounting keeps what its writes keep.
use riptide.Fs.Types.{CharDevice, ram, dev}
use riptide.Fs.Ram.{ram_mount}
use riptide.Fs.Dev.{dev_mount}
use riptide.BTreeMap.{Map}
use riptide.Fs.State.Keeps.{Triple-gets, Triple-assert}
use riptide.Prelude.{ℕ, ◌≡◌, true, Option, some, none, List, [], ◌∷◌, Bytes, if◌then◌else◌}
use riptide.BTreeMap.{lookup, insert, lookup-insert_self}
use riptide.BTreeMap.Keys.{nat_key, pair_key}
use riptide.Fs.Types.{
  DirectoryEntry, FileSystemType, FsNode, FsNodeKind, PrivateData, MountFlags, VfsMount,
  already_exists,
}
use riptide.Fs.State.{Vfs, Io, ◌>>=◌, pure, raise, modify}
use riptide.Fs.State.Keeps.{
  Keeps, Triple, keeps_rules, Keeps-bind, Triple-bind, Triple-pure, Triple-if, Triple-panics,
  Triple-raise, Triple-modify, Keeps-gets, Keeps-ok_or, Keeps-assert, Keeps-pure, Keeps-panics,
}
use riptide.Fs.Node.{new_node}
use riptide.Fs.Registry.{is_some}
use riptide.Fs.Drivers.{get_mount, mount_type}
use riptide.Fs.Drivers.Keeps.{Keeps-mount_type}
use riptide.Fs.Cache.{cache_insert, get_root, key_of, may_insert, set_table, root_name}
use riptide.Fs.Cache.Insert.{cache_insert_lem, Holds-cache_insert, inserted, after_insert}
use riptide.Fs.Resolve.Keeps.{KeepsCached, Keeps-resolve_path, Keeps-resolve_path_parent_directory}
use riptide.Fs.Mount.{new_mount_id, mount_root, mount_into, mount_elsewhere, mount, create_root}
use riptide.Fs.Calls.Writes.{KeepsFiles}

-- The writes of `mount`.
pub record KeepsMounts (P : Vfs → Type 0) : Type 0 where
  pub entries : KeepsCached P
  pub mount_counter : (n : ℕ) (s : Vfs) → P s → P (record s { next_mount_id = n })
  pub mount_in :
      (m : VfsMount) (s : Vfs)
      → P s
      → lookup (key_of m.root) s.table ≡ some m.root
      → P (record s { mount_table = insert m.id m s.mount_table })
  pub root_entry :
      (node : FsNode) (s : Vfs)
      → P s
      → get_root [] s ≡ none
      → P (after_insert (inserted none node root_name s) s)

-- The writes of all calls, and of the start.
pub record KeepsCalls (P : Vfs → Type 0) : Type 0 where
  pub files : KeepsFiles P
  pub mounts : KeepsMounts P
  pub registries :
      (fs : Map Bytes FileSystemType) (ds : Map Bytes CharDevice) (s : Vfs)
      → P s
      → P (record s { file_system_registry = fs; char_device_registry = ds })

-- A new entry is in the table under its key.
table-after_insert :
    (e : DirectoryEntry) (s : Vfs) → lookup (key_of e) (after_insert e s).table ≡ some e
unfolding set_table
table-after_insert e s = lookup-insert_self (key_of e) e _

module _ {P : Vfs → Type 0} (k : KeepsMounts P) where
  abbrev entries : KeepsCached P
  entries = k.entries

  Keeps-get_mount : (id : ℕ) → Keeps P (get_mount id)
  unfolding get_mount
  Keeps-get_mount id = search keeps_rules

  -- The mount is not in the table yet, but its root is in the cache.
  abbrev IsPrepared : VfsMount → Vfs → Type 0
  IsPrepared m s = P s × (lookup (key_of m.root) s.table ≡ some m.root)

  Keeps-new_mount_id : Keeps P new_mount_id
  unfolding new_mount_id
  Keeps-new_mount_id = record { at = λ s h. k.mount_counter _ s h }

  entry_inserted :
      (locals : List DirectoryEntry) (p : DirectoryEntry) (node : FsNode) (name : Bytes) (s : Vfs)
      → P s
      → may_insert locals (some p) name s ≡ true
      → P (after_insert (inserted (some p) node name s) s)
  entry_inserted locals p node name s h e =
      let kept = (entries.entry locals p node name).at s h in
      rw (cache_insert_lem locals (some p) node name s, e) at kept

  insert_child :
      (locals : List DirectoryEntry) (p : DirectoryEntry) (node : FsNode) (name : Bytes)
      → Triple P P
          (cache_insert locals (some p) node name)
          (λ e s. P s × (lookup (key_of e) s.table ≡ some e))
  insert_child locals p node name = record {
    at = λ s h. Holds-cache_insert P _ locals (some p) node name s λ e. (
      entry_inserted locals p node name s h e,
      table-after_insert (inserted (some p) node name s) s,
    );
  }

  mount_into-IsPrepared :
      (ty : FileSystemType) (source target : Bytes) (flags : MountFlags)
      → Triple P P (mount_into ty source target flags) IsPrepared
  unfolding mount_into
  mount_into-IsPrepared ty source target flags =
      Triple-bind _ _ (Keeps-resolve_path_parent_directory entries target) λ found.
        Triple-bind _ _ Keeps-new_mount_id λ id.
          Triple-bind _ _ (Keeps-mount_type entries.writes ty id source flags) λ fs.
            Triple-bind _ _ (insert_child (found.0 ∷ []) found.0 fs.root found.1)
              λ root. Triple-pure _ (λ s h. h)

  mount_elsewhere-IsPrepared :
      (ty : FileSystemType) (source target : Bytes) (flags : MountFlags)
      → Triple P P (mount_elsewhere ty source target flags) IsPrepared
  unfolding mount_elsewhere
  mount_elsewhere-IsPrepared ty source target flags =
      Triple-bind _ _ (Keeps-resolve_path entries target) λ there.
        Triple-if (is_some there) _ _ Triple-panics (mount_into-IsPrepared ty source target flags)

  -- Nothing is mounted at the root yet.
  abbrev IsRootless : Vfs → Type 0
  IsRootless s = P s × (get_root [] s ≡ none)

  Rootless-new_mount_id : Triple IsRootless P new_mount_id (λ _. IsRootless)
  unfolding new_mount_id get_root
  Rootless-new_mount_id = record { at = λ s h. (k.mount_counter _ s h.0, h.1) }

  Rootless-new_node :
      (id mount_id : ℕ) (kind : FsNodeKind) (d : PrivateData)
      → Triple IsRootless P (new_node id mount_id kind d) (λ _. IsRootless)
  unfolding new_node get_root
  Rootless-new_node id mount_id kind d = record { at = λ s h. (entries.writes.node d s h.0, h.1) }

  Rootless-mount_type :
      (ty : FileSystemType) (id : ℕ) (source : Bytes) (flags : MountFlags)
      → Triple IsRootless P (mount_type ty id source flags) (λ _. IsRootless)
  unfolding mount_type ram_mount dev_mount
  Rootless-mount_type ram id source flags =
      Triple-bind _ _ (Triple-assert _)
        λ _. Triple-bind _ _ (Rootless-new_node _ _ _ _) λ root. Triple-pure _ (λ s h. h)
  Rootless-mount_type dev id source flags =
      Triple-bind _ _ (Triple-assert _)
        λ _. Triple-bind _ _ (Rootless-new_node _ _ _ _) λ root. Triple-pure _ (λ s h. h)

  insert_root :
      (node : FsNode)
      → Triple IsRootless P
          (cache_insert [] none node root_name)
          (λ e s. P s × (lookup (key_of e) s.table ≡ some e))
  insert_root node = record {
    at = λ s h.
        Holds-cache_insert P _ [] none node root_name s
          λ _. (k.root_entry node s h.0 h.1, table-after_insert (inserted none node root_name s) s);
  }

  mount_root-IsPrepared :
      (ty : FileSystemType) (source : Bytes) (flags : MountFlags)
      → Triple P P (mount_root ty source flags) IsPrepared
  unfolding mount_root
  mount_root-IsPrepared ty source flags = Triple-bind _ _ (Triple-gets (get_root [])) λ o. go o
    where
      rest : Io VfsMount
      rest = do
        id ← new_mount_id
        fs ← mount_type ty id source flags
        root ← cache_insert [] none fs.root root_name
        pure (record { id = id; root = root; file_system = fs })

      go :
          (o : Option DirectoryEntry)
          → Triple
              (λ s. P s × (get_root [] s ≡ o))
              P
              (if is_some o then raise already_exists else rest)
              IsPrepared
      go (some e) = Triple-raise already_exists (λ s h. h.0)
      go none = Triple-bind _ _ Rootless-new_mount_id λ id.
          Triple-bind _ _ (Rootless-mount_type ty id source flags)
            λ fs. Triple-bind _ _ (insert_root fs.root) λ root. Triple-pure _ (λ s h. h)

  pub Keeps-mount :
      (source target : Bytes) (kind : Option Bytes) (flags : MountFlags)
      → Keeps P (mount source target kind flags)
  unfolding mount
  Keeps-mount source target none flags = Keeps-panics
  Keeps-mount source target (some kind) flags = Keeps-bind _ _ (Keeps-gets _) λ found.
      Keeps-bind _ _ (Keeps-ok_or found _) λ ty. Keeps-bind _ _ (Keeps-assert _) λ _.
        Triple-bind _ _
          (Triple-if _ _ _ (mount_root-IsPrepared ty source flags)
            (mount_elsewhere-IsPrepared ty source target flags))
          λ m. Triple-bind _ _ (put m) λ _. Keeps-pure m.id
    where
      put :
          (m : VfsMount)
          → Triple
              (IsPrepared m)
              P
              (modify λ s. record s { mount_table = insert m.id m s.mount_table })
              (λ _. P)
      put m = Triple-modify _ λ s h. k.mount_in m s h.0 h.1

  pub Keeps-create_root : Keeps P create_root
  unfolding create_root
  Keeps-create_root = search (keeps_rules, Keeps-mount, Keeps-get_mount) depth 12
