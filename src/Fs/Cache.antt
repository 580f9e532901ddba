-- ===== src/Fs/Cache.antt =====
-- The directory cache (kernel/src/fs/vfs.rs, `DirectoryCache`). Its table holds `Weak` references: an
-- entry is found only while something holds it or an entry below it. What a running operation holds
-- in its local variables is passed as the list `locals`.
pub mod Insert
pub mod Mounts
pub mod Prune
use riptide.Prelude.{
  ℕ, ◌+◌, Bool, true, false, ◌||◌, Option, none, some, List, [], ◌∷◌, ◌++◌, map, Bytes, codes,
  ◌=s=◌, any, not, if◌then◌else◌,
}
use riptide.BTreeMap.{Map, lookup, insert, retain, values}
use riptide.BTreeMap.Keys.{nat_key, bytes_key, pair_key}
use riptide.Fs.Types.{
  FsNode, DirectoryEntry, orphan, child, EntryFields, fields, parent, keeps_alive, VfsMount,
}
use riptide.Fs.State.{Vfs, Io, pure, raise, panics, gets, modify, ◌>>=◌, ◌>>◌, assert, bump, ok}
use riptide.Fs.Registry.{is_some}

-- `DirectoryEntryId::NULL`
abbrev pub null_id : ℕ
null_id = 0

abbrev pub root_name : Bytes
root_name = codes "/"

-- `strong_count() > 0`: a local variable, a caller, or a mount holds the entry or one below it.
unfoldable pub is_live : List DirectoryEntry → Vfs → DirectoryEntry → Bool
unfolding keeps_alive values
is_live locals s e =
    any (λ r. keeps_alive r (fields e).address) locals
    || (any (λ r. keeps_alive r (fields e).address) s.held
        || any (λ (m : VfsMount). keeps_alive m.root (fields e).address) (values s.mount_table))

-- `w.upgrade()`
unfoldable pub upgrade : List DirectoryEntry → Vfs → Option DirectoryEntry → Option DirectoryEntry
unfolding is_live
upgrade locals s none = none
upgrade locals s (some e) = if is_live locals s e then some e else none

-- `get_root`
unfoldable pub get_root : List DirectoryEntry → Vfs → Option DirectoryEntry
unfolding upgrade
get_root locals s = upgrade locals s (lookup (null_id, root_name) s.table)

-- `lookup`
unfoldable pub lookup_cached :
    List DirectoryEntry → DirectoryEntry → Bytes → Vfs → Option DirectoryEntry
unfolding upgrade
lookup_cached locals p name s = upgrade locals s (lookup ((fields p).id, name) s.table)

-- `DirectoryEntryId::new`
unfoldable pub new_entry_id : Io ℕ
new_entry_id s = (ok s.next_entry_id, record s { next_entry_id = bump s.next_entry_id })

-- `Arc::new`, for an entry
unfoldable pub allocate : Io ℕ
allocate s = (ok s.next_address, record s { next_address = s.next_address + 1 })

abbrev pub make_entry : Option DirectoryEntry → EntryFields → DirectoryEntry
make_entry none f = orphan f
make_entry (some p) f = child f p

abbrev pub key_of : DirectoryEntry → ℕ × Bytes
key_of (orphan f) = (null_id, f.name)
key_of (child f p) = ((fields p).id, f.name)

abbrev pub get_or_empty : Option (Map Bytes DirectoryEntry) → Map Bytes DirectoryEntry
get_or_empty none = []
get_or_empty (some m) = m

-- `parent.children.write().insert(name, entry)`
unfoldable pub link_child : DirectoryEntry → Vfs → Vfs
link_child (orphan f) s = s
link_child (child f p) s = record s {
  children =
      insert (fields p).address
        (insert f.name (child f p) (get_or_empty (lookup (fields p).address s.children)))
        s.children;
}

-- `self.table.insert(key, entry)`
unfoldable pub set_table : DirectoryEntry → Vfs → Vfs
set_table e s = record s { table = insert (key_of e) e s.table }

-- the assertions of `insert`
unfoldable pub may_insert : List DirectoryEntry → Option DirectoryEntry → Bytes → Vfs → Bool
unfolding lookup_cached
may_insert locals none name s = name =s= root_name
may_insert locals (some p) name s = not (is_some (lookup_cached locals p name s))

-- `insert`
unfoldable pub cache_insert :
    List DirectoryEntry → Option DirectoryEntry → FsNode → Bytes → Io DirectoryEntry
unfolding may_insert new_entry_id allocate link_child set_table
cache_insert locals p node name = do
  fits ← gets (may_insert locals p name)
  assert fits
  id ← new_entry_id
  address ← allocate
  let e = make_entry p (record { address = address; id = id; name = name; node = node })
  modify (link_child e)
  modify (set_table e)
  pure e

-- `DirectoryEntry::prune_children`
unfoldable pub prune_children : List DirectoryEntry → DirectoryEntry → Vfs → Vfs
unfolding is_live
prune_children locals e s = record s {
  children =
      insert (fields e).address
        (retain (is_live locals s) (get_or_empty (lookup (fields e).address s.children)))
        s.children;
}

-- The loop of `prune` over the entries of the table.
unfoldable pub prune_entries : List DirectoryEntry → List DirectoryEntry → Vfs → Vfs
unfolding prune_children
prune_entries locals [] s = s
prune_entries locals (e ∷ es) s =
    prune_entries locals es (if is_live locals s e then prune_children locals e s else s)

-- `self.table.retain(|_, w| w.strong_count() > 0)`
abbrev pub drop_dead : List DirectoryEntry → Vfs → Vfs
drop_dead locals s = record s { table = retain (is_live locals s) s.table }

-- `prune`
unfoldable pub prune : List DirectoryEntry → Vfs → Vfs
unfolding prune_entries
prune locals s = prune_entries locals (values (drop_dead locals s).table) (drop_dead locals s)
