-- ===== src/Fs/Calls/Writes.antt =====
-- The single writes of the VFS, which decide what every call keeps.
use riptide.Prelude.{ℕ, ◌≢◌, none, List, [], arith}
use riptide.BTreeMap.{lookup, insert, remove, lookup-insert}
use riptide.BTreeMap.Keys.{nat_key, pair_key}
use riptide.Fs.Types.{DirectoryEntry, File, VfsMount}
use riptide.Fs.State.{Vfs}
use riptide.Fs.Drivers.Keeps.{KeepsWrites, KeepsLinks}
use riptide.Fs.Cache.{prune}
use riptide.Fs.Resolve.Keeps.{KeepsCached}

-- A mount id that the mount table has.
abbrev pub IsMounted : ℕ → Vfs → Type 0
IsMounted id s = lookup id s.mount_table ≢ none

-- The writes of the calls on directories.
pub record KeepsDirectories (P : Vfs → Type 0) : Type 0 where
  pub entries : KeepsCached P
  pub callers : (es : List DirectoryEntry) (s : Vfs) → P s → P (record s { held = es })
  pub pruned : (s : Vfs) → P s → P (prune [] s)

-- The writes of the calls on directories and files.
pub record KeepsFiles (P : Vfs → Type 0) : Type 0 where
  pub directories : KeepsDirectories P
  pub links : KeepsLinks P
  pub fd_counter : (n : ℕ) (s : Vfs) → P s → P (record s { next_fd = n })
  pub file_in :
      (fd : ℕ) (f : File) (s : Vfs)
      → P s
      → IsMounted f.node.mount_id s
      → P (record s { files = insert fd f s.files })
  pub file_out : (fd : ℕ) (s : Vfs) → P s → P (record s { files = remove fd s.files })

-- A mount is replaced, but never removed.
pub IsMounted-insert :
    (id j : ℕ) (m : VfsMount) (s : Vfs)
    → IsMounted id s
    → IsMounted id (record s { mount_table = insert j m s.mount_table })
IsMounted-insert id j m s h q = h (ground (arith, lookup-insert id j m s.mount_table))

module _ {P : Vfs → Type 0} (id : ℕ) (w : KeepsWrites P) where
  abbrev pub AndMounted : Vfs → Type 0
  AndMounted s = P s × IsMounted id s

  pub mounted-KeepsWrites : KeepsWrites AndMounted
  mounted-KeepsWrites = record {
    contents = λ a c d s e h. (w.contents a c d s e h.0, h.1);
    node = λ d s h. (w.node d s h.0, h.1);
    node_id = λ j n m s e h. (w.node_id j n m s e h.0, IsMounted-insert id j _ s h.1);
  }
