-- ===== src/Fs/Reachable.antt =====
-- The states that the kernel reaches: after the start of the file layer and any calls of the VFS.
pub mod Descriptors
pub mod Closing
use riptide.Fs.Calls.TableAscending.{calls-TableAscending}
use riptide.Fs.Cache.Prune.{lookup_cached-prune}
use riptide.Fs.Cache.{lookup_cached, prune}
use riptide.Prelude.{Option-cases, inl, inr}
use riptide.BTreeMap.Keys.{pair_key}
use riptide.Fs.Cache.Insert.{is_live-mount}
use riptide.Fs.Cache.{key_of, is_live}
use riptide.Fs.Resolve.MountSearch.{resolve_cached, resolve_name-eq-cached}
use riptide.Fs.Resolve.{resolve_name}
use riptide.Fs.Calls.Ascending.{calls-MountsAscending}
use riptide.Fs.State.Keeps.{Keeps-bind}
use mathlib.Core.Path.{subst}
use riptide.Prelude.{ℕ, ◌≡◌, refl, true, some, List, [], Bytes, arith}
use riptide.BTreeMap.{lookup}
use riptide.BTreeMap.Keys.{nat_key}
use riptide.Fs.Types.{DirectoryEntry, File, VfsMount}
use riptide.Fs.State.{Vfs, ok, Io, boot, ◌>>=◌}
use riptide.Fs.State.Keeps.{Holds}
use riptide.Fs.Drivers.{file_system}
use riptide.Fs.Init.{start}
use riptide.Fs.Init.Keeps.{Keeps-start}
use riptide.Fs.Calls.{Call, serve}
use riptide.Fs.Calls.Keeps.{CallsKept, writes_kept, Keeps-serve}
use riptide.Fs.Cache.Mounts.{MountsCached}
use riptide.Fs.Calls.MountsCached.{calls-MountsCached}
use riptide.Fs.Calls.FilesMounted.{FilesMounted, calls-FilesMounted}

-- `kernel_main`'s start of the file layer, then calls.
unfoldable pub serve_from_boot : List Call → Io (Unit {0})
unfolding start serve
serve_from_boot cs = start >>= λ _. serve cs

module _ {P : Vfs → Type 0} (k : CallsKept P) where
  pub serve_from_boot-keeps :
      (cs : List Call) (s : Vfs) → P boot → serve_from_boot cs boot ≡ (ok tt, s) → P s
  unfolding serve_from_boot
  serve_from_boot-keeps cs s h e =
      let kept =
        (Keeps-bind start (λ _. serve cs) (Keeps-start k) (λ _. Keeps-serve k cs)).at boot h in
      subst (Holds P (λ _. P)) e kept

boot-MountsCached : MountsCached boot
unfolding lookup
boot-MountsCached = record { cached = λ id m e. absurd (ground arith) }

boot-FilesMounted : FilesMounted boot
unfolding lookup
boot-FilesMounted = record { mounted = λ fd f e. absurd (ground arith) }

-- In every state that the kernel reaches, the root of each mount stands in the directory cache under
-- its parent's id and its name, and is alive, so that a cache lookup finds it, whatever the locals.
pub mount_roots_cached :
    (cs : List Call) (s : Vfs)
    → serve_from_boot cs boot ≡ (ok tt, s)
    → (id : ℕ) (m : VfsMount) → lookup id s.mount_table ≡ some m
    → (lookup (key_of m.root) s.table ≡ some m.root) × (is_live [] s m.root ≡ true)
mount_roots_cached cs s e id m f = (
  (serve_from_boot-keeps (writes_kept calls-MountsCached) cs s boot-MountsCached e).cached id m f,
  is_live-mount [] s id m f,
)

-- In every state that the kernel reaches, `resolve_path` resolves a name as if it did not search the
-- mount table: with the same result and the same state behind it.
pub mount_search_redundant :
    (cs : List Call) (s : Vfs) (name : Bytes) (top : DirectoryEntry) (below : List DirectoryEntry)
    → serve_from_boot cs boot ≡ (ok tt, s)
    → resolve_name name top below s ≡ resolve_cached name top below s
mount_search_redundant cs s name top below e =
    resolve_name-eq-cached name top below s
      (serve_from_boot-keeps (writes_kept calls-MountsAscending) cs s tt e)
      (serve_from_boot-keeps (writes_kept calls-MountsCached) cs s boot-MountsCached e)

-- In every state that the kernel reaches, `File::file_system` of an open file does not panic: it
-- returns the mount that the table has for the file's node.
pub file_system-of_open_file :
    (cs : List Call) (s : Vfs) (fd : ℕ) (f : File)
    → serve_from_boot cs boot ≡ (ok tt, s)
    → lookup fd s.files ≡ some f
    → (m : VfsMount) × (lookup f.node.mount_id s.mount_table ≡ some m)
      × (file_system f.node s ≡ (ok m, s))
unfolding file_system ◌>>=◌
file_system-of_open_file cs s fd f e q =
    elim (Option-cases (lookup f.node.mount_id s.mount_table)) [
      | inl h ↦ absurd (
          (serve_from_boot-keeps (writes_kept calls-FilesMounted) cs s boot-FilesMounted e).mounted
            fd f q h)
      | inr h ↦ (h.0, h.1, rw (file_system, h.1) refl)
    ]

-- In every state that the kernel reaches, pruning the directory cache is not seen: a lookup in the
-- cache has the same result before and after it, whatever the locals.
pub prune_unseen :
    (cs : List Call) (s : Vfs) (p : DirectoryEntry) (name : Bytes) (locals : List DirectoryEntry)
    → serve_from_boot cs boot ≡ (ok tt, s)
    → lookup_cached locals p name (prune locals s) ≡ lookup_cached locals p name s
prune_unseen cs s p name locals e =
    lookup_cached-prune locals p name s
      (serve_from_boot-keeps (writes_kept calls-TableAscending) cs s tt e)
