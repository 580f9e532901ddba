-- ===== src/Fs/Cache/Mounts.antt =====
-- The root of every mount is in the directory cache, under the key of its place.
use riptide.Fs.Cache.Insert.{Holds-cache_insert, lookup_cached_live}
use mathlib.Core.Path.{subst}
use riptide.Prelude.{◌≢◌, ◌∙◌}
use riptide.BTreeMap.{lookup-insert_ne}
use riptide.Fs.Resolve.Keeps.{KeepsCached}
use riptide.Prelude.{ℕ, ◌≡◌, refl, true, some, List, Bytes, arith, Bool-cases, inl, inr}
use riptide.BTreeMap.{lookup, insert, lookup-insert, key_eq}
use riptide.BTreeMap.Keys.{nat_key, pair_key}
use riptide.Fs.Types.{FsNode, DirectoryEntry, child, orphan, fields, VfsMount}
use riptide.Fs.State.{Vfs}
use riptide.Fs.Drivers.Keeps.{KeepsWrites}
use riptide.Fs.Cache.{key_of, may_insert, set_table, link_child}
use riptide.Fs.Cache.Insert.{inserted, after_insert, is_live-mount}

pub record MountsCached (s : Vfs) : Type 0 where
  pub cached :
      (id : ℕ) (m : VfsMount)
      → lookup id s.mount_table ≡ some m
      → lookup (key_of m.root) s.table ≡ some m.root

mount_table-link_child :
    (e : DirectoryEntry) (s : Vfs) → (link_child e s).mount_table ≡ s.mount_table
unfolding link_child
mount_table-link_child (orphan f) s = refl
mount_table-link_child (child f p) s = refl

table-link_child : (e : DirectoryEntry) (s : Vfs) → (link_child e s).table ≡ s.table
unfolding link_child
table-link_child (orphan f) s = refl
table-link_child (child f p) s = refl

-- A mount after an update of one mount that leaves its root has the root of a mount before.
module _ {s : Vfs} (h : MountsCached s) (id : ℕ) (m m' : VfsMount) where
  cached_update :
      lookup id s.mount_table ≡ some m
      → m'.root ≡ m.root
      → (j : ℕ) (k : VfsMount) → lookup j (insert id m' s.mount_table) ≡ some k
      → lookup (key_of k.root) s.table ≡ some k.root
  cached_update e r j k f = elim (Bool-cases (key_eq j id)) [
    | inl t ↦
        subst (λ (x : DirectoryEntry). lookup (key_of x) s.table ≡ some x) (same t)
          (h.cached id m e)
    | inr t ↦ h.cached j k (ground (arith, lookup-insert j id m' s.mount_table))
  ]
    where
      same : key_eq j id ≡ true → m.root ≡ k.root
      same t = ground (arith, lookup-insert j id m' s.mount_table)

writes-MountsCached : KeepsWrites MountsCached
writes-MountsCached = record {
  contents = λ a c d s e h. record { cached = h.cached };
  node = λ d s h. record { cached = h.cached };
  node_id = λ id n m s e h. record { cached = cached_update h id m _ e refl };
}

-- The key of a new entry is not that of a mount's root, which is alive.
module _ (locals : List DirectoryEntry) (p : DirectoryEntry) (node : FsNode) (name : Bytes)
    (s : Vfs) where
  key_is_free :
      MountsCached s
      → may_insert locals (some p) name s ≡ true
      → (id : ℕ) (m : VfsMount) → lookup id s.mount_table ≡ some m
      → key_of m.root ≢ ((fields p).id, name)
  unfolding may_insert
  key_is_free h fits id m e same =
      let cached =
        subst (λ (k : ℕ × Bytes). lookup k s.table ≡ some m.root) same (h.cached id m e) in
      ground
        (arith, lookup_cached_live locals p m.root name s cached (is_live-mount locals s id m e))

  entry_MountsCached :
      MountsCached s
      → may_insert locals (some p) name s ≡ true
      → MountsCached (after_insert (inserted (some p) node name s) s)
  unfolding set_table link_child
  entry_MountsCached h fits = record {
    cached = λ id m e.
        lookup-insert_ne (key_of m.root) ((fields p).id, name) _ s.table (key_is_free h fits id m e)
        ∙ h.cached id m e;
  }

pub cached-MountsCached : KeepsCached MountsCached
cached-MountsCached = record {
  writes = writes-MountsCached;
  entry = λ locals p node name. record {
    at = λ s h.
        Holds-cache_insert MountsCached (λ _. MountsCached) locals (some p) node name s
          (entry_MountsCached locals p node name s h);
  };
}
