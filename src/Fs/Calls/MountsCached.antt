-- ===== src/Fs/Calls/MountsCached.antt =====
-- Every call keeps the roots of the mounts in the directory cache.
use riptide.BTreeMap.{values}
use riptide.Fs.Cache.{drop_dead}
use mathlib.Core.Path.{subst}
use riptide.Prelude.{
  ℕ, ◌≡◌, ◌≢◌, Bool, true, false, none, some, List, [], ◌∷◌, Bytes, arith, if◌then◌else◌,
  Bool-cases, inl, inr, ◌∙◌,
}
use riptide.BTreeMap.{Map, lookup, insert, lookup-insert, lookup-insert_ne, key_eq, retain}
use riptide.BTreeMap.Keys.{Key, nat_key, pair_key}
use riptide.Fs.Types.{FsNode, DirectoryEntry, VfsMount}
use riptide.Fs.State.{Vfs}
use riptide.Fs.Cache.{
  key_of, is_live, prune, prune_entries, prune_children, get_root, set_table, link_child, root_name,
  null_id,
}
use riptide.Fs.Cache.Insert.{inserted, after_insert, is_live-mount}
use riptide.Fs.Cache.Mounts.{MountsCached, cached-MountsCached}
use riptide.Fs.Calls.MountKeeps.{KeepsCalls}

lookup-retain {ℓ κ} :
    {K : Type ℓ} {V : Type κ} ⦃key : Key K⦄ (p : V → Bool) (k : K) (v : V) (m : Map K V)
    → lookup k m ≡ some v
    → p v ≡ true
    → lookup k (retain p m) ≡ some v
unfolding lookup retain
lookup-retain p k v [] e h = e
lookup-retain p k v ((j, w) ∷ m) e h = ground (arith, lookup-retain p k v m)

-- Pruning the children leaves the tables.
prune_entries-MountsCached :
    (locals es : List DirectoryEntry) (s : Vfs)
    → MountsCached s
    → MountsCached (prune_entries locals es s)
unfolding prune_entries
prune_entries-MountsCached locals [] s h = h
prune_entries-MountsCached locals (e ∷ es) s h =
    prune_entries-MountsCached locals es _ (one (is_live locals s e))
  where
    one : (b : Bool) → MountsCached (if b then prune_children locals e s else s)
    one true = record { cached = h.cached }
    one false = h

prune-MountsCached : (s : Vfs) → MountsCached s → MountsCached (prune [] s)
unfolding prune
prune-MountsCached s h =
    prune_entries-MountsCached [] (values (drop_dead [] s).table) (drop_dead [] s) (record {
      cached = λ id m e.
          lookup-retain (is_live [] s) (key_of m.root) m.root s.table (h.cached id m e)
            (is_live-mount [] s id m e);
    })

mount_in-MountsCached :
    (m : VfsMount) (s : Vfs)
    → MountsCached s
    → lookup (key_of m.root) s.table ≡ some m.root
    → MountsCached (record s { mount_table = insert m.id m s.mount_table })
mount_in-MountsCached m s h e = record {
  cached = λ j k f. elim (Bool-cases (key_eq j m.id)) [
    | inl t ↦
        subst (λ (n : VfsMount). lookup (key_of n.root) s.table ≡ some n.root) (same j k f t) e
    | inr t ↦ h.cached j k (ground (arith, lookup-insert j m.id m s.mount_table))
  ];
}
  where
    same :
        (j : ℕ) (k : VfsMount)
        → lookup j (insert m.id m s.mount_table) ≡ some k
        → key_eq j m.id ≡ true
        → m ≡ k
    same j k f t = ground (arith, lookup-insert j m.id m s.mount_table)

-- Without a root no mount has the root's key, since it would keep the root alive.
rootless :
    (s : Vfs)
    → MountsCached s
    → get_root [] s ≡ none
    → (id : ℕ) (m : VfsMount) → lookup id s.mount_table ≡ some m
    → key_of m.root ≢ (null_id, root_name)
unfolding get_root
rootless s h e id m f same =
    let cached = subst (λ (k : ℕ × Bytes). lookup k s.table ≡ some m.root) same (h.cached id m f) in
    ground (arith, is_live-mount [] s id m f)

root_entry-MountsCached :
    (node : FsNode) (s : Vfs)
    → MountsCached s
    → get_root [] s ≡ none
    → MountsCached (after_insert (inserted none node root_name s) s)
unfolding set_table link_child
root_entry-MountsCached node s h e = record {
  cached = λ id m f.
      lookup-insert_ne (key_of m.root) (null_id, root_name) _ s.table (rootless s h e id m f)
      ∙ h.cached id m f;
}

pub calls-MountsCached : KeepsCalls MountsCached
calls-MountsCached = record {
  files = record {
    directories = record {
      entries = cached-MountsCached;
      callers = λ es s h. record { cached = h.cached };
      pruned = prune-MountsCached;
    };
    links = record { links = λ a c n s e h. record { cached = h.cached } };
    fd_counter = λ n s h. record { cached = h.cached };
    file_in = λ fd f s h m. record { cached = h.cached };
    file_out = λ fd s h. record { cached = h.cached };
  };
  mounts = record {
    entries = cached-MountsCached;
    mount_counter = λ n s h. record { cached = h.cached };
    mount_in = mount_in-MountsCached;
    root_entry = root_entry-MountsCached;
  };
  registries = λ r t s h. record { cached = h.cached };
}
