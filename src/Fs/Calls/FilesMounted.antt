-- ===== src/Fs/Calls/FilesMounted.antt =====
-- Every open file has its mount in the mount table.
use riptide.BTreeMap.{values}
use riptide.Fs.Cache.{drop_dead}
use mathlib.Core.Path.{subst}
use riptide.Prelude.{
  ℕ, ◌≡◌, Bool, true, false, some, List, [], ◌∷◌, arith, if◌then◌else◌, Bool-cases, inl, inr,
}
use riptide.BTreeMap.{lookup, insert, remove, lookup-insert, lookup-remove, key_eq}
use riptide.BTreeMap.Keys.{nat_key, pair_key}
use riptide.Fs.Types.{File, DirectoryEntry, child, orphan, VfsMount}
use riptide.Fs.State.{Vfs}
use riptide.Fs.Cache.{prune, prune_entries, prune_children, is_live, set_table, link_child}
use riptide.Fs.Cache.Insert.{after_insert, Holds-cache_insert}
use riptide.Fs.Calls.Writes.{IsMounted, IsMounted-insert}
use riptide.Fs.Resolve.Keeps.{KeepsCached}
use riptide.Fs.Calls.MountKeeps.{KeepsCalls}

pub record FilesMounted (s : Vfs) : Type 0 where
  pub mounted : (fd : ℕ) (f : File) → lookup fd s.files ≡ some f → IsMounted f.node.mount_id s

-- The invariant reads only two fields of the state.
same_tables :
    (s t : Vfs)
    → t.files ≡ s.files
    → t.mount_table ≡ s.mount_table
    → FilesMounted s
    → FilesMounted t
same_tables s t e m h = record { mounted = λ fd f q. rw m (h.mounted fd f (rw e at q)) }

after_insert-FilesMounted :
    (e : DirectoryEntry) (s : Vfs) → FilesMounted s → FilesMounted (after_insert e s)
unfolding set_table link_child
after_insert-FilesMounted (orphan f) s h = record { mounted = h.mounted }
after_insert-FilesMounted (child f p) s h = record { mounted = h.mounted }

prune_entries-FilesMounted :
    (locals es : List DirectoryEntry) (s : Vfs)
    → FilesMounted s
    → FilesMounted (prune_entries locals es s)
unfolding prune_entries
prune_entries-FilesMounted locals [] s h = h
prune_entries-FilesMounted locals (e ∷ es) s h =
    prune_entries-FilesMounted locals es _ (one (is_live locals s e))
  where
    one : (b : Bool) → FilesMounted (if b then prune_children locals e s else s)
    one true = record { mounted = h.mounted }
    one false = h

prune-FilesMounted : (s : Vfs) → FilesMounted s → FilesMounted (prune [] s)
unfolding prune
prune-FilesMounted s h =
    prune_entries-FilesMounted [] (values (drop_dead [] s).table) (drop_dead [] s)
      (record { mounted = h.mounted })

insert_mount-FilesMounted :
    (id : ℕ) (m : VfsMount) (s : Vfs)
    → FilesMounted s
    → FilesMounted (record s { mount_table = insert id m s.mount_table })
insert_mount-FilesMounted id m s h = record {
  mounted = λ fd f q. IsMounted-insert f.node.mount_id id m s (h.mounted fd f q);
}

file_in-FilesMounted :
    (fd : ℕ) (f : File) (s : Vfs)
    → FilesMounted s
    → IsMounted f.node.mount_id s
    → FilesMounted (record s { files = insert fd f s.files })
file_in-FilesMounted fd f s h m = record {
  mounted = λ j g q. elim (Bool-cases (key_eq j fd)) [
    | inl t ↦ subst (λ (x : File). IsMounted x.node.mount_id s) (same j g q t) m
    | inr t ↦ h.mounted j g (ground (arith, lookup-insert j fd f s.files))
  ];
}
  where
    same : (j : ℕ) (g : File) → lookup j (insert fd f s.files) ≡ some g → key_eq j fd ≡ true → f ≡ g
    same j g q t = ground (arith, lookup-insert j fd f s.files)

file_out-FilesMounted :
    (fd : ℕ) (s : Vfs) → FilesMounted s → FilesMounted (record s { files = remove fd s.files })
file_out-FilesMounted fd s h = record {
  mounted = λ j g q. h.mounted j g (ground (arith, lookup-remove j fd s.files));
}

cached-FilesMounted : KeepsCached FilesMounted
cached-FilesMounted = record {
  writes = record {
    contents = λ a c d s e h. record { mounted = h.mounted };
    node = λ d s h. record { mounted = h.mounted };
    node_id = λ id n m s e h. insert_mount-FilesMounted id _ s h;
  };
  entry = λ locals p node name. record {
    at = λ s h.
        Holds-cache_insert FilesMounted _ locals (some p) node name s
          (λ _. after_insert-FilesMounted _ s h);
  };
}

pub calls-FilesMounted : KeepsCalls FilesMounted
calls-FilesMounted = record {
  files = record {
    directories = record {
      entries = cached-FilesMounted;
      callers = λ es s h. record { mounted = h.mounted };
      pruned = prune-FilesMounted;
    };
    links = record { links = λ a c n s e h. record { mounted = h.mounted } };
    fd_counter = λ n s h. record { mounted = h.mounted };
    file_in = file_in-FilesMounted;
    file_out = file_out-FilesMounted;
  };
  mounts = record {
    entries = cached-FilesMounted;
    mount_counter = λ n s h. record { mounted = h.mounted };
    mount_in = λ m s h e. insert_mount-FilesMounted m.id m s h;
    root_entry = λ node s h e. after_insert-FilesMounted _ s h;
  };
  registries = λ r t s h. record { mounted = h.mounted };
}
