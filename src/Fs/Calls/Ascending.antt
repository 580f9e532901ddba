-- ===== src/Fs/Calls/Ascending.antt =====
-- Every call keeps the keys of the mount table in ascending order.
use riptide.Prelude.{ℕ, Bool, true, false, List, [], ◌∷◌, some, if◌then◌else◌}
use riptide.BTreeMap.{values, insert}
use riptide.BTreeMap.Keys.{nat_key}
use riptide.BTreeMap.Order.{IsAscending, insert-IsAscending}
use riptide.Fs.Types.{DirectoryEntry, orphan, child, VfsMount}
use riptide.Fs.State.{Vfs}
use riptide.Fs.Cache.{
  prune, prune_entries, prune_children, is_live, drop_dead, set_table, link_child,
}
use riptide.Fs.Cache.Insert.{after_insert, Holds-cache_insert}
use riptide.Fs.Resolve.Keeps.{KeepsCached}
use riptide.Fs.Calls.MountKeeps.{KeepsCalls}

abbrev pub MountsAscending : Vfs → Type 0
MountsAscending s = IsAscending s.mount_table

after_insert-MountsAscending :
    (e : DirectoryEntry) (s : Vfs) → MountsAscending s → MountsAscending (after_insert e s)
unfolding set_table link_child
after_insert-MountsAscending (orphan f) s h = h
after_insert-MountsAscending (child f p) s h = h

prune_entries-MountsAscending :
    (locals es : List DirectoryEntry) (s : Vfs)
    → MountsAscending s
    → MountsAscending (prune_entries locals es s)
unfolding prune_entries
prune_entries-MountsAscending locals [] s h = h
prune_entries-MountsAscending locals (e ∷ es) s h =
    prune_entries-MountsAscending locals es _ (one (is_live locals s e))
  where
    one : (b : Bool) → MountsAscending (if b then prune_children locals e s else s)
    one true = h
    one false = h

prune-MountsAscending : (s : Vfs) → MountsAscending s → MountsAscending (prune [] s)
unfolding prune
prune-MountsAscending s h =
    prune_entries-MountsAscending [] (values (drop_dead [] s).table) (drop_dead [] s) h

insert-MountsAscending :
    (id : ℕ) (m : VfsMount) (s : Vfs)
    → MountsAscending s
    → MountsAscending (record s { mount_table = insert id m s.mount_table })
insert-MountsAscending id m s h = insert-IsAscending id m s.mount_table h

cached-MountsAscending : KeepsCached MountsAscending
cached-MountsAscending = record {
  writes = record {
    contents = λ a c d s e h. h;
    node = λ d s h. h;
    node_id = λ id n m s e h. insert-MountsAscending id _ s h;
  };
  entry = λ locals p node name. record {
    at = λ s h.
        Holds-cache_insert MountsAscending _ locals (some p) node name s
          (λ _. after_insert-MountsAscending _ s h);
  };
}

pub calls-MountsAscending : KeepsCalls MountsAscending
calls-MountsAscending = record {
  files = record {
    directories = record {
      entries = cached-MountsAscending;
      callers = λ es s h. h;
      pruned = prune-MountsAscending;
    };
    links = record { links = λ a c n s e h. h };
    fd_counter = λ n s h. h;
    file_in = λ fd f s h m. h;
    file_out = λ fd s h. h;
  };
  mounts = record {
    entries = cached-MountsAscending;
    mount_counter = λ n s h. h;
    mount_in = λ m s h e. insert-MountsAscending m.id m s h;
    root_entry = λ node s h e. after_insert-MountsAscending _ s h;
  };
  registries = λ r t s h. h;
}
