-- ===== src/Fs/Calls/TableAscending.antt =====
-- Every call keeps the keys of the directory cache's table in ascending order.
use riptide.Prelude.{[], some}
use riptide.BTreeMap.Keys.{pair_key}
use riptide.BTreeMap.Order.{IsAscending, insert-IsAscending}
use riptide.Fs.Types.{DirectoryEntry, orphan, child}
use riptide.Fs.State.{Vfs}
use riptide.Fs.Cache.{set_table, link_child, key_of}
use riptide.Fs.Cache.Insert.{after_insert, Holds-cache_insert}
use riptide.Fs.Cache.Prune.{prune-TableAscending}
use riptide.Fs.Resolve.Keeps.{KeepsCached}
use riptide.Fs.Calls.MountKeeps.{KeepsCalls}

abbrev pub TableAscending : Vfs → Type 0
TableAscending s = IsAscending s.table

after_insert-TableAscending :
    (e : DirectoryEntry) (s : Vfs) → TableAscending s → TableAscending (after_insert e s)
unfolding set_table link_child
after_insert-TableAscending (orphan f) s h =
    insert-IsAscending (key_of (orphan f)) (orphan f) s.table h
after_insert-TableAscending (child f p) s h =
    insert-IsAscending (key_of (child f p)) (child f p) s.table h

cached-TableAscending : KeepsCached TableAscending
cached-TableAscending = record {
  writes = record { contents = λ a c d s e h. h; node = λ d s h. h; node_id = λ id n m s e h. h };
  entry = λ locals p node name. record {
    at = λ s h.
        Holds-cache_insert TableAscending _ locals (some p) node name s
          (λ _. after_insert-TableAscending _ s h);
  };
}

pub calls-TableAscending : KeepsCalls TableAscending
calls-TableAscending = record {
  files = record {
    directories = record {
      entries = cached-TableAscending;
      callers = λ es s h. h;
      pruned = prune-TableAscending [];
    };
    links = record { links = λ a c n s e h. h };
    fd_counter = λ n s h. h;
    file_in = λ fd f s h m. h;
    file_out = λ fd s h. h;
  };
  mounts = record {
    entries = cached-TableAscending;
    mount_counter = λ n s h. h;
    mount_in = λ m s h e. h;
    root_entry = λ node s h e. after_insert-TableAscending _ s h;
  };
  registries = λ r t s h. h;
}
