-- ===== src/Fs/Resolve/Hits.antt =====
-- Resolving a name twice (kernel/src/fs/vfs.rs, `get_cached_or_lookup`).
use riptide.Fs.Drivers.{file_system, lookup_node}
use mathlib.Core.Path.{subst}
use riptide.Prelude.{◌≡◌, refl, Option, none, some, List, ◌∷◌, Bytes, arith}
use riptide.BTreeMap.{lookup, lookup-insert_self}
use riptide.BTreeMap.Keys.{pair_key}
use riptide.Fs.Types.{DirectoryEntry, fields, FsNode}
use riptide.Fs.State.{Vfs, ok, pure, ◌>>=◌, match_option}
use riptide.Fs.State.Keeps.{Holds, Triple, Triple-bind, Top, Triple-any, Triple-gets, Triple-pure}
use riptide.Fs.Cache.{lookup_cached, cache_insert, upgrade, set_table}
use riptide.Fs.Cache.Insert.{Holds-cache_insert, lookup_cached_live, is_live-local, inserted}
use riptide.Fs.Resolve.{get_cached_or_lookup}

-- An entry that a cache lookup finds is returned, and nothing changes.
pub cached_hit :
    (locals : List DirectoryEntry) (top e : DirectoryEntry) (name : Bytes) (s : Vfs)
    → lookup_cached locals top name s ≡ some e
    → get_cached_or_lookup locals top name s ≡ (ok (some e), s)
unfolding get_cached_or_lookup ◌>>=◌
cached_hit locals top e name s h = rw h refl

-- A name that was resolved to an entry has it in the table.
abbrev IsCached : DirectoryEntry → Bytes → Option DirectoryEntry → Vfs → Type 0
IsCached top name none s = Unit
IsCached top name (some e) s = lookup ((fields top).id, name) s.table ≡ some e

upgrade-some :
    (locals : List DirectoryEntry) (s : Vfs) (o : Option DirectoryEntry) (e : DirectoryEntry)
    → upgrade locals s o ≡ some e
    → o ≡ some e
unfolding upgrade
upgrade-some locals s none e h = h
upgrade-some locals s (some d) e h = ground arith

inserted-IsCached :
    (locals : List DirectoryEntry) (top : DirectoryEntry) (node : FsNode) (name : Bytes)
    → Triple Top Top
        (cache_insert locals (some top) node name)
        (λ e s. lookup ((fields top).id, name) s.table ≡ some e)
inserted-IsCached locals top node name = record {
  at = λ s h. Holds-cache_insert Top _ locals (some top) node name s λ fits.
      unfold set_table in
      lookup-insert_self ((fields top).id, name) (inserted (some top) node name s) _;
}

looked_up-IsCached :
    (locals : List DirectoryEntry) (top : DirectoryEntry) (name : Bytes)
    → Triple Top Top (get_cached_or_lookup locals top name) (IsCached top name)
unfolding get_cached_or_lookup lookup_cached
looked_up-IsCached locals top name =
    Triple-bind _ _ (Triple-gets (lookup_cached locals top name)) λ cached. go cached
  where
    inserted_after :
        (found : Option FsNode)
        → Triple Top Top
            (match_option found
              (pure none)
              (λ node. cache_insert locals (some top) node name >>= λ e. pure (some e)))
            (IsCached top name)
    inserted_after none = Triple-pure none λ s h. tt
    inserted_after (some node) =
        Triple-bind _ _ (inserted-IsCached locals top node name) λ e. Triple-pure (some e) λ s h. h

    go :
        (cached : Option DirectoryEntry)
        → Triple
            (λ s. Unit × (lookup_cached locals top name s ≡ cached))
            Top
            (match_option cached
              (file_system (fields top).node >>= λ fs. lookup_node fs top name >>= λ found.
                match_option found
                  (pure none)
                  λ node. cache_insert locals (some top) node name >>= λ e. pure (some e))
              (λ e. pure (some e)))
            (IsCached top name)
    go none =
        Triple-bind _ _ (Triple-any _)
          λ fs. Triple-bind _ _ (Triple-any _) λ found. inserted_after found
    go (some e) = Triple-pure (some e) λ s h. upgrade-some locals s _ e h.1

-- A name that was found is found again, while the caller holds the entry: it is the same entry, and
-- the second call changes nothing, whatever the file system would say by then.
pub get_cached_or_lookup_again :
    (locals locals2 : List DirectoryEntry) (top e : DirectoryEntry) (name : Bytes) (s s2 : Vfs)
    → get_cached_or_lookup locals top name s ≡ (ok (some e), s2)
    → get_cached_or_lookup (e ∷ locals2) top name s2 ≡ (ok (some e), s2)
get_cached_or_lookup_again locals locals2 top e name s s2 h =
    let cached =
      subst (Holds Top (IsCached top name)) h ((looked_up-IsCached locals top name).at s tt) in
    cached_hit (e ∷ locals2) top e name s2
      (lookup_cached_live (e ∷ locals2) top e name s2 cached (is_live-local e locals2 s2))
