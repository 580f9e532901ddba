-- ===== src/Fs/Tests/States.antt =====
-- The theorems on reachable states and on the directory cache, on the runs.
use riptide.Prelude.{◌≡◌, true, Option, some, none, [], ◌∷◌, codes, ap, ◌∙◌}
use riptide.BTreeMap.Keys.{nat_key, pair_key}
use riptide.Fs.Types.{DirectoryEntry}
use riptide.Prelude.{ℕ, ◌-◌, ◌≢◌}
use riptide.Fs.Types.{NodeCell}
use riptide.Fs.Node.{with_links}
use riptide.Fs.Files.{close}
use riptide.Fs.Reachable.Closing.{close-returns}
use riptide.Fs.State.{Vfs, ok}
use riptide.Fs.Cache.{key_of}
use riptide.Fs.Reachable.{mount_roots_cached, mount_search_redundant, prune_unseen}
use riptide.Fs.Resolve.MountSearch.{resolve_cached}
use riptide.Fs.Resolve.Hits.{get_cached_or_lookup_again}
use riptide.BTreeMap.{lookup}
use riptide.Fs.Cache.{is_live, lookup_cached, prune}
use riptide.Fs.Resolve.{get_cached_or_lookup, resolve_name}
use riptide.Fs.Tests.{
  calls, reached, unwrap, blank_entry, devices, open_2, root_entry, unwrap-is_some, value, returned,
  looking, runs, served, dev_mounted, is_open_2,
}

mount_roots_cached_example :
    (lookup (key_of devices.root) reached.table ≡ some devices.root)
    × (is_live [] reached devices.root ≡ true)
mount_roots_cached_example = mount_roots_cached calls reached served 1 devices dev_mounted

mount_search_redundant_example :
    resolve_name (codes "dev") root_entry [] reached
    ≡ resolve_cached (codes "dev") root_entry [] reached
mount_search_redundant_example =
    mount_search_redundant calls reached (codes "dev") root_entry [] served

prune_unseen_example :
    lookup_cached [] root_entry (codes "a") (prune [] reached)
    ≡ lookup_cached [] root_entry (codes "a") reached
prune_unseen_example = prune_unseen calls reached root_entry (codes "a") [] served

abbrev found_entry : DirectoryEntry
found_entry = unwrap blank_entry (value none looking.0)

found_a : looking ≡ (ok (some found_entry), looking.1)
found_a =
    returned none looking runs.7
    ∙ ap (λ (o : Option DirectoryEntry). (ok o, looking.1))
        (unwrap-is_some blank_entry (value none looking.0) runs.8)

get_cached_or_lookup_again_example :
    get_cached_or_lookup (found_entry ∷ []) root_entry (codes "a") looking.1
    ≡ (ok (some found_entry), looking.1)
get_cached_or_lookup_again_example =
    get_cached_or_lookup_again [] [] root_entry found_entry (codes "a") reached looking.1 found_a

close-returns_example :
    (s2 : Vfs) × (c : NodeCell) × (close 2 reached ≡ (ok tt, s2))
    × (lookup 2 s2.files ≡ none)
    × ((other : ℕ) → other ≢ 2 → lookup other s2.files ≡ lookup other reached.files)
    × (lookup open_2.node.address reached.cells ≡ some c)
    × (lookup open_2.node.address s2.cells ≡ some (with_links (c.metadata.link_count - 1) c))
close-returns_example = close-returns calls reached 2 open_2 served is_open_2
