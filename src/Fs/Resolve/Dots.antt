-- ===== src/Fs/Resolve/Dots.antt =====
-- `.` and `..` in `resolve_path` (kernel/src/fs/vfs.rs).
use riptide.BTreeMap.{values}
use riptide.Prelude.{◌≡◌, refl, ◌⊎◌, true, some, none, List, [], ◌∷◌, Bytes, codes, ◌=s=◌}
use riptide.Fs.Types.{DirectoryEntry, fields, is_directory}
use riptide.Fs.State.{Vfs, ok, ◌>>=◌}
use riptide.Fs.Resolve.{resolve_segment, resolve_segments, pop, find_mount, get_cached_or_lookup}

-- A single dot in a directory is skipped.
pub single_dot :
    (segments : List Bytes) (top : DirectoryEntry) (below : List DirectoryEntry) (s : Vfs)
    → is_directory (fields top).node ≡ true
    → resolve_segments (codes "." ∷ segments) top below s ≡ resolve_segments segments top below s
unfolding resolve_segments resolve_segment ◌>>=◌ ◌=s=◌
single_dot segments top below s d = rw d refl

-- In the root directory a double dot is skipped.
pub double_dot_at_root :
    (segments : List Bytes) (top : DirectoryEntry) (s : Vfs)
    → is_directory (fields top).node ≡ true
    → resolve_segments (codes ".." ∷ segments) top [] s ≡ resolve_segments segments top [] s
unfolding resolve_segments resolve_segment pop ◌>>=◌ ◌=s=◌
double_dot_at_root segments top s d = rw d refl

-- What a name stands for in a directory: the root of a mount there, or what the cache or the driver
-- finds; and the state behind the search.
abbrev pub Found :
    Bytes → DirectoryEntry → List DirectoryEntry → DirectoryEntry → Vfs → Vfs → Type 0
Found name top below e s s2 =
    ((find_mount (values s.mount_table) top name ≡ some e) × (s ≡ s2))
    ⊎ ((find_mount (values s.mount_table) top name ≡ none)
        × (get_cached_or_lookup (top ∷ below) top name s ≡ (ok (some e), s2)))
