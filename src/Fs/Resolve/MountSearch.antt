-- ===== src/Fs/Resolve/MountSearch.antt =====
-- The search of the mount table in `resolve_path` finds what the directory cache has.
use riptide.Fs.State.{ok}
use mathlib.Core.Path.{subst}
use riptide.Prelude.{
  ℕ, ◌≡◌, refl, sym, ap, ◌∙◌, Bool, true, false, ◌&&◌, Option, none, some, List, [], ◌∷◌, Bytes,
  arith, ◌=s=◌, =s=_sound, Bool-cases, Option-cases, inl, inr,
}
use riptide.BTreeMap.{Map, lookup, values, key_eq}
use riptide.BTreeMap.Keys.{nat_key, pair_key}
use riptide.BTreeMap.Order.{IsAbove, IsAscending}
use riptide.Fs.Types.{DirectoryEntry, orphan, child, fields, parent, same_entry, VfsMount}
use riptide.Fs.State.{Vfs, Io, pure, ◌>>=◌, match_option}
use riptide.Fs.Cache.{key_of, lookup_cached}
use riptide.Fs.Cache.Insert.{lookup_cached_live, is_live-mount}
use riptide.Fs.Cache.Mounts.{MountsCached}
use riptide.Fs.Resolve.{Stack, find_mount, is_mounted_in, get_cached_or_lookup, resolve_name}

-- A key that the rest of an ascending map has is above its first key.
above-lookup :
    (j id : ℕ) (n : VfsMount) (m : Map ℕ VfsMount)
    → IsAbove j m
    → lookup id m ≡ some n
    → key_eq id j ≡ false
unfolding lookup
above-lookup j id n [] h e = ground arith
above-lookup j id n ((i, w) ∷ m) h e = ground (arith, h.0, above-lookup j id n m h.1)

abbrev is_match : DirectoryEntry → Bytes → VfsMount → Bool
is_match top name m = is_mounted_in top m && (fields m.root).name =s= name

-- What the search finds is the root of a mount of the table.
record Found (mt : Map ℕ VfsMount) (top : DirectoryEntry) (name : Bytes) (root : DirectoryEntry)
    : Type 0 where
  id : ℕ
  mount : VfsMount
  in_table : lookup id mt ≡ some mount
  at_root : mount.root ≡ root
  matches : is_match top name mount ≡ true

find_mount-Found :
    (mt : Map ℕ VfsMount) (top : DirectoryEntry) (name : Bytes) (root : DirectoryEntry)
    → IsAscending mt
    → find_mount (values mt) top name ≡ some root
    → Found mt top name root
unfolding find_mount values lookup
find_mount-Found [] top name root h e = absurd (ground arith)
find_mount-Found ((j, w) ∷ mt) top name root h e = elim (Bool-cases (is_match top name w)) [
  | inl t ↦ record {
    id = j;
    mount = w;
    in_table = ground arith;
    at_root = ground arith;
    matches = t;
  }
  | inr t ↦
      let f = find_mount-Found mt top name root h.1 (ground arith) in
      record {
        id = f.id;
        mount = f.mount;
        in_table = ground (arith, above-lookup j f.id f.mount mt h.0 f.in_table, f.in_table);
        at_root = f.at_root;
        matches = f.matches;
      }
]

match_key :
    (top : DirectoryEntry) (name : Bytes) (m : VfsMount)
    → is_match top name m ≡ true
    → key_of m.root ≡ ((fields top).id, name)
unfolding same_entry
match_key top name m h = go m.root h
  where
    go :
        (r : DirectoryEntry)
        → ((elim (parent r) [ none ↦ false | some p ↦ same_entry p top ])
            && (fields r).name =s= name)
          ≡ true
        → key_of r ≡ ((fields top).id, name)
    go (orphan f) h = absurd (ground arith)
    go (child f p) h = ground (arith, =s=_sound f.name name)

-- `resolve_path`'s treatment of a name without the search of the mount table, as
-- `resolve_path_parent_directory` has it.
unfoldable pub resolve_cached : Bytes → DirectoryEntry → List DirectoryEntry → Io (Option Stack)
resolve_cached name top below = do
  found ← get_cached_or_lookup (top ∷ below) top name
  match_option found (pure none) λ e. pure (some (e, top ∷ below))

cached_hit :
    (name : Bytes) (top e : DirectoryEntry) (below : List DirectoryEntry) (s : Vfs)
    → lookup_cached (top ∷ below) top name s ≡ some e
    → resolve_cached name top below s ≡ (ok (some (e, top ∷ below)), s)
unfolding resolve_cached get_cached_or_lookup ◌>>=◌
cached_hit name top e below s h = rw (resolve_cached, get_cached_or_lookup, h) refl

found_cached :
    (name : Bytes) (top root : DirectoryEntry) (below : List DirectoryEntry) (s : Vfs)
    → IsAscending s.mount_table
    → MountsCached s
    → find_mount (values s.mount_table) top name ≡ some root
    → lookup_cached (top ∷ below) top name s ≡ some root
found_cached name top root below s a h e =
    let f = find_mount-Found s.mount_table top name root a e in
    let cached =
      subst (λ (k : ℕ × Bytes). lookup k s.table ≡ some f.mount.root)
        (match_key top name f.mount f.matches) (h.cached f.id f.mount f.in_table) in
    lookup_cached_live (top ∷ below) top f.mount.root name s cached
      (is_live-mount (top ∷ below) s f.id f.mount f.in_table)
    ∙ ap some f.at_root

pub resolve_name-eq-cached :
    (name : Bytes) (top : DirectoryEntry) (below : List DirectoryEntry) (s : Vfs)
    → IsAscending s.mount_table
    → MountsCached s
    → resolve_name name top below s ≡ resolve_cached name top below s
unfolding resolve_name ◌>>=◌
resolve_name-eq-cached name top below s a h =
    elim (Option-cases (find_mount (values s.mount_table) top name)) [
      | inl e ↦ rw (resolve_name, e) (unfold resolve_cached in refl)
      | inr found ↦
          rw (resolve_name, found.1)
            (sym (
              cached_hit name top found.0 below s
                (found_cached name top found.0 below s a h found.1)))
    ]
