-- ===== src/Fs/Cache/Insert.antt =====
-- What `DirectoryCache::insert` does in one step, and which entries are alive.
use riptide.Fs.State.Keeps.{Holds}
use riptide.Prelude.{
  ℕ, ◌+◌, ◌≡◌, refl, Bool, true, Option, some, List, [], ◌∷◌, Bytes, any, arith, Bool-cases, inl,
  inr, if◌then◌else◌,
}
use riptide.BTreeMap.{Map, lookup, values}
use riptide.BTreeMap.Keys.{Key, nat_key, pair_key}
use riptide.Fs.Types.{FsNode, DirectoryEntry, orphan, child, fields, keeps_alive, VfsMount}
use riptide.Fs.State.{Vfs, ok, panic, ◌>>=◌, bump}
use riptide.Fs.Cache.{
  is_live, cache_insert, may_insert, make_entry, link_child, set_table, lookup_cached, upgrade,
}

-- The entry that an insertion makes, and the state behind it.
abbrev pub inserted : Option DirectoryEntry → FsNode → Bytes → Vfs → DirectoryEntry
inserted p node name s =
    make_entry p
      (record { address = s.next_address; id = s.next_entry_id; name = name; node = node })

abbrev pub after_insert : DirectoryEntry → Vfs → Vfs
after_insert e s = set_table e (
    link_child e
      (record s { next_entry_id = bump s.next_entry_id; next_address = s.next_address + 1 }))

pub cache_insert_lem :
    (locals : List DirectoryEntry) (p : Option DirectoryEntry) (node : FsNode) (name : Bytes)
    (s : Vfs)
    → cache_insert locals p node name s ≡ (
        if may_insert locals p name s
        then (ok (inserted p node name s), after_insert (inserted p node name s) s)
        else (panic, s))
unfolding cache_insert ◌>>=◌
cache_insert_lem locals p node name s = elim (Bool-cases (may_insert locals p name s)) [
  | inl e ↦ rw (e, cache_insert) refl
  | inr e ↦ rw (e, cache_insert) refl
]

pub keeps_alive_self : (e : DirectoryEntry) → keeps_alive e (fields e).address ≡ true
unfolding keeps_alive
keeps_alive_self (orphan f) = ground arith
keeps_alive_self (child f p) = ground arith

any_value {ℓ κ} :
    {K : Type ℓ} {V : Type κ} ⦃key : Key K⦄ (p : V → Bool) (k : K) (v : V) (m : Map K V)
    → lookup k m ≡ some v
    → p v ≡ true
    → any p (values m) ≡ true
unfolding lookup values
any_value p k v [] e h = ground arith
any_value p k v ((j, w) ∷ m) e h = ground (arith, any_value p k v m)

-- A mount keeps its root alive.
pub is_live-mount :
    (locals : List DirectoryEntry) (s : Vfs) (id : ℕ) (m : VfsMount)
    → lookup id s.mount_table ≡ some m
    → is_live locals s m.root ≡ true
unfolding is_live
is_live-mount locals s id m e = ground (
  arith,
  any_value (λ (n : VfsMount). keeps_alive n.root (fields m.root).address) id m s.mount_table,
  keeps_alive_self m.root,
)

-- A local variable keeps its entry alive.
pub is_live-local :
    (e : DirectoryEntry) (locals : List DirectoryEntry) (s : Vfs) → is_live (e ∷ locals) s e ≡ true
unfolding is_live
is_live-local e locals s = ground (arith, keeps_alive_self e)

-- A rule for `cache_insert`: the assertion has held where it returns.
pub Holds-cache_insert :
    (P : Vfs → Type 0) (Q : DirectoryEntry → Vfs → Type 0) (locals : List DirectoryEntry)
    (p : Option DirectoryEntry) (node : FsNode) (name : Bytes) (s : Vfs)
    → (may_insert locals p name s ≡ true
        → Q (inserted p node name s) (after_insert (inserted p node name s) s))
    → Holds P Q (cache_insert locals p node name s)
Holds-cache_insert P Q locals p node name s h = elim (Bool-cases (may_insert locals p name s)) [
  | inl e ↦ rw (cache_insert_lem locals p node name s, e) (h e)
  | inr e ↦ rw (cache_insert_lem locals p node name s, e) tt
]

-- An entry that is cached and alive is found.
pub lookup_cached_live :
    (locals : List DirectoryEntry) (p e : DirectoryEntry) (name : Bytes) (s : Vfs)
    → lookup ((fields p).id, name) s.table ≡ some e
    → is_live locals s e ≡ true
    → lookup_cached locals p name s ≡ some e
unfolding lookup_cached
lookup_cached_live locals p e name s cached live = rw (cached, upgrade, live) refl
