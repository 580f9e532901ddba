-- ===== src/Fs/Cache/Prune.antt =====
-- `DirectoryCache::prune` (kernel/src/fs/vfs.rs).
use riptide.Prelude.{
  ℕ, ◌≡◌, refl, sym, ap, ◌∙◌, Bool, true, Option, none, some, List, [], ◌∷◌, Bytes, arith,
  if◌then◌else◌, Bool-cases, inl, inr,
}
use mathlib.Core.Path.{subst}
use riptide.BTreeMap.{Map, lookup, retain, values, key_eq}
use riptide.BTreeMap.Keys.{Key, pair_key}
use riptide.BTreeMap.Order.{IsAbove, IsAscending, retain-IsAscending}
use riptide.Fs.Types.{DirectoryEntry, fields}
use riptide.Fs.State.{Vfs}
use riptide.Fs.Cache.{
  is_live, upgrade, lookup_cached, prune_children, prune_entries, drop_dead, prune,
}

-- `prune` changes the table and the children of entries, nothing else.
record Same (s t : Vfs) : Type 0 where
  held : t.held ≡ s.held
  mounts : t.mount_table ≡ s.mount_table
  table : t.table ≡ s.table

prune_entries-Same :
    (locals es : List DirectoryEntry) (s : Vfs) → Same s (prune_entries locals es s)
unfolding prune_entries prune_children
prune_entries-Same locals [] s = record { held = refl; mounts = refl; table = refl }
prune_entries-Same locals (e ∷ es) s = elim (Bool-cases (is_live locals s e)) [
  | inl b ↦
      let t = prune_children locals e s in
      let h = prune_entries-Same locals es t in
      rw b (record { held = h.held; mounts = h.mounts; table = h.table })
  | inr b ↦ rw b (prune_entries-Same locals es s)
]

abbrev keep_if {κ} : {V : Type κ} → (V → Bool) → Option V → Option V
keep_if p none = none
keep_if p (some v) = if p v then some v else none

module _ {ℓ κ} {K : Type ℓ} {V : Type κ} ⦃key : Key K⦄ where
  absent_above : (j k : K) (m : Map K V) → IsAbove j m → key_eq k j ≡ true → lookup k m ≡ none
  unfolding lookup
  absent_above j k [] h e = refl
  absent_above j k ((i, w) ∷ m) h e =
      ground (arith, h.0, key.cmp_eq k j, key.cmp_eq k i, key.cmp_refl j, absent_above j k m h.1 e)

  lookup-retain :
      (p : V → Bool) (k : K) (m : Map K V)
      → IsAscending m
      → lookup k (retain p m) ≡ keep_if p (lookup k m)
  unfolding lookup retain
  lookup-retain p k [] h = refl
  lookup-retain p k ((j, w) ∷ m) h = ground (arith, lookup-retain p k m h.1, absent_above j k m h.0)

is_live-Same :
    (locals : List DirectoryEntry) (s t : Vfs) (e : DirectoryEntry)
    → Same s t
    → is_live locals t e ≡ is_live locals s e
unfolding is_live
is_live-Same locals s t e h = rw (h.held, h.mounts) refl

upgrade-keep_if :
    (locals : List DirectoryEntry) (s : Vfs) (o : Option DirectoryEntry)
    → upgrade locals s (keep_if (is_live locals s) o) ≡ upgrade locals s o
unfolding upgrade
upgrade-keep_if locals s none = refl
upgrade-keep_if locals s (some e) = ground arith

upgrade-Same :
    (locals : List DirectoryEntry) (s t : Vfs) (o : Option DirectoryEntry)
    → Same s t
    → upgrade locals t o ≡ upgrade locals s o
unfolding upgrade
upgrade-Same locals s t none h = refl
upgrade-Same locals s t (some e) h =
    ap (λ (b : Bool). if b then some e else none) (is_live-Same locals s t e h)

pub prune-TableAscending :
    (locals : List DirectoryEntry) (s : Vfs)
    → IsAscending s.table
    → IsAscending (prune locals s).table
unfolding prune
prune-TableAscending locals s h =
    let t = drop_dead locals s in
    let same = prune_entries-Same locals (values t.table) t in
    subst (λ (m : Map (ℕ × Bytes) DirectoryEntry). IsAscending m) (sym same.table)
      (retain-IsAscending (is_live locals s) s.table h)

-- Pruning the cache is not seen by a lookup in it: it drops only entries that no lookup finds.
pub lookup_cached-prune :
    (locals : List DirectoryEntry) (p : DirectoryEntry) (name : Bytes) (s : Vfs)
    → IsAscending s.table
    → lookup_cached locals p name (prune locals s) ≡ lookup_cached locals p name s
unfolding lookup_cached prune
lookup_cached-prune locals p name s h =
    let k : ℕ × Bytes = ((fields p).id, name) in
    let t = drop_dead locals s in
    let same = prune_entries-Same locals (values t.table) t in
    upgrade-Same locals t (prune locals s) (lookup k (prune locals s).table) same
    ∙ ap (λ (m : Map (ℕ × Bytes) DirectoryEntry). upgrade locals s (lookup k m)) same.table
    ∙ ap (upgrade locals s) (lookup-retain (is_live locals s) k s.table h)
    ∙ upgrade-keep_if locals s (lookup k s.table)
