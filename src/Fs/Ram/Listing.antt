-- ===== src/Fs/Ram/Listing.antt =====
-- The listing of a directory of the RAM file system (kernel/src/drivers/fs/ram.rs): it has what the
-- lookup finds.
use riptide.Prelude.{
  ◌≡◌, refl, sym, ap, ◌∙◌, Option, none, some, [], ◌∷◌, Bytes, arith, Bool-cases, inl, inr,
}
use mathlib.Core.Option
use mathlib.Core.Path.{subst}
use riptide.BTreeMap.{Map, key_eq, lookup, insert, lookup-insert}
use riptide.BTreeMap.Keys.{bytes_key, nat_key}
use riptide.BTreeMap.Order.{IsAbove, IsAscending}
use riptide.Fs.Types.{FsNode, IterationContext, DirectoryIterationEntry}
use riptide.Fs.State.{Vfs, ok, ◌>>=◌}
use riptide.Fs.Node.{data_as, get_cell}
use riptide.Fs.Ram.{ram_lookup, list_entry, list_children, ram_read_directory}
use riptide.Fs.Ram.Children.{HasChildren, ram_lookup_lem}

-- What a listing says of a child.
abbrev pub listed : Bytes → FsNode → DirectoryIterationEntry
listed name node = record { name = name; id = node.id; kind = node.kind }

abbrev or_else :
    Option DirectoryIterationEntry → Option DirectoryIterationEntry → Option DirectoryIterationEntry
or_else none o = o
or_else (some e) o = some e

absent_above : (name : Bytes) (m : Map Bytes FsNode) → IsAbove name m → lookup name m ≡ none
unfolding lookup
absent_above name [] h = refl
absent_above name ((j, n) ∷ m) h = ground (arith, h.0, absent_above name m h.1)

lookup-list_children :
    (name : Bytes) (m : Map Bytes FsNode) (ctx : IterationContext)
    → IsAscending m
    → lookup name (list_children m ctx)
      ≡ or_else (Option.map (listed name) (lookup name m)) (lookup name ctx)
unfolding list_children list_entry lookup
lookup-list_children name [] ctx h = refl
lookup-list_children name ((j, n) ∷ m) ctx h =
    lookup-list_children name m (insert j (listed j n) ctx) h.1
    ∙ ap (or_else (Option.map (listed name) (lookup name m)))
        (lookup-insert name j (listed j n) ctx)
    ∙ elim (Bool-cases (key_eq name j)) [
      | inl t ↦
          let same : name ≡ j = ground (arith, bytes_key.cmp_eq name j, t) in
          let absent : lookup name m ≡ none =
            subst (λ (k : Bytes). lookup k m ≡ none) (sym same) (absent_above j m h.0) in
          rw (t, absent) (ap (λ (k : Bytes). some (listed k n)) (sym same))
      | inr t ↦ rw t refl
    ]

-- The listing of a directory has the names that `lookup` finds, each with the id and the kind of the
-- node that `lookup` finds, and no other. For children in the order that the map keeps them in.
pub ram_read_directory-ram_lookup :
    (parent : FsNode) (children : Map Bytes FsNode) (s : Vfs)
    → HasChildren parent children s
    → IsAscending children
    → (ctx : IterationContext) × (ram_read_directory parent [] s ≡ (ok ctx, s))
      × ((name : Bytes)
          → (o : Option FsNode) × (ram_lookup parent name s ≡ (ok o, s))
            × (lookup name ctx ≡ Option.map (listed name) o))
unfolding ram_read_directory data_as get_cell lookup ◌>>=◌
ram_read_directory-ram_lookup parent children s h order = (
  list_children children [],
  rw (h.1, h.2) refl,
  λ name. (
    lookup name children,
    ram_lookup_lem parent children name s h,
    lookup-list_children name children [] order
        ∙ or_nothing (Option.map (listed name) (lookup name children)),
  ),
)
  where
    or_nothing : (o : Option DirectoryIterationEntry) → or_else o none ≡ o
    or_nothing none = refl
    or_nothing (some e) = refl
