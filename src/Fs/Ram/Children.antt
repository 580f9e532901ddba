-- ===== src/Fs/Ram/Children.antt =====
-- The children of a directory of the RAM file system (kernel/src/drivers/fs/ram.rs): what is created is
-- found, what is removed is not, and the listing has what the lookup finds.
use riptide.Prelude.{ℕ, ◌<◌, ◌≡◌, ◌≢◌, refl, sym, ap, ◌∙◌, Option, none, some, [], Bytes, arith}
use mathlib.Core.Path.{subst}
use riptide.BTreeMap.{
  Map, lookup, insert, remove, lookup-insert_self, lookup-insert_ne, lookup-remove_self,
  lookup-remove_ne,
}
use riptide.BTreeMap.Keys.{bytes_key, nat_key}
use riptide.Fs.Types.{FsNode, file, ram_directory, ram_file, NodeCell, VfsMount}
use riptide.Fs.State.{Vfs, ok, modify, ◌>>=◌}
use riptide.Fs.State.Keeps.{
  Holds, Triple, Triple-bind, Triple-pure, Triple-weaken, Top, Keeps, Keeps-modify, keeps_rules,
}
use riptide.Fs.Node.{new_node, data_as, set_data, get_cell, set_cell, fresh_cell}
use riptide.Fs.Ram.{next_node_id, add_child, ram_create_file, ram_remove_file, ram_lookup}

-- A node that is a directory with the children.
abbrev pub HasChildren : FsNode → Map Bytes FsNode → Vfs → Type 0
HasChildren parent children s =
    (c : NodeCell) × (lookup parent.address s.cells ≡ some c)
    × (c.private_data ≡ ram_directory children)

pub ram_lookup_lem :
    (parent : FsNode) (children : Map Bytes FsNode) (name : Bytes) (s : Vfs)
    → HasChildren parent children s
    → ram_lookup parent name s ≡ (ok (lookup name children), s)
unfolding ram_lookup data_as get_cell ◌>>=◌
ram_lookup_lem parent children name s h = rw (h.1, h.2) refl

-- The children with one more.
set_children :
    (parent : FsNode) (c : NodeCell) (children : Map Bytes FsNode) (s : Vfs)
    → HasChildren parent children
        (set_cell parent.address (record c { private_data = ram_directory children }) s)
set_children parent c children s = (
  record c { private_data = ram_directory children },
  lookup-insert_self parent.address (record c { private_data = ram_directory children }) s.cells,
  refl,
)

add_child_lem :
    (parent node : FsNode) (children : Map Bytes FsNode) (name : Bytes) (s : Vfs)
    (h : HasChildren parent children s)
    → add_child parent name node s ≡ (
      ok tt,
      set_cell parent.address
          (record h.0 { private_data = ram_directory (insert name node children) })
          s,
    )
unfolding add_child data_as set_data get_cell ◌>>=◌
add_child_lem parent node children name s h = rw (h.1, h.2) (rw h.1 refl)

module _ (parent : FsNode) (children : Map Bytes FsNode) where
  -- The directory is at an address that is allocated.
  abbrev IsThere : Vfs → Type 0
  IsThere s = HasChildren parent children s × (parent.address < s.next_address)

  mounts_kept :
      (f : Vfs → Map ℕ VfsMount) → Keeps IsThere (modify λ s. record s { mount_table = f s })
  mounts_kept f = Keeps-modify _ λ s h. h

  next_node_id-kept : (m : VfsMount) → Keeps IsThere (next_node_id m)
  unfolding next_node_id
  next_node_id-kept m = search (keeps_rules, mounts_kept) depth 10

  next_node_id-IsThere : (m : VfsMount) → Triple IsThere Top (next_node_id m) (λ _. IsThere)
  next_node_id-IsThere m =
      Triple-weaken (next_node_id m) (λ s h. h) (λ s h. tt) (λ a s h. h) (next_node_id-kept m)

  new_node-IsThere :
      (id mount_id : ℕ)
      → Triple IsThere Top
          (new_node id mount_id file (ram_file []))
          (λ n s. HasChildren parent children s × (n.kind ≡ file))
  unfolding new_node
  new_node-IsThere id mount_id = record {
    at = λ s h. (
      (
        h.0.0,
        lookup-insert_ne parent.address s.next_address (fresh_cell (ram_file [])) s.cells
              (λ e. omega (arith, h.1, e))
            ∙ h.0.1,
        h.0.2,
      ),
      refl,
    );
  }

  -- A file that was created.
  abbrev IsCreated : Bytes → FsNode → Vfs → Type 0
  IsCreated name node s = HasChildren parent (insert name node children) s × (node.kind ≡ file)

  add_child-IsCreated :
      (name : Bytes) (node : FsNode)
      → Triple
          (λ s. HasChildren parent children s × (node.kind ≡ file))
          Top
          (add_child parent name node)
          (λ _. IsCreated name node)
  add_child-IsCreated name node = record {
    at = λ s h.
        subst (Holds Top (λ _. IsCreated name node))
          (sym (add_child_lem parent node children name s h.0))
          (set_children parent h.0.0 (insert name node children) s, h.1);
  }

  create_file-IsCreated :
      (m : VfsMount) (name : Bytes)
      → Triple IsThere Top (ram_create_file m parent name) (IsCreated name)
  unfolding ram_create_file
  create_file-IsCreated m name = Triple-bind _ _ (next_node_id-IsThere m) λ id.
      Triple-bind _ _ (new_node-IsThere id m.file_system.root.mount_id)
        λ node. Triple-bind _ _ (add_child-IsCreated name node) λ _. Triple-pure node λ s h. h

remove_file_lem :
    (parent node : FsNode) (children : Map Bytes FsNode) (name : Bytes) (s : Vfs)
    (h : HasChildren parent children s)
    → lookup name children ≡ some node
    → ram_remove_file parent name s ≡ (
      ok tt,
      set_cell parent.address
          (record h.0 { private_data = ram_directory (remove name children) })
          s,
    )
unfolding ram_remove_file data_as set_data get_cell ◌>>=◌
remove_file_lem parent node children name s h e = rw (h.1, h.2) (rw e (rw h.1 refl))

-- A file that `create_file` creates in a directory is a file, and a `lookup` of its name finds it; of
-- every other name `lookup` finds what it found. A `remove_file` of the name returns then, and of it
-- `lookup` finds nothing, and of every other name what it found.
pub ram_create_file-ram_lookup :
    (m : VfsMount) (parent node : FsNode) (children : Map Bytes FsNode) (name : Bytes) (s s2 : Vfs)
    → HasChildren parent children s
    → parent.address < s.next_address
    → ram_create_file m parent name s ≡ (ok node, s2)
    → (node.kind ≡ file)
      × (ram_lookup parent name s2 ≡ (ok (some node), s2))
      × ((other : Bytes)
          → other ≢ name
          → ram_lookup parent other s2 ≡ (ok (lookup other children), s2))
      × (s3 : Vfs) × (ram_remove_file parent name s2 ≡ (ok tt, s3))
      × (ram_lookup parent name s3 ≡ (ok none, s3))
      × ((other : Bytes)
          → other ≢ name
          → ram_lookup parent other s3 ≡ (ok (lookup other children), s3))
ram_create_file-ram_lookup m parent node children name s s2 h below e =
    let created : IsCreated parent children name node s2 =
      subst (Holds Top (IsCreated parent children name)) e
        ((create_file-IsCreated parent children m name).at s (h, below)) in
    let more = insert name node children in
    let here = lookup-insert_self name node children in
    let fewer = remove name more in
    let s3 =
      set_cell parent.address (record created.0.0 { private_data = ram_directory fewer }) s2 in
    let gone : HasChildren parent fewer s3 = set_children parent created.0.0 fewer s2 in
    (
      created.1,
      ram_lookup_lem parent more name s2 created.0 ∙ ap (λ (o : Option FsNode). (ok o, s2)) here,
      λ other ne.
          ram_lookup_lem parent more other s2 created.0
          ∙ ap (λ (o : Option FsNode). (ok o, s2)) (lookup-insert_ne other name node children ne),
      s3,
      remove_file_lem parent node more name s2 created.0 here,
      ram_lookup_lem parent fewer name s3 gone
          ∙ ap (λ (o : Option FsNode). (ok o, s3)) (lookup-remove_self name more),
      λ other ne.
          ram_lookup_lem parent fewer other s3 gone
          ∙ ap (λ (o : Option FsNode). (ok o, s3))
              (lookup-remove_ne other name more ne ∙ lookup-insert_ne other name node children ne),
    )
