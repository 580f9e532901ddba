-- ===== src/Fs/Node.antt =====
-- Shared `FsNode` objects (kernel/src/fs/mod.rs): their allocation, their private data and their
-- link counts.
use riptide.Fs.State.{ok}
use riptide.BTreeMap.Keys.{nat_key}
use riptide.Prelude.{ℕ, ◌+◌, ◌-◌, false, Option, none, some, Bytes, ◌==◌, if◌then◌else◌}
use riptide.BTreeMap.{Map, lookup, insert}
use riptide.Fs.Types.{
  FsNode, FsNodeKind, FsNodeMetadata, NodeCell, PrivateData, ram_directory, ram_file, CharDevice,
  device,
}
use riptide.Fs.State.{Vfs, Io, panics, gets, modify, ◌>>=◌, expect, add_usize}

-- The metadata of every new node.
abbrev pub fresh_metadata : FsNodeMetadata
fresh_metadata = record {
  dirty = false;
  link_count = 1;
  size = 0;
  accessed_at = 0;
  created_at = 0;
  modified_at = 0;
}

abbrev pub set_cell : ℕ → NodeCell → Vfs → Vfs
set_cell a c s = record s { cells = insert a c s.cells }

abbrev pub fresh_cell : PrivateData → NodeCell
fresh_cell private_data = record { metadata = fresh_metadata; private_data = private_data }

-- `Arc::new(FsNode { id, mount_id, kind, ... })`
unfoldable pub new_node : ℕ → ℕ → FsNodeKind → PrivateData → Io FsNode
new_node id mount_id kind private_data s =
    let node : FsNode = record {
      address = s.next_address;
      id = id;
      mount_id = mount_id;
      kind = kind;
    } in
    (
      ok node,
      record (set_cell s.next_address (fresh_cell private_data) s) {
        next_address = s.next_address + 1;
      },
    )

-- The object behind a reference. An `Arc` never dangles, so that the panic is not reached.
unfoldable pub get_cell : FsNode → Io NodeCell
get_cell n = gets (λ s. lookup n.address s.cells) >>= expect

abbrev pub as_ram_directory : PrivateData → Option (Map Bytes FsNode)
as_ram_directory (ram_directory m) = some m
as_ram_directory _ = none

abbrev pub as_ram_file : PrivateData → Option Bytes
as_ram_file (ram_file b) = some b
as_ram_file _ = none

abbrev pub as_device : PrivateData → Option CharDevice
as_device (device d) = some d
as_device _ = none

-- `FsNode::data_as`, which panics on data of another type and on a node without data
unfoldable pub data_as : {T : Type 0} → (PrivateData → Option T) → FsNode → Io T
unfolding get_cell
data_as cast n = do c ← get_cell n; expect (cast c.private_data)

-- A write through the lock inside the private data.
unfoldable pub set_data : FsNode → PrivateData → Io (Unit {0})
unfolding get_cell
set_data n d = do c ← get_cell n; modify (set_cell n.address (record c { private_data = d }))

abbrev pub with_links : ℕ → NodeCell → NodeCell
with_links count c = record c { metadata = record c.metadata { link_count = count } }

unfoldable pub set_link_count : FsNode → NodeCell → ℕ → Io (Unit {0})
set_link_count n c count = modify (set_cell n.address (with_links count c))

-- `FsNode::increment_link_count`
unfoldable pub increment_link_count : FsNode → Io (Unit {0})
unfolding get_cell set_link_count
increment_link_count n = do
  c ← get_cell n
  count ← add_usize c.metadata.link_count 1
  set_link_count n c count

-- `FsNode::decrement_link_count`; 0 - 1 is a panic
unfoldable pub decrement_link_count : FsNode → Io (Unit {0})
unfolding get_cell set_link_count
decrement_link_count n = do
  c ← get_cell n
  if c.metadata.link_count == 0 then panics else set_link_count n c (c.metadata.link_count - 1)
