-- ===== src/Fs/Drivers/Keeps.antt =====
-- The drivers keep what their few writes keep: a node's cell, the allocator, and the counter of a
-- mounted file system.
use riptide.Fs.State.Keeps.{Keeps-bind}
use riptide.Fs.Types.{word_max}
use riptide.Prelude.{
  ℕ, List, [], ◌∷◌, Bytes, Option, some, none, ◌≡◌, refl, leb, ◌+◌, ◌-◌, ◌==◌, Bool-cases, inl, inr,
}
use riptide.BTreeMap.{lookup, insert}
use riptide.BTreeMap.Keys.{nat_key, bytes_key}
use riptide.Fs.Types.{
  CharDevice, null_device, zero_device, DirectoryEntry, File, FileMode, FileSystemType, ram, dev,
  FsNode, FsNodeKind, IterationContext, MountFlags, NodeCell, PrivateData, VfsMount,
}
use riptide.Fs.State.{Vfs, Io, ◌>>=◌}
use riptide.Fs.State.Keeps.{Keeps, keeps_rules, Holds}
use riptide.Fs.Node.{
  new_node, set_cell, fresh_cell, with_links, set_link_count, get_cell, data_as, set_data,
  increment_link_count, decrement_link_count,
}
use riptide.Fs.Ram.{ram_mount}
use riptide.Fs.Dev.{dev_mount}
use riptide.Fs.Ram.{
  next_node_id, add_child, ram_read, ram_write, ram_create_file, ram_create_directory, ram_lookup,
  ram_read_directory,
}
use riptide.Fs.Dev.{
  device_read, device_write, dev_read, dev_write, dev_lookup, list_devices, dev_read_directory,
}
use riptide.Fs.Drivers.{
  by_type, lookup_node, file_system, mount_type, open_file, flush, read_file, write_file,
  create_file, make_directory, list_directory,
}

-- The writes of the drivers.
pub record KeepsWrites (P : Vfs → Type 0) : Type 0 where
  -- a new node
  pub node :
      (d : PrivateData) (s : Vfs)
      → P s
      → P (record (set_cell s.next_address (fresh_cell d) s) { next_address = s.next_address + 1 })
  -- the private data of a node
  pub contents :
      (a : ℕ) (c : NodeCell) (d : PrivateData) (s : Vfs)
      → lookup a s.cells ≡ some c
      → P s
      → P (set_cell a (record c { private_data = d }) s)
  pub node_id :
      (id n : ℕ) (m : VfsMount) (s : Vfs)
      → lookup id s.mount_table ≡ some m
      → P s
      → P (record s {
        mount_table =
            insert id
              (record m { file_system = record m.file_system { next_node_id = n } })
              s.mount_table;
      })

-- The writes of link counts, which the drivers leave alone.
pub record KeepsLinks (P : Vfs → Type 0) : Type 0 where
  pub links :
      (a : ℕ) (c : NodeCell) (count : ℕ) (s : Vfs)
      → lookup a s.cells ≡ some c
      → P s
      → P (set_cell a (with_links count c) s)

module _ {P : Vfs → Type 0} (k : KeepsLinks P) where
  pub Keeps-increment_link_count : (n : FsNode) → Keeps P (increment_link_count n)
  unfolding increment_link_count get_cell set_link_count ◌>>=◌
  Keeps-increment_link_count n = record { at = λ s h. go s (lookup n.address s.cells) refl h }
    where
      go :
          (s : Vfs) (o : Option NodeCell)
          → lookup n.address s.cells ≡ o
          → P s
          → Holds P (λ _. P) (increment_link_count n s)
      go s none e h = rw e tt
      go s (some c) e h = elim (Bool-cases (leb (c.metadata.link_count + 1) word_max)) [
        | inl t ↦ rw (e, t) (k.links n.address c (c.metadata.link_count + 1) s e h)
        | inr t ↦ rw (e, t) tt
      ]

  pub Keeps-decrement_link_count : (n : FsNode) → Keeps P (decrement_link_count n)
  unfolding decrement_link_count get_cell set_link_count ◌>>=◌
  Keeps-decrement_link_count n = record { at = λ s h. go s (lookup n.address s.cells) refl h }
    where
      go :
          (s : Vfs) (o : Option NodeCell)
          → lookup n.address s.cells ≡ o
          → P s
          → Holds P (λ _. P) (decrement_link_count n s)
      go s none e h = rw e tt
      go s (some c) e h = elim (Bool-cases (c.metadata.link_count == 0)) [
        | inl t ↦ rw (e, t) tt
        | inr t ↦ rw (e, t) (k.links n.address c (c.metadata.link_count - 1) s e h)
      ]

module _ {P : Vfs → Type 0} (w : KeepsWrites P) where
  Keeps-get_cell : (n : FsNode) → Keeps P (get_cell n)
  unfolding get_cell
  Keeps-get_cell n = search keeps_rules

  pub Keeps-new_node :
      (id mount_id : ℕ) (kind : FsNodeKind) (d : PrivateData)
      → Keeps P (new_node id mount_id kind d)
  unfolding new_node
  Keeps-new_node id mount_id kind d = record { at = λ s h. w.node d s h }

  Keeps-data_as :
      {T : Type 0} (cast : PrivateData → Option T) (n : FsNode) → Keeps P (data_as cast n)
  unfolding data_as
  Keeps-data_as cast n = search (keeps_rules, Keeps-get_cell)

  Keeps-set_data : (n : FsNode) (d : PrivateData) → Keeps P (set_data n d)
  unfolding set_data get_cell ◌>>=◌
  Keeps-set_data n d = record { at = λ s h. go s (lookup n.address s.cells) refl h }
    where
      go :
          (s : Vfs) (o : Option NodeCell)
          → lookup n.address s.cells ≡ o
          → P s
          → Holds P (λ _. P) (set_data n d s)
      go s none e h = rw e tt
      go s (some c) e h = rw e (w.contents n.address c d s e h)

  Keeps-next_node_id : (m : VfsMount) → Keeps P (next_node_id m)
  unfolding next_node_id ◌>>=◌
  Keeps-next_node_id mnt = record { at = λ s h. go s (lookup mnt.id s.mount_table) refl h }
    where
      go :
          (s : Vfs) (o : Option VfsMount)
          → lookup mnt.id s.mount_table ≡ o
          → P s
          → Holds P (λ _. P) (next_node_id mnt s)
      go s none e h = rw (e, next_node_id) tt
      go s (some m) e h = elim (Bool-cases (leb (m.file_system.next_node_id + 1) word_max)) [
        | inl t ↦
            rw (e, t, next_node_id) (w.node_id mnt.id (m.file_system.next_node_id + 1) m s e h)
        | inr t ↦ rw (e, t, next_node_id) tt
      ]

  ruleset write_rules = (
    keeps_rules, Keeps-get_cell, Keeps-new_node, Keeps-data_as, Keeps-set_data, Keeps-next_node_id,
  )

  Keeps-device_read : (d : CharDevice) (buffer : Bytes) → Keeps P (device_read d buffer)
  unfolding device_read
  Keeps-device_read null_device buffer = search keeps_rules
  Keeps-device_read zero_device buffer = search keeps_rules

  Keeps-device_write : (d : CharDevice) (buffer : Bytes) → Keeps P (device_write d buffer)
  unfolding device_write
  Keeps-device_write null_device buffer = search keeps_rules
  Keeps-device_write zero_device buffer = search keeps_rules

  Keeps-add_child : (p : FsNode) (name : Bytes) (n : FsNode) → Keeps P (add_child p name n)
  unfolding add_child
  Keeps-add_child p name n = search write_rules

  Keeps-list_devices :
      (m : VfsMount) (ds : List CharDevice) (ctx : IterationContext)
      → Keeps P (list_devices m ds ctx)
  unfolding list_devices
  Keeps-list_devices m [] ctx = search write_rules
  Keeps-list_devices m (d ∷ ds) ctx =
      Keeps-bind (next_node_id m) _ (Keeps-next_node_id m) (λ id. Keeps-list_devices m ds _)

  Keeps-by_type :
      {A : Type 0} (ty : FileSystemType) (m n : Io A)
      → Keeps P m
      → Keeps P n
      → Keeps P (by_type ty m n)
  Keeps-by_type ram m n km kn = km
  Keeps-by_type dev m n km kn = kn

  pub Keeps-file_system : (n : FsNode) → Keeps P (file_system n)
  unfolding file_system
  Keeps-file_system n = search keeps_rules

  pub Keeps-mount_type :
      (ty : FileSystemType) (id : ℕ) (source : Bytes) (flags : MountFlags)
      → Keeps P (mount_type ty id source flags)
  unfolding mount_type ram_mount dev_mount
  Keeps-mount_type ty id source flags = search (write_rules, Keeps-by_type)

  pub Keeps-open_file : (m : VfsMount) (n : FsNode) (mode : FileMode) → Keeps P (open_file m n mode)
  unfolding open_file
  Keeps-open_file m n mode = search keeps_rules

  pub Keeps-flush : (m : VfsMount) (f : File) → Keeps P (flush m f)
  unfolding flush
  Keeps-flush m f = search keeps_rules

  pub Keeps-read_file :
      (m : VfsMount) (f : File) (offset : ℕ) (buffer : Bytes)
      → Keeps P (read_file m f offset buffer)
  unfolding read_file ram_read dev_read
  Keeps-read_file m f offset buffer =
      search (write_rules, Keeps-by_type, Keeps-device_read) depth 10

  pub Keeps-write_file :
      (m : VfsMount) (f : File) (offset : ℕ) (buffer : Bytes)
      → Keeps P (write_file m f offset buffer)
  unfolding write_file ram_write dev_write
  Keeps-write_file m f offset buffer =
      search (write_rules, Keeps-by_type, Keeps-device_write) depth 10

  pub Keeps-create_file :
      (m : VfsMount) (d : DirectoryEntry) (name : Bytes) → Keeps P (create_file m d name)
  unfolding create_file ram_create_file
  Keeps-create_file m d name = search (write_rules, Keeps-by_type, Keeps-add_child) depth 10

  pub Keeps-make_directory :
      (m : VfsMount) (d : DirectoryEntry) (name : Bytes) → Keeps P (make_directory m d name)
  unfolding make_directory ram_create_directory
  Keeps-make_directory m d name = search (write_rules, Keeps-by_type, Keeps-add_child) depth 10

  pub Keeps-lookup_node :
      (m : VfsMount) (d : DirectoryEntry) (name : Bytes) → Keeps P (lookup_node m d name)
  unfolding lookup_node ram_lookup dev_lookup
  Keeps-lookup_node m d name = search (write_rules, Keeps-by_type) depth 10

  pub Keeps-list_directory :
      (m : VfsMount) (d : DirectoryEntry) (ctx : IterationContext)
      → Keeps P (list_directory m d ctx)
  unfolding list_directory ram_read_directory dev_read_directory
  Keeps-list_directory m d ctx = search (write_rules, Keeps-by_type, Keeps-list_devices) depth 10
