-- ===== src/Fs/Tests/Children.antt =====
-- The theorems on the children of a RAM directory, on a small one.
use riptide.Prelude.{◌≡◌, ◌≢◌, refl, true, some, none, Option, [], ◌∷◌, Bytes, codes, arith}
use mathlib.Core.Option
use riptide.BTreeMap.{Map, lookup, insert}
use riptide.BTreeMap.Keys.{nat_key, bytes_key}
use riptide.Fs.Types.{FsNode, FsNodeKind, IterationContext, file, ram_directory, ram_file}
use riptide.Fs.State.{Vfs, Outcome, ok, boot, ◌>>=◌}
use riptide.Fs.Node.{fresh_cell, new_node, data_as, set_data, get_cell}
use riptide.Fs.Ram.{
  next_node_id, add_child, ram_create_file, ram_remove_file, ram_lookup, ram_read_directory,
}
use riptide.Fs.Ram.Children.{HasChildren, ram_create_file-ram_lookup}
use riptide.Fs.Ram.Listing.{listed, ram_read_directory-ram_lookup}
use riptide.Fs.Tests.{blank_mount, blank_node, value, is_ok, returned}

abbrev top : FsNode
top = record { address = 0; id = 0; mount_id = 0; kind = FsNodeKind.directory }

abbrev old : FsNode
old = record { address = 1; id = 1; mount_id = 0; kind = file }

abbrev children : Map Bytes FsNode
children = (codes "a", old) ∷ []

-- The directory, with one file in it.
abbrev small : Vfs
small = record boot {
  mount_table = (0, blank_mount) ∷ [];
  cells = (0, fresh_cell (ram_directory children)) ∷ (1, fresh_cell (ram_file [])) ∷ [];
  next_address = 2;
}

small-HasChildren : HasChildren top children small
unfolding lookup
small-HasChildren = (fresh_cell (ram_directory children), refl, refl)

abbrev creating : Outcome FsNode × Vfs
creating = ram_create_file blank_mount top (codes "b") small

created : is_ok creating.0 ≡ true
unfolding ram_create_file next_node_id new_node add_child data_as set_data get_cell lookup insert
    ◌>>=◌
created = refl

ram_create_file-ram_lookup_example :
    ((value blank_node creating.0).kind ≡ file)
    × (ram_lookup top (codes "b") creating.1
        ≡ (ok (some (value blank_node creating.0)), creating.1))
    × ((other : Bytes)
        → other ≢ codes "b"
        → ram_lookup top other creating.1 ≡ (ok (lookup other children), creating.1))
    × (s3 : Vfs) × (ram_remove_file top (codes "b") creating.1 ≡ (ok tt, s3))
    × (ram_lookup top (codes "b") s3 ≡ (ok none, s3))
    × ((other : Bytes)
        → other ≢ codes "b"
        → ram_lookup top other s3 ≡ (ok (lookup other children), s3))
ram_create_file-ram_lookup_example =
    ram_create_file-ram_lookup blank_mount top (value blank_node creating.0) children (codes "b")
      small creating.1 small-HasChildren (omega arith) (returned blank_node creating created)

ram_read_directory-ram_lookup_example :
    (ctx : IterationContext) × (ram_read_directory top [] small ≡ (ok ctx, small))
    × ((name : Bytes)
        → (o : Option FsNode) × (ram_lookup top name small ≡ (ok o, small))
          × (lookup name ctx ≡ Option.map (listed name) o))
ram_read_directory-ram_lookup_example =
    ram_read_directory-ram_lookup top children small small-HasChildren (tt, tt)
