-- ===== src/Fs/Reachable/Closing.antt =====
-- `close` (kernel/src/fs/vfs.rs) in the states that the kernel reaches.
use riptide.Prelude.{ℕ, ◌-◌, ◌≡◌, ◌≢◌, refl, none, some, false, List, ◌==◌, arith, Option}
use riptide.BTreeMap.{lookup, remove, lookup-insert_self, lookup-remove_self, lookup-remove_ne}
use riptide.BTreeMap.Keys.{nat_key}
use riptide.Fs.Types.{File, NodeCell}
use riptide.Fs.State.{Vfs, ok, boot, ◌>>=◌}
use riptide.Fs.Node.{set_cell, with_links, decrement_link_count, get_cell, set_link_count}
use riptide.Fs.Drivers.{flush}
use riptide.Fs.Files.{close, get_file}
use riptide.Fs.Calls.{Call}
use riptide.Fs.Calls.Keeps.{CallsKept}
use riptide.Fs.Links.{Covered, opens, no_more, opens-remove}
use riptide.Fs.Links.Writes.{directories-Covered, mounts-Covered}
use riptide.Fs.Links.Files.{open_path-Covered, close-Covered, read_fd-Covered, write_fd-Covered}
use riptide.Fs.Reachable.{serve_from_boot, serve_from_boot-keeps, file_system-of_open_file}

calls-Covered : CallsKept (Covered no_more)
calls-Covered = record {
  opening = open_path-Covered;
  closing = close-Covered;
  reading = read_fd-Covered;
  writing = write_fd-Covered;
  directories = directories-Covered;
  mounts = mounts-Covered;
  registries = λ r t s h. record { covered = h.covered; fresh = h.fresh; ascending = h.ascending };
}

boot-Covered : Covered no_more boot
unfolding lookup opens
boot-Covered = record { covered = λ a. omega arith; fresh = λ a q. refl; ascending = tt }

-- In every state that the kernel reaches, the node of an open file has as many links as it has open
-- files, at least.
pub serve_from_boot-Covered :
    (cs : List Call) (s : Vfs) → serve_from_boot cs boot ≡ (ok tt, s) → Covered no_more s
serve_from_boot-Covered cs s e = serve_from_boot-keeps calls-Covered cs s boot-Covered e

-- The cell of an open file's node, with a link in it.
linked :
    (fd : ℕ) (f : File) (s : Vfs)
    → Covered no_more s
    → lookup fd s.files ≡ some f
    → (c : NodeCell) × (lookup f.node.address s.cells ≡ some c)
      × ((c.metadata.link_count == 0) ≡ false)
linked fd f s h e = go (lookup f.node.address s.cells) refl
  where
    go :
        (o : Option NodeCell)
        → lookup f.node.address s.cells ≡ o
        → (c : NodeCell) × (lookup f.node.address s.cells ≡ some c)
          × ((c.metadata.link_count == 0) ≡ false)
    go none q =
        absurd
          (ground (arith, opens-remove f.node.address fd f s.files e, h.covered f.node.address, q))
    go (some c) q = (
      c,
      q,
      ground (arith, opens-remove f.node.address fd f s.files e, h.covered f.node.address, q),
    )

-- In every state that the kernel reaches, a `close` of an open descriptor returns: no assumption about
-- its mount or its link count fails. Then the descriptor is closed, every other one stands for what it
-- stood for, and the node has one link less.
pub close-returns :
    (cs : List Call) (s : Vfs) (fd : ℕ) (f : File)
    → serve_from_boot cs boot ≡ (ok tt, s)
    → lookup fd s.files ≡ some f
    → (s2 : Vfs) × (c : NodeCell) × (close fd s ≡ (ok tt, s2))
      × (lookup fd s2.files ≡ none)
      × ((other : ℕ) → other ≢ fd → lookup other s2.files ≡ lookup other s.files)
      × (lookup f.node.address s.cells ≡ some c)
      × (lookup f.node.address s2.cells ≡ some (with_links (c.metadata.link_count - 1) c))
unfolding close get_file flush decrement_link_count get_cell set_link_count ◌>>=◌
close-returns cs s fd f reached e =
    let m = file_system-of_open_file cs s fd f reached e in
    let c = linked fd f s (serve_from_boot-Covered cs s reached) e in
    let lower = with_links (c.0.metadata.link_count - 1) c.0 in
    (
      set_cell f.node.address lower (record s { files = remove fd s.files }),
      c.0,
      rw e (rw m.2 (rw c.1 (rw c.2 refl))),
      lookup-remove_self fd s.files,
      λ other ne. lookup-remove_ne other fd s.files ne,
      c.1,
      lookup-insert_self f.node.address lower s.cells,
    )
