-- ===== src/Fs/Links.antt =====
-- Link counts and open files (kernel/src/fs/mod.rs, kernel/src/fs/vfs.rs): each open file holds a link
-- of its node.
pub mod Writes
pub mod Counts
pub mod Files
use riptide.Prelude.{
  ℕ, ◌+◌, ◌≤◌, ◌≡◌, refl, Bool, true, false, Option, none, some, List, [], ◌∷◌, ◌==◌, arith,
  if◌then◌else◌,
}
use riptide.BTreeMap.{Map, lookup, insert, remove}
use riptide.BTreeMap.Keys.{nat_key}
use riptide.BTreeMap.Order.{IsAbove, IsAscending}
use riptide.Fs.Types.{File, FsNode, NodeCell}
use riptide.Fs.State.{Vfs}

-- 1 at a node's address.
abbrev pub link_at : FsNode → ℕ → ℕ
link_at n a = if n.address == a then 1 else 0

-- The open files of the node at an address.
unfoldable pub opens : ℕ → Map ℕ File → ℕ
opens a [] = 0
opens a ((fd, f) ∷ m) = link_at f.node a + opens a m

abbrev pub count_of : Option NodeCell → ℕ
count_of none = 0
count_of (some c) = c.metadata.link_count

-- The link count of the node at an address.
abbrev pub links : ℕ → Vfs → ℕ
links a s = count_of (lookup a s.cells)

-- Each node has a link for each open file, and `more` besides; no node is at an address that is not
-- allocated.
pub record Covered (more : ℕ → ℕ) (s : Vfs) : Type 0 where
  pub covered : (a : ℕ) → opens a s.files + more a ≤ links a s
  pub fresh : (a : ℕ) → s.next_address ≤ a → lookup a s.cells ≡ none
  pub ascending : IsAscending s.files

abbrev pub no_more : ℕ → ℕ
no_more a = 0

pub opens-insert :
    (a fd : ℕ) (f : File) (m : Map ℕ File) → opens a (insert fd f m) ≤ opens a m + link_at f.node a
unfolding opens insert
opens-insert a fd f [] = omega arith
opens-insert a fd f ((j, g) ∷ m) = ground (arith, opens-insert a fd f m)

absent_above : (fd j : ℕ) (m : Map ℕ File) → IsAbove j m → fd ≤ j → lookup fd m ≡ none
unfolding lookup
absent_above fd j [] h e = refl
absent_above fd j ((i, g) ∷ m) h e = ground (arith, h.0, absent_above fd j m h.1 e)

pub opens-insert_same :
    (a fd : ℕ) (f g : File) (m : Map ℕ File)
    → IsAscending m
    → lookup fd m ≡ some f
    → g.node ≡ f.node
    → opens a (insert fd g m) ≡ opens a m
unfolding opens insert lookup
opens-insert_same a fd f g [] h e same = absurd (ground (arith, e))
opens-insert_same a fd f g ((j, x) ∷ m) h e same =
    ground (arith, opens-insert_same a fd f g m h.1, absent_above fd j m h.0, e, same)

opens-remove_le : (a fd : ℕ) (m : Map ℕ File) → opens a (remove fd m) ≤ opens a m
unfolding opens remove
opens-remove_le a fd [] = omega arith
opens-remove_le a fd ((j, x) ∷ m) = ground (arith, opens-remove_le a fd m)

pub opens-remove :
    (a fd : ℕ) (f : File) (m : Map ℕ File)
    → lookup fd m ≡ some f
    → opens a (remove fd m) + link_at f.node a ≤ opens a m
unfolding opens remove lookup
opens-remove a fd f [] e = absurd (ground (arith, e))
opens-remove a fd f ((j, x) ∷ m) e =
    ground (arith, opens-remove_le a fd m, opens-remove a fd f m, e)
