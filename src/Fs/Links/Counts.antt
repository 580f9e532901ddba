-- ===== src/Fs/Links/Counts.antt =====
-- `increment_link_count` and `decrement_link_count` (kernel/src/fs/mod.rs): a link more, and a link less.
use riptide.Prelude.{
  ◌+◌, ◌-◌, ◌≡◌, refl, Option, some, none, ◌==◌, leb, arith, Bool-cases, inl, inr,
}
use riptide.BTreeMap.{lookup, lookup-insert}
use riptide.BTreeMap.Keys.{nat_key}
use riptide.Fs.Types.{FsNode, NodeCell, word_max}
use riptide.Fs.State.{Vfs, ◌>>=◌}
use riptide.Fs.State.Keeps.{Holds, Triple}
use riptide.Fs.Node.{
  set_cell, with_links, get_cell, set_link_count, increment_link_count, decrement_link_count,
}
use riptide.Fs.Links.{Covered, link_at, no_more}

-- A link more, and a link less.
pub increment-Covered :
    (n : FsNode)
    → Triple (Covered no_more) (Covered no_more) (increment_link_count n) (λ _. Covered (link_at n))
unfolding increment_link_count get_cell set_link_count ◌>>=◌
increment-Covered n = record { at = λ s h. go s (lookup n.address s.cells) refl h }
  where
    up :
        (s : Vfs) (c : NodeCell)
        → lookup n.address s.cells ≡ some c
        → Covered no_more s
        → Covered (link_at n) (set_cell n.address (with_links (c.metadata.link_count + 1) c) s)
    up s c e h = record {
      covered = λ b. ground (
        arith,
        lookup-insert b n.address (with_links (c.metadata.link_count + 1) c) s.cells,
        h.covered b,
        e,
      );
      fresh = λ b q. ground (
        arith,
        lookup-insert b n.address (with_links (c.metadata.link_count + 1) c) s.cells,
        h.fresh b q,
        e,
      );
      ascending = h.ascending;
    }

    go :
        (s : Vfs) (o : Option NodeCell)
        → lookup n.address s.cells ≡ o
        → Covered no_more s
        → Holds (Covered no_more) (λ _. Covered (link_at n)) (increment_link_count n s)
    go s none e h = rw e tt
    go s (some c) e h = elim (Bool-cases (leb (c.metadata.link_count + 1) word_max)) [
      | inl t ↦ rw (e, t) (up s c e h)
      | inr t ↦ rw (e, t) tt
    ]

pub down-Covered :
    (n : FsNode) (s : Vfs) (c : NodeCell)
    → lookup n.address s.cells ≡ some c
    → Covered (link_at n) s
    → Covered no_more (set_cell n.address (with_links (c.metadata.link_count - 1) c) s)
down-Covered n s c e h = record {
  covered = λ b. ground (
    arith,
    lookup-insert b n.address (with_links (c.metadata.link_count - 1) c) s.cells,
    h.covered b,
    e,
  );
  fresh = λ b q. ground (
    arith,
    lookup-insert b n.address (with_links (c.metadata.link_count - 1) c) s.cells,
    h.fresh b q,
    e,
  );
  ascending = h.ascending;
}

pub decrement-Covered :
    (n : FsNode)
    → Triple (Covered (link_at n)) (Covered no_more) (decrement_link_count n) (λ _. Covered no_more)
unfolding decrement_link_count get_cell set_link_count ◌>>=◌
decrement-Covered n = record { at = λ s h. go s (lookup n.address s.cells) refl h }
  where
    go :
        (s : Vfs) (o : Option NodeCell)
        → lookup n.address s.cells ≡ o
        → Covered (link_at n) s
        → Holds (Covered no_more) (λ _. Covered no_more) (decrement_link_count n s)
    go s none e h = rw e tt
    go s (some c) e h = elim (Bool-cases (c.metadata.link_count == 0)) [
      | inl t ↦ rw (e, t) tt
      | inr t ↦ rw (e, t) (down-Covered n s c e h)
    ]
