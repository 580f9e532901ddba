-- ===== src/Fs/Links/Writes.antt =====
-- The writes that leave the link counts and the open files alone.
use riptide.Prelude.{
  ℕ, ◌+◌, ◌≤◌, ◌≡◌, Bool, true, false, some, List, [], ◌∷◌, ◌==◌, arith, if◌then◌else◌,
}
use riptide.BTreeMap.{lookup, lookup-insert, values}
use riptide.BTreeMap.Keys.{nat_key, pair_key}
use riptide.Fs.Types.{DirectoryEntry, orphan, child, NodeCell, PrivateData}
use riptide.Fs.State.{Vfs}
use riptide.Fs.Node.{set_cell, fresh_cell}
use riptide.Fs.Cache.{link_child, set_table, is_live, prune_children, prune_entries, drop_dead}
use riptide.Fs.Cache
use riptide.Fs.Cache.Insert.{Holds-cache_insert, after_insert}
use riptide.Fs.Drivers.Keeps.{KeepsWrites}
use riptide.Fs.Resolve.Keeps.{KeepsCached}
use riptide.Fs.Calls.Writes.{KeepsDirectories}
use riptide.Fs.Calls.MountKeeps.{KeepsMounts}
use riptide.Fs.Links.{Covered, links}

module _ {more : ℕ → ℕ} where
  -- A cell at an address that is allocated, whose link count is no lower.
  pub set_cell-Covered :
      (a : ℕ) (c : NodeCell) (s : Vfs)
      → ((b : ℕ) → s.next_address ≤ b → (b == a) ≡ false)
      → links a s ≤ c.metadata.link_count
      → Covered more s
      → Covered more (set_cell a c s)
  set_cell-Covered a c s allocated no_lower h = record {
    covered = λ b. ground (arith, lookup-insert b a c s.cells, h.covered b, no_lower);
    fresh = λ b q. ground (arith, lookup-insert b a c s.cells, h.fresh b q, allocated b q);
    ascending = h.ascending;
  }

  node-Covered :
      (d : PrivateData) (s : Vfs)
      → Covered more s
      → Covered more
          (record (set_cell s.next_address (fresh_cell d) s) { next_address = s.next_address + 1 })
  node-Covered d s h = record {
    covered = λ b.
        ground
          (arith, lookup-insert b s.next_address (fresh_cell d) s.cells, h.covered b, h.fresh b);
    fresh = λ b q. ground (
      arith,
      lookup-insert b s.next_address (fresh_cell d) s.cells,
      h.fresh b (ground (arith, q)),
      q,
    );
    ascending = h.ascending;
  }

  contents-Covered :
      (a : ℕ) (c : NodeCell) (d : PrivateData) (s : Vfs)
      → lookup a s.cells ≡ some c
      → Covered more s
      → Covered more (set_cell a (record c { private_data = d }) s)
  contents-Covered a c d s e h =
      set_cell-Covered a (record c { private_data = d }) s (λ b q. ground (arith, h.fresh b q, e))
        (ground (arith, e)) h

  after_insert-Covered :
      (e : DirectoryEntry) (s : Vfs) → Covered more s → Covered more (after_insert e s)
  unfolding link_child set_table
  after_insert-Covered (orphan f) s h = record {
    covered = h.covered;
    fresh = λ a q. h.fresh a (omega (arith, q));
    ascending = h.ascending;
  }
  after_insert-Covered (child f p) s h = record {
    covered = h.covered;
    fresh = λ a q. h.fresh a (omega (arith, q));
    ascending = h.ascending;
  }

  prune_entries-Covered :
      (es : List DirectoryEntry) (s : Vfs) → Covered more s → Covered more (prune_entries [] es s)
  unfolding prune_entries
  prune_entries-Covered [] s h = h
  prune_entries-Covered (e ∷ es) s h = prune_entries-Covered es _ (one (is_live [] s e))
    where
      one : (b : Bool) → Covered more (if b then prune_children [] e s else s)
      one true = record { covered = h.covered; fresh = h.fresh; ascending = h.ascending }
      one false = h

  pub writes-Covered : KeepsWrites (Covered more)
  writes-Covered = record {
    node = node-Covered;
    contents = contents-Covered;
    node_id =
        λ id n m s e h. record { covered = h.covered; fresh = h.fresh; ascending = h.ascending };
  }

  pub cached-Covered : KeepsCached (Covered more)
  cached-Covered = record {
    writes = writes-Covered;
    entry = λ locals p node name. record {
      at = λ s h.
          Holds-cache_insert (Covered more) _ locals (some p) node name s
            λ _. after_insert-Covered _ s h;
    };
  }

  pub directories-Covered : KeepsDirectories (Covered more)
  unfolding Cache.prune
  directories-Covered = record {
    entries = cached-Covered;
    callers = λ es s h. record { covered = h.covered; fresh = h.fresh; ascending = h.ascending };
    pruned = λ s h.
        prune_entries-Covered (values (drop_dead [] s).table) (drop_dead [] s)
          (record { covered = h.covered; fresh = h.fresh; ascending = h.ascending });
  }

  pub mounts-Covered : KeepsMounts (Covered more)
  mounts-Covered = record {
    entries = cached-Covered;
    mount_counter =
        λ n s h. record { covered = h.covered; fresh = h.fresh; ascending = h.ascending };
    mount_in = λ m s h e. record { covered = h.covered; fresh = h.fresh; ascending = h.ascending };
    root_entry = λ node s h e. after_insert-Covered _ s h;
  }
