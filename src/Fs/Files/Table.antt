-- ===== src/Fs/Files/Table.antt =====
-- The table of files and the counter of descriptors (`files` and `FileDescriptor::new` of
-- kernel/src/fs/vfs.rs): what `open` does to them.
use riptide.Prelude.{ℕ, ◌≡◌, refl, ap, ◌∙◌, some, Bytes}
use riptide.BTreeMap.{Map, insert}
use riptide.BTreeMap.Keys.{nat_key, pair_key}
use riptide.Fs.Types.{DirectoryEntry, orphan, child, fields, File, FileMode, new_file, is_mutating}
use riptide.Fs.State.{Vfs, Io, Outcome, ok, err, panic, raise, bump}
use riptide.Fs.State.Keeps.{
  Keeps, Holds, Triple, Triple-bind, Triple-modify, Triple-pure, Triple-raise, Triple-weaken,
  Keeps-if, keeps_rules,
}
use riptide.Fs.Cache.{link_child, set_table}
use riptide.Fs.Cache.Insert.{Holds-cache_insert, inserted, after_insert}
use riptide.Fs.Drivers.{open_file}
use riptide.Fs.Drivers.Keeps.{
  KeepsWrites, KeepsLinks, Keeps-file_system, Keeps-create_file, Keeps-increment_link_count,
  Keeps-decrement_link_count,
}
use riptide.Fs.Resolve.Keeps.{KeepsCached, Keeps-resolve_path, Keeps-resolve_path_parent_directory}
use riptide.Fs.Files.{
  create_entry, open_mutating, open_existing, with_cleanup, cleaned, open_path, new_fd,
}

-- The table of files and the next descriptor.
abbrev pub HasTable : Map ℕ File → ℕ → Vfs → Type 0
HasTable files n s = (s.files ≡ files) × (s.next_fd ≡ n)

files-link_child : (e : DirectoryEntry) (s : Vfs) → (link_child e s).files ≡ s.files
unfolding link_child
files-link_child (orphan f) s = refl
files-link_child (child f p) s = refl

next_fd-link_child : (e : DirectoryEntry) (s : Vfs) → (link_child e s).next_fd ≡ s.next_fd
unfolding link_child
next_fd-link_child (orphan f) s = refl
next_fd-link_child (child f p) s = refl

module _ {files : Map ℕ File} {n : ℕ} where
  pub table-KeepsWrites : KeepsWrites (HasTable files n)
  table-KeepsWrites = record {
    contents = λ a c d s e h. h;
    node = λ d s h. h;
    node_id = λ id n m s e h. h;
  }

  table-KeepsLinks : KeepsLinks (HasTable files n)
  table-KeepsLinks = record { links = λ a c count s e h. h }

  pub after_insert-HasTable :
      (e : DirectoryEntry) (s : Vfs) → HasTable files n s → HasTable files n (after_insert e s)
  unfolding set_table
  after_insert-HasTable e s h = (files-link_child e _ ∙ h.0, next_fd-link_child e _ ∙ h.1)

  pub table-KeepsCached : KeepsCached (HasTable files n)
  table-KeepsCached = record {
    writes = table-KeepsWrites;
    entry = λ locals p node name. record {
      at = λ s h.
          Holds-cache_insert _ _ locals (some p) node name s
            λ fits. after_insert-HasTable (inserted (some p) node name s) s h;
    };
  }

module _ {A : Type 0} {R P : Vfs → Type 0} {Q : A → Vfs → Type 0} where
  -- The cleanup may run in any state that a failure may leave.
  Triple-with_cleanup :
      (c : Io (Unit {0})) (m : Io A) → Keeps P c → Triple R P m Q → Triple R P (with_cleanup c m) Q
  unfolding with_cleanup
  Triple-with_cleanup c m kc t = record { at = λ s h. go (m s) (t.at s h) }
    where
      go : (r : Outcome A × Vfs) → Holds P Q r → Holds P Q (cleaned c r)
      go (ok a, s) h = h
      go (err e, s) h =
          (Triple-bind {Q = λ _. P} c (λ _. raise {A = A} e) kc (λ _. Triple-raise e λ t x. x)).at s
            h
      go (panic, s) h = tt

module _ (files : Map ℕ File) (n : ℕ) where
  abbrev table_kept : KeepsWrites (HasTable files n)
  table_kept = table-KeepsWrites

  Keeps-create_entry : (path : Bytes) → Keeps (HasTable files n) (create_entry path)
  unfolding create_entry
  Keeps-create_entry path =
      search
        (
          keeps_rules,
          (table-KeepsCached {files = files} {n = n}).entry,
          Keeps-file_system table_kept,
          Keeps-create_file table_kept,
          Keeps-resolve_path_parent_directory (table-KeepsCached {files = files} {n = n}),
        )
        depth 12

  Keeps-open_mutating : (path : Bytes) → Keeps (HasTable files n) (open_mutating path)
  unfolding open_mutating
  Keeps-open_mutating path =
      search
        (
          keeps_rules,
          Keeps-resolve_path (table-KeepsCached {files = files} {n = n}),
          Keeps-create_entry,
        )
        depth 12

  Keeps-open_existing : (path : Bytes) → Keeps (HasTable files n) (open_existing path)
  unfolding open_existing
  Keeps-open_existing path =
      search (keeps_rules, Keeps-resolve_path (table-KeepsCached {files = files} {n = n})) depth 12

  -- The table with one more file, at the descriptor that was next.
  abbrev pub IsAdded : ℕ → Vfs → Type 0
  IsAdded fd s = (fd ≡ n) × ((f : File) × HasTable (insert n f files) (bump n) s)

  Triple-new_fd :
      Triple
        (HasTable files n)
        (HasTable files n)
        new_fd
        (λ fd s. (fd ≡ n) × HasTable files (bump n) s)
  unfolding new_fd
  Triple-new_fd = record { at = λ s h. (h.1, (h.0, ap bump h.1)) }

  pub open_path-Triple :
      (path : Bytes) (mode : FileMode)
      → Triple (HasTable files n) (HasTable files n) (open_path path mode) IsAdded
  unfolding open_path open_file
  open_path-Triple path mode =
      Triple-bind _ _
        (Keeps-if (is_mutating mode) _ _ (Keeps-open_mutating path) (Keeps-open_existing path))
        λ e. Triple-bind _ _ (Keeps-increment_link_count table-KeepsLinks (fields e).node) λ _.
          Triple-with_cleanup _ _ (Keeps-decrement_link_count table-KeepsLinks (fields e).node) (
            Triple-bind _ _ (Keeps-file_system table_kept (fields e).node) λ m.
              let f = new_file (fields e).node mode in
              Triple-bind {Q = λ g s. (g ≡ f) × HasTable files n s} _ _
                (Triple-pure f λ s h. (refl, h))
                λ g.
                  Triple-bind _ _
                    (Triple-weaken _ (λ s h. h.1) (λ s h. h) (λ a s h. h) Triple-new_fd)
                    λ fd.
                      Triple-bind _ _
                        (Triple-modify {Q = IsAdded fd} _ λ s h. (
                          h.0,
                          (g, (ap (insert fd g) h.1.0 ∙ ap (λ k. insert k g files) h.0, h.1.1)),
                        ))
                        λ _. Triple-pure fd λ s h. h)
