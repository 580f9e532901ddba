-- ===== src/Fs/Calls/FileKeeps.antt =====
-- The calls on files and directories keep what their writes keep.
use riptide.Prelude.{ℕ, ◌≡◌, refl, Option, some, none, List, Bytes, arith}
use riptide.BTreeMap.{lookup, insert, remove}
use riptide.BTreeMap.Keys.{nat_key, pair_key}
use riptide.Fs.Types.{
  DirectoryEntry, File, new_file, FileMode, FsNode, VfsMount, fields, is_mutating,
}
use riptide.Fs.State.{raise, Vfs, Io, Outcome, ok, err, panic, ◌>>=◌, pure, modify}
use riptide.Fs.State.Keeps.{
  Keeps, Triple, Holds, keeps_rules, Keeps-modify, Keeps-bind, Triple-bind, Keeps-if, Keeps-assert,
  Keeps-raise, Keeps-pure, Keeps-add_usize,
}
use riptide.Fs.Drivers.{file_system, open_file}
use riptide.Fs.Drivers.Keeps.{
  KeepsWrites, Keeps-file_system, Keeps-flush, Keeps-read_file, Keeps-write_file, Keeps-create_file,
  Keeps-increment_link_count, Keeps-decrement_link_count,
}
use riptide.Fs.Cache.{cache_insert}
use riptide.Fs.Resolve.Keeps.{Keeps-resolve_path, Keeps-resolve_path_parent_directory}
use riptide.Fs.Files.{
  get_file, create_entry, open_mutating, open_existing, with_cleanup, cleaned, open_path, close,
  read_fd, write_fd, advance, new_fd,
}
use riptide.Fs.Calls.Writes.{KeepsFiles, IsMounted, AndMounted, mounted-KeepsWrites}

module _ {A : Type 0} {S P : Vfs → Type 0} where
  -- A weaker invariant at the end.
  relax : (m : Io A) → ((s : Vfs) → S s → P s) → Keeps S m → Triple S P m (λ _. P)
  relax m f t = record { at = λ s h. go (m s) (t.at s h) }
    where
      go : (r : Outcome A × Vfs) → Holds S (λ _. S) r → Holds P (λ _. P) r
      go (ok a, s) h = f s h
      go (err e, s) h = f s h
      go (panic, s) h = tt

module _ {A B : Type 0} {R P : Vfs → Type 0} {Q : B → Vfs → Type 0} where
  Triple-pure_bind : (a : A) (f : A → Io B) → Triple R P (f a) Q → Triple R P (pure a >>= f) Q
  unfolding ◌>>=◌
  Triple-pure_bind a f t = record { at = t.at }

module _ {A : Type 0} {P : Vfs → Type 0} where
  Keeps-with_cleanup :
      (c : Io (Unit {0})) (m : Io A) → Keeps P c → Keeps P m → Keeps P (with_cleanup c m)
  unfolding with_cleanup
  Keeps-with_cleanup c m kc km = record { at = λ s h. go (m s) (km.at s h) }
    where
      go : (r : Outcome A × Vfs) → Holds P (λ _. P) r → Holds P (λ _. P) (cleaned c r)
      go (ok a, s) h = h
      go (err e, s) h = (Keeps-bind {B = A} c (λ _. raise e) kc (λ _. Keeps-raise e)).at s h
      go (panic, s) h = tt

-- After the lookup of its mount a node is known to be mounted.
module _ {P : Vfs → Type 0} where
  file_system-IsMounted :
      (n : FsNode) → Triple P P (file_system n) (λ _ s. P s × IsMounted n.mount_id s)
  unfolding file_system ◌>>=◌
  file_system-IsMounted n = record { at = λ s h. go s (lookup n.mount_id s.mount_table) refl h }
    where
      go :
          (s : Vfs) (o : Option VfsMount)
          → lookup n.mount_id s.mount_table ≡ o
          → P s
          → Holds P (λ _ t. P t × IsMounted n.mount_id t) (file_system n s)
      go s none e h = rw (e, file_system) tt
      go s (some m) e h = rw (e, file_system) (h, λ q. ground arith)

module _ {P : Vfs → Type 0} (k : KeepsFiles P) where
  abbrev writes : KeepsWrites P
  writes = k.directories.entries.writes

  entry_kept :
      (locals : List DirectoryEntry) (p : DirectoryEntry) (node : FsNode) (name : Bytes)
      → Keeps P (cache_insert locals (some p) node name)
  entry_kept = k.directories.entries.entry

  Keeps-create_entry : (path : Bytes) → Keeps P (create_entry path)
  unfolding create_entry
  Keeps-create_entry path =
      search
        (
          keeps_rules,
          entry_kept,
          Keeps-file_system writes,
          Keeps-create_file writes,
          Keeps-resolve_path_parent_directory k.directories.entries,
        )
        depth 12

  Keeps-open_mutating : (path : Bytes) → Keeps P (open_mutating path)
  unfolding open_mutating
  Keeps-open_mutating path =
      search (keeps_rules, Keeps-resolve_path k.directories.entries, Keeps-create_entry) depth 12

  Keeps-open_existing : (path : Bytes) → Keeps P (open_existing path)
  unfolding open_existing
  Keeps-open_existing path = search (keeps_rules, Keeps-resolve_path k.directories.entries) depth 12

  Keeps-get_file : (fd : ℕ) → Keeps P (get_file fd)
  unfolding get_file
  Keeps-get_file fd = search keeps_rules

  Keeps-advance :
      (fd : ℕ) (f : File) (n : ℕ) → Keeps (AndMounted f.node.mount_id writes) (advance fd f n)
  unfolding advance
  Keeps-advance fd f n = Keeps-bind _ _ (Keeps-add_usize f.position n) λ position.
      Keeps-modify _ λ s h. (k.file_in fd (record f { position = position }) s h.0 h.1, h.1)

  -- The rest of an operation, once its node is known to be mounted.
  after_mount :
      {A : Type 0} (n : FsNode) (rest : VfsMount → Io A)
      → ((m : VfsMount) → Keeps (AndMounted n.mount_id writes) (rest m))
      → Keeps P (file_system n >>= rest)
  after_mount n rest h =
      Triple-bind (file_system n) rest (file_system-IsMounted n)
        λ m. relax (rest m) (λ s x. x.0) (h m)

  pub Keeps-read_fd : (fd : ℕ) (buffer : Bytes) → Keeps P (read_fd fd buffer)
  unfolding read_fd
  Keeps-read_fd fd buffer = Keeps-bind _ _ (Keeps-get_file fd) λ file.
      Keeps-bind _ _ (Keeps-assert _) λ _. Keeps-if _ _ _ (Keeps-raise _) (
        after_mount file.node _ λ m.
          Keeps-bind _ _
            (Keeps-read_file (mounted-KeepsWrites file.node.mount_id writes) m file file.position
              buffer)
            λ r. Keeps-bind _ _ (Keeps-advance fd file r.0) λ _. Keeps-pure r)

  pub Keeps-write_fd : (fd : ℕ) (buffer : Bytes) → Keeps P (write_fd fd buffer)
  unfolding write_fd
  Keeps-write_fd fd buffer = Keeps-bind _ _ (Keeps-get_file fd) λ file.
      Keeps-bind _ _ (Keeps-assert _) λ _. Keeps-if _ _ _ (Keeps-raise _) (
        after_mount file.node _ λ m.
          Keeps-bind _ _
            (Keeps-write_file (mounted-KeepsWrites file.node.mount_id writes) m file file.position
              buffer)
            λ n. Keeps-bind _ _ (Keeps-advance fd file n) λ _. Keeps-pure n)

  Keeps-file_out : (fd : ℕ) → Keeps P (modify λ s. record s { files = remove fd s.files })
  Keeps-file_out fd = Keeps-modify _ (k.file_out fd)

  pub Keeps-close : (fd : ℕ) → Keeps P (close fd)
  unfolding close
  Keeps-close fd =
      search
        (
          keeps_rules,
          Keeps-get_file,
          Keeps-file_system writes,
          Keeps-flush writes,
          Keeps-file_out,
          Keeps-decrement_link_count k.links,
        )
        depth 12

  Keeps-insert_file :
      (fd : ℕ) (f : File)
      → Keeps
          (AndMounted f.node.mount_id writes)
          (modify λ s. record s { files = insert fd f s.files })
  Keeps-insert_file fd f = Keeps-modify _ λ s h. (k.file_in fd f s h.0 h.1, h.1)

  Keeps-new_fd : (id : ℕ) → Keeps (AndMounted id writes) new_fd
  unfolding new_fd
  Keeps-new_fd id = record { at = λ s h. (k.fd_counter _ s h.0, h.1) }

  pub Keeps-open_path : (path : Bytes) (mode : FileMode) → Keeps P (open_path path mode)
  unfolding open_path open_file
  Keeps-open_path path mode =
      Keeps-bind _ _
        (Keeps-if (is_mutating mode) _ _ (Keeps-open_mutating path) (Keeps-open_existing path))
        λ e. Keeps-bind _ _ (Keeps-increment_link_count k.links (fields e).node) λ _.
          Keeps-with_cleanup _ _ (Keeps-decrement_link_count k.links (fields e).node) (
            after_mount (fields e).node _ λ m. Triple-pure_bind (new_file (fields e).node mode) _ (
              Keeps-bind new_fd _ (Keeps-new_fd _) λ fd.
                Keeps-bind _ _ (Keeps-insert_file fd (new_file (fields e).node mode))
                  λ _. Keeps-pure fd))
