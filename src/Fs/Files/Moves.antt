-- ===== src/Fs/Files/Moves.antt =====
-- What `read`, `write` and `close` of kernel/src/fs/vfs.rs do to the table of files.
use riptide.Prelude.{ℕ, ◌+◌, ◌≡◌, refl, ap, sym, ◌∙◌, Option, some, none, Bytes}
use riptide.BTreeMap.{Map, lookup, insert, remove}
use riptide.BTreeMap.Keys.{nat_key, pair_key}
use riptide.Fs.Types.{File, FsNode, NodeCell}
use riptide.Fs.State.{Vfs, Io, Outcome, ok, err, panic, ◌>>=◌, expect}
use riptide.Fs.State.Keeps.{
  Keeps, Holds, Triple, Triple-bind, Triple-modify, Triple-pure, Triple-raise, Triple-panics,
  Triple-weaken, Triple-if, Keeps-assert, Triple-gets,
}
use riptide.Fs.Node.{decrement_link_count, get_cell, set_link_count}
use riptide.Fs.Drivers.Keeps.{
  KeepsWrites, Keeps-file_system, Keeps-flush, Keeps-read_file, Keeps-write_file,
}
use riptide.Fs.Files.{get_file, close, read_fd, write_fd, advance}
use riptide.Fs.Files.Table.{HasTable, table-KeepsWrites}

module _ (files : Map ℕ File) (n : ℕ) where
  abbrev table_kept : KeepsWrites (HasTable files n)
  table_kept = table-KeepsWrites

  -- The table with the file at a descriptor moved on.
  abbrev pub IsMoved : ℕ → ℕ → Vfs → Type 0
  IsMoved fd count s =
      (f : File) × ((lookup fd files ≡ some f)
        × HasTable (insert fd (record f { position = f.position + count }) files) n s)

  abbrev IsOpen : ℕ → File → Vfs → Type 0
  IsOpen fd f s = HasTable files n s × (lookup fd files ≡ some f)

  Triple-get_file :
      (fd : ℕ) → Triple (HasTable files n) (HasTable files n) (get_file fd) (IsOpen fd)
  unfolding get_file ◌>>=◌
  Triple-get_file fd = record { at = λ s h. go s (lookup fd s.files) refl h }
    where
      go :
          (s : Vfs) (o : Option File)
          → lookup fd s.files ≡ o
          → HasTable files n s
          → Holds (HasTable files n) (IsOpen fd) (get_file fd s)
      go s none e h = rw (e, get_file) h
      go s (some f) e h = rw (e, get_file) (h, ap (lookup fd) (sym h.0) ∙ e)

  Triple-advance :
      (fd : ℕ) (f : File) (count : ℕ)
      → Triple (IsOpen fd f) (HasTable files n) (advance fd f count) (λ _. IsMoved fd count)
  unfolding advance
  Triple-advance fd f count =
      Triple-bind {Q = λ k s. IsOpen fd f s × (k ≡ f.position + count)} _ _
        (Triple-if _ _ _ (Triple-pure _ λ s h. (h, refl)) Triple-panics)
        λ k. Triple-modify _ λ s h. (
          f,
          (
            h.0.1,
            (
              ap (insert fd (record f { position = k })) h.0.0.0
                  ∙ ap (λ (k : ℕ). insert fd (record f { position = k }) files) h.1,
              h.0.0.1,
            ),
          ),
        )

  -- A step that keeps the table, with the file known to be open.
  with_file :
      {A : Type 0} (fd : ℕ) (f : File) (m : Io A)
      → Keeps (HasTable files n) m
      → Triple (IsOpen fd f) (HasTable files n) m (λ _. IsOpen fd f)
  with_file {A = A} fd f m k = record { at = λ s h. go (m s) h.1 (k.at s h.0) }
    where
      go :
          (r : Outcome A × Vfs)
          → lookup fd files ≡ some f
          → Holds (HasTable files n) (λ _. HasTable files n) r
          → Holds (HasTable files n) (λ _. IsOpen fd f) r
      go (ok a, s) o h = (h, o)
      go (err e, s) o h = h
      go (panic, s) o h = tt

  pub read_fd-Triple :
      (fd : ℕ) (buffer : Bytes)
      → Triple (HasTable files n) (HasTable files n) (read_fd fd buffer) (λ r. IsMoved fd r.0)
  unfolding read_fd
  read_fd-Triple fd buffer = Triple-bind _ _ (Triple-get_file fd) λ f.
      Triple-bind _ _ (with_file fd f _ (Keeps-assert _)) λ _.
        Triple-if _ _ _ (Triple-raise _ λ s h. h.0) (
          Triple-bind _ _ (with_file fd f _ (Keeps-file_system table_kept f.node)) λ m.
            Triple-bind _ _ (with_file fd f _ (Keeps-read_file table_kept m f f.position buffer))
              λ r. Triple-bind _ _ (Triple-advance fd f r.0) λ _. Triple-pure r λ s h. h)

  pub write_fd-Triple :
      (fd : ℕ) (buffer : Bytes)
      → Triple (HasTable files n) (HasTable files n) (write_fd fd buffer) (IsMoved fd)
  unfolding write_fd
  write_fd-Triple fd buffer = Triple-bind _ _ (Triple-get_file fd) λ f.
      Triple-bind _ _ (with_file fd f _ (Keeps-assert _)) λ _.
        Triple-if _ _ _ (Triple-raise _ λ s h. h.0) (
          Triple-bind _ _ (with_file fd f _ (Keeps-file_system table_kept f.node)) λ m.
            Triple-bind _ _ (with_file fd f _ (Keeps-write_file table_kept m f f.position buffer))
              λ k. Triple-bind _ _ (Triple-advance fd f k) λ _. Triple-pure k λ s h. h)

  -- The table without the file at a descriptor.
  abbrev pub IsRemoved : ℕ → Vfs → Type 0
  IsRemoved fd s = HasTable (remove fd files) n s

  -- The link count is brought down, or the kernel panics: there is no `IoError`.
  Triple-decrement :
      (fd : ℕ) (node : FsNode)
      → Triple (IsRemoved fd) (HasTable files n) (decrement_link_count node) (λ _. IsRemoved fd)
  unfolding decrement_link_count get_cell set_link_count
  Triple-decrement fd node =
      Triple-bind {Q = λ _. IsRemoved fd} _ _
        (Triple-bind {Q = λ _. IsRemoved fd} _ _
          (Triple-weaken _ (λ s h. h) (λ s h. h) (λ a s h. h.0) (Triple-gets _)) go)
        λ c. Triple-if _ _ _ Triple-panics (Triple-modify _ λ s h. h)
    where
      go :
          (o : Option NodeCell)
          → Triple (IsRemoved fd) (HasTable files n) (expect o) (λ _. IsRemoved fd)
      go none = Triple-panics
      go (some c) = Triple-pure c λ s h. h

  pub close-Triple :
      (fd : ℕ) → Triple (HasTable files n) (HasTable files n) (close fd) (λ _. IsRemoved fd)
  unfolding close
  close-Triple fd = Triple-bind _ _ (Triple-get_file fd) λ f.
      Triple-bind _ _ (with_file fd f _ (Keeps-file_system table_kept f.node)) λ m.
        Triple-bind _ _ (with_file fd f _ (Keeps-flush table_kept m f)) λ _.
          Triple-bind {Q = λ _. IsRemoved fd} _ _
            (Triple-modify _ λ s h. (ap (remove fd) h.0.0, h.0.1)) λ _. Triple-decrement fd f.node
