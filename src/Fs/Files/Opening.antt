-- ===== src/Fs/Files/Opening.antt =====
-- What `open` returns (kernel/src/fs/vfs.rs), and what can be done with it.
use riptide.Fs.Files.Handles.{read_mode_refused, write_mode_refused}
use riptide.Fs.Cache.Insert.{Holds-cache_insert}
use riptide.Fs.Files.{open_mutating, open_existing, create_entry}
use riptide.Fs.Node.{new_node}
use riptide.Fs.Ram.{ram_create_file}
use riptide.Fs.Drivers.{create_file, type_of, by_type}
use riptide.Fs.State.Keeps.{Triple-raise}
use riptide.Fs.State.{match_option, raise, pure}
use riptide.Fs.Types.{
  is_mutating, DirectoryEntry, FileSystemType, ram, dev, operation_not_supported, not_a_file,
}
use riptide.Prelude.{Option, ◌&&◌, Bool, true, false, if◌then◌else◌, [], ◌∷◌}
use mathlib.Core.Path.{subst}
use riptide.Fs.Drivers.{open_file}
use riptide.Fs.Types.{fields}
use riptide.Prelude.{
  ℕ, ◌≡◌, ◌≢◌, refl, sym, ap, ◌∙◌, false, none, some, Bytes, arith, if◌then◌else◌,
}
use riptide.BTreeMap.{lookup, lookup-insert_self}
use riptide.BTreeMap.Keys.{nat_key}
use riptide.Fs.Types.{
  File, FileMode, read, write, append, IoError, invalid_mode, FsNode, new_file, is_directory,
  VfsMount,
}
use riptide.Fs.State.{Vfs, Outcome, ok, err, panic, Io, raise, ◌>>=◌}
use riptide.Fs.State.Keeps.{Holds, Triple, Triple-bind, Top, Triple-any, Triple-modify, Triple-pure}
use riptide.Fs.Files.{open_path, read_fd, write_fd, with_cleanup, cleaned}

module _ {A : Type 0} {R : Vfs → Type 0} {Q : A → Vfs → Type 0} where
  Triple-with_cleanup :
      (c : Io (Unit {0})) (m : Io A) → Triple R Top m Q → Triple R Top (with_cleanup c m) Q
  unfolding with_cleanup ◌>>=◌
  Triple-with_cleanup c m t = record { at = λ s h. go (m s) (t.at s h) }
    where
      failed :
          (e : IoError) (r : Outcome (Unit {0}) × Vfs)
          → Holds Top Q (((λ (s : Vfs). r) >>= λ _. raise e) r.1)
      failed e (ok a, s) = tt
      failed e (err x, s) = tt
      failed e (panic, s) = tt

      go : (r : Outcome A × Vfs) → Holds Top Q r → Holds Top Q (cleaned c r)
      go (ok a, s) h = h
      go (err e, s) h = failed e (c s)
      go (panic, s) h = tt

module _ {A : Type 0} {R : Vfs → Type 0} {Q : A → Vfs → Type 0} where
  -- What holds of every result.
  Triple-all : (m : Io A) → ((s : Vfs) → R s → (a : A) (t : Vfs) → Q a t) → Triple R Top m Q
  Triple-all m f = record { at = λ s h. go (m s) (f s h) }
    where
      go : (r : Outcome A × Vfs) → ((a : A) (t : Vfs) → Q a t) → Holds Top Q r
      go (ok a, s) h = h a s
      go (err e, s) h = tt
      go (panic, s) h = tt

-- A node that `open` may open in a mode.
abbrev MayOpen : FileMode → FsNode → Type 0
MayOpen mode n = (is_mutating mode && is_directory n) ≡ false

-- The table of files as `open` leaves it: a new file at position 0, and not a directory if it may be
-- written.
abbrev pub IsOpened : FileMode → ℕ → Vfs → Type 0
IsOpened mode fd s =
    (f : File) × (lookup fd s.files ≡ some f)
    × (f.mode ≡ mode)
    × (f.position ≡ 0)
    × MayOpen mode f.node

abbrev IsNoDirectory : FsNode → Vfs → Type 0
IsNoDirectory n s = is_directory n ≡ false

ram_create_file-IsNoDirectory :
    (m : VfsMount) (d : FsNode) (name : Bytes)
    → Triple Top Top (ram_create_file m d name) IsNoDirectory
unfolding ram_create_file new_node is_directory
ram_create_file-IsNoDirectory m d name = Triple-bind _ _ (Triple-any _) λ id.
    Triple-bind {Q = IsNoDirectory} _ _ (record { at = λ s h. refl })
      λ node. Triple-bind _ _ (Triple-all _ λ s h a t. h) λ u. Triple-pure node λ s h. h

create_file-IsNoDirectory :
    (m : VfsMount) (d : DirectoryEntry) (name : Bytes)
    → Triple Top Top (create_file m d name) IsNoDirectory
unfolding create_file
create_file-IsNoDirectory m d name = go (type_of m)
  where
    go :
        (ty : FileSystemType)
        → Triple Top Top
            (by_type ty (ram_create_file m (fields d).node name) (raise operation_not_supported))
            IsNoDirectory
    go ram = ram_create_file-IsNoDirectory m (fields d).node name
    go dev = Triple-raise operation_not_supported λ s h. h

open_mutating-IsNoDirectory :
    (path : Bytes) → Triple Top Top (open_mutating path) (λ e. IsNoDirectory (fields e).node)
unfolding open_mutating create_entry
open_mutating-IsNoDirectory path = Triple-bind _ _ (Triple-any _) go
  where
    go_on :
        (e : DirectoryEntry) (b : Bool)
        → is_directory (fields e).node ≡ b
        → Triple Top Top
            (if b then raise not_a_file else pure e)
            (λ x. IsNoDirectory (fields x).node)
    go_on e true h = Triple-raise not_a_file λ s h. h
    go_on e false h = Triple-pure e λ s x. h

    go :
        (found : Option DirectoryEntry)
        → Triple Top Top
            (match_option found
              (create_entry path)
              λ e. if is_directory (fields e).node then raise not_a_file else pure e)
            (λ x. IsNoDirectory (fields x).node)
    go none = Triple-bind _ _ (Triple-any _) λ found. Triple-bind _ _ (Triple-any _) λ fs.
        Triple-bind _ _ (create_file-IsNoDirectory fs found.0 found.1) λ node. record {
          at = λ s h.
              Holds-cache_insert Top _ (found.0 ∷ []) (some found.0) node found.1 s λ fits. h;
        }
    go (some e) = go_on e (is_directory (fields e).node) refl

opened_entry :
    (path : Bytes) (b : Bool)
    → Triple Top Top
        (if b then open_mutating path else open_existing path)
        (λ e _. (b && is_directory (fields e).node) ≡ false)
opened_entry path true = open_mutating-IsNoDirectory path
opened_entry path false = Triple-all _ λ s h a t. refl

open_path-Triple :
    (path : Bytes) (mode : FileMode) → Triple Top Top (open_path path mode) (IsOpened mode)
unfolding open_path open_file
open_path-Triple path mode = Triple-bind _ _ (opened_entry path (is_mutating mode)) λ entry.
    let may_open : Type 0 = MayOpen mode (fields entry).node in
    let file = new_file (fields entry).node mode in
    Triple-bind {Q = λ _ _. may_open} _ _ (Triple-all _ λ s h a t. h) λ u. Triple-with_cleanup _ _ (
      Triple-bind {Q = λ _ _. may_open} _ _ (Triple-all _ λ s h a t. h) λ fs.
        Triple-bind {Q = λ f _. (f ≡ file) × may_open} _ _ (Triple-pure file λ s h. (refl, h)) λ f.
          Triple-bind {Q = λ _ _. (f ≡ file) × may_open} _ _ (Triple-all _ λ s h a t. h) λ fd.
            Triple-bind _ _
              (Triple-modify _ λ s h. (
                f,
                lookup-insert_self fd f s.files,
                ap (λ (x : File). x.mode) h.0,
                ap (λ (x : File). x.position) h.0,
                ap (λ (x : File). is_mutating mode && is_directory x.node) h.0 ∙ h.1,
              ))
              λ v. Triple-pure fd λ s h. h)

-- What `open` returns is a descriptor of a file in the mode that was asked for, at position 0, and
-- not of a directory unless the mode is `Read`.
pub open_path-IsOpened :
    (path : Bytes) (mode : FileMode) (fd : ℕ) (s s2 : Vfs)
    → open_path path mode s ≡ (ok fd, s2)
    → IsOpened mode fd s2
open_path-IsOpened path mode fd s s2 e =
    subst (Holds Top (IsOpened mode)) e ((open_path-Triple path mode).at s tt)

-- A file that was opened with `Append` can be neither read nor written through the descriptor that
-- `open` returned: both calls fail with `InvalidMode`, and the state stays as it is.
pub append_is_useless :
    (path buffer : Bytes) (fd : ℕ) (s s2 : Vfs)
    → open_path path append s ≡ (ok fd, s2)
    → (read_fd fd buffer s2 ≡ (err invalid_mode, s2))
      × (write_fd fd buffer s2 ≡ (err invalid_mode, s2))
append_is_useless path buffer fd s s2 e =
    let opened = open_path-IsOpened path append fd s s2 e in
    let no_directory : is_directory opened.0.node ≡ false = unfold is_mutating in opened.4 in
    (
      read_mode_refused fd buffer s2 opened.0 opened.1 (λ m. append_ne_read (sym opened.2 ∙ m))
          ∙ ap (λ (b : Bool). ((if b then panic else err invalid_mode), s2)) no_directory,
      write_mode_refused fd buffer s2 opened.0 opened.1 (λ m. append_ne_write (sym opened.2 ∙ m))
          ∙ ap (λ (b : Bool). ((if b then panic else err invalid_mode), s2)) no_directory,
    )
  where
    append_ne_read : append ≢ read
    append_ne_read e = ground (arith, e)

    append_ne_write : append ≢ write
    append_ne_write e = ground (arith, e)
