-- ===== src/Fs/Files/Handles.antt =====
-- File descriptors (`open`, `close`, `read`, `write` of kernel/src/fs/vfs.rs): what they stand for
-- between `open` and `close`, and the errors of the calls that use them.
use riptide.Prelude.{false, if◌then◌else◌}
use mathlib.Core.Path.{subst}
use riptide.Fs.Drivers.Keeps.{KeepsLinks, Keeps-decrement_link_count}
use riptide.Prelude.{
  ℕ, ◌≡◌, ◌≢◌, refl, false, none, some, Bytes, if◌then◌else◌, Bool-cases, inl, inr,
}
use riptide.BTreeMap.{lookup, lookup-remove_self}
use riptide.BTreeMap.Keys.{nat_key}
use riptide.Fs.Types.{File, FileMode, read, write, append, invalid_file, invalid_mode, is_directory}
use riptide.Fs.State.{Vfs, Outcome, ok, err, panic, Io, ◌>>=◌}
use riptide.Fs.State.Keeps.{Holds, Triple, Triple-bind, Top, Triple-any, Triple-modify, Keeps}
use riptide.Fs.Files.{close, read_fd, write_fd, is_read_mode, is_write_mode}

module _ (fd : ℕ) (s : Vfs) (h : lookup fd s.files ≡ none) where
  -- A descriptor that is not open is refused by every call that takes one, with the same error, and
  -- the state stays as it is.
  pub unknown_descriptor :
      (buffer : Bytes)
      → (read_fd fd buffer s ≡ (err invalid_file, s))
        × (write_fd fd buffer s ≡ (err invalid_file, s))
        × (close fd s ≡ (err invalid_file, s))
  unfolding read_fd write_fd close ◌>>=◌
  unknown_descriptor buffer = (rw h refl, rw h refl, rw h refl)

not_read : (m : FileMode) → m ≢ read → is_read_mode m ≡ false
not_read read h = absurd (h refl)
not_read write h = refl
not_read append h = refl

not_write : (m : FileMode) → m ≢ write → is_write_mode m ≡ false
not_write read h = refl
not_write write h = absurd (h refl)
not_write append h = refl

-- The outcome of a call that the mode of a file does not allow.
abbrev pub refused : {A : Type 0} → File → Outcome A
refused f = if is_directory f.node then panic else err invalid_mode

-- A file that was opened in another mode than `Read` is not read: the call fails with `InvalidMode`,
-- or panics on a directory, and the state stays as it is.
pub read_mode_refused :
    (fd : ℕ) (buffer : Bytes) (s : Vfs) (f : File)
    → lookup fd s.files ≡ some f
    → f.mode ≢ read
    → read_fd fd buffer s ≡ (refused f, s)
unfolding read_fd ◌>>=◌
read_mode_refused fd buffer s f h m = elim (Bool-cases (is_directory f.node)) [
  | inl d ↦ rw (h, d) refl
  | inr d ↦ rw (h, d, not_read f.mode m) refl
]

-- A file that was opened in another mode than `Write` is not written: the call fails with
-- `InvalidMode`, or panics on a directory, and the state stays as it is.
pub write_mode_refused :
    (fd : ℕ) (buffer : Bytes) (s : Vfs) (f : File)
    → lookup fd s.files ≡ some f
    → f.mode ≢ write
    → write_fd fd buffer s ≡ (refused f, s)
unfolding write_fd ◌>>=◌
write_mode_refused fd buffer s f h m = elim (Bool-cases (is_directory f.node)) [
  | inl d ↦ rw (h, d) refl
  | inr d ↦ rw (h, d, not_write f.mode m) refl
]

module _ {A : Type 0} {R : Vfs → Type 0} where
  Triple-kept : (m : Io A) → Keeps R m → Triple R Top m (λ _. R)
  Triple-kept m k = record { at = λ s h. go (m s) (k.at s h) }
    where
      go : (r : Outcome A × Vfs) → Holds R (λ _. R) r → Holds Top (λ _. R) r
      go (ok a, s) h = h
      go (err e, s) h = tt
      go (panic, s) h = tt

is_closed_KeepsLinks : (fd : ℕ) → KeepsLinks (λ s. lookup fd s.files ≡ none)
is_closed_KeepsLinks fd = record { links = λ a c count s e h. h }

close-Triple : (fd : ℕ) → Triple Top Top (close fd) (λ _ s. lookup fd s.files ≡ none)
unfolding close
close-Triple fd = Triple-bind _ _ (Triple-any _) λ file. Triple-bind _ _ (Triple-any _) λ fs.
    Triple-bind _ _ (Triple-any _) λ u.
      Triple-bind _ _ (Triple-modify _ λ s h. lookup-remove_self fd s.files)
        λ v. Triple-kept _ (Keeps-decrement_link_count (is_closed_KeepsLinks fd) file.node)

-- After a `close` that returns, the descriptor is refused by every call that takes one, a second
-- `close` included.
pub close-unknown_descriptor :
    (fd : ℕ) (buffer : Bytes) (s s2 : Vfs)
    → close fd s ≡ (ok tt, s2)
    → (read_fd fd buffer s2 ≡ (err invalid_file, s2))
      × (write_fd fd buffer s2 ≡ (err invalid_file, s2))
      × (close fd s2 ≡ (err invalid_file, s2))
close-unknown_descriptor fd buffer s s2 e =
    unknown_descriptor fd s2
      (subst (Holds Top (λ _ s. lookup fd s.files ≡ none)) e ((close-Triple fd).at s tt)) buffer
