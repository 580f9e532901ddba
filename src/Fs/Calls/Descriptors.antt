-- ===== src/Fs/Calls/Descriptors.antt =====
-- Descriptors in the states that the kernel reaches: how far the counter behind
-- `FileDescriptor::new` (kernel/src/fs/vfs.rs) gets, and what is below it.
use riptide.Prelude.{ℕ, suc, ◌+◌, ◌≤◌, refl, ap, ◌∙◌, Bytes, arith}
use riptide.BTreeMap.{Map, lookup, lookup-remove, lookup-insert}
use riptide.BTreeMap.Keys.{nat_key}
use riptide.Fs.Types.{File, FileMode, word_max}
use riptide.Fs.State.{Vfs, Io, Outcome, ok, err, panic}
use riptide.Fs.State.Keeps.{Holds, Keeps, Triple}
use riptide.Fs.Files.{open_path, close, read_fd, write_fd}
use riptide.Fs.Files.Table.{HasTable, open_path-Triple}
use riptide.Fs.Files.Moves.{IsMoved, read_fd-Triple, write_fd-Triple, close-Triple}
use riptide.Fs.Files.Descriptors.{FdsBelow, bump_lem, added-FdsBelow}

-- Descriptors in use are below the counter, which does not wrap around at the next `k` descriptors.
abbrev pub Below : ℕ → Vfs → Type 0
Below k s = FdsBelow s × (s.next_fd + k ≤ word_max)

pub weaker : (k : ℕ) (s : Vfs) → Below (suc k) s → Below k s
weaker k s h = (h.0, omega (arith, h.1))

HasTable-Below : (k : ℕ) (s t : Vfs) → HasTable s.files s.next_fd t → Below k s → Below k t
HasTable-Below k s t e h =
    (λ fd q. ap (lookup fd) e.0 ∙ h.0 fd (omega (arith, e.1, q)), omega (arith, e.1, h.1))

module _ {A : Type 0} (k : ℕ) where
  -- What keeps the table of files.
  pub Keeps-Below :
      (m : Io A) → ((files : Map ℕ File) (n : ℕ) → Keeps (HasTable files n) m) → Keeps (Below k) m
  Keeps-Below m f = record { at = λ s h. go s (m s) h ((f s.files s.next_fd).at s (refl, refl)) }
    where
      go :
          (s : Vfs) (r : Outcome A × Vfs)
          → Below k s
          → Holds (HasTable s.files s.next_fd) (λ _. HasTable s.files s.next_fd) r
          → Holds (Below k) (λ _. Below k) r
      go s (ok a, t) h e = HasTable-Below k s t e h
      go s (err x, t) h e = HasTable-Below k s t e h
      go s (panic, t) h e = tt

  -- What ends with a table that stays below the counter.
  changed-Below :
      (j : ℕ) {Q : Map ℕ File → ℕ → A → Vfs → Type 0} (m : Io A)
      → ((files : Map ℕ File) (n : ℕ) → Triple (HasTable files n) (HasTable files n) m (Q files n))
      → ((a : A) (s t : Vfs) → Below j s → Q s.files s.next_fd a t → Below k t)
      → Triple (Below j) (Below j) m (λ _. Below k)
  changed-Below j {Q = Q} m f step = record {
    at = λ s h. go s (m s) h ((f s.files s.next_fd).at s (refl, refl));
  }
    where
      go :
          (s : Vfs) (r : Outcome A × Vfs)
          → Below j s
          → Holds (HasTable s.files s.next_fd) (Q s.files s.next_fd) r
          → Holds (Below j) (λ _. Below k) r
      go s (ok a, t) h e = step a s t h e
      go s (err x, t) h e = HasTable-Below j s t e h
      go s (panic, t) h e = tt

module _ (k : ℕ) where
  pub open_path-Below :
      (path : Bytes) (mode : FileMode)
      → Triple (Below (suc k)) (Below (suc k)) (open_path path mode) (λ _. Below k)
  open_path-Below path mode =
      changed-Below k (suc k) _ (λ files n. open_path-Triple files n path mode)
        λ fd s t h added. (
          added-FdsBelow s t fd h.0 (omega (arith, h.1)) added,
          omega (arith, h.1, added.1.1.1 ∙ bump_lem s.next_fd (omega (arith, h.1))),
        )

  moved-Below :
      (fd count : ℕ) (s t : Vfs) → Below k s → IsMoved s.files s.next_fd fd count t → Below k t
  moved-Below fd count s t h m = (
    λ j above.
        ap (lookup j) m.1.1.0
        ∙ ground (
          arith,
          lookup-insert j fd (record m.0 { position = m.0.position + count }) s.files,
          m.1.0,
          h.0 j (omega (arith, m.1.1.1, above)),
        ),
    omega (arith, m.1.1.1, h.1),
  )

  pub read_fd-Below : (fd : ℕ) (buffer : Bytes) → Keeps (Below k) (read_fd fd buffer)
  read_fd-Below fd buffer =
      changed-Below k k _ (λ files n. read_fd-Triple files n fd buffer) λ r. moved-Below fd r.0

  pub write_fd-Below : (fd : ℕ) (buffer : Bytes) → Keeps (Below k) (write_fd fd buffer)
  write_fd-Below fd buffer =
      changed-Below k k _ (λ files n. write_fd-Triple files n fd buffer) (moved-Below fd)

  pub close-Below : (fd : ℕ) → Keeps (Below k) (close fd)
  close-Below fd =
      changed-Below k k _ (λ files n. close-Triple files n fd)
        λ u s t h e. (
          λ j above.
              ap (lookup j) e.0
              ∙ ground (arith, lookup-remove j fd s.files, h.0 j (omega (arith, e.1, above))),
          omega (arith, e.1, h.1),
        )
