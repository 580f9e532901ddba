-- ===== src/Shell/Commands/Descriptors.antt =====
-- What `touch` and `cat` (kernel/src/shell/mod.rs) leave of the table of files.
use riptide.Prelude.{ℕ, ◌+◌, ◌≡◌, ◌≢◌, refl, ap, ◌∙◌, none, Bytes, arith, replicate}
use mathlib.Core.Path.{subst}
use riptide.BTreeMap.{Map, lookup, insert, lookup-insert, lookup-remove}
use riptide.BTreeMap.Keys.{nat_key}
use riptide.Fs.Types.{File}
use riptide.Fs.Types
use riptide.Fs.State.{Vfs, Act, Io, Outcome, ok, err, panic, bump}
use riptide.Fs.State.Keeps.{Holds, Triple, Triple-bind, Top}
use riptide.Fs.Files.{close, read_fd}
use riptide.Fs.Files.Table.{HasTable, IsAdded, open_path-Triple}
use riptide.Fs.Files.Moves.{IsMoved, IsRemoved, close-Triple, read_fd-Triple}
use riptide.Fs.Files.Descriptors.{FdsBelow}
use riptide.Vga.{Writer}
use riptide.Shell.Console.{Console, on_writer, unwrapped, or_panic, print, println}
use riptide.Shell.Console.Format.{Texts}
use riptide.Shell.Commands.{touch_path, cat_path}

module _ {A : Type 0} {R P : Vfs → Type 0} {Q : A → Vfs → Type 0} where
  -- An unwrapped call returns, or panics.
  Triple-unwrapped :
      (m : Io A) → Triple R P m Q → Triple (λ c. R c.vfs) Top (unwrapped m) (λ a c. Q a c.vfs)
  unfolding unwrapped
  Triple-unwrapped m t = record { at = λ c h. go c (m c.vfs) (t.at c.vfs h) }
    where
      go :
          (c : Console) (r : Outcome A × Vfs)
          → Holds P Q r
          → Holds Top (λ a c. Q a c.vfs) (or_panic r.0, record c { vfs = r.1 })
      go c (ok a, v) h = h
      go c (err e, v) h = tt
      go c (panic, v) h = tt

module _ {A : Type 0} (R : Vfs → Type 0) where
  -- The screen is no part of the file layer.
  Triple-on_writer : (m : Act Writer A) → Triple (λ c. R c.vfs) Top (on_writer m) (λ _ c. R c.vfs)
  unfolding on_writer
  Triple-on_writer m = record { at = λ c h. go c (m c.writer) h }
    where
      go :
          (c : Console) (r : Outcome A × Writer)
          → R c.vfs
          → Holds Top (λ _ c. R c.vfs) (r.0, record c { writer = r.1 })
      go c (ok a, w) h = h
      go c (err e, w) h = tt
      go c (panic, w) h = tt

module _ (files : Map ℕ File) (n : ℕ) where
  -- Every descriptor stands for what it stands for in `files`.
  abbrev IsSame : Vfs → Type 0
  IsSame s = (fd : ℕ) → lookup fd s.files ≡ lookup fd files

  close-IsSame :
      (fd : ℕ) → lookup n files ≡ none → Triple (IsAdded files n fd) Top (close fd) (λ _. IsSame)
  close-IsSame fd free = record {
    at = λ s h. go s h (close fd s) ((close-Triple (insert n h.1.0 files) (bump n) fd).at s h.1.1);
  }
    where
      go :
          (s : Vfs) (h : IsAdded files n fd s) (r : Outcome (Unit {0}) × Vfs)
          → Holds
              (HasTable (insert n h.1.0 files) (bump n))
              (λ _. IsRemoved (insert n h.1.0 files) (bump n) fd)
              r
          → Holds Top (λ _. IsSame) r
      go s h (ok a, t) e = λ j.
          ap (lookup j) e.0
          ∙ ground (
            arith,
            lookup-remove j fd (insert n h.1.0 files),
            lookup-insert j n h.1.0 files,
            h.0,
            free,
          )
      go s h (err x, t) e = tt
      go s h (panic, t) e = tt

  touch_path-Triple :
      (path : Bytes)
      → lookup n files ≡ none
      → Triple (λ c. HasTable files n c.vfs) Top (touch_path path) (λ _ c. IsSame c.vfs)
  unfolding touch_path
  touch_path-Triple path free =
      Triple-bind _ _ (Triple-unwrapped _ (open_path-Triple files n path Types.write))
        λ fd. Triple-unwrapped (close fd) (close-IsSame fd free)

-- `touch` leaves the table of files as it was: where descriptors in use are below the counter, every
-- descriptor stands afterwards for what it stood for, and the one that `touch` opened for none.
pub touch_path-closes :
    (path : Bytes) (c d : Console)
    → FdsBelow c.vfs
    → touch_path path c ≡ (ok tt, d)
    → (fd : ℕ) → lookup fd d.vfs.files ≡ lookup fd c.vfs.files
touch_path-closes path c d below e =
    subst (Holds Top (λ _ d. IsSame c.vfs.files c.vfs.next_fd d.vfs)) e (
      (touch_path-Triple c.vfs.files c.vfs.next_fd path (below c.vfs.next_fd (omega arith))).at c
        (refl, refl))

module _ (files : Map ℕ File) (n : ℕ) where
  -- Descriptor `n` is in use, and every other one stands for what it stands for in `files`.
  abbrev pub IsLeft : Vfs → Type 0
  IsLeft s = (lookup n s.files ≢ none) × ((fd : ℕ) → fd ≢ n → lookup fd s.files ≡ lookup fd files)

  read_fd-IsLeft :
      (fd : ℕ) (buffer : Bytes) → Triple (IsAdded files n fd) Top (read_fd fd buffer) (λ _. IsLeft)
  read_fd-IsLeft fd buffer = record {
    at = λ s h.
        go s h (read_fd fd buffer s)
          ((read_fd-Triple (insert n h.1.0 files) (bump n) fd buffer).at s h.1.1);
  }
    where
      moved :
          (s t : Vfs) (h : IsAdded files n fd s) (count : ℕ)
          → IsMoved (insert n h.1.0 files) (bump n) fd count t
          → IsLeft t
      moved s t h count m = (
        λ q. ground (
          arith,
          ap (lookup n) m.1.1.0,
          lookup-insert n fd (record m.0 { position = m.0.position + count })
              (insert n h.1.0 files),
          lookup-insert n n h.1.0 files,
          q,
        ),
        λ j ne.
            ap (lookup j) m.1.1.0
            ∙ ground (
              arith,
              lookup-insert j fd (record m.0 { position = m.0.position + count })
                  (insert n h.1.0 files),
              lookup-insert j n h.1.0 files,
              h.0,
              ne,
            ),
      )

      go :
          (s : Vfs) (h : IsAdded files n fd s) (r : Outcome (ℕ × Bytes) × Vfs)
          → Holds
              (HasTable (insert n h.1.0 files) (bump n))
              (λ x. IsMoved (insert n h.1.0 files) (bump n) fd x.0)
              r
          → Holds Top (λ _. IsLeft) r
      go s h (ok x, t) m = moved s t h x.0 m
      go s h (err x, t) m = tt
      go s h (panic, t) m = tt

  cat_path-Triple :
      (T : Texts) (path : Bytes)
      → Triple (λ c. HasTable files n c.vfs) Top (cat_path T path) (λ _ c. IsLeft c.vfs)
  unfolding cat_path println print
  cat_path-Triple T path =
      Triple-bind _ _ (Triple-unwrapped _ (open_path-Triple files n path Types.read)) λ fd.
        Triple-bind _ _ (Triple-unwrapped _ (read_fd-IsLeft fd (replicate 512 0)))
          λ r. Triple-on_writer IsLeft _

-- `cat` does not close its file: behind a `cat` that returns, the descriptor that was next is in use,
-- and every other descriptor stands for what it stood for.
pub cat_path-leaves_open :
    (T : Texts) (path : Bytes) (c d : Console)
    → cat_path T path c ≡ (ok tt, d)
    → (lookup c.vfs.next_fd d.vfs.files ≢ none)
      × ((fd : ℕ) → fd ≢ c.vfs.next_fd → lookup fd d.vfs.files ≡ lookup fd c.vfs.files)
cat_path-leaves_open T path c d e =
    subst (Holds Top (λ _ d. IsLeft c.vfs.files c.vfs.next_fd d.vfs)) e
      ((cat_path-Triple c.vfs.files c.vfs.next_fd T path).at c (refl, refl))
