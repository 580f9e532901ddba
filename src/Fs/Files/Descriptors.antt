-- ===== src/Fs/Files/Descriptors.antt =====
-- Which descriptors `open`, `close`, `read` and `write` touch (kernel/src/fs/vfs.rs).
use riptide.Prelude.{ℕ, ◌+◌, ◌≤◌, ◌<◌, ◌≡◌, ◌≢◌, refl, sym, ap, ◌∙◌, none, Bytes, arith}
use mathlib.Core.Path.{subst}
use riptide.BTreeMap.{lookup, lookup-insert_ne, lookup-remove_ne}
use riptide.BTreeMap.Keys.{nat_key}
use riptide.Fs.Types.{FileMode, word_max}
use riptide.Fs.State.{Vfs, Outcome, ok, err, panic, bump}
use riptide.Fs.State.Keeps.{Holds}
use riptide.Fs.Files.{open_path, close, read_fd, write_fd}
use riptide.Fs.Files.Table.{HasTable, IsAdded, open_path-Triple}
use riptide.Fs.Files.Moves.{IsMoved, read_fd-Triple, write_fd-Triple, close-Triple}

-- Every open descriptor is below the one that `FileDescriptor::new` gives next.
abbrev pub FdsBelow : Vfs → Type 0
FdsBelow s = (fd : ℕ) → s.next_fd ≤ fd → lookup fd s.files ≡ none

-- The counter does not wrap around at the next descriptor.
abbrev pub HasDescriptor : Vfs → Type 0
HasDescriptor s = s.next_fd < word_max

pub bump_lem : (n : ℕ) → n < word_max → bump n ≡ n + 1
bump_lem n h = omega (arith, h)

pub added-FdsBelow :
    (s s2 : Vfs) (fd : ℕ)
    → FdsBelow s
    → HasDescriptor s
    → IsAdded s.files s.next_fd fd s2
    → FdsBelow s2
added-FdsBelow s s2 fd below fits added j above =
    let next = added.1.1.1 ∙ bump_lem s.next_fd fits in
    ap (lookup j) added.1.1.0
    ∙ lookup-insert_ne j s.next_fd added.1.0 s.files (λ e. omega (arith, next, above, e))
    ∙ below j (omega (arith, next, above))

-- Where every descriptor in use is below the counter, and the counter is not about to wrap around,
-- a descriptor that `open` returns was not in use before; all other descriptors stand for what they
-- stood for, and the descriptors in use are below the counter again.
pub open_path-new :
    (path : Bytes) (mode : FileMode) (fd : ℕ) (s s2 : Vfs)
    → FdsBelow s
    → HasDescriptor s
    → open_path path mode s ≡ (ok fd, s2)
    → (lookup fd s.files ≡ none)
      × ((other : ℕ) → other ≢ fd → lookup other s2.files ≡ lookup other s.files)
      × FdsBelow s2
open_path-new path mode fd s s2 below fits e =
    let added : IsAdded s.files s.next_fd fd s2 =
      subst (Holds (HasTable s.files s.next_fd) (IsAdded s.files s.next_fd)) e
        ((open_path-Triple s.files s.next_fd path mode).at s (refl, refl)) in
    (
      ap (λ (k : ℕ). lookup k s.files) added.0 ∙ below s.next_fd (omega arith),
      λ other ne.
          ap (lookup other) added.1.1.0
          ∙ lookup-insert_ne other s.next_fd added.1.0 s.files (λ q. ne (q ∙ sym added.0)),
      added-FdsBelow s s2 fd below fits added,
    )

-- A descriptor stands for what it stood for, unless the kernel has stopped.
abbrev pub Undisturbed : {A : Type 0} → ℕ → Vfs → Outcome A × Vfs → Type 0
Undisturbed other s r =
    Holds (λ t. lookup other t.files ≡ lookup other s.files)
      (λ _ t. lookup other t.files ≡ lookup other s.files) r

module _ {A : Type 0} {Q : A → Vfs → Type 0} where
  undisturbed :
      (other : ℕ) (s : Vfs) (r : Outcome A × Vfs)
      → ((a : A) (t : Vfs) → Q a t → lookup other t.files ≡ lookup other s.files)
      → Holds (HasTable s.files s.next_fd) Q r
      → Undisturbed other s r
  undisturbed other s (ok a, t) f h = f a t h
  undisturbed other s (err e, t) f h = ap (lookup other) h.0
  undisturbed other s (panic, t) f h = tt

-- A `read`, a `write` or a `close` of one descriptor leaves every other descriptor as it is: open or
-- not, and at the position where it was, whether the call returns or fails.
pub descriptors_apart :
    (fd other : ℕ) (buffer bytes : Bytes) (s : Vfs)
    → other ≢ fd
    → Undisturbed other s (read_fd fd buffer s)
      × Undisturbed other s (write_fd fd bytes s)
      × Undisturbed other s (close fd s)
descriptors_apart fd other buffer bytes s ne = (
  undisturbed other s _ (λ r t m. moved r.0 t m)
      ((read_fd-Triple s.files s.next_fd fd buffer).at s (refl, refl)),
  undisturbed other s _ moved ((write_fd-Triple s.files s.next_fd fd bytes).at s (refl, refl)),
  undisturbed other s _ (λ u t r. ap (lookup other) r.0 ∙ lookup-remove_ne other fd s.files ne)
      ((close-Triple s.files s.next_fd fd).at s (refl, refl)),
)
  where
    moved :
        (count : ℕ) (t : Vfs)
        → IsMoved s.files s.next_fd fd count t
        → lookup other t.files ≡ lookup other s.files
    moved count t m = ap (lookup other) m.1.1.0 ∙ lookup-insert_ne other fd _ s.files ne
