-- ===== src/Fs/Links/Files.antt =====
-- `open`, `close`, `read` and `write` (kernel/src/fs/vfs.rs) keep a link for each open file.
use riptide.Prelude.{ℕ, ◌≡◌, refl, sym, Option, some, none, Bytes, arith}
use mathlib.Core.Path.{subst}
use riptide.BTreeMap.{lookup, insert, remove}
use riptide.BTreeMap.Keys.{nat_key}
use riptide.BTreeMap.Order.{insert-IsAscending, remove-IsAscending}
use riptide.Fs.Types.{File, FileMode, FsNode, fields, new_file, is_mutating}
use riptide.Fs.State.{Vfs, Io, Outcome, ok, err, panic, raise, ◌>>=◌}
use riptide.Fs.State.Keeps.{
  Keeps, Holds, Triple, Triple-bind, Triple-modify, Triple-pure, Triple-raise, Triple-panics,
  Triple-weaken, Triple-if, Keeps-if, Keeps-assert, keeps_rules,
}
use riptide.Fs.Drivers.{open_file}
use riptide.Fs.Drivers.Keeps.{
  KeepsWrites, Keeps-file_system, Keeps-flush, Keeps-read_file, Keeps-write_file, Keeps-create_file,
}
use riptide.Fs.Resolve.Keeps.{Keeps-resolve_path, Keeps-resolve_path_parent_directory}
use riptide.Fs.Files.{
  get_file, create_entry, open_mutating, open_existing, with_cleanup, cleaned, open_path, close,
  read_fd, write_fd, advance, new_fd,
}
use riptide.Fs.Links.{Covered, link_at, no_more, opens-insert, opens-insert_same, opens-remove}
use riptide.Fs.Links.Writes.{writes-Covered, cached-Covered}
use riptide.Fs.Links.Counts.{increment-Covered, decrement-Covered}

abbrev P : Vfs → Type 0
P = Covered no_more

Keeps-create_entry : (path : Bytes) → Keeps P (create_entry path)
unfolding create_entry
Keeps-create_entry path =
    search
      (
        keeps_rules,
        (cached-Covered {more = no_more}).entry,
        Keeps-file_system (writes-Covered {more = no_more}),
        Keeps-create_file (writes-Covered {more = no_more}),
        Keeps-resolve_path_parent_directory (cached-Covered {more = no_more}),
      )
      depth 12

Keeps-open_mutating : (path : Bytes) → Keeps P (open_mutating path)
unfolding open_mutating
Keeps-open_mutating path =
    search (keeps_rules, Keeps-resolve_path (cached-Covered {more = no_more}), Keeps-create_entry)
      depth 12

Keeps-open_existing : (path : Bytes) → Keeps P (open_existing path)
unfolding open_existing
Keeps-open_existing path =
    search (keeps_rules, Keeps-resolve_path (cached-Covered {more = no_more})) depth 12

module _ {A : Type 0} {R P2 P3 : Vfs → Type 0} {Q : A → Vfs → Type 0} where
  -- The cleanup brings what a failure left to what is asked for.
  Triple-with_cleanup :
      (c : Io (Unit {0})) (m : Io A)
      → Triple P2 P3 c (λ _. P3)
      → Triple R P2 m Q
      → Triple R P3 (with_cleanup c m) Q
  unfolding with_cleanup
  Triple-with_cleanup c m kc t = record { at = λ s h. go (m s) (t.at s h) }
    where
      go : (r : Outcome A × Vfs) → Holds P2 Q r → Holds P3 Q (cleaned c r)
      go (ok a, s) h = h
      go (err e, s) h =
          (Triple-bind {Q = λ _. P3} c (λ _. raise {A = A} e) kc (λ _. Triple-raise e λ t x. x)).at
            s h
      go (panic, s) h = tt

-- The file takes the link over.
insert-Covered :
    (fd : ℕ) (f : File) (s : Vfs)
    → Covered (link_at f.node) s
    → P (record s { files = insert fd f s.files })
insert-Covered fd f s h = record {
  covered = λ a. ground (arith, opens-insert a fd f s.files, h.covered a);
  fresh = h.fresh;
  ascending = insert-IsAscending fd f s.files h.ascending;
}

pub open_path-Covered : (path : Bytes) (mode : FileMode) → Keeps P (open_path path mode)
unfolding open_path open_file
open_path-Covered path mode =
    Triple-bind _ _
      (Keeps-if (is_mutating mode) _ _ (Keeps-open_mutating path) (Keeps-open_existing path))
      λ e.
        let n = (fields e).node in
        let f = new_file n mode in
        Triple-bind _ _ (increment-Covered n) λ _. Triple-with_cleanup _ _ (decrement-Covered n) (
          Triple-bind _ _ (Keeps-file_system (writes-Covered {more = link_at n}) n) λ m.
            Triple-bind {Q = λ g s. (g ≡ f) × Covered (link_at n) s} _ _
              (Triple-pure f λ s h. (refl, h))
              λ g.
                Triple-bind {Q = λ _ s. (g ≡ f) × Covered (link_at n) s} _ _ (counted g f n) λ fd.
                  Triple-bind {Q = λ _. P} _ _
                    (Triple-modify _ λ s h.
                      subst (λ (x : File). P (record s { files = insert fd x s.files })) (sym h.0)
                        (insert-Covered fd f s h.1))
                    λ _. Triple-pure fd λ s h. h)
  where
    counted :
        (g f : File) (n : FsNode)
        → Triple
            (λ s. (g ≡ f) × Covered (link_at n) s)
            (Covered (link_at n))
            new_fd
            (λ _ s. (g ≡ f) × Covered (link_at n) s)
    counted g f n =
        unfold new_fd in
        record {
          at = λ s h.
              (h.0, record { covered = h.1.covered; fresh = h.1.fresh; ascending = h.1.ascending });
        }

-- A descriptor stands for a file.
abbrev IsOpen : ℕ → File → Vfs → Type 0
IsOpen fd f s = P s × (lookup fd s.files ≡ some f)

opening-KeepsWrites : (fd : ℕ) (f : File) → KeepsWrites (IsOpen fd f)
opening-KeepsWrites fd f = record {
  node = λ d s h. ((writes-Covered {more = no_more}).node d s h.0, h.1);
  contents = λ a c d s e h. ((writes-Covered {more = no_more}).contents a c d s e h.0, h.1);
  node_id = λ id n m s e h. ((writes-Covered {more = no_more}).node_id id n m s e h.0, h.1);
}

Triple-get_file : (fd : ℕ) → Triple P P (get_file fd) (IsOpen fd)
unfolding get_file ◌>>=◌
Triple-get_file fd = record { at = λ s h. go s (lookup fd s.files) refl h }
  where
    go :
        (s : Vfs) (o : Option File)
        → lookup fd s.files ≡ o
        → P s
        → Holds P (IsOpen fd) (get_file fd s)
    go s none e h = rw (e, get_file) h
    go s (some f) e h = rw (e, get_file) (h, e)

-- The file is moved on, and keeps its link.
moved-Covered :
    (fd : ℕ) (f : File) (position : ℕ) (s : Vfs)
    → IsOpen fd f s
    → P (record s { files = insert fd (record f { position = position }) s.files })
moved-Covered fd f position s h = record {
  covered = λ a. ground (
    arith,
    opens-insert_same a fd f (record f { position = position }) s.files h.0.ascending h.1 refl,
    h.0.covered a,
  );
  fresh = h.0.fresh;
  ascending = insert-IsAscending fd (record f { position = position }) s.files h.0.ascending;
}

advance-Covered :
    (fd : ℕ) (f : File) (count : ℕ) → Triple (IsOpen fd f) P (advance fd f count) (λ _. P)
unfolding advance
advance-Covered fd f count =
    Triple-bind {Q = λ _. IsOpen fd f} _ _ (Triple-if _ _ _ (Triple-pure _ λ s h. h) Triple-panics)
      λ position. Triple-modify _ λ s h. moved-Covered fd f position s h

-- A step of the driver.
with_file :
    {A : Type 0} (fd : ℕ) (f : File) (m : Io A)
    → Keeps (IsOpen fd f) m
    → Triple (IsOpen fd f) P m (λ _. IsOpen fd f)
with_file fd f m k = Triple-weaken m (λ s h. h) (λ s h. h.0) (λ a s h. h) k

pub read_fd-Covered : (fd : ℕ) (buffer : Bytes) → Keeps P (read_fd fd buffer)
unfolding read_fd
read_fd-Covered fd buffer = Triple-bind _ _ (Triple-get_file fd) λ f.
    Triple-bind _ _ (with_file fd f _ (Keeps-assert _)) λ _.
      Triple-if _ _ _ (Triple-raise _ λ s h. h.0) (
        Triple-bind _ _ (with_file fd f _ (Keeps-file_system (opening-KeepsWrites fd f) f.node))
          λ m.
            Triple-bind _ _
              (with_file fd f _ (Keeps-read_file (opening-KeepsWrites fd f) m f f.position buffer))
              λ r. Triple-bind _ _ (advance-Covered fd f r.0) λ _. Triple-pure r λ s h. h)

pub write_fd-Covered : (fd : ℕ) (buffer : Bytes) → Keeps P (write_fd fd buffer)
unfolding write_fd
write_fd-Covered fd buffer = Triple-bind _ _ (Triple-get_file fd) λ f.
    Triple-bind _ _ (with_file fd f _ (Keeps-assert _)) λ _.
      Triple-if _ _ _ (Triple-raise _ λ s h. h.0) (
        Triple-bind _ _ (with_file fd f _ (Keeps-file_system (opening-KeepsWrites fd f) f.node))
          λ m.
            Triple-bind _ _
              (with_file fd f _ (Keeps-write_file (opening-KeepsWrites fd f) m f f.position buffer))
              λ k. Triple-bind _ _ (advance-Covered fd f k) λ _. Triple-pure k λ s h. h)

-- The file is gone, and its link is one too many.
pub removed-Covered :
    (fd : ℕ) (f : File) (s : Vfs)
    → IsOpen fd f s
    → Covered (link_at f.node) (record s { files = remove fd s.files })
removed-Covered fd f s h = record {
  covered = λ a. ground (arith, opens-remove a fd f s.files h.1, h.0.covered a);
  fresh = h.0.fresh;
  ascending = remove-IsAscending fd s.files h.0.ascending;
}

pub close-Covered : (fd : ℕ) → Keeps P (close fd)
unfolding close
close-Covered fd = Triple-bind _ _ (Triple-get_file fd) λ f.
    Triple-bind _ _ (with_file fd f _ (Keeps-file_system (opening-KeepsWrites fd f) f.node)) λ m.
      Triple-bind _ _ (with_file fd f _ (Keeps-flush (opening-KeepsWrites fd f) m f)) λ _.
        Triple-bind {Q = λ _. Covered (link_at f.node)} _ _
          (Triple-modify _ λ s h. removed-Covered fd f s h) λ _. decrement-Covered f.node
