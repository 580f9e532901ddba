-- ===== src/Fs/Calls/Reserved.antt =====
-- Each call of the VFS takes one descriptor at most, and the start of the file layer takes one.
use riptide.Prelude.{
  ℕ, suc, ◌+◌, ◌≡◌, List, [], ◌∷◌, length, arith, Bool, true, false, if◌then◌else◌,
}
use riptide.BTreeMap.{Map, values}
use riptide.BTreeMap.Keys.{nat_key, pair_key}
use riptide.Fs.Types.{File, DirectoryEntry}
use riptide.Fs.State.{Vfs, Io, Outcome, ok, err, panic, ◌>>=◌, pure}
use riptide.Fs.State.Keeps.{
  Holds, Keeps, Triple, Triple-bind, Triple-pure, Triple-weaken, Keeps-bind,
}
use riptide.Fs.Cache.{prune_entries, prune_children, drop_dead, is_live}
use riptide.Fs.Files.Table.{HasTable, table-KeepsCached, after_insert-HasTable}
use riptide.Fs.Calls.{
  Call, run, serve, resume, mount, open_file, close_file, read, write, read_directory,
  create_directory, stat, prune, release,
}
use riptide.Fs.Cache
use riptide.Fs.Calls.Writes.{KeepsDirectories}
use riptide.Fs.Calls.DirectoryKeeps.{
  Keeps-read_directory, Keeps-create_directory, Keeps-stat, Keeps-hold, Keeps-release, Keeps-prune,
}
use riptide.Fs.Calls.MountKeeps.{KeepsMounts, Keeps-mount, Keeps-create_root}
use riptide.Fs.Init.{expect_ok, expected, start, init_fs, init_vfs}
use riptide.Fs.Init.Keeps.{Keeps-char_devices, Keeps-file_systems}
use riptide.Fs.Calls.Descriptors.{
  Below, weaker, Keeps-Below, open_path-Below, read_fd-Below, write_fd-Below, close-Below,
}

prune_entries-HasTable :
    (files : Map ℕ File) (n : ℕ) (es : List DirectoryEntry) (s : Vfs)
    → HasTable files n s
    → HasTable files n (prune_entries [] es s)
unfolding prune_entries
prune_entries-HasTable files n [] s h = h
prune_entries-HasTable files n (e ∷ es) s h =
    prune_entries-HasTable files n es _ (one (is_live [] s e))
  where
    one : (b : Bool) → HasTable files n (if b then prune_children [] e s else s)
    one true = h
    one false = h

module _ {files : Map ℕ File} {n : ℕ} where
  table-KeepsDirectories : KeepsDirectories (HasTable files n)
  unfolding Cache.prune
  table-KeepsDirectories = record {
    entries = table-KeepsCached;
    callers = λ es s h. h;
    pruned =
        λ s h. prune_entries-HasTable files n (values (drop_dead [] s).table) (drop_dead [] s) h;
  }

  table-KeepsMounts : KeepsMounts (HasTable files n)
  table-KeepsMounts = record {
    entries = table-KeepsCached;
    mount_counter = λ k s h. h;
    mount_in = λ m s h e. h;
    root_entry = λ node s h e. after_insert-HasTable _ s h;
  }

module _ {A : Type 0} {R P : Vfs → Type 0} where
  -- The end of a call: its result is dropped.
  finished : (m : Io A) → Triple R P m (λ _. P) → Triple R P (m >>= λ _. pure tt) (λ _. P)
  finished m t = Triple-bind m (λ _. pure tt) t λ a. Triple-pure tt λ s h. h

module _ (k : ℕ) where
  directories_kept : (files : Map ℕ File) (n : ℕ) → KeepsDirectories (HasTable files n)
  directories_kept files n = table-KeepsDirectories

  Keeps-quiet :
      {A : Type 0} (m : Io A)
      → ((files : Map ℕ File) (n : ℕ) → Keeps (HasTable files n) m)
      → Triple (Below (suc k)) (Below k) m (λ _. Below k)
  Keeps-quiet m f = Triple-weaken m (weaker k) (λ s h. h) (λ a s h. h) (Keeps-Below k m f)

  run-Below : (c : Call) → Triple (Below (suc k)) (Below k) (run c) (λ _. Below k)
  unfolding run
  run-Below (mount source target kind flags) =
      finished _ (Keeps-quiet _ λ files n. Keeps-mount table-KeepsMounts source target kind flags)
  run-Below (open_file path mode) =
      finished _ (Triple-weaken _ (λ s h. h) (weaker k) (λ a s h. h) (open_path-Below k path mode))
  run-Below (close_file fd) = Triple-weaken _ (weaker k) (λ s h. h) (λ a s h. h) (close-Below k fd)
  run-Below (read fd buffer) =
      finished _ (Triple-weaken _ (weaker k) (λ s h. h) (λ a s h. h) (read_fd-Below k fd buffer))
  run-Below (write fd buffer) =
      finished _ (Triple-weaken _ (weaker k) (λ s h. h) (λ a s h. h) (write_fd-Below k fd buffer))
  run-Below (read_directory path) =
      finished _ (Keeps-quiet _ λ files n. Keeps-read_directory table-KeepsDirectories path)
  run-Below (create_directory path) = Keeps-quiet _ λ files n.
      Keeps-bind _ _ (Keeps-create_directory table-KeepsDirectories path)
        λ e. Keeps-hold table-KeepsDirectories e
  run-Below (stat path) = Keeps-quiet _ λ files n.
      Keeps-bind _ _ (Keeps-stat table-KeepsDirectories path)
        λ e. Keeps-hold table-KeepsDirectories e
  run-Below prune = Keeps-quiet _ λ files n. Keeps-prune table-KeepsDirectories
  run-Below (release e) = Keeps-quiet _ λ files n. Keeps-release table-KeepsDirectories e

-- `k` and one for each call.
abbrev pub and_calls : ℕ → List Call → ℕ
and_calls k [] = k
and_calls k (c ∷ cs) = suc (and_calls k cs)

pub and_calls_lem : (k : ℕ) (cs : List Call) → and_calls k cs ≡ length cs + k
and_calls_lem k [] = omega arith
and_calls_lem k (c ∷ cs) = omega (arith, and_calls_lem k cs)

pub serve-Below :
    (k : ℕ) (cs : List Call) → Triple (Below (and_calls k cs)) (Below k) (serve cs) (λ _. Below k)
unfolding serve
serve-Below k [] = record { at = λ s h. h }
serve-Below k (c ∷ cs) = record {
  at = λ s h. go (run c s) ((run-Below (and_calls k cs) c).at s h) (serve-Below k cs);
}
  where
    go :
        (r : Outcome (Unit {0}) × Vfs)
        → Holds (Below (and_calls k cs)) (λ _. Below (and_calls k cs)) r
        → Triple (Below (and_calls k cs)) (Below k) (serve cs) (λ _. Below k)
        → Holds (Below k) (λ _. Below k) (resume r (serve cs))
    go (ok a, s) h t = t.at s h
    go (err e, s) h t = t.at s h
    go (panic, s) h t = tt

module _ {A : Type 0} {R P P2 : Vfs → Type 0} {Q : A → Vfs → Type 0} where
  -- No error comes out of an `expect`.
  Triple-expect_ok : (m : Io A) → Triple R P m Q → Triple R P2 (expect_ok m) Q
  unfolding expect_ok
  Triple-expect_ok m t = record { at = λ s h. go (m s) (t.at s h) }
    where
      go : (r : Outcome A × Vfs) → Holds P Q r → Holds P2 Q (expected r)
      go (ok a, s) h = h
      go (err e, s) h = tt
      go (panic, s) h = tt

-- The start takes one descriptor, for `/test.txt`.
pub start-Below : (k : ℕ) → Triple (Below (suc k)) (Below k) start (λ _. Below k)
unfolding start init_fs init_vfs
start-Below k = Triple-bind _ _ (early _ λ files n. Keeps-char_devices λ r t s h. h) λ _.
    Triple-bind _ _ (early _ λ files n. Keeps-file_systems λ r t s h. h) λ _.
      Triple-bind _ _ (early_expect _ λ files n. Keeps-create_root table-KeepsMounts) λ root.
        Triple-bind _ _ (early_expect _ λ files n. Keeps-mount table-KeepsMounts _ _ _ _) λ dev.
          Triple-bind _ _ (Triple-expect_ok _ (open_path-Below k _ _)) λ f.
            Triple-bind _ _ (Triple-expect_ok _ (write_fd-Below k f _))
              λ n. Triple-expect_ok _ (close-Below k f)
  where
    early :
        {A : Type 0} (m : Io A)
        → ((files : Map ℕ File) (n : ℕ) → Keeps (HasTable files n) m)
        → Triple (Below (suc k)) (Below k) m (λ _. Below (suc k))
    early m f = Triple-weaken m (λ s h. h) (weaker k) (λ a s h. h) (Keeps-Below (suc k) m f)

    early_expect :
        {A : Type 0} (m : Io A)
        → ((files : Map ℕ File) (n : ℕ) → Keeps (HasTable files n) m)
        → Triple (Below (suc k)) (Below k) (expect_ok m) (λ _. Below (suc k))
    early_expect m f = Triple-expect_ok m (Keeps-Below (suc k) m f)
