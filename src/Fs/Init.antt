-- ===== src/Fs/Init.antt =====
-- The start of the file layer: `drivers::char::init`, `fs::init` and `vfs::init`.
pub mod Keeps
use riptide.Prelude.{some, Bytes, codes}
use riptide.Fs.Types.{write}
use riptide.Fs.State.{Vfs, Io, Outcome, ok, err, panic, pure, panics, gets, modify, ◌>>=◌, ◌>>◌}
use riptide.Fs.Registry.{
  Registered, registered, name_conflict, init_char_devices, init_file_systems,
}
use riptide.Fs.Mount.{mount, create_root, read_write}
use riptide.Fs.Files.{open_path, write_fd, close}

-- `result.expect(...)`
abbrev pub expected : {A : Type 0} → Outcome A × Vfs → Outcome A × Vfs
expected (ok a, s) = (ok a, s)
expected (err e, s) = (panic, s)
expected (panic, s) = (panic, s)

unfoldable pub expect_ok : {A : Type 0} → Io A → Io A
expect_ok m s = expected (m s)

abbrev pub expected_registered : Registered × Vfs → Outcome (Unit {0}) × Vfs
expected_registered (registered, s) = (ok tt, s)
expected_registered (name_conflict, s) = (panic, s)

unfoldable pub expect_registered : (Vfs → Registered × Vfs) → Io (Unit {0})
expect_registered f s = expected_registered (f s)

-- `vfs::init`, after `VFS.get_or_init`
unfoldable pub init_vfs : Io (Unit {0})
unfolding expect_ok
init_vfs = do
  root ← expect_ok create_root
  dev ← expect_ok (mount (codes "") (codes "/dev") (some (codes "devfs")) read_write)
  f ← expect_ok (open_path (codes "/test.txt") write)
  n ← expect_ok (write_fd f (codes "Hello, world!"))
  expect_ok (close f)

-- `fs::init`
unfoldable pub init_fs : Io (Unit {0})
unfolding init_vfs expect_registered
init_fs = do expect_registered init_file_systems; init_vfs

-- What `kernel_main` runs of the file layer: `drivers::char::init`, then `fs::init`.
unfoldable pub start : Io (Unit {0})
unfolding init_fs
start = do expect_registered init_char_devices; init_fs
