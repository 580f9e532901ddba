-- ===== src/Fs/Init/Keeps.antt =====
-- The start of the file layer keeps what its writes keep.
use riptide.Prelude.{Bytes}
use riptide.BTreeMap.{Map}
use riptide.BTreeMap.Keys.{bytes_key}
use riptide.Fs.Types.{CharDevice, null_device, zero_device, FileSystemType, ram, dev}
use riptide.Fs.Registry.{and_then, register_char_device, register_file_system}
use riptide.Fs.Init.{expected, expected_registered}
use riptide.Fs.State.{Vfs, Io, Outcome, ok, err, panic}
use riptide.Fs.State.Keeps.{Keeps, Holds, Keeps-bind}
use riptide.Fs.Registry.{
  Registered, registered, name_conflict, init_char_devices, init_file_systems,
}
use riptide.Fs.Init.{expect_ok, expect_registered, init_vfs, init_fs, start}
use riptide.Fs.Calls.Keeps.{CallsKept}
use riptide.Fs.Calls.MountKeeps.{Keeps-mount, Keeps-create_root}

module _ {A : Type 0} {P : Vfs → Type 0} where
  Keeps-expect_ok : (m : Io A) → Keeps P m → Keeps P (expect_ok m)
  unfolding expect_ok
  Keeps-expect_ok m k = record { at = λ s h. go (m s) (k.at s h) }
    where
      go : (r : Outcome A × Vfs) → Holds P (λ _. P) r → Holds P (λ _. P) (expected r)
      go (ok a, s) h = h
      go (err e, s) h = tt
      go (panic, s) h = tt

module _ {P : Vfs → Type 0} where
  Keeps-expect_registered :
      (f : Vfs → Registered × Vfs) → ((s : Vfs) → P s → P (f s).1) → Keeps P (expect_registered f)
  unfolding expect_registered
  Keeps-expect_registered f k = record { at = λ s h. go (f s) (k s h) }
    where
      go : (r : Registered × Vfs) → P r.1 → Holds P (λ _. P) (expected_registered r)
      go (registered, s) h = h
      go (name_conflict, s) h = tt

module _ {P : Vfs → Type 0}
    (registries : (fs : Map Bytes FileSystemType) (ds : Map Bytes CharDevice) (s : Vfs)
      → P s
      → P (record s { file_system_registry = fs; char_device_registry = ds })) where
  keeps_and_then :
      (r : Registered × Vfs) (f : Vfs → Registered × Vfs)
      → P r.1
      → ((t : Vfs) → P t → P (f t).1)
      → P (and_then r f).1
  keeps_and_then (registered, s) f h kf = kf s h
  keeps_and_then (name_conflict, s) f h kf = h

  keeps_char_device : (d : CharDevice) (s : Vfs) → P s → P (register_char_device d s).1
  unfolding register_char_device
  keeps_char_device d s h = registries _ _ s h

  file_system_kept : (fs : FileSystemType) (s : Vfs) → P s → P (register_file_system fs s).1
  unfolding register_file_system
  file_system_kept fs s h = registries _ _ s h

  keeps_char_devices : (s : Vfs) → P s → P (init_char_devices s).1
  unfolding init_char_devices
  keeps_char_devices s h =
      keeps_and_then (register_char_device null_device s) (register_char_device zero_device)
        (keeps_char_device null_device s h) (keeps_char_device zero_device)

  keeps_file_systems : (s : Vfs) → P s → P (init_file_systems s).1
  unfolding init_file_systems
  keeps_file_systems s h =
      keeps_and_then (register_file_system ram s) (register_file_system dev)
        (file_system_kept ram s h) (file_system_kept dev)

  pub Keeps-char_devices : Keeps P (expect_registered init_char_devices)
  Keeps-char_devices = Keeps-expect_registered init_char_devices keeps_char_devices

  pub Keeps-file_systems : Keeps P (expect_registered init_file_systems)
  Keeps-file_systems = Keeps-expect_registered init_file_systems keeps_file_systems

module _ {P : Vfs → Type 0} (k : CallsKept P) where
  Keeps-init_vfs : Keeps P init_vfs
  unfolding init_vfs
  Keeps-init_vfs = Keeps-bind _ _ (Keeps-expect_ok _ (Keeps-create_root k.mounts)) λ root.
      Keeps-bind _ _ (Keeps-expect_ok _ (Keeps-mount k.mounts _ _ _ _)) λ mounted.
        Keeps-bind _ _ (Keeps-expect_ok _ (k.opening _ _)) λ f.
          Keeps-bind _ _ (Keeps-expect_ok _ (k.writing f _)) λ n. Keeps-expect_ok _ (k.closing f)

  pub Keeps-start : Keeps P start
  unfolding start init_fs
  Keeps-start =
      Keeps-bind _ _ (Keeps-char_devices k.registries)
        λ _. Keeps-bind _ _ (Keeps-file_systems k.registries) λ _. Keeps-init_vfs
