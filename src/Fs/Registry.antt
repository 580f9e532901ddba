-- ===== src/Fs/Registry.antt =====
-- The tables of file system types (kernel/src/fs/registry.rs) and of character devices
-- (kernel/src/device/char.rs), and what kernel/src/drivers registers in them.
pub mod Names
use riptide.BTreeMap.Keys.{bytes_key}
use riptide.Prelude.{
  Bool, true, false, Option, none, some, List, [], ◌∷◌, Bytes, codes, if◌then◌else◌,
}
use riptide.BTreeMap.{Map, lookup, insert, values}
use riptide.Fs.Types.{CharDevice, null_device, zero_device, FileSystemType, ram, dev}
use riptide.Fs.State.{Vfs}

-- `FileSystemType::metadata().name`
abbrev pub type_name : FileSystemType → Bytes
type_name ram = codes "ramfs"
type_name dev = codes "devfs"

-- `CharDevice::metadata().name`
abbrev pub device_name : CharDevice → Bytes
device_name null_device = codes "null"
device_name zero_device = codes "zero"

-- `Result<(), FileSystemRegistrationError>`, `Result<(), CharDeviceRegistrationError>`
pub data Registered : Type 0 where
  registered name_conflict : Registered

-- `registry.contains_key`
abbrev pub is_some : {A : Type 0} → Option A → Bool
is_some none = false
is_some (some a) = true

-- The two register functions have one body, over their own table.
unfoldable pub register : {A : Type 0} → (A → Bytes) → A → Map Bytes A → Registered × Map Bytes A
register name a registry =
    if is_some (lookup (name a) registry)
    then (name_conflict, registry)
    else (registered, insert (name a) a registry)

-- `register_file_system`
unfoldable pub register_file_system : FileSystemType → Vfs → Registered × Vfs
unfolding register
register_file_system fs s =
    let (r, m) = register type_name fs s.file_system_registry in
    (r, record s { file_system_registry = m })

-- `find_file_system_type`
unfoldable pub find_file_system_type : Bytes → Vfs → Option FileSystemType
find_file_system_type name s = lookup name s.file_system_registry

-- `register_char_device`
unfoldable pub register_char_device : CharDevice → Vfs → Registered × Vfs
unfolding register
register_char_device d s =
    let (r, m) = register device_name d s.char_device_registry in
    (r, record s { char_device_registry = m })

-- `list_char_devices`
unfoldable pub list_char_devices : Vfs → List CharDevice
list_char_devices s = values s.char_device_registry

-- `get_char_device`
unfoldable pub get_char_device : Bytes → Vfs → Option CharDevice
get_char_device name s = lookup name s.char_device_registry

-- A second step that runs only if the first registered something.
abbrev pub and_then : Registered × Vfs → (Vfs → Registered × Vfs) → Registered × Vfs
and_then (registered, s) f = f s
and_then (name_conflict, s) f = (name_conflict, s)

-- `drivers::char::init`
unfoldable pub init_char_devices : Vfs → Registered × Vfs
unfolding register_char_device
init_char_devices s =
    and_then (register_char_device null_device s) (λ t. register_char_device zero_device t)

-- `drivers::fs::init`
unfoldable pub init_file_systems : Vfs → Registered × Vfs
unfolding register_file_system
init_file_systems s = and_then (register_file_system ram s) (λ t. register_file_system dev t)
