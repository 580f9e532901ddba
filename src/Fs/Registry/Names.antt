-- ===== src/Fs/Registry/Names.antt =====
-- Names in the registries (kernel/src/fs/registry.rs, kernel/src/device/char.rs).
use riptide.Prelude.{◌≡◌, Option, none, some, Bytes, arith, if◌then◌else◌}
use riptide.BTreeMap.{Map, lookup, lookup-insert, key_eq}
use riptide.BTreeMap.Keys.{bytes_key}
use riptide.Fs.Registry.{register}

abbrev pub or_else : {A : Type 0} → Option A → Option A → Option A
or_else none b = b
or_else (some a) b = some a

-- What a name stands for after a registration: what it stood for before, if it did; else what is
-- registered, if that has the name. So a registration never replaces an entry, and its own name is
-- taken afterwards.
pub lookup-register :
    {A : Type 0} (name : A → Bytes) (a : A) (registry : Map Bytes A) (n : Bytes)
    → lookup n (register name a registry).1
      ≡ or_else (lookup n registry) (if key_eq n (name a) then some a else none)
unfolding register
lookup-register name a registry n =
    ground (arith, lookup-insert n (name a) a registry, bytes_key.cmp_eq n (name a))
