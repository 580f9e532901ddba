-- ===== src/Fs/State.antt =====
-- Actions on a state that may return an `IoError` or panic, and the state of the file system layer.
pub mod Keeps
use riptide.Fs.Types.{word_max}
use riptide.Prelude.{
  ℕ, ◌+◌, ◌%◌, ◌^◌, Bool, true, false, Option, none, some, List, [], ◌∷◌, Bytes, if◌then◌else◌, leb,
}
use riptide.BTreeMap.{Map}
use riptide.Fs.Types.{IoError, CharDevice, FileSystemType, NodeCell, File, DirectoryEntry, VfsMount}

-- `VirtualFileSystem`, the registries, the counters behind `MountId::new`, `FileDescriptor::new`
-- and `DirectoryEntryId::new`, and the heap.
pub record Vfs : Type 0 where
  -- `files`
  pub files : Map ℕ File
  -- `mount_table`
  pub mount_table : Map ℕ VfsMount
  -- `directory_cache.table`; a `Weak` is the entry that it points to, dead or alive
  pub table : Map (ℕ × Bytes) DirectoryEntry
  -- `children` of the entry at each address
  pub children : Map ℕ (Map Bytes DirectoryEntry)
  -- the `FsNode` at each address
  pub cells : Map ℕ NodeCell
  -- the entries that callers of the VFS hold
  pub held : List DirectoryEntry
  pub next_address : ℕ
  pub next_fd : ℕ
  pub next_mount_id : ℕ
  pub next_entry_id : ℕ
  -- `FILE_SYSTEM_REGISTRY` and `CHAR_DEVICE_REGISTRY`
  pub file_system_registry : Map Bytes FileSystemType
  pub char_device_registry : Map Bytes CharDevice

-- Before anything is registered or mounted.
abbrev pub boot : Vfs
boot = record {
  files = [];
  mount_table = [];
  table = [];
  children = [];
  cells = [];
  held = [];
  next_address = 0;
  next_fd = 1;
  next_mount_id = 0;
  next_entry_id = 1;
  file_system_registry = [];
  char_device_registry = [];
}

-- A call returns, fails with an `IoError`, or panics, which stops the kernel.
pub data Outcome {ℓ} (A : Type ℓ) : Type ℓ where
  ok : A → Outcome A
  err : IoError → Outcome A
  panic : Outcome A

abbrev pub Act : Type 0 → Type 0 → Type 0
Act S A = S → Outcome A × S

abbrev pub Io : Type 0 → Type 0
Io A = Act Vfs A

module _ {S A : Type 0} where
  pub pure : A → Act S A
  pure a s = (ok a, s)

  pub raise : IoError → Act S A
  raise e s = (err e, s)

  -- `panic!`, `assert!`, `todo!`, `unwrap` and `expect` where they fail
  pub panics : Act S A
  panics s = (panic, s)

  pub gets : (S → A) → Act S A
  gets f s = (ok (f s), s)

  abbrev continue : {B : Type 0} → Outcome A → (A → Act S B) → Act S B
  continue (ok a) f s = f a s
  continue (err e) f s = (err e, s)
  continue panic f s = (panic, s)

pub modify : {S : Type 0} → (S → S) → Act S (Unit {0})
modify f s = (ok tt, f s)

-- To open `◌>>=◌` opens the other actions too.
infixl 5 ◌>>=◌ ◌>>◌
unfoldable pub ◌>>=◌ : {S A B : Type 0} → Act S A → (A → Act S B) → Act S B
unfolding pure raise panics gets modify
◌>>=◌ m f s = let r = m s in continue r.0 f r.1

abbrev pub ◌>>◌ : {S B : Type 0} → Act S (Unit {0}) → Act S B → Act S B
m >> k = m >>= λ _. k

-- `option.ok_or(e)?`
abbrev pub ok_or : {S A : Type 0} → Option A → IoError → Act S A
ok_or none e = raise e
ok_or (some a) e = pure a

-- `option.expect(...)`
abbrev pub expect : {S A : Type 0} → Option A → Act S A
expect none = panics
expect (some a) = pure a

-- A match on an option.
abbrev pub match_option : {S A B : Type 0} → Option A → Act S B → (A → Act S B) → Act S B
match_option none m f = m
match_option (some a) m f = f a

-- `assert!`
abbrev pub assert : {S : Type 0} → Bool → Act S (Unit {0})
assert true = pure tt
assert false = panics

-- `a + b` on `usize`, whose overflow is a panic
abbrev pub add_usize : {S : Type 0} → ℕ → ℕ → Act S ℕ
add_usize a b = if leb (a + b) word_max then pure (a + b) else panics

-- `AtomicU64::fetch_add(1)`, which wraps around
abbrev pub bump : ℕ → ℕ
bump n = (n + 1) % 2 ^ 64
