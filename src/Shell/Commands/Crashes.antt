-- ===== src/Shell/Commands/Crashes.antt =====
-- Where a command stops the kernel (kernel/src/shell/mod.rs): its calls of the VFS are unwrapped.
use riptide.Prelude.{
  ℕ, ◌≤◌, ◌≡◌, refl, ◌∙◌, Bool, true, false, none, some, List, [], ◌∷◌, ◌++◌, Bytes, codes, length,
  ◌==◌, ◌=s=◌, arith, inl, inr, Bool-cases,
}
use riptide.BTreeMap.{values}
use riptide.Fs.Types.{
  IoError, DirectoryEntry, fields, DirectoryIterationEntry, IterationContext, is_directory,
}
use riptide.Fs.Types
use riptide.Fs.Path.{
  from_str, is_ascii, is_absolute, segments_of, split, extend_first, slash, max_path_length,
  FilePath,
}
use riptide.Fs.Path
use riptide.Fs.State.{Vfs, Act, ok, err, panic, Io, raise, modify, ◌>>=◌}
use riptide.Fs.State.Keeps.{bind-ok, pure_lem}
use riptide.Fs.Types.{is_mutating}
use riptide.Fs.Resolve.{resolve_path, parse_absolute, check_parsed}
use riptide.Fs.Directories.{stat, create_directory, read_directory, hold}
use riptide.Fs.Files.{open_path, open_existing}
use riptide.Shell.Console.{Console, unwrapped, attempt, on_vfs}
use riptide.Shell.Console.Format.{Texts}
use riptide.Shell.Commands.{
  list_child, list_children, list_entry, list_found, ls, child_path, mkdir, mkdir_path, cat,
  cat_path,
}
use riptide.Shell.Commands.Options.{is_flag, without_flags, has_boolean_option}

not_root :
    (c : ℕ) (pieces : List Bytes)
    → (c == slash) ≡ false
    → is_absolute (record { segments = extend_first c pieces }) ≡ false
unfolding is_absolute ◌=s=◌
not_root c [] h = ground (arith, h)
not_root c (p ∷ ps) h = ground (arith, h)

from_str-relative :
    (c : ℕ) (rest : Bytes)
    → (c == slash) ≡ false
    → is_ascii (c ∷ rest) ≡ true
    → length (c ∷ rest) ≤ max_path_length
    → from_str (c ∷ rest) ≡ Path.ok (record { segments = extend_first c (split rest) })
unfolding from_str segments_of split
from_str-relative c rest h ascii short = ground (arith, h, ascii, short)

-- Relative paths are not implemented.
pub resolve_path-relative :
    (c : ℕ) (rest : Bytes) (s : Vfs)
    → (c == slash) ≡ false
    → is_ascii (c ∷ rest) ≡ true
    → length (c ∷ rest) ≤ max_path_length
    → resolve_path (c ∷ rest) s ≡ (panic, s)
unfolding resolve_path parse_absolute check_parsed ◌>>=◌
resolve_path-relative c rest s h ascii short =
    rw (from_str-relative c rest h ascii short) (rw (not_root c (split rest) h) refl)

unwrapped_panic :
    {A : Type 0} (m : Io A) (s : Console) (v : Vfs)
    → m s.vfs ≡ (panic, v)
    → unwrapped m s ≡ (panic, record s { vfs = v })
unfolding unwrapped
unwrapped_panic m s v e = rw e refl

unwrapped_err :
    {A : Type 0} (m : Io A) (s : Console) (x : IoError) (v : Vfs)
    → m s.vfs ≡ (err x, v)
    → unwrapped m s ≡ (panic, record s { vfs = v })
unfolding unwrapped
unwrapped_err m s x v e = rw e refl

unwrapped_ok :
    {A : Type 0} (m : Io A) (s : Console) (v : Vfs) (a : A)
    → m s.vfs ≡ (ok a, v)
    → unwrapped m s ≡ (ok a, record s { vfs = v })
unfolding unwrapped
unwrapped_ok m s v a e = rw e refl

attempt_ok :
    {A : Type 0} (m : Io A) (s : Console) (v : Vfs) (a : A)
    → m s.vfs ≡ (ok a, v)
    → attempt m s ≡ (ok (inl a), record s { vfs = v })
unfolding attempt
attempt_ok m s v a e = rw e refl

on_vfs-hold :
    (e : DirectoryEntry) (s : Console) (v : Vfs)
    → on_vfs (modify (hold e)) (record s { vfs = v }) ≡ (ok tt, record s { vfs = hold e v })
unfolding on_vfs ◌>>=◌
on_vfs-hold e s v = refl

bind_panic :
    {S A B : Type 0} (m : Act S A) (f : A → Act S B) (s t : S)
    → m s ≡ (panic, t)
    → (m >>= f) s ≡ (panic, t)
unfolding ◌>>=◌
bind_panic m f s t e = rw e refl

bind_err :
    {S A B : Type 0} (m : Act S A) (f : A → Act S B) (s t : S) (x : IoError)
    → m s ≡ (err x, t)
    → (m >>= f) s ≡ (err x, t)
unfolding ◌>>=◌
bind_err m f s t x e = rw e refl

-- A child of a directory other than the root.
list_child-panics :
    (ids : Bool) (e : DirectoryEntry) (child : DirectoryIterationEntry) (c : ℕ) (name : Bytes)
    (s : Console)
    → (fields e).name ≡ c ∷ name
    → (c == slash) ≡ false
    → is_ascii (c ∷ name ++ codes "/" ++ child.name) ≡ true
    → length (c ∷ name ++ codes "/" ++ child.name) ≤ max_path_length
    → list_child true ids e child s ≡ (panic, s)
unfolding list_child stat
list_child-panics ids e child c name s named h ascii short =
    let path : child_path e child.name ≡ c ∷ name ++ codes "/" ++ child.name =
      unfold ◌=s=◌ in rw named (ground (arith, h)) in
    rw path (
      bind_panic (unwrapped (stat (c ∷ name ++ codes "/" ++ child.name))) _ s s (
        unwrapped_panic (stat (c ∷ name ++ codes "/" ++ child.name)) s s.vfs (
          bind_panic (resolve_path (c ∷ name ++ codes "/" ++ child.name)) _ s.vfs s.vfs
            (resolve_path-relative c (name ++ codes "/" ++ child.name) s.vfs h ascii short))))

-- What `ls -l` is given.
abbrev pub long_listing : Bytes → List Bytes
long_listing path = codes "-l" ∷ path ∷ []

-- The flag is `l`, and no other.
only_long :
    (path : Bytes) (flag : ℕ) (s : Console)
    → is_flag path ≡ false
    → has_boolean_option (long_listing path) flag s ≡ (ok (b'l' == flag), s)
unfolding has_boolean_option
only_long path flag s plain = elim (Bool-cases (b'l' == flag)) [
  | inl e ↦ rw e (pure_lem true s)
  | inr e ↦ rw (e, plain) (pure_lem false s)
]

-- `ls -l` of a directory with a child, once the entry is found.
list_entry-panics :
    (path : Bytes) (e : DirectoryEntry) (child : DirectoryIterationEntry)
    (rest : List DirectoryIterationEntry) (entries : IterationContext) (c : ℕ) (name : Bytes)
    (s : Console) (v : Vfs)
    → is_directory (fields e).node ≡ true
    → read_directory path s.vfs ≡ (ok entries, v)
    → values entries ≡ child ∷ rest
    → list_child true false e child (record s { vfs = v }) ≡ (panic, record s { vfs = v })
    → list_entry true false path e s ≡ (panic, record s { vfs = v })
unfolding list_entry list_children
list_entry-panics path e child rest entries c name s v dir listed some_child crash = rw dir (
    bind-ok (unwrapped (read_directory path)) _ s
      (unwrapped_ok (read_directory path) s v entries listed)
    ∙ rw some_child (bind_panic (list_child true false e child) _ (record s { vfs = v }) _ crash))

-- `ls -l` of a path, not a flag, at which there is a directory with children, and with another name
-- than the root's, stops the kernel at the first child: the child's path is made of the directory's
-- name and not of its path, so that it is relative. For names that are ASCII and not too long.
pub ls_long-panics :
    (path : Bytes) (e : DirectoryEntry) (child : DirectoryIterationEntry)
    (rest : List DirectoryIterationEntry) (entries : IterationContext) (c : ℕ) (name : Bytes)
    (s : Console) (v v2 : Vfs)
    → is_flag path ≡ false
    → stat path s.vfs ≡ (ok e, v)
    → is_directory (fields e).node ≡ true
    → read_directory path (hold e v) ≡ (ok entries, v2)
    → values entries ≡ child ∷ rest
    → (fields e).name ≡ c ∷ name
    → (c == slash) ≡ false
    → is_ascii (c ∷ name ++ codes "/" ++ child.name) ≡ true
    → length (c ∷ name ++ codes "/" ++ child.name) ≤ max_path_length
    → ls (long_listing path) s ≡ (panic, record s { vfs = v2 })
unfolding ls list_found without_flags attempt on_vfs
ls_long-panics path e child rest entries c name s v v2 plain found dir listed some_child named h
      ascii short =
    let held : Console = record s { vfs = hold e v } in
    let crash =
      list_child-panics false e child c name (record s { vfs = v2 }) named h ascii short in
    rw plain (
      bind-ok (has_boolean_option (long_listing path) b'a') _ s (only_long path b'a' s plain)
      ∙ bind-ok (has_boolean_option (long_listing path) b'l') _ s (only_long path b'l' s plain)
      ∙ bind-ok (has_boolean_option (long_listing path) b'h') _ s (only_long path b'h' s plain)
      ∙ bind-ok (has_boolean_option (long_listing path) b'i') _ s (only_long path b'i' s plain)
      ∙ bind-ok (attempt (stat path)) _ s (attempt_ok (stat path) s v e found)
      ∙ bind-ok (on_vfs (modify (hold e))) _ (record s { vfs = v }) (on_vfs-hold e s v)
      ∙ bind_panic (list_entry true false path e) _ held _
          (list_entry-panics path e child rest entries c name held v2 dir listed some_child crash))

raise_lem : {S A : Type 0} (x : IoError) (s : S) → raise {A = A} x s ≡ (err x, s)
unfolding ◌>>=◌
raise_lem x s = refl

create_directory-existing :
    (path : Bytes) (s v : Vfs) (e : DirectoryEntry)
    → resolve_path path s ≡ (ok (some e), v)
    → create_directory path s ≡ (err Types.already_exists, v)
unfolding create_directory
create_directory-existing path s v e found =
    bind-ok (resolve_path path) _ s found ∙ raise_lem Types.already_exists v

open_path-missing :
    (path : Bytes) (s v : Vfs)
    → resolve_path path s ≡ (ok none, v)
    → open_path path Types.read s ≡ (err Types.entry_not_found, v)
unfolding open_path open_existing is_mutating
open_path-missing path s v missing =
    bind_err (open_existing path) _ s v Types.entry_not_found
      (bind-ok (resolve_path path) _ s missing ∙ raise_lem Types.entry_not_found v)

-- `mkdir` of a path that is there stops the kernel.
pub mkdir-existing :
    (path : Bytes) (s : Console) (e : DirectoryEntry) (v : Vfs)
    → is_flag path ≡ false
    → resolve_path path s.vfs ≡ (ok (some e), v)
    → mkdir (path ∷ []) s ≡ (panic, record s { vfs = v })
unfolding mkdir without_flags mkdir_path
mkdir-existing path s e v plain found = rw plain (
    bind_panic (unwrapped (create_directory path)) _ s _ (
      unwrapped_err (create_directory path) s Types.already_exists v
        (create_directory-existing path s.vfs v e found)))

-- `cat` of a path that is not there stops the kernel.
pub cat-missing :
    (T : Texts) (path : Bytes) (args : List Bytes) (s : Console) (v : Vfs)
    → resolve_path path s.vfs ≡ (ok none, v)
    → cat T (path ∷ args) s ≡ (panic, record s { vfs = v })
unfolding cat cat_path
cat-missing T path args s v missing = bind_panic (unwrapped (open_path path Types.read)) _ s _ (
    unwrapped_err (open_path path Types.read) s Types.entry_not_found v
      (open_path-missing path s.vfs v missing))
