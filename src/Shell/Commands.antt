-- ===== src/Shell/Commands.antt =====
-- `parse_and_execute` (kernel/src/shell/mod.rs): the commands of the shell.
pub mod Options
pub mod Echo
pub mod Crashes
mod Tests
pub mod Descriptors
pub mod Parsing
pub mod Flags
use riptide.Prelude.{
  ℕ, suc, ◌+◌, ◌-◌, Bool, true, false, not, Option, none, some, List, [], ◌∷◌, ◌++◌, Bytes, codes,
  ◌=s=◌, ◌||◌, ◌⊎◌, inl, inr, length, ltb, take, replicate, if◌then◌else◌,
}
use riptide.BTreeMap.{values}
use riptide.Fs.Types.{
  IoError, entry_not_found, DirectoryEntry, fields, DirectoryIterationEntry, is_directory,
  IterationContext,
}
use riptide.Fs.Types
use riptide.Fs.State.{Vfs, Act, Io, pure, panics, gets, modify, ◌>>=◌, ◌>>◌, match_option, expect}
use riptide.Fs.Files.{open_path, close, read_fd}
use riptide.Fs.Directories.{read_directory, create_directory, stat, hold, release}
use riptide.Vga.{light_gray, on_black}
use riptide.Shell.Parser.{Parser, collect}
use riptide.Shell.Parser
use riptide.Shell.Console.{
  Console, on_writer, on_vfs, attempt, unwrapped, print, println, println_in, iteration_entry,
  format_entry_short, format_entry_long,
}
use riptide.Shell.Console.Format.{Texts, debug_list}
use Options.{without_flags, has_boolean_option}

-- The loop of `echo`; `i` is the index of the first argument that is left.
unfoldable pub echo_args : ℕ → ℕ → List Bytes → Act Console (Unit {0})
unfolding print
echo_args len i [] = pure tt
echo_args len i (arg ∷ args) = do
  print arg
  if ltb i (len - 1) then print (codes " ") else pure tt
  echo_args len (i + 1) args

unfoldable pub echo : List Bytes → Act Console (Unit {0})
unfolding echo_args println
echo args = do echo_args (length args) 0 args; println []

-- `CARGO_PKG_VERSION`, from kernel/Cargo.toml
abbrev pub version : Bytes
version = codes "0.1.0"

abbrev pub is_dash_a : List Bytes → Bool
is_dash_a [] = false
is_dash_a (arg ∷ args) = arg =s= codes "-a"

unfoldable pub uname : List Bytes → Act Console (Unit {0})
unfolding print println
uname args = do
  print (codes "Riptide")
  if is_dash_a args then print (codes " riptide " ++ version ++ codes " x86_64") else pure tt
  println []

-- The path of a child of the entry that is listed.
abbrev pub child_path : DirectoryEntry → Bytes → Bytes
child_path e name =
    if (fields e).name =s= codes "/"
    then codes "/" ++ name
    else (fields e).name ++ codes "/" ++ name

-- One child of `ls`; the entry that `stat` returns is dropped at the end.
unfoldable pub list_child :
    Bool → Bool → DirectoryEntry → DirectoryIterationEntry → Act Console (Unit {0})
unfolding unwrapped on_vfs
list_child long ids e child =
    if long
    then (do
      c ← unwrapped (stat (child_path e child.name))
      on_vfs (modify (hold c))
      format_entry_long ids c
      on_vfs (modify (release c)))
    else format_entry_short ids child

unfoldable pub list_children :
    Bool → Bool → DirectoryEntry → List DirectoryIterationEntry → Act Console (Unit {0})
list_children long ids e [] = pure tt
list_children long ids e (child ∷ rest) = do
  list_child long ids e child
  list_children long ids e rest

-- `ls` on an entry that is there.
unfoldable pub list_entry : Bool → Bool → Bytes → DirectoryEntry → Act Console (Unit {0})
unfolding unwrapped iteration_entry
list_entry long ids path e =
    if is_directory (fields e).node
    then (do entries ← unwrapped (read_directory path); list_children long ids e (values entries))
    else if long
    then format_entry_long ids e
    else format_entry_short ids (iteration_entry e)

-- The last of the arguments that are no flags.
abbrev pub last : List Bytes → Option Bytes
last [] = none
last (arg ∷ []) = some arg
last (arg ∷ b ∷ args) = last (b ∷ args)

abbrev pub or_root : Option Bytes → Bytes
or_root none = codes "/"
or_root (some path) = path

-- What `ls` does with the result of `stat`.
unfoldable pub list_found : Bool → Bool → Bytes → DirectoryEntry ⊎ IoError → Act Console (Unit {0})
unfolding list_entry println on_vfs
list_found long ids path (inl e) = do
  on_vfs (modify (hold e))
  list_entry long ids path e
  on_vfs (modify (release e))
list_found long ids path (inr entry_not_found) =
    println (codes "ls: " ++ path ++ codes ": No such file or directory")
list_found long ids path (inr _) = panics

unfoldable pub ls : List Bytes → Act Console (Unit {0})
unfolding list_found attempt
ls args = do
  let path = or_root (last (without_flags args))
  all ← has_boolean_option args b'a'
  long ← has_boolean_option args b'l'
  human_readable ← has_boolean_option args b'h'
  show_node_ids ← has_boolean_option args b'i'
  found ← attempt (stat path)
  list_found long show_node_ids path found

abbrev pub front : List Bytes → Option Bytes
front [] = none
front (arg ∷ args) = some arg

module _ (T : Texts) where
  -- `cat` with a path; the file stays open
  unfoldable pub cat_path : Bytes → Act Console (Unit {0})
  unfolding unwrapped println
  cat_path path = do
    f ← unwrapped (open_path path Types.read)
    result ← unwrapped (read_fd f (replicate 512 0))
    println (T.from_utf8_lossy (take result.0 result.1))

abbrev pub no_path : Bytes
no_path = codes "error: no path provided"

unfoldable pub cat : Texts → List Bytes → Act Console (Unit {0})
unfolding cat_path println
cat T args = match_option (front args) (println no_path) (cat_path T)

unfoldable pub touch_path : Bytes → Act Console (Unit {0})
unfolding unwrapped
touch_path path = do f ← unwrapped (open_path path Types.write); unwrapped (close f)

unfoldable pub touch : List Bytes → Act Console (Unit {0})
unfolding touch_path println
touch args = match_option (front args) (println no_path) touch_path

-- The entry that `create_directory` returns is dropped at once.
unfoldable pub mkdir_path : Bytes → Act Console (Unit {0})
unfolding unwrapped
mkdir_path path = do e ← unwrapped (create_directory path); pure tt

unfoldable pub mkdir : List Bytes → Act Console (Unit {0})
unfolding mkdir_path println
mkdir args = match_option (last (without_flags args)) (println no_path) mkdir_path

abbrev pub not_implemented : Bytes
not_implemented = codes "error: not implemented yet"

-- The command and its arguments; `true` ends the shell.
unfoldable pub execute : Texts → Bytes → List Bytes → Act Console Bool
unfolding echo uname ls cat touch mkdir println
execute T cmd args =
    if cmd =s= codes "help"
    then (do println (codes "TODO: insert a help message here"); pure false)
    else if cmd =s= codes "whoami"
    then (do println (codes "root"); pure false)
    else if cmd =s= codes "echo" || cmd =s= codes "print"
    then (do echo args; pure false)
    else if cmd =s= codes "pwd"
    then (do println (codes "/"); pure false)
    else if cmd =s= codes "uname"
    then (do uname args; pure false)
    else if cmd =s= codes "ls"
    then (do ls args; pure false)
    else if cmd =s= codes "cat"
    then (do cat T args; pure false)
    else if cmd =s= codes "touch"
    then (do touch args; pure false)
    else if cmd =s= codes "mkdir"
    then (do mkdir args; pure false)
    else if cmd =s= codes "rm"
    then (do println not_implemented; pure false)
    else if cmd =s= codes "realpath"
    then (do println not_implemented; pure false)
    else if cmd =s= codes "basename"
    then (do println not_implemented; pure false)
    else if cmd =s= codes "cd"
    then (do println not_implemented; pure false)
    else if cmd =s= codes "exit"
    then pure true
    else (do println (codes "command not found: " ++ cmd); pure false)

abbrev pub execute_args : Texts → List Bytes → Act Console Bool
execute_args T [] = pure false
execute_args T (cmd ∷ args) = execute T cmd args

-- The tokens of the input. Both steps give a value on ASCII input: the fuel is enough.
unfoldable pub tokens : Bytes → Act Console (List Bytes)
tokens input = do parser ← expect (Parser.new input); expect (collect (suc (length input)) parser)

-- `parse_and_execute`
unfoldable pub parse_and_execute : Texts → Bytes → Act Console Bool
unfolding tokens println_in debug_list
parse_and_execute T input = do
  println_in (on_black light_gray) (codes "input: " ++ T.debug_str input)
  args ← tokens input
  println_in (on_black light_gray) (codes "args: " ++ debug_list T args)
  execute_args T args
