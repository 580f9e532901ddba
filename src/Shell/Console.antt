-- ===== src/Shell/Console.antt =====
-- What the shell works on, and how it prints (`print!` and `println!` of kernel/src/vga.rs).
pub mod Format
pub mod Printing
use riptide.Prelude.{
  ℕ, ◌+◌, ◌-◌, Bool, true, false, Option, none, some, List, [], ◌∷◌, ◌++◌, Bytes, codes, ◌⊎◌, inl,
  inr, if◌then◌else◌,
}
use riptide.Fs.Types.{
  IoError, FsNodeKind, directory, file, char_device, block_device, DirectoryEntry, fields,
  DirectoryIterationEntry, FsNodeMetadata,
}
use riptide.Fs.State.{
  Vfs, Act, Io, Outcome, ok, err, panic, pure, panics, gets, modify, ◌>>=◌, ◌>>◌,
}
use riptide.Fs.Node.{get_cell}
use riptide.Vga.{
  Writer, PortWrite, write_string, newline, with_color, set_column_position, set_cursor_position,
  on_black, Color, light_blue, white, yellow, light_cyan, light_gray,
}
use Format.{show, pad_left}

-- The file layer, the screen, and what went to the ports of the cursor, oldest first.
pub record Console : Type 0 where
  pub vfs : Vfs
  pub writer : Writer
  pub ports : List PortWrite

module _ {A : Type 0} where
  unfoldable pub on_writer : Act Writer A → Act Console A
  on_writer m s = let r = m s.writer in (r.0, record s { writer = r.1 })

  unfoldable pub on_vfs : Io A → Act Console A
  on_vfs m s = let r = m s.vfs in (r.0, record s { vfs = r.1 })

  abbrev pub as_value : Outcome A → Outcome (A ⊎ IoError)
  as_value (ok a) = ok (inl a)
  as_value (err e) = ok (inr e)
  as_value panic = panic

  -- A call whose error the shell looks at.
  unfoldable pub attempt : Io A → Act Console (A ⊎ IoError)
  attempt m s = let r = m s.vfs in (as_value r.0, record s { vfs = r.1 })

  abbrev pub or_panic : Outcome A → Outcome A
  or_panic (ok a) = ok a
  or_panic (err e) = panic
  or_panic panic = panic

  -- A call with `unwrap` behind it.
  unfoldable pub unwrapped : Io A → Act Console A
  unwrapped m s = let r = m s.vfs in (or_panic r.0, record s { vfs = r.1 })

unfoldable pub to_ports : List PortWrite → Act Console (Unit {0})
to_ports ws = modify λ s. record s { ports = s.ports ++ ws }

-- `print!`
unfoldable pub print : Bytes → Act Console (Unit {0})
unfolding on_writer
print text = on_writer (write_string text)

-- `println!`
unfoldable pub println : Bytes → Act Console (Unit {0})
unfolding print
println text = print (text ++ newline ∷ [])

-- `with_color(color, || println!(...))`
unfoldable pub println_in : ℕ → Bytes → Act Console (Unit {0})
unfolding on_writer
println_in color text = on_writer (with_color color (write_string (text ++ newline ∷ [])))

-- `FsNodeKind::color_code`
unfoldable pub kind_color : FsNodeKind → ℕ
kind_color directory = on_black light_blue
kind_color file = on_black white
kind_color char_device = on_black yellow
kind_color block_device = on_black light_cyan

-- `Display for FsNodeKind`
unfoldable pub show_kind : FsNodeKind → Bytes
show_kind directory = codes "d"
show_kind file = codes "-"
show_kind char_device = codes "c"
show_kind block_device = codes "d"

-- `From<&DirectoryEntry> for DirectoryIterationEntry`
unfoldable pub iteration_entry : DirectoryEntry → DirectoryIterationEntry
iteration_entry e = record {
  name = (fields e).name;
  id = (fields e).node.id;
  kind = (fields e).node.kind;
}

-- `format_entry_short`
unfoldable pub format_entry_short : Bool → DirectoryIterationEntry → Act Console (Unit {0})
unfolding print println_in kind_color
format_entry_short show_node_ids entry = do
  if show_node_ids then print (show entry.id ++ codes " ") else pure tt
  println_in (kind_color entry.kind) entry.name

-- The text of `format_entry_long` behind the node's id.
abbrev pub long_text : DirectoryEntry → FsNodeMetadata → Bytes
long_text e meta =
    show_kind (fields e).node.kind
    ++ codes "rw-r--r--@ 1 root root "
    ++ pad_left 3 (show meta.size)
    ++ codes " "
    ++ pad_left 2 (show meta.modified_at)
    ++ codes " "
    ++ (fields e).name

-- `format_entry_long`
unfoldable pub format_entry_long : Bool → DirectoryEntry → Act Console (Unit {0})
unfolding print println on_vfs show_kind
format_entry_long show_node_ids e = do
  if show_node_ids then print (show (fields e).node.id ++ codes " ") else pure tt
  cell ← on_vfs (get_cell (fields e).node)
  println (long_text e cell.metadata)
