-- ===== src/Shell/Line/Keys.antt =====
-- Backspace and a character that fits (kernel/src/shell/mod.rs), each in one step.
use riptide.Prelude.{◌++◌}
use riptide.Prelude.{
  ℕ, ◌+◌, ◌-◌, ◌≤◌, ◌<◌, ◌≡◌, refl, ◌∙◌, Bool, true, false, some, [], ◌∷◌, length, length-append,
  arith, if◌then◌else◌,
}
use riptide.Fs.State.{Act, ok, gets, modify}
use riptide.Fs.State.Keeps.{bind-ok, modify_lem, gets_lem}
use riptide.Vga.{buffer_width, buffer_height, set_cursor_position}
use riptide.Shell.Console.{Console, print, to_ports}
use riptide.Shell.Line.{
  Shell, InputBuffer, prompt, text_of, utf8, push, pop, input_buffer_len, on_console, add_u8,
  clear_input, erase_from, backspace, append,
}
use riptide.Vga.{Writer}
use riptide.Shell.Line.Erase.{erased_console}
use riptide.Shell.Line.Keeps.{WellFormed}
use riptide.Shell.Line.Erase.{erase_from_lem, add_u8_small, to_ports_lem}

pub utf8-nonempty : (c : ℕ) → 0 < length (utf8 c)
unfolding utf8
utf8-nonempty c = ground arith

-- A character takes a byte at least.
pub length-text : (cs : InputBuffer) → length cs ≤ length (text_of cs)
unfolding text_of
length-text [] = omega arith
length-text (c ∷ cs) =
    ground (arith, length-append (utf8 c) (text_of cs), length-text cs, utf8-nonempty c)

pub on_console_lem :
    {A : Type 0} (m : Act Console A) (s : Shell) (a : A) (c : Console)
    → m s.console ≡ (ok a, c)
    → on_console m s ≡ (ok a, record s { console = c })
unfolding on_console
on_console_lem m s a c e = rw e refl

-- The line without what backspace takes.
abbrev pub erased : Bool → Shell → Shell
erased ctrl s =
    if ctrl
    then clear_input s
    else record s { input_buffer = pop s.input_buffer; cursor_position = s.cursor_position - 1 }

pub erased-cursor :
    (ctrl : Bool) (s : Shell)
    → WellFormed s
    → length prompt + (erased ctrl s).cursor_position ≤ buffer_width
erased-cursor true s h = omega arith
erased-cursor false s h = omega (arith, h.cursor, h.fits, length-text s.input_buffer)

-- The shell behind backspace.
abbrev pub backspaced : Bool → Shell → Shell
backspaced ctrl s =
    let t = erased ctrl s in record t { console = erased_console t.cursor_position t.console }

pub backspace_lem :
    (ctrl : Bool) (s : Shell) → WellFormed s → backspace ctrl s ≡ (ok tt, backspaced ctrl s)
unfolding backspace
backspace_lem ctrl s h =
    let t = erased ctrl s in
    bind-ok (modify (erased ctrl)) _ s (modify_lem (erased ctrl) s)
    ∙ bind-ok (gets λ (s : Shell). s.cursor_position) _ t
        (gets_lem (λ (s : Shell). s.cursor_position) t)
    ∙ on_console_lem (erase_from t.cursor_position) t tt _
        (erase_from_lem t.cursor_position t.console (erased-cursor ctrl s h))

-- The shell behind a character that fits, if printing it leaves the writer `w`.
abbrev pub appended : InputBuffer → Writer → Shell → Shell
appended input w s = record s {
  input_buffer = input;
  cursor_position = s.cursor_position + 1;
  console = record s.console {
    writer = w;
    ports =
        s.console.ports
        ++ set_cursor_position (length prompt + (s.cursor_position + 1)) (buffer_height - 1);
  };
}

pub append_lem :
    (c : ℕ) (input : InputBuffer) (s : Shell) (w : Writer)
    → s.cursor_position < input_buffer_len
    → print (utf8 c) s.console ≡ (ok tt, record s.console { writer = w })
    → append c input s ≡ (ok tt, appended input w s)
unfolding append
append_lem c input s w room printed =
    let t : Shell = record s { input_buffer = input } in
    let cursor = s.cursor_position + 1 in
    let u : Shell = record t { cursor_position = cursor } in
    let v : Shell = record u { console = record u.console { writer = w } } in
    bind-ok (modify λ (s : Shell). record s { input_buffer = input }) _ s
      (modify_lem (λ (s : Shell). record s { input_buffer = input }) s)
    ∙ bind-ok (gets λ (s : Shell). s.cursor_position) _ t
        (gets_lem (λ (s : Shell). s.cursor_position) t)
    ∙ bind-ok (add_u8 s.cursor_position 1) _ t
        (add_u8_small s.cursor_position 1 t (omega (arith, room)))
    ∙ bind-ok (modify λ (s : Shell). record s { cursor_position = cursor }) _ t
        (modify_lem (λ (s : Shell). record s { cursor_position = cursor }) t)
    ∙ bind-ok (on_console (print (utf8 c))) _ u (on_console_lem (print (utf8 c)) u tt _ printed)
    ∙ bind-ok (add_u8 (length prompt) cursor) _ v
        (add_u8_small (length prompt) cursor v (omega (arith, room)))
    ∙ on_console_lem (to_ports (set_cursor_position (length prompt + cursor) (buffer_height - 1))) v
        tt _ (to_ports_lem _ v.console)

pub pushed-room :
    (c : ℕ) (input : InputBuffer) (s : Shell)
    → WellFormed s
    → push c s.input_buffer ≡ some input
    → s.cursor_position < input_buffer_len
unfolding push
pushed-room c input s h e =
    let room : length (text_of s.input_buffer) + length (utf8 c) ≤ input_buffer_len =
      ground (arith, e) in
    omega (arith, room, h.cursor, length-text s.input_buffer, utf8-nonempty c)
