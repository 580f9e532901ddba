-- ===== src/Shell/Line/Editing.antt =====
-- The keys that edit the line (kernel/src/shell/mod.rs): none of them panics.
use mathlib.Core.Path.{subst}
use riptide.Prelude.{
  ℕ, ◌≤◌, ◌≡◌, refl, ◌∙◌, Bool, true, false, Option, none, some, [], ◌==◌, if◌then◌else◌,
  Option-cases, inl, inr, Bool-cases,
}
use riptide.Fs.State.{ok, pure, gets}
use riptide.Fs.State.Keeps.{Holds, bind-ok, gets_lem, pure_lem}
use riptide.Vga.{buffer_width, newline}
use riptide.Shell.Console.{Console}
use riptide.Shell.Console.Printing.{print-returns}
use riptide.Shell.Console.Format.{Texts}
use riptide.Shell.Line.{Shell, InputBuffer, utf8, push, pop, backspace, insert, handle_character}
use riptide.Shell.Line.Keys.{
  erased, erased-cursor, backspaced, backspace_lem, appended, append_lem, pushed-room,
}
use riptide.Shell.Line.Keeps.Enter.{Keeps-handle_character}
use riptide.Shell.Line.Keeps.{WellFormed}

-- The line behind a key other than enter.
abbrev or_same : InputBuffer → Option InputBuffer → InputBuffer
or_same cs none = cs
or_same cs (some input) = input

unfoldable pub edited : Bool → ℕ → InputBuffer → InputBuffer
unfolding push pop
edited ctrl c cs = if c == 8 then if ctrl then [] else pop cs else or_same cs (push c cs)

abbrev ColumnIn : Shell → Type 0
ColumnIn s = s.console.writer.column_position ≤ buffer_width

-- What a key does to the shell: the line is `input`, and of the console only the screen changes.
pub record Typed (input : InputBuffer) (s s2 : Shell) : Type 0 where
  pub line : s2.input_buffer ≡ input
  pub vfs : s2.console.vfs ≡ s.console.vfs
  pub history : s2.history ≡ s.history
  pub within : ColumnIn s2

erased-Typed :
    (ctrl : Bool) (s : Shell) (c : Console)
    → c.vfs ≡ (erased ctrl s).console.vfs
    → c.writer.column_position ≤ buffer_width
    → Typed (if ctrl then [] else pop s.input_buffer) s (record (erased ctrl s) { console = c })
erased-Typed true s c e h = record { line = refl; vfs = e; history = refl; within = h }
erased-Typed false s c e h = record { line = refl; vfs = e; history = refl; within = h }

erased-vfs :
    (ctrl : Bool) (s : Shell) → (backspaced ctrl s).console.vfs ≡ (erased ctrl s).console.vfs
erased-vfs ctrl s = refl

insert_lem :
    (c : ℕ) (s : Shell)
    → WellFormed s
    → ColumnIn s
    → (s2 : Shell) × (insert c s ≡ (ok tt, s2))
      × Typed (or_same s.input_buffer (push c s.input_buffer)) s s2
unfolding insert
insert_lem c s h column = elim (Option-cases (push c s.input_buffer)) [
  | inl e ↦ (
    s,
    bind-ok (gets λ (s : Shell). push c s.input_buffer) _ s (gets_lem _ s) ∙ rw e (pure_lem tt s),
    record { line = rw e refl; vfs = refl; history = refl; within = column },
  )
  | inr e ↦
      let p = print-returns (utf8 c) s.console column in
      (
        appended e.0 p.0 s,
        bind-ok (gets λ (s : Shell). push c s.input_buffer) _ s (gets_lem _ s)
            ∙ rw e.1 (append_lem c e.0 s p.0 (pushed-room c e.0 s h e.1) p.1),
        rw e.1 (record { line = refl; vfs = refl; history = refl; within = p.2 }),
      )
]

returned :
    (T : Texts) (ctrl : Bool) (c : ℕ) (s s2 : Shell)
    → WellFormed s
    → handle_character T ctrl c s ≡ (ok false, s2)
    → WellFormed s2
returned T ctrl c s s2 h e =
    subst (Holds WellFormed (λ _. WellFormed)) e ((Keeps-handle_character T ctrl c).at s h)

-- On a well-formed shell whose column is within the row, each key other than enter returns to the
-- loop: the line is edited as `edited` says, the history and the file layer are as they were, the
-- column is within the row, and the shell is well-formed.
pub handle_character-edits :
    (T : Texts) (ctrl : Bool) (c : ℕ) (s : Shell)
    → WellFormed s
    → s.console.writer.column_position ≤ buffer_width
    → (c == newline) ≡ false
    → (s2 : Shell) × (handle_character T ctrl c s ≡ (ok false, s2))
      × Typed (edited ctrl c s.input_buffer) s s2
      × WellFormed s2
unfolding handle_character edited
handle_character-edits T ctrl c s h column visible = elim (Bool-cases (c == 8)) [
  | inl e ↦
      let s2 = backspaced ctrl s in
      let same : handle_character T ctrl c s ≡ (ok false, s2) = rw visible (
        rw e (
          bind-ok (backspace ctrl) (λ _. pure false) s (backspace_lem ctrl s h)
          ∙ pure_lem false s2)) in
      (
        s2,
        same,
        rw e (erased-Typed ctrl s s2.console (erased-vfs ctrl s) (erased-cursor ctrl s h)),
        returned T ctrl c s s2 h same,
      )
  | inr e ↦
      let r = insert_lem c s h column in
      let same : handle_character T ctrl c s ≡ (ok false, r.0) =
        rw visible (rw e (bind-ok (insert c) (λ _. pure false) s r.1 ∙ pure_lem false r.0)) in
      (r.0, same, rw e r.2, returned T ctrl c s r.0 h same)
]
