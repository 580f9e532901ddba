-- ===== src/Shell/Line/Keeps.antt =====
-- What every key keeps of the line and of the history.
pub mod Enter
use riptide.Prelude.{
  ℕ, ◌+◌, ◌-◌, ◌≤◌, ◌≡◌, refl, Bool, true, false, Option, none, some, List, [], ◌∷◌, ◌++◌, ◌==◌,
  length, length-append, ltb, arith, if◌then◌else◌,
}
use riptide.Fs.State.{
  Act, Outcome, ok, err, panic, pure, panics, gets, modify, ◌>>=◌, assert, match_option,
}
use riptide.Fs.State.Keeps.{
  Keeps, Triple, Holds, Keeps-pure, Keeps-panics, Keeps-gets, Keeps-if, Keeps-bind, Keeps-modify,
  Triple-bind, Triple-gets, Triple-modify, Triple-weaken, Triple-pure, Triple-panics, Triple-if,
}
use riptide.Vga.{newline}
use riptide.Shell.Console.{Console}
use riptide.Shell.Console.Format.{Texts}
use riptide.Shell.Line.{
  Shell, InputBuffer, text_of, utf8, push, pop, input_buffer_len, history_len, on_console, add_u8,
  clear_input, remember, after_command, enter, backspace, append, insert, handle_character,
}

-- The cursor stands behind the last character, the line fits its buffer, and so does the history.
pub record WellFormed (s : Shell) : Type 0 where
  pub cursor : s.cursor_position ≡ length s.input_buffer
  pub fits : length (text_of s.input_buffer) ≤ input_buffer_len
  pub remembered : length s.history ≤ history_len

-- Only the console changes.
pub Keeps-on_console : {A : Type 0} (m : Act Console A) → Keeps WellFormed (on_console m)
unfolding on_console
Keeps-on_console {A} m = record { at = λ s h. go s h (m s.console) }
  where
    go :
        (s : Shell)
        → WellFormed s
        → (r : Outcome A × Console)
        → Holds WellFormed (λ _. WellFormed) (r.0, record s { console = r.1 })
    go s h (ok a, c) = record { cursor = h.cursor; fits = h.fits; remembered = h.remembered }
    go s h (err e, c) = record { cursor = h.cursor; fits = h.fits; remembered = h.remembered }
    go s h (panic, c) = tt

pub text-append :
    (cs : InputBuffer) (c : ℕ)
    → length (text_of (cs ++ c ∷ [])) ≡ length (text_of cs) + length (utf8 c)
unfolding text_of
text-append [] c = ground (arith, length-append (utf8 c) [])
text-append (d ∷ cs) c = ground (
  arith,
  length-append (utf8 d) (text_of (cs ++ c ∷ [])),
  length-append (utf8 d) (text_of cs),
  text-append cs c,
)

pub length-pop {ℓ} : {A : Type ℓ} (cs : List A) → length (pop cs) ≡ length cs - 1
unfolding pop
length-pop [] = refl
length-pop (c ∷ []) = refl
length-pop (c ∷ d ∷ cs) = ground (arith, length-pop (d ∷ cs))

pub text-pop : (cs : InputBuffer) → length (text_of (pop cs)) ≤ length (text_of cs)
unfolding text_of pop
text-pop [] = omega arith
text-pop (c ∷ []) = omega arith
text-pop (c ∷ d ∷ cs) = ground (
  arith,
  length-append (utf8 c) (text_of (pop (d ∷ cs))),
  length-append (utf8 c) (text_of (d ∷ cs)),
  text-pop (d ∷ cs),
)

pub clear_input_kept : (s : Shell) → WellFormed s → WellFormed (clear_input s)
unfolding text_of
clear_input_kept s h = record { cursor = refl; fits = omega arith; remembered = h.remembered }

popped_kept :
    (s : Shell)
    → WellFormed s
    → WellFormed
        (record s { input_buffer = pop s.input_buffer; cursor_position = s.cursor_position - 1 })
popped_kept s h = record {
  cursor = omega (arith, length-pop s.input_buffer, h.cursor);
  fits = omega (arith, text-pop s.input_buffer, h.fits);
  remembered = h.remembered;
}

erased_kept :
    (ctrl : Bool) (s : Shell)
    → WellFormed s
    → WellFormed (
        if ctrl then clear_input s else record s {
          input_buffer = pop s.input_buffer;
          cursor_position = s.cursor_position - 1;
        })
erased_kept true s h = clear_input_kept s h
erased_kept false s h = popped_kept s h

pub Keeps-backspace : (ctrl : Bool) → Keeps WellFormed (backspace ctrl)
unfolding backspace
Keeps-backspace ctrl = Keeps-bind (modify _) _ (Keeps-modify _ (erased_kept ctrl)) (λ _.
    Keeps-bind (gets (λ (s : Shell). s.cursor_position)) _
      (Keeps-gets (λ (s : Shell). s.cursor_position)) (λ c. Keeps-on_console _))

-- The character is in the line, and the cursor is still in front of it.
record Growing (s : Shell) : Type 0 where
  cursor : s.cursor_position + 1 ≡ length s.input_buffer
  fits : length (text_of s.input_buffer) ≤ input_buffer_len
  remembered : length s.history ≤ history_len

abbrev Fits : ℕ → InputBuffer → Shell → Type 0
Fits c input s = WellFormed s × (push c s.input_buffer ≡ some input)

pushed-Growing :
    (c : ℕ) (input : InputBuffer) (s : Shell)
    → Fits c input s
    → Growing (record s { input_buffer = input })
unfolding push
pushed-Growing c input s h =
    let room : length (text_of s.input_buffer) + length (utf8 c) ≤ input_buffer_len =
      ground (arith, h.1) in
    let same : input ≡ s.input_buffer ++ c ∷ [] = ground (arith, h.1) in
    record {
      cursor = rw same (ground (arith, length-append s.input_buffer (c ∷ []), h.0.cursor));
      fits = rw same (ground (arith, text-append s.input_buffer c, room));
      remembered = h.0.remembered;
    }

grown_kept :
    (old cursor : ℕ) (s : Shell)
    → Growing s × (s.cursor_position ≡ old) × (cursor ≡ old + 1)
    → WellFormed (record s { cursor_position = cursor })
grown_kept old cursor s h = record {
  cursor = omega (arith, h.0.cursor, h.1, h.2);
  fits = h.0.fits;
  remembered = h.0.remembered;
}

Triple-add_u8 :
    {R P : Shell → Type 0} (a b : ℕ) → Triple R P (add_u8 a b) (λ c s. R s × (c ≡ a + b))
unfolding add_u8
Triple-add_u8 a b =
    Triple-if (ltb (a + b) 256) (pure (a + b)) panics (Triple-pure (a + b) (λ s h. (h, refl)))
      Triple-panics

Keeps-add_u8 : {P : Shell → Type 0} (a b : ℕ) → Keeps P (add_u8 a b)
unfolding add_u8
Keeps-add_u8 a b = Keeps-if (ltb (a + b) 256) (pure (a + b)) panics (Keeps-pure _) Keeps-panics

Triple-append :
    (c : ℕ) (input : InputBuffer)
    → Triple (Fits c input) WellFormed (append c input) (λ _. WellFormed)
unfolding append
Triple-append c input = Triple-bind (modify _) _ (Triple-modify _ (pushed-Growing c input)) (λ _.
    Triple-bind (gets (λ (s : Shell). s.cursor_position)) _
      (Triple-gets (λ (s : Shell). s.cursor_position))
      (λ old. Triple-bind (add_u8 old 1) _ (Triple-add_u8 old 1) (λ cursor.
        Triple-bind (modify _) _
          (Triple-modify _ (λ s h. grown_kept old cursor s (h.0.0, h.0.1, h.1)))
          (λ _. Keeps-bind (on_console _) _ (Keeps-on_console _) (λ _.
            Keeps-bind (add_u8 _ cursor) _ (Keeps-add_u8 _ cursor) (λ col. Keeps-on_console _))))))

pub Keeps-insert : (c : ℕ) → Keeps WellFormed (insert c)
unfolding insert
Keeps-insert c =
    Triple-bind (gets (λ (s : Shell). push c s.input_buffer)) _
      (Triple-gets (λ (s : Shell). push c s.input_buffer)) (λ pushed. go pushed)
  where
    go :
        (pushed : Option InputBuffer)
        → Triple
            (λ (s : Shell). WellFormed s × (push c s.input_buffer ≡ pushed))
            WellFormed
            (match_option pushed (pure tt) (append c))
            (λ _. WellFormed)
    go none = Triple-pure tt (λ s h. h.0)
    go (some input) =
        Triple-weaken (append c input) (λ s h. h) (λ s h. h) (λ a s h. h) (Triple-append c input)
