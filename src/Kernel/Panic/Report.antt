-- ===== src/Kernel/Panic/Report.antt =====
-- What a panic leaves on the screen (kernel/src/panic.rs).
use riptide.Prelude.{ℕ, zero, suc, ◌≡◌, refl, ap, ◌∙◌, false, [], ◌∷◌, ◌++◌, codes, replicate}
use riptide.Fs.State.{Act, Outcome, ok, modify, ◌>>=◌, ◌>>◌}
use riptide.Fs.State.Keeps.{bind-ok}
use riptide.Vga.{
  Writer, write_string, newline, set_color_code, disable_cursor, on_black, color_code_of, white,
  black, dark_gray, light_red, light_gray,
}
use riptide.Vga.Colored.{
  Refines-then, Shows-color, with_color-Refines, type_colored, colored-Refines,
}
use riptide.Vga.Screen.{Sheet, Shows, Refines, type_string, write_string-Refines}
use riptide.Kernel.Panic.{
  PanicInfo, Screen, on_screen, equals_signs, separator, located, panic_handler,
}

-- The report behind what is on the sheet: its pieces from the first to the last, each in its color.
abbrev separated : Sheet → Sheet
separated t =
    type_colored (on_black dark_gray, newline ∷ replicate 60 b'=' ++ newline ∷ newline ∷ [])
      (record t { color = on_black white })

abbrev headed : Sheet → Sheet
headed t =
    type_string (codes "kernel panicked ")
      (type_colored (on_black light_red, codes "ERROR: ") (separated t))

abbrev placed : PanicInfo → Sheet → Sheet
placed info t = type_string (newline ∷ []) (
    type_string (codes ":" ++ newline ∷ [])
      (type_colored (on_black light_gray, located info.location) (headed t)))

abbrev pub report : PanicInfo → Sheet → Sheet
report info t = type_colored (on_black light_gray, info.message ++ newline ∷ []) (placed info t)

-- The handler ends with the sheet on the screen, the cursor off, and interrupts off.
abbrev pub Ends : Act Screen (Unit {0}) → Screen → Sheet → Type 0
Ends m s t =
    (w : Writer) × (m s ≡ (
      ok tt,
      record s { writer = w; ports = s.ports ++ disable_cursor; interrupts_enabled = false },
    ))
    × Shows w t

-- A step on the screen, and the rest of the handler.
on_screen-Ends :
    (m : Act Writer (Unit {0})) (rest : Act Screen (Unit {0})) (s : Screen) (t1 t2 : Sheet)
    → Refines m s.writer t1
    → ((w : Writer) → Shows w t1 → Ends rest (record s { writer = w }) t2)
    → Ends (on_screen m >> rest) s t2
unfolding on_screen
on_screen-Ends m rest s t1 t2 r f =
    let last = f r.0 r.2 in
    (
      last.0,
      bind-ok (on_screen m) (λ _. rest) s
            (ap (λ (x : Outcome (Unit {0}) × Writer). (x.0, record s { writer = x.1 })) r.1)
          ∙ last.1,
      last.2,
    )

equals_signs-Refines :
    (n : ℕ) (w : Writer) (t : Sheet)
    → Shows w t
    → Refines (equals_signs n) w (type_string (replicate n b'=') t)
unfolding equals_signs type_string
equals_signs-Refines zero w t h = (w, unfold ◌>>=◌ in refl, h)
equals_signs-Refines (suc n) w t h =
    Refines-then (write_string (codes "=")) (equals_signs n) w _ _
      (write_string-Refines (codes "=") w t h) λ w1 h1. equals_signs-Refines n w1 _ h1

separator-Refines :
    (w : Writer) (t : Sheet)
    → Shows w t
    → Refines separator w (type_string (newline ∷ replicate 60 b'=' ++ newline ∷ newline ∷ []) t)
unfolding separator type_string
separator-Refines w t h = Refines-then _ _ w _ _ (feed_line w t h) λ w1 h1.
    Refines-then _ _ w1 _ _ (equals_signs-Refines 60 w1 _ h1)
      λ w2 h2. Refines-then _ _ w2 _ _ (feed_line w2 _ h2) λ w3 h3. feed_line w3 _ h3
  where
    feed_line :
        (w : Writer) (t : Sheet)
        → Shows w t
        → Refines (write_string (newline ∷ [])) w (type_string (newline ∷ []) t)
    feed_line = write_string-Refines (newline ∷ [])

-- The cursor and the interrupts.
off-Ends :
    (s : Screen) (t : Sheet)
    → Shows s.writer t
    → Ends
        (modify (λ s. record s { ports = s.ports ++ disable_cursor })
          >> modify λ s. record s { interrupts_enabled = false })
        s
        t
unfolding ◌>>=◌
off-Ends s t h = (s.writer, refl, h)

reset :
    (w : Writer) (t : Sheet)
    → Shows w t
    → Refines (set_color_code (color_code_of white black)) w (record t { color = on_black white })
unfolding set_color_code ◌>>=◌ on_black
reset w t h = (record w { color_code = on_black white }, refl, Shows-color (on_black white) w t h)

-- Whatever is on the screen, the handler comes to its end: it does not panic itself, the screen shows
-- the report behind what was there, each piece in its color, in white on black; the cursor is
-- disabled, and interrupts are off.
pub panic_handler-Ends :
    (info : PanicInfo) (s : Screen) (t : Sheet)
    → Shows s.writer t
    → Ends (panic_handler info) s (report info t)
unfolding panic_handler on_black
panic_handler-Ends info s t h =
    step _ _ s (record t { color = on_black white }) (reset s.writer t h)
      λ w1 h1.
        step _ _ (at w1) (separated t) (with_color-Refines _ separator _ w1 _ separator-Refines h1)
          λ w2 h2.
            step _ _ (at w2) _ (colored-Refines _ (codes "ERROR: ") w2 (separated t) h2) λ w3 h3.
              step _ _ (at w3) (headed t) (write_string-Refines (codes "kernel panicked ") w3 _ h3)
                λ w4 h4.
                  step _ _ (at w4) _ (colored-Refines _ (located info.location) w4 (headed t) h4)
                    λ w5 h5.
                      step _ _ (at w5) _ (write_string-Refines (codes ":" ++ newline ∷ []) w5 _ h5)
                        λ w6 h6.
                          step _ _ (at w6) (placed info t)
                            (write_string-Refines (newline ∷ []) w6 _ h6)
                            λ w7 h7.
                              step _ _ (at w7) (report info t)
                                (colored-Refines _ (info.message ++ newline ∷ []) w7 (placed info t)
                                  h7)
                                λ w8 h8. off-Ends (at w8) _ h8
  where
    at : Writer → Screen
    at w = record s { writer = w }

    step :
        (m : Act Writer (Unit {0})) (rest : Act Screen (Unit {0})) (s : Screen) (t1 : Sheet)
        → Refines m s.writer t1
        → ((w : Writer) → Shows w t1 → Ends rest (record s { writer = w }) (report info t))
        → Ends (on_screen m >> rest) s (report info t)
    step m rest s t1 r f = on_screen-Ends m rest s t1 (report info t) r f
