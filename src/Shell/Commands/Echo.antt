-- ===== src/Shell/Commands/Echo.antt =====
-- `echo` (kernel/src/shell/mod.rs): its loop prints the arguments with a blank between them.
use mathlib.Core.Path.{fun_ext}
use riptide.Prelude.{
  ℕ, ◌+◌, ◌-◌, ◌≡◌, refl, sym, ap, ◌∙◌, Bool, true, false, List, [], ◌∷◌, ◌++◌, Bytes, codes,
  length, ltb, arith, if◌then◌else◌,
}
use riptide.Fs.State.{Act, Outcome, ok, err, panic, pure, ◌>>=◌, ◌>>◌}
use riptide.Vga.{newline}
use riptide.Vga.Typing.{bind_assoc}
use riptide.Shell.Console.{Console, print, println}
use riptide.Shell.Console.Format.{joined}
use riptide.Shell.Console.Printing.{print-append, print-nil}
use riptide.Shell.Commands.{echo, echo_args}

bind_unit : {S : Type 0} (m : Act S (Unit {0})) (s : S) → (m >>= λ _. pure tt) s ≡ m s
unfolding ◌>>=◌
bind_unit {S} m s = go (m s)
  where
    go : (r : Outcome (Unit {0}) × S) → ((λ (s : S). r) >>= λ _. pure tt) s ≡ r
    go (ok tt, t) = refl
    go (err e, t) = refl
    go (panic, t) = refl

abbrev blank : Bytes
blank = codes " "

-- Two prints, and what follows them.
print_two :
    (a b : Bytes) (k : Act Console (Unit {0})) (s : Console)
    → (print a >>= λ _. print b >>= λ _. k) s ≡ (print (a ++ b) >>= λ _. k) s
print_two a b k s =
    sym (bind_assoc (print a) (λ _. print b) (λ _. k) s)
    ∙ ap (λ (m : Act Console (Unit {0})). (m >>= λ _. k) s) (fun_ext (print-append a b))

no_separator :
    (arg : Bytes) (b : Bool) (s : Console)
    → b ≡ false
    → (print arg >>= λ _. (if b then print blank else pure tt) >>= λ _. pure tt) s ≡ print arg s
no_separator arg b s e = rw e (
    ap (λ (k : Act Console (Unit {0})). (print arg >> k) s) (fun_ext (bind_unit (pure tt)))
    ∙ bind_unit (print arg) s)

separator :
    (arg : Bytes) (b : Bool) (k : Act Console (Unit {0})) (s : Console)
    → b ≡ true
    → (print arg >>= λ _. (if b then print blank else pure tt) >>= λ _. k) s
      ≡ (print (arg ++ blank) >>= λ _. k) s
separator arg b k s e = rw e (print_two arg blank k s)

echo_args_lem :
    (args : List Bytes) (i len : ℕ) (s : Console)
    → len ≡ i + length args
    → echo_args len i args s ≡ print (joined blank args) s
unfolding echo_args
echo_args_lem [] i len s e = sym (unfold ◌>>=◌ in print-nil s)
echo_args_lem (arg ∷ []) i len s e = no_separator arg (ltb i (len - 1)) s (ground arith)
echo_args_lem (arg ∷ b ∷ args) i len s e =
    separator arg (ltb i (len - 1)) (echo_args len (i + 1) (b ∷ args)) s (ground arith)
    ∙ ap (λ (k : Act Console (Unit {0})). (print (arg ++ blank) >> k) s)
        (fun_ext λ t. echo_args_lem (b ∷ args) (i + 1) len t (omega arith))
    ∙ print-append (arg ++ blank) (joined blank (b ∷ args)) s

-- `echo` prints its arguments, with one blank between each and the next, and a newline.
pub echo_lem : (args : List Bytes) (s : Console) → echo args s ≡ println (joined (codes " ") args) s
unfolding echo println
echo_lem args s =
    ap (λ (m : Act Console (Unit {0})). (m >> print (newline ∷ [])) s)
      (fun_ext λ t. echo_args_lem args 0 (length args) t (omega arith))
    ∙ print-append (joined blank args) (newline ∷ []) s
