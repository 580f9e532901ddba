-- ===== src/Shell/Parser/Quote.antt =====
-- Quoting: a line of quoted arguments is parsed back into the arguments.
use riptide.Prelude.{
  ℕ, ◌≡◌, ◌≢◌, refl, ap, ◌∙◌, List, [], ◌∷◌, ◌++◌, Bytes, arith, All, append_assoc, append-nil,
  some, length, ◌<◌, ==_iff,
}
use riptide.Shell.Parser.{Parser, quote, collect, new}
use riptide.Shell.Parser.Lexer.{collect-eq-lex}
use riptide.Shell.Parser.Modes.{lex, outside, quoted}

abbrev pub HasNoQuote : Bytes → Type 0
HasNoQuote = All (λ c. c ≢ quote)

-- Each argument between quotes, and a space behind it.
abbrev pub quote_args : List Bytes → Bytes
quote_args [] = []
quote_args (a ∷ args) = quote ∷ (a ++ (quote ∷ b' ' ∷ quote_args args))

lex-quoted :
    (a w rest : Bytes) → HasNoQuote a → lex (a ++ rest) (quoted w) ≡ lex rest (quoted (w ++ a))
unfolding lex
lex-quoted [] w rest h = rw append-nil refl
lex-quoted (c ∷ a) w rest h =
    ground (arith, lex-quoted a (w ++ c ∷ []) rest h.1, append_assoc w (c ∷ []) a, ==_iff c quote)

lex_close : (w rest : Bytes) → lex (quote ∷ b' ' ∷ rest) (quoted w) ≡ w ∷ lex rest outside
unfolding lex
lex_close w rest = refl

lex_open : (rest : Bytes) → lex (quote ∷ rest) outside ≡ lex rest (quoted [])
unfolding lex
lex_open rest = refl

lex-quote_args : (args : List Bytes) → All HasNoQuote args → lex (quote_args args) outside ≡ args
lex-quote_args [] h = unfold lex in refl
lex-quote_args (a ∷ args) h =
    lex_open (a ++ (quote ∷ b' ' ∷ quote_args args))
    ∙ lex-quoted a [] (quote ∷ b' ' ∷ quote_args args) h.0
    ∙ lex_close a (quote_args args)
    ∙ ap (λ ts. a ∷ ts) (lex-quote_args args h.1)

-- Arguments that hold no quote, written between quotes, come back from the shell's tokenizer.
pub collect-quote_args :
    (args : List Bytes) (p : Parser) (fuel : ℕ)
    → All HasNoQuote args
    → new (quote_args args) ≡ some p
    → length (quote_args args) < fuel
    → collect fuel p ≡ some args
collect-quote_args args p fuel h e f =
    collect-eq-lex (quote_args args) p fuel e f ∙ ap some (lex-quote_args args h)
