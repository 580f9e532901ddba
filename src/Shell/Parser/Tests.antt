-- ===== src/Shell/Parser/Tests.antt =====
-- The theorems on the tokenizer, on command lines.
use riptide.Prelude.{◌≡◌, refl, ◌<◌, some, Bytes, List, [], ◌∷◌, codes, length, arith, All}
use riptide.Shell.Parser.{Parser, new, collect}
use riptide.Shell.Parser.Lexer.{collect-eq-lex}
use riptide.Shell.Parser.Modes.{lex, outside}
use riptide.Shell.Parser.Quote.{quote_args, HasNoQuote, collect-quote_args}

abbrev line : Bytes
line = codes "echo  \"a b\"c"

abbrev at_start : Bytes → Parser
at_start input = record { input = input; position = 0 }

short : length line < 20
short = omega arith

collect-eq-lex_example : collect 20 (at_start line) ≡ some (lex line outside)
unfolding new
collect-eq-lex_example = collect-eq-lex line (at_start line) 20 refl short

abbrev args : List Bytes
args = codes "a b" ∷ [] ∷ []

have_no_quote : All HasNoQuote args
have_no_quote = ground arith

collect-quote_args_example : collect 20 (at_start (quote_args args)) ≡ some args
unfolding new
collect-quote_args_example =
    collect-quote_args args (at_start (quote_args args)) 20 have_no_quote refl (omega arith)
