-- ===== src/Shell/Parser.antt =====
-- The shell's tokenizer (kernel/src/shell/parser.rs): an iterator over the bytes of a command line.
pub mod Scan
pub mod Modes
pub mod Lexer
pub mod Quote
mod Tests
use riptide.Prelude.{
  ℕ, zero, suc, ◌+◌, ◌-◌, Bool, true, false, ◌||◌, Option, none, some, List, [], ◌∷◌, Bytes, take,
  drop, ltb, ◌==◌, if◌then◌else◌,
}
use mathlib.Core.Option
use riptide.Fs.Path.{is_ascii}

-- `struct Parser`
pub record Parser : Type 0 where
  pub input : Bytes
  pub position : ℕ

-- `Parser::new`; `none` is the failed assertion.
unfoldable pub new : Bytes → Option Parser
unfolding is_ascii
new input = if is_ascii input then some (record { input = input; position = 0 }) else none

abbrev pub quote : ℕ
quote = b'"'

abbrev pub is_blank : ℕ → Bool
is_blank c = c == b' ' || c == 9

-- `str::from_raw_parts(input.as_ptr().add(start), len)`
abbrev pub slice : Bytes → ℕ → ℕ → Bytes
slice input start len = take len (drop start input)

-- `is_empty` of a string or a list
abbrev pub is_empty {ℓ} : {A : Type ℓ} → List A → Bool
is_empty [] = true
is_empty (x ∷ xs) = false

-- The `for` loop of `next` and what follows it. The second argument holds the bytes that the loop
-- has left, from `position` on; the result is the token and the position that it leaves.
unfoldable pub next_loop : Bytes → Bytes → ℕ → ℕ → Bool → Option Bytes × ℕ
next_loop input [] start position parsing_string =
    if ltb start position
    then (some (slice input start (position - start)), position)
    else (none, position)
next_loop input (c ∷ rest) start position parsing_string =
    let token = slice input start (position - start) in
    let open_string = next_loop input rest (start + 1) (position + 1) true in
    let munch = next_loop input rest start (position + 1) parsing_string in
    let skip_blank = next_loop input rest (position + 1) (position + 1) parsing_string in
    if c == quote
    then if parsing_string
      then (some token, position + 1)
      else if ltb start position
      then (some token, position)
      else open_string
    else if is_blank c
    then if parsing_string
      then munch
      else if is_empty token
      then skip_blank
      else (some token, position + 1)
    else munch

-- `Iterator::next`
unfoldable pub next : Parser → Option Bytes × Parser
unfolding next_loop
next p =
    let (token, position) =
      next_loop p.input (drop p.position p.input) p.position p.position false in
    (token, record p { position = position })

-- `for token in parser { args.push_back(token) }`; `none` means that the fuel ran out.
unfoldable pub collect : ℕ → Parser → Option (List Bytes)
unfolding next
collect zero p = none
collect (suc fuel) p =
    let (token, p') = next p in
    elim token [ none ↦ some [] | some t ↦ Option.map (λ ts. t ∷ ts) (collect fuel p') ]
