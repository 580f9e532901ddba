-- ===== src/Shell/Parser/Modes.antt =====
-- A lexer with three modes, and that one call of the tokenizer's `next` (kernel/src/shell/parser.rs)
-- takes its first token.
use riptide.Prelude.{
  Bool-cases, inl, inr, ℕ, suc, ◌+◌, ◌-◌, ◌≤◌, ◌≡◌, refl, sym, ap, ◌∙◌, Bool, true, false, Option,
  none, some, List, [], ◌∷◌, ◌++◌, Bytes, drop, ◌==◌, if◌then◌else◌, arith, length,
}
use riptide.Shell.Parser.{quote, is_blank, is_empty}
use riptide.Shell.Parser.Scan.{scan}

-- Between tokens; in a word; in a quoted string: with the bytes so far.
pub data Mode : Type 0 where
  outside : Mode
  word quoted : Bytes → Mode

-- The tokens of the rest of a line. A string that is not closed ends with the line, and is dropped
-- if it is empty.
unfoldable pub lex : Bytes → Mode → List Bytes
lex [] outside = []
lex [] (word w) = w ∷ []
lex [] (quoted w) = if is_empty w then [] else w ∷ []
lex (c ∷ s) outside =
    lex s (if c == quote then quoted [] else if is_blank c then outside else word (c ∷ []))
lex (c ∷ s) (word w) =
    let in_string = lex s (quoted []) in
    let after = lex s outside in
    let longer = lex s (word (w ++ c ∷ [])) in
    if c == quote then w ∷ in_string else if is_blank c then w ∷ after else longer
lex (c ∷ s) (quoted w) =
    let after = lex s outside in
    let longer = lex s (quoted (w ++ c ∷ [])) in if c == quote then w ∷ after else longer

-- The mode in which the loop of `next` stands.
abbrev pub mode : Bytes → Bool → Mode
mode w true = quoted w
mode [] false = outside
mode (b ∷ w) false = word (b ∷ w)

-- What a call of `next` leaves to be read.
abbrev pub left : Bytes → ℕ → ℕ → Bytes
left rest position position' = drop (position' - position) rest

-- One call returns the lexer's first token, and leaves the text behind it.
pub record Takes (rest : Bytes) (m : Mode) (position : ℕ) (r : Option Bytes × ℕ) : Type 0 where
  pub tokens :
      lex rest m ≡ elim r.0 [ none ↦ [] | some t ↦ t ∷ lex (left rest position r.1) outside ]
  pub forward : position ≤ r.1
  pub within : r.1 ≤ position + length rest

left_step :
    (c : ℕ) (rest : Bytes) (position position' : ℕ)
    → position + 1 ≤ position'
    → left (c ∷ rest) position position' ≡ left rest (position + 1) position'
left_step c rest position position' h =
    let e : position' - position ≡ suc (position' - (position + 1)) = omega arith in
    ap (λ k. drop k (c ∷ rest)) e

-- A byte that goes into the next mode without ending a token.
Takes-step :
    (c : ℕ) (rest : Bytes) (m m' : Mode) (position : ℕ) (r : Option Bytes × ℕ)
    → lex (c ∷ rest) m ≡ lex rest m'
    → Takes rest m' (position + 1) r
    → Takes (c ∷ rest) m position r
Takes-step c rest m m' position (none, p) e h = record {
  tokens = e ∙ h.tokens;
  forward = omega (arith, h.forward);
  within = omega (arith, h.within);
}
Takes-step c rest m m' position (some t, p) e h = record {
  tokens = e ∙ h.tokens ∙ ap (λ x. t ∷ lex x outside) (sym (left_step c rest position p h.forward));
  forward = omega (arith, h.forward);
  within = omega (arith, h.within);
}

-- A byte that ends a token and is read.
Takes-end :
    (c : ℕ) (rest w : Bytes) (m : Mode) (position : ℕ)
    → lex (c ∷ rest) m ≡ w ∷ lex rest outside
    → Takes (c ∷ rest) m position (some w, position + 1)
Takes-end c rest w m position e = record {
  tokens =
      e
      ∙ ap (λ x. w ∷ lex x outside)
          (sym (left_step c rest position (position + 1) (omega arith) ∙ stay));
  forward = omega arith;
  within = omega arith;
}
  where
    stay : left rest (position + 1) (position + 1) ≡ rest
    stay = let e : position + 1 - (position + 1) ≡ 0 = omega arith in ap (λ k. drop k rest) e

-- A token that ends before the byte at hand.
Takes-before :
    (rest w : Bytes) (m : Mode) (position : ℕ)
    → lex rest m ≡ w ∷ lex rest outside
    → Takes rest m position (some w, position)
Takes-before rest w m position e =
    let stay : position - position ≡ 0 = omega arith in
    record {
      tokens = e ∙ ap (λ k. w ∷ lex (drop k rest) outside) (sym stay);
      forward = omega arith;
      within = omega arith;
    }

Takes-none : (position : ℕ) (m : Mode) → lex [] m ≡ [] → Takes [] m position (none, position)
Takes-none position m e = record { tokens = e; forward = omega arith; within = omega arith }

mode-snoc :
    (w : Bytes) (c : ℕ) (s : Bool)
    → mode (w ++ c ∷ []) s ≡ (if s then quoted (w ++ c ∷ []) else word (w ++ c ∷ []))
mode-snoc w c true = refl
mode-snoc [] c false = refl
mode-snoc (b ∷ w) c false = refl

ruleset takes_rules = (Takes-step, Takes-end, Takes-before, Takes-none)

pub scan-Takes :
    (rest w : Bytes) (position : ℕ) (s : Bool)
    → Takes rest (mode w s) position (scan rest w position s)
unfolding scan lex
scan-Takes [] [] position true = Takes-none position (quoted []) refl
scan-Takes [] [] position false = Takes-none position outside refl
scan-Takes [] (b ∷ w) position true = Takes-before [] (b ∷ w) (quoted (b ∷ w)) position refl
scan-Takes [] (b ∷ w) position false = Takes-before [] (b ∷ w) (word (b ∷ w)) position refl
scan-Takes (c ∷ rest) w position true = elim (Bool-cases (c == quote)) [
  | inl q ↦ rw (q, scan) (Takes-end c rest w (quoted w) position (rw (q, lex)))
  | inr q ↦ elim (Bool-cases (is_blank c)) [
    | inl b ↦
        rw (q, b, scan)
          (Takes-step c rest (quoted w) (quoted (w ++ c ∷ [])) position _ (rw (q, lex))
            (scan-Takes rest (w ++ c ∷ []) (position + 1) true))
    | inr b ↦
        rw (q, b, scan)
          (Takes-step c rest (quoted w) (quoted (w ++ c ∷ [])) position _ (rw (q, lex))
            (scan-Takes rest (w ++ c ∷ []) (position + 1) true))
  ]
]
scan-Takes (c ∷ rest) [] position false = elim (Bool-cases (c == quote)) [
  | inl q ↦
      rw (q, scan)
        (Takes-step c rest outside (quoted []) position _ (rw (q, lex))
          (scan-Takes rest [] (position + 1) true))
  | inr q ↦ elim (Bool-cases (is_blank c)) [
    | inl b ↦
        rw (q, b, scan)
          (Takes-step c rest outside outside position _ (rw (q, b, lex))
            (scan-Takes rest [] (position + 1) false))
    | inr b ↦
        rw (q, b, scan)
          (Takes-step c rest outside (word (c ∷ [])) position _ (rw (q, b, lex))
            (scan-Takes rest (c ∷ []) (position + 1) false))
  ]
]
scan-Takes (c ∷ rest) (b ∷ w) position false = elim (Bool-cases (c == quote)) [
  | inl q ↦ rw (q, scan) (Takes-before (c ∷ rest) (b ∷ w) (word (b ∷ w)) position (rw (q, lex)))
  | inr q ↦ elim (Bool-cases (is_blank c)) [
    | inl k ↦ rw (q, k, scan) (Takes-end c rest (b ∷ w) (word (b ∷ w)) position (rw (q, k, lex)))
    | inr k ↦
        rw (q, k, scan)
          (Takes-step c rest (word (b ∷ w)) (word (b ∷ w ++ c ∷ [])) position _ (rw (q, k, lex))
            (scan-Takes rest (b ∷ w ++ c ∷ []) (position + 1) false))
  ]
]
