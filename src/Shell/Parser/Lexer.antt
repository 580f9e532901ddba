-- ===== src/Shell/Parser/Lexer.antt =====
-- The tokenizer computes what a lexer with three modes computes on the text alone: it ends, and its
-- tokens are the words and the quoted strings, in order.
use mathlib.Core.Path.{subst}
use riptide.Prelude.{
  ℕ, zero, suc, ◌+◌, ◌-◌, ◌≤◌, ◌<◌, ◌≡◌, refl, sym, ap, ◌∙◌, true, false, Option, none, some, List,
  [], ◌∷◌, Bytes, drop, arith, length, length-drop,
}
use riptide.Shell.Parser.{Parser, next, collect, new}
use riptide.Shell.Parser.Scan.{scan, next_loop-eq-scan, slice_empty, drop-drop}
use riptide.Shell.Parser.Modes.{outside, lex, Takes, scan-Takes}

scan_progress :
    (rest t : Bytes) (position : ℕ)
    → (scan rest [] position false).0 ≡ some t
    → position < (scan rest [] position false).1
unfolding scan
scan_progress [] t position h = ground arith
scan_progress (c ∷ rest) t position h = ground (
  arith,
  (scan-Takes rest [] (position + 1) true).forward,
  (scan-Takes rest [] (position + 1) false).forward,
  (scan-Takes rest (c ∷ []) (position + 1) false).forward,
)

scan_progress_at :
    (rest t : Bytes) (position p : ℕ) → scan rest [] position false ≡ (some t, p) → position < p
scan_progress_at rest t position p e = omega (
  arith,
  scan_progress rest t position (ap (λ (r : Option Bytes × ℕ). r.0) e),
  ap (λ (r : Option Bytes × ℕ). r.1) e,
)

abbrev at : Bytes → ℕ → Parser
at input position = record { input = input; position = position }

next-eq-scan :
    (input : Bytes) (position : ℕ) (r : Option Bytes × ℕ)
    → position ≤ length input
    → scan (drop position input) [] position false ≡ r
    → next (at input position) ≡ (r.0, at input r.1)
unfolding next
next-eq-scan input position r fit e =
    let scanned =
      next_loop-eq-scan input (drop position input) position position false (omega arith) fit refl
      ∙ ap (λ w. scan (drop position input) w position false)
          (slice_empty input position position (omega arith))
      ∙ e in
    ap (λ (x : Option Bytes × ℕ). (x.0, at input x.1)) scanned

collect_done : (fuel : ℕ) (p p' : Parser) → next p ≡ (none, p') → collect (suc fuel) p ≡ some []
unfolding collect
collect_done fuel p p' e = ground arith

collect_more :
    (fuel : ℕ) (p p' : Parser) (t : Bytes) (ts : List Bytes)
    → next p ≡ (some t, p')
    → collect fuel p' ≡ some ts
    → collect (suc fuel) p ≡ some (t ∷ ts)
unfolding collect
collect_more fuel p p' t ts e h = ground arith

scan_result-Takes :
    (rest : Bytes) (position : ℕ) (r : Option Bytes × ℕ)
    → scan rest [] position false ≡ r
    → Takes rest outside position r
scan_result-Takes rest position r e =
    subst (Takes rest outside position) e (scan-Takes rest [] position false)

collect_from :
    (input : Bytes) (fuel position : ℕ)
    → position ≤ length input
    → length input < position + fuel
    → collect fuel (at input position) ≡ some (lex (drop position input) outside)
collect_from input zero position fit h = absurd (omega arith)
collect_from input (suc fuel) position fit h =
    go (scan (drop position input) [] position false) refl (λ p. collect_from input fuel p)
  where
    go :
        (r : Option Bytes × ℕ)
        → scan (drop position input) [] position false ≡ r
        → ((p : ℕ)
            → p ≤ length input
            → length input < p + fuel
            → collect fuel (at input p) ≡ some (lex (drop p input) outside))
        → collect (suc fuel) (at input position) ≡ some (lex (drop position input) outside)
    go (none, p) e ih =
        collect_done fuel (at input position) (at input p)
          (next-eq-scan input position (none, p) fit e)
        ∙ ap some (sym (scan_result-Takes (drop position input) position (none, p) e).tokens)
    go (some t, p) e ih =
        let taken = scan_result-Takes (drop position input) position (some t, p) e in
        let ahead : position < p = scan_progress_at (drop position input) t position p e in
        let fits : p ≤ length input = omega (arith, taken.within, length-drop position input) in
        collect_more fuel (at input position) (at input p) t (lex (drop p input) outside)
          (next-eq-scan input position (some t, p) fit e) (ih p fits (omega arith))
        ∙ ap some (
            ap (λ x. t ∷ lex x outside)
              (sym (drop-drop (p - position) position p input (omega arith)))
            ∙ sym taken.tokens)

-- On a line that `Parser::new` accepts, the iterator ends after at most one call for each byte and
-- one more, and its tokens are those of the lexer.
pub collect-eq-lex :
    (input : Bytes) (p : Parser) (fuel : ℕ)
    → new input ≡ some p
    → length input < fuel
    → collect fuel p ≡ some (lex input outside)
unfolding new
collect-eq-lex input p fuel e h = ground (arith, collect_from input fuel 0)
