-- ===== src/Shell/Commands/Flags.antt =====
-- The flags of a command (kernel/src/shell/mod.rs): `has_boolean_option` finds a flag in any of the
-- arguments that start with a dash, and `without_flags` keeps the others.
use riptide.Prelude.{
  ℕ, ◌≡◌, refl, Bool, false, ◌&&◌, List, [], ◌∷◌, Bytes, any, ◌==◌, All, Bool-cases, inl, inr,
}
use riptide.Fs.State.{ok, ◌>>=◌}
use riptide.Shell.Commands.Options.{is_flag, is_named, tail, has_boolean_option}

-- An argument that holds the flag.
abbrev pub gives : ℕ → Bytes → Bool
gives flag arg = is_flag arg && any (λ c. c == flag) (tail arg)

-- Where no argument starts with two dashes, `has_boolean_option` returns whether one of those that
-- start with a dash holds the flag behind it, and keeps the state.
pub has_boolean_option_lem :
    {S : Type 0} (args : List Bytes) (flag : ℕ) (s : S)
    → All (λ arg. is_named arg ≡ false) args
    → has_boolean_option args flag s ≡ (ok (any (gives flag) args), s)
unfolding has_boolean_option ◌>>=◌
has_boolean_option_lem [] flag s h = refl
has_boolean_option_lem (arg ∷ args) flag s h = elim (Bool-cases (is_flag arg)) [
  | inl e ↦ elim (Bool-cases (any (λ c. c == flag) (tail arg))) [
    | inl g ↦ rw (e, h.0, g) refl
    | inr g ↦ rw (e, h.0, g) (has_boolean_option_lem args flag s h.1)
  ]
  | inr e ↦ rw e (has_boolean_option_lem args flag s h.1)
]
