-- ===== src/Shell/Commands/Options.antt =====
-- The flags of a command (kernel/src/shell/mod.rs): `has_boolean_option` and `without_flags`.
use riptide.Prelude.{ℕ, Bool, true, false, List, [], ◌∷◌, Bytes, any, ◌==◌, if◌then◌else◌}
use riptide.Fs.State.{Act, pure, panics}

-- `starts_with("-")`
abbrev pub is_flag : Bytes → Bool
is_flag [] = false
is_flag (c ∷ s) = c == b'-'

-- `starts_with("--")`
abbrev pub is_named : Bytes → Bool
is_named [] = false
is_named (c ∷ s) = if c == b'-' then is_flag s else false

-- `skip(1)`
abbrev pub tail : Bytes → Bytes
tail [] = []
tail (c ∷ s) = s

-- `has_boolean_option`
unfoldable pub has_boolean_option : {S : Type 0} → List Bytes → ℕ → Act S Bool
has_boolean_option [] flag = pure false
has_boolean_option (arg ∷ args) flag =
    let rest = has_boolean_option args flag in
    if is_flag arg
    then if is_named arg
      then panics
      else if any (λ c. c == flag) (tail arg)
      then pure true
      else rest
    else rest

-- `without_flags`
unfoldable pub without_flags : List Bytes → List Bytes
without_flags [] = []
without_flags (arg ∷ args) =
    let rest = without_flags args in if is_flag arg then rest else arg ∷ rest
