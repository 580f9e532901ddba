-- ===== src/Prelude/Text.antt =====
-- Byte strings: `&str`, `String` and `Arc<str>` as the list of their bytes. The text literals of the
-- source are ASCII, so that a literal's code points are its bytes.
use Prim.Native.Nat.{ℕ}
use Prim.Native.Char.{code}
use Prim.Native.String.{String}
use mathlib.Core.Path.{◌≡◌, refl}
use mathlib.Core.Bool.{Bool, true, false, ◌&&◌}
use mathlib.Core.List.{List, [], ◌∷◌}
use native.Mathlib.Omega.{arith}
use riptide.Prelude.Tests.{◌==◌}

abbrev pub Bytes : Type 0
Bytes = List ℕ

abbrev pub codes : String → Bytes
codes String.[] = []
codes (String.◌∷◌ c s) = code c ∷ codes s

-- `==` on strings.
infix 50 ◌=s=◌
unfoldable pub ◌=s=◌ : Bytes → Bytes → Bool
[] =s= [] = true
(a ∷ s) =s= (b ∷ t) = a == b && s =s= t
_ =s= _ = false

pub =s=_sound : (s t : Bytes) → (s =s= t) ≡ true → s ≡ t
unfolding ◌=s=◌
=s=_sound [] [] h = refl
=s=_sound (a ∷ s) (b ∷ t) h = ground (arith, =s=_sound s t)
=s=_sound [] (b ∷ t) h = ground arith
=s=_sound (a ∷ s) [] h = ground arith

pub =s=_refl : (s : Bytes) → (s =s= s) ≡ true
unfolding ◌=s=◌
=s=_refl [] = refl
=s=_refl (a ∷ s) = ground (arith, =s=_refl s)
