-- ===== src/Shell/Console/Format.antt =====
-- What the shell uses of `core::fmt`, on bytes: `Display` of `u64`, `{:>n}` and `Debug` of a list.
use riptide.Prelude.{
  ℕ, zero, suc, ◌+◌, ◌-◌, ◌/◌, ◌%◌, List, [], ◌∷◌, ◌++◌, Bytes, codes, ltb, length, replicate,
  if◌then◌else◌,
}

-- The digits of a number in front of those that are there.
unfoldable pub digits : ℕ → ℕ → Bytes → Bytes
digits zero n acc = acc
digits (suc fuel) n acc =
    let here = (b'0' + n % 10) ∷ acc in
    let rest = digits fuel (n / 10) here in if ltb n 10 then here else rest

-- `{}` of a `u64`, which has at most 20 digits
unfoldable pub show : ℕ → Bytes
unfolding digits
show n = digits 20 n []

-- `{:>n}`
unfoldable pub pad_left : ℕ → Bytes → Bytes
pad_left n text = replicate (n - length text) b' ' ++ text

abbrev pub joined : Bytes → List Bytes → Bytes
joined separator [] = []
joined separator (t ∷ []) = t
joined separator (t ∷ u ∷ ts) = t ++ separator ++ joined separator (u ∷ ts)

-- The parts of `core` and `alloc` that are left open: `{:?}` of a string, and
-- `String::from_utf8_lossy`.
pub record Texts : Type 0 where
  pub debug_str : Bytes → Bytes
  pub from_utf8_lossy : Bytes → Bytes

-- `{:?}` of a list of strings
unfoldable pub debug_list : Texts → List Bytes → Bytes
debug_list T ts = codes "[" ++ joined (codes ", ") (debug_each ts) ++ codes "]"
  where
    debug_each : List Bytes → List Bytes
    debug_each [] = []
    debug_each (t ∷ ts) = T.debug_str t ∷ debug_each ts
