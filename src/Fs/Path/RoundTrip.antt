-- ===== src/Fs/Path/RoundTrip.antt =====
-- Parsing a path loses nothing: its text comes back from its segments.
use riptide.Fs.Path.{max_path_length}
use mathlib.Core.Path.{subst}
use riptide.Prelude.{inl, inr, length}
use riptide.Prelude.{◌⊎◌, ◌≤◌}
use native.Mathlib.Decide.{ℕ_discrete}
use mathlib.Core.Path.{ap₂}
use riptide.Prelude.{
  ℕ, Bool, false, ◌≡◌, ◌≢◌, refl, sym, ap, List, [], ◌∷◌, ◌++◌, Bytes, ◌==◌, ◌=s=◌, if◌then◌else◌,
  arith, All, ◌∙◌, ==_iff, =s=_refl,
}
use riptide.Fs.Path.{
  FilePath, ok, slash, extend_first, split, root_name, split_rest, segments_of, from_str,
  is_absolute,
}

-- The pieces with a `/` between each two.
pub join : List Bytes → Bytes
join [] = []
join (p ∷ []) = p
join (p ∷ q ∷ ps) = p ++ (slash ∷ join (q ∷ ps))

-- How a path is written down.
pub render : List Bytes → Bytes
render [] = []
render (p ∷ ps) = if p =s= root_name then slash ∷ join ps else join (p ∷ ps)

-- A piece holds no slash.
abbrev pub HasNoSlash : Bytes → Type 0
HasNoSlash = All (λ c. c ≢ slash)

join-extend_first : (c : ℕ) (ps : List Bytes) → join (extend_first c ps) ≡ c ∷ join ps
unfolding join
join-extend_first c [] = refl
join-extend_first c (p ∷ []) = refl
join-extend_first c (p ∷ q ∷ ps) = refl

split-ne-nil : (s : Bytes) → split s ≢ []
unfolding split
split-ne-nil [] = ground arith
split-ne-nil (c ∷ s) = ground (arith, split-ne-nil s)

join-split : (s : Bytes) → join (split s) ≡ s
unfolding split join
join-split [] = refl
join-split (c ∷ s) =
    ground (arith, join-split s, split-ne-nil s, join-extend_first c (split s), ==_iff c slash)

pub split-HasNoSlash : (s : Bytes) → All HasNoSlash (split s)
unfolding split
split-HasNoSlash [] = (tt, tt)
split-HasNoSlash (c ∷ s) = ground (arith, split-HasNoSlash s, ==_iff c slash)

join-split_rest : (s : Bytes) → join (split_rest s) ≡ s
join-split_rest [] = unfold join in refl
join-split_rest (c ∷ s) = join-split (c ∷ s)

-- A piece that does not start with a slash is not the root's name.
render_relative :
    (c : ℕ) (ps : List Bytes) → c ≢ slash → render (extend_first c ps) ≡ join (extend_first c ps)
unfolding render ◌=s=◌
render_relative c [] h = ground (arith, ==_iff c slash)
render_relative c (p ∷ ps) h = ground (arith, ==_iff c slash)

split_relative : (c : ℕ) (s : Bytes) → c ≢ slash → split (c ∷ s) ≡ extend_first c (split s)
unfolding split
split_relative c s h = ground (arith, ==_iff c slash)

segments_of_absolute :
    (c : ℕ) (s : Bytes) → c ≡ slash → segments_of (c ∷ s) ≡ root_name ∷ split_rest s
unfolding segments_of
segments_of_absolute c s h = ground (arith, ==_iff c slash)

segments_of_relative :
    (c : ℕ) (s : Bytes) → c ≢ slash → segments_of (c ∷ s) ≡ extend_first c (split s)
unfolding segments_of split
segments_of_relative c s h = ground (arith, ==_iff c slash)

render_root : (ps : List Bytes) → render (root_name ∷ ps) ≡ slash ∷ join ps
unfolding render
render_root ps = rw =s=_refl refl

render-segments_of : (s : Bytes) → render (segments_of s) ≡ s
render-segments_of [] = unfold render segments_of in refl
render-segments_of (c ∷ s) = elim (ℕ_discrete c slash) [
  | yes e ↦
      ap render (segments_of_absolute c s e)
      ∙ render_root (split_rest s)
      ∙ ap₂ (λ x t. x ∷ t) (sym e) (join-split_rest s)
  | no n ↦
      ap render (segments_of_relative c s n)
      ∙ render_relative c (split s) n
      ∙ join-extend_first c (split s)
      ∙ ap (λ t. c ∷ t) (join-split s)
]

-- A parsed path's segments give back the text that was parsed.
pub render-from_str : (s : Bytes) (p : FilePath) → from_str s ≡ ok p → render p.segments ≡ s
unfolding from_str
render-from_str s p h = ground (arith, render-segments_of s)

abbrev starts_with_slash : Bytes → Bool
starts_with_slash [] = false
starts_with_slash (c ∷ s) = c == slash

first_piece_relative :
    (c : ℕ) (ps : List Bytes)
    → c ≢ slash
    → is_absolute (record { segments = extend_first c ps }) ≡ false
unfolding is_absolute
first_piece_relative c [] h = ground (arith, ==_iff c slash)
first_piece_relative c (p ∷ ps) h = ground (arith, ==_iff c slash)

absolute-segments_of :
    (s : Bytes) → is_absolute (record { segments = segments_of s }) ≡ starts_with_slash s
absolute-segments_of [] = unfold is_absolute segments_of in refl
absolute-segments_of (c ∷ s) = elim (ℕ_discrete c slash) [
  | yes e ↦
      rw (segments_of_absolute c s e) (unfold is_absolute in ground (arith, =s=_refl root_name))
  | no n ↦ rw (segments_of_relative c s n, first_piece_relative c (split s) n) (ground arith)
]

-- `Path::is_absolute` tells what its documentation says: whether the text started with a slash.
pub is_absolute-from_str :
    (s : Bytes) (p : FilePath) → from_str s ≡ ok p → is_absolute p ≡ starts_with_slash s
unfolding from_str is_absolute
is_absolute-from_str s p h = ground (arith, absolute-segments_of s)

-- A segment: the root's, or a name.
abbrev pub IsSegment : Bytes → Type 0
IsSegment s = (s ≡ root_name) ⊎ HasNoSlash s

All-names : (ps : List Bytes) → All HasNoSlash ps → All IsSegment ps
All-names [] h = tt
All-names (p ∷ ps) h = (inr h.0, All-names ps h.1)

split_rest-IsSegment : (s : Bytes) → All IsSegment (split_rest s)
split_rest-IsSegment [] = tt
split_rest-IsSegment (c ∷ s) = All-names (split (c ∷ s)) (split-HasNoSlash (c ∷ s))

segments_of-IsSegment : (s : Bytes) → All IsSegment (segments_of s)
segments_of-IsSegment [] = unfold segments_of in tt
segments_of-IsSegment (c ∷ s) = elim (ℕ_discrete c slash) [
  | yes e ↦ rw (segments_of_absolute c s e) (inl refl, split_rest-IsSegment s)
  | no n ↦ rw (segments_of_relative c s n) (
      All-names (extend_first c (split s))
        (subst (All HasNoSlash) (split_relative c s n) (split-HasNoSlash (c ∷ s))))
]

-- What is parsed has from 1 to 4096 bytes, and each of its segments is the root's or holds no slash.
pub from_str-IsSegment :
    (s : Bytes) (p : FilePath)
    → from_str s ≡ ok p
    → All IsSegment p.segments × (1 ≤ length s) × (length s ≤ max_path_length)
unfolding from_str
from_str-IsSegment s p h = (ground (arith, segments_of-IsSegment s), ground arith, ground arith)
