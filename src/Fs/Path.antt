-- ===== src/Fs/Path.antt =====
-- Paths as the VFS takes them (kernel/src/fs/path.rs): parsing into segments.
pub mod RoundTrip
mod Tests
use riptide.Prelude.{
  ℕ, Bool, true, false, ◌&&◌, List, [], ◌∷◌, Bytes, codes, length, ltb, ◌==◌, ◌=s=◌, ◌^◌,
  if◌then◌else◌,
}

-- `MAX_PATH_LENGTH`
abbrev pub max_path_length : ℕ
max_path_length = 4096

-- `struct Path`
pub record FilePath : Type 0 where
  pub segments : List Bytes

-- `enum PathParseError`, and the panic of `todo!("parse non-ascii paths")`.
pub data Parsed : Type 0 where
  ok : FilePath → Parsed
  empty max_length_exceeded : Parsed
  non_ascii : Parsed

abbrev pub slash : ℕ
slash = b'/'

-- `str::is_ascii`
unfoldable pub is_ascii : Bytes → Bool
is_ascii [] = true
is_ascii (c ∷ s) = ltb c 128 && is_ascii s

-- One byte more in front of the first piece.
abbrev pub extend_first : ℕ → List Bytes → List Bytes
extend_first c [] = (c ∷ []) ∷ []
extend_first c (p ∷ ps) = (c ∷ p) ∷ ps

-- `s.split("/")`: always one piece more than there are slashes.
unfoldable pub split : Bytes → List Bytes
split [] = [] ∷ []
split (c ∷ s) = let rest = split s in if c == slash then [] ∷ rest else extend_first c rest

abbrev pub root_name : Bytes
root_name = codes "/"

-- The pieces that are pushed behind the root's segment: none for an empty rest.
abbrev pub split_rest : Bytes → List Bytes
split_rest [] = []
split_rest (c ∷ s) = split (c ∷ s)

-- The segments of a text: the leading `/` is a segment of its own.
unfoldable pub segments_of : Bytes → List Bytes
unfolding split
segments_of [] = []
segments_of (c ∷ s) = if c == slash then root_name ∷ split_rest s else split_rest (c ∷ s)

-- `Path::from_str`
unfoldable pub from_str : Bytes → Parsed
unfolding is_ascii segments_of
from_str s =
    if is_ascii s
    then if length s == 0
      then empty
      else if ltb max_path_length (length s)
      then max_length_exceeded
      else ok (record { segments = segments_of s })
    else non_ascii

abbrev first_is_root : List Bytes → Bool
first_is_root [] = false
first_is_root (s ∷ ss) = s =s= root_name

-- `Path::is_absolute`; a parsed path has a first segment.
unfoldable pub is_absolute : FilePath → Bool
unfolding ◌=s=◌
is_absolute p = first_is_root p.segments
