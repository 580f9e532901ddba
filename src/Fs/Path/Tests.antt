-- ===== src/Fs/Path/Tests.antt =====
-- The theorems on paths, on texts.
use riptide.Fs.Path.RoundTrip.{IsSegment, from_str-IsSegment}
use riptide.Fs.Path.{max_path_length}
use riptide.Prelude.{All, ◌≤◌, length}
use riptide.Prelude.{◌≡◌, refl, Bytes, codes, [], ◌∷◌}
use riptide.Fs.Path.{FilePath, root_name, from_str}
use riptide.Fs.Path.RoundTrip.{render, render-from_str}

abbrev text : Bytes
text = codes "/a//b.txt"

abbrev parsed : FilePath
parsed = record { segments = root_name ∷ codes "a" ∷ [] ∷ codes "b.txt" ∷ [] }

render-from_str_example : render parsed.segments ≡ text
unfolding from_str
render-from_str_example = render-from_str text parsed refl

from_str-IsSegment_example :
    All IsSegment parsed.segments × (1 ≤ length text) × (length text ≤ max_path_length)
unfolding from_str
from_str-IsSegment_example = from_str-IsSegment text parsed refl
