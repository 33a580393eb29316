-- ===== src/FilePath.antt =====
-- `PathBuf::push` and `Path::parent` of Rust's standard library on Unix, for paths with no `.`
-- component.
pub mod Last
use mathlib.Core.List.{reverse}
use phasic_j.Base.{Bool, false, Text, Option, none, some, [], ◌∷◌, ◌++◌, ◌==◌, if◌then◌else◌}

abbrev ends_in_slash : Text → Bool
ends_in_slash [] = false
ends_in_slash (c ∷ []) = c == b'/'
ends_in_slash (c ∷ d ∷ s) = ends_in_slash (d ∷ s)

-- An absolute path replaces the buffer; any other is added behind one slash.
unfoldable pub push : Text → Text → Text
push [] path = path
push (b ∷ buf) [] = if ends_in_slash (b ∷ buf) then b ∷ buf else (b ∷ buf) ++ (b'/' ∷ [])
push (b ∷ buf) (c ∷ path) =
    if c == b'/'
    then c ∷ path
    else if ends_in_slash (b ∷ buf)
    then (b ∷ buf) ++ (c ∷ path)
    else (b ∷ buf) ++ (b'/' ∷ c ∷ path)

abbrev drop_slashes : Text → Text
drop_slashes [] = []
drop_slashes (c ∷ s) = if c == b'/' then drop_slashes s else c ∷ s

abbrev drop_name : Text → Text
drop_name [] = []
drop_name (c ∷ s) = if c == b'/' then c ∷ s else drop_name s

-- The reversed path without its last name, and without the slashes that ended it.
abbrev reversed_parent : Text → Text
reversed_parent [] = []
reversed_parent (c ∷ s) = elim (drop_slashes (c ∷ s)) [ [] ↦ b'/' ∷ [] | d ∷ t ↦ d ∷ t ]

abbrev parent_of_reversed : Text → Option Text
parent_of_reversed [] = none
parent_of_reversed (c ∷ s) = some (reverse (reversed_parent (drop_name (c ∷ s))))

-- The path without its last name. A path with no name, such as `/`, has no parent.
unfoldable pub parent : Text → Option Text
parent path = parent_of_reversed (drop_slashes (reverse path))
