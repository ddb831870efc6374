-- ===== src/Util.antt =====
-- src/util.rs, over Unix paths as texts: what `std::path::Path` does in `is_absolute`, `join` and
-- `parent`.

use mathlib.Core.List.{reverse}
use rosetta_mq.Prelude.{
  Option, none, some, drop, Bool, not, ◌||◌, ◌&&◌, List, [], ◌∷◌, ◌++◌, is_empty, if◌then◌else◌,
}
use rosetta_mq.Text.{Text, text_eq, starts_with, ends_with, split, join, codes}

abbrev pub FilePath : Type 0
FilePath = Text

unfoldable pub is_absolute : FilePath → Bool
unfolding starts_with
is_absolute path = starts_with path (codes "/")

-- `Path::join`: an absolute path replaces the base, and a separator is put in where the base has
-- none at its end.
unfoldable pub path_join : FilePath → FilePath → FilePath
unfolding is_absolute ends_with
path_join base path =
    if is_absolute path
    then path
    else if is_empty base || ends_with base (codes "/")
    then base ++ path
    else base ++ b'/' ∷ path

unfoldable pub resolve_path : FilePath → FilePath → FilePath
unfolding is_absolute path_join
resolve_path base_dir path = if is_absolute path then path else path_join base_dir path

abbrev dot : Text
dot = codes "."

-- The segments from the last one on, without those at the end that are no component: empty ones, and
-- `.` unless it begins a relative path.
unfoldable pub trim_back : Bool → List Text → List Text
unfolding text_eq
trim_back absolute [] = []
trim_back absolute (s ∷ before) =
    let rest = trim_back absolute before in
    if is_empty s || (text_eq s dot && (absolute || not (is_empty before)))
    then rest
    else s ∷ before

-- `Path::parent`: the path without its last component.
unfoldable pub parent : FilePath → Option FilePath
unfolding is_absolute trim_back split join
parent path =
    let root = is_absolute path in
    let segments = reverse (split b'/' (if root then drop 1 path else path)) in
    elim (trim_back root segments) [
      | [] ↦ none
      | _ ∷ before ↦
          some ((if root then codes "/" else []) ++ join b'/' (reverse (trim_back root before)))
    ]

-- `.parent().unwrap_or(base_dir)`
abbrev pub parent_or : FilePath → FilePath → FilePath
parent_or base_dir path = elim (parent path) [ none ↦ base_dir | some dir ↦ dir ]
