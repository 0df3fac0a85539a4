-- ===== src/Base/FsPath.antt =====
-- `std::path::Path` on Unix, as far as the source uses it, over the characters of the path.
use mathlib.Core.Bool.{Bool, false, ◌||◌}
use mathlib.Core.Option.{Option, none, some}
use mathlib.Core.List.{List, [], ◌∷◌, ◌++◌}
use keysas.Base.Tests.{◌==◌, if◌then◌else◌}
use keysas.Base.Lists.{is_empty}
use keysas.Base.Strings.{Text, codes, text_eq, split, ends_with}

-- The last component, if it is a normal one: empty parts and `.` are skipped, `..` is none.
last_name : Option Text → List Text → Option Text
last_name found [] = found
last_name found (part ∷ parts) =
    last_name
      (if is_empty part || text_eq part (codes ".")
        then found
        else if text_eq part (codes "..")
        then none
        else some part)
      parts

-- `path.file_name()`
unfoldable pub file_name : Text → Option Text
unfolding last_name split text_eq
file_name path = last_name none (split b'/' path)

-- The name before and after its last dot.
rsplit_dot : Text → Option (Text × Text)
rsplit_dot [] = none
rsplit_dot (c ∷ s) = elim (rsplit_dot s) [
  | some (before, after) ↦ some (c ∷ before, after)
  | none ↦ if c == b'.' then some ([], s) else none
]

-- A name that begins with its only dot has no extension, and neither has one without a dot.
extension_of : Option (Text × Text) → Option Text
extension_of none = none
extension_of (some (before, after)) = if is_empty before then none else some after

stem_of : Text → Option (Text × Text) → Text
stem_of name none = name
stem_of name (some (before, after)) = if is_empty before then name else before

-- `path.extension()`
unfoldable pub extension : Text → Option Text
unfolding file_name rsplit_dot extension_of
extension path = elim (file_name path) [ none ↦ none | some name ↦ extension_of (rsplit_dot name) ]

-- `path.file_stem()`
unfoldable pub file_stem : Text → Option Text
unfolding file_name rsplit_dot stem_of
file_stem path = elim (file_name path) [
  | none ↦ none
  | some name ↦ some (stem_of name (rsplit_dot name))
]

starts_with_slash : Text → Bool
starts_with_slash [] = false
starts_with_slash (c ∷ s) = c == b'/'

-- `base.push(part)`: an absolute part replaces the base; else a separator goes in where one is missing.
unfoldable pub push : Text → Text → Text
unfolding starts_with_slash ends_with text_eq
push base part =
    if starts_with_slash part
    then part
    else if is_empty base || ends_with base (codes "/")
    then base ++ part
    else base ++ b'/' ∷ part

-- `append_ext` of keysas_lib/src/lib.rs: a dotted extension at the end of the path.
unfoldable pub append_ext : Text → Text → Text
append_ext ext path = path ++ b'.' ∷ ext
