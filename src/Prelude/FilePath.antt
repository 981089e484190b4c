-- ===== src/Prelude/FilePath.antt =====
-- `std::path::Path` and `std::ffi::OsStr`, as far as the program uses them. A path is the list of
-- its components, the last one at the end; a name is a list of code points and of bytes that are
-- no Unicode.
use mathlib.Core.Bool.{Bool, false}
use mathlib.Core.List.{List, [], ◌∷◌}
use mathlib.Core.Option.{Option, none, some}
use Prim.Native.Nat.{ℕ}
use starnext_import.Prelude.Tests.{◌==◌, if◌then◌else◌}
use starnext_import.Prelude.Text.{Text, codes}

pub data OsUnit : Type 0 where
  char : ℕ → OsUnit
  stray : ℕ → OsUnit

abbrev pub OsText : Type 0
OsText = List OsUnit

-- `name.to_str()`.
unfoldable pub to_str : OsText → Option Text
to_str [] = some []
to_str (stray b ∷ n) = none
to_str (char c ∷ n) = elim (to_str n) [ none ↦ none | some t ↦ some (c ∷ t) ]

abbrev pub os_text : Text → OsText
os_text [] = []
os_text (c ∷ t) = char c ∷ os_text t

pub data Component : Type 0 where
  root_dir cur_dir parent_dir : Component
  normal : OsText → Component

abbrev pub FilePath : Type 0
FilePath = List Component

-- `component.as_os_str()`.
abbrev pub as_os_str : Component → OsText
as_os_str root_dir = os_text (codes "/")
as_os_str cur_dir = os_text (codes ".")
as_os_str parent_dir = os_text (codes "..")
as_os_str (normal n) = n

-- `path.components().last()`.
unfoldable pub last_component : FilePath → Option Component
last_component [] = none
last_component (c ∷ []) = some c
last_component (c ∷ d ∷ p) = last_component (d ∷ p)

-- All components but the last.
unfoldable pub init : FilePath → FilePath
init [] = []
init (c ∷ []) = []
init (c ∷ d ∷ p) = c ∷ init (d ∷ p)

-- `path.parent()`: there is none for a path that ends in its root, or is empty.
unfoldable pub parent : FilePath → Option FilePath
unfolding init last_component
parent p = elim (last_component p) [ none ↦ none | some root_dir ↦ none | some _ ↦ some (init p) ]

-- `path.file_name()`.
unfoldable pub file_name : FilePath → Option OsText
unfolding last_component
file_name p = elim (last_component p) [ some (normal n) ↦ some n | _ ↦ none ]

abbrev pub is_dot : OsUnit → Bool
is_dot (char c) = c == b'.'
is_dot (stray b) = false

-- What stands before the last dot, if there is one.
unfoldable pub before_last_dot : OsText → Option OsText
before_last_dot [] = none
before_last_dot (u ∷ n) = elim (before_last_dot n) [
  | some m ↦ some (u ∷ m)
  | none ↦ if is_dot u then some [] else none
]

-- `path.file_stem()`: a name whose only dot is its first character is kept.
unfoldable pub stem : OsText → OsText
unfolding before_last_dot
stem n = elim (before_last_dot n) [ none ↦ n | some [] ↦ n | some m ↦ m ]

unfoldable pub file_stem : FilePath → Option OsText
unfolding file_name stem
file_stem p = elim (file_name p) [ none ↦ none | some n ↦ some (stem n) ]

-- What follows the last dot.
unfoldable pub after_last_dot : OsText → Option OsText
after_last_dot [] = none
after_last_dot (u ∷ n) = elim (after_last_dot n) [
  | some m ↦ some m
  | none ↦ if is_dot u then some n else none
]

-- `path.extension()`.
unfoldable pub extension : FilePath → Option OsText
unfolding file_name before_last_dot after_last_dot
extension p = elim (file_name p) [
  | none ↦ none
  | some n ↦ elim (before_last_dot n) [ none ↦ none | some [] ↦ none | some _ ↦ after_last_dot n ]
]
