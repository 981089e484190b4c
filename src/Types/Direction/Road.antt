-- ===== src/Types/Direction/Road.antt =====
-- `RoadDirection` of src/lib.rs: `FromStr` and `Display`.
use starnext_import.Prelude.{
  ◌≡◌, ◌⊎◌, inl, inr, ◌↔◌, refl, List, [], ◌∷◌, Outcome, ok, err, panic, running, arith,
}
use starnext_import.Prelude.Text.{
  Text, codes, match_text, match_text_cases, text_eq, to_lowercase, lower,
}
use starnext_import.Types.Direction.{RoadDirection}
use starnext_import.Types.Direction.RoadDirection.{north, east, south, west, both}
use starnext_import.Types.Errors.{CountError, bad_direction}

-- The arms of the match in `from_str`.
abbrev arms : List (Text × Outcome CountError RoadDirection)
arms =
    (codes "north", ok north)
    ∷ (codes "n", ok north)
    ∷ (codes "east", ok east)
    ∷ (codes "e", ok east)
    ∷ (codes "south", ok south)
    ∷ (codes "s", ok south)
    ∷ (codes "west", ok west)
    ∷ (codes "w", ok west)
    ∷ (codes "both", ok both)
    ∷ (codes "b", ok both)
    ∷ []

unfoldable pub from_str : Text → Outcome CountError RoadDirection
unfolding match_text text_eq lower
from_str s = match_text (to_lowercase s) arms (err (bad_direction s))

unfoldable pub display : RoadDirection → Text
display north = codes "north"
display east = codes "east"
display south = codes "south"
display west = codes "west"
display both = codes "both"

-- The one-letter name of a direction.
abbrev pub initial : RoadDirection → Text
initial north = codes "n"
initial east = codes "e"
initial south = codes "s"
initial west = codes "w"
initial both = codes "b"

-- What `from_str` says of a text, by its result: the name of a direction or its first letter, in
-- letters of either case.
abbrev pub Names : Text → Text → Outcome CountError RoadDirection → Type 0
Names s lowered (ok d) = (lowered ≡ display d) ⊎ (lowered ≡ initial d)
Names s lowered (err e) = e ≡ bad_direction s
Names s lowered panic = ⊥
Names s lowered running = ⊥

pub from_str-Names : (s : Text) → Names s (to_lowercase s) (from_str s)
unfolding from_str display
from_str-Names s =
    match_text_cases (Names s) (to_lowercase s) arms (err (bad_direction s)) (ground arith)
      (λ n. refl)

from_str_long : (s : Text) (d : RoadDirection) → to_lowercase s ≡ display d → from_str s ≡ ok d
unfolding from_str display
from_str_long s north h = rw (h, match_text, text_eq)
from_str_long s _ h = rw (h, match_text, text_eq)

from_str_short : (s : Text) (d : RoadDirection) → to_lowercase s ≡ initial d → from_str s ≡ ok d
unfolding from_str
from_str_short s north h = rw (h, match_text, text_eq)
from_str_short s _ h = rw (h, match_text, text_eq)

-- A text is read as a direction exactly if, in lower case, it is the direction's name or the first
-- letter of that.
pub road_from_str_iff :
    (s : Text) (d : RoadDirection)
    → (from_str s ≡ ok d) ↔ ((to_lowercase s ≡ display d) ⊎ (to_lowercase s ≡ initial d))
road_from_str_iff s d = (
  λ e. rw e at (from_str-Names s),
  λ h. elim h [ inl long ↦ from_str_long s d long | inr short ↦ from_str_short s d short ],
)

-- Every direction that is written is read back.
pub from_str-display : (d : RoadDirection) → from_str (display d) ≡ ok d
unfolding from_str display
from_str-display north = refl
from_str-display _ = refl
