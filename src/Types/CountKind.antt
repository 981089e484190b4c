-- ===== src/Types/CountKind.antt =====
-- `CountKind` of src/lib.rs, with `FromStr` and `Display`.
use starnext_import.Prelude.{◌≡◌, ◌↔◌, refl, List, [], ◌∷◌, Outcome, ok, err, panic, running, arith}
use starnext_import.Prelude.Text.{Text, codes, match_text, match_text_cases, text_eq}
use starnext_import.Types.Errors.{CountError, unknown_count_type}

pub data CountKind : Type 0 where
  bicycle1 bicycle2 bicycle3 bicycle4 bicycle5 bicycle6 pedestrian pedestrian2 : CountKind
  crosswalk volume fifteen_min_volume class manual_class speed eight_day loop : CountKind
  turning_movement video : CountKind

-- The arms of the match in `from_str`.
abbrev kinds : List (Text × Outcome CountError CountKind)
kinds =
    (codes "Bicycle 1", ok bicycle1)
    ∷ (codes "Bicycle 2", ok bicycle2)
    ∷ (codes "Bicycle 3", ok bicycle3)
    ∷ (codes "Bicycle 4", ok bicycle4)
    ∷ (codes "Bicycle 5", ok bicycle5)
    ∷ (codes "Bicycle 6", ok bicycle6)
    ∷ (codes "Pedestrian", ok pedestrian)
    ∷ (codes "Pedestrian 2", ok pedestrian2)
    ∷ (codes "Crosswalk", ok crosswalk)
    ∷ (codes "Volume", ok volume)
    ∷ (codes "15 min Volume", ok fifteen_min_volume)
    ∷ (codes "Class", ok class)
    ∷ (codes "Manual Class", ok manual_class)
    ∷ (codes "Speed", ok speed)
    ∷ (codes "8 Day", ok eight_day)
    ∷ (codes "Loop", ok loop)
    ∷ (codes "Turning Movement", ok turning_movement)
    ∷ (codes "Video", ok video)
    ∷ []

unfoldable pub from_str : Text → Outcome CountError CountKind
unfolding match_text text_eq
from_str s = match_text s kinds (err (unknown_count_type s))

unfoldable pub display : CountKind → Text
display bicycle1 = codes "Bicycle 1"
display bicycle2 = codes "Bicycle 2"
display bicycle3 = codes "Bicycle 3"
display bicycle4 = codes "Bicycle 4"
display bicycle5 = codes "Bicycle 5"
display bicycle6 = codes "Bicycle 6"
display pedestrian = codes "Pedestrian"
display pedestrian2 = codes "Pedestrian 2"
display crosswalk = codes "Crosswalk"
display volume = codes "Volume"
display fifteen_min_volume = codes "15 min Volume"
display class = codes "Class"
display manual_class = codes "Manual Class"
display speed = codes "Speed"
display eight_day = codes "8 Day"
display loop = codes "Loop"
display turning_movement = codes "Turning Movement"
display video = codes "Video"

pub from_str-display : (k : CountKind) → from_str (display k) ≡ ok k
unfolding from_str display
from_str-display bicycle1 = refl
from_str-display _ = refl

-- What `from_str` says of a text, by its result.
abbrev pub Names : Text → Outcome CountError CountKind → Type 0
Names s (ok k) = s ≡ display k
Names s (err e) = e ≡ unknown_count_type s
Names s panic = ⊥
Names s running = ⊥

pub from_str-Names : (s : Text) → Names s (from_str s)
unfolding from_str display
from_str-Names s =
    match_text_cases Names s kinds (err (unknown_count_type s)) (ground arith) (λ n. refl)

-- A text is read as a kind exactly if it is what that kind displays.
pub count_kind_from_str_iff : (s : Text) (k : CountKind) → (from_str s ≡ ok k) ↔ (s ≡ display k)
count_kind_from_str_iff s k = (λ e. rw e at (from_str-Names s), λ e. rw e (from_str-display k))
