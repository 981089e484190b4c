-- ===== src/FieldMetadata.antt =====
-- `FieldMetadata` of src/lib.rs: what a file name says of the count in the file.
pub mod Decimal
pub mod DirectionWords
pub mod Parts
pub mod RoundTrip
pub mod Sound
pub mod Bounds
mod Tests
use starnext_import.Prelude.{
  ℕ, Bool, List, [], ◌∷◌, Option, none, some, Outcome, ok, err, ok_or, map_err, unwrap, ◌>>=◌,
  if◌then◌else◌, ltb, length, get_elem?, u8_mod, u32_mod,
}
use starnext_import.Prelude.FilePath.{FilePath, file_stem, to_str}
use starnext_import.Prelude.Text.{Text, codes, match_text, text_eq, split, parse_uint}
use starnext_import.Types.Direction.{Directions, LaneDirection}
use starnext_import.Types.Direction.LaneDirection.{north, east, south, west}
use starnext_import.Types.Errors.{
  CountError, bad_path, invalid_file_name, too_many_parts, too_few_parts, invalid_record_num,
  invalid_directions, invalid_speed_limit,
}

pub record FieldMetadata : Type 0 where
  pub recordnum : ℕ
  pub directions : Directions
  pub counter_id : Text
  pub speed_limit : Option ℕ

-- `Directions::new`.
abbrev pub new_directions : LaneDirection → Option LaneDirection → Option LaneDirection → Directions
new_directions d1 d2 d3 = record { direction1 = d1; direction2 = d2; direction3 = d3 }

-- The arms of `match parts[1]`.
abbrev pub direction_arms : List (Text × Outcome CountError Directions)
direction_arms =
    (codes "nnn", ok (new_directions north (some north) (some north)))
    ∷ (codes "sss", ok (new_directions south (some south) (some south)))
    ∷ (codes "eee", ok (new_directions east (some east) (some east)))
    ∷ (codes "www", ok (new_directions west (some west) (some west)))
    ∷ (codes "ns", ok (new_directions north (some south) none))
    ∷ (codes "sn", ok (new_directions south (some north) none))
    ∷ (codes "ew", ok (new_directions east (some west) none))
    ∷ (codes "we", ok (new_directions west (some east) none))
    ∷ (codes "nn", ok (new_directions north (some north) none))
    ∷ (codes "ss", ok (new_directions south (some south) none))
    ∷ (codes "ee", ok (new_directions east (some east) none))
    ∷ (codes "ww", ok (new_directions west (some west) none))
    ∷ (codes "n", ok (new_directions north none none))
    ∷ (codes "s", ok (new_directions south none none))
    ∷ (codes "e", ok (new_directions east none none))
    ∷ (codes "w", ok (new_directions west none none))
    ∷ []

unfoldable pub parse_directions : FilePath → Text → Outcome CountError Directions
parse_directions path word =
    match_text word direction_arms (err (invalid_file_name invalid_directions path))

unfoldable pub parse_speed_limit : FilePath → Text → Outcome CountError (Option ℕ)
parse_speed_limit path word =
    if text_eq word (codes "na")
    then ok none
    else map_err (λ _. invalid_file_name invalid_speed_limit path) (parse_uint u8_mod word) >>= λ v.
        ok (some v)

-- `from_path` behind its tests on the number of parts; `parts[i]` panics out of bounds.
unfoldable pub from_parts : FilePath → List Text → Outcome CountError FieldMetadata
from_parts path parts = do
  part0 ← unwrap (get_elem? parts 0)
  recordnum ← map_err (λ _. invalid_file_name invalid_record_num path) (parse_uint u32_mod part0)
  part1 ← unwrap (get_elem? parts 1)
  directions ← parse_directions path part1
  counter_id ← unwrap (get_elem? parts 2)
  part3 ← unwrap (get_elem? parts 3)
  speed_limit ← parse_speed_limit path part3
  ok (record {
    recordnum = recordnum;
    directions = directions;
    counter_id = counter_id;
    speed_limit = speed_limit;
  })

unfoldable pub from_path : FilePath → Outcome CountError FieldMetadata
from_path path = do
  stem ← ok_or (file_stem path) (bad_path path)
  name ← ok_or (to_str stem) (bad_path path)
  let parts = split b'-' name
  if ltb (length parts) 4
      then err (invalid_file_name too_few_parts path)
      else if ltb 4 (length parts)
      then err (invalid_file_name too_many_parts path)
      else from_parts path parts
