-- ===== src/Extract/Input.antt =====
-- `InputCount` of src/extract_from_file.rs: the kind of a file, by the directory in which it lies.
use starnext_import.FieldMetadata.Parts.{last_component-concat, to_str-os_text}
use starnext_import.Prelude.FilePath.{
  FilePath, OsText, Component, normal, os_text, to_str, as_os_str, parent, last_component, init,
}
use starnext_import.Prelude.Text.{Text, codes, match_text, match_text_cases, text_eq}
use starnext_import.Prelude.{
  ◌≡◌, ◌↔◌, ◌∙◌, sym, ap, refl, List, [], ◌∷◌, ◌++◌, some, Outcome, ok, err, panic, running, ok_or,
  ◌>>=◌, arith,
}
use starnext_import.Types.Errors.{CountError, bad_path, bad_location}

pub data InputCount : Type 0 where
  fifteen_minute_bicycle fifteen_minute_pedestrian fifteen_minute_vehicle : InputCount
  individual_vehicle individual_bicycle : InputCount

-- The arms of `match parent`.
abbrev location_arms : List (Text × Outcome CountError InputCount)
location_arms =
    (codes "15minutebicycle", ok fifteen_minute_bicycle)
    ∷ (codes "15minutepedestrian", ok fifteen_minute_pedestrian)
    ∷ (codes "15minutevehicle", ok fifteen_minute_vehicle)
    ∷ (codes "vehicle", ok individual_vehicle)
    ∷ (codes "bicycle", ok individual_bicycle)
    ∷ []

abbrev pub from_location : Text → Outcome CountError InputCount
from_location location = match_text location location_arms (err (bad_location location))

unfoldable pub from_parent_dir : FilePath → Outcome CountError InputCount
unfolding match_text text_eq parent last_component to_str
from_parent_dir path = do
  dir ← ok_or (parent path) (bad_path path)
  component ← ok_or (last_component dir) (bad_path path)
  name ← ok_or (to_str (as_os_str component)) (bad_path path)
  from_location name

-- The directory of a kind.
abbrev pub directory : InputCount → Text
directory fifteen_minute_bicycle = codes "15minutebicycle"
directory fifteen_minute_pedestrian = codes "15minutepedestrian"
directory fifteen_minute_vehicle = codes "15minutevehicle"
directory individual_vehicle = codes "vehicle"
directory individual_bicycle = codes "bicycle"

abbrev pub Located : Text → Outcome CountError InputCount → Type 0
Located location (ok k) = location ≡ directory k
Located location (err e) = e ≡ bad_location location
Located location panic = ⊥
Located location running = ⊥

from_location-Located : (location : Text) → Located location (from_location location)
from_location-Located location =
    match_text_cases Located location location_arms (err (bad_location location)) (ground arith)
      (λ n. refl)

from_location-directory : (k : InputCount) → from_location (directory k) ≡ ok k
unfolding match_text text_eq
from_location-directory fifteen_minute_bicycle = refl
from_location-directory _ = refl

init-concat : (dir : FilePath) (c : Component) → init (dir ++ c ∷ []) ≡ dir
unfolding init
init-concat [] c = refl
init-concat (d ∷ []) c = refl
init-concat (d ∷ e ∷ dir) c = ap (λ p. d ∷ p) (init-concat (e ∷ dir) c)

parent-concat : (dir : FilePath) (file : OsText) → parent (dir ++ normal file ∷ []) ≡ some dir
unfolding parent
parent-concat dir file =
    rw (parent, last_component-concat dir (normal file)) (ap some (init-concat dir (normal file)))

from_parent_dir_lem :
    (dir : FilePath) (location : Text) (file : OsText)
    → from_parent_dir ((dir ++ normal (os_text location) ∷ []) ++ normal file ∷ [])
      ≡ from_location location
unfolding from_parent_dir
from_parent_dir_lem dir location file =
    rw
      (
        parent-concat (dir ++ normal (os_text location) ∷ []) file,
        last_component-concat dir (normal (os_text location)),
        to_str-os_text location,
      )
      refl

-- The kind of a file that lies in a directory, in whatever parent and under whatever name, is found
-- exactly if the directory is the one of that kind.
pub from_parent_dir_iff :
    (dir : FilePath) (location : Text) (file : OsText) (k : InputCount)
    → (from_parent_dir ((dir ++ normal (os_text location) ∷ []) ++ normal file ∷ []) ≡ ok k)
      ↔ (location ≡ directory k)
from_parent_dir_iff dir location file k = (
  λ e. rw (sym (from_parent_dir_lem dir location file) ∙ e) at (from_location-Located location),
  λ e. from_parent_dir_lem dir location file ∙ ap from_location e ∙ from_location-directory k,
)
