-- ===== src/FieldMetadata/RoundTrip.antt =====
-- File names that are written by the specification of src/bin/import.rs, and what `from_path` says
-- of any path.
use starnext_import.FieldMetadata.Decimal.{
  decimal, decimal-is_digit, decimal-ne-nil, parse_uint-decimal,
}
use starnext_import.FieldMetadata.DirectionWords.{
  IsListed, letter, letters, word, parse_directions-word,
}
use starnext_import.FieldMetadata.Parts.{
  Lacks, split_last, split_front, to_str-os_text, stem-os_text, file_stem-concat, count,
  length-split,
}
use starnext_import.FieldMetadata.{FieldMetadata, from_parts, from_path, parse_speed_limit}
use starnext_import.Prelude.{
  ℕ, ◌<◌, ◌≡◌, ◌≢◌, refl, ap, ◌∙◌, true, false, [], ◌∷◌, ◌++◌, Option, none, some, ok, err, All,
  All-append, All-imp, ◌==◌, if◌then◌else◌, arith, u8_mod, u32_mod, ltb,
}
use starnext_import.Prelude.FilePath.{FilePath, normal, os_text, file_stem}
use starnext_import.Prelude.Text.{Text, codes, split, text_eq, is_digit}
use starnext_import.Types.Direction.{Directions, LaneDirection}
use starnext_import.Types.Direction.LaneDirection.{north}
use starnext_import.Types.Errors.{invalid_file_name, too_few_parts, too_many_parts}

abbrev pub speed_word : Option ℕ → Text
speed_word none = codes "na"
speed_word (some v) = decimal v

-- `[record num]-[direction(s)]-[physical counter id]-[speed limit]`.
abbrev pub base_name : FieldMetadata → Text
base_name m =
    decimal m.recordnum
    ++ b'-' ∷ (word m.directions ++ b'-' ∷ (m.counter_id ++ b'-' ∷ speed_word m.speed_limit))

abbrev pub FitsU8 : Option ℕ → Type 0
FitsU8 none = Unit
FitsU8 (some v) = v < u8_mod

-- The values of the fields that a file name can carry.
pub record IsNameable (m : FieldMetadata) : Type 0 where
  pub recordnum-lt : m.recordnum < u32_mod
  pub directions-IsListed : IsListed m.directions
  pub counter_id-Lacks : Lacks b'-' m.counter_id
  pub speed_limit-FitsU8 : FitsU8 m.speed_limit

not_digit : (x c : ℕ) → is_digit c ≡ false → is_digit x ≡ true → (x == c) ≡ false
not_digit x c h k = ground arith

decimal-Lacks : (n : ℕ) → Lacks b'-' (decimal n)
decimal-Lacks n = All-imp (λ x h. not_digit x b'-' refl h) (decimal n) (decimal-is_digit n)

letter-Lacks : (d : LaneDirection) → (letter d == b'-') ≡ false
letter-Lacks north = refl
letter-Lacks _ = refl

letters-Lacks : (o : Option LaneDirection) → Lacks b'-' (letters o)
letters-Lacks none = tt
letters-Lacks (some d) = (letter-Lacks d, tt)

word-Lacks : (d : Directions) → Lacks b'-' (word d)
word-Lacks d = (
  letter-Lacks d.direction1,
  All-append (λ x. (x == b'-') ≡ false) (letters d.direction2) (letters d.direction3)
      (letters-Lacks d.direction2) (letters-Lacks d.direction3),
)

speed_word-Lacks : (o : Option ℕ) → Lacks b'-' (speed_word o)
speed_word-Lacks none = (refl, (refl, tt))
speed_word-Lacks (some v) = decimal-Lacks v

split-base_name :
    (m : FieldMetadata)
    → IsNameable m
    → split b'-' (base_name m)
      ≡ decimal m.recordnum ∷ word m.directions ∷ m.counter_id ∷ speed_word m.speed_limit ∷ []
split-base_name m h =
    split_front b'-' (decimal m.recordnum) _ (decimal-Lacks m.recordnum)
    ∙ ap (◌∷◌ (decimal m.recordnum)) (
        split_front b'-' (word m.directions) _ (word-Lacks m.directions)
        ∙ ap (◌∷◌ (word m.directions)) (
            split_front b'-' m.counter_id _ h.counter_id-Lacks
            ∙ ap (◌∷◌ m.counter_id)
                (split_last b'-' (speed_word m.speed_limit) (speed_word-Lacks m.speed_limit))))

not_na : (t : Text) → All (λ c. is_digit c ≡ true) t → text_eq t (codes "na") ≡ false
unfolding text_eq
not_na [] h = refl
not_na (x ∷ t) h = rw (not_digit x b'n' refl h.0)

parse_speed_limit-speed_word :
    (path : FilePath) (o : Option ℕ) → FitsU8 o → parse_speed_limit path (speed_word o) ≡ ok o
unfolding parse_speed_limit text_eq
parse_speed_limit-speed_word path none h = refl
parse_speed_limit-speed_word path (some v) h =
    rw (not_na (decimal v) (decimal-is_digit v), parse_uint-decimal u8_mod v h)

from_parts-base_name :
    (path : FilePath) (m : FieldMetadata)
    → IsNameable m
    → from_parts path
        (decimal m.recordnum ∷ word m.directions ∷ m.counter_id ∷ speed_word m.speed_limit ∷ [])
      ≡ ok m
unfolding from_parts
from_parts-base_name path m h = rw (
  from_parts,
  parse_uint-decimal u32_mod m.recordnum h.recordnum-lt,
  parse_directions-word path m.directions h.directions-IsListed,
  parse_speed_limit-speed_word path m.speed_limit h.speed_limit-FitsU8,
)

append-ne-nil : (s t : Text) → s ≢ [] → s ++ t ≢ []
append-ne-nil [] t ne = absurd (ne refl)
append-ne-nil (x ∷ s) t ne = λ e. cc

-- A file that is named by the specification, with any extension, gives back the record number,
-- directions, counter id and speed limit that it was named for: for a record number of 32 bits,
-- directions of the listed kinds, a counter id without a dash and a speed limit of 8 bits or none.
pub from_path-base_name :
    (dir : FilePath) (m : FieldMetadata) (ext : Text)
    → IsNameable m
    → Lacks b'.' ext
    → from_path (dir ++ normal (os_text (base_name m ++ b'.' ∷ ext)) ∷ []) ≡ ok m
unfolding from_path
from_path-base_name dir m ext h k =
    rw
      (
        file_stem-concat dir (os_text (base_name m ++ b'.' ∷ ext)),
        stem-os_text (base_name m) ext
            (append-ne-nil (decimal m.recordnum) _ (decimal-ne-nil m.recordnum)) k,
        to_str-os_text (base_name m),
        split-base_name m h,
      )
      (from_parts-base_name (dir ++ normal (os_text (base_name m ++ b'.' ∷ ext)) ∷ []) m h)

-- A stem without exactly three dashes is refused: fewer are too few parts, more are too many.
pub from_path-part_count :
    (path : FilePath) (name : Text)
    → file_stem path ≡ some (os_text name)
    → count b'-' name ≢ 3
    → from_path path
      ≡ err (
          invalid_file_name
            (if ltb (count b'-' name) 3 then too_few_parts else too_many_parts)
            path)
unfolding from_path
from_path-part_count path name e ne =
    rw (e, to_str-os_text name) (ground (arith, length-split b'-' name))
