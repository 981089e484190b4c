-- ===== src/FieldMetadata/Tests.antt =====
-- File names, as in the tests of src/lib.rs.
use starnext_import.FieldMetadata.DirectionWords.{
  Reads, word, parse_directions-Reads, parse_directions-word,
}
use starnext_import.FieldMetadata.RoundTrip.{base_name, from_path-base_name, from_path-part_count}
use starnext_import.FieldMetadata.Sound.{NamedBy, from_path_sound}
use starnext_import.FieldMetadata.{FieldMetadata, from_path, parse_directions, new_directions}
use starnext_import.Prelude.FilePath.{FilePath, normal, os_text, file_stem}
use starnext_import.Prelude.Text.{codes}
use starnext_import.Prelude.{◌≡◌, refl, [], ◌∷◌, ◌++◌, none, some, ok, err, inl, inr, arith}
use starnext_import.Types.Direction.LaneDirection.{east, west}
use starnext_import.Types.Errors.{invalid_file_name, too_few_parts}

abbrev east_west : FieldMetadata
east_west = record {
  recordnum = 166905;
  directions = new_directions east (some west) none;
  counter_id = codes "40972";
  speed_limit = some 35;
}

east_west_read :
    from_path ([] ++ normal (os_text (base_name east_west ++ b'.' ∷ codes "txt")) ∷ [])
    ≡ ok east_west
east_west_read =
    from_path-base_name [] east_west (codes "txt")
      (record {
        recordnum-lt = omega arith;
        directions-IsListed = inr (inl (inr refl, refl));
        counter_id-Lacks = (refl, (refl, (refl, (refl, (refl, tt)))));
        speed_limit-FitsU8 = omega arith;
      })
      (refl, (refl, (refl, tt)))

east_west_named :
    NamedBy ([] ++ normal (os_text (base_name east_west ++ b'.' ∷ codes "txt")) ∷ []) east_west
east_west_named =
    from_path_sound ([] ++ normal (os_text (base_name east_west ++ b'.' ∷ codes "txt")) ∷ [])
      east_west east_west_read

abbrev two_parts : FilePath
two_parts = normal (os_text (codes "rc-166905.txt")) ∷ []

two_parts_refused : from_path two_parts ≡ err (invalid_file_name too_few_parts two_parts)
unfolding file_stem
two_parts_refused = from_path-part_count two_parts (codes "rc-166905") refl (λ e. omega arith)

east_west_word : Reads two_parts (codes "ew") (parse_directions two_parts (codes "ew"))
east_west_word = parse_directions-Reads two_parts (codes "ew")

west_read :
    parse_directions two_parts (word (new_directions west none none))
    ≡ ok (new_directions west none none)
west_read = parse_directions-word two_parts (new_directions west none none) (inl (refl, refl))
