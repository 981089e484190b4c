-- ===== src/FieldMetadata/Sound.antt =====
-- What an accepted path looks like.
use starnext_import.FieldMetadata.DirectionWords.{IsListed, word, parse_directions-Reads}
use starnext_import.FieldMetadata.Parts.{Lacks, os_text_of_to_str, join, join-split, split-Lacks}
use starnext_import.FieldMetadata.{
  FieldMetadata, from_parts, from_path, parse_directions, parse_speed_limit,
}
use starnext_import.Prelude.{
  ◌≡◌, refl, sym, ap, ◌∙◌, List, [], ◌∷◌, ◌++◌, Option, none, some, Outcome, ok, err, >>=-eq-ok,
  map_err, ok_or, length, ltb, if◌then◌else◌, arith, u32_mod,
}
use starnext_import.Prelude.FilePath.{FilePath, os_text, to_str, file_stem}
use starnext_import.Prelude.Text.{Text, split, parse_uint}
use starnext_import.Types.Errors.{
  bad_path, invalid_file_name, invalid_record_num, too_few_parts, too_many_parts,
}

-- The stem of the path is four parts with dashes between them: a number that is read as the record
-- number, the word of a listed set of directions, the counter id, and the speed limit.
pub record NamedBy (path : FilePath) (m : FieldMetadata) : Type 0 where
  pub number : Text
  pub limit : Text
  pub stem :
      file_stem path
      ≡ some
          (os_text (number ++ b'-' ∷ (word m.directions ++ b'-' ∷ (m.counter_id ++ b'-' ∷ limit))))
  pub recordnum : parse_uint u32_mod number ≡ ok m.recordnum
  pub directions : IsListed m.directions
  pub speed_limit : parse_speed_limit path limit ≡ ok m.speed_limit
  pub counter_id : Lacks b'-' m.counter_id

map_err-eq-ok {ℓ} :
    {D E : Type 0} {A : Type ℓ} (f : D → E) (r : Outcome D A) {a : A}
    → map_err f r ≡ ok a
    → r ≡ ok a
map_err-eq-ok f r h = ground arith

ok_or-eq-ok {ℓ} :
    {E : Type 0} {A : Type ℓ} (o : Option A) (e : E) {a : A} → ok_or o e ≡ ok a → o ≡ some a
ok_or-eq-ok (some a) e h = ground arith
ok_or-eq-ok none e h = cc

from_parts_sound :
    (path : FilePath) (a b c d : Text) {m : FieldMetadata}
    → from_parts path (a ∷ b ∷ c ∷ d ∷ []) ≡ ok m
    → (parse_uint u32_mod a ≡ ok m.recordnum)
      × (parse_directions path b ≡ ok m.directions)
      × (c ≡ m.counter_id)
      × (parse_speed_limit path d ≡ ok m.speed_limit)
unfolding from_parts
from_parts_sound path a b c d h =
    let (n, en, h1) =
      >>=-eq-ok (map_err (λ _. invalid_file_name invalid_record_num path) (parse_uint u32_mod a)) _
        h in
    let (ds, ed, h2) = >>=-eq-ok (parse_directions path b) _ h1 in
    let (l, el, h3) = >>=-eq-ok (parse_speed_limit path d) _ h2 in
    let en' = map_err-eq-ok _ (parse_uint u32_mod a) en in (cc, cc, cc, cc)

four : (ps : List Text) → length ps ≡ 4 → (a b c d : Text) × (ps ≡ a ∷ b ∷ c ∷ d ∷ [])
four (a ∷ b ∷ c ∷ d ∷ []) h = (a, b, c, d, refl)
four (a ∷ b ∷ c ∷ d ∷ e ∷ ps) h = absurd (omega arith)
four [] h = absurd (omega arith)
four (a ∷ []) h = absurd (omega arith)
four (a ∷ b ∷ []) h = absurd (omega arith)
four (a ∷ b ∷ c ∷ []) h = absurd (omega arith)

counted :
    (path : FilePath) (ps : List Text) {m : FieldMetadata}
    → (if ltb (length ps) 4
        then err (invalid_file_name too_few_parts path)
        else if ltb 4 (length ps)
        then err (invalid_file_name too_many_parts path)
        else from_parts path ps)
      ≡ ok m
    → (length ps ≡ 4) × (from_parts path ps ≡ ok m)
counted path ps h = ground arith

stem_of_parts :
    (name a b c d b' c' : Text)
    → split b'-' name ≡ a ∷ b ∷ c ∷ d ∷ []
    → b ≡ b'
    → c ≡ c'
    → name ≡ a ++ b'-' ∷ (b' ++ b'-' ∷ (c' ++ b'-' ∷ d))
unfolding join
stem_of_parts name a b c d b' c' e p q =
    rw (← p, ← q) (sym (join-split b'-' name) ∙ ap (join b'-') e)

named_by :
    (path : FilePath) (name a b c d : Text) (m : FieldMetadata)
    → file_stem path ≡ some (os_text name)
    → split b'-' name ≡ a ∷ b ∷ c ∷ d ∷ []
    → from_parts path (a ∷ b ∷ c ∷ d ∷ []) ≡ ok m
    → NamedBy path m
named_by path name a b c d m es e h =
    let (r, ds, ci, sl) = from_parts_sound path a b c d h in
    let (w, listed) = rw ds at (parse_directions-Reads path b) in
    record {
      number = a;
      limit = d;
      stem = es ∙ ap (λ t. some (os_text t)) (stem_of_parts name a b c d _ _ e w ci);
      recordnum = r;
      directions = listed;
      speed_limit = sl;
      counter_id = rw (← ci) ((rw e at (split-Lacks b'-' name)).1.1.0);
    }

-- A path is accepted only if its stem is four parts with dashes between them, which give the
-- record number, the directions, the counter id and the speed limit.
pub from_path_sound : (path : FilePath) (m : FieldMetadata) → from_path path ≡ ok m → NamedBy path m
unfolding from_path
from_path_sound path m h =
    let (stem, es, h1) = >>=-eq-ok (ok_or (file_stem path) (bad_path path)) _ h in
    let (name, en, h2) = >>=-eq-ok (ok_or (to_str stem) (bad_path path)) _ h1 in
    let (len, h3) = counted path (split b'-' name) h2 in
    let (a, b, c, d, e) = four (split b'-' name) len in
    named_by path name a b c d m
      (ok_or-eq-ok (file_stem path) (bad_path path) es
        ∙ ap some (os_text_of_to_str stem (ok_or-eq-ok (to_str stem) (bad_path path) en)))
      e (rw e at h3)
