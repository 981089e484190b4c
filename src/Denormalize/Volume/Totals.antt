-- ===== src/Denormalize/Volume/Totals.antt =====
-- What a row of volumes holds, read against the hourly counts of its key.
use starnext_import.Denormalize.Keys.{NonNormalCountKey, key_beq, key_beq_iff, key_eq}
use starnext_import.Denormalize.Volume.{
  HourlyCount, NonNormalVolCountValue, first, insert, count_key, gather_volumes,
}
use starnext_import.External.Chrono.{Chrono}
use starnext_import.Intermediate.HourFields.{all_hours}
use starnext_import.Intermediate.HourFields.Lookup.{at_hour, at_hour-change_hour, at_hour-all_hours}
use starnext_import.Prelude.HashMap.{HashMap, lookup, upsert, lookup-upsert, modified_or}
use starnext_import.Prelude.{
  ℕ, ◌+◌, ◌%◌, ◌<◌, ◌≡◌, ◌∙◌, sym, ap, refl, Bool, true, false, ◌&&◌, List, [], ◌∷◌, Option, none,
  some, sum_by, if◌then◌else◌, ◌==◌, arith, u32_mod,
}

-- The total of a value; 0 where there is none.
abbrev pub volume_of : Option NonNormalVolCountValue → ℕ
volume_of none = 0
volume_of (some v) = elim v.totalcount [ none ↦ 0 | some t ↦ t ]

-- The field of an hour; none where there is no value.
abbrev pub hour_of : ℕ → Option NonNormalVolCountValue → Option ℕ
hour_of h none = none
hour_of h (some v) = at_hour none h v.hours

module _ ⦃c : Chrono⦄ where
  abbrev pub volume_at : NonNormalCountKey → HourlyCount → ℕ
  volume_at k count = if key_beq k (count_key count) then count.count else 0

  -- The last of the counts of a key in an hour, or `before` if there is none.
  abbrev pub last_at : NonNormalCountKey → ℕ → List HourlyCount → Option ℕ → Option ℕ
  last_at k h [] before = before
  last_at k h (count ∷ counts) before = last_at k h counts (
      if key_beq k (count_key count) && h == c.hour (c.time count.datetime)
      then some count.count
      else before)

  volume_of-insert :
      (count : HourlyCount) (o : Option NonNormalVolCountValue)
      → volume_of (some (modified_or (λ v. insert v count) (first count) o)) % u32_mod
        ≡ (volume_of o + count.count) % u32_mod
  unfolding insert first
  volume_of-insert count none = ground arith
  volume_of-insert count (some v) = ground arith

  hour_of-insert :
      (h : ℕ) (count : HourlyCount) (o : Option NonNormalVolCountValue)
      → h < 24
      → hour_of h (some (modified_or (λ v. insert v count) (first count) o))
        ≡ (if h == c.hour (c.time count.datetime) then some count.count else hour_of h o)
  unfolding insert first
  hour_of-insert h count none lt =
      at_hour-change_hour none h (c.hour (c.time count.datetime)) (λ _. some count.count)
        (all_hours none) lt
      ∙ ap (λ o. if h == c.hour (c.time count.datetime) then some count.count else o)
          (at_hour-all_hours none h)
  hour_of-insert h count (some v) lt =
      at_hour-change_hour none h (c.hour (c.time count.datetime)) (λ _. some count.count) v.hours lt

  total_if :
      (b : Bool) (count : HourlyCount) (o p : Option NonNormalVolCountValue)
      → (b ≡ true → p ≡ o)
      → volume_of (if b then some (modified_or (λ v. insert v count) (first count) p) else o)
          % u32_mod
        ≡ (volume_of o + (if b then count.count else 0)) % u32_mod
  total_if true count o p same = rw (same refl) (volume_of-insert count o)
  total_if false count o p same = omega arith

  hour_if :
      (b : Bool) (h : ℕ) (count : HourlyCount) (o p : Option NonNormalVolCountValue)
      → h < 24
      → (b ≡ true → p ≡ o)
      → hour_of h (if b then some (modified_or (λ v. insert v count) (first count) p) else o)
        ≡ (if b && h == c.hour (c.time count.datetime) then some count.count else hour_of h o)
  hour_if true h count o p lt same =
      ap (λ q. hour_of h (some (modified_or (λ v. insert v count) (first count) q))) (same refl)
      ∙ hour_of-insert h count o lt
  hour_if false h count o p lt same = refl

  same_lookup :
      (k j : NonNormalCountKey) (m : HashMap NonNormalCountKey NonNormalVolCountValue)
      → key_beq k j ≡ true
      → lookup j m ≡ lookup k m
  same_lookup k j m same = ap (λ i. lookup i m) (sym ((key_beq_iff k j).0 same))

  gather_volumes-total :
      (k : NonNormalCountKey) (counts : List HourlyCount)
      (m : HashMap NonNormalCountKey NonNormalVolCountValue)
      → volume_of (lookup k (gather_volumes counts m)) % u32_mod
        ≡ (volume_of (lookup k m) + sum_by (volume_at k) counts) % u32_mod
  unfolding gather_volumes
  gather_volumes-total k [] m = omega arith
  gather_volumes-total k (count ∷ counts) m =
      let j = count_key count in
      let later = gather_volumes-total k counts (upsert j (λ v. insert v count) (first count) m) in
      let read = lookup-upsert k j (λ v. insert v count) (first count) m in
      let now = total_if (key_beq k j) count (lookup k m) (lookup j m) (same_lookup k j m) in
      let here = ap (λ o. volume_of o % u32_mod) read ∙ now in omega (arith, later, here)

  gather_volumes-hour :
      (k : NonNormalCountKey) (h : ℕ) (counts : List HourlyCount)
      (m : HashMap NonNormalCountKey NonNormalVolCountValue)
      → h < 24
      → hour_of h (lookup k (gather_volumes counts m)) ≡ last_at k h counts (hour_of h (lookup k m))
  unfolding gather_volumes
  gather_volumes-hour k h [] m lt = refl
  gather_volumes-hour k h (count ∷ counts) m lt =
      let j = count_key count in
      gather_volumes-hour k h counts (upsert j (λ v. insert v count) (first count) m) lt
      ∙ ap (last_at k h counts) (
          ap (hour_of h) (lookup-upsert k j (λ v. insert v count) (first count) m)
          ∙ hour_if (key_beq k j) h count (lookup k m) (lookup j m) lt (same_lookup k j m))

  -- Of any hourly counts, the value of a key has the sum of the counts of that key as its total,
  -- modulo 2^32, and in the field of each hour the last of the counts of that key and hour, if there
  -- is one.
  pub gather_volumes-counts :
      (counts : List HourlyCount) (k : NonNormalCountKey) (h : ℕ)
      → h < 24
      → (volume_of (lookup k (gather_volumes counts [])) % u32_mod
          ≡ sum_by (volume_at k) counts % u32_mod)
        × (hour_of h (lookup k (gather_volumes counts [])) ≡ last_at k h counts none)
  gather_volumes-counts counts k h lt =
      let total = gather_volumes-total k counts [] in
      let empty : volume_of (lookup k []) ≡ 0 = unfold lookup in refl in
      (omega (arith, total, empty), gather_volumes-hour k h counts [] lt ∙ unfold lookup in refl)
