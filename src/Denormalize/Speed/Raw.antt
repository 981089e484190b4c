-- ===== src/Denormalize/Speed/Raw.antt =====
-- The raw speeds of a key, read against the vehicles of that key.
use starnext_import.Denormalize.Keys.{NonNormalCountKey, key_beq, key_beq_iff, key_eq}
use starnext_import.Denormalize.Speed.{
  NonNormalRawSpeedValue, raw_first, raw_insert, speed_key, gather_speeds,
}
use starnext_import.External.Chrono.{Chrono}
use starnext_import.External.Float.{Float}
use starnext_import.FieldMetadata.{FieldMetadata}
use starnext_import.Intermediate.HourFields.{all_hours}
use starnext_import.Intermediate.HourFields.Lookup.{at_hour, at_hour-change_hour, at_hour-all_hours}
use starnext_import.Prelude.HashMap.{HashMap, lookup, upsert, lookup-upsert, modified_or}
use starnext_import.Prelude.{
  ℕ, ◌<◌, ◌≡◌, ◌∙◌, sym, ap, refl, Bool, true, false, ◌&&◌, List, [], ◌∷◌, ◌++◌, Option, none, some,
  inl, inr, ok, fold_loop, if◌then◌else◌, ◌==◌, All,
}
use starnext_import.Records.{IndividualVehicle}
use starnext_import.SpeedClass.Gather.{
  Fits, given, given-none, lane_direction-given, lane_direction-none,
}
use mathlib.Core.List.{append_assoc, append-nil}

append_if :
    {A : Type 0} (b : Bool) (xs : List A) (x : A)
    → (if b then xs ++ x ∷ [] else xs) ≡ xs ++ (if b then x ∷ [] else [])
append_if true xs x = refl
append_if false xs x = sym (append-nil xs)

module _ ⦃f : Float⦄ where
  -- The speeds of an hour; none where there is no value.
  abbrev pub speeds_of : ℕ → Option NonNormalRawSpeedValue → List f.F32
  speeds_of h none = []
  speeds_of h (some v) = at_hour [] h v

  speeds_of-insert :
      (h hour : ℕ) (x : f.F32) (o : Option NonNormalRawSpeedValue)
      → h < 24
      → speeds_of h (some (modified_or (λ v. raw_insert v hour x) (raw_first hour x) o))
        ≡ (if h == hour then speeds_of h o ++ x ∷ [] else speeds_of h o)
  unfolding raw_first raw_insert
  speeds_of-insert h hour x none lt =
      at_hour-change_hour [] h hour (λ _. x ∷ []) (all_hours []) lt
      ∙ ap (λ (o : List f.F32). if h == hour then x ∷ [] else o) (at_hour-all_hours [] h)
  speeds_of-insert h hour x (some v) lt = at_hour-change_hour [] h hour (λ s. s ++ x ∷ []) v lt

  speeds_if :
      (b : Bool) (h hour : ℕ) (x : f.F32) (o p : Option NonNormalRawSpeedValue)
      → h < 24
      → (b ≡ true → p ≡ o)
      → speeds_of h
          (if b then some (modified_or (λ v. raw_insert v hour x) (raw_first hour x) p) else o)
        ≡ speeds_of h o ++ (if b && h == hour then x ∷ [] else [])
  speeds_if true h hour x o p lt same =
      ap (λ q. speeds_of h (some (modified_or (λ v. raw_insert v hour x) (raw_first hour x) q)))
        (same refl)
      ∙ speeds_of-insert h hour x o lt
      ∙ append_if (h == hour) (speeds_of h o) x
  speeds_if false h hour x o p lt same = sym (append-nil (speeds_of h o))

module _ ⦃c : Chrono⦄ ⦃f : Float⦄ (m : FieldMetadata) where
  -- The speed of a vehicle of this key and hour.
  abbrev pub speed_at : NonNormalCountKey → ℕ → IndividualVehicle → List f.F32
  speed_at k h v = elim (given m.directions v.lane) [
    | some d ↦
        if key_beq k (speed_key m d v) && h == c.hour (c.time v.time) then v.speed ∷ [] else []
    | none ↦ []
  ]

  -- The speeds of the vehicles of this key and hour, in their order.
  abbrev pub speeds_at : NonNormalCountKey → ℕ → List IndividualVehicle → List f.F32
  speeds_at k h [] = []
  speeds_at k h (v ∷ vs) = speed_at k h v ++ speeds_at k h vs

  gather_round :
      (speeds : HashMap NonNormalCountKey NonNormalRawSpeedValue) (v : IndividualVehicle)
      → Fits m.directions v.lane
      → (speeds' : HashMap NonNormalCountKey NonNormalRawSpeedValue) × (gather_speeds m speeds v
          ≡ ok speeds')
        × ((k : NonNormalCountKey) (h : ℕ)
            → h < 24
            → speeds_of h (lookup k speeds') ≡ speeds_of h (lookup k speeds) ++ speed_at k h v)
  unfolding gather_speeds
  gather_round speeds v (inr e) = (
    speeds,
    rw (lane_direction-none m.directions v.lane e) refl,
    λ k h lt.
        rw (given-none m.directions v.lane e, speed_at)
          (sym (append-nil (speeds_of h (lookup k speeds)))),
  )
  gather_round speeds v (inl (d, e)) =
      let j = speed_key m d v in
      (
        upsert j (λ t. raw_insert t (c.hour (c.time v.time)) v.speed)
            (raw_first (c.hour (c.time v.time)) v.speed) speeds,
        rw (lane_direction-given m.directions v.lane d e) refl,
        λ k h lt.
            rw (e, speed_at)
              (ap (speeds_of h) (
                  lookup-upsert k j (λ t. raw_insert t (c.hour (c.time v.time)) v.speed)
                    (raw_first (c.hour (c.time v.time)) v.speed) speeds)
                ∙ speeds_if (key_beq k j) h (c.hour (c.time v.time)) v.speed (lookup k speeds)
                    (lookup j speeds) lt
                    (λ same. ap (λ i. lookup i speeds) (sym ((key_beq_iff k j).0 same)))),
      )

  gather_from :
      (counts : List IndividualVehicle) (speeds : HashMap NonNormalCountKey NonNormalRawSpeedValue)
      → All (λ v. Fits m.directions v.lane) counts
      → (speeds' : HashMap NonNormalCountKey NonNormalRawSpeedValue) × (fold_loop
            (gather_speeds m)
            counts
            speeds
          ≡ ok speeds')
        × ((k : NonNormalCountKey) (h : ℕ)
            → h < 24
            → speeds_of h (lookup k speeds')
              ≡ speeds_of h (lookup k speeds) ++ speeds_at k h counts)
  unfolding fold_loop
  gather_from [] speeds fit =
      (speeds, refl, λ k h lt. sym (append-nil (speeds_of h (lookup k speeds))))
  gather_from (v ∷ counts) speeds fit =
      let (s1, e1, r1) = gather_round speeds v fit.0 in
      let (s2, e2, r2) = gather_from counts s1 fit.1 in
      (
        s2,
        rw e1 e2,
        λ k h lt.
            r2 k h lt
            ∙ ap (λ l. l ++ speeds_at k h counts) (r1 k h lt)
            ∙ append_assoc (speeds_of h (lookup k speeds)) (speed_at k h v) (speeds_at k h counts),
      )

  -- If no lane panics, the loop over the vehicles ends without an error, and gathers at every key
  -- and hour the speeds of the vehicles of that key and hour in lanes with a direction, in their
  -- order.
  pub gather_speeds-speeds_at :
      (counts : List IndividualVehicle) (k : NonNormalCountKey) (h : ℕ)
      → All (λ v. Fits m.directions v.lane) counts
      → h < 24
      → (speeds : HashMap NonNormalCountKey NonNormalRawSpeedValue) × (fold_loop
            (gather_speeds m)
            counts
            []
          ≡ ok speeds)
        × (speeds_of h (lookup k speeds) ≡ speeds_at k h counts)
  gather_speeds-speeds_at counts k h fit lt =
      let (speeds, e, r) = gather_from counts [] fit in
      (speeds, e, r k h lt ∙ unfold lookup in refl)
