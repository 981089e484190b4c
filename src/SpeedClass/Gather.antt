-- ===== src/SpeedClass/Gather.antt =====
-- The maps that are gathered, read against the number of vehicles of each key.
use starnext_import.Binning.Time.{bin_time-IsBinOf}
use starnext_import.Binning.{TimeInterval}
use starnext_import.External.Chrono.{Chrono, ChronoLaws}
use starnext_import.External.Float.{Float}
use starnext_import.FieldMetadata.{FieldMetadata}
use starnext_import.Intermediate.ClassCount
use starnext_import.Intermediate.ClassCount.{
  VehicleClassCount, IsTallied, new-IsTallied, insert-IsTallied, insert_effect,
}
use starnext_import.Intermediate.SpeedRange
use starnext_import.Intermediate.SpeedRange.{SpeedRangeCount}
use starnext_import.Prelude.HashMap.{lookup, upsert, lookup-upsert, modified_or}
use starnext_import.Intermediate.SpeedRange.Effect
use starnext_import.Types.VehicleClass.{VehicleClass}
use mathlib.Core.Path.{subst}
use native.Mathlib.Nat.{add-zero}
use starnext_import.Prelude.{
  ◌∙◌, sym, ap, ◌⊎◌, inl, inr, ◌<◌, zero, suc, ℕ, ◌+◌, ◌%◌, ◌≡◌, Bool, true, false, List, [], ◌∷◌,
  Option, none, some, ok, fold_loop, fold_loop_inv, if◌then◌else◌, arith, refl, All, sum_by,
  u32_mod,
}
use starnext_import.Records.{IndividualVehicle}
use starnext_import.SpeedClass.{
  BinnedCountKey, key_beq, key_eq, lane_direction, key_beq_iff, Maps, gather, binned_key,
}
use starnext_import.Types.Direction.{Directions, LaneDirection}

-- The direction of a lane in the name of a file: that of its letter.
abbrev pub given : Directions → ℕ → Option LaneDirection
given ds (suc zero) = some ds.direction1
given ds (suc (suc zero)) = ds.direction2
given ds (suc (suc (suc zero))) = ds.direction3
given ds _ = none

-- The maps hold the same keys, and the two values of a key count `n` vehicles of this record number,
-- in the direction that is given for its lane.
abbrev pub Agrees :
    ℕ → Option LaneDirection → ℕ → Option SpeedRangeCount → Option VehicleClassCount → Type 0
Agrees recordnum lane_given n (some s) (some w) =
    (s.total ≡ n % u32_mod)
    × (w.total ≡ n % u32_mod)
    × IsTallied w
    × (s.recordnum ≡ recordnum)
    × (w.recordnum ≡ recordnum)
    × (lane_given ≡ some s.direction)
    × (lane_given ≡ some w.direction)
Agrees recordnum lane_given n none none = n ≡ 0
Agrees recordnum lane_given n _ _ = ⊥

-- The lane is not among 1, 2 and 3.
abbrev pub IsUnknown : ℕ → Type 0
IsUnknown lane = (lane ≡ 0) ⊎ (3 < lane)

-- The lane of a vehicle does not panic: its direction is given, or it is not among 1, 2 and 3.
abbrev pub Fits : Directions → ℕ → Type 0
Fits ds lane = ((d : LaneDirection) × (given ds lane ≡ some d)) ⊎ IsUnknown lane

pub given-none : (ds : Directions) (lane : ℕ) → IsUnknown lane → given ds lane ≡ none
given-none ds zero h = refl
given-none ds (suc zero) h = absurd (omega (arith, h))
given-none ds (suc (suc zero)) h = absurd (omega (arith, h))
given-none ds (suc (suc (suc zero))) h = absurd (omega (arith, h))
given-none ds (suc (suc (suc (suc n)))) h = refl

-- The match on a lane finds the direction that is given for it, and none for an unknown lane.
pub lane_direction-given :
    (ds : Directions) (lane : ℕ) (d : LaneDirection)
    → given ds lane ≡ some d
    → lane_direction ds lane ≡ ok (some d)
unfolding lane_direction
lane_direction-given ds zero d h = cc
lane_direction-given ds (suc zero) d h = cc
lane_direction-given ds (suc (suc zero)) d h = rw h refl
lane_direction-given ds (suc (suc (suc zero))) d h = rw h refl
lane_direction-given ds (suc (suc (suc (suc n)))) d h = cc

pub lane_direction-none :
    (ds : Directions) (lane : ℕ) → IsUnknown lane → lane_direction ds lane ≡ ok none
unfolding lane_direction
lane_direction-none ds zero h = refl
lane_direction-none ds (suc zero) h = absurd (omega (arith, h))
lane_direction-none ds (suc (suc zero)) h = absurd (omega (arith, h))
lane_direction-none ds (suc (suc (suc zero))) h = absurd (omega (arith, h))
lane_direction-none ds (suc (suc (suc (suc n)))) h = ground arith

module _ ⦃c : Chrono⦄ ⦃f : Float⦄ where
  -- 1 for a vehicle in a lane with a direction that has this key, and 0 for any other.
  abbrev pub hit : TimeInterval → Directions → BinnedCountKey → IndividualVehicle → ℕ
  hit interval ds k v = elim (given ds v.lane) [
    | some d ↦ elim (binned_key interval v) [ ok j ↦ if key_beq k j then 1 else 0 | _ ↦ 0 ]
    | none ↦ 0
  ]

  -- The number of vehicles of a key.
  abbrev pub hits : TimeInterval → Directions → BinnedCountKey → List IndividualVehicle → ℕ
  hits interval ds k = sum_by (hit interval ds k)

  hit_unknown :
      (interval : TimeInterval) (ds : Directions) (k : BinnedCountKey) (v : IndividualVehicle)
      → IsUnknown v.lane
      → hit interval ds k v ≡ 0
  hit_unknown interval ds k v e = rw (given-none ds v.lane e, hit)

  hit_known :
      (interval : TimeInterval) (ds : Directions) (k j : BinnedCountKey) (v : IndividualVehicle)
      {d : LaneDirection}
      → given ds v.lane ≡ some d
      → binned_key interval v ≡ ok j
      → hit interval ds k v ≡ (if key_beq k j then 1 else 0)
  hit_known interval ds k j v e b = rw (e, b, hit)

  -- One more vehicle of a key.
  Agrees-suc :
      (r : ℕ) (g : Option LaneDirection) (n : ℕ) (d : LaneDirection) (x : f.F32)
      (class : VehicleClass) (os : Option SpeedRangeCount) (ow : Option VehicleClassCount)
      → g ≡ some d
      → Agrees r g n os ow
      → Agrees r g
          (n + 1)
          (some (modified_or (λ t. SpeedRange.insert t x) (SpeedRange.first r d x) os))
          (some (modified_or (λ t. ClassCount.insert t class) (ClassCount.first r d class) ow))
  Agrees-suc r g n d x class (some s) (some w) e h =
      let (st, sr, sd) = Effect.insert_effect s x in
      let (wt, wc, wr, wd) = insert_effect w class in
      let tallied = insert-IsTallied w class h.2 in
      (omega arith, omega arith, tallied, cc, cc, cc, cc)
  Agrees-suc r g n d x class none none e h =
      let (st, sr, sd) = Effect.insert_effect (SpeedRange.new r d) x in
      let (wt, wc, wr, wd) = insert_effect (ClassCount.new r d) class in
      let tallied = insert-IsTallied (ClassCount.new r d) class (new-IsTallied r d) in
      unfold SpeedRange.first SpeedRange.new ClassCount.first ClassCount.new in
      (omega arith, omega arith, tallied, sr, wr, e ∙ ap some (sym sd), e ∙ ap some (sym wd))
  Agrees-suc r g n d x class (some s) none e h = absurd h
  Agrees-suc r g n d x class none (some w) e h = absurd h

Agrees-counted :
    (r : ℕ) (g : Option LaneDirection) (t : ℕ) (s : Option SpeedRangeCount)
    (w : Option VehicleClassCount)
    → ((n : ℕ) × (n + 0 ≡ t) × Agrees r g n s w)
    → Agrees r g t s w
Agrees-counted r g t s w (n, sum, h) = subst (λ x. Agrees r g x s w) (omega arith) h

Agrees-if :
    (r : ℕ) (g : Option LaneDirection) (n : ℕ) (b : Bool) (s os : Option SpeedRangeCount)
    (w ow : Option VehicleClassCount)
    → (b ≡ true → Agrees r g (n + 1) s w)
    → Agrees r g n os ow
    → Agrees r g (n + (if b then 1 else 0)) (if b then s else os) (if b then w else ow)
Agrees-if r g n true s os w ow h k = h refl
Agrees-if r g n false s os w ow h k = rw add-zero k

module _ ⦃c : Chrono⦄ ⦃f : Float⦄ (laws : ChronoLaws c) (interval : TimeInterval)
    (m : FieldMetadata) where
  binned_key-ok :
      (v : IndividualVehicle)
      → (k : BinnedCountKey) × (binned_key interval v ≡ ok k) × (k.lane ≡ v.lane)
  unfolding binned_key
  binned_key-ok v =
      let (u, e, b) = bin_time-IsBinOf laws (c.time v.time) interval in
      (record { date = v.date; time = c.datetime v.date u; lane = v.lane }, rw e refl, refl)

  -- A round of the loop counts the vehicle at its key, and changes no other key.
  gather_round :
      (maps : Maps) (v : IndividualVehicle)
      → Fits m.directions v.lane
      → (maps' : Maps) × (gather interval m maps v ≡ ok maps')
        × ((k : BinnedCountKey) (n : ℕ)
            → Agrees m.recordnum (given m.directions k.lane) n (lookup k maps.0) (lookup k maps.1)
            → Agrees m.recordnum
                (given m.directions k.lane)
                (n + hit interval m.directions k v)
                (lookup k maps'.0)
                (lookup k maps'.1))
  unfolding gather
  gather_round maps v (inr e) = (
    maps,
    rw (lane_direction-none m.directions v.lane e) refl,
    λ k n h. rw (hit_unknown interval m.directions k v e, add-zero) h,
  )
  gather_round maps v (inl (d, e)) =
      let (j, ej, here) = binned_key-ok v in
      (
        (
          upsert j (λ t. SpeedRange.insert t v.speed) (SpeedRange.first m.recordnum d v.speed)
              maps.0,
          upsert j (λ t. ClassCount.insert t v.class) (ClassCount.first m.recordnum d v.class)
              maps.1,
        ),
        rw (lane_direction-given m.directions v.lane d e, ej) refl,
        λ k n h.
            rw
              (
                hit_known interval m.directions k j v e ej,
                lookup-upsert k j (λ t. SpeedRange.insert t v.speed)
                    (SpeedRange.first m.recordnum d v.speed) maps.0,
                lookup-upsert k j (λ t. ClassCount.insert t v.class)
                    (ClassCount.first m.recordnum d v.class) maps.1,
              )
              (Agrees-if m.recordnum (given m.directions k.lane) n (key_beq k j) _ _ _ _
                (λ same.
                  Agrees-suc m.recordnum (given m.directions k.lane) n d v.speed v.class
                    (lookup j maps.0) (lookup j maps.1)
                    (ap (given m.directions)
                        (ap (λ (k : BinnedCountKey). k.lane) ((key_beq_iff k j).0 same) ∙ here)
                      ∙ e)
                    (subst
                      (λ x.
                        Agrees m.recordnum (given m.directions k.lane) n (lookup x maps.0)
                          (lookup x maps.1))
                      ((key_beq_iff k j).0 same) h))
                h),
      )

  -- What holds of the maps with `rest` still to come.
  abbrev Counting : List IndividualVehicle → List IndividualVehicle → Maps → Type 0
  Counting counts rest maps =
      All (λ v. Fits m.directions v.lane) rest
      × ((k : BinnedCountKey)
          → (n : ℕ) × (n + hits interval m.directions k rest ≡ hits interval m.directions k counts)
            × Agrees m.recordnum (given m.directions k.lane) n (lookup k maps.0) (lookup k maps.1))

  gather-Counting :
      (counts : List IndividualVehicle) (v : IndividualVehicle) (rest : List IndividualVehicle)
      (maps : Maps)
      → Counting counts (v ∷ rest) maps
      → (maps' : Maps) × (gather interval m maps v ≡ ok maps') × Counting counts rest maps'
  gather-Counting counts v rest maps p =
      let (maps', e, step) = gather_round maps v p.0.0 in
      (
        maps',
        e,
        (
          p.0.1,
          λ k.
              let (n, sum, agrees) = p.1 k in
              (n + hit interval m.directions k v, omega arith, step k n agrees),
        ),
      )

  -- Every vehicle in a lane with a direction is counted once at its key in both maps, with that
  -- direction, and a vehicle in a lane other than 1, 2 and 3 is not counted, if no lane panics.
  pub gather-Agrees :
      (counts : List IndividualVehicle)
      → All (λ v. Fits m.directions v.lane) counts
      → (maps : Maps) × (fold_loop (gather interval m) counts ([], []) ≡ ok maps)
        × ((k : BinnedCountKey)
            → Agrees m.recordnum
                (given m.directions k.lane)
                (hits interval m.directions k counts)
                (lookup k maps.0)
                (lookup k maps.1))
  gather-Agrees counts fit =
      let (maps, e, p) =
        fold_loop_inv (Counting counts) (gather interval m) (gather-Counting counts) counts ([], [])
          (fit, λ k. (0, omega arith, unfold lookup in refl)) in
      (maps, e, λ k. Agrees-counted m.recordnum _ _ _ _ (p.1 k))
