-- ===== src/SpeedClass/Fill.antt =====
-- The periods with no vehicle: the loop over all keys, and the two maps at its end.
use starnext_import.External.Chrono.{Chrono}
use starnext_import.FieldMetadata.{FieldMetadata}
use starnext_import.Intermediate.ClassCount
use starnext_import.Intermediate.ClassCount.{VehicleClassCount, new-IsTallied}
use starnext_import.Intermediate.SpeedRange
use starnext_import.Intermediate.SpeedRange.{SpeedRangeCount}
use starnext_import.Prelude.HashMap.{
  lookup, or_insert, lookup-upsert, modified_or, IsPresent, upsert-IsPresent, upsert-IsPresent_self,
}
use starnext_import.Prelude.{
  ap, ◌∙◌, ◌++◌, zero, suc, ℕ, ◌≡◌, Bool, true, false, List, [], ◌∷◌, Option, none, some, ok,
  fold_loop, if◌then◌else◌, refl, All, All-append, ◌⊎◌, inl, inr,
}
use starnext_import.SpeedClass.Gather.{Agrees, given, lane_direction-given}
use mathlib.Core.Path.{subst}
use starnext_import.SpeedClass.{
  BinnedCountKey, key_beq, key_beq_iff, key_eq, keys_of, all_keys, Maps, fill_key, all_lanes,
}
use starnext_import.Types.Direction.{Directions, LaneDirection}

-- The direction of the lane is given.
abbrev pub Recognised : Directions → ℕ → Type 0
Recognised ds lane = (d : LaneDirection) × (given ds lane ≡ some d)

Agrees-choose :
    (r : ℕ) (g : Option LaneDirection) (n : ℕ) (b : Bool) (s os : Option SpeedRangeCount)
    (w ow : Option VehicleClassCount)
    → (b ≡ true → Agrees r g n s w)
    → Agrees r g n os ow
    → Agrees r g n (if b then s else os) (if b then w else ow)
Agrees-choose r g n true s os w ow h k = h refl
Agrees-choose r g n false s os w ow h k = k

-- A key whose value is missing stands for no vehicle.
Agrees-new :
    (r : ℕ) (g : Option LaneDirection) (n : ℕ) (d : LaneDirection) (s : Option SpeedRangeCount)
    (w : Option VehicleClassCount)
    → g ≡ some d
    → Agrees r g n s w
    → Agrees r g n
        (some (modified_or (λ t. t) (SpeedRange.new r d) s))
        (some (modified_or (λ t. t) (ClassCount.new r d) w))
unfolding SpeedRange.new ClassCount.new
Agrees-new r g n d (some s) (some w) e h = h
Agrees-new r g n d none none e h = rw h (refl, refl, refl, refl, refl, e, e)
Agrees-new r g n d (some s) none e h = absurd h
Agrees-new r g n d none (some w) e h = absurd h

module _ ⦃c : Chrono⦄ (m : FieldMetadata) where
  -- A round keeps what every key counts, keeps what is present, and makes its key present.
  fill_round :
      (maps : Maps) (j : BinnedCountKey)
      → Recognised m.directions j.lane
      → (maps' : Maps) × (fill_key m maps j ≡ ok maps')
        × ((k : BinnedCountKey) (n : ℕ)
            → Agrees m.recordnum (given m.directions k.lane) n (lookup k maps.0) (lookup k maps.1)
            → Agrees m.recordnum
                (given m.directions k.lane)
                n
                (lookup k maps'.0)
                (lookup k maps'.1))
        × ((k : BinnedCountKey) → IsPresent (lookup k maps.1) → IsPresent (lookup k maps'.1))
        × IsPresent (lookup j maps'.1)
  unfolding fill_key
  fill_round maps j (d, e) = (
    (
      or_insert j (SpeedRange.new m.recordnum d) maps.0,
      or_insert j (ClassCount.new m.recordnum d) maps.1,
    ),
    rw (lane_direction-given m.directions j.lane d e) refl,
    λ k n h.
        rw
          (
            lookup-upsert k j (λ t. t) (SpeedRange.new m.recordnum d) maps.0,
            lookup-upsert k j (λ t. t) (ClassCount.new m.recordnum d) maps.1,
          )
          (Agrees-choose m.recordnum (given m.directions k.lane) n (key_beq k j) _ _ _ _
            (λ same.
              Agrees-new m.recordnum (given m.directions k.lane) n d (lookup j maps.0)
                (lookup j maps.1)
                (ap (λ (k : BinnedCountKey). given m.directions k.lane) ((key_beq_iff k j).0 same)
                  ∙ e)
                (subst
                  (λ x.
                    Agrees m.recordnum (given m.directions k.lane) n (lookup x maps.0)
                      (lookup x maps.1))
                  ((key_beq_iff k j).0 same) h))
            h),
    λ k h. upsert-IsPresent k j (λ t. t) (ClassCount.new m.recordnum d) maps.1 h,
    upsert-IsPresent_self j (λ t. t) (ClassCount.new m.recordnum d) maps.1,
  )

  -- The loop over keys in known lanes: what every key counts is kept, and all keys are present.
  pub fill-Agrees :
      (keys : List BinnedCountKey) (maps : Maps)
      → All (λ k. Recognised m.directions k.lane) keys
      → (maps' : Maps) × (fold_loop (fill_key m) keys maps ≡ ok maps')
        × ((k : BinnedCountKey) (n : ℕ)
            → Agrees m.recordnum (given m.directions k.lane) n (lookup k maps.0) (lookup k maps.1)
            → Agrees m.recordnum
                (given m.directions k.lane)
                n
                (lookup k maps'.0)
                (lookup k maps'.1))
        × ((k : BinnedCountKey) → IsPresent (lookup k maps.1) → IsPresent (lookup k maps'.1))
        × All (λ k. IsPresent (lookup k maps'.1)) keys
  unfolding fold_loop
  fill-Agrees [] maps r = (maps, refl, λ k n h. h, λ k h. h, tt)
  fill-Agrees (j ∷ keys) maps r =
      let (maps1, e1, a1, p1, here) = fill_round maps j r.0 in
      let (maps2, e2, a2, p2, rest) = fill-Agrees keys maps1 r.1 in
      (maps2, rw e1 e2, λ k n h. a2 k n (a1 k n h), λ k h. p2 k (p1 k h), (p2 j here, rest))

  keys_of-Recognised :
      (lanes : List ℕ) (dt : c.NaiveDateTime)
      → All (Recognised m.directions) lanes
      → All (λ k. Recognised m.directions k.lane) (keys_of lanes dt)
  unfolding keys_of
  keys_of-Recognised [] dt h = tt
  keys_of-Recognised (l ∷ lanes) dt h = (h.0, keys_of-Recognised lanes dt h.1)

  pub all_keys-Recognised :
      (lanes : List ℕ) (dts : List c.NaiveDateTime)
      → All (Recognised m.directions) lanes
      → All (λ k. Recognised m.directions k.lane) (all_keys lanes dts)
  unfolding all_keys
  all_keys-Recognised lanes [] h = tt
  all_keys-Recognised lanes (dt ∷ dts) h =
      All-append (λ k. Recognised m.directions k.lane) (keys_of lanes dt) (all_keys lanes dts)
        (keys_of-Recognised lanes dt h) (all_keys-Recognised lanes dts h)

  -- What holds of every key holds of the keys of each bin and of each lane that is listed.
  keys_of-All :
      (P : BinnedCountKey → Type 0) (lanes : List ℕ) (dt : c.NaiveDateTime)
      (rest : List BinnedCountKey)
      → All P (keys_of lanes dt ++ rest)
      → All (λ lane. P (record { date = c.date dt; time = dt; lane = lane })) lanes × All P rest
  unfolding keys_of
  keys_of-All P [] dt rest h = (tt, h)
  keys_of-All P (lane ∷ lanes) dt rest h =
      let (here, later) = keys_of-All P lanes dt rest h.1 in ((h.0, here), later)

  pub all_keys-All :
      (P : BinnedCountKey → Type 0) (lanes : List ℕ) (dts : List c.NaiveDateTime)
      → All P (all_keys lanes dts)
      → All (λ dt. All (λ lane. P (record { date = c.date dt; time = dt; lane = lane })) lanes) dts
  unfolding all_keys
  all_keys-All P lanes [] h = tt
  all_keys-All P lanes (dt ∷ dts) h =
      let (here, later) = keys_of-All P lanes dt (all_keys lanes dts) h in
      (here, all_keys-All P lanes dts later)

-- A third lane comes with a second one.
abbrev pub HasSecond : Directions → Type 0
HasSecond ds = (ds.direction3 ≡ none) ⊎ ((d : LaneDirection) × (ds.direction2 ≡ some d))

-- The lanes that are filled are those whose direction is given.
module _ (a : LaneDirection) where
  pub lanes-Recognised :
      (b d : Option LaneDirection)
      → HasSecond (record { direction1 = a; direction2 = b; direction3 = d })
      → All
          (Recognised (record { direction1 = a; direction2 = b; direction3 = d }))
          (all_lanes (record { direction1 = a; direction2 = b; direction3 = d }))
  lanes-Recognised none none h = ((a, refl), tt)
  lanes-Recognised (some y) none h = ((a, refl), ((y, refl), tt))
  lanes-Recognised (some y) (some z) h = ((a, refl), ((y, refl), ((z, refl), tt)))
  lanes-Recognised none (some z) (inl h) = cc
  lanes-Recognised none (some z) (inr (y, h)) = cc

  pub lanes-given :
      (P : ℕ → Type 0) (b d : Option LaneDirection)
      → HasSecond (record { direction1 = a; direction2 = b; direction3 = d })
      → All P (all_lanes (record { direction1 = a; direction2 = b; direction3 = d }))
      → (lane : ℕ) → Recognised (record { direction1 = a; direction2 = b; direction3 = d }) lane
      → P lane
  lanes-given P b d h all zero (x, e) = cc
  lanes-given P none none h all (suc zero) e = all.0
  lanes-given P (some y) none h all (suc zero) e = all.0
  lanes-given P (some y) (some z) h all (suc zero) e = all.0
  lanes-given P none (some z) h all (suc zero) e = all.0
  lanes-given P none d h all (suc (suc zero)) (x, e) = cc
  lanes-given P (some y) none h all (suc (suc zero)) e = all.1.0
  lanes-given P (some y) (some z) h all (suc (suc zero)) e = all.1.0
  lanes-given P b none h all (suc (suc (suc zero))) (x, e) = cc
  lanes-given P b (some z) h all (suc (suc (suc zero))) e = all.1.1.0
  lanes-given P b d h all (suc (suc (suc (suc n)))) (x, e) = cc
