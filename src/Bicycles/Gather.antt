-- ===== src/Bicycles/Gather.antt =====
-- The volumes of a key, read against the bicycles of that key.
use starnext_import.Bicycles.{
  DataKey, DataValues, key_beq, key_beq_iff, key_eq, Volumes, ride_in, ride_out, values,
  bicycle_key, gather,
}
use starnext_import.Binning.Time.{bin_time-IsBinOf}
use starnext_import.Binning.{TimeInterval}
use starnext_import.External.Chrono.{Chrono, ChronoLaws}
use starnext_import.FieldMetadata.{FieldMetadata}
use starnext_import.Prelude.HashMap.{lookup, upsert, lookup-upsert, modified_or}
use starnext_import.Prelude.{
  ℕ, ◌+◌, ◌%◌, ◌≡◌, ◌∙◌, ap, sym, refl, Bool, true, false, List, [], ◌∷◌, Option, none, some, ok,
  fold_loop, ◌==◌, if◌then◌else◌, arith, sum_by, u16_mod, Bool-cases, inl, inr,
}
use starnext_import.Records.{IndividualBicycle}

-- The value stands for `i` bicycles in lane 1 and `o` in lane 2.
abbrev pub Rides : ℕ → ℕ → ℕ → Option DataValues → Type 0
Rides r i o none = (i ≡ 0) × (o ≡ 0)
Rides r i o (some v) =
    (v.total ≡ (i + o) % u16_mod)
    × (v.indir ≡ some (i % u16_mod))
    × (v.outdir ≡ some (o % u16_mod))
    × (v.recordnum ≡ r)

Rides-in :
    (r i o : ℕ) (v : Option DataValues)
    → Rides r i o v
    → Rides r (i + 1) (o + 0) (some (modified_or ride_in (values r 1 1 0) v))
unfolding ride_in
Rides-in r i o none h = (omega arith, ap some (omega arith), ap some (omega arith), refl)
Rides-in r i o (some v) h =
    let (total, indir, outdir, recordnum) = h in
    (
      omega (arith, total),
      rw indir (ap some (omega arith)),
      outdir ∙ ap some (omega arith),
      recordnum,
    )

Rides-out :
    (r i o : ℕ) (v : Option DataValues)
    → Rides r i o v
    → Rides r (i + 0) (o + 1) (some (modified_or ride_out (values r 1 0 1) v))
unfolding ride_out
Rides-out r i o none h = (omega arith, ap some (omega arith), ap some (omega arith), refl)
Rides-out r i o (some v) h =
    let (total, indir, outdir, recordnum) = h in
    (
      omega (arith, total),
      indir ∙ ap some (omega arith),
      rw outdir (ap some (omega arith)),
      recordnum,
    )

Rides-same : (r i o : ℕ) (v : Option DataValues) → Rides r i o v → Rides r (i + 0) (o + 0) v
Rides-same r i o none h = (omega arith, omega arith)
Rides-same r i o (some v) h =
    let (total, indir, outdir, recordnum) = h in
    (omega (arith, total), indir ∙ ap some (omega arith), outdir ∙ ap some (omega arith), recordnum)

Rides-cast : (r i j o p : ℕ) (v : Option DataValues) → i ≡ j → o ≡ p → Rides r i o v → Rides r j p v
Rides-cast r i j o p v e f h = rw (← e, ← f) h

in_if :
    (b : Bool) (r i o : ℕ) (v w : Option DataValues)
    → (b ≡ true → w ≡ v)
    → Rides r i o v
    → Rides r
        (i + (if b then 1 else 0))
        (o + 0)
        (if b then some (modified_or ride_in (values r 1 1 0) w) else v)
in_if true r i o v w same h = Rides-in r i o w (rw (same refl) h)
in_if false r i o v w same h = Rides-same r i o v h

out_if :
    (b : Bool) (r i o : ℕ) (v w : Option DataValues)
    → (b ≡ true → w ≡ v)
    → Rides r i o v
    → Rides r
        (i + 0)
        (o + (if b then 1 else 0))
        (if b then some (modified_or ride_out (values r 1 0 1) w) else v)
out_if true r i o v w same h = Rides-out r i o w (rw (same refl) h)
out_if false r i o v w same h = Rides-same r i o v h

module _ ⦃c : Chrono⦄ where
  -- 1 for a bicycle of this key in the lane, and 0 for any other.
  abbrev pub hit : TimeInterval → ℕ → DataKey → IndividualBicycle → ℕ
  hit interval lane k v = elim (bicycle_key interval v) [
    | ok j ↦ if v.lane == lane then (if key_beq k j then 1 else 0) else 0
    | _ ↦ 0
  ]

  hit_lem :
      (interval : TimeInterval) (lane : ℕ) (k j : DataKey) (v : IndividualBicycle)
      → bicycle_key interval v ≡ ok j
      → hit interval lane k v ≡ (if v.lane == lane then (if key_beq k j then 1 else 0) else 0)
  hit_lem interval lane k j v e = rw (e, hit) refl

  same_lookup :
      (volumes : Volumes) (k j : DataKey) → key_beq k j ≡ true → lookup j volumes ≡ lookup k volumes
  same_lookup volumes k j e = ap (λ i. lookup i volumes) (sym ((key_beq_iff k j).0 e))

two_lanes : (lane : ℕ) → (lane == 1) ≡ true → (lane == 2) ≡ false
two_lanes lane h = ground arith

module _ ⦃c : Chrono⦄ (laws : ChronoLaws c) (interval : TimeInterval) (m : FieldMetadata) where
  bicycle_key-ok : (v : IndividualBicycle) → (k : DataKey) × (bicycle_key interval v ≡ ok k)
  unfolding bicycle_key
  bicycle_key-ok v =
      let (u, e, b) = bin_time-IsBinOf laws (c.time v.time) interval in
      (record { date = v.date; time = c.datetime v.date u }, rw e refl)

  gather_round :
      (volumes : Volumes) (v : IndividualBicycle)
      → (volumes' : Volumes) × (gather interval m volumes v ≡ ok volumes')
        × ((k : DataKey) (i o : ℕ)
            → Rides m.recordnum i o (lookup k volumes)
            → Rides m.recordnum
                (i + hit interval 1 k v)
                (o + hit interval 2 k v)
                (lookup k volumes'))
  unfolding gather
  gather_round volumes v =
      let (j, ej) = bicycle_key-ok v in
      elim (Bool-cases (v.lane == 1)) [
        | inl one ↦ (
          upsert j ride_in (values m.recordnum 1 1 0) volumes,
          rw (ej, one) refl,
          λ k i o h.
              rw
                (
                  hit_lem interval 1 k j v ej,
                  hit_lem interval 2 k j v ej,
                  one,
                  two_lanes v.lane one,
                  lookup-upsert k j ride_in (values m.recordnum 1 1 0) volumes,
                )
                (in_if (key_beq k j) m.recordnum i o (lookup k volumes) (lookup j volumes)
                  (same_lookup volumes k j) h),
        )
        | inr other ↦ elim (Bool-cases (v.lane == 2)) [
          | inl two ↦ (
            upsert j ride_out (values m.recordnum 1 0 1) volumes,
            rw (ej, other, two) refl,
            λ k i o h.
                rw
                  (
                    hit_lem interval 1 k j v ej,
                    hit_lem interval 2 k j v ej,
                    other,
                    two,
                    lookup-upsert k j ride_out (values m.recordnum 1 0 1) volumes,
                  )
                  (out_if (key_beq k j) m.recordnum i o (lookup k volumes) (lookup j volumes)
                    (same_lookup volumes k j) h),
          )
          | inr none_of_them ↦ (
            volumes,
            rw (ej, other, none_of_them) refl,
            λ k i o h.
                rw (hit_lem interval 1 k j v ej, hit_lem interval 2 k j v ej, other, none_of_them)
                  (Rides-same m.recordnum i o (lookup k volumes) h),
          )
        ]
      ]

  gather_from :
      (counts : List IndividualBicycle) (volumes : Volumes)
      → (volumes' : Volumes) × (fold_loop (gather interval m) counts volumes ≡ ok volumes')
        × ((k : DataKey) (i o : ℕ)
            → Rides m.recordnum i o (lookup k volumes)
            → Rides m.recordnum
                (i + sum_by (hit interval 1 k) counts)
                (o + sum_by (hit interval 2 k) counts)
                (lookup k volumes'))
  unfolding fold_loop
  gather_from [] volumes =
      (volumes, refl, λ k i o h. Rides-same m.recordnum i o (lookup k volumes) h)
  gather_from (v ∷ counts) volumes =
      let (v1, e1, r1) = gather_round volumes v in
      let (v2, e2, r2) = gather_from counts v1 in
      (
        v2,
        rw e1 e2,
        λ k i o h.
            Rides-cast m.recordnum _ _ _ _ (lookup k v2) (omega arith) (omega arith)
              (r2 k (i + hit interval 1 k v) (o + hit interval 2 k v) (r1 k i o h)),
      )

  -- The same for all keys at once, with the hits of each.
  pub gather_bicycles-lookup :
      (counts : List IndividualBicycle)
      → (volumes : Volumes) × (fold_loop (gather interval m) counts [] ≡ ok volumes)
        × ((k : DataKey)
            → Rides m.recordnum
                (sum_by (hit interval 1 k) counts)
                (sum_by (hit interval 2 k) counts)
                (lookup k volumes))
  gather_bicycles-lookup counts =
      let (volumes, e, r) = gather_from counts [] in
      (
        volumes,
        e,
        λ k.
            Rides-cast m.recordnum _ _ _ _ (lookup k volumes) (omega arith) (omega arith)
              (r k 0 0 (unfold lookup in (refl, refl))),
      )

  -- The loop over the bicycles ends without a panic or an error. At every key the volume in is the
  -- number of bicycles of that key in lane 1, the volume out that in lane 2, and the total the sum of
  -- both, each modulo 2^16. Bicycles in other lanes are not counted, and a key without bicycles in
  -- the two lanes is absent or has zeros.
  pub gather_bicycles-Rides :
      (counts : List IndividualBicycle) (k : DataKey)
      → (volumes : Volumes) × (fold_loop (gather interval m) counts [] ≡ ok volumes)
        × Rides m.recordnum
            (sum_by (hit interval 1 k) counts)
            (sum_by (hit interval 2 k) counts)
            (lookup k volumes)
  gather_bicycles-Rides counts k =
      let (volumes, e, r) = gather_bicycles-lookup counts in (volumes, e, r k)
