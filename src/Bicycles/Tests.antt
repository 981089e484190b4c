-- ===== src/Bicycles/Tests.antt =====
-- Two bicycles of one interval, in opposite lanes.
use starnext_import.Bicycles.Gather.{Rides, hit, gather_bicycles-Rides}
use starnext_import.Bicycles.Result.{Filled, create_binned_bicycle_vol_count-Filled}
use starnext_import.Bicycles.{
  DataKey, key_eq, Volumes, gather, volume_row, create_binned_bicycle_vol_count,
}
use starnext_import.Binning.{fifteen_min}
use starnext_import.External.Instances.{calendar, calendar_laws, seconds}
use starnext_import.FieldMetadata.{FieldMetadata}
use starnext_import.Prelude.HashMap.{lookup}
use starnext_import.Prelude.{refl, map, ◌≡◌, [], ◌∷◌, some, none, ok, fold_loop, sum_by, arith}
use starnext_import.Records.{IndividualBicycle}
use starnext_import.Types.Direction.LaneDirection.{east, west}

abbrev trail : FieldMetadata
trail = record {
  recordnum = 156238;
  directions = record { direction1 = east; direction2 = some west; direction3 = none };
  counter_id = [];
  speed_limit = none;
}

abbrev eastbound : IndividualBicycle
eastbound = record { date = 5; time = (5, (30000, omega arith)); lane = 1 }

abbrev westbound : IndividualBicycle
westbound = record { date = 5; time = (5, (30060, omega arith)); lane = 2 }

abbrev quarter_past_eight : DataKey
quarter_past_eight = record { date = 5; time = (5, (29700, omega arith)) }

two_bicycles :
    (volumes : Volumes) × (fold_loop (gather fifteen_min trail) (eastbound ∷ westbound ∷ []) []
      ≡ ok volumes)
    × Rides 156238
        (sum_by (hit fifteen_min 1 quarter_past_eight) (eastbound ∷ westbound ∷ []))
        (sum_by (hit fifteen_min 2 quarter_past_eight) (eastbound ∷ westbound ∷ []))
        (lookup quarter_past_eight volumes)
two_bicycles =
    gather_bicycles-Rides calendar_laws fifteen_min trail (eastbound ∷ westbound ∷ [])
      quarter_past_eight

two_volumes :
    (volumes : Volumes) × (earliest latest : IndividualBicycle) × (create_binned_bicycle_vol_count 3
        fifteen_min trail
        (westbound ∷ eastbound ∷ [])
      ≡ ok (map volume_row volumes))
    × Filled calendar_laws fifteen_min trail (westbound ∷ eastbound ∷ []) earliest latest volumes
unfolding calendar_laws seconds
two_volumes =
    create_binned_bicycle_vol_count-Filled calendar_laws fifteen_min trail 462000 462060 1 westbound
      (eastbound ∷ [])
      (
        record { whole = refl; from_lo = omega arith; to_hi = omega arith },
        (record { whole = refl; from_lo = omega arith; to_hi = omega arith }, tt),
      )
      (omega arith) (omega arith)
