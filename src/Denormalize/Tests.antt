-- ===== src/Denormalize/Tests.antt =====
-- Two hourly counts of one day, and the speeds of two vehicles.
use starnext_import.Denormalize.Keys.{NonNormalCountKey, key_eq}
use starnext_import.Denormalize.Speed.Raw.{speeds_of, speeds_at, gather_speeds-speeds_at}
use starnext_import.Denormalize.Speed.{NonNormalRawSpeedValue, gather_speeds}
use starnext_import.Denormalize.Volume.Totals.{
  volume_of, volume_at, hour_of, last_at, gather_volumes-counts,
}
use starnext_import.Denormalize.Volume.{HourlyCount, count_key, gather_volumes}
use starnext_import.External.Instances.{calendar, hundredths}
use starnext_import.FieldMetadata.{FieldMetadata}
use starnext_import.Prelude.HashMap.{HashMap, lookup}
use starnext_import.Prelude.{
  inl, ◌%◌, ◌≡◌, refl, [], ◌∷◌, none, ok, fold_loop, sum_by, arith, u32_mod,
}
use starnext_import.Records.{IndividualVehicle}
use starnext_import.Types.Direction.{LaneDirection}
use starnext_import.Types.VehicleClass.{VehicleClass}

abbrev eight : HourlyCount
eight = record {
  recordnum = 166905;
  datetime = (5, (28800, omega arith));
  count = 30;
  dir = LaneDirection.north;
  lane = 1;
}

abbrev nine : HourlyCount
nine = record {
  recordnum = 166905;
  datetime = (5, (32400, omega arith));
  count = 12;
  dir = LaneDirection.north;
  lane = 1;
}

two_hours :
    (volume_of (lookup (count_key nine) (gather_volumes (eight ∷ nine ∷ []) [])) % u32_mod
      ≡ sum_by (volume_at (count_key nine)) (eight ∷ nine ∷ []) % u32_mod)
    × (hour_of 9 (lookup (count_key nine) (gather_volumes (eight ∷ nine ∷ []) []))
        ≡ last_at (count_key nine) 9 (eight ∷ nine ∷ []) none)
two_hours = gather_volumes-counts (eight ∷ nine ∷ []) (count_key nine) 9 (omega arith)

abbrev one_way : FieldMetadata
one_way = record {
  recordnum = 166905;
  directions = record { direction1 = LaneDirection.north; direction2 = none; direction3 = none };
  counter_id = [];
  speed_limit = none;
}

abbrev slow : IndividualVehicle
slow = record {
  date = 5;
  time = (5, (30000, omega arith));
  lane = 1;
  class = VehicleClass.buses;
  speed = 2500;
}

abbrev fast : IndividualVehicle
fast = record {
  date = 5;
  time = (5, (30060, omega arith));
  lane = 1;
  class = VehicleClass.motorcycles;
  speed = 4500;
}

two_speeds :
    (speeds : HashMap NonNormalCountKey NonNormalRawSpeedValue) × (fold_loop
        (gather_speeds one_way)
        (slow ∷ fast ∷ [])
        []
      ≡ ok speeds)
    × (speeds_of 8 (lookup (count_key eight) speeds)
        ≡ speeds_at one_way (count_key eight) 8 (slow ∷ fast ∷ []))
two_speeds =
    gather_speeds-speeds_at one_way (slow ∷ fast ∷ []) (count_key eight) 8
      (inl (LaneDirection.north, refl), (inl (LaneDirection.north, refl), tt)) (omega arith)
