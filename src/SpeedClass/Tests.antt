-- ===== src/SpeedClass/Tests.antt =====
-- The counts of two vehicles in two lanes.
use starnext_import.Binning.{fifteen_min}
use starnext_import.External.Instances.{calendar, calendar_laws, seconds, hundredths}
use starnext_import.FieldMetadata.{FieldMetadata}
use starnext_import.Prelude.HashMap.{lookup}
use starnext_import.Prelude.{◌≡◌, refl, [], ◌∷◌, none, some, ok, inl, map, fold_loop, arith}
use starnext_import.Records.{IndividualVehicle}
use starnext_import.SpeedClass.Gather.{Agrees, given, hits, gather-Agrees}
use starnext_import.SpeedClass.Result.{Counted, create_speed_and_class_count-Counted}
use starnext_import.SpeedClass.{
  Maps, BinnedCountKey, key_eq, gather, speed_row, class_row, create_speed_and_class_count,
  lane_direction,
}
use starnext_import.Types.Direction.LaneDirection.{north, south}
use starnext_import.Types.VehicleClass.{VehicleClass}

abbrev two_lanes : FieldMetadata
two_lanes = record {
  recordnum = 166905;
  directions = record { direction1 = north; direction2 = some south; direction3 = none };
  counter_id = [];
  speed_limit = none;
}

abbrev first_vehicle : IndividualVehicle
first_vehicle = record {
  date = 5;
  time = (5, (30000, omega arith));
  lane = 1;
  class = VehicleClass.passenger_cars;
  speed = 3050;
}

abbrev second_vehicle : IndividualVehicle
second_vehicle = record {
  date = 5;
  time = (5, (32400, omega arith));
  lane = 2;
  class = VehicleClass.buses;
  speed = 2500;
}

two_vehicles :
    (maps : Maps) × (earliest latest : IndividualVehicle) × (create_speed_and_class_count 6
        fifteen_min two_lanes
        (second_vehicle ∷ first_vehicle ∷ [])
      ≡ ok (map speed_row maps.0, map class_row maps.1))
    × Counted calendar_laws fifteen_min two_lanes
        (second_vehicle ∷ first_vehicle ∷ [])
        earliest
        latest
        maps
unfolding calendar_laws seconds lane_direction
two_vehicles =
    create_speed_and_class_count-Counted calendar_laws fifteen_min two_lanes 462000 464400 4
      second_vehicle (first_vehicle ∷ [])
      (
        record {
          lane_fits = inl (south, refl);
          whole = refl;
          from_lo = omega arith;
          to_hi = omega arith;
        },
        (
          record {
            lane_fits = inl (north, refl);
            whole = refl;
            from_lo = omega arith;
            to_hi = omega arith;
          },
          tt,
        ),
      )
      (inl refl) (omega arith) (omega arith)

two_gathered :
    (maps : Maps) × (fold_loop
        (gather fifteen_min two_lanes)
        (second_vehicle ∷ first_vehicle ∷ [])
        ([], [])
      ≡ ok maps)
    × ((k : BinnedCountKey)
        → Agrees 166905
            (given two_lanes.directions k.lane)
            (hits fifteen_min two_lanes.directions k (second_vehicle ∷ first_vehicle ∷ []))
            (lookup k maps.0)
            (lookup k maps.1))
unfolding lane_direction
two_gathered =
    gather-Agrees calendar_laws fifteen_min two_lanes (second_vehicle ∷ first_vehicle ∷ [])
      (inl (south, refl), (inl (north, refl), tt))
