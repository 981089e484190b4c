-- ===== src/Intermediate/Tests.antt =====
-- Vehicles that are added to a count.
use starnext_import.External.Instances.{hundredths}
use starnext_import.Intermediate.ClassCount
use starnext_import.Intermediate.ClassCount.{
  IsTallied, insert-IsTallied, new-IsTallied, insert-c15-le-c2,
}
use starnext_import.Intermediate.HourFields.Match.{hour_list-change_hour}
use starnext_import.Intermediate.HourFields.{
  HourFields, hour_list, change_hour, all_hours, change_at,
}
use starnext_import.Intermediate.SpeedRange
use starnext_import.Intermediate.SpeedRange.Gaps.{Between, insert-Between}
use starnext_import.Intermediate.SpeedRange.Ranges.{
  TenthsLaws, ranges, range_index, add_at, ranges-insert-tenths,
}
use starnext_import.Intermediate.SpeedRange.{SpeedRangeCount}
use starnext_import.Prelude.{ℕ, ◌≤◌, ◌≡◌, refl, Option, none, some, add_u32, arith}
use starnext_import.Types.Direction.{LaneDirection}
use starnext_import.Types.VehicleClass.{VehicleClass}

abbrev no_vehicles : ClassCount.VehicleClassCount
no_vehicles = ClassCount.new 166905 LaneDirection.north

abbrev no_speeds : SpeedRangeCount
no_speeds = SpeedRange.new 166905 LaneDirection.north

hundredths_laws : TenthsLaws hundredths
hundredths_laws = record { le-tenths = λ m n p q. ground arith; tenths_nonneg = λ n. refl }

one_bus : IsTallied (ClassCount.insert no_vehicles VehicleClass.buses)
one_bus = insert-IsTallied no_vehicles VehicleClass.buses (new-IsTallied 166905 LaneDirection.north)

one_unclassified :
    (ClassCount.insert no_vehicles VehicleClass.unclassified_vehicle).c15
    ≤ (ClassCount.insert no_vehicles VehicleClass.unclassified_vehicle).c2
unfolding ClassCount.new
one_unclassified =
    insert-c15-le-c2 no_vehicles VehicleClass.unclassified_vehicle (omega arith) (omega arith)

thirty :
    ranges (SpeedRange.insert no_speeds (hundredths.tenths 300))
    ≡ add_at (range_index 300) (ranges no_speeds)
thirty = ranges-insert-tenths hundredths_laws no_speeds 300 (omega arith)

-- 15.05 lies between 15.0 and 15.1.
half_a_tenth : Between hundredths 150 1505
half_a_tenth = record { nonneg = refl; above = λ m. ground arith; below = λ m. ground arith }

fifteen_and_a_bit :
    SpeedRange.insert no_speeds 1505 ≡ record no_speeds { total = add_u32 no_speeds.total 1 }
fifteen_and_a_bit = insert-Between no_speeds 150 1505 half_a_tenth refl (omega arith) (omega arith)

abbrev no_hours : HourFields (Option ℕ)
no_hours = all_hours none

one_pm :
    hour_list (change_hour 13 (λ o. some 7) no_hours)
    ≡ change_at 13 (λ o. some 7) (hour_list no_hours)
one_pm = hour_list-change_hour 13 (λ o. some 7) no_hours
