-- ===== src/Types/VehicleClass.antt =====
-- `VehicleClass` of src/lib.rs.
use starnext_import.Prelude.{
  ℕ, ◌≤◌, ◌<◌, ◌≡◌, ◌||◌, Outcome, ok, err, panic, running, ◌==◌, if◌then◌else◌, arith,
}
use starnext_import.Types.Errors.{CountError, bad_vehicle_class}

pub data VehicleClass : Type 0 where
  motorcycles passenger_cars other_four_tire_single_unit_vehicles buses : VehicleClass
  two_axle_six_tire_single_unit_trucks three_axle_single_unit_trucks : VehicleClass
  four_or_more_axle_single_unit_trucks four_or_fewer_axle_single_trailer_trucks : VehicleClass
  five_axle_single_trailer_trucks six_or_more_axle_single_trailer_trucks : VehicleClass
  five_or_fewer_axle_multi_trailer_trucks six_axle_multi_trailer_trucks : VehicleClass
  seven_or_more_axle_multi_trailer_trucks unclassified_vehicle : VehicleClass

-- The discriminants of `#[repr(u8)]`.
pub discriminant : VehicleClass → ℕ
discriminant motorcycles = 1
discriminant passenger_cars = 2
discriminant other_four_tire_single_unit_vehicles = 3
discriminant buses = 4
discriminant two_axle_six_tire_single_unit_trucks = 5
discriminant three_axle_single_unit_trucks = 6
discriminant four_or_more_axle_single_unit_trucks = 7
discriminant four_or_fewer_axle_single_trailer_trucks = 8
discriminant five_axle_single_trailer_trucks = 9
discriminant six_or_more_axle_single_trailer_trucks = 10
discriminant five_or_fewer_axle_multi_trailer_trucks = 11
discriminant six_axle_multi_trailer_trucks = 12
discriminant seven_or_more_axle_multi_trailer_trucks = 13
discriminant unclassified_vehicle = 15

unfoldable pub from_num : ℕ → Outcome CountError VehicleClass
from_num num =
    if num == 1
    then ok motorcycles
    else if num == 2
    then ok passenger_cars
    else if num == 3
    then ok other_four_tire_single_unit_vehicles
    else if num == 4
    then ok buses
    else if num == 5
    then ok two_axle_six_tire_single_unit_trucks
    else if num == 6
    then ok three_axle_single_unit_trucks
    else if num == 7
    then ok four_or_more_axle_single_unit_trucks
    else if num == 8
    then ok four_or_fewer_axle_single_trailer_trucks
    else if num == 9
    then ok five_axle_single_trailer_trucks
    else if num == 10
    then ok six_or_more_axle_single_trailer_trucks
    else if num == 11
    then ok five_or_fewer_axle_multi_trailer_trucks
    else if num == 12
    then ok six_axle_multi_trailer_trucks
    else if num == 13
    then ok seven_or_more_axle_multi_trailer_trucks
    else if num == 0 || num == 14 || num == 15
    then ok unclassified_vehicle
    else err (bad_vehicle_class num)

-- What `from_num` says of a number, by its result.
abbrev pub Numbered : ℕ → Outcome CountError VehicleClass → Type 0
Numbered num (ok c) = (num ≤ 15) × (discriminant c ≡ (if num == 0 || num == 14 then 15 else num))
Numbered num (err e) = (15 < num) × (e ≡ bad_vehicle_class num)
Numbered num panic = ⊥
Numbered num running = ⊥

-- A number is accepted exactly if it is at most 15. It is then the discriminant of the class, but
-- that 0 and 14 give the class of 15, the unclassified vehicles. Any other number is refused by
-- the error that holds it.
pub from_num-Numbered : (num : ℕ) → Numbered num (from_num num)
unfolding from_num discriminant
from_num-Numbered num = ground arith
