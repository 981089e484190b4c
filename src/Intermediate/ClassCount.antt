-- ===== src/Intermediate/ClassCount.antt =====
-- `VehicleClassCount` of src/intermediate.rs: one counter for each class of vehicle.
use starnext_import.Prelude.{ℕ, ◌+◌, ◌%◌, ◌≤◌, ◌<◌, ◌≡◌, refl, add_u32, u32_mod, arith}
use starnext_import.Types.Direction.{LaneDirection}
use starnext_import.Types.VehicleClass.{
  VehicleClass, motorcycles, passenger_cars, other_four_tire_single_unit_vehicles, buses,
  two_axle_six_tire_single_unit_trucks, three_axle_single_unit_trucks,
  four_or_more_axle_single_unit_trucks, four_or_fewer_axle_single_trailer_trucks,
  five_axle_single_trailer_trucks, six_or_more_axle_single_trailer_trucks,
  five_or_fewer_axle_multi_trailer_trucks, six_axle_multi_trailer_trucks,
  seven_or_more_axle_multi_trailer_trucks, unclassified_vehicle,
}

pub record VehicleClassCount : Type 0 where
  pub recordnum : ℕ
  pub direction : LaneDirection
  pub c1 : ℕ
  pub c2 : ℕ
  pub c3 : ℕ
  pub c4 : ℕ
  pub c5 : ℕ
  pub c6 : ℕ
  pub c7 : ℕ
  pub c8 : ℕ
  pub c9 : ℕ
  pub c10 : ℕ
  pub c11 : ℕ
  pub c12 : ℕ
  pub c13 : ℕ
  pub c15 : ℕ
  pub total : ℕ

-- `VehicleClassCount::new`.
unfoldable pub new : ℕ → LaneDirection → VehicleClassCount
new recordnum direction = record {
  recordnum = recordnum;
  direction = direction;
  c1 = 0;
  c2 = 0;
  c3 = 0;
  c4 = 0;
  c5 = 0;
  c6 = 0;
  c7 = 0;
  c8 = 0;
  c9 = 0;
  c10 = 0;
  c11 = 0;
  c12 = 0;
  c13 = 0;
  c15 = 0;
  total = 0;
}

-- The match in `insert`.
unfoldable pub add_class : VehicleClassCount → VehicleClass → VehicleClassCount
add_class s motorcycles = record s { c1 = add_u32 s.c1 1 }
add_class s passenger_cars = record s { c2 = add_u32 s.c2 1 }
add_class s other_four_tire_single_unit_vehicles = record s { c3 = add_u32 s.c3 1 }
add_class s buses = record s { c4 = add_u32 s.c4 1 }
add_class s two_axle_six_tire_single_unit_trucks = record s { c5 = add_u32 s.c5 1 }
add_class s three_axle_single_unit_trucks = record s { c6 = add_u32 s.c6 1 }
add_class s four_or_more_axle_single_unit_trucks = record s { c7 = add_u32 s.c7 1 }
add_class s four_or_fewer_axle_single_trailer_trucks = record s { c8 = add_u32 s.c8 1 }
add_class s five_axle_single_trailer_trucks = record s { c9 = add_u32 s.c9 1 }
add_class s six_or_more_axle_single_trailer_trucks = record s { c10 = add_u32 s.c10 1 }
add_class s five_or_fewer_axle_multi_trailer_trucks = record s { c11 = add_u32 s.c11 1 }
add_class s six_axle_multi_trailer_trucks = record s { c12 = add_u32 s.c12 1 }
add_class s seven_or_more_axle_multi_trailer_trucks = record s { c13 = add_u32 s.c13 1 }
add_class s unclassified_vehicle = record s { c2 = add_u32 s.c2 1; c15 = add_u32 s.c15 1 }

unfoldable pub insert : VehicleClassCount → VehicleClass → VehicleClassCount
unfolding add_class
insert s class = let s' = add_class s class in record s' { total = add_u32 s'.total 1 }

-- `VehicleClassCount::first`.
unfoldable pub first : ℕ → LaneDirection → VehicleClass → VehicleClassCount
unfolding new insert
first recordnum direction class = insert (new recordnum direction) class

-- The sum of the thirteen classes, without the counter of the unclassified vehicles.
abbrev pub class_sum : VehicleClassCount → ℕ
class_sum s =
    s.c1 + s.c2 + s.c3 + s.c4 + s.c5 + s.c6 + s.c7 + s.c8 + s.c9 + s.c10 + s.c11 + s.c12 + s.c13

-- The thirteen classes sum up to the total, modulo 2^32.
abbrev pub IsTallied : VehicleClassCount → Type 0
IsTallied s = s.total ≡ class_sum s % u32_mod

pub new-IsTallied : (recordnum : ℕ) (d : LaneDirection) → IsTallied (new recordnum d)
unfolding new
new-IsTallied recordnum d = refl

-- If the thirteen classes sum up to the total modulo 2^32, they do so with one more vehicle.
pub insert-IsTallied :
    (s : VehicleClassCount) (c : VehicleClass) → IsTallied s → IsTallied (insert s c)
unfolding insert
insert-IsTallied s motorcycles h = omega arith
insert-IsTallied s _ h = omega arith

-- What a vehicle adds to the counter of the unclassified ones.
abbrev pub unclassified : VehicleClass → ℕ
unclassified unclassified_vehicle = 1
unclassified _ = 0

-- An inserted vehicle is counted once in the total, keeps the record number and the direction, and
-- is counted in `c15` exactly if it is unclassified.
pub insert_effect :
    (s : VehicleClassCount) (c : VehicleClass)
    → ((insert s c).total ≡ add_u32 s.total 1)
      × ((insert s c).c15 % u32_mod ≡ (s.c15 + unclassified c) % u32_mod)
      × ((insert s c).recordnum ≡ s.recordnum)
      × ((insert s c).direction ≡ s.direction)
unfolding insert
insert_effect s motorcycles = (refl, omega arith, refl, refl)
insert_effect s _ = (refl, omega arith, refl, refl)

-- While `c2` does not overflow, the unclassified vehicles are among those of class 2.
pub insert-c15-le-c2 :
    (s : VehicleClassCount) (c : VehicleClass)
    → s.c15 ≤ s.c2
    → s.c2 + 1 < u32_mod
    → (insert s c).c15 ≤ (insert s c).c2
unfolding insert
insert-c15-le-c2 s motorcycles h k = omega arith
insert-c15-le-c2 s _ h k = omega arith
