-- ===== src/Types/Direction.antt =====
-- `RoadDirection`, `LaneDirection` and `Directions` of src/lib.rs.
pub mod Road
pub mod Lane
use starnext_import.Prelude.{Option}

pub data RoadDirection : Type 0 where
  north east south west both : RoadDirection

pub data LaneDirection : Type 0 where
  north east south west : LaneDirection

pub record Directions : Type 0 where
  pub direction1 : LaneDirection
  pub direction2 : Option LaneDirection
  pub direction3 : Option LaneDirection

abbrev pub directions : LaneDirection → Option LaneDirection → Option LaneDirection → Directions
directions d1 d2 d3 = record { direction1 = d1; direction2 = d2; direction3 = d3 }
