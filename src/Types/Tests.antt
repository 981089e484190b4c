-- ===== src/Types/Tests.antt =====
-- Kinds of counts, classes of vehicles and directions, as they are read.
use starnext_import.Prelude.Text.{codes}
use starnext_import.Prelude.{◌≡◌, ◌↔◌, ◌⊎◌, ok}
use starnext_import.Types.CountKind
use starnext_import.Types.CountKind.{eight_day, count_kind_from_str_iff}
use starnext_import.Types.Direction.Lane
use starnext_import.Types.Direction.Road
use starnext_import.Types.Direction.Lane.{lane_from_str_iff}
use starnext_import.Types.Direction.Road.{road_from_str_iff}
use starnext_import.Types.Direction.{LaneDirection, RoadDirection}
use starnext_import.Types.VehicleClass.{Numbered, from_num, from_num-Numbered}
use starnext_import.Prelude.Text.{to_lowercase}

eight_days :
    (CountKind.from_str (codes "8 Day") ≡ ok eight_day)
    ↔ (codes "8 Day" ≡ CountKind.display eight_day)
eight_days = count_kind_from_str_iff (codes "8 Day") eight_day

class_14 : Numbered 14 (from_num 14)
class_14 = from_num-Numbered 14

capital_n : (Lane.from_str (codes "N") ≡ ok LaneDirection.north) ↔ (
    (to_lowercase (codes "N") ≡ Lane.display LaneDirection.north)
    ⊎ (to_lowercase (codes "N") ≡ Lane.initial LaneDirection.north))
capital_n = lane_from_str_iff (codes "N") LaneDirection.north

both_ways : (Road.from_str (codes "Both") ≡ ok RoadDirection.both) ↔ (
    (to_lowercase (codes "Both") ≡ Road.display RoadDirection.both)
    ⊎ (to_lowercase (codes "Both") ≡ Road.initial RoadDirection.both))
both_ways = road_from_str_iff (codes "Both") RoadDirection.both
