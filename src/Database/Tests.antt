-- ===== src/Database/Tests.antt =====
-- A count of each shape in a database with room for two rows in a table.
use mathlib.Core.List.{List}
use starnext_import.Database.Hours.{read_volume-inserted}
use starnext_import.Database.Memory.{Tables}
use starnext_import.Database.Pedestrians.{read_pedestrian-inserted}
use starnext_import.Database.RoundTrip.{read_class-inserted}
use starnext_import.Database.Rows.{inserted, read_class, read_pedestrian, read_volume}
use starnext_import.Database.Tables.{bicycle_table, class_table, pedestrian_table, volume_table}
use starnext_import.Denormalize.Volume.{NonNormalVolCount}
use starnext_import.External.Instances.{calendar, hundredths}
use starnext_import.External.Memory.{memory, memory_laws, no_column}
use starnext_import.Prelude.Text.{codes}
use starnext_import.Prelude.{◌≡◌, refl, [], ◌∷◌, none, some, ok, err, arith}
use starnext_import.Records.{
  FifteenMinuteBicycle, FifteenMinutePedestrian, TimeBinnedVehicleClassCount,
}
use starnext_import.Types.Direction.{LaneDirection}

abbrev one_class : TimeBinnedVehicleClassCount
one_class = record {
  date = 0;
  time = (0, (0, omega arith));
  lane = some 1;
  recordnum = 7;
  direction = some LaneDirection.east;
  c1 = 0;
  c2 = 5;
  c3 = 0;
  c4 = 0;
  c5 = 0;
  c6 = 0;
  c7 = 0;
  c8 = 0;
  c9 = 0;
  c10 = 0;
  c11 = 0;
  c12 = 0;
  c13 = 0;
  c15 = some 1;
  total = 6;
}

class_read_back :
    read_class memory (inserted memory (class_table memory) [] one_class) ≡ ok one_class
class_read_back = read_class-inserted memory_laws [] one_class (record {
  recordnum-lt = omega arith;
  lane-Fits = omega arith;
  total-lt = omega arith;
  c15-Fits = omega arith;
  words = (
    omega arith,
    (
      omega arith,
      (
        omega arith,
        (
          omega arith,
          (
            omega arith,
            (
              omega arith,
              (
                omega arith,
                (
                  omega arith,
                  (omega arith, (omega arith, (omega arith, (omega arith, (omega arith, tt))))),
                ),
              ),
            ),
          ),
        ),
      ),
    ),
  );
})

abbrev one_day : NonNormalVolCount
one_day = record {
  recordnum = 7;
  date = 0;
  direction = some LaneDirection.east;
  lane = some 1;
  setflag = none;
  totalcount = some 24;
  hours = record {
    am12 = some 1;
    am1 = some 1;
    am2 = some 1;
    am3 = some 1;
    am4 = some 1;
    am5 = some 1;
    am6 = some 1;
    am7 = some 1;
    am8 = some 1;
    am9 = some 1;
    am10 = some 1;
    am11 = some 1;
    pm12 = some 1;
    pm1 = some 1;
    pm2 = some 1;
    pm3 = some 1;
    pm4 = some 1;
    pm5 = some 1;
    pm6 = some 1;
    pm7 = some 1;
    pm8 = some 1;
    pm9 = some 1;
    pm10 = some 1;
    pm11 = some 1;
  };
}

day_read_back :
    read_volume memory (inserted memory (volume_table memory) (codes "setflag" ∷ []) one_day)
    ≡ ok one_day
day_read_back = read_volume-inserted memory_laws [] one_day (record {
  recordnum-lt = omega arith;
  lane-Fits = omega arith;
  totalcount-Fits = omega arith;
  setflag-none = refl;
  hours-Fit = (
    omega arith,
    (
      omega arith,
      (
        omega arith,
        (
          omega arith,
          (
            omega arith,
            (
              omega arith,
              (
                omega arith,
                (
                  omega arith,
                  (
                    omega arith,
                    (
                      omega arith,
                      (
                        omega arith,
                        (
                          omega arith,
                          (
                            omega arith,
                            (
                              omega arith,
                              (
                                omega arith,
                                (
                                  omega arith,
                                  (
                                    omega arith,
                                    (
                                      omega arith,
                                      (
                                        omega arith,
                                        (
                                          omega arith,
                                          (
                                            omega arith,
                                            (omega arith, (omega arith, (omega arith, tt))),
                                          ),
                                        ),
                                      ),
                                    ),
                                  ),
                                ),
                              ),
                            ),
                          ),
                        ),
                      ),
                    ),
                  ),
                ),
              ),
            ),
          ),
        ),
      ),
    ),
  );
})

abbrev walkers : FifteenMinutePedestrian
walkers = record {
  recordnum = 7;
  date = 0;
  time = (0, (0, omega arith));
  total = 3;
  indir = some 1;
  outdir = some 2;
}

walkers_unread :
    read_pedestrian memory (inserted memory (pedestrian_table memory) [] walkers)
    ≡ err (no_column (codes "incount"))
walkers_unread = read_pedestrian-inserted memory_laws [] walkers (omega arith) (omega arith) tt

abbrev riders : FifteenMinuteBicycle
riders = record {
  recordnum = 7;
  date = 0;
  time = (0, (0, omega arith));
  total = 3;
  indir = some 1;
  outdir = some 2;
}

abbrev with_riders : Tables
with_riders = record {
  session = λ t. inserted memory (bicycle_table memory) [] riders ∷ [];
  stored = λ t. inserted memory (bicycle_table memory) [] riders ∷ [];
  room = some 2;
}
