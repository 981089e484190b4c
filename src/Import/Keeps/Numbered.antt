-- ===== src/Import/Keeps/Numbered.antt =====
-- The tables that src/bin/import.rs writes to are tables of counts, and the rows of a record number have
-- it in their first column.
use starnext_import.Database.Rows.{Row, bind}
use starnext_import.Database.Session.{has_trigger}
use starnext_import.Database.Tables.{
  average_table, bicycle_table, class_table, is_count_table, pedestrian_table, record_field,
  speed_table, vehicle_table, volume_table,
}
use starnext_import.Denormalize.Speed.{NonNormalAvgSpeedCount}
use starnext_import.Denormalize.Volume.{NonNormalVolCount}
use starnext_import.Import.Keeps.{HasNumber, IsCountTable}
use starnext_import.Records.{
  FifteenMinuteBicycle, FifteenMinutePedestrian, FifteenMinuteVehicle, TimeBinnedSpeedRangeCount,
  TimeBinnedVehicleClassCount,
}
use starnext_import.External.Chrono.{Chrono}
use starnext_import.External.Float.{Float}
use starnext_import.External.Oracle.{Oracle}
use starnext_import.Prelude.Text.{Text, codes, text_eq}
use starnext_import.Prelude.{false, ap, ℕ, ◌∷◌, ◌≡◌, refl}

module _ ⦃c : Chrono⦄ ⦃f : Float⦄ (o : Oracle c f) where
  -- The tables are tables of counts, and the first column of each is that of the record number.
  pub class_listed : IsCountTable (class_table o)
  unfolding is_count_table record_field text_eq
  class_listed = record { listed = refl; field = refl }

  pub speed_listed : IsCountTable (speed_table o)
  unfolding is_count_table record_field text_eq
  speed_listed = record { listed = refl; field = refl }

  pub average_listed : IsCountTable (average_table o)
  unfolding is_count_table record_field text_eq
  average_listed = record { listed = refl; field = refl }

  pub volume_listed : IsCountTable (volume_table o)
  unfolding is_count_table record_field text_eq
  volume_listed = record { listed = refl; field = refl }

  pub vehicle_listed : IsCountTable (vehicle_table o)
  unfolding is_count_table record_field text_eq
  vehicle_listed = record { listed = refl; field = refl }

  pub bicycle_listed : IsCountTable (bicycle_table o)
  unfolding is_count_table record_field text_eq
  bicycle_listed = record { listed = refl; field = refl }

  pub pedestrian_listed : IsCountTable (pedestrian_table o)
  unfolding is_count_table record_field text_eq
  pedestrian_listed = record { listed = refl; field = refl }

  same_number :
      (name : Text) (left : Row o) {n r : ℕ}
      → n ≡ r
      → ◌≡◌ {A = Row o} ((name, o.of_u32 n) ∷ left) ((name, o.of_u32 r) ∷ left)
  same_number name left e = ap (λ n. (name, o.of_u32 n) ∷ left) e

  -- No trigger fills a column of these two.
  pub bicycle_plain : has_trigger (bicycle_table o).count_table ≡ false
  unfolding has_trigger text_eq
  bicycle_plain = refl

  pub pedestrian_plain : has_trigger (pedestrian_table o).count_table ≡ false
  unfolding has_trigger text_eq
  pedestrian_plain = refl

  pub class_number :
      (r : ℕ) (v : TimeBinnedVehicleClassCount) → v.recordnum ≡ r → HasNumber o r (class_table o) v
  unfolding bind record_field text_eq
  class_number r v e = record {
    columns_left = _;
    first_column = same_number (codes "recordnum") _ e;
  }

  pub speed_number :
      (r : ℕ) (v : TimeBinnedSpeedRangeCount) → v.recordnum ≡ r → HasNumber o r (speed_table o) v
  unfolding bind record_field text_eq
  speed_number r v e = record {
    columns_left = _;
    first_column = same_number (codes "recordnum") _ e;
  }

  pub average_number :
      (r : ℕ) (v : NonNormalAvgSpeedCount) → v.recordnum ≡ r → HasNumber o r (average_table o) v
  unfolding bind record_field text_eq
  average_number r v e = record {
    columns_left = _;
    first_column = same_number (codes "recordnum") _ e;
  }

  pub volume_number :
      (r : ℕ) (v : NonNormalVolCount) → v.recordnum ≡ r → HasNumber o r (volume_table o) v
  unfolding bind record_field text_eq
  volume_number r v e = record {
    columns_left = _;
    first_column = same_number (codes "recordnum") _ e;
  }

  pub vehicle_number :
      (r : ℕ) (v : FifteenMinuteVehicle) → v.recordnum ≡ r → HasNumber o r (vehicle_table o) v
  unfolding bind record_field text_eq
  vehicle_number r v e = record {
    columns_left = _;
    first_column = same_number (codes "recordnum") _ e;
  }

  pub bicycle_number :
      (r : ℕ) (v : FifteenMinuteBicycle) → v.recordnum ≡ r → HasNumber o r (bicycle_table o) v
  unfolding bind record_field text_eq
  bicycle_number r v e = record {
    columns_left = _;
    first_column = same_number (codes "dvrpcnum") _ e;
  }

  pub pedestrian_number :
      (r : ℕ) (v : FifteenMinutePedestrian) → v.recordnum ≡ r → HasNumber o r (pedestrian_table o) v
  unfolding bind record_field text_eq
  pedestrian_number r v e = record {
    columns_left = _;
    first_column = same_number (codes "dvrpcnum") _ e;
  }
