-- ===== src/Intermediate/SpeedRange/Effect.antt =====
-- What `insert` does to the other fields.
use starnext_import.External.Float.{Float}
use starnext_import.Intermediate.SpeedRange.{SpeedRangeCount, add_speed, insert, within}
use starnext_import.Types.Direction.{LaneDirection}
use starnext_import.Prelude.{ℕ, ap, ◌≡◌, refl, Bool, true, false, add_u32, if◌then◌else◌}

-- The fields that are no counters of a range.
abbrev header : SpeedRangeCount → ℕ × LaneDirection × ℕ
header s = (s.recordnum, s.direction, s.total)

-- Whichever branch the ladder of tests takes.
ladder_keeps :
    (b0 b1 b2 b3 b4 b5 b6 b7 b8 b9 b10 b11 b12 b13 b14 : Bool) (s : SpeedRangeCount)
    → header (
        if b0
        then record s { s1 = add_u32 s.s1 1 }
        else if b1
        then record s { s1 = add_u32 s.s1 1 }
        else if b2
        then record s { s2 = add_u32 s.s2 1 }
        else if b3
        then record s { s3 = add_u32 s.s3 1 }
        else if b4
        then record s { s4 = add_u32 s.s4 1 }
        else if b5
        then record s { s5 = add_u32 s.s5 1 }
        else if b6
        then record s { s6 = add_u32 s.s6 1 }
        else if b7
        then record s { s7 = add_u32 s.s7 1 }
        else if b8
        then record s { s8 = add_u32 s.s8 1 }
        else if b9
        then record s { s9 = add_u32 s.s9 1 }
        else if b10
        then record s { s10 = add_u32 s.s10 1 }
        else if b11
        then record s { s11 = add_u32 s.s11 1 }
        else if b12
        then record s { s12 = add_u32 s.s12 1 }
        else if b13
        then record s { s13 = add_u32 s.s13 1 }
        else if b14
        then record s { s14 = add_u32 s.s14 1 }
        else s)
      ≡ header s
ladder_keeps true _ _ _ _ _ _ _ _ _ _ _ _ _ _ s = refl
ladder_keeps false true _ _ _ _ _ _ _ _ _ _ _ _ _ s = refl
ladder_keeps false false true _ _ _ _ _ _ _ _ _ _ _ _ s = refl
ladder_keeps false false false true _ _ _ _ _ _ _ _ _ _ _ s = refl
ladder_keeps false false false false true _ _ _ _ _ _ _ _ _ _ s = refl
ladder_keeps false false false false false true _ _ _ _ _ _ _ _ _ s = refl
ladder_keeps false false false false false false true _ _ _ _ _ _ _ _ s = refl
ladder_keeps false false false false false false false true _ _ _ _ _ _ _ s = refl
ladder_keeps false false false false false false false false true _ _ _ _ _ _ s = refl
ladder_keeps false false false false false false false false false true _ _ _ _ _ s = refl
ladder_keeps false false false false false false false false false false true _ _ _ _ s = refl
ladder_keeps false false false false false false false false false false false true _ _ _ s = refl
ladder_keeps false false false false false false false false false false false false true _ _ s =
    refl
ladder_keeps false false false false false false false false false false false false false true _
      s =
    refl
ladder_keeps false false false false false false false false false false false false false false
      true s =
    refl
ladder_keeps false false false false false false false false false false false false false false
      false s =
    refl

module _ ⦃f : Float⦄ where
  header-add_speed : (s : SpeedRangeCount) (x : f.F32) → header (add_speed s x) ≡ header s
  unfolding add_speed
  header-add_speed s x =
      ladder_keeps (f.is_sign_negative x) (within 0 150 x) (within 151 200 x) (within 201 250 x)
        (within 251 300 x) (within 301 350 x) (within 351 400 x) (within 401 450 x)
        (within 451 500 x) (within 501 550 x) (within 551 600 x) (within 601 650 x)
        (within 651 700 x) (within 701 750 x) (f.le (f.tenths 751) x) s

  pub insert_effect :
      (s : SpeedRangeCount) (x : f.F32)
      → ((insert s x).total ≡ add_u32 s.total 1)
        × ((insert s x).recordnum ≡ s.recordnum)
        × ((insert s x).direction ≡ s.direction)
  unfolding insert
  insert_effect s x =
      let h = header-add_speed s x in
      (
        ap (λ (t : ℕ × LaneDirection × ℕ). add_u32 t.2 1) h,
        ap (λ (t : ℕ × LaneDirection × ℕ). t.0) h,
        ap (λ (t : ℕ × LaneDirection × ℕ). t.1) h,
      )
