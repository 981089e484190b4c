-- ===== src/Intermediate/SpeedRange/Gaps.antt =====
-- Speeds between the ranges: the bounds of `insert` leave a tenth open above each range.
use starnext_import.External.Float.{Float}
use starnext_import.Intermediate.SpeedRange.{SpeedRangeCount, insert}
use starnext_import.Prelude.{
  ℕ, ◌+◌, ◌*◌, ◌%◌, ◌≤◌, ◌≡◌, true, false, ◌&&◌, add_u32, leb, ltb, arith,
}

-- `x` is no literal, and lies between `k / 10` and `(k + 1) / 10`.
pub record Between (f : Float) (k : ℕ) (x : f.F32) : Type 0 where
  pub nonneg : f.is_sign_negative x ≡ false
  pub above : (m : ℕ) → f.le (f.tenths m) x ≡ leb m k
  pub below : (m : ℕ) → f.le x (f.tenths m) ≡ ltb k m

outside : (i k : ℕ) → k % 50 ≡ 0 → (leb (151 + 50 * i) k && ltb k (200 + 50 * i)) ≡ false
outside i k h = ground arith

module _ ⦃f : Float⦄ where
  -- A speed above 15.0 by less than a tenth, and so above each multiple of 5.0 up to 75.0, is
  -- counted in the total and in no range.
  pub insert-Between :
      (s : SpeedRangeCount) (k : ℕ) (x : f.F32)
      → Between f k x
      → k % 50 ≡ 0
      → 150 ≤ k
      → k ≤ 750
      → insert s x ≡ record s { total = add_u32 s.total 1 }
  unfolding insert
  insert-Between s k x b e lo hi =
      let first : ltb k 150 ≡ false = ground arith in
      let last : leb 751 k ≡ false = ground arith in
      let from_zero : leb 0 k ≡ true = ground arith in
      rw (
        b.nonneg,
        b.above 0,
        b.below 150,
        from_zero,
        first,
        b.above 151,
        b.below 200,
        outside 0 k e,
        b.above 201,
        b.below 250,
        outside 1 k e,
        b.above 251,
        b.below 300,
        outside 2 k e,
        b.above 301,
        b.below 350,
        outside 3 k e,
        b.above 351,
        b.below 400,
        outside 4 k e,
        b.above 401,
        b.below 450,
        outside 5 k e,
        b.above 451,
        b.below 500,
        outside 6 k e,
        b.above 501,
        b.below 550,
        outside 7 k e,
        b.above 551,
        b.below 600,
        outside 8 k e,
        b.above 601,
        b.below 650,
        outside 9 k e,
        b.above 651,
        b.below 700,
        outside 10 k e,
        b.above 701,
        b.below 750,
        outside 11 k e,
        b.above 751,
        last,
      )
