-- ===== src/Intermediate/SpeedRange/Ranges.antt =====
-- Which range a speed is counted in.
use starnext_import.External.Float.{Float}
use starnext_import.Intermediate.SpeedRange.{SpeedRangeCount, insert}
use starnext_import.Prelude.{
  ℕ, zero, suc, ◌+◌, ◌-◌, ◌/◌, ◌≤◌, ◌<◌, ◌≡◌, refl, true, false, ◌&&◌, List, [], ◌∷◌, add_u32, leb,
  ltb, if◌then◌else◌, arith, Bool-cases, inl, inr, le→leb, ◌∙◌, sym, ap, length, ◌++◌,
}

abbrev pub ranges : SpeedRangeCount → List ℕ
ranges s =
    s.s1 ∷ s.s2 ∷ s.s3 ∷ s.s4 ∷ s.s5 ∷ s.s6 ∷ s.s7 ∷ s.s8 ∷ s.s9 ∷ s.s10 ∷ s.s11 ∷ s.s12 ∷ s.s13
    ∷ s.s14 ∷ []

abbrev pub range_sum : SpeedRangeCount → ℕ
range_sum s =
    s.s1 + s.s2 + s.s3 + s.s4 + s.s5 + s.s6 + s.s7 + s.s8 + s.s9 + s.s10 + s.s11 + s.s12 + s.s13
    + s.s14

-- The index of the range of a speed of `n` tenths: up to 15.0, then steps of 5.0, then above 75.0.
abbrev pub range_index : ℕ → ℕ
range_index n = if leb n 150 then 0 else if leb 751 n then 13 else (n - 101) / 50

-- One is added, as a `u32`, to the counter at an index.
abbrev pub add_at : ℕ → List ℕ → List ℕ
add_at i [] = []
add_at zero (x ∷ xs) = add_u32 x 1 ∷ xs
add_at (suc i) (x ∷ xs) = x ∷ add_at i xs

-- The literals of a float type are in order, as far as a speed can reach, and are not negative.
pub record TenthsLaws (f : Float) : Type 0 where
  pub le-tenths : (m n : ℕ) → m < 1000000 → n < 1000000 → f.le (f.tenths m) (f.tenths n) ≡ leb m n
  pub tenths_nonneg : (n : ℕ) → f.is_sign_negative (f.tenths n) ≡ false

abbrev pick {ℓ} : {A : Type ℓ} → ℕ → List A → A → A
pick i [] d = d
pick zero (x ∷ xs) d = x
pick (suc i) (x ∷ xs) d = pick i xs d

-- The tests of the ranges of 5.0 from `lo` on.
abbrev rungs {ℓ} : {A : Type ℓ} → ℕ → List A → A → ℕ → A
rungs lo [] d n = d
rungs lo (x ∷ xs) d n = if leb lo n && leb n (lo + 49) then x else rungs (lo + 50) xs d n

pick-index :
    {A : Type 0} (lo n : ℕ) (x : A) (xs : List A) (d : A)
    → lo + 49 < n
    → pick ((n - lo) / 50) (x ∷ xs) d ≡ pick ((n - (lo + 50)) / 50) xs d
pick-index lo n x xs d h = let e : (n - lo) / 50 ≡ suc ((n - (lo + 50)) / 50) = omega arith in rw e

rungs-pick :
    {A : Type 0} (lo : ℕ) (xs : List A) (d : A) (n : ℕ)
    → lo ≤ n
    → rungs lo xs d n ≡ pick ((n - lo) / 50) xs d
rungs-pick lo [] d n h = refl
rungs-pick lo (x ∷ xs) d n h = elim (Bool-cases (leb n (lo + 49))) [
  | inl here ↦ let e : (n - lo) / 50 ≡ 0 = ground arith in rw (e, here, le→leb lo n h)
  | inr later ↦
      rw (later, le→leb lo n h)
        (rungs-pick (lo + 50) xs d n (ground arith) ∙ sym (pick-index lo n x xs d (ground arith)))
]

pick_end : {A : Type 0} (i : ℕ) (xs : List A) (d : A) → length xs ≤ i → pick i xs d ≡ d
pick_end i [] d h = refl
pick_end zero (x ∷ xs) d h = absurd (omega arith)
pick_end (suc i) (x ∷ xs) d h = pick_end i xs d (omega arith)

pick_front :
    {A : Type 0} (i : ℕ) (xs ys : List A) (c d : A)
    → i < length xs
    → pick i xs c ≡ pick i (xs ++ ys) d
pick_front i [] ys c d h = absurd (omega arith)
pick_front zero (x ∷ xs) ys c d h = refl
pick_front (suc i) (x ∷ xs) ys c d h = pick_front i xs ys c d (omega arith)

pick-length : {A : Type 0} (xs : List A) (y d : A) → pick (length xs) (xs ++ y ∷ []) d ≡ y
pick-length [] y d = refl
pick-length (x ∷ xs) y d = pick-length xs y d

-- Behind the first range: the twelve ranges of 5.0, and the last one.
rungs_tail :
    {A : Type 0} (n : ℕ) (xs : List A) (y d : A)
    → length xs ≡ 12
    → 150 < n
    → rungs 151 xs (if leb 751 n then y else d) n
      ≡ pick (if leb 751 n then 12 else (n - 151) / 50) (xs ++ y ∷ []) d
rungs_tail n xs y d e h = elim (Bool-cases (leb 751 n)) [
  | inl fast ↦ rw fast (
      rungs-pick 151 xs y n (omega arith)
      ∙ pick_end ((n - 151) / 50) xs y (ground arith)
      ∙ sym (rw (← e) (pick-length xs y d)))
  | inr slow ↦ rw slow (
      rungs-pick 151 xs d n (omega arith)
      ∙ pick_front ((n - 151) / 50) xs (y ∷ []) d d (ground arith))
]

index_suc :
    (n : ℕ)
    → 150 < n
    → suc (if leb 751 n then 12 else (n - 151) / 50) ≡ (if leb 751 n then 13 else (n - 101) / 50)
index_suc n h = ground arith

-- The ladder of tests takes the branch of the index.
ladder-pick :
    {A : Type 0} (n : ℕ) (a0 a1 a2 a3 a4 a5 a6 a7 a8 a9 a10 a11 a12 a13 d : A)
    → (if leb 0 n && leb n 150
        then a0
        else if leb 151 n && leb n 200
        then a1
        else if leb 201 n && leb n 250
        then a2
        else if leb 251 n && leb n 300
        then a3
        else if leb 301 n && leb n 350
        then a4
        else if leb 351 n && leb n 400
        then a5
        else if leb 401 n && leb n 450
        then a6
        else if leb 451 n && leb n 500
        then a7
        else if leb 501 n && leb n 550
        then a8
        else if leb 551 n && leb n 600
        then a9
        else if leb 601 n && leb n 650
        then a10
        else if leb 651 n && leb n 700
        then a11
        else if leb 701 n && leb n 750
        then a12
        else if leb 751 n
        then a13
        else d)
      ≡ pick
          (range_index n)
          (a0 ∷ a1 ∷ a2 ∷ a3 ∷ a4 ∷ a5 ∷ a6 ∷ a7 ∷ a8 ∷ a9 ∷ a10 ∷ a11 ∷ a12 ∷ a13 ∷ [])
          d
ladder-pick n a0 a1 a2 a3 a4 a5 a6 a7 a8 a9 a10 a11 a12 a13 d = elim (Bool-cases (leb n 150)) [
  | inl low ↦ rw (low, le→leb 0 n (omega arith))
  | inr high ↦
      rw (high, le→leb 0 n (omega arith))
        (rungs_tail n (a1 ∷ a2 ∷ a3 ∷ a4 ∷ a5 ∷ a6 ∷ a7 ∷ a8 ∷ a9 ∷ a10 ∷ a11 ∷ a12 ∷ []) a13 d refl
            (ground arith)
          ∙ ap
              (λ i.
                pick i
                  (a0 ∷ a1 ∷ a2 ∷ a3 ∷ a4 ∷ a5 ∷ a6 ∷ a7 ∷ a8 ∷ a9 ∷ a10 ∷ a11 ∷ a12 ∷ a13 ∷ []) d)
              (index_suc n (ground arith)))
]

-- The counter of each range, increased.
abbrev choices : SpeedRangeCount → List SpeedRangeCount
choices s =
    record s { s1 = add_u32 s.s1 1 }
    ∷ record s { s2 = add_u32 s.s2 1 }
    ∷ record s { s3 = add_u32 s.s3 1 }
    ∷ record s { s4 = add_u32 s.s4 1 }
    ∷ record s { s5 = add_u32 s.s5 1 }
    ∷ record s { s6 = add_u32 s.s6 1 }
    ∷ record s { s7 = add_u32 s.s7 1 }
    ∷ record s { s8 = add_u32 s.s8 1 }
    ∷ record s { s9 = add_u32 s.s9 1 }
    ∷ record s { s10 = add_u32 s.s10 1 }
    ∷ record s { s11 = add_u32 s.s11 1 }
    ∷ record s { s12 = add_u32 s.s12 1 }
    ∷ record s { s13 = add_u32 s.s13 1 }
    ∷ record s { s14 = add_u32 s.s14 1 }
    ∷ []

ranges-pick : (s : SpeedRangeCount) (i : ℕ) → ranges (pick i (choices s) s) ≡ add_at i (ranges s)
ranges-pick s i = ground arith

module _ ⦃f : Float⦄ (laws : TenthsLaws f) where
  above : (m n : ℕ) → ltb m 1000000 ≡ true → n < 1000000 → f.le (f.tenths m) (f.tenths n) ≡ leb m n
  above m n h k = laws.le-tenths m n (ground arith) k

  below : (m n : ℕ) → ltb m 1000000 ≡ true → n < 1000000 → f.le (f.tenths n) (f.tenths m) ≡ leb n m
  below m n h k = laws.le-tenths n m k (ground arith)

  -- A speed of `n` tenths is added to the counter of its range, and to no other.
  pub ranges-insert-tenths :
      (s : SpeedRangeCount) (n : ℕ)
      → n < 1000000
      → ranges (insert s (f.tenths n)) ≡ add_at (range_index n) (ranges s)
  unfolding insert
  ranges-insert-tenths s n h =
      rw
        (
          laws.tenths_nonneg n,
          above 0 n refl h,
          above 151 n refl h,
          above 201 n refl h,
          above 251 n refl h,
          above 301 n refl h,
          above 351 n refl h,
          above 401 n refl h,
          above 451 n refl h,
          above 501 n refl h,
          above 551 n refl h,
          above 601 n refl h,
          above 651 n refl h,
          above 701 n refl h,
          above 751 n refl h,
          below 150 n refl h,
          below 200 n refl h,
          below 250 n refl h,
          below 300 n refl h,
          below 350 n refl h,
          below 400 n refl h,
          below 450 n refl h,
          below 500 n refl h,
          below 550 n refl h,
          below 600 n refl h,
          below 650 n refl h,
          below 700 n refl h,
          below 750 n refl h,
          ladder-pick n,
        )
        (ranges-pick s (range_index n))
