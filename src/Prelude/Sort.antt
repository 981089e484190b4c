-- ===== src/Prelude/Sort.antt =====
-- `slice::sort_unstable_by_key`, `first` and `last`. Items of equal key may come in any order: only
-- their keys are read. Here they keep their order.
use mathlib.Core.Bool.{Bool}
use mathlib.Core.List.{List, [], ◌∷◌}
use mathlib.Core.Option.{Option, none, some}
use mathlib.Core.Logic.{◌≢◌, inl, inr}
use mathlib.Core.Path.{◌≡◌, refl}
use native.Mathlib.Omega.{arith}
use Prim.Native.Nat.{ℕ, ◌≤◌}
use starnext_import.Prelude.Lists.{All, All-imp}
use starnext_import.Prelude.Tests.{if◌then◌else◌, Bool-cases, leb}

module _ {ℓ} {A : Type ℓ} where
  unfoldable pub insert_by : (A → A → Bool) → A → List A → List A
  insert_by le a [] = a ∷ []
  insert_by le a (x ∷ xs) = if le a x then a ∷ x ∷ xs else x ∷ insert_by le a xs

  unfoldable pub sort_by : (A → A → Bool) → List A → List A
  unfolding insert_by
  sort_by le [] = []
  sort_by le (x ∷ xs) = insert_by le x (sort_by le xs)

  unfoldable pub first : List A → Option A
  first [] = none
  first (x ∷ xs) = some x

  unfoldable pub last : List A → Option A
  last [] = none
  last (x ∷ []) = some x
  last (x ∷ y ∷ xs) = last (y ∷ xs)

  -- Each item is at most as large as those behind it.
  abbrev pub IsSorted : (A → ℕ) → List A → Type 0
  IsSorted g [] = Unit
  IsSorted g (x ∷ xs) = All (λ y. g x ≤ g y) xs × IsSorted g xs

module _ {ℓ κ} {A : Type ℓ} (P : A → Type κ) (le : A → A → Bool) where
  All-insert_by : (a : A) (xs : List A) → P a → All P xs → All P (insert_by le a xs)
  unfolding insert_by
  All-insert_by a [] p h = (p, h)
  All-insert_by a (x ∷ xs) p h = elim (Bool-cases (le a x)) [
    | inl below ↦ rw below (p, h)
    | inr above ↦ rw above (h.0, All-insert_by a xs p h.1)
  ]

  pub All-sort_by : (xs : List A) → All P xs → All P (sort_by le xs)
  unfolding sort_by
  All-sort_by [] h = h
  All-sort_by (x ∷ xs) h = All-insert_by x (sort_by le xs) h.0 (All-sort_by xs h.1)

  All-of_insert_by : (a : A) (xs : List A) → All P (insert_by le a xs) → P a × All P xs
  unfolding insert_by
  All-of_insert_by a [] h = h
  All-of_insert_by a (x ∷ xs) h = elim (Bool-cases (le a x)) [
    | inl below ↦ rw below at h
    | inr above ↦
        let kept = rw above at h in
        let (p, rest) = All-of_insert_by a xs kept.1 in (p, (kept.0, rest))
  ]

  pub All-of_sort_by : (xs : List A) → All P (sort_by le xs) → All P xs
  unfolding sort_by
  All-of_sort_by [] h = h
  All-of_sort_by (x ∷ xs) h =
      let (p, rest) = All-of_insert_by x (sort_by le xs) h in (p, All-of_sort_by xs rest)

module _ {ℓ κ} {A : Type ℓ} (P : A → Type κ) (le : A → A → Bool) (g : A → ℕ)
    (reads : (x y : A) → P x → P y → le x y ≡ leb (g x) (g y)) where
  insert_by-IsSorted :
      (a : A) (xs : List A) → P a → All P xs → IsSorted g xs → IsSorted g (insert_by le a xs)
  unfolding insert_by
  insert_by-IsSorted a [] p h s = (tt, tt)
  insert_by-IsSorted a (x ∷ xs) p h s = elim (Bool-cases (le a x)) [
    | inl below ↦
        let a-le-x : g a ≤ g x = ground (arith, reads a x p h.0) in
        rw below ((a-le-x, All-imp (λ y k. omega arith) xs s.0), s)
    | inr above ↦
        let x-le-a : g x ≤ g a = ground (arith, reads a x p h.0) in
        rw above
          (All-insert_by (λ y. g x ≤ g y) le a xs x-le-a s.0, insert_by-IsSorted a xs p h.1 s.1)
  ]

  pub sort_by-IsSorted : (xs : List A) → All P xs → IsSorted g (sort_by le xs)
  unfolding sort_by
  sort_by-IsSorted [] h = tt
  sort_by-IsSorted (x ∷ xs) h =
      insert_by-IsSorted x (sort_by le xs) h.0 (All-sort_by P le xs h.1) (sort_by-IsSorted xs h.1)

  sort_by-ne-nil : (x : A) (xs : List A) → sort_by le (x ∷ xs) ≢ []
  unfolding sort_by
  sort_by-ne-nil x xs = go (sort_by le xs)
    where
      go : (ys : List A) → insert_by le x ys ≢ []
      go [] = λ e. cc
      go (y ∷ ys) = elim (Bool-cases (le x y)) [ inl b ↦ rw b (λ e. cc) | inr b ↦ rw b (λ e. cc) ]

  last_greatest :
      (x : A) (xs : List A)
      → All P (x ∷ xs)
      → IsSorted g (x ∷ xs)
      → (z : A) × (last (x ∷ xs) ≡ some z) × All (λ y. g y ≤ g z) (x ∷ xs) × P z
  unfolding last
  last_greatest x [] p s = (x, refl, (omega arith, tt), p.0)
  last_greatest x (y ∷ xs) p s =
      let (z, e, most, pz) = last_greatest y xs p.1 s.1 in
      (z, e, (omega (arith, s.0.0, most.0), most), pz)

  -- The first and the last of a sorted list bound all items.
  pub sort_by_ends :
      (x : A) (xs : List A)
      → All P (x ∷ xs)
      → (a z : A) × (first (sort_by le (x ∷ xs)) ≡ some a)
        × (last (sort_by le (x ∷ xs)) ≡ some z)
        × All (λ y. g a ≤ g y) (x ∷ xs)
        × All (λ y. g y ≤ g z) (x ∷ xs)
        × P a
        × P z
  unfolding first
  sort_by_ends x xs h =
      go (sort_by le (x ∷ xs)) refl (All-sort_by P le (x ∷ xs) h) (sort_by-IsSorted (x ∷ xs) h)
    where
      go :
          (ys : List A)
          → sort_by le (x ∷ xs) ≡ ys
          → All P ys
          → IsSorted g ys
          → (a z : A) × (first ys ≡ some a)
            × (last ys ≡ some z)
            × All (λ y. g a ≤ g y) (x ∷ xs)
            × All (λ y. g y ≤ g z) (x ∷ xs)
            × P a
            × P z
      go [] e p s = absurd (sort_by-ne-nil x xs e)
      go (y ∷ ys) e p s =
          let (z, ez, most, pz) = last_greatest y ys p s in
          (
            y,
            z,
            refl,
            ez,
            All-of_sort_by (λ v. g y ≤ g v) le (x ∷ xs) (rw e (omega arith, s.0)),
            All-of_sort_by (λ v. g v ≤ g z) le (x ∷ xs) (rw e most),
            p.0,
            pz,
          )
