-- ===== src/Prelude/HashMap.antt =====
-- `std::collections::HashMap`, as the list of its entries. The library leaves the order of the
-- entries open: no statement about a map depends on it.
use mathlib.Core.Bool.{true}
use mathlib.Core.List.{List, [], ◌∷◌, map}
use mathlib.Core.Logic.{inl, inr}
use mathlib.Core.Option.{Option, none, some}
use mathlib.Core.Path.{◌≡◌, refl}
use native.Mathlib.Omega.{arith}
use starnext_import.Prelude.Lists.{All}
use starnext_import.Prelude.Tests.{Eq, Bool-cases, if◌then◌else◌}

abbrev pub HashMap {ℓ κ} : Type ℓ → Type κ → Type (ℓ ⊔ κ)
HashMap K V = List (K × V)

abbrev pub keys {ℓ κ} : {K : Type ℓ} {V : Type κ} → HashMap K V → List K
keys m = map (λ e. e.0) m

-- An absent value changed by `f` is `v`: `and_modify` and `or_insert` at one key.
abbrev pub modified_or {κ} : {V : Type κ} → (V → V) → V → Option V → V
modified_or f v none = v
modified_or f v (some w) = f w

pub beq_refl {ℓ} : {K : Type ℓ} ⦃e : Eq K⦄ (k : K) → e.beq k k ≡ true
beq_refl ⦃e⦄ k = (e.beq_iff k k).1 refl

-- A value is present.
abbrev pub IsPresent {ℓ} : {A : Type ℓ} → Option A → Type 0
IsPresent none = ⊥
IsPresent (some a) = Unit

module _ {ℓ κ} {K : Type ℓ} {V : Type κ} ⦃e : Eq K⦄ where
  unfoldable pub lookup : K → HashMap K V → Option V
  lookup k [] = none
  lookup k ((j, v) ∷ m) = if e.beq k j then some v else lookup k m

  -- `m.entry(k).and_modify(f).or_insert(v)`.
  unfoldable pub upsert : K → (V → V) → V → HashMap K V → HashMap K V
  upsert k f v [] = (k, v) ∷ []
  upsert k f v ((j, w) ∷ m) = if e.beq k j then (j, f w) ∷ m else (j, w) ∷ upsert k f v m

  -- `m.entry(k).or_insert(v)`.
  abbrev pub or_insert : K → V → HashMap K V → HashMap K V
  or_insert k v m = upsert k (λ w. w) v m

  -- No key stands twice.
  abbrev pub Distinct : HashMap K V → Type κ
  Distinct [] = Unit
  Distinct ((k, v) ∷ m) = (lookup k m ≡ none) × Distinct m

  -- A change at one key is read at that key and at no other.
  pub lookup-upsert :
      (j k : K) (f : V → V) (v : V) (m : HashMap K V)
      → lookup j (upsert k f v m)
        ≡ (if e.beq j k then some (modified_or f v (lookup k m)) else lookup j m)
  unfolding lookup upsert
  lookup-upsert j k f v [] = refl
  lookup-upsert j k f v ((i, w) ∷ m) =
      ground (arith, lookup-upsert j k f v m, e.beq_iff j k, e.beq_iff k i, e.beq_iff j i)

  pub upsert-Distinct :
      (k : K) (f : V → V) (v : V) (m : HashMap K V) → Distinct m → Distinct (upsert k f v m)
  unfolding lookup upsert
  upsert-Distinct k f v [] h = (refl, tt)
  upsert-Distinct k f v ((j, w) ∷ m) h = elim (Bool-cases (e.beq k j)) [
    | inl same ↦ rw same (h.0, h.1)
    | inr other ↦ rw other (
      ground (arith, lookup-upsert j k f v m, e.beq_iff j k, e.beq_iff k j),
      upsert-Distinct k f v m h.1,
    )
  ]

  -- A change keeps every key, and adds its own.
  pub upsert-IsPresent :
      (j k : K) (f : V → V) (v : V) (m : HashMap K V)
      → IsPresent (lookup j m)
      → IsPresent (lookup j (upsert k f v m))
  upsert-IsPresent j k f v m h = elim (Bool-cases (e.beq j k)) [
    | inl same ↦ rw (lookup-upsert j k f v m, same) tt
    | inr other ↦ rw (lookup-upsert j k f v m, other) h
  ]

  pub upsert-IsPresent_self :
      (k : K) (f : V → V) (v : V) (m : HashMap K V) → IsPresent (lookup k (upsert k f v m))
  upsert-IsPresent_self k f v m = rw (lookup-upsert k k f v m, beq_refl k) tt

  -- A property of the entries that each change keeps.
  pub upsert-All {μ} :
      (P : K × V → Type μ) (k : K) (f : V → V) (v : V) (m : HashMap K V)
      → ((j : K) (w : V) → P (j, w) → P (j, f w))
      → P (k, v)
      → All P m
      → All P (upsert k f v m)
  unfolding upsert
  upsert-All P k f v [] keep new h = (new, tt)
  upsert-All P k f v ((j, w) ∷ m) keep new h = elim (Bool-cases (e.beq k j)) [
    | inl same ↦ rw same (keep j w h.0, h.1)
    | inr other ↦ rw other (h.0, upsert-All P k f v m keep new h.1)
  ]
