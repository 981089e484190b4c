-- ===== src/Denormalize/Keys.antt =====
-- `NonNormalCountKey` of src/intermediate.rs: the record number, day, direction and lane that a row
-- with 24 hours is about.
use starnext_import.External.Chrono.{Chrono}
use starnext_import.Prelude.{
  ℕ, ◌≡◌, ◌↔◌, refl, Bool, true, false, ◌&&◌, Option, none, some, Eq, ◌==◌, ==_iff, arith, ap,
}
use starnext_import.Types.Direction.{LaneDirection}
use starnext_import.Types.Direction.LaneDirection.{north, east, south, west}

pub record NonNormalCountKey ⦃c : Chrono⦄ : Type 0 where
  pub recordnum : ℕ
  pub date : c.NaiveDate
  pub direction : Option LaneDirection
  pub lane : Option ℕ

abbrev pub direction_beq : LaneDirection → LaneDirection → Bool
direction_beq north north = true
direction_beq east east = true
direction_beq south south = true
direction_beq west west = true
direction_beq _ _ = false

direction_beq_iff : (d e : LaneDirection) → (direction_beq d e ≡ true) ↔ (d ≡ e)
direction_beq_iff d e = ground arith

abbrev pub option_beq : {A : Type 0} → (A → A → Bool) → Option A → Option A → Bool
option_beq f none none = true
option_beq f (some a) (some b) = f a b
option_beq f _ _ = false

option_beq_iff :
    {A : Type 0} (f : A → A → Bool)
    → ((a b : A) → (f a b ≡ true) ↔ (a ≡ b))
    → (o p : Option A) → (option_beq f o p ≡ true) ↔ (o ≡ p)
option_beq_iff f h none none = (λ _. refl, λ _. refl)
option_beq_iff f h (some a) (some b) = (λ e. ap some ((h a b).0 e), λ e. (h a b).1 cc)
option_beq_iff f h none (some b) = (λ e. cc, λ e. cc)
option_beq_iff f h (some a) none = (λ e. cc, λ e. cc)

module _ ⦃c : Chrono⦄ where
  -- The derived `PartialEq`.
  abbrev pub key_beq : NonNormalCountKey → NonNormalCountKey → Bool
  key_beq k j =
      k.recordnum == j.recordnum
      && (c.date_eq.beq k.date j.date
          && (option_beq direction_beq k.direction j.direction && option_beq (◌==◌) k.lane j.lane))

  pub key_beq_iff : (k j : NonNormalCountKey) → (key_beq k j ≡ true) ↔ (k ≡ j)
  key_beq_iff k j = ground (
    arith,
    ==_iff k.recordnum j.recordnum,
    c.date_eq.beq_iff k.date j.date,
    option_beq_iff direction_beq direction_beq_iff k.direction j.direction,
    option_beq_iff (◌==◌) ==_iff k.lane j.lane,
  )

  instance abbrev pub key_eq : Eq NonNormalCountKey
  key_eq = record { beq = key_beq; beq_iff = key_beq_iff }
