-- ===== src/External/Instances.antt =====
-- A calendar and a float type that meet the interfaces: values at which the theorems are applied.
-- A day is a number, a time a number of seconds below 86400, and a float a number of hundredths.
use mathlib.Core.HLevel.{Σ_prop_path}
use native.Mathlib.Bridge.{le_prop}
use native.Mathlib.Decide.{dec_lt}
use mathlib.Core.Logic.{dite, dif_pos}
use starnext_import.External.Chrono.{Chrono, ChronoLaws}
use starnext_import.External.Float.{Float}
use starnext_import.Prelude.{
  sum_by, ℕ, ◌+◌, ◌-◌, ◌*◌, ◌/◌, ◌%◌, ◌≤◌, ◌<◌, ◌≡◌, ◌↔◌, refl, ap, Bool, true, ◌&&◌, Option, some,
  none, leb, ◌==◌, ==_iff, if◌then◌else◌, arith, ltb, false,
}

abbrev pub Time : Type 0
Time = (n : ℕ) × (n < 86400)

abbrev pub Moment : Type 0
Moment = ℕ × Time

pub bound_second : (n s : ℕ) → n < 86400 → s < 60 → n / 60 * 60 + s < 86400
bound_second n s h k = omega arith

pub bound_minute : (n m : ℕ) → n < 86400 → m < 60 → n / 3600 * 3600 + m * 60 + n % 60 < 86400
bound_minute n m h k = omega arith

abbrev pub set_second : (t : Time) (s : ℕ) → s < 60 → Option Time
set_second t s h = some (t.0 / 60 * 60 + s, bound_second t.0 s t.1 h)

abbrev pub set_minute : (t : Time) (m : ℕ) → m < 60 → Option Time
set_minute t m h = some (t.0 / 3600 * 3600 + m * 60 + t.0 % 60, bound_minute t.0 m t.1 h)

pub with_second : Time → ℕ → Option Time
unfolding dec_lt
with_second t s = dite (dec_lt s 60) (set_second t s) (λ _. none)

pub with_minute : Time → ℕ → Option Time
unfolding dec_lt
with_minute t m = dite (dec_lt m 60) (set_minute t m) (λ _. none)

pub moment_beq : Moment → Moment → Bool
moment_beq x y = x.0 == y.0 && x.1.0 == y.1.0

pub moment_eq : (x y : Moment) → x.0 ≡ y.0 → x.1.0 ≡ y.1.0 → x ≡ y
moment_eq (d, t) (e, u) p q = λ i. (p i, Σ_prop_path (λ n. le_prop) {u = t} {v = u} q i)

pub moment_beq_iff : (x y : Moment) → (moment_beq x y ≡ true) ↔ (x ≡ y)
unfolding moment_beq
moment_beq_iff x y = (
  λ h. moment_eq x y (ground (arith, ==_iff x.0 y.0)) (ground (arith, ==_iff x.1.0 y.1.0)),
  λ p. ground (arith, ap (λ (z : Moment). z.0) p, ap (λ (z : Moment). z.1.0) p),
)

pub moment_le : Moment → Moment → Bool
moment_le x y = if x.0 == y.0 then leb x.1.0 y.1.0 else leb x.0 y.0

unfoldable pub seconds : Moment → ℕ
seconds x = x.0 * 86400 + x.1.0

abbrev pub last : ℕ
last = 8640000000000

pub at_seconds : ℕ → Moment
at_seconds n = (n / 86400, (n % 86400, bound n))
  where
    bound : (n : ℕ) → n % 86400 < 86400
    bound n = omega arith

pub later : Moment → ℕ → Option Moment
unfolding at_seconds seconds
later x n = if leb (seconds x + n) last then some (at_seconds (seconds x + n)) else none

-- Texts are not read here: each parse gives the start of a day.
instance abbrev pub calendar : Chrono
calendar = record {
  NaiveDate = ℕ;
  NaiveTime = Time;
  NaiveDateTime = Moment;
  TimeDelta = ℕ;
  date_eq = record { beq = ◌==◌; beq_iff = ==_iff };
  datetime_eq = record { beq = moment_beq; beq_iff = moment_beq_iff };
  date_le = leb;
  time_le = λ t u. leb t.0 u.0;
  datetime_le = moment_le;
  datetime = λ d t. (d, t);
  date = λ x. x.0;
  time = λ x. x.1;
  hour = λ t. t.0 / 3600;
  minute = λ t. t.0 / 60 % 60;
  second = λ t. t.0 % 60;
  nanosecond = λ t. 0;
  with_second = with_second;
  with_minute = with_minute;
  hours = λ n. n * 3600;
  minutes = λ n. n * 60;
  checked_add_signed = later;
  parse_date = λ s f. some 0;
  parse_time = λ s f. some (0, omega arith);
  parse_datetime = λ s f. some (0, (0, omega arith));
}

pub later_lem :
    (x : Moment) (n : ℕ)
    → seconds x + n ≤ last
    → (y : Moment) × (later x n ≡ some y) × (seconds y ≡ seconds x + n)
unfolding later
later_lem x n h =
    (at_seconds (seconds x + n), ground arith, unfold at_seconds seconds in omega arith)

pub later-none : (x : Moment) (n : ℕ) → last < seconds x + n → later x n ≡ none
unfolding later
later-none x n h = ground arith

pub with_second_lem :
    (t : Time) (s : ℕ)
    → s < 60
    → (u : Time) × (with_second t s ≡ some u) × (u.0 ≡ t.0 / 60 * 60 + s)
unfolding with_second
with_second_lem t s h = (
  (t.0 / 60 * 60 + s, bound_second t.0 s t.1 h),
  dif_pos (dec_lt s 60) le_prop h (set_second t s) (λ _. none),
  refl,
)

pub with_minute_lem :
    (t : Time) (m : ℕ)
    → m < 60
    → (u : Time) × (with_minute t m ≡ some u) × (u.0 ≡ t.0 / 3600 * 3600 + m * 60 + t.0 % 60)
unfolding with_minute
with_minute_lem t m h = (
  (t.0 / 3600 * 3600 + m * 60 + t.0 % 60, bound_minute t.0 m t.1 h),
  dif_pos (dec_lt m 60) le_prop h (set_minute t m) (λ _. none),
  refl,
)

pub moment_le-seconds :
    (x y : Moment) {p q : ℕ} → p ≡ 0 → q ≡ 0 → moment_le x y ≡ leb (seconds x) (seconds y)
unfolding moment_le seconds
moment_le-seconds x y p q = ground (arith, x.1.1, y.1.1)

unfoldable pub calendar_laws : ChronoLaws calendar
unfolding seconds moment_le
calendar_laws = record {
  date_of_datetime = λ d t. refl;
  time_of_datetime = λ d t. refl;
  datetime_of_parts = λ x. refl;
  datetime_le-pair_le = λ d e t u. refl;
  hour-lt = λ t. omega (arith, t.1);
  minute-lt = λ t. omega arith;
  second-lt = λ t. omega arith;
  with_second-eq_some = λ t s h.
      let (u, e, p) = with_second_lem t s h in (u, e, omega arith, omega arith, omega arith, refl);
  with_minute-eq_some = λ t m h.
      let (u, e, p) = with_minute_lem t m h in (u, e, omega arith, omega arith, omega arith, refl);
  day = λ d. d;
  seconds = seconds;
  last_second = last;
  num_seconds = λ n. n;
  num_seconds-hours = λ n. refl;
  num_seconds-minutes = λ n. refl;
  seconds-datetime = λ d t. omega (arith, t.1);
  datetime_le-seconds = λ x y p q. moment_le-seconds x y p q;
  seconds_injective =
      λ x y p q e. moment_eq x y (omega (arith, x.1.1, y.1.1)) (omega (arith, x.1.1, y.1.1));
  checked_add_signed-eq_some = λ x n p h. let (y, e, q) = later_lem x n h in (y, e, q, refl);
  checked_add_signed-eq_none = λ x n p h. later-none x n h;
}

-- No number here is negative or a NaN.
instance abbrev pub hundredths : Float
hundredths = record {
  F32 = ℕ;
  tenths = λ n. n * 10;
  of_nat = λ n. n * 100;
  is_sign_negative = λ x. false;
  le = leb;
  lt = ltb;
  parse = λ s. some 3000;
  sum = sum_by (λ x. x);
  add = λ x y. x + y;
  sub = λ x y. x - y;
  mul = λ x y. x * y / 100;
  div = λ x y. x * 100 / y;
}
