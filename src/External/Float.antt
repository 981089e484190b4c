-- ===== src/External/Float.antt =====
-- The type `f32` with the operations that the program applies to it. No law is assumed here: the
-- lemmas that need one take it as a hypothesis.
use starnext_import.Prelude.{ℕ, Bool, List, Option}
use starnext_import.Prelude.Text.{Text}

pub record Float : Type 1 where
  pub F32 : Type 0
  -- the literal `n / 10`, as in `15.1`
  pub tenths : ℕ → F32
  -- `as f32`
  pub of_nat : ℕ → F32
  pub is_sign_negative : F32 → Bool
  -- `<=` and `<`, which are false at a NaN
  pub le : F32 → F32 → Bool
  pub lt : F32 → F32 → Bool
  -- `parse::<f32>()`
  pub parse : Text → Option F32
  -- `Iterator::sum`
  pub sum : List F32 → F32
  pub add : F32 → F32 → F32
  pub sub : F32 → F32 → F32
  pub mul : F32 → F32 → F32
  pub div : F32 → F32 → F32
