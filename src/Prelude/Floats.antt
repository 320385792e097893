-- ===== src/Prelude/Floats.antt =====
-- `f64` as the program uses it. The operations are the hardware's, so they enter as a parameter.
use doc_craft_agent.Prelude.Tests.{ltb, ◌==◌}
use Prim.Native.Nat.{ℕ, ◌*◌, ◌/◌}
use mathlib.Core.Bool.{Bool, true}

pub record Floats : Type 1 where
  pub F : Type 0
  pub zero_f64 : F
  pub of_u64 : ℕ → F
  -- `x.ceil() as u64`, which saturates at both ends
  pub ceil_u64 : F → ℕ
  pub times : F → F → F
  pub over : F → F → F
  -- `a < b`
  pub less : F → F → Bool
  -- `a == b`
  pub equal : F → F → Bool
  pub is_finite : F → Bool

-- Whole numbers, to run the model on.
abbrev pub whole : Floats
whole = record {
  F = ℕ;
  zero_f64 = 0;
  of_u64 = λ n. n;
  ceil_u64 = λ x. x;
  times = λ a b. a * b;
  over = λ a b. a / b;
  less = ltb;
  equal = λ a b. a == b;
  is_finite = λ _. true;
}
