-- ===== src/Prelude/Words.antt =====
-- Rust's machine-width arithmetic: `u32` and `u64` operations on the native numbers. `usize` is
-- `u64`.
use doc_craft_agent.Prelude.Tests.{ltb, if◌then◌else◌}
use Prim.Native.Nat.{ℕ, suc, ◌+◌, ◌*◌, ◌/◌, ◌%◌, ◌^◌, ◌≤◌, ◌<◌, min}
use native.Mathlib.Nat.{div-add-mod', div-lt_iff_lt-mul, mod-lt, mul-le-mul_right}
use native.Mathlib.Omega.{arith}

abbrev pub u32_max : ℕ
u32_max = 4294967295

abbrev pub u64_max : ℕ
u64_max = 18446744073709551615

-- `a + b` on `u32` as a release build computes it.
abbrev pub add_u32 : ℕ → ℕ → ℕ
add_u32 a b = (a + b) % 2 ^ 32

abbrev pub saturating_add : ℕ → ℕ → ℕ
saturating_add a b = min (a + b) u64_max

abbrev pub saturating_mul : ℕ → ℕ → ℕ
saturating_mul a b = min (a * b) u64_max

-- `saturating_mul` on `u32`
abbrev pub saturating_mul_u32 : ℕ → ℕ → ℕ
saturating_mul_u32 a b = min (a * b) u32_max

-- `x.clamp(lo, hi)`
abbrev pub clamp : ℕ → ℕ → ℕ → ℕ
clamp x lo hi = if ltb x lo then lo else if ltb hi x then hi else x

-- `x.div_ceil(d)`
unfoldable pub div_ceil : ℕ → ℕ → ℕ
div_ceil x d = if ltb 0 (x % d) then x / d + 1 else x / d

lt_of_mul-lt : (q a d : ℕ) → q * d < a * d → q < a
lt_of_mul-lt q a d h = grind (arith, mul-le-mul_right)

pub div_ceil-le : (x d a : ℕ) → 0 < d → x ≤ a * d → div_ceil x d ≤ a
unfolding div_ceil
div_ceil-le x d a h k =
    ground (
      arith,
      div-add-mod' x d,
      lt_of_mul-lt (x / d) a d,
      (div-lt_iff_lt-mul {x = x} {y = suc a} h).1,
    )

pub le-div_ceil : (x d : ℕ) → 0 < d → x ≤ div_ceil x d * d
unfolding div_ceil
le-div_ceil x d h = grind (arith, div-add-mod' x d, mod-lt x h)
