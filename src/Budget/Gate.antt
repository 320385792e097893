-- ===== src/Budget/Gate.antt =====
-- The gate of backend/src/budget.rs and the packing that mirrors it.
use doc_craft_agent.Prelude.{ℕ, zero, suc, ◌+◌, ◌-◌, ◌*◌, ◌/◌, ◌≤◌, ◌<◌, max, ◌≡◌, ok, arith}
use doc_craft_agent.Prelude.Words.{saturating_add, saturating_mul, div_ceil-le, u32_max}
use doc_craft_agent.Model.{LlmConfig}
use doc_craft_agent.Budget.{Budget, check, packing_limit_at, estimate_at, context, margin}
use native.Mathlib.Nat.{mul-le-mul, zero-mul}

-- An accepted request reserves input, output and margin within the context, which is at most
-- 200,000 tokens and at most both of the configured limits, and its output is at most what the
-- model can return.
pub check_bounds :
    {F : Type 0} (c : LlmConfig F) (extra_margin input : ℕ) {b : Budget}
    → check c extra_margin input ≡ ok b
    → (b.input + b.output + b.margin ≤ b.context)
      × (b.context ≤ 200_000)
      × (b.context ≤ c.context_limit)
      × (b.context ≤ c.model_context_limit)
      × (b.output ≤ c.model_max_output)
      × (b.input ≡ input)
      × (b.output ≡ c.max_output_tokens)
unfolding check
check_bounds c extra input h = ground arith

pos_of_mul : (a d : ℕ) → 0 < a * d → 0 < a
pos_of_mul zero d h = rw zero-mul at h
pos_of_mul (suc a) d h = omega arith

area_bound : (a d : ℕ) → a ≤ 200_000 → d ≤ u32_max → a * d ≤ 200_000 * u32_max
area_bound a d h k = grind (arith, mul-le-mul)

-- The bytes of a packed request, times 100, are at most the tokens allowed at the density.
packed_bytes :
    (a d overhead length : ℕ)
    → a ≤ 200_000
    → d ≤ u32_max
    → let room = saturating_mul (saturating_mul a d / 100) 100 / 125 in
      0 < room - overhead
      → length + 256 ≤ (room - overhead + overhead) * 125 / 100
      → (saturating_mul (saturating_add length 256) 100 ≤ a * d) × (0 < a * d)
packed_bytes a d overhead length ha hd room fits = omega (arith, area_bound a d ha hd)

-- A request of `length` bytes of JSON that fits the packed bytes and the overhead after escaping
-- passes the gate at the density that it was packed at, a `u32`, if the output is one that the
-- model can return and the limit leaves room: the gate returns the budget with the estimate of its
-- tokens as input.
pub check-packing_limit_at :
    {F : Type 0} (c : LlmConfig F) (extra_margin density overhead length : ℕ)
    → c.max_output_tokens ≤ c.model_max_output
    → density ≤ u32_max
    → 0 < packing_limit_at c extra_margin density overhead
    → length + 256 ≤ (packing_limit_at c extra_margin density overhead + overhead) * 125 / 100
    → check c extra_margin (estimate_at length density)
      ≡ ok (record {
        input = estimate_at length density;
        output = c.max_output_tokens;
        margin = margin c extra_margin;
        context = context c extra_margin;
        method = c.token_mode;
      })
unfolding check packing_limit_at estimate_at
check-packing_limit_at c extra density overhead length out small room fits =
    let allowed = context c extra - margin c extra - c.max_output_tokens in
    let d = max density 100 in
    let h = packed_bytes allowed d overhead length (omega arith) (omega arith) room fits in
    let tokens = div_ceil-le _ d allowed (omega arith) h.0 in
    ground (arith, pos_of_mul allowed d h.1)
