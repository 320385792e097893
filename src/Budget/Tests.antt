-- ===== src/Budget/Tests.antt =====
-- The unit tests of backend/src/budget.rs, and the theorems at concrete requests.
use doc_craft_agent.Prelude.{ℕ, ◌*◌, ◌/◌, ◌≤◌, max, ◌≡◌, refl, none, some, ok, err, arith}
use doc_craft_agent.Prelude.Words.{div_ceil, saturating_mul}
use doc_craft_agent.Model.{LlmConfig, default_llm}
use doc_craft_agent.Budget.{
  Budget, context_budget, estimate_at, density_sample, calibrated_density, packing_limit,
  packing_limit_at, check, margin,
}
use doc_craft_agent.Budget.Gate.{check-packing_limit_at}
use doc_craft_agent.Budget.Density.{density_sample_bounds, calibrated_density_conservative}

abbrev config : LlmConfig ℕ
config = default_llm 0

sample_same_count : density_sample 90_000 100 ≡ none
unfolding density_sample
sample_same_count = refl

sample_dense : density_sample 90_000 30_000 ≡ some 300
unfolding density_sample
sample_dense = refl

calibrated_discount : calibrated_density 3 300 ≡ 255
unfolding calibrated_density
calibrated_discount = refl

calibrated_ceiling : calibrated_density 9 600 ≡ 300
unfolding calibrated_density
calibrated_ceiling = refl

large_input_blocked : check config 0 199_000 ≡ err context_budget
unfolding check div_ceil
large_input_blocked = refl

default_room : packing_limit config 0 0 ≡ 114_892
unfolding packing_limit div_ceil
default_room = refl

abbrev accepted : Budget
accepted = record {
  input = 1000;
  output = 16384;
  margin = 40_000;
  context = 200_000;
  method = config.token_mode;
}

check-packing_limit_at_example :
    check config 0 (estimate_at 250_000 250)
    ≡ ok (record {
      input = estimate_at 250_000 250;
      output = 16384;
      margin = margin config 0;
      context = 200_000;
      method = config.token_mode;
    })
unfolding packing_limit_at div_ceil
check-packing_limit_at_example =
    check-packing_limit_at config 0 250 10_000 250_000 (omega arith) (omega arith) (omega arith)
      (omega arith)

density_sample_bounds_example :
    (100 ≤ 300)
    × (300 ≤ 600)
    × (4096 ≤ 90_000)
    × (◌≡◌ {A = ℕ} 300 (saturating_mul 90_000 100 / 30_000))
density_sample_bounds_example = density_sample_bounds 90_000 30_000 sample_dense

calibrated_density_conservative_example : calibrated_density 3 300 ≤ max (300 * 85 / 100) 100
calibrated_density_conservative_example = calibrated_density_conservative 3 300
