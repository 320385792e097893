-- ===== src/Budget/Density.antt =====
-- Calibration of the bytes in a token, backend/src/budget.rs.
use doc_craft_agent.Prelude.{ℕ, ◌*◌, ◌/◌, ◌≤◌, max, ◌≡◌, some, arith}
use doc_craft_agent.Prelude.Words.{saturating_mul}
use doc_craft_agent.Budget.{
  density_sample, calibrated_density, uncalibrated_density, density_ceiling,
}

-- A usable sample lies between one and six bytes a token, comes from a request of at least 4096
-- bytes, and is the ratio of the bytes to the tokens, rounded down.
pub density_sample_bounds :
    (bytes tokens : ℕ) {d : ℕ}
    → density_sample bytes tokens ≡ some d
    → (100 ≤ d) × (d ≤ 600) × (4096 ≤ bytes) × (d ≡ saturating_mul bytes 100 / tokens)
unfolding density_sample
density_sample_bounds bytes tokens h = ground arith

pub calibrated_density_range :
    (samples densest : ℕ)
    → (uncalibrated_density ≤ calibrated_density samples densest)
      × (calibrated_density samples densest ≤ density_ceiling)
unfolding calibrated_density
calibrated_density_range samples densest = ground arith

-- The calibrated density never passes 85 percent of the densest sample, unless that is below one
-- byte a token.
pub calibrated_density_conservative :
    (samples densest : ℕ)
    → calibrated_density samples densest ≤ max (densest * 85 / 100) uncalibrated_density
unfolding calibrated_density
calibrated_density_conservative samples densest = ground arith
