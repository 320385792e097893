-- ===== src/Context.antt =====
-- backend/src/context.rs: the counters and limits of one run. The clock and the two cancellation
-- tokens are read at a call, so they are fields; every method here runs as one step.
pub mod Tokens
pub mod Calibration
mod Tests
use doc_craft_agent.Prelude.{
  ℕ, ◌+◌, ◌-◌, min, Bool, true, false, Option, none, some, ◌&&◌, ◌||◌, not, ltb, leb, ◌==◌,
  if◌then◌else◌, Result, ok, err, ◌>>◌, ensure,
}
use doc_craft_agent.Prelude.Words.{saturating_add, u32_max, u64_max}
use doc_craft_agent.Prelude.Floats.{Floats}
use doc_craft_agent.Model.{LlmConfig, TaskConfig}
use doc_craft_agent.Budget.{
  density_sample, calibrated_density, packing_limit_at, uncalibrated_density,
}

-- the `bail!`s of `check` and `reserve`
pub data Error : Type 0 where
  cancelled time_budget token_budget cost_budget : Error

pub record RunContext (F : Type 0) : Type 0 where
  pub llm : LlmConfig F
  pub task : TaskConfig F
  pub is_cancelled : Bool
  pub is_shutdown : Bool
  -- `started.elapsed().as_secs()`
  pub elapsed : ℕ
  pub elapsed_before : ℕ
  pub finalizing : Bool
  pub reserved_tokens : ℕ
  pub reserved_cost : ℕ
  pub extra_margin : ℕ
  pub density_samples : ℕ
  pub density_floor : ℕ

module _ {F : Type 0} where
  unfoldable pub density : RunContext F → ℕ
  density r =
      if r.density_samples == u32_max
      then uncalibrated_density
      else calibrated_density r.density_samples r.density_floor

  unfoldable pub packing_limit : RunContext F → ℕ → ℕ
  unfolding density
  packing_limit r overhead = packing_limit_at r.llm r.extra_margin (density r) overhead

  -- the two `fetch_update`s of `record_density`
  add_sample : RunContext F → ℕ → RunContext F
  add_sample r sample = record r {
    density_floor = if r.density_floor == 0 then sample else min r.density_floor sample;
    density_samples =
        if ltb r.density_samples (u32_max - 1) then r.density_samples + 1 else r.density_samples;
  }

  unfoldable pub record_density : RunContext F → ℕ → ℕ → RunContext F × Bool
  unfolding add_sample
  record_density r request_bytes prompt_tokens =
      if r.density_samples == u32_max
      then (r, false)
      else elim (density_sample request_bytes prompt_tokens) [
        | none ↦ (r, false)
        | some sample ↦ (add_sample r sample, true)
      ]

  unfoldable pub distrust_density : RunContext F → RunContext F
  distrust_density r = record r { density_samples = u32_max }

  unfoldable pub check : RunContext F → Result Error (Unit {0})
  check r = do
    ensure (not (r.is_cancelled || r.is_shutdown)) cancelled
    ensure
        (not
          (not r.finalizing && leb r.task.max_seconds (saturating_add r.elapsed_before r.elapsed)))
        time_budget

  unfoldable pub reconcile_tokens : RunContext F → ℕ → ℕ → RunContext F × ℕ
  reconcile_tokens r reservation used =
      let released = reservation - used in
      (
        record r { reserved_tokens = saturating_add (r.reserved_tokens - reservation) used },
        released,
      )

-- `checked_add` fails where the sum passes `u64`.
abbrev over_budget : ℕ → ℕ → ℕ → Bool
over_budget current tokens limit = ltb u64_max (current + tokens) || ltb limit (current + tokens)

module _ (floats : Floats) where
  open floats use {F, zero_f64, of_u64, ceil_u64, times, over, less}

  abbrev pub micro : F → ℕ
  micro cost = ceil_u64 (times cost (of_u64 1_000_000))

  unfoldable pub reserve : RunContext F → ℕ → F → RunContext F × Result Error (Unit {0})
  reserve r tokens cost =
      if over_budget r.reserved_tokens tokens r.task.max_tokens
      then (r, err token_budget)
      else if less zero_f64 r.task.max_cost
          && less r.task.max_cost
              (over (of_u64 (saturating_add r.reserved_cost (micro cost))) (of_u64 1_000_000))
      then (r, err cost_budget)
      else (
        record r {
          reserved_tokens = r.reserved_tokens + tokens;
          reserved_cost = saturating_add r.reserved_cost (micro cost);
        },
        ok tt,
      )
