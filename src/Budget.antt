-- ===== src/Budget.antt =====
-- backend/src/budget.rs: token accounting for a request before it is sent. A request enters by
-- the length of its JSON, in bytes.
pub mod Gate
pub mod Density
mod Tests
use doc_craft_agent.Prelude.{
  ℕ, ◌+◌, ◌-◌, ◌*◌, ◌/◌, min, max, Bool, Option, none, some, ◌&&◌, ◌||◌, ltb, leb, ◌==◌,
  if◌then◌else◌, Text, Result, ok, err,
}
use doc_craft_agent.Prelude.Words.{
  add_u32, saturating_add, saturating_mul, saturating_mul_u32, clamp, div_ceil,
}
use doc_craft_agent.Model.{LlmConfig}

pub record Budget : Type 0 where
  pub input : ℕ
  pub output : ℕ
  pub margin : ℕ
  pub context : ℕ
  pub method : Text

-- `bail!("CONTEXT_BUDGET: ...")`
pub data Error : Type 0 where
  context_budget : Error

abbrev pub escape_expansion_percent : ℕ
escape_expansion_percent = 125

abbrev pub uncalibrated_density : ℕ
uncalibrated_density = 100

abbrev pub density_samples_needed : ℕ
density_samples_needed = 3

abbrev pub density_ceiling : ℕ
density_ceiling = 300

-- over the length of the serialized request
unfoldable pub estimate : ℕ → ℕ
estimate length = saturating_add length 256

unfoldable pub estimate_at : ℕ → ℕ → ℕ
unfolding estimate
estimate_at length density =
    let bytes = estimate length in
    div_ceil (saturating_mul bytes 100) (max density uncalibrated_density)

unfoldable pub density_sample : ℕ → ℕ → Option ℕ
density_sample request_bytes prompt_tokens =
    if prompt_tokens == 0 || ltb request_bytes 4096
    then none
    else let density = saturating_mul request_bytes 100 / prompt_tokens in
      if leb uncalibrated_density density && leb density 600 then some density else none

unfoldable pub calibrated_density : ℕ → ℕ → ℕ
calibrated_density samples densest =
    if ltb samples density_samples_needed || densest == 0
    then uncalibrated_density
    else clamp (saturating_mul_u32 densest 85 / 100) uncalibrated_density density_ceiling

module _ {F : Type 0} (c : LlmConfig F) (extra_margin : ℕ) where
  -- `context` and `margin`, as `packing_limit_at` and `check` both compute them
  abbrev pub context : ℕ
  context = min (min c.context_limit c.model_context_limit) 200_000

  abbrev pub margin : ℕ
  margin = div_ceil (saturating_mul context (min (add_u32 c.safety_percent extra_margin) 90)) 100

  unfoldable pub packing_limit_at : ℕ → ℕ → ℕ
  packing_limit_at density overhead =
      let allowed = context - margin - c.max_output_tokens in
      let bytes = saturating_mul allowed (max density uncalibrated_density) / 100 in
      let room = saturating_mul bytes 100 / escape_expansion_percent in room - overhead

  unfoldable pub packing_limit : ℕ → ℕ
  unfolding packing_limit_at
  packing_limit overhead = packing_limit_at uncalibrated_density overhead

  unfoldable pub check : ℕ → Result Error Budget
  check input =
      let output = c.max_output_tokens in
      if ltb c.model_max_output output
        || ltb context (saturating_add (saturating_add input output) margin)
      then err context_budget
      else ok (record {
        input = input;
        output = output;
        margin = margin;
        context = context;
        method = c.token_mode;
      })
