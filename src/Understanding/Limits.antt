-- ===== src/Understanding/Limits.antt =====
-- How many bytes a request of the reading may carry (backend/src/understanding.rs). It mirrors the
-- gate of Budget, which refuses what is packed too large.
use doc_craft_agent.Prelude.{ℕ, ◌+◌, ◌-◌, ◌*◌, ◌/◌, ◌≤◌, ◌<◌, min, max, ◌≡◌, ok, arith}
use doc_craft_agent.Prelude.Words.{saturating_mul, clamp}
use doc_craft_agent.Model.{LlmConfig}
use doc_craft_agent.Budget.{packing_limit, check, estimate_at, margin, context}
use doc_craft_agent.Budget.Gate.{check-packing_limit_at}
use doc_craft_agent.Context.{RunContext}

abbrev pub request_overhead_bytes : ℕ
request_overhead_bytes = 16_000

abbrev pub source_input_max_bytes : ℕ
source_input_max_bytes = 96_000

abbrev pub graph_context_max_bytes : ℕ
graph_context_max_bytes = 12_000

abbrev pub summary_max_bytes : ℕ
summary_max_bytes = 48_000

unfoldable pub graph_budget : ℕ → ℕ
graph_budget space = min (space / 8) graph_context_max_bytes

unfoldable pub summary_maximum : ℕ → ℕ
summary_maximum limit = clamp (limit / 6) 4_000 summary_max_bytes

unfoldable pub accepted_summary : ℕ → ℕ
unfolding summary_maximum
accepted_summary limit =
    let asked = summary_maximum limit in max (min (saturating_mul asked 2) (limit / 3)) asked

module _ {F : Type 0} where
  unfoldable pub request_space : LlmConfig F → ℕ → ℕ
  request_space l extra_margin =
      min (packing_limit l extra_margin request_overhead_bytes)
        (source_input_max_bytes + graph_context_max_bytes)

  unfoldable pub request_limit : LlmConfig F → ℕ → ℕ
  unfolding request_space graph_budget
  request_limit l extra_margin =
      let space = request_space l extra_margin in space - graph_budget space

  unfoldable pub input_limit : RunContext F → ℕ
  unfolding request_limit
  input_limit r = request_limit r.llm r.extra_margin

  unfoldable pub graph_limit : RunContext F → ℕ
  unfolding graph_budget request_space
  graph_limit r = graph_budget (request_space r.llm r.extra_margin)

  unfoldable pub summary_limit : RunContext F → ℕ
  unfolding summary_maximum input_limit
  summary_limit r = summary_maximum (input_limit r)

  -- A reading request whose source and hint keep their limits, and whose JSON is at most a quarter
  -- larger than these and the overhead, passes the gate, if the output is one that the model can
  -- return and the limits leave room for source.
  pub input_limit-check :
      (r : RunContext F) (source graph length : ℕ)
      → r.llm.max_output_tokens ≤ r.llm.model_max_output
      → 0 < input_limit r
      → source ≤ input_limit r
      → graph ≤ graph_limit r
      → length + 256 ≤ (source + graph + request_overhead_bytes) * 125 / 100
      → check r.llm r.extra_margin (estimate_at length 100)
        ≡ ok (record {
          input = estimate_at length 100;
          output = r.llm.max_output_tokens;
          margin = margin r.llm r.extra_margin;
          context = context r.llm r.extra_margin;
          method = r.llm.token_mode;
        })
  unfolding input_limit graph_limit request_limit request_space graph_budget packing_limit
  input_limit-check r source graph length out room s g fits =
      check-packing_limit_at r.llm r.extra_margin 100 request_overhead_bytes length out
        (omega arith) (omega arith) (omega arith)

-- Where a request carries 12,000 bytes or more, a summary that is accepted may be larger than the
-- one asked for, and is at most a third of the request.
pub accepted_summary_fits :
    (limit : ℕ)
    → 12_000 ≤ limit
    → (summary_maximum limit ≤ accepted_summary limit) × (3 * accepted_summary limit ≤ limit)
unfolding accepted_summary summary_maximum
accepted_summary_fits limit h = (omega arith, ground arith)
