-- ===== src/Context/Tests.antt =====
-- A run of backend/src/context.rs on whole-number prices, and the theorems at it.
use doc_craft_agent.Prelude.{
  ℕ, ◌+◌, ◌*◌, ◌/◌, ◌≤◌, max, sum, map, All, ◌≡◌, refl, List, [], ◌∷◌, false, some, err, arith,
}
use doc_craft_agent.Prelude.Words.{u64_max}
use doc_craft_agent.Prelude.Floats.{whole}
use doc_craft_agent.Model.{default_llm, default_task}
use doc_craft_agent.Budget.{density_sample}
use doc_craft_agent.Context.{RunContext, density, reserve, token_budget}
use doc_craft_agent.Context.Tokens.{Call, excess_of, settle_all, settle_all_lem}
use doc_craft_agent.Context.Calibration.{Report, feed, density-feed}

abbrev run : RunContext ℕ
run = record {
  llm = default_llm 0;
  task = default_task 0;
  is_cancelled = false;
  is_shutdown = false;
  elapsed = 0;
  elapsed_before = 0;
  finalizing = false;
  reserved_tokens = 1000;
  reserved_cost = 0;
  extra_margin = 0;
  density_samples = 0;
  density_floor = 0;
}

over_the_budget : (reserve whole run 2_000_000 0).1 ≡ err token_budget
unfolding reserve
over_the_budget = refl

abbrev calls : List (Call whole)
calls = (5000, 0, 4000) ∷ (3_000_000, 0, 10) ∷ (700, 0, 900) ∷ []

settle_all_lem_example :
    let after = settle_all whole run calls in
    (after.reserved_tokens ≤ run.task.max_tokens + sum (map (excess_of whole) calls))
    × (after.reserved_tokens ≤ u64_max)
    × (1000 ≤ after.reserved_tokens)
    × (after.reserved_tokens ≤ 1000 + sum (map (λ (call : Call whole). call.2) calls))
    × (after.task ≡ run.task)
settle_all_lem_example = settle_all_lem whole run calls (omega arith, omega arith)

abbrev reports : List Report
reports = (90_000, 30_000) ∷ (100, 100) ∷ (8000, 4000) ∷ []

density-feed_example :
    All
      (λ (report : Report).
        (d : ℕ)
        → density_sample report.0 report.1 ≡ some d
        → density (feed run reports) ≤ max (d * 85 / 100) 100)
      reports
density-feed_example = density-feed run reports
