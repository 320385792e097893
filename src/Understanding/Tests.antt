-- ===== src/Understanding/Tests.antt =====
-- The unit tests of `plan_groups` and `reduction_work` in backend/src/understanding.rs, and the
-- theorems at concrete levels.
use doc_craft_agent.Prelude.{
  ℕ, ◌+◌, ◌*◌, ◌≤◌, ◌<◌, ◌≡◌, refl, List, [], ◌∷◌, ok, err, arith, length, false, Text, text, map,
}
use doc_craft_agent.Understanding.{plan_groups, context_budget, reduction_work}
use doc_craft_agent.Model.{Evidence, default_llm, default_task}
use doc_craft_agent.Budget.{packing_limit, packing_limit_at}
use doc_craft_agent.Prelude.Words.{div_ceil}
use doc_craft_agent.Context.{RunContext}
use doc_craft_agent.Prelude.Cuts.{cut_at, cut_line, cut_before, fit, newlines, ends_line}
use doc_craft_agent.Understanding.Segments.{
  Cuts, segments, segments_from, segment, piece, cut_piece, segments-Cuts,
}
use doc_craft_agent.Understanding.Limits.{
  input_limit, graph_limit, request_limit, request_space, graph_budget,
}
use doc_craft_agent.Understanding.Groups.{Covers, plan_groups-Covers, plan_groups_narrows}

abbrev costs : List ℕ
costs = 10 ∷ 20 ∷ 30 ∷ 40 ∷ 50 ∷ 60 ∷ []

abbrev groups : List (ℕ × ℕ)
groups = (0, 4) ∷ (4, 6) ∷ []

grouped : plan_groups costs 110 ≡ ok groups
unfolding plan_groups
grouped = refl

no_longer_fits : plan_groups (60 ∷ 60 ∷ 60 ∷ []) 100 ≡ err context_budget
unfolding plan_groups
no_longer_fits = refl

work_of_52 : reduction_work 52 ≡ 17
unfolding reduction_work
work_of_52 = refl

plan_groups-Covers_example : Covers 110 0 costs groups
plan_groups-Covers_example = plan_groups-Covers costs 110 grouped

plan_groups_narrows_example :
    (length groups < length costs) × (2 * length groups ≤ length costs + 1)
plan_groups_narrows_example = plan_groups_narrows costs 110 grouped (omega arith)

abbrev run : RunContext ℕ
run = record {
  llm = default_llm 0;
  task = default_task 0;
  is_cancelled = false;
  is_shutdown = false;
  elapsed = 0;
  elapsed_before = 0;
  finalizing = false;
  reserved_tokens = 0;
  reserved_cost = 0;
  extra_margin = 10;
  density_samples = 0;
  density_floor = 0;
}

limits_of_a_run : input_limit run ∷ graph_limit run ∷ [] ≡ 72_531 ∷ 10_361 ∷ []
unfolding input_limit graph_limit request_limit request_space graph_budget packing_limit
    packing_limit_at div_ceil
limits_of_a_run = refl

-- for a test, the text itself
abbrev same : Text → Text
same t = t

abbrev passage : Evidence
passage = record {
  id = text "p";
  path = text "a.rs";
  start = 7;
  end = 9;
  content = text "ab\ncd\nef";
}

pieces_end_at_lines :
    map (λ (e : Evidence). e.content) (segments same passage 5) ≡ text "ab\n" ∷ text "cd\nef" ∷ []
unfolding segments segments_from segment piece cut_piece cut_at cut_line cut_before fit newlines
    ends_line
pieces_end_at_lines = refl

segments-Cuts_example : Cuts 5 (text "a.rs") 7 (text "ab\ncd\nef") (segments same passage 5)
segments-Cuts_example = segments-Cuts same passage 5
