-- ===== src/Runner/Tests.antt =====
-- The stretches of a document of ten sections, and a run that resumes (backend/src/runner.rs).
use doc_craft_agent.Prelude.{ℕ, ◌+◌, max, ◌≡◌, refl, true, false, [], ◌∷◌, arith}
use doc_craft_agent.Model.{default_llm, default_task}
use doc_craft_agent.Budget.{density_sample}
use doc_craft_agent.Context.{RunContext, density, record_density, distrust_density}
use doc_craft_agent.Runner.Journal.{
  empty, replay_budget, checkpoint, journal, resume, resume-checkpoint,
  replay_budget-distrust_density,
}
use doc_craft_agent.Runner.{coherence_windows}
use doc_craft_agent.Runner.Windows.{Overlaps, coherence_windows-Overlaps}

windows_of_ten : coherence_windows 10 4 ≡ (0, 4) ∷ (3, 7) ∷ (6, 10) ∷ []
unfolding coherence_windows
windows_of_ten = refl

coherence_windows-Overlaps_example : Overlaps 10 (max 4 2) 0 (coherence_windows 10 4)
coherence_windows-Overlaps_example = coherence_windows-Overlaps 10 4

abbrev spent : RunContext ℕ
spent = record {
  llm = default_llm 0;
  task = default_task 0;
  is_cancelled = false;
  is_shutdown = false;
  elapsed = 30;
  elapsed_before = 600;
  finalizing = false;
  reserved_tokens = 120_000;
  reserved_cost = 4000;
  extra_margin = 10;
  density_samples = 3;
  density_floor = 280;
}

resume-checkpoint_example :
    let s = resume spent (checkpoint spent) in
    (s.reserved_tokens ≡ 120_000)
    × (s.reserved_cost ≡ 4000)
    × (s.elapsed_before + s.elapsed ≡ 630)
    × (s.extra_margin ≡ 10)
    × (density s ≡ density spent)
resume-checkpoint_example = resume-checkpoint spent (omega arith) (omega arith) (omega arith)

replay_budget-distrust_density_example :
    let distrusted = distrust_density spent in
    ((record_density distrusted 9000 3000).1 ≡ false)
    × ((record_density (resume distrusted (replay_budget empty (journal distrusted))) 9000 3000).1
        ≡ true)
unfolding density_sample
replay_budget-distrust_density_example =
    replay_budget-distrust_density spent empty 9000 3000 300 refl
