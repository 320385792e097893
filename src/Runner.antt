-- ===== src/Runner.antt =====
-- backend/src/runner.rs: the document is written, reviewed in stretches and published.
pub mod Windows
pub mod Lifecycle
pub mod Journal
mod Tests
use doc_craft_agent.Prelude.{
  ℕ, zero, suc, ◌+◌, ◌-◌, min, max, List, [], ◌∷◌, leb, ◌==◌, if◌then◌else◌,
}

-- `loop` of `coherence_windows`, with fuel
unfoldable pub windows_from : ℕ → ℕ → ℕ → ℕ → List (ℕ × ℕ)
windows_from zero count width start = []
windows_from (suc fuel) count width start =
    let end = min (start + width) count in
    let rest = windows_from fuel count width (end - 1) in
    (start, end) ∷ (if end == count then [] else rest)

-- half-open ranges of sections
unfoldable pub coherence_windows : ℕ → ℕ → List (ℕ × ℕ)
unfolding windows_from
coherence_windows count width =
    let width = max width 2 in
    if leb count width then (0, count) ∷ [] else windows_from count count width 0
