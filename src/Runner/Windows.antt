-- ===== src/Runner/Windows.antt =====
-- The stretches that `coherence_windows` of backend/src/runner.rs reviews.
use doc_craft_agent.Prelude.{
  ℕ, zero, suc, ◌+◌, ◌-◌, ◌≤◌, ◌<◌, max, ◌≡◌, ◌⊎◌, inl, inr, List, [], ◌∷◌, arith, leb, Bool-cases,
  min,
}
use doc_craft_agent.Runner.{windows_from, coherence_windows}

-- The windows run from `start` to `count`, each at most `width` wide; two neighbours share exactly
-- one section, the last of the first.
abbrev pub Overlaps : ℕ → ℕ → ℕ → List (ℕ × ℕ) → Type 0
Overlaps count width start [] = ⊥
Overlaps count width start ((a, b) ∷ []) = (a ≡ start) × (b ≡ count) × (a ≤ b) × (b ≤ a + width)
Overlaps count width start ((a, b) ∷ w ∷ windows) =
    (a ≡ start)
    × (a + 1 < b)
    × (b ≤ a + width)
    × (b < count)
    × Overlaps count width (b - 1) (w ∷ windows)

Overlaps-step :
    (fuel count width start : ℕ)
    → 2 ≤ width
    → start < count
    → count ≤ start + suc fuel
    → Overlaps count width start (windows_from (suc fuel) count width start)
unfolding windows_from
Overlaps-step zero count width start w h k = ground arith
Overlaps-step (suc fuel) count width start w h k =
    ground (arith, Overlaps-step fuel count width (min (start + width) count - 1))

-- The stretches run from the first section to the last. Each is at most as wide as asked, or two
-- sections; neighbouring ones share exactly one section.
pub coherence_windows-Overlaps :
    (count width : ℕ) → Overlaps count (max width 2) 0 (coherence_windows count width)
unfolding coherence_windows
coherence_windows-Overlaps zero width = ground arith
coherence_windows-Overlaps (suc count) width = elim (Bool-cases (leb (suc count) (max width 2))) [
  | inl short ↦ rw short (ground arith)
  | inr long ↦
      rw long
        (Overlaps-step count (suc count) (max width 2) 0 (omega arith) (omega arith) (omega arith))
]

abbrev pub Within : ℕ → List (ℕ × ℕ) → Type 0
Within i [] = ⊥
Within i ((a, b) ∷ windows) = ((a ≤ i) × (i + 1 < b)) ⊎ Within i windows

Within-Overlaps :
    (count width start i : ℕ) (windows : List (ℕ × ℕ))
    → Overlaps count width start windows
    → start ≤ i
    → i + 1 < count
    → Within i windows
Within-Overlaps count width start i [] h p q = h
Within-Overlaps count width start i ((a, b) ∷ []) h p q = inl (omega arith)
Within-Overlaps count width start i ((a, b) ∷ w ∷ windows) h p q =
    elim (Bool-cases (leb b (i + 1))) [
      | inl later ↦ inr (Within-Overlaps count width (b - 1) i (w ∷ windows) h.4 (ground arith) q)
      | inr here ↦ inl (ground arith)
    ]

-- Each handoff, from a section to the next, is read inside a single stretch.
pub handoff_reviewed :
    (count width i : ℕ) → i + 1 < count → Within i (coherence_windows count width)
handoff_reviewed count width i h =
    Within-Overlaps count (max width 2) 0 i (coherence_windows count width)
      (coherence_windows-Overlaps count width) (omega arith) h
