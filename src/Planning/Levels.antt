-- ===== src/Planning/Levels.antt =====
-- How many sections a document may hold, and the level of the reading tree that the planner is
-- shown (backend/src/planning.rs). A level enters by the number of its nodes.
use doc_craft_agent.Prelude.{
  ℕ, zero, suc, ◌+◌, ◌-◌, ◌/◌, ◌≤◌, max, ◌≡◌, Bool, Option, none, some, List, [], ◌∷◌, arith, ◌&&◌,
  ◌||◌, ltb, leb, if◌then◌else◌, length, get_elem?, Bool-cases, inl, inr, refl, ◌*◌, ◌∙◌,
}
use doc_craft_agent.Prelude.Words.{saturating_mul, clamp}

abbrev pub sections_max : ℕ
sections_max = 256

abbrev pub sections_without_branches : ℕ
sections_without_branches = 32

abbrev branches_max : ℕ
branches_max = 256

unfoldable pub section_ceiling : Option ℕ → ℕ
section_ceiling (some n) = clamp (saturating_mul n 3) sections_without_branches sections_max
section_ceiling none = sections_max

unfoldable pub closer_level : ℕ → ℕ → ℕ → Bool
closer_level here next target = leb next target || leb (next - target) (target - here)

unfoldable pub branch_target : ℕ → ℕ
branch_target leaves = clamp (leaves / 4) 8 branches_max

-- the loop of `branch_level`; the last argument is what stands behind the level chosen
unfoldable pub descend : ℕ → ℕ → ℕ → List ℕ → ℕ × ℕ
unfolding closer_level
descend target chosen here [] = (chosen, here)
descend target chosen here (next ∷ levels) =
    let deeper = descend target (chosen + 1) next levels in
    if ltb here target && closer_level here next target then deeper else (chosen, here)

unfoldable pub branch_level : List ℕ → ℕ → Option ℕ
unfolding descend
branch_level [] target = none
branch_level (top ∷ levels) target =
    let (chosen, width) = descend target 0 top levels in if leb 2 width then some chosen else none

-- The ceiling lies between 32 and 256 sections; where the branches are unknown it is the highest.
pub section_ceiling_bounds :
    (branches : Option ℕ)
    → (32 ≤ section_ceiling branches)
      × (section_ceiling branches ≤ 256)
      × (section_ceiling branches ≤ section_ceiling none)
unfolding section_ceiling
section_ceiling_bounds branches = ground arith

-- More branches never lower the ceiling.
pub section_ceiling_mono : (a b : ℕ) → a ≤ b → section_ceiling (some a) ≤ section_ceiling (some b)
unfolding section_ceiling
section_ceiling_mono a b h = ground arith

descend_lem :
    (target chosen here : ℕ) (levels : List ℕ)
    → let (end, width) = descend target chosen here levels in
      (chosen ≤ end) × (end ≤ chosen + length levels) × (width ≤ max here (2 * target))
unfolding descend
descend_lem target chosen here [] = ground arith
descend_lem target chosen here (next ∷ levels) =
    ground (arith, descend_lem target (chosen + 1) next levels)

-- The width found is that of the level found.
descend-width :
    (target chosen here : ℕ) (levels : List ℕ) (skipped : ℕ)
    → (descend target chosen here levels).0 ≡ chosen + skipped
    → get_elem? (here ∷ levels) skipped ≡ some (descend target chosen here levels).1
unfolding descend
descend-width target chosen here [] zero h = refl
descend-width target chosen here [] (suc k) h = absurd (omega arith)
descend-width target chosen here (next ∷ levels) zero h =
    ground (arith, descend_lem target (chosen + 1) next levels)
descend-width target chosen here (next ∷ levels) (suc k) h =
    elim (Bool-cases (ltb here target && closer_level here next target)) [
      | inl on ↦
          rw on
            (descend-width target (chosen + 1) next levels k (rw (on, descend) at h ∙ omega arith))
      | inr stop ↦ absurd (omega (arith, rw (stop, descend) at h))
    ]

-- The level that the planner is shown is one of the levels, has at least two branches, and has at
-- most twice as many as the target, unless the first level is wider already.
pub branch_level_lem :
    (top : ℕ) (levels : List ℕ) (target : ℕ) {chosen : ℕ}
    → branch_level (top ∷ levels) target ≡ some chosen
    → (width : ℕ) × (get_elem? (top ∷ levels) chosen ≡ some width)
      × (2 ≤ width)
      × (width ≤ max top (2 * target))
unfolding branch_level
branch_level_lem top levels target {chosen} h = (
  (descend target 0 top levels).1,
  descend-width target 0 top levels chosen (ground arith),
  ground arith,
  ground (arith, descend_lem target 0 top levels),
)
