-- ===== src/Understanding/Work.antt =====
-- `reduction_work` of backend/src/understanding.rs counts the reductions of a tree of fan-in four.
use doc_craft_agent.Prelude.{
  ℕ, zero, suc, ◌+◌, ◌-◌, ◌*◌, ◌/◌, ◌%◌, ◌≤◌, ◌≡◌, refl, arith, ltb, if◌then◌else◌,
}
use doc_craft_agent.Prelude.Words.{div_ceil}
use doc_craft_agent.Understanding.{work_from, reduction_work}

-- The groups of two to four nodes in a level.
abbrev pub created : ℕ → ℕ
created nodes = nodes / 4 + (if ltb 1 (nodes % 4) then 1 else 0)

-- More fuel than nodes changes nothing, and the total before is only added.
work_fuel :
    (fuel more nodes total : ℕ)
    → nodes ≤ fuel
    → nodes ≤ more
    → work_from fuel nodes total ≡ work_from more nodes 0 + total
unfolding work_from div_ceil
work_fuel zero zero nodes total h k = omega arith
work_fuel zero (suc more) nodes total h k = ground arith
work_fuel (suc fuel) zero nodes total h k = ground arith
work_fuel (suc fuel) (suc more) nodes total h k = ground (
  arith,
  work_fuel fuel more (div_ceil nodes 4) (total + created nodes),
  work_fuel more more (div_ceil nodes 4) (created nodes),
)

div_ceil_four : (n : ℕ) → div_ceil n 4 ≡ (n + 3) / 4
unfolding div_ceil
div_ceil_four n = ground arith

-- A level of more than one node counts its groups of two to four, and then the level above, which
-- has a node for each four, rounded up; a single node needs no work. The fuel is enough.
pub reduction_work_level :
    (nodes : ℕ)
    → reduction_work nodes
      ≡ (if ltb 1 nodes then created nodes + reduction_work ((nodes + 3) / 4) else 0)
unfolding reduction_work
reduction_work_level zero = refl
reduction_work_level (suc n) =
    let up = (suc n + 3) / 4 in
    ground (arith, div_ceil_four (suc n), work_fuel n up up (0 + created (suc n)))

work_bounds :
    (fuel nodes total : ℕ)
    → nodes ≤ fuel
    → (nodes ≤ 3 * (work_from fuel nodes total - total) + 1)
      × (work_from fuel nodes total + 1 ≤ total + nodes + (1 - nodes))
      × (total ≤ work_from fuel nodes total)
unfolding work_from div_ceil
work_bounds zero nodes total h = omega arith
work_bounds (suc fuel) nodes total h =
    ground (arith, work_bounds fuel (div_ceil nodes 4) (total + created nodes))

-- A reduction merges at least two and at most four nodes into one: a source of `nodes` leaves
-- needs at least a third of `nodes - 1` reductions, and at most `nodes - 1`.
pub reduction_work_bounds :
    (nodes : ℕ) → (nodes - 1 ≤ 3 * reduction_work nodes) × (reduction_work nodes ≤ nodes - 1)
unfolding reduction_work
reduction_work_bounds nodes = omega (arith, work_bounds nodes nodes 0)
