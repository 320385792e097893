-- ===== src/Understanding.antt =====
-- backend/src/understanding.rs: the source is read in leaves, which are reduced level by level to
-- one root. Byte counts stay far below `usize`, so its sums are plain.
pub mod Groups
pub mod Work
pub mod Limits
pub mod Segments
pub mod Tree
mod Tests
use doc_craft_agent.Prelude.{
  ℕ, zero, suc, ◌+◌, ◌/◌, ◌%◌, Bool, true, false, List, [], ◌∷◌, ◌&&◌, ltb, leb, if◌then◌else◌,
  Result, ok, err, ◌>>=◌, ◌>>◌, ensure, length,
}
use doc_craft_agent.Prelude.Words.{div_ceil}

-- `ensure!` of `plan_groups`: two summaries no longer fit one request
pub data Error : Type 0 where
  context_budget : Error

-- The two loops of `plan_groups` as one pass: the group from `start` holds `width` children of
-- `used` bytes, and the argument is what stands behind its end.
unfoldable pub group_from : ℕ → ℕ → ℕ → ℕ → List ℕ → Result Error (List (ℕ × ℕ))
group_from limit start width used [] = ok ((start, start + width) ∷ [])
group_from limit start width used (cost ∷ costs) = elim (ltb width 4 && leb (used + cost) limit) [
  | true ↦ group_from limit start (suc width) (used + cost) costs
  | false ↦ do
    ensure (ltb 1 width) context_budget
    groups ← group_from limit (start + width) 1 cost costs
    ok ((start, start + width) ∷ groups)
]

unfoldable pub plan_groups : List ℕ → ℕ → Result Error (List (ℕ × ℕ))
unfolding group_from
plan_groups [] limit = ok []
plan_groups (cost ∷ costs) limit = group_from limit 0 1 cost costs

-- `while nodes > 1`, with fuel
unfoldable pub work_from : ℕ → ℕ → ℕ → ℕ
work_from zero nodes total = total
work_from (suc fuel) nodes total =
    let rest =
      work_from fuel (div_ceil nodes 4)
        (total + (nodes / 4 + (if ltb 1 (nodes % 4) then 1 else 0))) in
    if ltb 1 nodes then rest else total

unfoldable pub reduction_work : ℕ → ℕ
unfolding work_from div_ceil
reduction_work nodes = work_from nodes nodes 0
