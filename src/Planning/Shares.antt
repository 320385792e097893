-- ===== src/Planning/Shares.antt =====
-- The limits of a document divided across its chapters (backend/src/planning.rs).
pub mod Chapters
pub mod Diagrams
use doc_craft_agent.Prelude.{
  ℕ, zero, suc, ◌+◌, ◌-◌, ◌*◌, ◌/◌, max, Bool, Option, none, some, List, [], ◌∷◌, ◌++◌, map, ◌&&◌,
  ◌||◌, ltb, leb, ◌==◌, if◌then◌else◌, length, get_or, set, sum, true, false, ◌%◌, ◌^◌,
}

-- `.enumerate().filter(|s| s > 1).max_by_key(|s| s)`: the last of the largest shares above one,
-- with its index
unfoldable pub largest : List ℕ → Option (ℕ × ℕ)
largest [] = none
largest (share ∷ shares) = elim (largest shares) [
  | none ↦ if ltb 1 share then some (0, share) else none
  | some (later, most) ↦ if ltb most share then some (0, share) else some (suc later, most)
]

-- `while sum > total`, with fuel
unfoldable pub reduce_shares : ℕ → ℕ → List ℕ → List ℕ
reduce_shares zero total shares = shares
reduce_shares (suc fuel) total shares = elim (leb (sum shares) total) [
  | true ↦ shares
  | false ↦ elim (largest shares) [
    | none ↦ shares
    | some (index, share) ↦ reduce_shares fuel total (set shares index (share - 1))
  ]
]

abbrev pub first_shares : ℕ → List ℕ → List ℕ
first_shares total weights = map (λ w. max (total * w / max (sum weights) 1) 1) weights

unfoldable pub chapter_shares : ℕ → List ℕ → List ℕ
chapter_shares total weights =
    let shares = first_shares total weights in reduce_shares (sum shares) total shares

-- `order.sort_by(weights[b].cmp(weights[a]).then(a.cmp(b)))` of `0..len`, by insertion: heavier
-- first, and the earlier first where weights are equal
insert_by : List ℕ → ℕ → List ℕ → List ℕ
insert_by weights a [] = a ∷ []
insert_by weights a (b ∷ order) =
    if ltb (get_or weights a 0) (get_or weights b 0)
    then b ∷ insert_by weights a order
    else a ∷ b ∷ order

-- The indices from `index` on, sorted; an insertion before equal weights keeps them in order.
sort_from : List ℕ → ℕ → List ℕ → List ℕ
unfolding insert_by
sort_from weights index [] = []
sort_from weights index (w ∷ rest) = insert_by weights index (sort_from weights (index + 1) rest)

pub order_by_weight : List ℕ → List ℕ
unfolding sort_from
order_by_weight weights = sort_from weights 0 weights

-- the loop over `order.iter().cycle()`
hand_out : List ℕ → ℕ → List ℕ → List ℕ
hand_out [] remaining shares = shares
hand_out (index ∷ order) remaining shares = elim (remaining == 0) [
  | true ↦ shares
  | false ↦ hand_out order (remaining - 1) (set shares index (get_or shares index 0 + 1))
]

-- `order.iter().cycle().take(order.len() * total)`
abbrev cycle : ℕ → List ℕ → List ℕ
cycle zero order = []
cycle (suc n) order = order ++ cycle n order

abbrev pub base_shares : ℕ → List ℕ → List ℕ
base_shares total weights = map (λ w. total * w / max (sum weights) 1 % 2 ^ 32) weights

unfoldable pub diagram_shares : ℕ → List ℕ → List ℕ
unfolding order_by_weight hand_out
diagram_shares total weights =
    let shares = base_shares total weights in
    hand_out (cycle total (order_by_weight weights)) (total - sum shares) shares
