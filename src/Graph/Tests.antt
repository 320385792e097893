-- ===== src/Graph/Tests.antt =====
-- A small graph of chunks, and the theorem at it.
use doc_craft_agent.Prelude.{◌≡◌, refl, List, [], ◌∷◌}
use doc_craft_agent.Graph.{
  Row, graph_order, order_from, visit_seed, visit, push, neighbors, sort, insert, before, link,
  add_weight,
}
use doc_craft_agent.Graph.Order.{count, graph_order-count}

-- 0 and 2 are linked by 3, 2 and 3 by 1, 0 and 1 by 1
abbrev linked : List Row
linked = ((2, 3) ∷ (1, 1) ∷ []) ∷ ((0, 1) ∷ []) ∷ ((3, 1) ∷ (0, 3) ∷ []) ∷ ((2, 1) ∷ []) ∷ [] ∷ []

heaviest_first : graph_order linked ≡ 0 ∷ 2 ∷ 3 ∷ 1 ∷ 4 ∷ []
unfolding graph_order order_from visit_seed visit push neighbors sort insert before
heaviest_first = refl

links_add_up : link (link ([] ∷ [] ∷ []) 0 1 2) 1 0 3 ≡ ((1, 5) ∷ []) ∷ ((0, 5) ∷ []) ∷ []
unfolding link add_weight
links_add_up = refl

graph_order-count_example : count 3 (graph_order linked) ≡ 1
graph_order-count_example = graph_order-count linked 3
