-- ===== src/Graph.antt =====
-- backend/src/graph.rs: the links between chunks, and the order in which chunks are read.
pub mod Order
mod Tests
use doc_craft_agent.Prelude.{
  ℕ, zero, suc, ◌+◌, Bool, true, false, not, ◌&&◌, ◌||◌, Option, none, some, List, [], ◌∷◌, ◌++◌,
  map, leb, ltb, ◌==◌, if◌then◌else◌, length, get_or, set, replicate,
}
use mathlib.Core.List.{reverse}

-- one entry of a row of `adjacency`: a neighbour and its weight
abbrev pub Row : Type 0
Row = List (ℕ × ℕ)

-- the heavier first, of equal ones the lower index
unfoldable pub before : ℕ × ℕ → ℕ × ℕ → Bool
before a b = ltb b.1 a.1 || (a.1 == b.1 && leb a.0 b.0)

unfoldable pub insert : ℕ × ℕ → Row → Row
unfolding before
insert a [] = a ∷ []
insert a (b ∷ row) = if before a b then a ∷ b ∷ row else b ∷ insert a row

-- `neighbors.sort_by(…)`
unfoldable pub sort : Row → Row
unfolding insert
sort [] = []
sort (a ∷ row) = insert a (sort row)

-- A node that is out of range, where Rust panics, counts as seen.
abbrev pub is_seen : List Bool → ℕ → Bool
is_seen seen i = get_or seen i true

-- the inner loop: it marks and pushes what is not seen; the stack has its top in front
unfoldable pub push : List ℕ → List Bool → List ℕ → List Bool × List ℕ
push [] seen pending = (seen, pending)
push (n ∷ ns) seen pending =
    if is_seen seen n then push ns seen pending else push ns (set seen n true) (n ∷ pending)

-- the neighbours in the order in which they are pushed
unfoldable pub neighbors : List Row → ℕ → List ℕ
unfolding sort
neighbors adjacency current =
    reverse (map (λ (n : ℕ × ℕ). n.0) (sort (get_or adjacency current [])))

-- `while let Some(current) = pending.pop()`, with fuel: the order, and what is seen behind it
unfoldable pub visit : List Row → ℕ → List Bool → List ℕ → List ℕ × List Bool
unfolding push neighbors
visit adjacency fuel seen [] = ([], seen)
visit adjacency zero seen (current ∷ pending) = ([], seen)
visit adjacency (suc fuel) seen (current ∷ pending) =
    let (seen', pending') = push (neighbors adjacency current) seen pending in
    let (order, seen'') = visit adjacency fuel seen' pending' in (current ∷ order, seen'')

-- one seed: the order that it adds, and what is seen behind it
unfoldable pub visit_seed : List Row → ℕ → List Bool → List ℕ × List Bool
unfolding visit
visit_seed adjacency seed seen =
    if is_seen seen seed
    then ([], seen)
    else visit adjacency (length adjacency) (set seen seed true) (seed ∷ [])

-- the loop over the seeds, of which `left` are left
unfoldable pub order_from : List Row → ℕ → ℕ → List Bool → List ℕ
unfolding visit_seed
order_from adjacency zero seed seen = []
order_from adjacency (suc left) seed seen =
    let (order, seen') = visit_seed adjacency seed seen in
    order ++ order_from adjacency left (suc seed) seen'

unfoldable pub graph_order : List Row → List ℕ
unfolding order_from
graph_order adjacency =
    order_from adjacency (length adjacency) 0 (replicate (length adjacency) false)

-- `*adjacency[left].entry(right).or_default() += weight`
unfoldable pub add_weight : ℕ → ℕ → Row → Row
add_weight to weight [] = (to, weight) ∷ []
add_weight to weight ((n, w) ∷ row) =
    if n == to then (n, w + weight) ∷ row else (n, w) ∷ add_weight to weight row

unfoldable pub link : List Row → ℕ → ℕ → ℕ → List Row
unfolding add_weight
link adjacency left right weight =
    let one = set adjacency left (add_weight right weight (get_or adjacency left [])) in
    if left == right
    then adjacency
    else set one right (add_weight left weight (get_or one right []))
