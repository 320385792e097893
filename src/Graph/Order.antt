-- ===== src/Graph/Order.antt =====
-- `graph_order` of backend/src/graph.rs is an order of the chunks, not a filter.
use doc_craft_agent.Prelude.{
  ℕ, zero, suc, ◌+◌, ◌≤◌, ◌<◌, ◌≡◌, refl, ◌∙◌, Bool, true, false, List, [], ◌∷◌, ◌++◌, arith, ltb,
  ◌==◌, if◌then◌else◌, Bool-cases, ==_iff, inl, inr, length, set, replicate, length-set,
  length-replicate,
}
use doc_craft_agent.Graph.{
  Row, is_seen, push, neighbors, visit, visit_seed, order_from, graph_order,
}

-- how often an index stands in a list
abbrev pub count : ℕ → List ℕ → ℕ
count i [] = 0
count i (x ∷ xs) = (if x == i then 1 else 0) + count i xs

abbrev one_if : Bool → ℕ
one_if b = if b then 1 else 0

abbrev unseen : List Bool → ℕ
unseen [] = 0
unseen (b ∷ bs) = (if b then 0 else 1) + unseen bs

count-append : (i : ℕ) (xs ys : List ℕ) → count i (xs ++ ys) ≡ count i xs + count i ys
count-append i [] ys = omega arith
count-append i (x ∷ xs) ys = omega (arith, count-append i xs ys)

unseen-set :
    (seen : List Bool) (n : ℕ)
    → is_seen seen n ≡ false
    → suc (unseen (set seen n true)) ≡ unseen seen
unseen-set [] n h = cc
unseen-set (b ∷ seen) zero h = ground arith
unseen-set (b ∷ seen) (suc n) h = omega (arith, unseen-set seen n h)

is_seen-set :
    (seen : List Bool) (n i : ℕ)
    → is_seen seen n ≡ false
    → one_if (is_seen (set seen n true) i) ≡ (if n == i then 1 else 0) + one_if (is_seen seen i)
is_seen-set [] n i h = cc
is_seen-set (b ∷ seen) zero zero h = ground arith
is_seen-set (b ∷ seen) zero (suc i) h = ground arith
is_seen-set (b ∷ seen) (suc n) zero h = ground arith
is_seen-set (b ∷ seen) (suc n) (suc i) h = ground (arith, is_seen-set seen n i h)

-- Each index that is pushed was not seen, and is from then on.
push-count :
    (i : ℕ) (ns : List ℕ) (seen : List Bool) (pending : List ℕ)
    → count i (push ns seen pending).1 + one_if (is_seen seen i)
      ≡ count i pending + one_if (is_seen (push ns seen pending).0 i)
unfolding push
push-count i [] seen pending = refl
push-count i (n ∷ ns) seen pending = elim (Bool-cases (is_seen seen n)) [
  | inl old ↦ rw old (push-count i ns seen pending)
  | inr new ↦
      rw new
        (omega (arith, push-count i ns (set seen n true) (n ∷ pending), is_seen-set seen n i new))
]

push-unseen :
    (ns : List ℕ) (seen : List Bool) (pending : List ℕ)
    → length (push ns seen pending).1 + unseen (push ns seen pending).0
      ≡ length pending + unseen seen
unfolding push
push-unseen [] seen pending = refl
push-unseen (n ∷ ns) seen pending = elim (Bool-cases (is_seen seen n)) [
  | inl old ↦ rw old (push-unseen ns seen pending)
  | inr new ↦
      rw new (omega (arith, push-unseen ns (set seen n true) (n ∷ pending), unseen-set seen n new))
]

push-length :
    (ns : List ℕ) (seen : List Bool) (pending : List ℕ)
    → length (push ns seen pending).0 ≡ length seen
unfolding push
push-length [] seen pending = refl
push-length (n ∷ ns) seen pending = elim (Bool-cases (is_seen seen n)) [
  | inl old ↦ rw old (push-length ns seen pending)
  | inr new ↦ rw new (push-length ns (set seen n true) (n ∷ pending) ∙ length-set seen n true)
]

push-seen :
    (i : ℕ) (ns : List ℕ) (seen : List Bool) (pending : List ℕ)
    → one_if (is_seen seen i) ≤ one_if (is_seen (push ns seen pending).0 i)
unfolding push
push-seen i [] seen pending = omega arith
push-seen i (n ∷ ns) seen pending = elim (Bool-cases (is_seen seen n)) [
  | inl old ↦ rw old (push-seen i ns seen pending)
  | inr new ↦
      rw new
        (omega (arith, push-seen i ns (set seen n true) (n ∷ pending), is_seen-set seen n i new))
]

module _ (adjacency : List Row) where
  -- With a round for each index that is pending or not seen, what is visited was pending or not seen
  -- before.
  visit-count :
      (i fuel : ℕ) (seen : List Bool) (pending : List ℕ)
      → length pending + unseen seen ≤ fuel
      → count i (visit adjacency fuel seen pending).0 + one_if (is_seen seen i)
        ≡ count i pending + one_if (is_seen (visit adjacency fuel seen pending).1 i)
  unfolding visit
  visit-count i fuel seen [] h = refl
  visit-count i zero seen (c ∷ pending) h = absurd (ground arith)
  visit-count i (suc fuel) seen (c ∷ pending) h =
      let ns = neighbors adjacency c in
      let (seen', pending') = push ns seen pending in
      omega (
        arith,
        push-count i ns seen pending,
        push-seen i ns seen pending,
        visit-count i fuel seen' pending' (omega (arith, push-unseen ns seen pending)),
      )

  visit-length :
      (fuel : ℕ) (seen : List Bool) (pending : List ℕ)
      → length (visit adjacency fuel seen pending).1 ≡ length seen
  unfolding visit
  visit-length fuel seen [] = refl
  visit-length zero seen (c ∷ pending) = refl
  visit-length (suc fuel) seen (c ∷ pending) =
      let ns = neighbors adjacency c in
      let (seen', pending') = push ns seen pending in
      visit-length fuel seen' pending' ∙ push-length ns seen pending

  visit-seen :
      (i fuel : ℕ) (seen : List Bool) (pending : List ℕ)
      → one_if (is_seen seen i) ≤ one_if (is_seen (visit adjacency fuel seen pending).1 i)
  unfolding visit
  visit-seen i fuel seen [] = omega arith
  visit-seen i zero seen (c ∷ pending) = omega arith
  visit-seen i (suc fuel) seen (c ∷ pending) =
      let ns = neighbors adjacency c in
      let (seen', pending') = push ns seen pending in
      omega (arith, push-seen i ns seen pending, visit-seen i fuel seen' pending')

unseen-length : (seen : List Bool) → unseen seen ≤ length seen
unseen-length [] = omega arith
unseen-length (true ∷ seen) = omega (arith, unseen-length seen)
unseen-length (false ∷ seen) = omega (arith, unseen-length seen)

-- what one seed does: it adds each index that becomes seen, the seed among them
record Visited (i seed : ℕ) (seen : List Bool) (result : List ℕ × List Bool) : Type 0 where
  added : count i result.0 + one_if (is_seen seen i) ≡ one_if (is_seen result.1 i)
  size : length result.1 ≡ length seen
  kept : one_if (is_seen seen i) ≤ one_if (is_seen result.1 i)
  seed_seen : is_seen result.1 seed ≡ true

is_seen_of_one : (b : Bool) → 1 ≤ one_if b → b ≡ true
is_seen_of_one b h = ground arith

seen_to :
    (i seed : ℕ) (seen seen' : List Bool)
    → (i < seed → is_seen seen i ≡ true)
    → one_if (is_seen seen i) ≤ one_if (is_seen seen' i)
    → is_seen seen' seed ≡ true
    → i < suc seed
    → is_seen seen' i ≡ true
seen_to i seed seen seen' before kept here h = elim (Bool-cases (i == seed)) [
  | inl same ↦ let e : i ≡ seed = (==_iff i seed).0 same in rw e here
  | inr other ↦
      let old : is_seen seen i ≡ true = before (ground arith) in
      is_seen_of_one (is_seen seen' i) (ground arith)
]

-- An index behind the list counts as seen.
is_seen_behind : (seen : List Bool) (i : ℕ) → length seen ≤ i → is_seen seen i ≡ true
is_seen_behind [] i h = refl
is_seen_behind (b ∷ seen) zero h = absurd (ground arith)
is_seen_behind (b ∷ seen) (suc i) h = is_seen_behind seen i (omega arith)

none_seen : (i n : ℕ) → one_if (is_seen (replicate n false) i) ≡ (if ltb i n then 0 else 1)
none_seen i zero = ground arith
none_seen zero (suc n) = ground arith
none_seen (suc i) (suc n) = ground (arith, none_seen i n)

module _ (adjacency : List Row) where
  visit_seed-Visited :
      (i seed : ℕ) (seen : List Bool)
      → length seen ≡ length adjacency
      → Visited i seed seen (visit_seed adjacency seed seen)
  unfolding visit_seed
  visit_seed-Visited i seed seen h = elim (Bool-cases (is_seen seen seed)) [
    | inl old ↦
        rw old (record { added = omega arith; size = refl; kept = omega arith; seed_seen = old })
    | inr new ↦
        let n = length adjacency in
        let marked = set seen seed true in
        let left = unseen-set seen seed new in
        let enough : length (seed ∷ []) + unseen marked ≤ n =
          omega (arith, left, unseen-length seen) in
        rw new (record {
          added = omega (
            arith,
            visit-count adjacency i n marked (seed ∷ []) enough,
            is_seen-set seen seed i new,
          );
          size = visit-length adjacency n marked (seed ∷ []) ∙ length-set seen seed true;
          kept =
              omega
                (arith, visit-seen adjacency i n marked (seed ∷ []), is_seen-set seen seed i new);
          seed_seen = is_seen_of_one _ (
              ground (
                arith,
                visit-seen adjacency seed n marked (seed ∷ []),
                is_seen-set seen seed seed new,
              ));
        })
  ]

  order_from-count :
      (i left seed : ℕ) (seen : List Bool)
      → length seen ≡ length adjacency
      → seed + left ≡ length adjacency
      → (i < seed → is_seen seen i ≡ true)
      → count i (order_from adjacency left seed seen) + one_if (is_seen seen i) ≡ 1
  unfolding order_from
  order_from-count i zero seed seen h k l = ground (arith, is_seen_behind seen i)
  order_from-count i (suc left) seed seen h k l =
      let (order, seen') = visit_seed adjacency seed seen in
      let v = visit_seed-Visited i seed seen h in
      let past : i < suc seed → is_seen seen' i ≡ true =
        seen_to i seed seen seen' l v.kept v.seed_seen in
      omega (
        arith,
        v.added,
        count-append i order (order_from adjacency left (suc seed) seen'),
        order_from-count i left (suc seed) seen' (v.size ∙ h) (omega arith) past,
      )

  -- The order has each chunk exactly once, and nothing else, whatever links them.
  pub graph_order-count :
      (i : ℕ) → count i (graph_order adjacency) ≡ (if ltb i (length adjacency) then 1 else 0)
  unfolding graph_order
  graph_order-count i = ground (
    arith,
    order_from-count i (length adjacency) 0 (replicate (length adjacency) false)
        (length-replicate (length adjacency) false) (omega arith) (λ h. absurd (omega arith)),
    none_seen i (length adjacency),
  )
