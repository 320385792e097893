-- ===== src/Planning/Shares/Diagrams.antt =====
-- `diagram_shares` of backend/src/planning.rs hands out the limit exactly.
use doc_craft_agent.Prelude.{
  ℕ, zero, suc, ◌+◌, ◌-◌, ◌*◌, ◌/◌, ◌%◌, ◌^◌, ◌≤◌, ◌<◌, max, ◌≡◌, refl, List, [], ◌∷◌, ◌++◌, map,
  arith, length, get_or, set, sum, All, length-set, length-map, length-append, ◌∙◌,
}
use doc_craft_agent.Planning.Shares.{
  insert_by, sort_from, order_by_weight, hand_out, cycle, base_shares, diagram_shares,
}
use native.Mathlib.Nat.{
  div-mul-le_self, mod-le, mul-le-mul_right, mul-le-mul_left, le_of_mul-le-mul_right,
}

max_left : (n : ℕ) → n ≤ max n 1
max_left n = omega arith

sum-set :
    (shares : List ℕ) (i : ℕ)
    → i < length shares
    → sum (set shares i (get_or shares i 0 + 1)) ≡ suc (sum shares)
sum-set [] i h = absurd (omega arith)
sum-set (s ∷ shares) zero h = omega arith
sum-set (s ∷ shares) (suc i) h = omega (arith, sum-set shares i (omega arith))

abbrev InRange : ℕ → List ℕ → Type 0
InRange n order = All (λ i. i < n) order

insert_by-InRange :
    (weights : List ℕ) (a n : ℕ) (order : List ℕ)
    → a < n
    → InRange n order
    → InRange n (insert_by weights a order)
unfolding insert_by
insert_by-InRange weights a n [] h r = (h, tt)
insert_by-InRange weights a n (b ∷ order) h r =
    ground (arith, insert_by-InRange weights a n order h r.1)

length-insert_by :
    (weights : List ℕ) (a : ℕ) (order : List ℕ)
    → length (insert_by weights a order) ≡ suc (length order)
unfolding insert_by
length-insert_by weights a [] = refl
length-insert_by weights a (b ∷ order) = ground (arith, length-insert_by weights a order)

sort_from-InRange :
    (weights : List ℕ) (index n : ℕ) (rest : List ℕ)
    → index + length rest ≤ n
    → InRange n (sort_from weights index rest)
unfolding sort_from
sort_from-InRange weights index n [] h = tt
sort_from-InRange weights index n (w ∷ rest) h =
    insert_by-InRange weights index n (sort_from weights (index + 1) rest) (omega arith)
      (sort_from-InRange weights (index + 1) n rest (omega arith))

length-sort_from :
    (weights : List ℕ) (index : ℕ) (rest : List ℕ)
    → length (sort_from weights index rest) ≡ length rest
unfolding sort_from
length-sort_from weights index [] = refl
length-sort_from weights index (w ∷ rest) =
    length-insert_by weights index (sort_from weights (index + 1) rest)
    ∙ omega (arith, length-sort_from weights (index + 1) rest)

All-append : (n : ℕ) (xs ys : List ℕ) → InRange n xs → InRange n ys → InRange n (xs ++ ys)
All-append n [] ys h k = k
All-append n (x ∷ xs) ys h k = (h.0, All-append n xs ys h.1 k)

cycle-InRange : (times n : ℕ) (order : List ℕ) → InRange n order → InRange n (cycle times order)
cycle-InRange zero n order h = tt
cycle-InRange (suc times) n order h =
    All-append n order (cycle times order) h (cycle-InRange times n order h)

length-cycle : (times : ℕ) (order : List ℕ) → 1 ≤ length order → times ≤ length (cycle times order)
length-cycle zero order h = omega arith
length-cycle (suc times) order h =
    omega (arith, length-append order (cycle times order), length-cycle times order h)

hand_out_step :
    (i : ℕ) (order : List ℕ) (k : ℕ) (shares : List ℕ)
    → hand_out (i ∷ order) (suc k) shares ≡ hand_out order k (set shares i (get_or shares i 0 + 1))
unfolding hand_out
hand_out_step i order k shares = ground arith

-- Handing out in range, with enough rounds, adds exactly what remained.
sum-hand_out :
    (order : List ℕ) (remaining : ℕ) (shares : List ℕ)
    → InRange (length shares) order
    → remaining ≤ length order
    → sum (hand_out order remaining shares) ≡ sum shares + remaining
unfolding hand_out
sum-hand_out [] remaining shares h r = omega arith
sum-hand_out (i ∷ order) zero shares h r = omega arith
sum-hand_out (i ∷ order) (suc k) shares h r =
    let raised = set shares i (get_or shares i 0 + 1) in
    let same = length-set shares i (get_or shares i 0 + 1) in
    rw (hand_out_step i order k shares)
      (omega (arith, sum-hand_out order k raised (rw same h.1) (omega arith), sum-set shares i h.0))

length-hand_out :
    (order : List ℕ) (remaining : ℕ) (shares : List ℕ)
    → length (hand_out order remaining shares) ≡ length shares
unfolding hand_out
length-hand_out [] remaining shares = refl
length-hand_out (i ∷ order) remaining shares = ground (
  arith,
  length-hand_out order (remaining - 1) (set shares i (get_or shares i 0 + 1)),
  length-set shares i (get_or shares i 0 + 1),
)

-- A floor of a share, times the whole weight, is at most the share of the total.
base-le : (total whole w : ℕ) → 0 < whole → (total * w / whole % 2 ^ 32) * whole ≤ total * w
base-le total whole w h = grind (
  arith,
  div-mul-le_self (total * w) whole,
  mod-le (total * w / whole) (2 ^ 32),
  mul-le-mul_right,
)

sum-base :
    (total whole : ℕ) (weights : List ℕ)
    → 0 < whole
    → sum (map (λ w. total * w / whole % 2 ^ 32) weights) * whole ≤ total * sum weights
sum-base total whole [] h = omega arith
sum-base total whole (w ∷ weights) h =
    omega (arith, base-le total whole w h, sum-base total whole weights h)

le_of_mul : (a b k : ℕ) → 0 < k → a * k ≤ b * k → a ≤ b
le_of_mul a b k h p = le_of_mul-le-mul_right p h

sum-base_shares : (total : ℕ) (weights : List ℕ) → sum (base_shares total weights) ≤ total
sum-base_shares total weights =
    let whole = max (sum weights) 1 in
    let scaled = sum-base total whole weights (omega arith) in
    let up = mul-le-mul_left total (max_left (sum weights)) in
    le_of_mul (sum (base_shares total weights)) total whole (omega arith)
      (omega (arith, scaled, up))

-- Where there is a chapter, the shares add up to the limit of diagrams exactly; there is one share
-- for each chapter.
pub diagram_shares_exact :
    (total w : ℕ) (weights : List ℕ)
    → (sum (diagram_shares total (w ∷ weights)) ≡ total)
      × (length (diagram_shares total (w ∷ weights)) ≡ length (w ∷ weights))
unfolding diagram_shares order_by_weight
diagram_shares_exact total w weights =
    let all = w ∷ weights in
    let base = base_shares total all in
    let order = sort_from all 0 all in
    let same : length base ≡ length all =
      length-map all (λ v. total * v / max (sum all) 1 % 2 ^ 32) in
    let small = sum-base_shares total all in
    let sorted = length-sort_from all 0 all in
    (
      sum-hand_out (cycle total order) (total - sum base) base
            (rw same (
              cycle-InRange total (length all) order
                (sort_from-InRange all 0 (length all) all (omega arith))))
            (omega (arith, length-cycle total order (omega (arith, sorted))))
          ∙ omega (arith, small),
      length-hand_out (cycle total order) (total - sum base) base ∙ same,
    )
