-- ===== src/Planning/Shares/Chapters.antt =====
-- `chapter_shares` of backend/src/planning.rs keeps every chapter and the limit.
use doc_craft_agent.Prelude.{
  ℕ, zero, suc, ◌+◌, ◌-◌, ◌*◌, ◌/◌, ◌≤◌, ◌<◌, max, ◌≡◌, refl, inl, inr, none, some, List, [], ◌∷◌,
  map, arith, leb, length, get_or, set, sum, All, Bool-cases, Option-cases, length-set, length-map,
  true, false, ◌∙◌,
}
use doc_craft_agent.Planning.Shares.{largest, reduce_shares, first_shares, chapter_shares}

abbrev Positive : List ℕ → Type 0
Positive shares = All (λ s. 1 ≤ s) shares

-- What is found stands at its index and is above one.
largest-some :
    (shares : List ℕ) {i s : ℕ}
    → largest shares ≡ some (i, s)
    → (i < length shares) × (get_or shares i 0 ≡ s) × (1 < s)
unfolding largest
largest-some [] h = cc
largest-some (share ∷ shares) {i} {s} h = elim (Option-cases (largest shares)) [
  | inl e ↦ ground arith
  | inr ((j, m), e) ↦ ground (arith, largest-some shares e)
]

largest-none : (shares : List ℕ) → largest shares ≡ none → sum shares ≤ length shares
unfolding largest
largest-none [] h = omega arith
largest-none (share ∷ shares) h = elim (Option-cases (largest shares)) [
  | inl e ↦ ground (arith, largest-none shares)
  | inr (p, e) ↦ absurd (ground arith)
]

-- Lowering a share by one lowers the sum by one.
sum-set :
    (shares : List ℕ) (i v : ℕ)
    → i < length shares
    → sum (set shares i v) + get_or shares i 0 ≡ sum shares + v
sum-set [] i v h = absurd (omega arith)
sum-set (s ∷ shares) zero v h = omega arith
sum-set (s ∷ shares) (suc i) v h = omega (arith, sum-set shares i v (omega arith))

Positive-set : (shares : List ℕ) (i v : ℕ) → Positive shares → 1 ≤ v → Positive (set shares i v)
Positive-set [] i v h p = tt
Positive-set (s ∷ shares) zero v h p = (p, h.1)
Positive-set (s ∷ shares) (suc i) v h p = (h.0, Positive-set shares i v h.1 p)

module _ (fuel total : ℕ) (shares : List ℕ) where
  reduce_done : leb (sum shares) total ≡ true → reduce_shares (suc fuel) total shares ≡ shares
  unfolding reduce_shares
  reduce_done h = ground arith

  reduce_stuck :
      leb (sum shares) total ≡ false
      → largest shares ≡ none
      → reduce_shares (suc fuel) total shares ≡ shares
  unfolding reduce_shares
  reduce_stuck h e = ground arith

  reduce_step :
      {i s : ℕ}
      → leb (sum shares) total ≡ false
      → largest shares ≡ some (i, s)
      → reduce_shares (suc fuel) total shares ≡ reduce_shares fuel total (set shares i (s - 1))
  unfolding reduce_shares
  reduce_step h e = ground arith

-- With fuel for the sum, every share stays, at least one, and the sum falls to the limit or to
-- one each.
reduce_shares_lem :
    (fuel total : ℕ) (shares : List ℕ)
    → Positive shares
    → sum shares ≤ fuel
    → Positive (reduce_shares fuel total shares)
      × (length (reduce_shares fuel total shares) ≡ length shares)
      × (sum (reduce_shares fuel total shares) ≤ max total (length shares))
reduce_shares_lem zero total shares p h = unfold reduce_shares in (p, refl, omega arith)
reduce_shares_lem (suc fuel) total shares p h = elim (Bool-cases (leb (sum shares) total)) [
  | inl done ↦ rw (reduce_done fuel total shares done) (p, refl, ground arith)
  | inr over ↦ elim (Option-cases (largest shares)) [
    | inl e ↦
        rw (reduce_stuck fuel total shares over e) (p, refl, omega (arith, largest-none shares e))
    | inr ((i, s), e) ↦
        let (inside, at, above) = largest-some shares e in
        let lower = set shares i (s - 1) in
        let same = length-set shares i (s - 1) in
        let later =
          reduce_shares_lem fuel total lower (Positive-set shares i (s - 1) p (omega arith))
            (omega (arith, sum-set shares i (s - 1) inside)) in
        rw (reduce_step fuel total shares over e)
          (later.0, later.1 ∙ same, omega (arith, later.2, same))
  ]
]

first_shares-Positive :
    (total k : ℕ) (weights : List ℕ) → Positive (map (λ w. max (total * w / k) 1) weights)
first_shares-Positive total k [] = tt
first_shares-Positive total k (w ∷ weights) = (omega arith, first_shares-Positive total k weights)

-- Every chapter gets a share of at least one section, and the shares together pass the limit only
-- where there are more chapters than sections; then each gets exactly one.
pub chapter_shares_lem :
    (total : ℕ) (weights : List ℕ)
    → let shares = chapter_shares total weights in
      All (λ s. 1 ≤ s) shares
      × (length shares ≡ length weights)
      × (sum shares ≤ max total (length weights))
unfolding chapter_shares
chapter_shares_lem total weights =
    let same = length-map weights (λ w. max (total * w / max (sum weights) 1) 1) in
    let (p, e, s) =
      reduce_shares_lem (sum (first_shares total weights)) total (first_shares total weights)
        (first_shares-Positive total (max (sum weights) 1) weights) (omega arith) in
    (p, e ∙ same, omega (arith, s, same))
