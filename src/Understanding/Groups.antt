-- ===== src/Understanding/Groups.antt =====
-- What `plan_groups` of backend/src/understanding.rs promises of a level.
use doc_craft_agent.Prelude.{
  ℕ, suc, ◌+◌, ◌-◌, ◌*◌, ◌≤◌, ◌<◌, ◌≡◌, ◌⊎◌, refl, inl, inr, List, [], ◌∷◌, ◌++◌, Result, ok, arith,
  length, length-append, take, drop, length-drop, sum, Bool-cases, Result-cases, ◌∙◌, ◌&&◌, ltb,
  leb, true, false, ap, sym,
}
use doc_craft_agent.Understanding.{group_from, plan_groups, Error}
use mathlib.Core.List.{append_assoc}

-- The groups tile the costs from `start` on. Each is one to four wide; one that is wider than a
-- single child fits the limit, and only the last may be a single child.
abbrev pub Covers : ℕ → ℕ → List ℕ → List (ℕ × ℕ) → Type 0
Covers limit start costs [] = costs ≡ []
Covers limit start costs ((a, b) ∷ groups) =
    (a ≡ start)
    × (a < b)
    × (b ≤ a + 4)
    × (b - a ≤ length costs)
    × ((b ≡ a + 1) ⊎ (sum (take (b - a) costs) ≤ limit))
    × ((a + 1 < b) ⊎ (groups ≡ []))
    × Covers limit b (drop (b - a) costs) groups

take-length_append : (p r : List ℕ) → take (length p) (p ++ r) ≡ p
take-length_append [] [] = refl
take-length_append [] (x ∷ r) = refl
take-length_append (x ∷ p) r = ap (λ t. x ∷ t) (take-length_append p r)

drop-length_append : (p r : List ℕ) → drop (length p) (p ++ r) ≡ r
drop-length_append [] r = refl
drop-length_append (x ∷ p) r = drop-length_append p r

sum-append : (p r : List ℕ) → sum (p ++ r) ≡ sum p + sum r
sum-append [] r = omega arith
sum-append (x ∷ p) r = omega (arith, sum-append p r)

-- A group that closes before `rest`, whose groups cover it.
close_group :
    (limit start : ℕ) (p rest : List ℕ) (groups : List (ℕ × ℕ))
    → 0 < length p
    → length p ≤ 4
    → (length p ≡ 1) ⊎ (sum p ≤ limit)
    → (1 < length p) ⊎ (groups ≡ [])
    → Covers limit (start + length p) rest groups
    → Covers limit start (p ++ rest) ((start, start + length p) ∷ groups)
close_group limit start p rest groups some_child small fits last covered =
    let w : start + length p - start ≡ length p = omega arith in
    rw (w, take-length_append, drop-length_append)
      (
        refl,
        omega arith,
        omega arith,
        omega (arith, length-append p rest),
        elim fits [ inl one ↦ inl (omega arith) | inr within ↦ inr within ],
        elim last [ inl wide ↦ inl (omega arith) | inr end ↦ inr end ],
        covered,
      )

ok_injective :
    {gs hs : List (ℕ × ℕ)} → ◌≡◌ {A = Result Error (List (ℕ × ℕ))} (ok gs) (ok hs) → gs ≡ hs
ok_injective e = cc

group_from_more :
    (limit start width used cost : ℕ) (costs : List ℕ)
    → (ltb width 4 && leb (used + cost) limit) ≡ true
    → group_from limit start width used (cost ∷ costs)
      ≡ group_from limit start (suc width) (used + cost) costs
unfolding group_from
group_from_more limit start width used cost costs h = ground arith

-- A group that closes with work behind it is wider than a single child.
group_from_full :
    (limit start width used cost : ℕ) (costs : List ℕ) {groups : List (ℕ × ℕ)}
    → (ltb width 4 && leb (used + cost) limit) ≡ false
    → group_from limit start width used (cost ∷ costs) ≡ ok groups
    → (later : List (ℕ × ℕ)) × (1 < width)
      × (group_from limit (start + width) 1 cost costs ≡ ok later)
      × (groups ≡ (start, start + width) ∷ later)
unfolding group_from
group_from_full limit start width used cost costs h e =
    elim (Result-cases (group_from limit (start + width) 1 cost costs)) [
      | inl (later, q) ↦ (later, ground arith, q, ground arith)
      | inr (x, q) ↦ absurd (ground arith)
    ]

-- One pass from a group that holds `p` covers `p` and what is left.
group_from-Covers :
    (limit start width used : ℕ) (p rest : List ℕ) {groups : List (ℕ × ℕ)}
    → width ≡ length p
    → used ≡ sum p
    → 0 < width
    → width ≤ 4
    → (width ≡ 1) ⊎ (used ≤ limit)
    → group_from limit start width used rest ≡ ok groups
    → Covers limit start (p ++ rest) groups
unfolding group_from
group_from-Covers limit start width used p [] {groups} w u pos small fits e =
    rw (sym (ok_injective e), w)
      (close_group limit start p [] [] (omega arith) (omega arith) (ground arith) (inr refl) refl)
group_from-Covers limit start width used p (cost ∷ costs) {groups} w u pos small fits e =
    elim (Bool-cases (ltb width 4 && leb (used + cost) limit)) [
      | inl more ↦ rw (← append_assoc p (cost ∷ []) costs) (
          group_from-Covers limit start (suc width) (used + cost) (p ++ cost ∷ []) costs
            (omega (arith, length-append p (cost ∷ []))) (omega (arith, sum-append p (cost ∷ [])))
            (omega arith) (ground arith) (ground arith)
            (sym (group_from_more limit start width used cost costs more) ∙ e))
      | inr full ↦
          let (later, wide, q, closed) = group_from_full limit start width used cost costs full e in
          rw (closed, w)
            (close_group limit start p (cost ∷ costs) later (omega arith) (omega arith)
              (ground arith) (inl (omega arith))
              (rw (← w) (
                group_from-Covers limit (start + width) 1 cost (cost ∷ []) costs refl (omega arith)
                  (omega arith) (omega arith) (inl refl) q)))
    ]

-- Where `plan_groups` succeeds, its half-open ranges tile the level from its first child to its
-- last, each one to four wide; the summaries of a group that is wider than a single child fit the
-- limit together, and only the last group may be a single child.
pub plan_groups-Covers :
    (costs : List ℕ) (limit : ℕ) {groups : List (ℕ × ℕ)}
    → plan_groups costs limit ≡ ok groups
    → Covers limit 0 costs groups
unfolding plan_groups
plan_groups-Covers [] limit e = rw (sym (ok_injective e)) refl
plan_groups-Covers (cost ∷ costs) limit e =
    group_from-Covers limit 0 1 cost (cost ∷ []) costs refl (omega arith) (omega arith)
      (omega arith) (inl refl) e

-- Groups that cover a level of two or more children are fewer than the children.
Covers-shrinks :
    (limit start : ℕ) (costs : List ℕ) (groups : List (ℕ × ℕ))
    → Covers limit start costs groups
    → 2 * length groups ≤ length costs + 1
Covers-shrinks limit start costs [] h = omega arith
Covers-shrinks limit start costs ((a, b) ∷ groups) h =
    ground
      (arith, Covers-shrinks limit b (drop (b - a) costs) groups h.6, length-drop (b - a) costs)

-- A level of two or more children that is grouped becomes strictly narrower, at most half as many
-- rounded up, so reductions converge to a single root.
pub plan_groups_narrows :
    (costs : List ℕ) (limit : ℕ) {groups : List (ℕ × ℕ)}
    → plan_groups costs limit ≡ ok groups
    → 2 ≤ length costs
    → (length groups < length costs) × (2 * length groups ≤ length costs + 1)
plan_groups_narrows costs limit e two =
    omega (arith, Covers-shrinks limit 0 costs _ (plan_groups-Covers costs limit e))

-- The pass fails only where two neighbouring summaries do not fit.
abbrev pub PairsFit : ℕ → List ℕ → Type 0
PairsFit limit [] = Unit
PairsFit limit (a ∷ []) = Unit
PairsFit limit (a ∷ b ∷ costs) = (a + b ≤ limit) × PairsFit limit (b ∷ costs)

group_from_ok :
    (limit start width used : ℕ) (last : ℕ) (costs : List ℕ)
    → 0 < width
    → (1 < width) ⊎ (used ≡ last)
    → PairsFit limit (last ∷ costs)
    → (groups : List (ℕ × ℕ)) × (group_from limit start width used costs ≡ ok groups)
unfolding group_from
group_from_ok limit start width used last [] pos h fit = (_, refl)
group_from_ok limit start width used last (cost ∷ costs) pos h fit =
    elim (Bool-cases (ltb width 4 && leb (used + cost) limit)) [
      | inl more ↦
          let (groups, e) =
            group_from_ok limit start (suc width) (used + cost) cost costs (omega arith)
              (inl (omega arith)) fit.1 in
          (groups, group_from_more limit start width used cost costs more ∙ e)
      | inr full ↦
          let (groups, e) =
            group_from_ok limit (start + width) 1 cost cost costs (omega arith) (inr refl) fit.1 in
          ((start, start + width) ∷ groups, ground arith)
    ]

-- Grouping succeeds whenever each two neighbouring summaries fit one request.
pub plan_groups-ok :
    (costs : List ℕ) (limit : ℕ)
    → PairsFit limit costs
    → (groups : List (ℕ × ℕ)) × (plan_groups costs limit ≡ ok groups)
unfolding plan_groups
plan_groups-ok [] limit fit = ([], refl)
plan_groups-ok (cost ∷ costs) limit fit =
    group_from_ok limit 0 1 cost cost costs (omega arith) (inr refl) fit
