-- ===== src/Purpose/Claims.antt =====
-- The claims of sections on leaves (`ownership` of backend/src/purpose.rs).
use doc_craft_agent.Prelude.{
  ℕ, zero, suc, ◌+◌, ◌<◌, ◌≡◌, refl, sym, ◌∙◌, Bool, true, ◌&&◌, ◌||◌, ◌⊎◌, Option, none, some,
  List, [], ◌∷◌, ◌++◌, map, ◌==◌, length, get_or, replicate, arith, Bool-cases, inl, inr, Text,
  text_eq, contains, filter, any,
}
use doc_craft_agent.Purpose.{claims_from, first_one, choose, chosen_or, goes_first}

abbrev pub Has : List ℕ → ℕ → Type 0
Has ns n = any (λ m. m == n) ns ≡ true

any-append : (p : ℕ → Bool) (xs ys : List ℕ) → any p (xs ++ ys) ≡ (any p xs || any p ys)
any-append p [] ys = refl
any-append p (x ∷ xs) ys = ground (arith, any-append p xs ys)

-- what `choose` takes is a candidate
first_one-Has :
    (won : List ℕ) (c : ℕ) (o : Option ℕ) (x : ℕ) (cs : List ℕ)
    → ((d : ℕ) → o ≡ some d → Has cs d)
    → first_one won c o ≡ some x
    → Has (c ∷ cs) x
first_one-Has won c none x cs k h = let e : c ≡ x = cc in ground arith
first_one-Has won c (some d) x cs k h = elim (Bool-cases (goes_first won c d)) [
  | inl first ↦ let e = rw first at h in let same : c ≡ x = cc in ground arith
  | inr second ↦
      let e = rw second at h in
      let same : d ≡ x = cc in
      let inside = k d refl in let there : Has cs x = rw⁻¹ same inside in ground (arith, there)
]

pub choose-Has :
    (won : List ℕ) (best : ℕ) (score : ℕ → ℕ) (cs : List ℕ) (x : ℕ)
    → choose won best (map (λ (i : ℕ). (i, score i)) cs) ≡ some x
    → Has cs x
unfolding choose
choose-Has won best score [] x h = cc
choose-Has won best score (c ∷ cs) x h = elim (Bool-cases (score c == best)) [
  | inl top ↦
      first_one-Has won c (choose won best (map (λ (i : ℕ). (i, score i)) cs)) x cs
        (λ d e. choose-Has won best score cs d e) (rw top at h)
  | inr low ↦ let there = choose-Has won best score cs x (rw low at h) in ground (arith, there)
]

pub chosen_or-Has :
    (c : ℕ) (cs : List ℕ) (o : Option ℕ)
    → ((x : ℕ) → o ≡ some x → Has (c ∷ cs) x)
    → Has (c ∷ cs) (chosen_or c o)
chosen_or-Has c cs none k = ground arith
chosen_or-Has c cs (some x) k = k x refl

absorb : (a b : Bool) {c : Bool} → c ≡ (b && a) → (a || c) ≡ a
absorb a b h = ground arith

or_true : (a b : Bool) → (a ≡ true) ⊎ (b ≡ true) → (a || b) ≡ true
or_true a b h = ground arith

or_cases : (a b : Bool) → (a || b) ≡ true → (a ≡ true) ⊎ (b ≡ true)
or_cases a b h = ground arith

-- A claim on a leaf is by a section that reaches it, and the other way round.
count-contains :
    (leaf : Text) (leaves : List Text) (n m : ℕ)
    → any (λ k. k == m) (replicate (length (filter (λ l. text_eq l leaf) leaves)) n)
      ≡ (contains leaves leaf && n == m)
unfolding contains
count-contains leaf [] n m = refl
count-contains leaf (l ∷ leaves) n m = elim (Bool-cases (text_eq l leaf)) [
  | inl same ↦ rw same (absorb (n == m) (contains leaves leaf) (count-contains leaf leaves n m))
  | inr other ↦ rw other (count-contains leaf leaves n m)
]

claims_from-Has :
    (leaf : Text) (base i : ℕ) (reached : List (List Text))
    → contains (get_or reached i []) leaf ≡ true
    → Has (claims_from leaf base reached) (base + i)
unfolding claims_from contains
claims_from-Has leaf base i [] h = cc
claims_from-Has leaf base zero (leaves ∷ reached) h =
    rw
      (any-append (λ k. k == base + 0)
        (replicate (length (filter (λ l. text_eq l leaf) leaves)) base)
        (claims_from leaf (suc base) reached))
      (or_true _ _ (inl (count-contains leaf leaves base (base + 0) ∙ here h)))
  where
    here : contains leaves leaf ≡ true → (contains leaves leaf && base == base + 0) ≡ true
    here h = ground arith
claims_from-Has leaf base (suc i) (leaves ∷ reached) h =
    let there = claims_from-Has leaf (suc base) i reached h in
    let e : suc base + i ≡ base + suc i = omega arith in
    rw
      (any-append (λ k. k == base + suc i)
        (replicate (length (filter (λ l. text_eq l leaf) leaves)) base)
        (claims_from leaf (suc base) reached))
      (or_true _ _ (inr (rw e at there)))

pub claimed_by :
    (leaf : Text) (i : ℕ) (reached : List (List Text))
    → contains (get_or reached i []) leaf ≡ true
    → Has (claims_from leaf 0 reached) i
claimed_by leaf i reached h =
    let e : 0 + i ≡ i = omega arith in
    let there = claims_from-Has leaf 0 i reached h in rw e at there

-- the section that a claim is of
abbrev pub Claimed : Text → ℕ → List (List Text) → ℕ → Type 0
Claimed leaf base reached m =
    (i : ℕ) × (m ≡ base + i) × (contains (get_or reached i []) leaf ≡ true)

pub claims_from-Claimed :
    (leaf : Text) (base m : ℕ) (reached : List (List Text))
    → Has (claims_from leaf base reached) m
    → Claimed leaf base reached m
unfolding claims_from
claims_from-Claimed leaf base m [] h = cc
claims_from-Claimed leaf base m (leaves ∷ reached) h =
    elim (or_cases _ _ (
      sym (
        any-append (λ k. k == m) (replicate (length (filter (λ l. text_eq l leaf) leaves)) base)
          (claims_from leaf (suc base) reached))
      ∙ h)) [
        | inl own ↦
            let (there, same) = and_parts _ _ (sym (count-contains leaf leaves base m) ∙ own) in
            (0, ground arith, there)
        | inr later ↦
            let (i, e, there) = claims_from-Claimed leaf (suc base) m reached later in
            (suc i, omega arith, there)
      ]
  where
    and_parts : (a b : Bool) → (a && b) ≡ true → (a ≡ true) × (b ≡ true)
    and_parts a b h = ground arith

-- fewer than two claims are of one section
pub one_claim : (cs : List ℕ) (i j : ℕ) → length cs < 2 → Has cs i → Has cs j → i ≡ j
one_claim [] i j l h k = cc
one_claim (c ∷ []) i j l h k = ground arith
one_claim (c ∷ d ∷ cs) i j l h k = absurd (omega arith)
