-- ===== src/Planning/Branches.antt =====
-- The branches of the reading tree, as backend/src/planning.rs shows them to the planner.
use doc_craft_agent.Prelude.{
  ℕ, suc, Bool, ◌&&◌, ◌||◌, Option, none, some, List, [], ◌∷◌, ◌++◌, map, ltb, if◌then◌else◌,
  length, Text, text_eq, any,
}
use doc_craft_agent.Findings.Briefs.{Finding}

pub record Part : Type 0 where
  pub label : Text
  pub key : Text
  pub topics : List Text
  pub files : ℕ

pub record Branch : Type 0 where
  pub label : Text
  pub key : Text
  pub findings : List Finding
  pub files : List Text
  pub whole : Bool
  pub parts : List Part

pub record Group : Type 0 where
  pub label : Text
  pub topics : List Text
  pub members : List ℕ

pub record BranchView : Type 0 where
  pub branches : List Branch
  pub groups : List Group

abbrev pub chapter_branches : ℕ
chapter_branches = 16

abbrev pub max_chapters : ℕ
max_chapters = 16

unfoldable pub count : BranchView → Option ℕ
count view = if ltb 0 (length view.branches) then some (length view.branches) else none

unfoldable pub chapters_needed : BranchView → Bool
chapters_needed view = ltb chapter_branches (length view.branches) && ltb 0 (length view.groups)

-- the first element that passes a test
abbrev first {ℓ} : {A : Type ℓ} → (A → Bool) → List A → Option A
first p [] = none
first p (x ∷ xs) = if p x then some x else first p xs

unfoldable pub get : BranchView → Text → Option Branch
get view key = first (λ (b : Branch). text_eq b.key key) view.branches

unfoldable pub owner : BranchView → Text → Option Branch
owner view key =
    first (λ (b : Branch). text_eq b.key key || any (λ (p : Part). text_eq p.key key) b.parts)
      view.branches

-- the position of the first branch with the key; a key of no branch stands behind all of them, as
-- `usize::MAX` does
unfoldable pub position : Text → List Branch → Option ℕ
position key [] = none
position key (b ∷ bs) =
    let rest = position key bs in
    if text_eq b.key key then some 0 else elim rest [ none ↦ none | some i ↦ some (suc i) ]

unfoldable pub index : BranchView → Text → ℕ
unfolding position
index view key = elim (position key view.branches) [ some i ↦ i | none ↦ 0xFFFF_FFFF_FFFF_FFFF ]

-- the labels that a plan may name, with their keys
unfoldable pub keys_by_label : BranchView → List (Text × Text)
keys_by_label view = entries view.branches
  where
    entries : List Branch → List (Text × Text)
    entries [] = []
    entries (b ∷ bs) =
        (b.label, b.key) ∷ (map (λ (p : Part). (p.label, p.key)) b.parts ++ entries bs)
