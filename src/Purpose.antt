-- ===== src/Purpose.antt =====
-- backend/src/purpose.rs: which section explains which leaves of the reading tree.
-- `char::is_alphanumeric` and `str::to_lowercase` are parameters.
pub mod Claims
pub mod Owners
mod Tests
use doc_craft_agent.Prelude.{
  ℕ, zero, suc, ◌+◌, max, Bool, true, false, not, ◌&&◌, ◌||◌, Option, none, some, List, [], ◌∷◌,
  ◌++◌, map, leb, ltb, ◌==◌, if◌then◌else◌, length, get_or, set, replicate, Text, text_eq, contains,
  starts_with, filter, Dict, find, put,
}
use doc_craft_agent.Model.{Evidence, SectionPlan, Outline}
use doc_craft_agent.Findings.Briefs.{Finding}
use doc_craft_agent.Markdown.{join}
use doc_craft_agent.Source.{has_part}
use doc_craft_agent.Source.Terms.{search_terms}
use doc_craft_agent.Understanding.Tree.{Span, TreeNode, TreeIndex, observations, leaves_under}

-- the filter of `merge_evidence`: the first passage of each id
unfoldable pub first_of_each : List Text → List Evidence → List Evidence
unfolding contains
first_of_each seen [] = []
first_of_each seen (e ∷ es) =
    let rest = first_of_each (if contains seen e.id then seen else e.id ∷ seen) es in
    if contains seen e.id then rest else e ∷ rest

abbrev flatten : List (List Evidence) → List Evidence
flatten [] = []
flatten (g ∷ gs) = g ++ flatten gs

unfoldable pub merge_evidence : List (List Evidence) → List Evidence
unfolding first_of_each
merge_evidence groups = first_of_each [] (flatten groups)

abbrev pub blank : Text
blank = 32 ∷ []

unfoldable pub term_score : List Text → Text → ℕ
unfolding has_part
term_score terms content = length (filter (λ term. has_part content term) terms)

-- which section explains which leaf
pub record Ownership : Type 0 where
  pub reached : List (List Text)
  pub terms : List (List Text)
  pub owners : Dict ℕ

-- the sections that reach a leaf, in order
unfoldable pub claims_from : Text → ℕ → List (List Text) → List ℕ
claims_from leaf section [] = []
claims_from leaf section (leaves ∷ reached) =
    replicate (length (filter (λ l. text_eq l leaf) leaves)) section
    ++ claims_from leaf (suc section) reached

abbrev pub maximum : List ℕ → ℕ
maximum [] = 0
maximum (n ∷ ns) = max n (maximum ns)

-- fewer leaves won, then the earlier section
abbrev pub goes_first : List ℕ → ℕ → ℕ → Bool
goes_first won a b =
    ltb (get_or won a 0) (get_or won b 0) || (get_or won a 0 == get_or won b 0 && leb a b)

abbrev pub first_one : List ℕ → ℕ → Option ℕ → Option ℕ
first_one won c none = some c
first_one won c (some d) = if goes_first won c d then some c else some d

-- the candidate of the best score that goes first
unfoldable pub choose : List ℕ → ℕ → List (ℕ × ℕ) → Option ℕ
choose won best [] = none
choose won best ((c, score) ∷ candidates) =
    let rest = choose won best candidates in if score == best then first_one won c rest else rest

abbrev pub chosen_or : ℕ → Option ℕ → ℕ
chosen_or default none = default
chosen_or default (some c) = c

-- what each section has won, and the owners
abbrev pub Owners : Type 0
Owners = List ℕ × Dict ℕ

abbrev pub reached_by : TreeIndex → List Text → List Text
reached_by tree [] = []
reached_by tree (b ∷ bs) = leaves_under tree (b ∷ bs)

abbrev pub goes_elsewhere : Option ℕ → ℕ → Bool
goes_elsewhere none index = false
goes_elsewhere (some o) index = not (o == index)

-- a stable sort, the higher scores first
unfoldable pub insert_leaf : ℕ × Text → List (ℕ × Text) → List (ℕ × Text)
insert_leaf a [] = a ∷ []
insert_leaf a (b ∷ bs) = if leb b.0 a.0 then a ∷ b ∷ bs else b ∷ insert_leaf a bs

abbrev pub counted : Bool → ℕ × Text → List (ℕ × Text) × ℕ → List (ℕ × Text) × ℕ
counted b a (ls, elsewhere) = if b then (ls, suc elsewhere) else (insert_leaf a ls, elsewhere)

module _ (is_alphanumeric : ℕ → Bool) (lowercase : Text → Text) where
  abbrev leaf_parts : TreeNode → List Text
  leaf_parts node =
      map (λ (f : Finding). f.topic ++ (blank ++ f.observation)) (observations node)
      ++ map (λ (s : Span). s.path) node.spans

  abbrev node_text : Option TreeNode → Text
  node_text none = []
  node_text (some node) = lowercase (join blank (leaf_parts node))

  unfoldable pub leaf_text : TreeIndex → Text → Text
  unfolding find join
  leaf_text tree leaf = node_text (find leaf tree.nodes)

  abbrev pub section_terms : SectionPlan → List Text
  section_terms s =
      search_terms is_alphanumeric lowercase
        (s.title ++ (blank ++ (join blank s.key_points ++ (blank ++ s.query))))

  -- the owner of a leaf that several sections reach
  unfoldable pub award : TreeIndex → List (List Text) → Text → List ℕ → Owners → Owners
  unfolding leaf_text term_score choose put
  award tree terms leaf [] owners = owners
  award tree terms leaf (c ∷ []) owners = owners
  award tree terms leaf (c ∷ d ∷ cs) (won, owner) =
      let content = leaf_text tree leaf in
      let score = λ (i : ℕ). term_score (get_or terms i []) content in
      let candidates = map (λ (i : ℕ). (i, score i)) (c ∷ d ∷ cs) in
      let best = maximum (map score (c ∷ d ∷ cs)) in
      let chosen = chosen_or c (choose won best candidates) in
      (set won chosen (suc (get_or won chosen 0)), put leaf chosen owner)

  -- the loop over the leaves
  unfoldable pub award_all :
      TreeIndex → List (List Text) → List (List Text) → List Text → Owners → Owners
  unfolding award claims_from
  award_all tree reached terms [] owners = owners
  award_all tree reached terms (leaf ∷ leaves) owners =
      award_all tree reached terms leaves
        (award tree terms leaf (claims_from leaf 0 reached) owners)

  unfoldable pub ownership : TreeIndex → Outline → Ownership
  unfolding award_all search_terms leaves_under
  ownership tree outline =
      let reached = map (λ (s : SectionPlan). reached_by tree s.branches) outline.sections in
      let terms = map section_terms outline.sections in
      record {
        reached = reached;
        terms = terms;
        owners =
            (award_all tree reached terms tree.leaves
              (replicate (length outline.sections) 0, [])).1;
      }

  -- the leaves that a section explains with their scores, sorted, and how many it does not
  unfoldable pub kept_from : TreeIndex → Ownership → ℕ → List Text → List (ℕ × Text) × ℕ
  unfolding insert_leaf find term_score leaf_text
  kept_from tree own index [] = ([], 0)
  kept_from tree own index (leaf ∷ mine) =
      counted (goes_elsewhere (find leaf own.owners) index)
        (term_score (get_or own.terms index []) (leaf_text tree leaf), leaf)
        (kept_from tree own index mine)

  unfoldable pub kept_leaves : TreeIndex → Ownership → ℕ → List Text → List Text × ℕ
  unfolding kept_from
  kept_leaves tree own index mine =
      let (ls, elsewhere) = kept_from tree own index mine in
      (map (λ (a : ℕ × Text). a.1) ls, elsewhere)

  unfoldable pub assign_leaves : TreeIndex → Outline → ℕ → List Text → List Text × ℕ
  unfolding kept_leaves ownership
  assign_leaves tree outline index mine = kept_leaves tree (ownership tree outline) index mine

  unfoldable pub assign_from : TreeIndex → Ownership → ℕ → List (List Text) → List (List Text × ℕ)
  unfolding kept_leaves
  assign_from tree own index [] = []
  assign_from tree own index (mine ∷ reached) =
      kept_leaves tree own index mine ∷ assign_from tree own (suc index) reached

  unfoldable pub assign_all : TreeIndex → Outline → List (List Text × ℕ)
  unfolding assign_from ownership
  assign_all tree outline = let own = ownership tree outline in assign_from tree own 0 own.reached
