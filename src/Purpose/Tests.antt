-- ===== src/Purpose/Tests.antt =====
-- Two sections that share a leaf, and the theorems at them.
use doc_craft_agent.Prelude.{
  ℕ, ◌≡◌, refl, Bool, not, ◌==◌, none, some, List, [], ◌∷◌, Text, text, text_eq, contains,
  starts_with, find, put, remove, len, arith,
}
use doc_craft_agent.Model.{SectionPlan, Outline}
use doc_craft_agent.Markdown.{join}
use doc_craft_agent.Findings.Briefs.{runtime}
use doc_craft_agent.Source.{has_part}
use doc_craft_agent.Source.Terms.{search_terms, split_words, keep_terms}
use doc_craft_agent.Understanding.Tree.{TreeNode, TreeIndex, round, walk, unseen, leaves_under}
use doc_craft_agent.Understanding.Tree.Rounds.{leaves_under-walk}
use doc_craft_agent.Purpose.{
  claims_from, term_score, choose, leaf_text, award, award_all, ownership, insert_leaf, kept_from,
  kept_leaves, assign_from, assign_all,
}
use doc_craft_agent.Purpose.Owners.{OnlyOne, assign_all-OnlyOne}

abbrev is_letter : ℕ → Bool
is_letter c = not (c == 32)

abbrev as_is : Text → Text
as_is s = s

abbrev node : List Text → Text → TreeNode
node children topic = record {
  files = [];
  children = children;
  findings = record { topic = topic; observation = []; kind = runtime; evidence_ids = [] } ∷ [];
  details = [];
  spans = [];
}

abbrev tree : TreeIndex
tree = record {
  root = some (text "root");
  leaves = text "a" ∷ text "b" ∷ [];
  nodes =
      (text "root", node (text "a" ∷ text "b" ∷ text "root" ∷ []) [])
      ∷ (text "a", node [] (text "aa"))
      ∷ (text "b", node [] (text "bb"))
      ∷ [];
}

abbrev section : Text → List Text → SectionPlan
section title branches = record {
  id = title;
  title = title;
  query = [];
  reader_question = [];
  handoff = [];
  diagrams = none;
  depends_on = [];
  evidence_ids = [];
  owns_requirement_ids = [];
  key_points = [];
  out_of_scope = [];
  branches = branches;
}

abbrev plan : Outline
plan = record {
  sections = section (text "bb") (text "root" ∷ []) ∷ section (text "aa") (text "a" ∷ []) ∷ [];
  reader_goal = [];
  storyline = [];
  terminology = [];
  requirements = [];
  revision = 0;
  excluded_branches = [];
}

leaves_of_root : leaves_under tree (text "root" ∷ []) ≡ text "a" ∷ text "b" ∷ []
unfolding leaves_under walk round unseen contains text_eq find
leaves_of_root = refl

shared : assign_all is_letter as_is tree plan ≡ (text "b" ∷ [], 1) ∷ (text "a" ∷ [], 0) ∷ []
unfolding assign_all assign_from kept_leaves kept_from insert_leaf ownership award_all award choose
    term_score has_part leaf_text claims_from leaves_under walk round unseen contains text_eq find
    put remove starts_with join search_terms split_words keep_terms len
shared = refl

assign_all-OnlyOne_example : OnlyOne (assign_all is_letter as_is tree plan) (text "a")
unfolding ownership leaves_under walk round unseen contains text_eq find
assign_all-OnlyOne_example = assign_all-OnlyOne is_letter as_is tree plan (text "a") 1 refl refl

leaves_under-walk_example :
    walk tree.nodes 9 [] (text "root" ∷ []) ≡ some (leaves_under tree (text "root" ∷ []))
unfolding unseen contains
leaves_under-walk_example = leaves_under-walk tree (text "root" ∷ []) 9 (omega arith)
