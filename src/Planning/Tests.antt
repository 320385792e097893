-- ===== src/Planning/Tests.antt =====
-- Shares, levels and a small outline (backend/src/planning.rs), and the theorems at them.
use doc_craft_agent.Prelude.{
  ℕ, ◌≤◌, ◌≡◌, refl, none, some, List, [], ◌∷◌, true, ok, arith, All, sum, length, Text, text,
  text_eq, starts_with, contains, len, is_empty, trim, split_join, is_ascii_hexdigit,
  is_ascii_alphanumeric, is_whitespace,
}
use doc_craft_agent.Model.{SectionPlan, Outline, Evidence}
use doc_craft_agent.Findings.{is_id, resolve_from, resolve_ids, bounded_text}
use doc_craft_agent.Planning.Levels.{section_ceiling, branch_level, section_ceiling_mono}
use doc_craft_agent.Planning.Shares.{chapter_shares, reduce_shares, largest, diagram_shares}
use doc_craft_agent.Planning.Shares.Diagrams.{diagram_shares_exact}
use doc_craft_agent.Planning.Outlines.{
  validate_outline, check_sections, check_section, check_anchors, check_dependencies, key_points_ok,
  context_ok, diagrams_ok, branches_ok, diagrams_within, section_id, normalize, is_section_id,
}
use doc_craft_agent.Planning.Outlines.Checked.{Ordered, validate_outline-Ordered}
use doc_craft_agent.Planning.Outlines.Again.{validate_outline_again}

abbrev weights : List ℕ
weights = 8 ∷ 1 ∷ 5 ∷ []

shares_of_20 : chapter_shares 20 weights ≡ 11 ∷ 1 ∷ 7 ∷ []
unfolding chapter_shares reduce_shares
shares_of_20 = refl

shares_of_2 : chapter_shares 2 weights ≡ 1 ∷ 1 ∷ 1 ∷ []
unfolding chapter_shares reduce_shares largest
shares_of_2 = refl

diagrams_of_4 : diagram_shares 4 weights ≡ 3 ∷ 0 ∷ 1 ∷ []
unfolding diagram_shares
diagrams_of_4 = refl

diagram_shares_exact_example :
    (sum (diagram_shares 4 weights) ≡ 4) × (length (diagram_shares 4 weights) ≡ 3)
diagram_shares_exact_example = diagram_shares_exact 4 8 (1 ∷ 5 ∷ [])

abbrev levels : List ℕ
levels = 4 ∷ 13 ∷ 52 ∷ []

chosen_level : branch_level (1 ∷ levels) 13 ≡ some 2
unfolding branch_level
chosen_level = refl

section_ceiling_mono_example : section_ceiling (some 5) ≤ section_ceiling (some 40)
section_ceiling_mono_example = section_ceiling_mono 5 40 (omega arith)

abbrev fake_hash : Text → Text
fake_hash t = text "5ec7"

abbrev same_case : Text → Text
same_case t = t

abbrev evidence : List Evidence
evidence =
    record {
      id = text "0123456789abcdef";
      path = text "src/lib.rs";
      start = 1;
      end = 9;
      content = text "fn";
    }
    ∷ []

abbrev section : Text → Text → List ℕ → SectionPlan
section id title needs = record {
  id = id;
  title = title;
  query = text "lib.rs";
  reader_question = [];
  handoff = [];
  diagrams = some [];
  depends_on = needs;
  evidence_ids = text "01234567" ∷ [];
  owns_requirement_ids = [];
  key_points = text "point" ∷ [];
  out_of_scope = [];
  branches = [];
}

abbrev outline : SectionPlan → SectionPlan → Outline
outline first second = record {
  sections = first ∷ second ∷ [];
  reader_goal = text "goal";
  storyline = text "story";
  terminology = [];
  requirements = [];
  revision = 0;
  excluded_branches = [];
}

abbrev plan : Outline
plan = outline (section [] (text "Input") []) (section (text "s2") (text "Output") (0 ∷ []))

abbrev filled : SectionPlan → SectionPlan
filled s = record s { evidence_ids = text "0123456789abcdef" ∷ [] }

abbrev planned : Outline
planned =
    outline (filled (section (text "5ec7") (text "Input") []))
      (filled (section (text "s2") (text "Output") (0 ∷ [])))

-- `validate_outline` with what it calls opened.
validated : validate_outline fake_hash same_case plan evidence (some 3) none ≡ ok planned
unfolding validate_outline check_sections check_section check_anchors check_dependencies
    key_points_ok context_ok diagrams_ok branches_ok diagrams_within section_id normalize
    is_section_id resolve_ids resolve_from is_id bounded_text section_ceiling starts_with contains
    len is_empty trim split_join is_ascii_hexdigit is_ascii_alphanumeric text_eq is_whitespace
validated = refl

evidence_shaped : All (λ (e : Evidence). is_id e.id ≡ true) evidence
unfolding is_id
evidence_shaped = (refl, tt)

validate_outline-Ordered_example :
    Ordered fake_hash same_case evidence 0 [] [] planned.sections
    × (1 ≤ 2)
    × (2 ≤ section_ceiling none)
    × (length planned.sections ≡ 2)
    × (diagrams_within planned.sections (some 3) ≡ true)
validate_outline-Ordered_example =
    validate_outline-Ordered fake_hash same_case evidence plan (some 3) none validated

validate_outline_again_example :
    validate_outline fake_hash same_case planned evidence (some 3) none ≡ ok planned
unfolding is_empty
validate_outline_again_example =
    validate_outline_again fake_hash same_case evidence (λ t. refl) evidence_shaped plan (some 3)
      none validated
