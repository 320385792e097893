-- ===== src/Composition/Tests.antt =====
-- Edits and approvals of a small plan, and the theorems at them.
use doc_craft_agent.Prelude.{
  ℕ, ◌≡◌, refl, true, false, none, some, [], ◌∷◌, ok, err, arith, Text, text, text_eq, len,
  is_empty, trim, trim_start, trim_end, is_whitespace, is_ascii_alphanumeric, is_ascii_digit, find,
  put, remove, contains, split_join, join_words,
}
use doc_craft_agent.Model.{Outline, SectionPlan, default_settings, default_task}
use doc_craft_agent.Findings.{bounded_text}
use doc_craft_agent.Planning.Levels.{section_ceiling}
use doc_craft_agent.Planning.Outlines.{
  validate_outline, check_sections, check_section, check_anchors, check_dependencies, key_points_ok,
  context_ok, diagrams_ok, branches_ok, diagrams_within, section_id, normalize, is_section_id,
}
use doc_craft_agent.Composition.{
  Revision, Desk, Error, Answers, stale, revise, settle_edit, store_edit, prepare, from_receipt,
  prepare_fresh, edited, is_request_id, continue_outline, settle_approval, check_approval,
  review_of,
}
use doc_craft_agent.Composition.Edits.{revise-Excludes}
use doc_craft_agent.Composition.Approvals.{Approved, continue_outline-Approved}

abbrev same : Text → Text
same t = t

abbrev section : Text → SectionPlan
section title = record {
  id = text "s1";
  title = title;
  query = text "q";
  reader_question = [];
  handoff = [];
  diagrams = some [];
  depends_on = [];
  evidence_ids = [];
  owns_requirement_ids = [];
  key_points = text "k" ∷ [];
  out_of_scope = [];
  branches = text "b" ∷ [];
}

abbrev plan : ℕ → Text → Outline
plan revision title = record {
  sections = section title ∷ [];
  reader_goal = text "g";
  storyline = text "l";
  terminology = [];
  requirements = [];
  revision = revision;
  excluded_branches = [];
}

-- a plan of the third revision, reviewed without an issue
abbrev desk : Desk ℕ
desk = record {
  outline = none;
  candidate = some (plan 3 (text "a"));
  approved = none;
  receipts = [];
  outline_state = none;
  feedback = none;
  reviews = (3, record { issues = [] }) ∷ [];
  is_validated = false;
  evidence = some [];
  snapshot = record { task = default_task 0; settings = default_settings 0; original_hash = none };
  status = text "awaiting_outline";
  error = none;
  is_active = false;
}

abbrev edit : Text → Text → Revision
edit id title = record {
  base_revision = 3;
  request_id = id;
  outline = some (plan 0 title);
  feedback = none;
}

abbrev up : Answers
up = record {
  is_busy = false;
  connected = true;
  readable = true;
  committed = true;
  queued = true;
  document = none;
}

next_revision : (revise same same up (edit (text "e1") (text "x")) desk).1 ≡ ok 4
unfolding revise settle_edit store_edit prepare from_receipt prepare_fresh edited is_request_id find
    put remove validate_outline check_sections check_section check_anchors check_dependencies
    key_points_ok context_ok diagrams_ok branches_ok diagrams_within section_id normalize
    is_section_id bounded_text section_ceiling contains len is_empty trim trim_start trim_end
    split_join join_words is_ascii_alphanumeric is_ascii_digit text_eq is_whitespace
next_revision = refl

revise-Excludes_example :
    let t = record (revise same same up (edit (text "e1") (text "x")) desk).0 {
      is_active = false;
    } in
    (e : Error) × (revise same same up (edit (text "e2") (text "y")) t ≡ (t, err e))
unfolding find text_eq
revise-Excludes_example =
    revise-Excludes same same up up (edit (text "e1") (text "x")) (edit (text "e2") (text "y")) desk
      refl refl refl (omega arith) refl next_revision

approved_once : (continue_outline up 3 desk).1 ≡ ok tt
unfolding continue_outline settle_approval check_approval review_of text_eq
approved_once = refl

older_refused : (continue_outline up 2 desk).1 ≡ err stale
unfolding continue_outline settle_approval check_approval review_of text_eq
older_refused = refl

continue_outline-Approved_example :
    Approved 3 desk (continue_outline up 3 desk).0 (continue_outline up 3 desk).1
continue_outline-Approved_example = continue_outline-Approved up 3 desk
