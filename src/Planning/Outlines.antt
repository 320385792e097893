-- ===== src/Planning/Outlines.antt =====
-- `validate_outline` of backend/src/planning.rs, and the limit on diagrams that it takes from
-- backend/src/runner.rs. SHA-256 (`source::hash`) and Unicode `to_lowercase` are parameters.
pub mod Checked
pub mod Again
use doc_craft_agent.Prelude.{
  ℕ, ◌+◌, ◌*◌, Bool, true, false, not, ◌&&◌, ◌||◌, Option, none, some, List, [], ◌∷◌, ◌++◌, map,
  Result, ok, err, ◌>>=◌, ◌>>◌, ensure, leb, ltb, ◌==◌, if◌then◌else◌, length, sum, Text, text, len,
  is_empty, trim, all, any, contains, split_join, is_ascii_alphanumeric,
}
use doc_craft_agent.Model.{SectionPlan, Outline, Evidence, BranchExclusion}
use doc_craft_agent.Findings
use doc_craft_agent.Findings.{bounded_text, resolve_ids, max_section_anchors}
use doc_craft_agent.Planning.Levels.{section_ceiling, sections_max}

-- the `ensure!`s of `validate_outline`
pub data Error : Type 0 where
  section_count bad_goal bad_terminology bad_id bad_key_points bad_title bad_context : Error
  same_title bad_dependency repeated_dependency bad_diagrams bad_branches : Error
  bad_exclusions too_many_diagrams : Error
  anchors : Findings.Error → Error

abbrev pub lift : {A : Type 0} → Result Findings.Error A → Result Error A
lift (ok a) = ok a
lift (err e) = err (anchors e)

-- `.all(|p| bounded_text(p, max))`
abbrev pub all_bounded : ℕ → List Text → Bool
all_bounded max = all (λ t. bounded_text t max)

unfoldable pub is_section_id : Text → Bool
is_section_id id = leb (len id) 64 && all (λ b. is_ascii_alphanumeric b || b == b'-') id

unfoldable pub key_points_ok : SectionPlan → Bool
key_points_ok s =
    leb (length s.key_points) 12
    && all_bounded 1500 s.key_points
    && (ltb 0 (length s.key_points) || not (is_empty (trim s.reader_question)))

unfoldable pub context_ok : SectionPlan → Bool
context_ok s =
    leb (len s.reader_question) 1500
    && leb (len s.handoff) 1500
    && leb (length s.out_of_scope) 12
    && all_bounded 1500 s.out_of_scope

unfoldable pub diagrams_ok : SectionPlan → Bool
diagrams_ok s = elim s.diagrams [ none ↦ false | some d ↦ leb (length d) 4 && all_bounded 1500 d ]

unfoldable pub branches_ok : SectionPlan → Bool
branches_ok s = leb (length s.branches) (sections_max * 2) && all_bounded 200 s.branches

-- the loop over `depends_on` of the section at `index`
unfoldable pub check_dependencies : ℕ → List ℕ → List ℕ → Result Error (Unit {0})
check_dependencies index seen [] = ok tt
check_dependencies index seen (d ∷ ds) = do
  ensure (ltb d index) bad_dependency
  ensure (not (any (λ e. e == d) seen)) repeated_dependency
  check_dependencies index (d ∷ seen) ds

-- `outline_diagram_error(outline, maximum).is_none()`
unfoldable pub diagrams_within : List SectionPlan → Option ℕ → Bool
diagrams_within sections none = true
diagrams_within sections (some maximum) =
    leb (sum (map (λ (s : SectionPlan). elim s.diagrams [ none ↦ 0 | some d ↦ length d ]) sections))
      maximum

module _ (hash lowercase : Text → Text) where
  unfoldable pub section_id : SectionPlan → Text
  section_id s = if is_empty s.id then hash (s.title ++ text ":" ++ s.reader_question) else s.id

  -- the closure `normalize`
  unfoldable pub normalize : Text → Text
  normalize title = lowercase (split_join title)

  -- the `if` around `resolve_ids`
  unfoldable pub check_anchors : List Evidence → SectionPlan → Result Error (List Text)
  check_anchors evidence s =
      if ltb 0 (length s.evidence_ids) || leb (length s.branches) 0
      then lift (resolve_ids s.evidence_ids evidence max_section_anchors)
      else ok s.evidence_ids

  -- the body of the loop over the sections; it fills in the id and the resolved anchors
  unfoldable pub check_section :
      List Evidence → ℕ → List Text → List Text → SectionPlan → Result Error SectionPlan
  check_section evidence index titles ids s = do
    ensure (is_section_id (section_id s) && not (contains ids (section_id s))) bad_id
    ensure (key_points_ok s) bad_key_points
    ensure (bounded_text s.title 299 && bounded_text s.query 1999) bad_title
    ensure (context_ok s) bad_context
    ensure (not (contains titles (normalize s.title))) same_title
    check_dependencies index [] s.depends_on
    ensure (diagrams_ok s) bad_diagrams
    ensure (branches_ok s) bad_branches
    found ← check_anchors evidence s
    ok (record s { id = section_id s; evidence_ids = found })

  unfoldable pub check_sections :
      List Evidence → ℕ → List Text → List Text → List SectionPlan → Result Error (List SectionPlan)
  check_sections evidence index titles ids [] = ok []
  check_sections evidence index titles ids (s ∷ sections) = do
    checked ← check_section evidence index titles ids s
    rest ←
        check_sections evidence (index + 1) (normalize s.title ∷ titles) (section_id s ∷ ids)
          sections
    ok (checked ∷ rest)

  -- the guards on the outline itself, before the loop and behind it
  abbrev pub goal_ok : Outline → Bool
  goal_ok o = bounded_text o.reader_goal 2000 && bounded_text o.storyline 4000

  abbrev pub terminology_ok : Outline → Bool
  terminology_ok o = leb (length o.terminology) 12 && all_bounded 500 o.terminology

  abbrev pub exclusions_ok : Outline → Bool
  exclusions_ok o =
      leb (length o.excluded_branches) 1024
      && all (λ (e : BranchExclusion). bounded_text e.branch 200 && bounded_text e.reason 1500)
          o.excluded_branches

  unfoldable pub validate_outline :
      Outline → List Evidence → Option ℕ → Option ℕ → Result Error Outline
  validate_outline o evidence maximum branches = do
    ensure (ltb 0 (length o.sections) && leb (length o.sections) (section_ceiling branches))
        section_count
    ensure (goal_ok o) bad_goal
    ensure (terminology_ok o) bad_terminology
    sections ← check_sections evidence 0 [] [] o.sections
    ensure (exclusions_ok o) bad_exclusions
    ensure (diagrams_within sections maximum) too_many_diagrams
    ok (record o { sections = sections })
