-- ===== src/Planning/Outlines/Checked.antt =====
-- What a checked outline satisfies (`validate_outline` of backend/src/planning.rs).
use doc_craft_agent.Prelude.{
  ℕ, suc, ◌+◌, ◌≤◌, ◌<◌, ◌≡◌, refl, sym, ap, true, false, not, ◌&&◌, Option, List, [], ◌∷◌, ok,
  ensure->>=-ok, >>=-eq-ok, ok_injective, arith, leb, ltb, length, Text, contains, All,
}
use doc_craft_agent.Model.{SectionPlan, Outline, Evidence}
use doc_craft_agent.Findings.{bounded_text}
use doc_craft_agent.Planning.Outlines.{
  section_id, normalize, is_section_id, key_points_ok, context_ok, diagrams_ok, branches_ok,
  check_dependencies, check_anchors, check_section, check_sections, validate_outline,
  diagrams_within, goal_ok, terminology_ok, exclusions_ok,
}
use doc_craft_agent.Planning.Levels.{section_ceiling}

-- Every dependency passed the test, so it names an earlier section.
check_dependencies-lt :
    (index : ℕ) (seen ds : List ℕ)
    → check_dependencies index seen ds ≡ ok tt
    → All (λ d. d < index) ds
unfolding check_dependencies
check_dependencies-lt index seen [] h = tt
check_dependencies-lt index seen (d ∷ ds) h =
    let (small, h1) = ensure->>=-ok (ltb d index) _ _ h in
    let (new, h2) = ensure->>=-ok _ _ (check_dependencies index (d ∷ seen) ds) h1 in
    (ground arith, check_dependencies-lt index (d ∷ seen) ds h2)

count_bounds : (n ceiling : ℕ) → (ltb 0 n && leb n ceiling) ≡ true → (1 ≤ n) × (n ≤ ceiling)
count_bounds n ceiling h = ground arith

module _ (hash lowercase : Text → Text) (evidence : List Evidence) where
  -- The guards that a section passed, and what came back.
  pub record Checked (index : ℕ) (titles ids : List Text) (s s' : SectionPlan) : Type 0 where
    pub anchors : List Text
    pub shaped_id :
        (is_section_id (section_id hash lowercase s)
          && not (contains ids (section_id hash lowercase s)))
        ≡ true
    pub key_points : key_points_ok s ≡ true
    pub texts : (bounded_text s.title 299 && bounded_text s.query 1999) ≡ true
    pub optional : context_ok s ≡ true
    pub new_title : not (contains titles (normalize hash lowercase s.title)) ≡ true
    pub dependencies : check_dependencies index [] s.depends_on ≡ ok tt
    pub diagrams : diagrams_ok s ≡ true
    pub branches : branches_ok s ≡ true
    pub resolved : check_anchors hash lowercase evidence s ≡ ok anchors
    pub result : s' ≡ record s { id = section_id hash lowercase s; evidence_ids = anchors }

  pub check_section-Checked :
      (index : ℕ) (titles ids : List Text) (s : SectionPlan) {s' : SectionPlan}
      → check_section hash lowercase evidence index titles ids s ≡ ok s'
      → Checked index titles ids s s'
  unfolding check_section
  check_section-Checked index titles ids s h =
      let (a, h1) = ensure->>=-ok _ _ _ h in
      let (b, h2) = ensure->>=-ok _ _ _ h1 in
      let (c, h3) = ensure->>=-ok _ _ _ h2 in
      let (d, h4) = ensure->>=-ok _ _ _ h3 in
      let (e, h5) = ensure->>=-ok _ _ _ h4 in
      let (u, f, h6) = >>=-eq-ok (check_dependencies index [] s.depends_on) _ h5 in
      let (g, h7) = ensure->>=-ok _ _ _ h6 in
      let (i, h8) = ensure->>=-ok _ _ _ h7 in
      let (found, j, h9) = >>=-eq-ok (check_anchors hash lowercase evidence s) _ h8 in
      record {
        anchors = found;
        shaped_id = a;
        key_points = b;
        texts = c;
        optional = d;
        new_title = e;
        dependencies = f;
        diagrams = g;
        branches = i;
        resolved = j;
        result = sym (ok_injective h9);
      }

  -- A section that passes the guards is checked.
  pub check_section_of_Checked :
      (index : ℕ) (titles ids : List Text) (s : SectionPlan) {s' : SectionPlan}
      → Checked index titles ids s s'
      → check_section hash lowercase evidence index titles ids s ≡ ok s'
  unfolding check_section
  check_section_of_Checked index titles ids s c = rw (
    c.shaped_id, c.key_points, c.texts, c.optional, c.new_title, c.dependencies, c.diagrams,
    c.branches, c.resolved, c.result,
  )

  -- Sections in order: each depends only on earlier ones, and no id and no normalized title stands
  -- twice.
  abbrev pub Ordered : ℕ → List Text → List Text → List SectionPlan → Type 0
  Ordered index titles ids [] = Unit
  Ordered index titles ids (s ∷ sections) =
      All (λ d. d < index) s.depends_on
      × (is_section_id s.id ≡ true)
      × (contains ids s.id ≡ false)
      × (contains titles (normalize hash lowercase s.title) ≡ false)
      × Ordered (index + 1) (normalize hash lowercase s.title ∷ titles) (s.id ∷ ids) sections

  check_section_result :
      (index : ℕ) (titles ids : List Text) (s : SectionPlan) {s' : SectionPlan}
      → Checked index titles ids s s'
      → All (λ d. d < index) s'.depends_on
        × (is_section_id s'.id ≡ true)
        × (contains ids s'.id ≡ false)
        × (contains titles (normalize hash lowercase s'.title) ≡ false)
        × (s'.id ≡ section_id hash lowercase s)
        × (s'.title ≡ s.title)
  check_section_result index titles ids s c = rw c.result (
    check_dependencies-lt index [] s.depends_on c.dependencies,
    ground (arith, c.shaped_id),
    ground (arith, c.shaped_id),
    ground (arith, c.new_title),
    refl,
    refl,
  )

  check_sections-Ordered :
      (index : ℕ) (titles ids : List Text) (sections : List SectionPlan)
      {checked : List SectionPlan}
      → check_sections hash lowercase evidence index titles ids sections ≡ ok checked
      → Ordered index titles ids checked × (length checked ≡ length sections)
  unfolding check_sections
  check_sections-Ordered index titles ids [] h = rw (sym (ok_injective h)) (tt, refl)
  check_sections-Ordered index titles ids (s ∷ sections) h =
      let (s', one, h1) =
        >>=-eq-ok (check_section hash lowercase evidence index titles ids s) _ h in
      let (rest, more, h2) =
        >>=-eq-ok
          (check_sections hash lowercase evidence (index + 1)
            (normalize hash lowercase s.title ∷ titles) (section_id hash lowercase s ∷ ids)
            sections)
          _ h1 in
      let r =
        check_section_result index titles ids s (check_section-Checked index titles ids s one) in
      let later =
        check_sections-Ordered (index + 1) (normalize hash lowercase s.title ∷ titles)
          (section_id hash lowercase s ∷ ids) sections more in
      rw (sym (ok_injective h2)) ((r.0, r.1, r.2, r.3, rw (r.4, r.5) later.0), ap suc later.1)

  -- The guards that an outline passed, and its checked sections.
  pub record Accepted (o : Outline) (maximum branches : Option ℕ) (o' : Outline) : Type 0 where
    pub sections : List SectionPlan
    pub count :
        (ltb 0 (length o.sections) && leb (length o.sections) (section_ceiling branches)) ≡ true
    pub goal : goal_ok hash lowercase o ≡ true
    pub terms : terminology_ok hash lowercase o ≡ true
    pub checked : check_sections hash lowercase evidence 0 [] [] o.sections ≡ ok sections
    pub excluded : exclusions_ok hash lowercase o ≡ true
    pub few : diagrams_within sections maximum ≡ true
    pub result : o' ≡ record o { sections = sections }

  pub validate_outline-Accepted :
      (o : Outline) (maximum branches : Option ℕ) {o' : Outline}
      → validate_outline hash lowercase o evidence maximum branches ≡ ok o'
      → Accepted o maximum branches o'
  unfolding validate_outline
  validate_outline-Accepted o maximum branches h =
      let (a, h1) = ensure->>=-ok _ _ _ h in
      let (b, h2) = ensure->>=-ok _ _ _ h1 in
      let (c, h3) = ensure->>=-ok _ _ _ h2 in
      let (found, d, h4) =
        >>=-eq-ok (check_sections hash lowercase evidence 0 [] [] o.sections) _ h3 in
      let (e, h5) = ensure->>=-ok _ _ _ h4 in
      let (f, h6) = ensure->>=-ok _ _ _ h5 in
      record {
        sections = found;
        count = a;
        goal = b;
        terms = c;
        checked = d;
        excluded = e;
        few = f;
        result = sym (ok_injective h6);
      }

  -- An accepted outline has between one section and the ceiling. Each section depends only on
  -- sections before it, so the reading order is a topological order; the ids are shaped and
  -- distinct, the titles are distinct after normalizing, and the diagrams together stay within the
  -- maximum.
  pub validate_outline-Ordered :
      (o : Outline) (maximum branches : Option ℕ) {o' : Outline}
      → validate_outline hash lowercase o evidence maximum branches ≡ ok o'
      → Ordered 0 [] [] o'.sections
        × (1 ≤ length o'.sections)
        × (length o'.sections ≤ section_ceiling branches)
        × (length o'.sections ≡ length o.sections)
        × (diagrams_within o'.sections maximum ≡ true)
  validate_outline-Ordered o maximum branches h =
      let a = validate_outline-Accepted o maximum branches h in
      let (ordered, same) = check_sections-Ordered 0 [] [] o.sections a.checked in
      let bounds = count_bounds (length o.sections) (section_ceiling branches) a.count in
      rw a.result (ordered, omega (arith, bounds, same), omega (arith, bounds, same), same, a.few)
