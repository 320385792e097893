-- ===== src/Planning/Outlines/Again.antt =====
-- An outline that `validate_outline` of backend/src/planning.rs accepted is accepted again,
-- unchanged: what a checkpoint stores can be read back.
use doc_craft_agent.Prelude.{
  ℕ, ◌+◌, ◌<◌, ◌≡◌, refl, sym, ap, ◌∙◌, Bool, true, false, ◌||◌, Option, List, [], ◌∷◌, Result, ok,
  err, >>=-eq-ok, ok_injective, arith, leb, ltb, length, Text, is_empty, All, Bool-cases, inl, inr,
  if◌then◌else◌,
}
use doc_craft_agent.Model.{SectionPlan, Outline, Evidence}
use doc_craft_agent.Findings
use doc_craft_agent.Findings.{is_id, resolve_ids, max_section_anchors}
use doc_craft_agent.Findings.Ids.{resolve_ids_lem, resolve_ids_again}
use doc_craft_agent.Planning.Outlines.{
  lift, section_id, normalize, key_points_ok, context_ok, diagrams_ok, branches_ok, check_anchors,
  check_section, check_sections, validate_outline,
}
use doc_craft_agent.Planning.Outlines.Checked.{
  Checked, check_section-Checked, check_section_of_Checked, validate_outline-Ordered,
  validate_outline-Accepted,
}

lift-ok : {A : Type 0} (m : Result Findings.Error A) {a : A} → lift m ≡ ok a → m ≡ ok a
lift-ok (ok a) h = ap ok (ok_injective h)
lift-ok (err e) h = cc

test_true : {A : Type 0} {b : Bool} (x y : A) → b ≡ true → (if b then x else y) ≡ x
test_true x y h = rw h

test_false : {A : Type 0} {b : Bool} (x y : A) → b ≡ false → (if b then x else y) ≡ y
test_false x y h = rw h

test_found : (ids : List Text) (n : ℕ) → 0 < length ids → (ltb 0 (length ids) || leb n 0) ≡ true
test_found ids n h = ground arith

module _ (hash lowercase : Text → Text) (evidence : List Evidence)
    (hash_nonempty : (t : Text) → is_empty (hash t) ≡ false)
    (shaped : All (λ (e : Evidence). is_id e.id ≡ true) evidence) where
  section_id_nonempty : (s : SectionPlan) → is_empty (section_id hash lowercase s) ≡ false
  unfolding section_id
  section_id_nonempty s = elim (Bool-cases (is_empty s.id)) [
    | inl e ↦ rw e (hash_nonempty _)
    | inr e ↦ rw e e
  ]

  -- The anchors that were resolved resolve to themselves.
  check_anchors_again :
      (s s' : SectionPlan) {found : List Text}
      → check_anchors hash lowercase evidence s ≡ ok found
      → s'.evidence_ids ≡ found
      → s'.branches ≡ s.branches
      → check_anchors hash lowercase evidence s' ≡ ok found
  unfolding check_anchors
  check_anchors_again s s' {found} h e b =
      elim (Bool-cases (ltb 0 (length s.evidence_ids) || leb (length s.branches) 0)) [
        | inl cited ↦
            let once = lift-ok _ (sym (test_true _ _ cited) ∙ h) in
            let again = resolve_ids_again s.evidence_ids evidence max_section_anchors shaped once in
            let (_, _, some_id, _) = resolve_ids_lem found evidence max_section_anchors again in
            rw (e, b, test_found found (length s.branches) some_id, again)
        | inr free ↦
            let same : found ≡ s.evidence_ids =
              sym (ok_injective (sym (test_false _ _ free) ∙ h)) in
            rw (e, b, same, free)
      ]

  again_Checked :
      (index : ℕ) (titles ids : List Text) (s : SectionPlan) {s' : SectionPlan}
      → Checked hash lowercase evidence index titles ids s s'
      → (Checked hash lowercase evidence index titles ids s' s')
        × (section_id hash lowercase s' ≡ section_id hash lowercase s)
        × (s'.title ≡ s.title)
        × (s'.diagrams ≡ s.diagrams)
  unfolding section_id key_points_ok context_ok diagrams_ok branches_ok
  again_Checked index titles ids s {s'} c =
      let id = section_id hash lowercase s in
      let after = record s { id = id; evidence_ids = c.anchors } in
      let kept : section_id hash lowercase after ≡ id = rw (section_id_nonempty s) refl in
      rw c.result (
        record {
          anchors = c.anchors;
          shaped_id = rw kept c.shaped_id;
          key_points = c.key_points;
          texts = c.texts;
          optional = c.optional;
          new_title = c.new_title;
          dependencies = c.dependencies;
          diagrams = c.diagrams;
          branches = c.branches;
          resolved = check_anchors_again s after c.resolved refl refl;
          result = rw kept refl;
        },
        kept,
        refl,
        refl,
      )

  check_sections_again :
      (index : ℕ) (titles ids : List Text) (sections : List SectionPlan)
      {checked : List SectionPlan}
      → check_sections hash lowercase evidence index titles ids sections ≡ ok checked
      → check_sections hash lowercase evidence index titles ids checked ≡ ok checked
  unfolding check_sections
  check_sections_again index titles ids [] h = rw (sym (ok_injective h)) refl
  check_sections_again index titles ids (s ∷ sections) {checked} h =
      let (s', one, h1) =
        >>=-eq-ok (check_section hash lowercase evidence index titles ids s) _ h in
      let (rest, more, h2) =
        >>=-eq-ok
          (check_sections hash lowercase evidence (index + 1)
            (normalize hash lowercase s.title ∷ titles) (section_id hash lowercase s ∷ ids)
            sections)
          _ h1 in
      let (c, same_id, same_title, _) =
        again_Checked index titles ids s
          (check_section-Checked hash lowercase evidence index titles ids s one) in
      let later =
        check_sections_again (index + 1) (normalize hash lowercase s.title ∷ titles)
          (section_id hash lowercase s ∷ ids) sections more in
      let e : checked ≡ s' ∷ rest = sym (ok_injective h2) in
      rw (
        e,
        check_section_of_Checked hash lowercase evidence index titles ids s' c,
        same_id,
        same_title,
        later,
      )

  -- An outline that was accepted is accepted again under the same evidence, maximum and number of
  -- branches, and comes back unchanged, where a hash is never empty and the ids of the evidence
  -- have the shape that a citation needs.
  pub validate_outline_again :
      (o : Outline) (maximum branches : Option ℕ) {o' : Outline}
      → validate_outline hash lowercase o evidence maximum branches ≡ ok o'
      → validate_outline hash lowercase o' evidence maximum branches ≡ ok o'
  unfolding validate_outline
  validate_outline_again o maximum branches {o'} h =
      let a = validate_outline-Accepted hash lowercase evidence o maximum branches h in
      let again = check_sections_again 0 [] [] o.sections a.checked in
      let ordered = validate_outline-Ordered hash lowercase evidence o maximum branches h in
      let counted : length a.sections ≡ length o.sections =
        ap (λ (x : Outline). length x.sections) (sym a.result) ∙ ordered.3 in
      rw (a.result, counted, a.count, a.goal, a.terms, again, a.excluded, a.few)
