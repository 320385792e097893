-- ===== src/Findings/Briefs/Grounded.antt =====
-- What `validate_brief` of backend/src/findings.rs promises of a reading that it accepts.
use doc_craft_agent.Prelude.{
  ◌≤◌, ◌≡◌, refl, sym, Bool, true, ◌&&◌, ◌||◌, Option, List, [], ◌∷◌, ◌++◌, ok, err, Result, leb,
  ltb, arith, if◌then◌else◌, >>=-eq-ok, length, Text, text_eq, text_eq_refl, All, contains, all,
  ensure->>=-ok, ok_injective,
}
use doc_craft_agent.Model.{Evidence}
use doc_craft_agent.Findings
use doc_craft_agent.Findings.{bounded_text, resolve_ids}
use doc_craft_agent.Findings.Ids.{Resolves, IsFresh, resolve_ids_lem}
use doc_craft_agent.Findings.Briefs.{
  Finding, SourceBrief, lift, retained, keep_questions, is_grounded, check_finding, check_findings,
  validate_brief, accepted_evidence_ids,
}

contains-append :
    (set : List Text) (t query : Text)
    → contains (set ++ (t ∷ [])) query ≡ (contains set query || text_eq t query)
unfolding contains
contains-append [] t query = ground arith
contains-append (s ∷ set) t query = ground (arith, contains-append set t query)

keep_questions_more :
    (uncertainties queries : List Text) (t : Text)
    → contains uncertainties t ≡ true
    → contains (keep_questions uncertainties queries) t ≡ true
unfolding keep_questions
keep_questions_more uncertainties [] t h = h
keep_questions_more uncertainties (query ∷ queries) t h =
    keep_questions_more
      (if contains uncertainties query then uncertainties else uncertainties ++ (query ∷ []))
      queries t (ground (arith, contains-append uncertainties query t))

All-keep_questions :
    (uncertainties queries : List Text)
    → All (λ query. contains (keep_questions uncertainties queries) query ≡ true) queries
unfolding keep_questions
All-keep_questions uncertainties [] = tt
All-keep_questions uncertainties (query ∷ queries) = (
  keep_questions_more _ queries query
      (ground (arith, contains-append uncertainties query query, text_eq_refl query)),
  All-keep_questions
      (if contains uncertainties query then uncertainties else uncertainties ++ (query ∷ []))
      queries,
)

module _ (lowercase : Text → Text) (extension : Text → Option Text) (evidence : List Evidence) where
  -- The finding that is kept has bounded text and cites one to 24 passages, each once and by its
  -- full id; a runtime finding cites an implementation.
  abbrev pub IsSupported : Finding → Finding → Type 0
  IsSupported f kept =
      (kept.topic ≡ f.topic)
      × (kept.observation ≡ f.observation)
      × (kept.kind ≡ f.kind)
      × ((bounded_text f.topic 300 && bounded_text f.observation 4000) ≡ true)
      × (1 ≤ length f.evidence_ids)
      × (length f.evidence_ids ≤ 24)
      × Resolves evidence f.evidence_ids kept.evidence_ids
      × IsFresh [] kept.evidence_ids
      × (is_grounded lowercase extension evidence kept.kind kept.evidence_ids ≡ true)

  abbrev pub AllSupported : List Finding → List Finding → Type 0
  AllSupported [] [] = Unit
  AllSupported [] (kept ∷ rest) = ⊥
  AllSupported (f ∷ findings) [] = ⊥
  AllSupported (f ∷ findings) (kept ∷ rest) = IsSupported f kept × AllSupported findings rest

  lift-ok : (m : Result Findings.Error (List Text)) {ids : List Text} → lift m ≡ ok ids → m ≡ ok ids
  lift-ok (ok a) h = cc
  lift-ok (err e) h = cc

  -- the steps of one finding that is kept
  record Kept (f kept : Finding) : Type 0 where
    ids : List Text
    shaped : (bounded_text f.topic 300 && bounded_text f.observation 4000) ≡ true
    cited : resolve_ids f.evidence_ids evidence accepted_evidence_ids ≡ ok ids
    grounded : is_grounded lowercase extension evidence f.kind ids ≡ true
    result : kept ≡ record f { evidence_ids = ids }

  check_finding-Kept :
      (f : Finding) {kept : Finding}
      → check_finding lowercase extension evidence f ≡ ok kept
      → Kept f kept
  unfolding check_finding
  check_finding-Kept f h =
      let (shaped, h1) =
        ensure->>=-ok (bounded_text f.topic 300 && bounded_text f.observation 4000) _ _ h in
      let (ids, cited, h2) =
        >>=-eq-ok (lift (resolve_ids f.evidence_ids evidence accepted_evidence_ids)) _ h1 in
      let (grounded, h3) =
        ensure->>=-ok (is_grounded lowercase extension evidence f.kind ids) _ _ h2 in
      record {
        ids = ids;
        shaped = shaped;
        cited = lift-ok (resolve_ids f.evidence_ids evidence accepted_evidence_ids) cited;
        grounded = grounded;
        result = sym (ok_injective h3);
      }

  check_finding-IsSupported :
      (f : Finding) {kept : Finding}
      → check_finding lowercase extension evidence f ≡ ok kept
      → IsSupported f kept
  check_finding-IsSupported f h =
      let k = check_finding-Kept f h in
      let (resolves, once, more, fewer) =
        resolve_ids_lem f.evidence_ids evidence accepted_evidence_ids k.cited in
      rw k.result (refl, refl, refl, k.shaped, omega arith, omega arith, resolves, once, k.grounded)

  check_findings-AllSupported :
      (findings : List Finding) {kept : List Finding}
      → check_findings lowercase extension evidence findings ≡ ok kept
      → AllSupported findings kept
  unfolding check_findings
  check_findings-AllSupported [] h = rw⁻¹ (ok_injective h) tt
  check_findings-AllSupported (f ∷ findings) h =
      let (kept, first, h1) = >>=-eq-ok (check_finding lowercase extension evidence f) _ h in
      let (rest, later, h2) =
        >>=-eq-ok (check_findings lowercase extension evidence findings) _ h1 in
      rw⁻¹ (ok_injective h2)
        (check_finding-IsSupported f first, check_findings-AllSupported findings later)

  -- the steps of a reading that is accepted
  record Accepted (brief accepted : SourceBrief) (final_pass : Bool) : Type 0 where
    findings : List Finding
    count : (ltb 0 (length brief.findings) && leb (length brief.findings) 24) ≡ true
    checked : check_findings lowercase extension evidence brief.findings ≡ ok findings
    result : accepted ≡ record {
      findings = findings;
      uncertainties =
          if final_pass
          then keep_questions brief.uncertainties (retained brief.followup_queries)
          else brief.uncertainties;
      followup_queries = if final_pass then [] else retained brief.followup_queries;
    }

  validate_brief-Accepted :
      (brief : SourceBrief) (final_pass : Bool) {accepted : SourceBrief}
      → validate_brief lowercase extension brief evidence final_pass ≡ ok accepted
      → Accepted brief accepted final_pass
  unfolding validate_brief
  validate_brief-Accepted brief final_pass h =
      let (count, h1) =
        ensure->>=-ok (ltb 0 (length brief.findings) && leb (length brief.findings) 24) _ _ h in
      let (open_points, h2) =
        ensure->>=-ok
          (leb (length brief.uncertainties) 16
            && all (λ s. bounded_text s 1500) brief.uncertainties)
          _ _ h1 in
      let (queries, h3) =
        ensure->>=-ok
          (leb (length (retained brief.followup_queries)) (if final_pass then 8 else 3)
            && all (λ s. bounded_text s 1500) (retained brief.followup_queries))
          _ _ h2 in
      let (findings, checked, h4) =
        >>=-eq-ok (check_findings lowercase extension evidence brief.findings) _ h3 in
      record {
        findings = findings;
        count = count;
        checked = checked;
        result = sym (ok_injective h4);
      }

  -- An accepted reading has one to 24 findings, each as it was given but with full ids: its text is
  -- bounded, it has one to 24 citations, each stands for exactly one passage, none is repeated, and a
  -- runtime finding cites an implementation.
  pub validate_brief-AllSupported :
      (brief : SourceBrief) (final_pass : Bool) {accepted : SourceBrief}
      → validate_brief lowercase extension brief evidence final_pass ≡ ok accepted
      → (1 ≤ length brief.findings)
        × (length brief.findings ≤ 24)
        × AllSupported brief.findings accepted.findings
  validate_brief-AllSupported brief final_pass h =
      let a = validate_brief-Accepted brief final_pass h in
      let counted = a.count in
      (
        ground arith,
        ground arith,
        rw a.result (check_findings-AllSupported brief.findings a.checked),
      )

  -- A reading accepted on the final pass asks nothing further, and each question that it asked,
  -- but for blank ones, stands among its uncertainties.
  pub validate_brief-questions :
      (brief : SourceBrief) {accepted : SourceBrief}
      → validate_brief lowercase extension brief evidence true ≡ ok accepted
      → (accepted.followup_queries ≡ [])
        × All
            (λ query. contains accepted.uncertainties query ≡ true)
            (retained brief.followup_queries)
  validate_brief-questions brief h =
      let a = validate_brief-Accepted brief true h in
      rw a.result (refl, All-keep_questions brief.uncertainties (retained brief.followup_queries))
