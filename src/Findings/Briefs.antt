-- ===== src/Findings/Briefs.antt =====
-- `validate_brief` of backend/src/findings.rs: a reading of the source is checked before it is
-- kept. `is_implementation` of backend/src/source.rs takes its parameters along.
pub mod Grounded
mod Tests
use doc_craft_agent.Prelude.{
  ℕ, ◌*◌, Bool, true, false, not, ◌&&◌, Option, List, [], ◌∷◌, ◌++◌, Result, ok, err, ◌>>=◌, ◌>>◌,
  ensure, leb, ltb, if◌then◌else◌, length, Text, is_empty, trim, all, any, filter, contains,
}
use doc_craft_agent.Model.{Evidence}
use doc_craft_agent.Source.{is_implementation}
use doc_craft_agent.Findings
use doc_craft_agent.Findings.{bounded_text, resolve_ids}

pub data FindingKind : Type 0 where
  runtime context : FindingKind

pub record Finding : Type 0 where
  pub topic : Text
  pub observation : Text
  pub kind : FindingKind
  pub evidence_ids : List Text

pub record SourceBrief : Type 0 where
  pub findings : List Finding
  pub uncertainties : List Text
  pub followup_queries : List Text

-- the `ensure!`s of `validate_brief`
pub data Error : Type 0 where
  finding_count bad_uncertainties bad_queries bad_finding ungrounded : Error
  citations : Findings.Error → Error

abbrev pub accepted_findings : ℕ
accepted_findings = 12 * 2

abbrev pub accepted_evidence_ids : ℕ
accepted_evidence_ids = 12 * 2

abbrev pub accepted_uncertainties : ℕ
accepted_uncertainties = 8 * 2

abbrev pub lift : {A : Type 0} → Result Findings.Error A → Result Error A
lift (ok a) = ok a
lift (err e) = err (citations e)

-- `retain(|query| !query.trim().is_empty())`
abbrev pub retained : List Text → List Text
retained = filter (λ query. not (is_empty (trim query)))

-- the loop over the queries of a final pass
unfoldable pub keep_questions : List Text → List Text → List Text
keep_questions uncertainties [] = uncertainties
keep_questions uncertainties (query ∷ queries) =
    keep_questions
      (if contains uncertainties query then uncertainties else uncertainties ++ (query ∷ []))
      queries

module _ (lowercase : Text → Text) (extension : Text → Option Text) where
  -- a runtime finding cites an implementation passage
  unfoldable pub is_grounded : List Evidence → FindingKind → List Text → Bool
  is_grounded evidence runtime ids =
      any (λ (e : Evidence). contains ids e.id && is_implementation lowercase extension e.path)
        evidence
  is_grounded evidence context ids = true

  -- the body of the loop over the findings
  unfoldable pub check_finding : List Evidence → Finding → Result Error Finding
  unfolding is_grounded
  check_finding evidence f = do
    ensure (bounded_text f.topic 300 && bounded_text f.observation 4000) bad_finding
    ids ← lift (resolve_ids f.evidence_ids evidence accepted_evidence_ids)
    ensure (is_grounded evidence f.kind ids) ungrounded
    ok (record f { evidence_ids = ids })

  unfoldable pub check_findings : List Evidence → List Finding → Result Error (List Finding)
  check_findings evidence [] = ok []
  check_findings evidence (f ∷ findings) = do
    checked ← check_finding evidence f
    rest ← check_findings evidence findings
    ok (checked ∷ rest)

  -- `final_pass` moves the open questions to the uncertainties
  unfoldable pub validate_brief : SourceBrief → List Evidence → Bool → Result Error SourceBrief
  validate_brief brief evidence final_pass = do
    ensure (ltb 0 (length brief.findings) && leb (length brief.findings) accepted_findings)
        finding_count
    ensure
        (leb (length brief.uncertainties) accepted_uncertainties
          && all (λ s. bounded_text s 1500) brief.uncertainties)
        bad_uncertainties
    ensure
        (leb (length (retained brief.followup_queries)) (if final_pass then 8 else 3)
          && all (λ s. bounded_text s 1500) (retained brief.followup_queries))
        bad_queries
    findings ← check_findings evidence brief.findings
    ok (record {
      findings = findings;
      uncertainties =
          if final_pass
          then keep_questions brief.uncertainties (retained brief.followup_queries)
          else brief.uncertainties;
      followup_queries = if final_pass then [] else retained brief.followup_queries;
    })
