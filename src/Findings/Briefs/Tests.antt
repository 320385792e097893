-- ===== src/Findings/Briefs/Tests.antt =====
-- A reading of two passages, and the theorems at it.
use doc_craft_agent.Prelude.{
  ◌≡◌, ◌≤◌, refl, true, Option, some, [], ◌∷◌, ok, err, length, Text, text, contains, text_eq,
  starts_with, trim, is_empty, is_whitespace, len, is_ascii_hexdigit, List, if◌then◌else◌,
}
use doc_craft_agent.Model.{Evidence}
use doc_craft_agent.Source.{is_implementation}
use doc_craft_agent.Findings.{bounded_text, is_id, resolve_ids, resolve_from}
use doc_craft_agent.Findings.Briefs.{
  Finding, SourceBrief, runtime, ungrounded, validate_brief, check_findings, check_finding,
  is_grounded, keep_questions,
}
use doc_craft_agent.Findings.Briefs.Grounded.{AllSupported, validate_brief-AllSupported}

abbrev lower : Text → Text
lower t = t

-- of the two paths below
abbrev extension : Text → Option Text
extension path = if text_eq path (text "src/a.rs") then some (text "rs") else some (text "md")

abbrev passages : List Evidence
passages =
    record {
      id = text "aaaaaaaa11";
      path = text "src/a.rs";
      start = 1;
      end = 9;
      content = text "fn";
    }
    ∷ record {
      id = text "bbbbbbbb22";
      path = text "README.md";
      start = 1;
      end = 2;
      content = text "#";
    }
    ∷ []

abbrev finding : Text → Finding
finding id = record {
  topic = text "t";
  observation = text "o";
  kind = runtime;
  evidence_ids = id ∷ [];
}

abbrev brief : Text → SourceBrief
brief id = record {
  findings = finding id ∷ [];
  uncertainties = text "u" ∷ [];
  followup_queries = text "q" ∷ text " " ∷ [];
}

abbrev kept_brief : SourceBrief
kept_brief = record {
  findings = finding (text "aaaaaaaa11") ∷ [];
  uncertainties = text "u" ∷ text "q" ∷ [];
  followup_queries = [];
}

accepted_on_the_final_pass :
    validate_brief lower extension (brief (text "aaaaaaaa")) passages true ≡ ok kept_brief
unfolding validate_brief check_findings check_finding is_grounded keep_questions resolve_ids
    resolve_from bounded_text is_id contains text_eq starts_with trim is_empty len is_ascii_hexdigit
    is_implementation is_whitespace
accepted_on_the_final_pass = refl

readme_is_not_runtime :
    validate_brief lower extension (brief (text "bbbbbbbb")) passages true ≡ err ungrounded
unfolding validate_brief check_findings check_finding is_grounded resolve_ids resolve_from
    bounded_text is_id contains text_eq starts_with trim is_empty len is_ascii_hexdigit
    is_implementation is_whitespace
readme_is_not_runtime = refl

validate_brief-AllSupported_example :
    (1 ≤ length (brief (text "aaaaaaaa")).findings)
    × (length (brief (text "aaaaaaaa")).findings ≤ 24)
    × AllSupported lower extension passages (brief (text "aaaaaaaa")).findings kept_brief.findings
validate_brief-AllSupported_example =
    validate_brief-AllSupported lower extension passages (brief (text "aaaaaaaa")) true
      accepted_on_the_final_pass
