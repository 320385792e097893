-- ===== src/Api/Resume/Tests.antt =====
-- Runs that are resumed, and the theorems at them.
use doc_craft_agent.Prelude.{
  ℕ, ◌≡◌, refl, Bool, true, false, none, some, [], ◌∷◌, ok, err, Text, text, text_eq, len, is_empty,
  trim, trim_start, trim_end, is_whitespace, contains, starts_with,
}
use doc_craft_agent.Prelude.Floats.{whole}
use doc_craft_agent.Model.{TaskConfig, Settings, RunSnapshot, default_task, default_settings}
use doc_craft_agent.Config.{Environment}
use doc_craft_agent.Source.{has_part}
use doc_craft_agent.Source.Tasks.{
  Files, validate_task, run_limits_ok, prices_known, target_path, check_sources, matches_root,
  is_below, path_eq,
}
use doc_craft_agent.Api.Resume.{
  ResumeOptions, llm_request, llm_response, object, Run, Answers, same_review_limit, resume_run,
  resume_from, check_run, own_document, with_llm, finish_resume, with_limits, renew_limits,
  credentials, released_from, excess,
}
use doc_craft_agent.Api.Resume.Kept.{Kept, resume_run-Kept}

abbrev disk : Files
disk = record {
  is_absolute = λ p. true;
  extension = λ p. some (text "md");
  parent = λ p. some (text "o");
  file_name = λ p. some (text "d.md");
  canonicalize = λ p. some (p ∷ []);
  is_symlink = λ p. false;
  compiles = λ ps. true;
}

abbrev local : Environment
local = record {
  is_dir = λ path. true;
  parse_url = λ url. some (record {
    scheme = text "http";
    username = [];
    password = none;
    query = none;
    fragment = none;
  });
}

abbrev task : ℕ → TaskConfig ℕ
task iterations = record (default_task 0) {
  name = text "n";
  direction = text "d";
  target = text "t";
  sources = text "s" ∷ [];
  max_iterations = iterations;
}

abbrev settings : Text → Settings ℕ
settings key = record (default_settings 0) {
  source_roots = text "s" ∷ [];
  output_roots = text "o" ∷ [];
  llm = record (default_settings 0).llm { api_key = key };
}

abbrev run : Text → Run ℕ
run status = record {
  status = status;
  progress = [];
  snapshot = record { task = task 3; settings = settings (text "old"); original_hash = none };
  document = some (text "h");
  calls =
      llm_request (some 900) (some 100) ∷ llm_response false (some false) (some 300) (some 50) ∷ [];
  budget = object (some 5000);
  reconciled = none;
  task = some (task 4);
}

abbrev up : Answers
up = record { is_busy = false; connected = true; readable = true; committed = true; queued = true }

abbrev options : Bool → ResumeOptions
options reviews = record {
  current_llm = false;
  current_token_limit = false;
  current_review_limit = reviews;
}

abbrev warned : Run ℕ
warned = run (text "completed_with_warnings")

abbrev resumed : RunSnapshot ℕ
resumed = record {
  task = task 4;
  settings = settings (text "new");
  original_hash = some (text "h");
}

larger_limit_goes_on :
    (resume_run whole local disk up (options true) (settings (text "new")) warned).1 ≡ ok resumed
unfolding resume_run resume_from check_run own_document with_llm finish_resume with_limits
    renew_limits credentials validate_task run_limits_ok prices_known target_path check_sources
    matches_root is_below path_eq text_eq len is_empty trim trim_start trim_end is_whitespace
    contains has_part starts_with
larger_limit_goes_on = refl

same_limit_refused :
    (resume_run whole local disk up (options false) (settings (text "new")) warned).1
    ≡ err same_review_limit
unfolding resume_run resume_from check_run own_document with_llm finish_resume with_limits
    renew_limits credentials text_eq has_part starts_with contains
same_limit_refused = refl

resume_run-Kept_example :
    Kept whole local disk (options true) (settings (text "new")) warned resumed
resume_run-Kept_example =
    resume_run-Kept whole local disk up (options true) (settings (text "new")) warned
      larger_limit_goes_on

gives_back_what_is_over : released_from 0 0 (run (text "failed")).calls ≡ 650
unfolding released_from excess
gives_back_what_is_over = refl

abbrev with_current_llm : ResumeOptions
with_current_llm = record {
  current_llm = true;
  current_token_limit = false;
  current_review_limit = false;
}

abbrev failed : Run ℕ
failed = run (text "failed")
