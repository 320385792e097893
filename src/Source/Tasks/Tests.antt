-- ===== src/Source/Tasks/Tests.antt =====
-- A small task on a small file system, and the theorem at it.
use doc_craft_agent.Prelude.{
  ℕ, ◌≡◌, ◌≤◌, refl, true, false, Option, none, some, [], ◌∷◌, ok, err, Text, text, text_eq, len,
  is_empty, trim, trim_start, trim_end, is_whitespace, All, if◌then◌else◌,
}
use doc_craft_agent.Prelude.Floats.{whole}
use doc_craft_agent.Model.{TaskConfig, Settings, default_task, default_settings}
use doc_craft_agent.Source.Tasks.{
  FilePath, Files, validate_task, run_limits_ok, prices_known, target_path, check_sources,
  matches_root, is_below, path_eq, outside_source,
}
use doc_craft_agent.Source.Tasks.Inside.{Target, SourceOk, validate_task-Target}

abbrev known : Text → Option FilePath
known p =
    if text_eq p (text "/out")
    then some (text "out" ∷ [])
    else if text_eq p (text "/src")
    then some (text "src" ∷ [])
    else if text_eq p (text "/src/a")
    then some (text "src" ∷ text "a" ∷ [])
    else none

abbrev disk : Files
disk = record {
  is_absolute = λ p. true;
  extension = λ p. some (text "md");
  parent = λ p. some (text "/out");
  file_name = λ p. some (text "d.md");
  canonicalize = known;
  is_symlink = λ p. false;
  compiles = λ ps. true;
}

abbrev task : Text → TaskConfig ℕ
task source = record (default_task 0) {
  name = text "n";
  direction = text "d";
  target = text "/out/d.md";
  sources = source ∷ [];
}

abbrev settings : Settings ℕ
settings = record (default_settings 0) {
  source_roots = text "/src" ∷ [];
  output_roots = text "/out" ∷ [];
}

accepted : validate_task whole disk (task (text "/src/a")) settings ≡ ok tt
unfolding validate_task run_limits_ok prices_known target_path check_sources matches_root is_below
    path_eq text_eq len is_empty trim trim_start trim_end is_whitespace
accepted = refl

outside_refused : validate_task whole disk (task (text "/out")) settings ≡ err outside_source
unfolding validate_task run_limits_ok prices_known target_path check_sources matches_root is_below
    path_eq text_eq len is_empty trim trim_start trim_end is_whitespace
outside_refused = refl

validate_task-Target_example :
    (1 ≤ 1)
    × ((target : FilePath) × Target disk (text "/out/d.md") (text "/out" ∷ []) target
        × All (λ source. SourceOk disk (text "/src" ∷ []) target source) (text "/src/a" ∷ []))
validate_task-Target_example =
    validate_task-Target whole disk (task (text "/src/a")) settings accepted
