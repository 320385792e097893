-- ===== src/Config/Tests.antt =====
-- The default settings under a file system with no directory (backend/src/config.rs).
use doc_craft_agent.Prelude.{
  ℕ, ◌≡◌, refl, none, some, [], false, ok, err, arith, text, text_eq, contains, is_empty,
  is_ascii_alphanumeric, trim, starts_with,
}
use doc_craft_agent.Prelude.Floats.{whole}
use doc_craft_agent.Prelude.Words.{div_ceil}
use doc_craft_agent.Model.{Settings, default_settings}
use doc_craft_agent.Budget.{Budget, packing_limit, packing_limit_at, check}
use doc_craft_agent.Config.{
  Environment, validate, redacted, preserve_secrets, root_ok, database_name_ok, concurrency_ok,
  limits_ok, has_room, token_mode_ok, reasoning_ok, effort_ok, proxy_ok, rates_ok, prices_ok,
  url_ok, no_room,
}
use doc_craft_agent.Config.Room.{validate-check}
use doc_craft_agent.Config.Secrets.{preserve_secrets-redacted}

abbrev local : Environment
local = record {
  is_dir = λ path. false;
  parse_url = λ url. some (record {
    scheme = text "http";
    username = [];
    password = none;
    query = none;
    fragment = none;
  });
}

abbrev settings : Settings ℕ
settings = default_settings 0

defaults_accepted : validate whole local settings ≡ ok tt
unfolding validate root_ok database_name_ok concurrency_ok limits_ok has_room token_mode_ok
    reasoning_ok effort_ok proxy_ok rates_ok prices_ok url_ok contains is_empty
    is_ascii_alphanumeric trim starts_with text_eq
defaults_accepted = refl

abbrev crowded : Settings ℕ
crowded = record settings { llm = record settings.llm { context_limit = 20_000 } }

crowded_refused : validate whole local crowded ≡ err no_room
unfolding validate root_ok database_name_ok concurrency_ok limits_ok has_room contains is_empty
    is_ascii_alphanumeric text_eq
crowded_refused = refl

validate-check_example : (b : Budget) × (check settings.llm 0 500 ≡ ok b) × (b.input ≡ 500)
validate-check_example = validate-check whole local settings 500 defaults_accepted (omega arith)

-- accepted, and no room for what the reading of the source adds
abbrev small : Settings ℕ
small = record settings {
  llm = record settings.llm { context_limit = 4096; max_output_tokens = 1024 };
}

small_accepted : validate whole local small ≡ ok tt
unfolding validate root_ok database_name_ok concurrency_ok limits_ok has_room token_mode_ok
    reasoning_ok effort_ok proxy_ok rates_ok prices_ok url_ok contains is_empty
    is_ascii_alphanumeric trim starts_with text_eq
small_accepted = refl

small_holds_no_source : packing_limit small.llm 0 16_000 ≡ 0
unfolding packing_limit packing_limit_at div_ceil
small_holds_no_source = refl

preserve_secrets-redacted_example : preserve_secrets (redacted settings) settings ≡ settings
preserve_secrets-redacted_example = preserve_secrets-redacted settings
