-- ===== src/Config.antt =====
-- backend/src/config.rs: the checks on saved settings, and what becomes of their secrets. The file
-- system and the URL parser of `reqwest` are parameters.
pub mod Room
pub mod Secrets
mod Tests
use doc_craft_agent.Prelude.{
  ℕ, ◌+◌, ◌-◌, ◌*◌, ◌/◌, min, Bool, true, false, not, ◌&&◌, ◌||◌, Option, none, some, List, [], ◌∷◌,
  ◌++◌, Result, ok, err, ◌>>=◌, ◌>>◌, ensure, leb, ltb, ◌==◌, if◌then◌else◌, Text, text, text_eq,
  is_empty, trim, all, contains, starts_with, is_ascii_alphanumeric,
}
use doc_craft_agent.Prelude.Floats.{Floats}
use doc_craft_agent.Model.{Settings, LlmConfig, DbConfig}

-- the `bail!`s of `validate`, in their order
pub data Error : Type 0 where
  bad_roots bad_retention bad_database_name other_database bad_concurrency bad_file_size : Error
  bad_limits no_room bad_token_mode bad_output_parameter bad_reasoning bad_effort : Error
  bad_proxy bad_rates bad_prices bad_url url_not_http : Error

-- what `validate` reads of a `reqwest::Url`
pub record Url : Type 0 where
  pub scheme : Text
  pub username : Text
  pub password : Option Text
  pub query : Option Text
  pub fragment : Option Text

-- `Path::is_dir` and `reqwest::Url::parse`
pub record Environment : Type 0 where
  pub is_dir : Text → Bool
  pub parse_url : Text → Option Url

abbrev pub one_of : List Text → Text → Bool
one_of = contains

-- `(lo..=hi).contains(&x)`
abbrev pub in_range : ℕ → ℕ → ℕ → Bool
in_range lo hi x = leb lo x && leb x hi

abbrev pub is_none : Option Text → Bool
is_none none = true
is_none (some t) = false

-- an absolute path on Unix, where it is not blank
unfoldable pub root_ok : Environment → Text → Bool
root_ok env root = is_empty (trim root) || (starts_with root (text "/") && env.is_dir root)

unfoldable pub database_name_ok : Text → Bool
database_name_ok name = not (is_empty name) && all (λ c. is_ascii_alphanumeric c || c == b'_') name

unfoldable pub url_ok : Url → Bool
url_ok url =
    one_of (text "http" ∷ text "https" ∷ []) url.scheme
    && is_empty url.username
    && is_none url.password
    && is_none url.query
    && is_none url.fragment

module _ {F : Type 0} where
  unfoldable pub limits_ok : LlmConfig F → Bool
  limits_ok l =
      leb 1024 l.context_limit
      && leb l.context_limit 200_000
      && leb 1024 l.model_context_limit
      && ltb 0 l.max_output_tokens
      && leb l.max_output_tokens l.model_max_output
      && leb 5 l.safety_percent
      && leb l.safety_percent 80

  -- the input room that the output and the safety margin leave
  unfoldable pub has_room : LlmConfig F → Bool
  has_room l =
      ltb (l.max_output_tokens + 512)
        (min l.context_limit l.model_context_limit * (100 - l.safety_percent) / 100)

  unfoldable pub token_mode_ok : LlmConfig F → Bool
  token_mode_ok l =
      one_of (text "estimate" ∷ text "server" ∷ []) l.token_mode
      && not (text_eq l.token_mode (text "server") && is_empty l.token_count_url)

  unfoldable pub reasoning_ok : LlmConfig F → Bool
  reasoning_ok l =
      one_of (text "default" ∷ text "off" ∷ text "on" ∷ []) l.reasoning
      && one_of (text "reasoning_effort" ∷ text "enable_thinking" ∷ []) l.reasoning_parameter

  unfoldable pub effort_ok : LlmConfig F → Bool
  effort_ok l =
      one_of
        (text "minimal" ∷ text "low" ∷ text "medium" ∷ text "high" ∷ text "xhigh" ∷ text "max" ∷ [])
        l.effort

  unfoldable pub proxy_ok : LlmConfig F → Bool
  proxy_ok l =
      one_of (text "none" ∷ text "system" ∷ text "custom" ∷ []) l.proxy_mode
      && not (text_eq l.proxy_mode (text "custom") && is_empty l.proxy_url)

  unfoldable pub rates_ok : LlmConfig F → Bool
  rates_ok l =
      leb 5 l.timeout_seconds
      && leb l.timeout_seconds 900
      && leb l.retries 6
      && ltb 0 l.rpm
      && leb 1024 l.tpm

  unfoldable pub concurrency_ok : Settings F → Bool
  concurrency_ok s =
      in_range 1 32 s.db.max_connections
      && in_range 1 8 s.max_jobs
      && in_range 1 16 s.llm.concurrency

-- what the API shows in place of a secret
abbrev pub masked : Text
masked = text "********"

abbrev pub mask : Text → Text
mask secret = if is_empty secret then secret else masked

-- a masked secret that comes back stands for the old one
abbrev pub unmask : Text → Text → Text
unmask new old = if text_eq new masked then old else new

module _ {F : Type 0} where
  unfoldable pub redacted : Settings F → Settings F
  redacted s = record s {
    db = record s.db { password = mask s.db.password };
    llm = record s.llm { api_key = mask s.llm.api_key; proxy_password = mask s.llm.proxy_password };
  }

  -- `preserve_secrets(&mut new, old)`
  unfoldable pub preserve_secrets : Settings F → Settings F → Settings F
  preserve_secrets new old = record new {
    db = record new.db { password = unmask new.db.password old.db.password };
    llm = record new.llm {
      api_key = unmask new.llm.api_key old.llm.api_key;
      proxy_password = unmask new.llm.proxy_password old.llm.proxy_password;
    };
  }

abbrev pub or_url : Option Url → Result Error Url
or_url none = err bad_url
or_url (some url) = ok url

module _ (floats : Floats) where
  open floats use {F, zero_f64, less, is_finite}

  unfoldable pub prices_ok : LlmConfig F → Bool
  prices_ok l =
      is_finite l.input_price
      && is_finite l.output_price
      && not (less l.input_price zero_f64)
      && not (less l.output_price zero_f64)

  unfoldable pub validate : Environment → Settings F → Result Error (Unit {0})
  validate env s = do
    ensure (all (root_ok env) (s.source_roots ++ s.output_roots)) bad_roots
    ensure (ltb 0 s.retention_days && leb s.retention_days 3650 && leb s.cache_max_mb 102_400)
        bad_retention
    ensure (database_name_ok s.db.database) bad_database_name
    ensure (one_of (text "doccraft_agent" ∷ text "doccraft_agent_test" ∷ []) s.db.database)
        other_database
    ensure (concurrency_ok s) bad_concurrency
    ensure (ltb 0 s.max_file_bytes && leb s.max_file_bytes (100 * 1024 * 1024)) bad_file_size
    ensure (limits_ok s.llm) bad_limits
    ensure (has_room s.llm) no_room
    ensure (token_mode_ok s.llm) bad_token_mode
    ensure (one_of (text "max_tokens" ∷ text "max_completion_tokens" ∷ []) s.llm.output_parameter)
        bad_output_parameter
    ensure (reasoning_ok s.llm) bad_reasoning
    ensure (effort_ok s.llm) bad_effort
    ensure (proxy_ok s.llm) bad_proxy
    ensure (rates_ok s.llm) bad_rates
    ensure (prices_ok s.llm) bad_prices
    url ← or_url (env.parse_url s.llm.base_url)
    ensure (url_ok url) url_not_http
