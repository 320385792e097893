-- ===== src/Model.antt =====
-- backend/src/model.rs: the serialized shapes that cross module boundaries. `f64` is the type
-- parameter F; `serde_json::Value`, `RunView` and `EventView` are only displayed, and left out.
use doc_craft_agent.Prelude.{ℕ, ◌*◌, Bool, false, Option, none, List, [], Text, text}

pub record DbConfig : Type 0 where
  pub host : Text
  pub port : ℕ
  pub database : Text
  pub user : Text
  pub password : Text
  pub tls : Bool
  pub max_connections : ℕ

pub record LlmConfig (F : Type 0) : Type 0 where
  pub base_url : Text
  pub api_key : Text
  pub model : Text
  pub context_limit : ℕ
  pub model_context_limit : ℕ
  pub max_output_tokens : ℕ
  pub model_max_output : ℕ
  pub safety_percent : ℕ
  pub token_mode : Text
  pub token_count_url : Text
  pub output_parameter : Text
  pub reasoning : Text
  pub effort : Text
  pub reasoning_parameter : Text
  pub proxy_mode : Text
  pub proxy_url : Text
  pub proxy_user : Text
  pub proxy_password : Text
  pub ca_path : Text
  pub timeout_seconds : ℕ
  pub retries : ℕ
  pub concurrency : ℕ
  pub rpm : ℕ
  pub tpm : ℕ
  pub input_price : F
  pub output_price : F

pub record Settings (F : Type 0) : Type 0 where
  pub db : DbConfig
  pub llm : LlmConfig F
  pub source_roots : List Text
  pub output_roots : List Text
  pub max_jobs : ℕ
  pub max_file_bytes : ℕ
  pub retention_days : ℕ
  pub cache_max_mb : ℕ

pub record TaskConfig (F : Type 0) : Type 0 where
  pub id : Text
  pub name : Text
  pub sources : List Text
  pub target : Text
  pub direction : Text
  pub language : Text
  pub include : List Text
  pub exclude : List Text
  pub max_iterations : ℕ
  pub max_diagrams : Option ℕ
  pub max_seconds : ℕ
  pub max_tokens : ℕ
  pub max_cost : F
  pub preview_outline : Bool

-- The `Default` of each, the last three over the zero of `f64`.
abbrev pub default_db : DbConfig
default_db = record {
  host = text "127.0.0.1";
  port = 3306;
  database = text "doccraft_agent";
  user = text "root";
  password = text "";
  tls = false;
  max_connections = 8;
}

abbrev pub default_llm : {F : Type 0} → F → LlmConfig F
default_llm zero_f64 = record {
  base_url = text "http://127.0.0.1:8000/v1";
  api_key = text "";
  model = text "";
  context_limit = 200_000;
  model_context_limit = 200_000;
  max_output_tokens = 16384;
  model_max_output = 32768;
  safety_percent = 20;
  token_mode = text "estimate";
  token_count_url = text "";
  output_parameter = text "max_completion_tokens";
  reasoning = text "off";
  effort = text "medium";
  reasoning_parameter = text "reasoning_effort";
  proxy_mode = text "none";
  proxy_url = text "";
  proxy_user = text "";
  proxy_password = text "";
  ca_path = text "";
  timeout_seconds = 180;
  retries = 3;
  concurrency = 2;
  rpm = 30;
  tpm = 300_000;
  input_price = zero_f64;
  output_price = zero_f64;
}

abbrev pub default_settings : {F : Type 0} → F → Settings F
default_settings zero_f64 = record {
  db = default_db;
  llm = default_llm zero_f64;
  source_roots = [];
  output_roots = [];
  max_jobs = 2;
  max_file_bytes = 20 * 1024 * 1024;
  retention_days = 30;
  cache_max_mb = 1024;
}

abbrev pub default_task : {F : Type 0} → F → TaskConfig F
default_task zero_f64 = record {
  id = text "";
  name = text "";
  sources = [];
  target = text "";
  direction = text "";
  language = text "한국어";
  include = [];
  exclude = [];
  max_iterations = 3;
  max_diagrams = none;
  max_seconds = 7200;
  max_tokens = 2_000_000;
  max_cost = zero_f64;
  preview_outline = false;
}

pub record RunSnapshot (F : Type 0) : Type 0 where
  pub task : TaskConfig F
  pub settings : Settings F
  pub original_hash : Option Text

pub record SectionPlan : Type 0 where
  pub id : Text
  pub title : Text
  pub query : Text
  pub reader_question : Text
  pub handoff : Text
  pub diagrams : Option (List Text)
  pub depends_on : List ℕ
  pub evidence_ids : List Text
  pub owns_requirement_ids : List Text
  pub key_points : List Text
  pub out_of_scope : List Text
  pub branches : List Text

pub record BranchExclusion : Type 0 where
  pub branch : Text
  pub reason : Text

pub record Requirement : Type 0 where
  pub id : Text
  pub question : Text

pub record Outline : Type 0 where
  pub sections : List SectionPlan
  pub reader_goal : Text
  pub storyline : Text
  pub terminology : List Text
  pub requirements : List Requirement
  pub revision : ℕ
  pub excluded_branches : List BranchExclusion

pub record OutlineIssue : Type 0 where
  pub severity : Text
  pub code : Text
  pub message : Text
  pub section_ids : List Text
  pub requirement_ids : List Text
  pub query : Text

pub record OutlineReview : Type 0 where
  pub issues : List OutlineIssue

pub record Evidence : Type 0 where
  pub id : Text
  pub path : Text
  pub start : ℕ
  pub end : ℕ
  pub content : Text
