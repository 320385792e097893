-- ===== src/Llm/Answers.antt =====
-- How an answer of the provider is judged in backend/src/llm.rs.
use doc_craft_agent.Prelude.{
  ℕ, ◌-◌, ◌/◌, Bool, false, ◌&&◌, ◌||◌, Option, none, some, leb, ltb, ◌==◌, Text, text, text_eq,
}
use doc_craft_agent.Prelude.Words.{saturating_mul}
use doc_craft_agent.Source.{has_part}

-- by the number of the HTTP status
unfoldable pub retryable_status : ℕ → Bool
retryable_status status = status == 429 || (leb 500 status && leb status 599)

-- far less than a byte and a fifth for each visible token
unfoldable pub content_dropped : ℕ → ℕ → Option ℕ → Bool
content_dropped visible_bytes output_tokens none = false
content_dropped visible_bytes output_tokens (some reasoning) =
    let visible = output_tokens - reasoning in
    leb 1000 visible && ltb (saturating_mul visible_bytes 10) (saturating_mul visible 12)

unfoldable pub reasoning_dominated : ℕ → Option ℕ → Bool
reasoning_dominated output none = false
reasoning_dominated output (some r) = ltb 0 output && leb 75 (saturating_mul r 100 / output)

unfoldable pub provider_quota_exhausted : Text → Text → Bool
unfolding has_part
provider_quota_exhausted code message =
    text_eq code (text "insufficient_quota")
    || has_part message (text "free-models-per-day")
    || has_part message (text "daily quota")
    || has_part message (text "insufficient credits")
